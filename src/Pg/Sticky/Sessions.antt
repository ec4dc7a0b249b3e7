-- ===== src/Pg/Sticky/Sessions.antt =====
-- What a whole session sends to the shadow.
use starrocks_shadow_proxy.Filter.Decision.{Verdict}
use starrocks_shadow_proxy.Pg.Protocol.{
  PgPacket, extract_pg_query_text, extract_pg_parse_stmt_name, extract_pg_bind_stmt_name,
  extract_pg_close_target, extract_pg_describe_target,
}
use starrocks_shadow_proxy.Pg.Sticky.{
  Tracker, insert, delete, remember, should_mirror_pg_frame, mirror_frame, mirror_session,
  pg_sticky_stmt_map_cap,
}
use starrocks_shadow_proxy.Pg.Sticky.Tracking.{
  closes, refers, parse_dropped, same_name, frame_bounded, frame_resets, frame_sticks,
  contains-insert_self,
}
use starrocks_shadow_proxy.Prelude.{
  ◌≤◌, ◌≡◌, refl, Bool, true, false, not, ◌||◌, List, [], ◌∷◌, ◌++◌, Bytes, length, ◌==◌,
  if◌then◌else◌, arith,
}
use starrocks_shadow_proxy.Prelude.Text.{bytes_eq, bytes_eq_iff, contains, is_empty}

unfoldable pub any_frame : (PgPacket → Bool) → List PgPacket → Bool
any_frame p [] = false
any_frame p (f ∷ fs) = p f || any_frame p fs

unfoldable pub only_frames : (PgPacket → Bool) → List PgPacket → List PgPacket
only_frames p [] = []
only_frames p (f ∷ fs) = if p f then f ∷ only_frames p fs else only_frames p fs

session_resets :
    (mirror : Bytes → Verdict) (fs : List PgPacket) (t : Tracker)
    → t.resets ≤ (mirror_session mirror fs t).1.resets
unfolding mirror_session
session_resets mirror [] t = omega arith
session_resets mirror (f ∷ fs) t =
    ground (arith, session_resets mirror fs (mirror_frame mirror f t).1, frame_resets mirror f t)

-- The tracked names stay within the cap whatever frames the client sends.
pub mirror_session-length :
    (mirror : Bytes → Verdict) (fs : List PgPacket) (t : Tracker)
    → length t.names ≤ pg_sticky_stmt_map_cap
    → length (mirror_session mirror fs t).1.names ≤ pg_sticky_stmt_map_cap
unfolding mirror_session
mirror_session-length mirror [] t h = h
mirror_session-length mirror (f ∷ fs) t h =
    mirror_session-length mirror fs (mirror_frame mirror f t).1 (frame_bounded mirror f t h)

module _ (mirror : Bytes → Verdict) (n : Bytes) (named : is_empty n ≡ false) where
  -- A tracked name hides every frame that refers to it, also the one that closes it.
  frame_hides :
      (f : PgPacket) (t : Tracker)
      → contains t.names n ≡ true
      → (mirror_frame mirror f t).0 ≡ true
      → refers n f ≡ false
  unfolding mirror_frame should_mirror_pg_frame
  frame_hides f t h k = ground (
    arith,
    same_name (extract_pg_bind_stmt_name f) n t.names named h,
    same_name (extract_pg_describe_target f).1 n t.names named h,
    same_name (extract_pg_close_target f).1 n t.names named h,
  )

  session_hides :
      (fs : List PgPacket) (last : PgPacket) (t : Tracker)
      → contains t.names n ≡ true
      → any_frame (closes n) fs ≡ false
      → (mirror_session mirror (fs ++ last ∷ []) t).1.resets ≡ t.resets
      → any_frame (refers n) (mirror_session mirror (fs ++ last ∷ []) t).0 ≡ false
  unfolding mirror_session any_frame
  session_hides [] last t h c k = ground (arith, frame_hides last t h)
  session_hides (f ∷ fs) last t h c k = ground (
    arith,
    frame_sticks mirror f t n named h,
    frame_resets mirror f t,
    session_resets mirror (fs ++ last ∷ []) (mirror_frame mirror f t).1,
    session_hides fs last (mirror_frame mirror f t).1,
  )

  dropped_tracked :
      (p : PgPacket) (t : Tracker)
      → parse_dropped mirror n p ≡ true
      → (contains (mirror_frame mirror p t).1.names n ≡ true)
        × ((mirror_frame mirror p t).0 ≡ false)
  unfolding mirror_frame should_mirror_pg_frame remember
  dropped_tracked p t h = ground (
    arith,
    bytes_eq_iff (extract_pg_parse_stmt_name p) n,
    contains-insert_self n t.names,
    contains-insert_self n [],
  )

-- A named Parse that the filter drops hides its statement: of the frames that follow it, up to and
-- with the first Close of the statement, none that binds, describes or closes it is sent to the
-- shadow, unless the map overflows among them.
pub mirror_session-hides :
    (mirror : Bytes → Verdict) (n : Bytes)
    → is_empty n ≡ false
    → (p : PgPacket) (fs : List PgPacket) (last : PgPacket) (t : Tracker)
    → parse_dropped mirror n p ≡ true
    → any_frame (closes n) fs ≡ false
    → (mirror_session mirror (p ∷ (fs ++ last ∷ [])) t).1.resets
      ≡ (mirror_frame mirror p t).1.resets
    → any_frame (refers n) (mirror_session mirror (p ∷ (fs ++ last ∷ [])) t).0 ≡ false
unfolding mirror_session any_frame
mirror_session-hides mirror n named p fs last t h c k = ground (
  arith,
  dropped_tracked mirror n named p t h,
  session_hides mirror n named fs last (mirror_frame mirror p t).1,
)

untracked :
    (n m : Bytes) (xs : List Bytes) → contains xs n ≡ false → contains (delete m xs) n ≡ false
unfolding contains delete
untracked n m [] h = refl
untracked n m (x ∷ xs) h = ground (arith, untracked n m xs)

module _ (mirror : Bytes → Verdict) (n : Bytes) where
  contains_eq : (m : Bytes) (xs : List Bytes) → bytes_eq m n ≡ true → contains xs n ≡ contains xs m
  contains_eq m xs h = ground (arith, bytes_eq_iff m n)

  remember_other :
      (m : Bytes) (t : Tracker)
      → bytes_eq m n ≡ false
      → contains t.names n ≡ false
      → contains (remember m t).names n ≡ false
  unfolding remember insert contains
  remember_other m t h k = ground arith

  frame_passes :
      (f : PgPacket) (t : Tracker)
      → contains t.names n ≡ false
      → parse_dropped mirror n f ≡ false
      → (contains (mirror_frame mirror f t).1.names n ≡ false)
        × (refers n f ≡ true → (mirror_frame mirror f t).0 ≡ true)
  unfolding mirror_frame should_mirror_pg_frame
  frame_passes f t h k = ground (
    arith,
    remember_other (extract_pg_parse_stmt_name f) t,
    untracked n (extract_pg_close_target f).1 t.names h,
    untracked n (extract_pg_close_target f).1 (delete (extract_pg_close_target f).1 t.names),
    contains_eq (extract_pg_bind_stmt_name f) t.names,
    contains_eq (extract_pg_describe_target f).1 t.names,
    contains_eq (extract_pg_close_target f).1 t.names,
  )

-- A statement whose Parse the filter never dropped is not touched by the tracking: every Bind,
-- Describe and Close of it is sent to the shadow, in the client's order.
pub mirror_session-passes :
    (mirror : Bytes → Verdict) (n : Bytes) (fs : List PgPacket) (t : Tracker)
    → contains t.names n ≡ false
    → any_frame (parse_dropped mirror n) fs ≡ false
    → only_frames (refers n) (mirror_session mirror fs t).0 ≡ only_frames (refers n) fs
unfolding mirror_session only_frames any_frame
mirror_session-passes mirror n [] t h k = refl
mirror_session-passes mirror n (f ∷ fs) t h k = ground (
  arith,
  frame_passes mirror n f t h,
  mirror_session-passes mirror n fs (mirror_frame mirror f t).1,
)

contains_none : (n : Bytes) (xs : List Bytes) → xs ≡ [] → contains xs n ≡ false
unfolding contains
contains_none n xs h = rw h refl

delete_none : (n : Bytes) (xs : List Bytes) → xs ≡ [] → delete n xs ≡ []
unfolding delete
delete_none n xs h = rw h refl

frame_sent :
    (mirror : Bytes → Verdict)
    → ((q : Bytes) → (mirror q).0 ≡ true)
    → (f : PgPacket) (t : Tracker) → t.names ≡ []
    → ((mirror_frame mirror f t).0 ≡ not (f.type_byte == b'X'))
      × ((mirror_frame mirror f t).1.names ≡ [])
unfolding mirror_frame should_mirror_pg_frame
frame_sent mirror all f t h = ground (
  arith,
  all (extract_pg_query_text f),
  contains_none (extract_pg_bind_stmt_name f) t.names h,
  contains_none (extract_pg_describe_target f).1 t.names h,
  contains_none (extract_pg_close_target f).1 t.names h,
  delete_none (extract_pg_close_target f).1 t.names h,
)

-- With a filter that drops nothing and no name tracked, the shadow is sent the client's frames, all
-- but the Terminates, and the tracker does not change.
pub mirror_session-all :
    (mirror : Bytes → Verdict)
    → ((q : Bytes) → (mirror q).0 ≡ true)
    → (fs : List PgPacket) (t : Tracker) → t.names ≡ []
    → ((mirror_session mirror fs t).0 ≡ only_frames (λ f. not (f.type_byte == b'X')) fs)
      × ((mirror_session mirror fs t).1.names ≡ [])
unfolding mirror_session only_frames
mirror_session-all mirror all [] t h = (refl, h)
mirror_session-all mirror all (f ∷ fs) t h = ground (
  arith,
  frame_sent mirror all f t h,
  mirror_session-all mirror all fs (mirror_frame mirror f t).1,
)
