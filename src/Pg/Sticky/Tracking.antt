-- ===== src/Pg/Sticky/Tracking.antt =====
-- What the tracked names are good for.
use starrocks_shadow_proxy.Filter.Decision.{Verdict}
use starrocks_shadow_proxy.Pg.Protocol.{
  PgPacket, extract_pg_query_text, extract_pg_parse_stmt_name, extract_pg_bind_stmt_name,
  extract_pg_close_target, extract_pg_describe_target,
}
use starrocks_shadow_proxy.Pg.Sticky.{
  Tracker, insert, delete, remember, should_mirror_pg_frame, mirror_frame, pg_sticky_stmt_map_cap,
}
use starrocks_shadow_proxy.Prelude.{
  suc, ◌≤◌, ◌≡◌, refl, Bool, true, false, not, ◌&&◌, ◌||◌, List, [], ◌∷◌, Bytes, length, ◌==◌,
  arith,
}
use starrocks_shadow_proxy.Prelude.Text.{bytes_eq, bytes_eq_iff, contains, is_empty}

pub length-delete : (n : Bytes) (xs : List Bytes) → length (delete n xs) ≤ length xs
unfolding delete
length-delete n [] = omega arith
length-delete n (x ∷ xs) = ground (arith, length-delete n xs)

pub contains-delete_self : (n : Bytes) (xs : List Bytes) → contains (delete n xs) n ≡ false
unfolding delete contains
contains-delete_self n [] = refl
contains-delete_self n (x ∷ xs) = ground (arith, contains-delete_self n xs)

pub contains-delete_ne :
    (n m : Bytes) (xs : List Bytes)
    → bytes_eq m n ≡ false
    → contains (delete m xs) n ≡ contains xs n
unfolding delete contains
contains-delete_ne n m [] h = refl
contains-delete_ne n m (x ∷ xs) h =
    ground (arith, contains-delete_ne n m xs, bytes_eq_iff x m, bytes_eq_iff x n, bytes_eq_iff m n)

pub contains-insert_self : (n : Bytes) (xs : List Bytes) → contains (insert n xs) n ≡ true
unfolding insert contains
contains-insert_self n xs = ground (arith, bytes_eq_iff n n)

length-insert : (n : Bytes) (xs : List Bytes) → length (insert n xs) ≤ suc (length xs)
unfolding insert
length-insert n xs = ground arith

-- The map never outgrows its cap, whatever frames a client sends.
remember_bounded :
    (n : Bytes) (t : Tracker)
    → length t.names ≤ pg_sticky_stmt_map_cap
    → length (remember n t).names ≤ pg_sticky_stmt_map_cap
unfolding remember
remember_bounded n t h = ground (arith, length-insert n t.names, length-insert n [])

-- The frame names the statement `n`: a Bind to it, a Describe of it, a Close of it.
abbrev pub binds : Bytes → PgPacket → Bool
binds n f = f.type_byte == b'B' && bytes_eq (extract_pg_bind_stmt_name f) n

abbrev pub describes : Bytes → PgPacket → Bool
describes n f =
    f.type_byte == b'D'
    && ((extract_pg_describe_target f).0 == b'S' && bytes_eq (extract_pg_describe_target f).1 n)

abbrev pub closes : Bytes → PgPacket → Bool
closes n f =
    f.type_byte == b'C'
    && ((extract_pg_close_target f).0 == b'S' && bytes_eq (extract_pg_close_target f).1 n)

abbrev pub refers : Bytes → PgPacket → Bool
refers n f = binds n f || (describes n f || closes n f)

-- A Parse of `n` that the filter drops.
abbrev pub parse_dropped : (Bytes → Verdict) → Bytes → PgPacket → Bool
parse_dropped mirror n f =
    f.type_byte == b'P'
    && (bytes_eq (extract_pg_parse_stmt_name f) n && not (mirror (extract_pg_query_text f)).0)

pub same_name :
    (m n : Bytes) (xs : List Bytes)
    → is_empty n ≡ false
    → contains xs n ≡ true
    → bytes_eq m n ≡ true
    → (is_empty m ≡ false) × (contains xs m ≡ true)
same_name m n xs e c h = ground (arith, bytes_eq_iff m n)

module _ (mirror : Bytes → Verdict) (f : PgPacket) (t : Tracker) where
  abbrev after : Tracker
  after = (mirror_frame mirror f t).1

  pub frame_bounded :
      length t.names ≤ pg_sticky_stmt_map_cap → length after.names ≤ pg_sticky_stmt_map_cap
  unfolding mirror_frame should_mirror_pg_frame
  frame_bounded h = ground (
    arith,
    remember_bounded (extract_pg_parse_stmt_name f) t h,
    length-delete (extract_pg_close_target f).1 t.names,
    length-delete (extract_pg_close_target f).1 (delete (extract_pg_close_target f).1 t.names),
  )

  remember_resets : t.resets ≤ (remember (extract_pg_parse_stmt_name f) t).resets
  unfolding remember
  remember_resets = ground arith

  pub frame_resets : t.resets ≤ after.resets
  unfolding mirror_frame should_mirror_pg_frame
  frame_resets = ground (arith, remember_resets)

  module _ (n : Bytes) (named : is_empty n ≡ false) where
    remember_keeps :
        (m : Bytes)
        → contains t.names n ≡ true
        → (remember m t).resets ≡ t.resets
        → contains (remember m t).names n ≡ true
    unfolding remember insert contains
    remember_keeps m h k = ground arith

    -- A tracked name stays tracked, and a frame that refers to it is not sent.
    pub frame_sticks :
        contains t.names n ≡ true
        → closes n f ≡ false
        → after.resets ≡ t.resets
        → (contains after.names n ≡ true)
          × ((mirror_frame mirror f t).0 ≡ true → refers n f ≡ false)
    unfolding mirror_frame should_mirror_pg_frame
    frame_sticks h c k = ground (
      arith,
      remember_keeps (extract_pg_parse_stmt_name f) h,
      contains-delete_ne n (extract_pg_close_target f).1 t.names,
      same_name (extract_pg_bind_stmt_name f) n t.names named h,
      same_name (extract_pg_describe_target f).1 n t.names named h,
    )
