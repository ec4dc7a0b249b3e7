-- ===== src/Pg/Session/Mirrored.antt =====
-- runQueryLoop's work for the shadow: what goes to it of one frame.
use starrocks_shadow_proxy.Filter.Decision.{Verdict}
use starrocks_shadow_proxy.MySql.Log.{QueryRequest, log_filtered_shadow}
use starrocks_shadow_proxy.Pg.Protocol.{PgPacket, bytes, extract_pg_close_target}
use starrocks_shadow_proxy.Pg.Session.{Session, Peers, frame_of, mirror_pg_frame}
use starrocks_shadow_proxy.Pg.Sticky.{
  Tracker, delete, names_statement, should_mirror_pg_frame, mirror_frame,
}
use starrocks_shadow_proxy.Pg.Worker.{PgShadowFrame}
use starrocks_shadow_proxy.Pg.Worker.Latch.{payloads}
use starrocks_shadow_proxy.Prelude.{
  ℕ, ◌≡◌, refl, sym, ap, Bool, true, false, not, ◌&&◌, Bytes, List, [], ◌∷◌, ◌++◌, append-nil, ◌==◌,
  if◌then◌else◌,
}

payloads-append : (xs ys : List PgShadowFrame) → payloads (xs ++ ys) ≡ payloads xs ++ payloads ys
payloads-append [] ys = refl
payloads-append (x ∷ xs) ys = ap (λ z. x.payload ∷ z) (payloads-append xs ys)

module _ {P D : Type 0} (peers : Peers P D) where
  -- Everything but the frames, the names and the log is left alone.
  abbrev pub Keeps : Session P D → Session P D → Type 0
  Keeps s q =
      (q.client_in ≡ s.client_in)
      × (q.primary_in ≡ s.primary_in)
      × (q.primary_conn ≡ s.primary_conn)
      × (q.client ≡ s.client)
      × (q.served ≡ s.served)

  -- The shadow's side of a frame is `mirror_frame`.
  abbrev pub Mirrors : PgPacket → Session P D → Session P D → Type 0
  Mirrors msg s q =
      let m = mirror_frame peers.mirror msg s.filtered_stmt_names in
      (q.filtered_stmt_names ≡ m.1)
      × (payloads q.frames ≡ payloads s.frames ++ (if m.0 then bytes msg ∷ [] else []))
      × Keeps s q

  pub mirror_pg_frame-Keeps :
      (req : QueryRequest) (msg : PgPacket) (s : Session P D)
      → Keeps s (mirror_pg_frame peers req msg s)
  unfolding mirror_pg_frame
  mirror_pg_frame-Keeps req msg s =
      decide (not (peers.has_shadow && not (msg.type_byte == b'X')))
        (not (should_mirror_pg_frame peers.mirror msg s.filtered_stmt_names).0.0) _ _
        (refl, refl, refl, refl, refl) (refl, refl, refl, refl, refl)
    where
      decide :
          (b1 b2 : Bool) (q r : Session P D)
          → Keeps s q
          → Keeps s r
          → Keeps s (if b1 then s else if b2 then q else r)
      decide true b2 q r h k = (refl, refl, refl, refl, refl)
      decide false true q r h k = h
      decide false false q r h k = k

  pub mirror_pg_frame-Mirrors :
      (req : QueryRequest) (msg : PgPacket) (s : Session P D)
      → peers.has_shadow ≡ true
      → Mirrors msg s (mirror_pg_frame peers req msg s)
  unfolding mirror_pg_frame mirror_frame
  mirror_pg_frame-Mirrors req msg s on =
      decide (msg.type_byte == b'X') (msg.type_byte == b'C' && names_statement close)
        peers.has_shadow on (should_mirror_pg_frame peers.mirror msg s.filtered_stmt_names)
    where
      close : ℕ × Bytes
      close = extract_pg_close_target msg

      decide :
          (x c has_shadow : Bool)
          → has_shadow ≡ true
          → (v : Verdict × Tracker)
          → let m : Bool × Tracker =
              if x
              then (false, s.filtered_stmt_names)
              else if not v.0.0
              then (false, v.1)
              else if c
              then (true, record (v.1) { names = delete close.1 v.1.names })
              else (true, v.1) in
            let q : Session P D =
              if not (has_shadow && not x)
              then s
              else if not v.0.0
              then record s { filtered_stmt_names = v.1; log = log_filtered_shadow req v.0.1 s.log }
              else record s {
                frames = s.frames ++ (frame_of peers req msg ∷ []);
                filtered_stmt_names =
                    if c then record (v.1) { names = delete close.1 v.1.names } else v.1;
              } in
            (q.filtered_stmt_names ≡ m.1)
            × (payloads q.frames ≡ payloads s.frames ++ (if m.0 then bytes msg ∷ [] else []))
            × Keeps s q
      decide x c false h v = cc
      decide true c true h v =
          (refl, sym (append-nil (payloads s.frames)), (refl, refl, refl, refl, refl))
      decide false c true h ((false, r), t) =
          (refl, sym (append-nil (payloads s.frames)), (refl, refl, refl, refl, refl))
      decide false true true h ((true, r), t) = (
        refl,
        payloads-append s.frames (frame_of peers req msg ∷ []),
        (refl, refl, refl, refl, refl),
      )
      decide false false true h ((true, r), t) = (
        refl,
        payloads-append s.frames (frame_of peers req msg ∷ []),
        (refl, refl, refl, refl, refl),
      )
