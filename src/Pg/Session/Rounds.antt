-- ===== src/Pg/Session/Rounds.antt =====
-- One round of runQueryLoop: what it sends, and that it goes on with fewer bytes to come.
use starrocks_shadow_proxy.MySql.Log.{QueryRequest}
use starrocks_shadow_proxy.Net.Arrival.{arriving}
use starrocks_shadow_proxy.Pg.Protocol.{PgPacket, bytes}
use starrocks_shadow_proxy.Pg.Session.{
  Session, Peers, Response, Next, goes_on, returns, copies, is_answered,
  forward_response_until_ready, logged_entry, mirror_pg_frame, after_response, after_write,
}
use starrocks_shadow_proxy.Pg.Session.Forwarded.{
  Replied, Same, forward_response_until_ready-Forwards, some_inner,
}
use starrocks_shadow_proxy.Pg.Sticky.{mirror_frame}
use starrocks_shadow_proxy.Pg.Worker.Latch.{payloads}
use starrocks_shadow_proxy.Prelude.{
  ℕ, suc, ◌≡◌, ◌≢◌, ◌⊎◌, refl, ap, ◌∙◌, Bool, true, false, not, Bytes, List, [], ◌∷◌, ◌++◌, length,
  ◌==◌, if◌then◌else◌, Option, none, some, inl, inr, arith,
}
use starrocks_shadow_proxy.Prelude.Outcome.{Error, out_of_fuel}
use starrocks_shadow_proxy.Pg.Session.Mirrored.{
  Keeps, Mirrors, mirror_pg_frame-Keeps, mirror_pg_frame-Mirrors,
}

pub returns_inner : {e f : Option Error} → returns e ≡ returns f → e ≡ f
returns_inner h = cc

module _ {P D : Type 0} (peers : Peers P D) where
  -- What a round does behind the mirroring: it leaves all this alone, and the error it returns is
  -- not the model's.
  abbrev Good : Session P D → Next × Session P D → Type 0
  Good s out = Same s out.1 × (out.0 ≢ returns (some out_of_fuel))

  Same-trans : (s q r : Session P D) → Same s q → Same q r → Same s r
  Same-trans s q r (a, b, c, d, e) (a', b', c', d', e') = (a' ∙ a, b' ∙ b, c' ∙ c, d' ∙ d, e' ∙ e)

  after_response-Good :
      (req : QueryRequest) (n : ℕ) (r : Response P D)
      → r.error ≢ some out_of_fuel
      → Good r.session (after_response peers req n r)
  unfolding after_response
  after_response-Good req n r h = by_error r.error h
    where
      by_copy :
          (b : Bool)
          → Good r.session
              (if b then copies else goes_on, logged_entry peers req n r.total none r.session)
      by_copy true = ((refl, refl, refl, refl, refl), λ k. cc)
      by_copy false = ((refl, refl, refl, refl, refl), λ k. cc)

      by_error :
          (e : Option Error)
          → e ≢ some out_of_fuel
          → Good r.session (elim e [
            | some x ↦ (returns (some x), logged_entry peers req n r.total (some x) r.session)
            | none ↦ (
              if r.copy_mode then copies else goes_on,
              logged_entry peers req n r.total none r.session,
            )
          ])
      by_error (some x) k = ((refl, refl, refl, refl, refl), λ m. k (returns_inner m))
      by_error none k = by_copy r.copy_mode

  module _ (sent : P → List Bytes) (taken : D → Bytes) where
    -- A primary that has taken a message whole, or reports an error.
    abbrev pub Delivered : Bytes → P → ℕ × (Option Error × P) → Type 0
    Delivered bs c (n, (none, c')) = sent c' ≡ sent c ++ (bs ∷ [])
    Delivered bs c (n, (some e, c')) = (sent c' ≡ sent c) × (e ≢ out_of_fuel)

    -- One frame went to the primary, and to the shadow if `mirror_frame` says so.
    abbrev pub SentOne : Session P D → PgPacket → Session P D → Type 0
    SentOne s msg q =
        let m = mirror_frame peers.mirror msg s.filtered_stmt_names in
        (sent q.primary_conn ≡ sent s.primary_conn ++ (bytes msg ∷ []))
        × (payloads q.frames ≡ payloads s.frames ++ (if m.0 then bytes msg ∷ [] else []))
        × (q.filtered_stmt_names ≡ m.1)

    abbrev pub SentNone : Session P D → Session P D → Type 0
    SentNone s q =
        (sent q.primary_conn ≡ sent s.primary_conn)
        × (q.frames ≡ s.frames)
        × (q.filtered_stmt_names ≡ s.filtered_stmt_names)

    -- A round that goes on has sent its frame.
    abbrev pub Rounds : PgPacket → Session P D → Next × Session P D → Type 0
    Rounds msg s out =
        ((SentNone s out.1 × (out.0 ≢ goes_on)) ⊎ (peers.has_shadow ≡ true → SentOne s msg out.1))
        × (out.0 ≢ returns (some out_of_fuel))

    Mirrors-SentOne :
        (msg : PgPacket) (s : Session P D) (c : P) (s' q : Session P D)
        → sent c ≡ sent s.primary_conn ++ (bytes msg ∷ [])
        → Mirrors peers msg (record s { primary_conn = c }) s'
        → Same s' q
        → SentOne s msg q
    Mirrors-SentOne msg s c s' q h (names, frames, (_, _, conn, _, _))
          (_, conn', names', frames', _) =
        (ap sent (conn' ∙ conn) ∙ h, ap payloads frames' ∙ frames, names' ∙ names)

    pub after_write-Rounds :
        ((bs : Bytes) (d : D) → Replied peers taken bs d (peers.reply bs d))
        → (msg : PgPacket) (req : QueryRequest) (s : Session P D) (out : ℕ × (Option Error × P))
        → Delivered (bytes msg) s.primary_conn out
        → Rounds msg s (after_write peers msg req out s)
          × ((after_write peers msg req out s).1.client_in ≡ s.client_in)
    unfolding after_write
    after_write-Rounds replies msg req s (n, (some e, c)) (h, k) =
        ((inl ((h, refl, refl), λ x. cc), λ x. k (some_inner (returns_inner x))), refl)
    after_write-Rounds replies msg req s (n, (none, c)) h =
        by_kind (msg.type_byte == b'X') (is_answered msg)
      where
        s' : Session P D
        s' = mirror_pg_frame peers req msg (record s { primary_conn = c })

        kept : Keeps peers (record s { primary_conn = c }) s'
        kept = mirror_pg_frame-Keeps peers req msg (record s { primary_conn = c })

        r : Response P D
        r = forward_response_until_ready peers (suc (length (arriving s'.primary_in))) 0 s'

        close :
            (out : Next × Session P D)
            → Good s' out
            → Rounds msg s out × (out.1.client_in ≡ s.client_in)
        close out (same, k) =
            let (first, _, _, _, _) = kept in
            let (second, _, _, _, _) = same in
            let one : peers.has_shadow ≡ true → SentOne s msg out.1 = λ on.
              Mirrors-SentOne msg s c s' out.1 h
                (mirror_pg_frame-Mirrors peers req msg (record s { primary_conn = c }) on) same in
            ((inr one, k), second ∙ first)

        response : Good s' (after_response peers req n r)
        response =
            let (ended, _, same) =
              forward_response_until_ready-Forwards peers taken replies
                (suc (length (arriving s'.primary_in))) 0 s' (omega arith) in
            let (same', k) = after_response-Good req n r ended in
            (Same-trans s' r.session (after_response peers req n r).1 same same', k)

        by_kind :
            (x a : Bool)
            → let out : Next × Session P D =
                if x
                then (returns none, logged_entry peers req n 0 none s')
                else if not a
                then (goes_on, logged_entry peers req n 0 none s')
                else after_response peers req n r in
              Rounds msg s out × (out.1.client_in ≡ s.client_in)
        by_kind true a =
            close (returns none, logged_entry peers req n 0 none s')
              ((refl, refl, refl, refl, refl), λ x. cc)
        by_kind false false =
            close (goes_on, logged_entry peers req n 0 none s')
              ((refl, refl, refl, refl, refl), λ x. cc)
        by_kind false true = close (after_response peers req n r) response
