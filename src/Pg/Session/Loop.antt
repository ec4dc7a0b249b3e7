-- ===== src/Pg/Session/Loop.antt =====
-- runQueryLoop as a whole: it ends, and what it sends to the shadow is what `mirror_session` makes
-- of the frames that it sends to the primary.
use starrocks_shadow_proxy.Net.{Conn}
use starrocks_shadow_proxy.Net.Arrival.{arriving}
use starrocks_shadow_proxy.Pg.Protocol.{PgPacket, bytes, read_message}
use starrocks_shadow_proxy.Pg.Protocol.Messages.{wire, wires, TakesMessage, read_message-Takes}
use starrocks_shadow_proxy.Pg.Session.{
  Session, Peers, Next, goes_on, returns, copies, frame_request, serve, after_write, after_read,
  round, continue_loop, run_query_loop,
}
use starrocks_shadow_proxy.Pg.Session.Forwarded.{Replied, some_inner, length-wire}
use starrocks_shadow_proxy.Pg.Sticky.{mirror_frame, mirror_session}
use starrocks_shadow_proxy.Pg.Worker.Latch.{payloads}
use starrocks_shadow_proxy.Prelude.{
  ℕ, zero, suc, ◌<◌, ◌≡◌, ◌≢◌, ◌⊎◌, refl, sym, ap, ◌∙◌, Bool, true, false, Bytes, List, [], ◌∷◌,
  ◌++◌, append_assoc, append-nil, map, length, length-append, if◌then◌else◌, some, inl, inr, arith,
}
use starrocks_shadow_proxy.Prelude.Outcome.{out_of_fuel, Outcome, ok, err}
use starrocks_shadow_proxy.Pg.Session.Rounds.{
  Delivered, SentOne, SentNone, Rounds, after_write-Rounds, returns_inner,
}

module _ {P D : Type 0} (peers : Peers P D) (sent : P → List Bytes) (taken : D → Bytes) where
  abbrev Shrinks : Session P D → Next × Session P D → Type 0
  Shrinks s out =
      out.0 ≡ goes_on → length (arriving out.1.client_in) < length (arriving s.client_in)

  -- A round took a frame of the client's stream and sent it, or has sent nothing and ends the loop.
  abbrev Heard : Session P D → Next × Session P D → Type 0
  Heard s out =
      ((SentNone peers sent taken s out.1 × (out.0 ≢ goes_on))
        ⊎ ((msg : PgPacket) × (arriving s.client_in ≡ wire msg ++ arriving out.1.client_in)
            × (peers.has_shadow ≡ true → SentOne peers sent taken s msg out.1)))
      × (out.0 ≢ returns (some out_of_fuel))

  heard :
      (msg : PgPacket) (c : Conn) (s : Session P D) (out : Next × Session P D)
      → arriving s.client_in ≡ wire msg ++ arriving c
      → out.1.client_in ≡ c
      → Rounds peers sent taken msg (record s { client_in = c; served = suc s.served }) out
      → Heard s out
  heard msg c s out t kept (inl k, n) = (inl k, n)
  heard msg c s out t kept (inr one, n) =
      (inr (msg, t ∙ ap (λ z. wire msg ++ arriving z) (sym kept), one), n)

  module _ (replies : (bs : Bytes) (d : D) → Replied peers taken bs d (peers.reply bs d))
      (delivers : (bs : Bytes) (c : P) → Delivered peers sent taken bs c (peers.write bs c)) where
    round-Rounds : (s : Session P D) → Heard s (round peers s) × Shrinks s (round peers s)
    unfolding round after_read serve
    round-Rounds s = by_read (read_message s.client_in) (read_message-Takes s.client_in)
      where
        by_read :
            (out : Outcome Conn PgPacket)
            → TakesMessage s.client_in out
            → Heard s (after_read peers s out) × Shrinks s (after_read peers s out)
        by_read (err e c) k =
            ((inl ((refl, refl, refl), λ x. cc), λ x. k (some_inner (returns_inner x))), λ x. cc)
        by_read (ok msg c) t =
            let q = record s { client_in = c; served = suc s.served } in
            let out = peers.write (bytes msg) s.primary_conn in
            let req = frame_request peers (peers.uuid s.served) msg in
            let (rounds, kept) =
              after_write-Rounds peers sent taken replies msg req q out
                (delivers (bytes msg) s.primary_conn) in
            (
              heard msg c s (after_write peers msg req out q) t kept rounds,
              λ _. rw (kept) (
                  omega
                    (arith, ap length t, length-append (wire msg) (arriving c), length-wire msg)),
            )

    -- The frames `xs` came off the front of the client's stream, and went to the primary, and to the shadow what `mirror_session` keeps of them.
    abbrev pub SentAll : Session P D → List PgPacket → Session P D → Type 0
    SentAll s xs q =
        let m = mirror_session peers.mirror xs s.filtered_stmt_names in
        (sent q.primary_conn ≡ sent s.primary_conn ++ map bytes xs)
        × (payloads q.frames ≡ payloads s.frames ++ map bytes m.0)
        × (q.filtered_stmt_names ≡ m.1)
        × ((rest : Bytes) × (arriving s.client_in ≡ wires xs ++ rest))

    SentNone-SentAll : (s q : Session P D) → SentNone peers sent taken s q → SentAll s [] q
    unfolding mirror_session wires
    SentNone-SentAll s q (a, b, c) = (
      a ∙ sym (append-nil (sent s.primary_conn)),
      ap payloads b ∙ sym (append-nil (payloads s.frames)),
      c,
      (arriving s.client_in, refl),
    )

    map_if :
        (b : Bool) (fs : List Bytes) (x : PgPacket) (rest : List PgPacket)
        → (fs ++ (if b then bytes x ∷ [] else [])) ++ map bytes rest
          ≡ fs ++ map bytes (if b then x ∷ rest else rest)
    map_if true fs x rest = append_assoc fs (bytes x ∷ []) (map bytes rest)
    map_if false fs x rest = ap (λ z. z ++ map bytes rest) (append-nil fs)

    SentOne-SentAll :
        (s q r : Session P D) (x : PgPacket) (xs : List PgPacket)
        → arriving s.client_in ≡ wire x ++ arriving q.client_in
        → SentOne peers sent taken s x q
        → SentAll q xs r
        → SentAll s (x ∷ xs) r
    unfolding mirror_session wires
    SentOne-SentAll s q r x xs t (a, b, c) (a', b', c', (rest, d)) =
        let m = mirror_frame peers.mirror x s.filtered_stmt_names in
        (
          a'
              ∙ ap (λ z. z ++ map bytes xs) a
              ∙ append_assoc (sent s.primary_conn) (bytes x ∷ []) (map bytes xs),
          b'
              ∙ ap (λ z. z ++ map bytes (mirror_session peers.mirror xs q.filtered_stmt_names).0) b
              ∙ ap
                  (λ t.
                    (payloads s.frames ++ (if m.0 then bytes x ∷ [] else []))
                    ++ map bytes (mirror_session peers.mirror xs t).0)
                  c
              ∙ map_if m.0 (payloads s.frames) x (mirror_session peers.mirror xs m.1).0,
          c' ∙ ap (λ t. (mirror_session peers.mirror xs t).1) c,
          (rest, t ∙ ap (λ z. wire x ++ z) d ∙ sym (append_assoc (wire x) (wires xs) rest)),
        )

    continue_loop-SentAll :
        (s : Session P D) (out rest : Next × Session P D)
        → peers.has_shadow ≡ true
        → Heard s out
        → ((xs : List PgPacket) × SentAll out.1 xs rest.1)
        → (xs : List PgPacket) × SentAll s xs (continue_loop peers out.0 out.1 rest).1
    unfolding continue_loop
    continue_loop-SentAll s (goes_on, q) rest on (inl (_, k), _) more = absurd (k refl)
    continue_loop-SentAll s (goes_on, q) rest on (inr (x, t, one), _) (xs, more) =
        (x ∷ xs, SentOne-SentAll s q rest.1 x xs t (one on) more)
    continue_loop-SentAll s (returns e, q) rest on (inl (none_sent, _), _) more =
        ([], SentNone-SentAll s q none_sent)
    continue_loop-SentAll s (returns e, q) rest on (inr (x, t, one), _) more =
        (x ∷ [], SentOne-SentAll s q q x [] t (one on) (SentNone-SentAll q q (refl, refl, refl)))
    continue_loop-SentAll s (copies, q) rest on (inl (none_sent, _), _) more =
        ([], SentNone-SentAll s q none_sent)
    continue_loop-SentAll s (copies, q) rest on (inr (x, t, one), _) more =
        (x ∷ [], SentOne-SentAll s q q x [] t (one on) (SentNone-SentAll q q (refl, refl, refl)))

    -- Of a client that takes whole messages, a primary whose failed writes send nothing, and with a
    -- shadow worker: the loop refines `mirror_session`. It writes messages off the front of the
    -- client's stream to the primary, as Bytes writes them, and calls Send with those of them that
    -- `mirror_session` keeps, each once and in order, and the names it tracks are the ones that
    -- `mirror_session` leaves, no matter how the loop ends. A frame whose write to the primary
    -- failed is not mirrored.
    pub run_query_loop-SentAll :
        peers.has_shadow ≡ true
        → (fuel : ℕ) (s : Session P D)
        → (xs : List PgPacket) × SentAll s xs (run_query_loop peers fuel s).1
    unfolding run_query_loop
    run_query_loop-SentAll on zero s = ([], SentNone-SentAll s s (refl, refl, refl))
    run_query_loop-SentAll on (suc fuel) s =
        continue_loop-SentAll s (round peers s) (run_query_loop peers fuel (round peers s).1) on
          (round-Rounds s).0 (run_query_loop-SentAll on fuel (round peers s).1)

    -- Of a client that takes whole messages, a primary whose failed writes send nothing, and writes
    -- that do not fail with the model's own error, with a shadow worker or without: the loop ends.
    -- With more fuel than bytes arrive from the client it returns or goes over to copyFallback,
    -- and neither it nor the forwarding of a response inside it is cut short.
    pub run_query_loop-Ends :
        (fuel : ℕ) (s : Session P D)
        → length (arriving s.client_in) < fuel
        → let next = (run_query_loop peers fuel s).0 in
          (next ≢ goes_on) × (next ≢ returns (some out_of_fuel))
    unfolding run_query_loop continue_loop
    run_query_loop-Ends zero s h = absurd (omega arith)
    run_query_loop-Ends (suc fuel) s h =
        by_round (round peers s) (round-Rounds s) (λ q k. run_query_loop-Ends fuel q k)
      where
        by_round :
            (out : Next × Session P D)
            → Heard s out × Shrinks s out
            → ((q : Session P D)
                → length (arriving q.client_in) < fuel
                → ((run_query_loop peers fuel q).0 ≢ goes_on)
                  × ((run_query_loop peers fuel q).0 ≢ returns (some out_of_fuel)))
            → let next = (continue_loop peers out.0 out.1 (run_query_loop peers fuel out.1)).0 in
              (next ≢ goes_on) × (next ≢ returns (some out_of_fuel))
        by_round (goes_on, q) (_, k) ih = ih q (omega (arith, k refl))
        by_round (returns e, q) ((_, k), _) ih = ((λ x. cc), k)
        by_round (copies, q) (_, k) ih = ((λ x. cc), λ x. cc)
