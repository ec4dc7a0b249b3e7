-- ===== src/MySql/Forward/Agree.antt =====
-- Forwarding a response and discarding it take the same packets and give the same answer: the
-- primary's reader and the shadow's reader stay in step on equal streams.
use starrocks_shadow_proxy.MySql.Forward.{
  Relay, relay, forward_columns, forward_rows, forward_result_set, forward_body, forward_loop,
  read_and_forward_response,
}
use starrocks_shadow_proxy.MySql.Response.{
  Tally, next, read_columns, read_rows, read_result_set, read_body, full_loop, read_full_response,
  ends_rows, is_ok_packet,
}
use starrocks_shadow_proxy.MySql.Wire.{byte}
use starrocks_shadow_proxy.Prelude.{
  ℕ, zero, suc, ◌+◌, ◌≡◌, refl, Bool, Bytes, length, ltb, ◌==◌, if◌then◌else◌, arith,
}
use starrocks_shadow_proxy.Prelude.Outcome.{Outcome, ok, err, forward_failed, M}
use starrocks_shadow_proxy.Prelude.Rules.{Sim, Sim-bind, Sim-if, Sim-if_at}

module _ {S D : Type 0} (read_packet : M S Bytes) (write : Bytes → M D (Unit {0}))
    (accepts : (bs : Bytes) (d : D) → (d' : D) × (write bs d ≡ ok tt d')) where
  -- The same source and the same count.
  abbrev pub InStep : Relay S D → Tally S → Type 0
  InStep u t = (u.source ≡ t.source) × (u.total ≡ t.total)

  abbrev pub Agrees : {A : Type 0} → Outcome (Relay S D) A → Outcome (Tally S) A → Type 0
  Agrees = Sim InStep InStep

  relay-Agrees :
      (u : Relay S D) (t : Tally S)
      → InStep u t
      → Agrees (relay read_packet write u) (next read_packet t)
  unfolding relay next
  relay-Agrees u t (same, count) = rw same (answered (read_packet t.source))
    where
      answered :
          (out : Outcome S Bytes)
          → Agrees
              (elim out [
                | err e s ↦ err e (record u { source = s })
                | ok pkt s ↦ elim (write pkt u.dest) [
                  | err e d ↦ err forward_failed (record u { source = s; dest = d })
                  | ok _ d ↦ ok pkt (record { source = s; dest = d; total = u.total + length pkt })
                ]
              ])
              (elim out [
                | ok pkt s ↦ ok pkt (record { source = s; total = t.total + length pkt })
                | err e s ↦ err e (record { source = s; total = t.total })
              ])
      answered (err e s) = (refl, (refl, count))
      answered (ok pkt s) =
          let (d', w) = accepts pkt u.dest in rw w (refl, (refl, omega (arith, count)))

  columns-Agrees :
      (n : ℕ) (u : Relay S D) (t : Tally S)
      → InStep u t
      → Agrees (forward_columns read_packet write n u) (read_columns read_packet n t)
  unfolding forward_columns read_columns
  columns-Agrees zero u t h = (refl, h)
  columns-Agrees (suc n) u t h =
      Sim-bind InStep InStep _ _ _ _ (relay-Agrees u t h) (λ _ u' t' h'. columns-Agrees n u' t' h')

  rows-Agrees :
      (fuel : ℕ) (u : Relay S D) (t : Tally S)
      → InStep u t
      → Agrees (forward_rows read_packet write fuel u) (read_rows read_packet fuel t)
  unfolding forward_rows read_rows
  rows-Agrees zero u t h = (refl, h)
  rows-Agrees (suc fuel) u t h =
      Sim-bind InStep InStep _ _ _ _ (relay-Agrees u t h) (λ pkt u' t' h'.
        Sim-if InStep InStep (ends_rows pkt) _ _ _ _ (refl, h') (rows-Agrees fuel u' t' h'))

  result_set-Agrees :
      (fuel : ℕ) (packet : Bytes) (u : Relay S D) (t : Tally S)
      → InStep u t
      → Agrees
          (forward_result_set read_packet write fuel packet u)
          (read_result_set read_packet fuel packet t)
  unfolding forward_result_set read_result_set
  result_set-Agrees fuel packet u t h =
      Sim-bind InStep InStep _ _ _ _ (columns-Agrees _ u t h) (λ _ u1 t1 h1.
        Sim-bind InStep InStep _ _ _ _ (relay-Agrees u1 t1 h1) (λ pkt u2 t2 h2.
          Sim-if_at InStep InStep (is_ok_packet pkt) _ _ _ _ u2 t2 (refl, h2)
            (rows-Agrees fuel u2 t2 h2)))

  body-Agrees :
      (fuel : ℕ) (packet : Bytes) (u : Relay S D) (t : Tally S)
      → InStep u t
      → Agrees (forward_body read_packet write fuel packet u) (read_body read_packet fuel packet t)
  unfolding forward_body read_body
  body-Agrees fuel packet u t h =
      if_at (ltb (length packet) 5) _ _ _ _ (refl, h)
        (if_at (byte packet 4 == 0x00) _ _ _ _ (refl, h)
          (if_at (byte packet 4 == 0xff) _ _ _ _ (refl, h)
            (if_at (byte packet 4 == 0xfb) _ _ _ _ (refl, h)
              (if_at (byte packet 4 == 0xfe) _ _ _ _ (refl, h)
                (result_set-Agrees fuel packet u t h)))))
    where
      if_at :
          (b : Bool) (m m' : M (Relay S D) Bool) (n n' : M (Tally S) Bool)
          → Agrees (m u) (n t)
          → Agrees (m' u) (n' t)
          → Agrees ((if b then m else m') u) ((if b then n else n') t)
      if_at b m m' n n' = Sim-if_at InStep InStep b m m' n n' u t

  loop-Agrees :
      (fuel : ℕ) (u : Relay S D) (t : Tally S)
      → InStep u t
      → Agrees (forward_loop read_packet write fuel u) (full_loop read_packet fuel t)
  unfolding forward_loop full_loop
  loop-Agrees zero u t h = (refl, h)
  loop-Agrees (suc fuel) u t h =
      Sim-bind InStep InStep _ _ _ _ (relay-Agrees u t h) (λ packet u1 t1 h1.
        Sim-bind InStep InStep _ _ _ _ (body-Agrees fuel packet u1 t1 h1) (λ more u2 t2 h2.
          Sim-if InStep InStep more _ _ _ _ (loop-Agrees fuel u2 t2 h2) (refl, h2)))

  -- With a client that takes every write, `ReadAndForwardResponse` gives the answer of
  -- `ReadFullResponse`: the same error or success, the same count of bytes, and the packet source
  -- left at the same place, on every packet sequence and at every fuel.
  pub forward-Agrees-full :
      (fuel : ℕ) (s : S) (d : D)
      → Agrees
          (read_and_forward_response read_packet write fuel s d)
          (read_full_response read_packet fuel s)
  unfolding read_and_forward_response read_full_response
  forward-Agrees-full fuel s d = loop-Agrees fuel _ _ (refl, refl)
