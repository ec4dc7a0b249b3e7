-- ===== src/Pg/Worker/Reading.antt =====
-- The loop of processFrame up to ReadyForQuery ends.
use starrocks_shadow_proxy.Net.{Conn}
use starrocks_shadow_proxy.Net.Arrival.{arriving}
use starrocks_shadow_proxy.Pg.Protocol.{PgPacket, bytes, read_message}
use starrocks_shadow_proxy.Pg.Protocol.Messages.{wire, TakesMessage, read_message-Takes}
use starrocks_shadow_proxy.Pg.Session.Forwarded.{some_inner, length-wire}
use starrocks_shadow_proxy.Pg.Worker.{read_until_ready}
use starrocks_shadow_proxy.Prelude.{
  ℕ, zero, suc, ◌+◌, ◌<◌, ◌≢◌, ap, Bool, true, false, length, length-append, ◌==◌, if◌then◌else◌,
  Option, none, some, arith,
}
use starrocks_shadow_proxy.Prelude.Outcome.{Error, out_of_fuel, Outcome, ok, err}

-- With more fuel than bytes arrive, the error is never the model's.
read_until_ready-fuel :
    (fuel total : ℕ) (c : Conn)
    → length (arriving c) < fuel
    → (read_until_ready fuel total c).1.0 ≢ some out_of_fuel
unfolding read_until_ready
read_until_ready-fuel zero total c h = absurd (omega arith)
read_until_ready-fuel (suc fuel) total c h =
    by_message (read_message c) (read_message-Takes c) (λ t c' k. read_until_ready-fuel fuel t c' k)
  where
    by_type :
        (b : Bool) (out rest : ℕ × (Option Error × Conn))
        → out.1.0 ≢ some out_of_fuel
        → rest.1.0 ≢ some out_of_fuel
        → (if b then out else rest).1.0 ≢ some out_of_fuel
    by_type true out rest k m = k
    by_type false out rest k m = m

    by_message :
        (out : Outcome Conn PgPacket)
        → TakesMessage c out
        → ((t : ℕ) (c' : Conn)
            → length (arriving c') < fuel
            → (read_until_ready fuel t c').1.0 ≢ some out_of_fuel)
        → let answer : ℕ × (Option Error × Conn) = elim out [
          | err e c' ↦ (total, (some e, c'))
          | ok msg c' ↦
              let count = total + length (bytes msg) in
              let rest = read_until_ready fuel count c' in
              if msg.type_byte == b'Z' then (count, (none, c')) else rest
        ] in
          answer.1.0 ≢ some out_of_fuel
    by_message (err e c') k ih = λ m. k (some_inner m)
    by_message (ok msg c') t ih =
        by_type (msg.type_byte == b'Z') _ _ (λ m. cc)
          (ih (total + length (bytes msg)) c'
            (omega (arith, ap length t, length-append (wire msg) (arriving c'), length-wire msg)))
