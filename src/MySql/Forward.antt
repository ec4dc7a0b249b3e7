-- ===== src/MySql/Forward.antt =====
-- mysql_protocol.go: reading a whole response and forwarding each packet to the client as it is
-- read. The writer is a parameter: `write bs d` is `dest.Write(bs)` in the writer's state `d`.
pub mod Agree
pub mod Conserve
use starrocks_shadow_proxy.MySql.LengthEncoded.{
  read_length_encoded_int, more_results_in_eof, more_results_in_ok,
}
use starrocks_shadow_proxy.MySql.Response.{ends_rows, is_ok_packet}
use starrocks_shadow_proxy.MySql.Wire.{byte}
use starrocks_shadow_proxy.Prelude.{
  ℕ, zero, suc, ◌+◌, Bool, true, false, Bytes, length, drop, ltb, ◌==◌, if◌then◌else◌,
}
use starrocks_shadow_proxy.Prelude.Outcome.{
  Outcome, ok, err, packet_too_short, forward_failed, out_of_fuel, M, ◌>>=◌, ◌>>◌, pure, fail,
  continue_with,
}

pub record Relay (S D : Type 0) : Type 0 where
  pub source : S
  pub dest : D
  pub total : ℕ

module _ {S D : Type 0} (read_packet : M S Bytes) (write : Bytes → M D (Unit {0})) where
  -- `ReadAndForwardSimpleResponse`: a failed write counts no bytes.
  unfoldable pub read_and_forward_simple_response : M (Relay S D) ℕ
  read_and_forward_simple_response t = elim (read_packet t.source) [
    | err e s ↦ err e (record t { source = s })
    | ok pkt s ↦ elim (write pkt t.dest) [
      | err e d ↦ err forward_failed (record t { source = s; dest = d })
      | ok _ d ↦ ok (length pkt) (record { source = s; dest = d; total = t.total + length pkt })
    ]
  ]

  -- Read a packet, forward it, count it.
  unfoldable pub relay : M (Relay S D) Bytes
  relay t = elim (read_packet t.source) [
    | err e s ↦ err e (record t { source = s })
    | ok pkt s ↦ elim (write pkt t.dest) [
      | err e d ↦ err forward_failed (record t { source = s; dest = d })
      | ok _ d ↦ ok pkt (record { source = s; dest = d; total = t.total + length pkt })
    ]
  ]

  unfoldable pub forward_columns : ℕ → M (Relay S D) (Unit {0})
  forward_columns zero t = ok tt t
  forward_columns (suc n) t = continue_with (relay t) (λ _ t'. forward_columns n t')

  unfoldable pub forward_rows : ℕ → M (Relay S D) Bool
  forward_rows zero t = err out_of_fuel t
  forward_rows (suc fuel) t = continue_with (relay t) (λ pkt t'.
      let rest = forward_rows fuel t' in
      if ends_rows pkt then ok (more_results_in_eof pkt) t' else rest)

  unfoldable pub forward_result_set : ℕ → Bytes → M (Relay S D) Bool
  forward_result_set fuel packet = do
    forward_columns (read_length_encoded_int (drop 4 packet))
    pkt ← relay
    if is_ok_packet pkt then pure (more_results_in_ok pkt) else forward_rows fuel

  unfoldable pub forward_body : ℕ → Bytes → M (Relay S D) Bool
  forward_body fuel packet =
      if ltb (length packet) 5
      then fail (packet_too_short (length packet))
      else if byte packet 4 == 0x00
      then pure (more_results_in_ok packet)
      else if byte packet 4 == 0xff
      then pure false
      else if byte packet 4 == 0xfb
      then pure false
      else if byte packet 4 == 0xfe
      then pure (more_results_in_eof packet)
      else forward_result_set fuel packet

  unfoldable pub forward_loop : ℕ → M (Relay S D) (Unit {0})
  forward_loop zero t = err out_of_fuel t
  forward_loop (suc fuel) t = continue_with (relay t) (λ packet t1.
      continue_with (forward_body fuel packet t1)
        (λ more t2. let rest = forward_loop fuel t2 in if more then rest else ok tt t2))

  -- `ReadAndForwardResponse`
  unfoldable pub read_and_forward_response : ℕ → S → D → Outcome (Relay S D) (Unit {0})
  read_and_forward_response fuel s d =
      forward_loop fuel (record { source = s; dest = d; total = 0 })
