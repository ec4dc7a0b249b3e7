-- ===== src/MySql/Response.antt =====
-- mysql_protocol.go: reading a whole response, packet by packet. Both functions are over a source
-- of packets, which is `ReadPacket` on a reader in the program; `fuel` bounds the packets read.
pub mod Fuel
pub mod Related
use starrocks_shadow_proxy.MySql.LengthEncoded.{
  read_length_encoded_int, more_results_in_eof, more_results_in_ok,
}
use starrocks_shadow_proxy.MySql.Wire.{byte, u24}
use starrocks_shadow_proxy.Prelude.{
  ℕ, zero, suc, ◌+◌, ◌++◌, Bool, false, ◌&&◌, Bytes, [], length, drop, ltb, leb, ◌==◌,
  if◌then◌else◌,
}
use starrocks_shadow_proxy.Prelude.Outcome.{
  Outcome, ok, err, packet_too_short, out_of_fuel, M, ◌>>=◌, ◌>>◌, pure, fail, continue_with,
}

-- `ReadMultiPacket`, with the packets read so far.
module _ {S : Type 0} (read_packet : M S Bytes) where
  unfoldable pub multi_loop : ℕ → Bytes → M S Bytes
  multi_loop zero result s = err out_of_fuel s
  multi_loop (suc fuel) result s = continue_with (read_packet s) (λ packet s'.
      let more = multi_loop fuel (result ++ packet) s' in
      if ltb (u24 packet 0) 0xffffff then ok (result ++ packet) s' else more)

  unfoldable pub read_multi_packet : ℕ → M S Bytes
  read_multi_packet fuel = multi_loop fuel []

  -- `ReadSimpleResponse`: the number of bytes read.
  unfoldable pub read_simple_response : M S ℕ
  read_simple_response = do packet ← read_packet; pure (length packet)

-- EOF packet (0xFE with a small payload) marks the end of the rows.
abbrev pub ends_rows : Bytes → Bool
ends_rows pkt = leb 5 (length pkt) && (byte pkt 4 == 0xfe && ltb (u24 pkt 0) 9)

-- Columns were followed by an OK packet: no rows.
abbrev pub is_ok_packet : Bytes → Bool
is_ok_packet pkt = leb 5 (length pkt) && byte pkt 4 == 0x00

-- The source with `totalBytes`.
pub record Tally (S : Type 0) : Type 0 where
  pub source : S
  pub total : ℕ

-- `ReadFullResponse`
module _ {S : Type 0} (read_packet : M S Bytes) where
  -- `pkt, err := r.ReadPacket(); totalBytes += int64(len(pkt))`
  unfoldable pub next : M (Tally S) Bytes
  next t = elim (read_packet t.source) [
    | ok pkt s ↦ ok pkt (record { source = s; total = t.total + length pkt })
    | err e s ↦ err e (record { source = s; total = t.total })
  ]

  unfoldable pub read_columns : ℕ → M (Tally S) (Unit {0})
  read_columns zero t = ok tt t
  read_columns (suc n) t = continue_with (next t) (λ _ t'. read_columns n t')

  -- `rowLoop`; the result is `moreResults`
  unfoldable pub read_rows : ℕ → M (Tally S) Bool
  read_rows zero t = err out_of_fuel t
  read_rows (suc fuel) t = continue_with (next t) (λ pkt t'.
      let rest = read_rows fuel t' in
      if ends_rows pkt then ok (more_results_in_eof pkt) t' else rest)

  -- The result set that `packet` announces; the result says whether another one follows.
  unfoldable pub read_result_set : ℕ → Bytes → M (Tally S) Bool
  read_result_set fuel packet = do
    read_columns (read_length_encoded_int (drop 4 packet))
    pkt ← next
    if is_ok_packet pkt then pure (more_results_in_ok pkt) else read_rows fuel

  -- The switch on the response type.
  unfoldable pub read_body : ℕ → Bytes → M (Tally S) Bool
  read_body fuel packet =
      if ltb (length packet) 5
      then fail (packet_too_short (length packet))
      else if byte packet 4 == 0x00
      then pure (more_results_in_ok packet)
      else if byte packet 4 == 0xff
      then pure false
      else if byte packet 4 == 0xfb
      then pure false
      else if byte packet 4 == 0xfe
      then pure (more_results_in_eof packet)
      else read_result_set fuel packet

  unfoldable pub full_loop : ℕ → M (Tally S) (Unit {0})
  full_loop zero t = err out_of_fuel t
  full_loop (suc fuel) t = continue_with (next t) (λ packet t1.
      continue_with (read_body fuel packet t1)
        (λ more t2. let rest = full_loop fuel t2 in if more then rest else ok tt t2))

  unfoldable pub read_full_response : ℕ → S → Outcome (Tally S) (Unit {0})
  read_full_response fuel s = full_loop fuel (record { source = s; total = 0 })
