-- ===== src/Net.antt =====
-- The reading side of a `net.Conn`, and `io.ReadFull` over it. The network's behaviour is the list
-- of what it delivers: segments of bytes, in the order of their arrival, and failed reads.
pub mod Arrival
pub mod Full
pub mod Refusals
use starrocks_shadow_proxy.Prelude.{
  ℕ, zero, suc, ◌+◌, ◌-◌, List, [], ◌∷◌, ◌++◌, Bytes, length, take, drop, leb, if◌then◌else◌,
}
use starrocks_shadow_proxy.Prelude.Outcome.{
  NetError, eof, unexpected_eof, timeout, reset, Error, net, Outcome, ok, err,
}

pub data Event : Type 0 where
  segment : Bytes → Event
  failure : NetError → Event

abbrev pub Conn : Type 0
Conn = List Event

-- One `Read` into `room` bytes: at most `room` bytes of the next segment, or the next failure.
-- A connection with nothing more to deliver is at its end.
unfoldable pub read : ℕ → Conn → Outcome Conn Bytes
read room [] = err (net eof) []
read room (failure e ∷ c) = err (net e) c
read room (segment s ∷ c) =
    if leb (length s) room then ok s c else ok (take room s) (segment (drop room s) ∷ c)

-- An upper bound on how many reads into a nonempty room succeed.
unfoldable pub size : Conn → ℕ
size [] = 0
size (failure e ∷ c) = suc (size c)
size (segment s ∷ c) = suc (length s + size c)

-- `io.ReadFull(conn, buf)` with `n` bytes still wanted, after `got`: an end of the stream is
-- `io.EOF` before the first byte and `io.ErrUnexpectedEOF` after it.
cut_short : Bytes → NetError → NetError
cut_short [] e = e
cut_short (b ∷ bs) eof = unexpected_eof
cut_short (b ∷ bs) e = e

unfoldable pub read_full_from : Bytes → ℕ → Conn → Outcome Conn Bytes
unfolding cut_short
read_full_from got zero c = ok got c
read_full_from got (suc n) [] = err (net (cut_short got eof)) []
read_full_from got (suc n) (failure e ∷ c) = err (net (cut_short got e)) c
read_full_from got (suc n) (segment s ∷ c) =
    let more = read_full_from (got ++ s) (suc n - length s) c in
    if leb (suc n) (length s)
    then ok (got ++ take (suc n) s) (segment (drop (suc n) s) ∷ c)
    else more

unfoldable pub read_full : ℕ → Conn → Outcome Conn Bytes
unfolding read_full_from
read_full n c = read_full_from [] n c
