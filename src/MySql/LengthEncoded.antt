-- ===== src/MySql/LengthEncoded.antt =====
-- mysql_protocol.go: length-encoded integers and the SERVER_MORE_RESULTS_EXISTS flag.
use starrocks_shadow_proxy.MySql.Wire.{byte}
use starrocks_shadow_proxy.Prelude.{
  ℕ, ◌+◌, ◌*◌, ◌/◌, ◌%◌, ◌^◌, Bool, false, [], ◌∷◌, Bytes, length, drop, ltb, leb, ◌==◌,
  if◌then◌else◌,
}

-- `lenencIntSize`
unfoldable pub lenenc_int_size : Bytes → ℕ
lenenc_int_size [] = 0
lenenc_int_size (m ∷ bs) =
    if m == 0xfc then 3 else if m == 0xfd then 4 else if m == 0xfe then 9 else 1

-- Little-endian bytes; they fill disjoint bits, so Go's `|` of the shifted bytes is their sum.
abbrev pub le16 : Bytes → ℕ → ℕ
le16 b i = byte b i + byte b (i + 1) * 256

abbrev pub le24 : Bytes → ℕ → ℕ
le24 b i = le16 b i + byte b (i + 2) * 2 ^ 16

abbrev pub le64 : Bytes → ℕ → ℕ
le64 b i =
    le24 b i
    + byte b (i + 3) * 2 ^ 24
    + byte b (i + 4) * 2 ^ 32
    + byte b (i + 5) * 2 ^ 40
    + byte b (i + 6) * 2 ^ 48
    + byte b (i + 7) * 2 ^ 56

-- `readLengthEncodedInt`
unfoldable pub read_length_encoded_int : Bytes → ℕ
read_length_encoded_int [] = 0
read_length_encoded_int (m ∷ bs) =
    let b = m ∷ bs in
    if m == 0xfc
    then (if leb 3 (length b) then le16 b 1 else 0)
    else if m == 0xfd
    then (if leb 4 (length b) then le24 b 1 else 0)
    else if m == 0xfe
    then (if leb 9 (length b) then le64 b 1 else 0)
    else m

-- `statusFlags & serverMoreResultsExist != 0`: bit 3.
unfoldable pub has_more_results : ℕ → Bool
has_more_results flags = flags / 8 % 2 == 1

-- `checkMoreResultsInEOFPacket`
unfoldable pub more_results_in_eof : Bytes → Bool
unfolding has_more_results
more_results_in_eof pkt = if ltb (length pkt) 9 then false else has_more_results (le16 pkt 7)

-- `checkMoreResultsInOKPacket`
unfoldable pub more_results_in_ok : Bytes → Bool
unfolding lenenc_int_size has_more_results
more_results_in_ok pkt =
    let after_rows = 5 + lenenc_int_size (drop 5 pkt) in
    let after_id = after_rows + lenenc_int_size (drop after_rows pkt) in
    if ltb (length pkt) 7
    then false
    else if leb (length pkt) after_rows
    then false
    else if ltb (length pkt) (after_id + 2)
    then false
    else has_more_results (le16 pkt after_id)
