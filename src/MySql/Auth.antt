-- ===== src/MySql/Auth.antt =====
-- mysql_auth.go: capability flags of the handshake packets, the scramble, and the password's hash.
-- A flag is a power of two, tested and changed by arithmetic; `sha1` is a parameter.
pub mod Flags
pub mod Password
use starrocks_shadow_proxy.MySql.Wire.{byte}
use starrocks_shadow_proxy.Prelude.{
  ℕ, zero, suc, ◌+◌, ◌-◌, ◌*◌, ◌/◌, ◌%◌, Bool, true, false, ◌&&◌, Bytes, List, [], ◌∷◌, ◌++◌,
  length, take, drop, ltb, leb, ◌==◌, if◌then◌else◌, write_at, Option, none, some,
}
use starrocks_shadow_proxy.Prelude.Text.{is_empty}

abbrev pub client_ssl : ℕ
client_ssl = 0x800

-- `clientDeprecateEOF >> 16`
abbrev pub client_deprecate_eof_high : ℕ
client_deprecate_eof_high = 0x100

abbrev pub has_flag : ℕ → ℕ → Bool
has_flag m x = x / m % 2 == 1

-- `x &^= m` and `x |= m`
abbrev pub clear_flag : ℕ → ℕ → ℕ
clear_flag m x = if has_flag m x then x - m else x

abbrev pub set_flag : ℕ → ℕ → ℕ
set_flag m x = if has_flag m x then x else x + m

-- `binary.LittleEndian.Uint16(p[i:i+2])` and `PutUint16`
abbrev pub uint16 : Bytes → ℕ → ℕ
uint16 p i = byte p i + 256 * byte p (i + 1)

abbrev pub put_uint16 : ℕ → Bytes
put_uint16 v = v % 256 ∷ v / 256 % 256 ∷ []

-- `isSSLRequest`
unfoldable pub is_ssl_request : Bytes → Bool
is_ssl_request packet =
    if ltb (length packet) 8
    then false
    else has_flag client_ssl (uint16 packet 4 + 65536 * uint16 packet 6) && leb (length packet) 40

-- `removeUnsupportedCapabilities`
unfoldable pub remove_unsupported_capabilities : Bytes → Bytes
unfolding write_at
remove_unsupported_capabilities packet =
    if ltb (length packet) 8
    then packet
    else write_at (write_at packet 4 (put_uint16 (clear_flag client_ssl (uint16 packet 4)))) 6
        (put_uint16 (clear_flag client_deprecate_eof_high (uint16 packet 6)))

-- How many bytes stand before the null that ends a text, or before the end.
unfoldable pub until_null : Bytes → ℕ
until_null [] = 0
until_null (c ∷ cs) = if c == 0 then 0 else suc (until_null cs)

-- `modifyHandshakeForSSL`
unfoldable pub modify_handshake_for_ssl : Bytes → Bytes
modify_handshake_for_ssl packet =
    let pos = 5 + until_null (drop 5 packet) + 1 + 13 in
    if ltb (length packet) (pos + 2)
    then packet
    else write_at packet pos (put_uint16 (set_flag client_ssl (uint16 packet pos)))

-- The loop over `scramble2`: null bytes are left out, and it stops at twenty bytes.
unfoldable pub append_scramble : Bytes → Bytes → Bytes
append_scramble scramble [] = scramble
append_scramble scramble (c ∷ cs) =
    let rest = append_scramble (if c == 0 then scramble else scramble ++ (c ∷ [])) cs in
    if ltb (length scramble) 20 then rest else scramble

-- `extractScrambleFromHandshake`; `none` is nil. Where the packet ends inside the ten reserved
-- bytes, the slice of the second part has no such bounds and Go panics: `crashed`.
pub data Scramble : Type 0 where
  none_found crashed : Scramble
  scramble_is : Bytes → Scramble

unfoldable pub scramble_length : ℕ → ℕ
scramble_length n = if ltb n 20 then 12 else n - 8

unfoldable pub extract_scramble_from_handshake : Bytes → Scramble
extract_scramble_from_handshake packet =
    let version_end = 5 + until_null (drop 5 packet) + 1 in
    let part1 = version_end + 4 in
    let scramble1 = take 8 (drop part1 packet) in
    let length_at = part1 + 8 + 1 + 2 + 1 + 2 + 2 in
    let part2 = length_at + 1 + 10 in
    if ltb (length packet) 5
    then none_found
    else if ltb (length packet) part1
    then none_found
    else if ltb (length packet) (part1 + 8)
    then none_found
    else if leb (length packet) length_at
    then scramble_is scramble1
    else if ltb (length packet) part2
    then crashed
    else scramble_is (
        append_scramble scramble1
          (take (scramble_length (byte packet length_at)) (drop part2 packet)))

-- `a ^ b` on numbers of `k` bits
unfoldable pub xor : ℕ → ℕ → ℕ → ℕ
xor zero a b = 0
xor (suc k) a b = (a % 2 + b % 2) % 2 + 2 * xor k (a / 2) (b / 2)

unfoldable pub xor_bytes : Bytes → Bytes → Bytes
xor_bytes [] bs = []
xor_bytes (a ∷ xs) [] = []
xor_bytes (a ∷ xs) (b ∷ bs) = xor 8 a b ∷ xor_bytes xs bs

-- `mysqlNativePassword`; an empty password has no hash.
module _ (sha1 : Bytes → Bytes) where
  unfoldable pub mysql_native_password : Bytes → Bytes → Bytes
  mysql_native_password password scramble =
      let hash1 = sha1 password in
      let hash2 = sha1 hash1 in
      if is_empty password then [] else xor_bytes hash1 (sha1 (scramble ++ hash2))
