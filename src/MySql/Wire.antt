-- ===== src/MySql/Wire.antt =====
-- mysql_protocol.go: the four-byte packet header, and reading one packet without a buffer.
use starrocks_shadow_proxy.Net.{Conn, read_full}
use starrocks_shadow_proxy.Prelude.{ℕ, ◌+◌, ◌*◌, ◌++◌, Bytes, get_or}
use starrocks_shadow_proxy.Prelude.Outcome.{M, ◌>>=◌, pure}

-- `packet[i]`, for an index that the code has checked.
abbrev pub byte : Bytes → ℕ → ℕ
byte p i = get_or p i 0

-- `int(h[i]) | int(h[i+1])<<8 | int(h[i+2])<<16`: the three bytes fill disjoint bits, so their
-- disjunction is their sum.
abbrev pub u24 : Bytes → ℕ → ℕ
u24 h i = byte h i + byte h (i + 1) * 256 + byte h (i + 2) * 65536

-- `readMySQLPacket`
unfoldable pub read_mysql_packet : M Conn Bytes
read_mysql_packet = do header ← read_full 4; body ← read_full (u24 header 0); pure (header ++ body)
