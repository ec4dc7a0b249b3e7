-- ===== src/MySql/Reader.antt =====
-- mysql_protocol.go: MySQLPacketReader, the buffered reader of whole packets.
pub mod Window
pub mod Packets
use starrocks_shadow_proxy.MySql.Wire.{u24}
use starrocks_shadow_proxy.Net.{Conn, read, size}
use starrocks_shadow_proxy.Prelude.{
  ℕ, zero, suc, ◌+◌, ◌-◌, ◌*◌, List, [], ◌∷◌, ◌++◌, Bytes, length, take, drop, ltb, leb, true,
  false, replicate, write_at, if◌then◌else◌,
}
use starrocks_shadow_proxy.Prelude.Outcome.{
  Outcome, ok, err, out_of_fuel, M, ◌>>=◌, ◌>>◌, pure, fail, continue_with,
}

-- `end` is spelled `limit`: the end of the valid data in `buf`.
pub record Reader : Type 0 where
  pub conn : Conn
  pub buf : Bytes
  pub offset : ℕ
  pub limit : ℕ

-- `NewMySQLPacketReader`
unfoldable pub new_reader : Conn → Reader
new_reader c = record { conn = c; buf = replicate (64 * 1024) 0; offset = 0; limit = 0 }

-- `r.buf[i:j]`
abbrev pub slice : Bytes → ℕ → ℕ → Bytes
slice b i j = drop i (take j b)

-- Move the unread data to the beginning of the buffer.
pub compact : Reader → Reader
compact r =
    let available = r.limit - r.offset in
    if ltb 0 r.offset
    then record r {
      buf = if ltb 0 available then write_at r.buf 0 (slice r.buf r.offset r.limit) else r.buf;
      offset = 0;
      limit = available;
    }
    else r

pub grow : ℕ → Reader → Reader
grow n r =
    if ltb (length r.buf) n
    then record r { buf = write_at (replicate (n * 2) 0) 0 (take r.limit r.buf) }
    else r

-- What one successful read leaves: its bytes stand behind the valid data.
abbrev pub received : Reader → Bytes → Conn → Reader
received r bs c = record r {
  conn = c;
  buf = write_at r.buf r.limit bs;
  limit = r.limit + length bs;
}

-- `for r.end < n`, with `fuel` reads left. A Read gives bytes or an error: one that gives both, as a
-- TLS connection's may, is outside the model.
pub fill : ℕ → ℕ → M Reader (Unit {0})
fill zero n r = err out_of_fuel r
fill (suc fuel) n r = elim (ltb r.limit n) [
  | false ↦ ok tt r
  | true ↦ elim (read (length r.buf - r.limit) r.conn) [
    | ok bs c ↦ fill fuel n (received r bs c)
    | err e c ↦ err e (record r { conn = c })
  ]
]

-- Each read takes a byte or uses a segment up, so `size` reads are enough.
unfoldable pub ensure_bytes : ℕ → M Reader (Unit {0})
unfolding compact grow fill
ensure_bytes n r =
    if leb n (r.limit - r.offset)
    then ok tt r
    else let r' = grow n (compact r) in fill (suc (size r'.conn)) n r'

-- `length` of the packet that starts at `offset`
abbrev pub packet_length : M Reader ℕ
packet_length r = ok (u24 r.buf r.offset) r

abbrev pub take_packet : ℕ → M Reader Bytes
take_packet n r = ok (slice r.buf r.offset (r.offset + n)) (record r { offset = r.offset + n })

-- `ReadPacket`
unfoldable pub read_packet : M Reader Bytes
read_packet = do ensure_bytes 4; n ← packet_length; ensure_bytes (4 + n); take_packet (4 + n)
