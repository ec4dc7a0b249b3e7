-- ===== src/Pg/Protocol.antt =====
-- pg_protocol.go: reading pgwire messages and taking names and SQL text out of them.
pub mod Framing
pub mod Messages
use starrocks_shadow_proxy.MySql.Wire.{byte}
use starrocks_shadow_proxy.Net.{Conn, read_full}
use starrocks_shadow_proxy.Prelude.{
  ℕ, zero, suc, ◌+◌, ◌-◌, ◌*◌, ◌^◌, Bool, true, false, not, ◌&&◌, ◌||◌, List, [], ◌∷◌, ◌++◌, Bytes,
  length, take, drop, Option, none, some, ltb, leb, ◌==◌, if◌then◌else◌,
}
use starrocks_shadow_proxy.Prelude.Outcome.{
  M, Outcome, ok, err, invalid_length, ◌>>=◌, ◌>>◌, pure, fail, continue_with,
}
use starrocks_shadow_proxy.Prelude.Text.{is_empty}

-- `PgPacket`: the type byte, 0 in the startup phase, and [length:4][body].
pub record PgPacket : Type 0 where
  pub type_byte : ℕ
  pub payload : Bytes

-- `Bytes`
unfoldable pub bytes : PgPacket → Bytes
bytes p = if p.type_byte == 0 then p.payload else p.type_byte ∷ p.payload

-- `binary.BigEndian.Uint32(b[i:])`
abbrev pub be32 : Bytes → ℕ → ℕ
be32 b i = byte b i * 2 ^ 24 + byte b (i + 1) * 2 ^ 16 + byte b (i + 2) * 2 ^ 8 + byte b (i + 3)

abbrev pub pg_max_message_size : ℕ
pg_max_message_size = 2 ^ 28

abbrev pub pg_magic_ssl_request : ℕ
pg_magic_ssl_request = 80877103

abbrev pub pg_magic_cancel_request : ℕ
pg_magic_cancel_request = 80877102

abbrev pub pg_magic_gssenc_request : ℕ
pg_magic_gssenc_request = 80877104

-- `ReadStartupMessage`
unfoldable pub read_startup_message : M Conn PgPacket
read_startup_message = do
  header ← read_full 4
  let length_field = be32 header 0
  if ltb length_field 8 || ltb pg_max_message_size length_field
      then fail (invalid_length length_field)
      else (do
        body ← read_full (length_field - 4)
        pure (record { type_byte = 0; payload = header ++ body }))

-- `ReadMessage`, once its header is read.
unfoldable pub read_message_body : Bytes → M Conn PgPacket
read_message_body header c =
    let length_field = be32 header 1 in
    if ltb length_field 4 || ltb pg_max_message_size length_field
    then err (invalid_length length_field) c
    else continue_with (read_full (length_field - 4) c)
        (λ body c'. ok (record { type_byte = byte header 0; payload = drop 1 header ++ body }) c')

-- `ReadMessage`
unfoldable pub read_message : M Conn PgPacket
read_message = do header ← read_full 5; read_message_body header

-- The startup probes, on packets that are there.
abbrev pub has_magic : ℕ → ℕ → PgPacket → Bool
has_magic size magic p = p.type_byte == 0 && (length p.payload == size && be32 p.payload 4 == magic)

unfoldable pub is_ssl_request : PgPacket → Bool
is_ssl_request = has_magic 8 pg_magic_ssl_request

unfoldable pub is_gssenc_request : PgPacket → Bool
is_gssenc_request = has_magic 8 pg_magic_gssenc_request

unfoldable pub is_cancel_request : PgPacket → Bool
is_cancel_request = has_magic 16 pg_magic_cancel_request

-- `indexNull`; `none` is -1.
unfoldable pub index_null : Bytes → Option ℕ
index_null [] = none
index_null (c ∷ cs) =
    let rest : Option ℕ = elim (index_null cs) [ none ↦ none | some i ↦ some (suc i) ] in
    if c == 0 then some 0 else rest

unfoldable pub trim_null_terminator : Bytes → Bytes
trim_null_terminator [] = []
trim_null_terminator (c ∷ []) = if c == 0 then [] else c ∷ []
trim_null_terminator (c ∷ d ∷ cs) = c ∷ trim_null_terminator (d ∷ cs)

-- A cstring: what stands before the first null byte, or the alternative.
abbrev pub before_null : Bytes → Bytes → Bytes
before_null b otherwise = elim (index_null b) [ none ↦ otherwise | some i ↦ take i b ]

abbrev pub body_of : PgPacket → Bytes
body_of p = drop 4 p.payload

-- `extractPgQueryText`
unfoldable pub extract_pg_query_text : PgPacket → Bytes
extract_pg_query_text p =
    let parsed : Bytes = elim (index_null (body_of p)) [
      | none ↦ []
      | some idx ↦ let rest = drop (idx + 1) (body_of p) in before_null rest rest
    ] in
    if leb (length p.payload) 4
    then []
    else if p.type_byte == b'Q'
    then trim_null_terminator (body_of p)
    else if p.type_byte == b'P'
    then parsed
    else []

-- `p.Type != t || len(p.Payload) <= n`
abbrev pub unfit : ℕ → ℕ → PgPacket → Bool
unfit t n p = not (p.type_byte == t) || leb (length p.payload) n

-- `extractPgParseStmtName`
unfoldable pub extract_pg_parse_stmt_name : PgPacket → Bytes
extract_pg_parse_stmt_name p = if unfit b'P' 4 p then [] else before_null (body_of p) []

-- `extractPgBindStmtName`: the second cstring.
unfoldable pub extract_pg_bind_stmt_name : PgPacket → Bytes
extract_pg_bind_stmt_name p =
    let named : Bytes = elim (index_null (body_of p)) [
      | none ↦ []
      | some portal_end ↦
          if leb (length (body_of p)) (portal_end + 1)
          then []
          else before_null (drop (portal_end + 1) (body_of p)) []
    ] in
    if unfit b'B' 4 p then [] else named

-- `extractPgCloseTarget` and `extractPgDescribeTarget`: kind and name.
unfoldable pub target_of : ℕ → PgPacket → ℕ × Bytes
target_of t p =
    if unfit t 5 p then (0, []) else (byte (body_of p) 0, before_null (drop 1 (body_of p)) [])

unfoldable pub extract_pg_close_target : PgPacket → ℕ × Bytes
extract_pg_close_target = target_of b'C'

unfoldable pub extract_pg_describe_target : PgPacket → ℕ × Bytes
extract_pg_describe_target = target_of b'D'

-- `isPgCountableQuery`
unfoldable pub is_pg_countable_query : ℕ → Bool
is_pg_countable_query t = t == b'Q' || (t == b'P' || t == b'E')
