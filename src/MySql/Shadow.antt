-- ===== src/MySql/Shadow.antt =====
-- proxy.go: authenticateWithShadow, the proxy's own login at the shadow. Parameters: the writer, the
-- TLS handshake, and SHA1.
pub mod Packet
pub mod Accepted
pub mod Steps
use starrocks_shadow_proxy.MySql.Auth.{
  Scramble, none_found, crashed, scramble_is, extract_scramble_from_handshake,
  mysql_native_password,
}
use starrocks_shadow_proxy.MySql.Handshake.{responds}
use starrocks_shadow_proxy.MySql.Wire.{byte, read_mysql_packet}
use starrocks_shadow_proxy.Net.{Conn}
use starrocks_shadow_proxy.Prelude.{
  ℕ, zero, suc, ◌+◌, ◌/◌, ◌%◌, Bool, true, false, Bytes, [], ◌∷◌, ◌++◌, replicate, length, ltb,
  ◌==◌, if◌then◌else◌, Option, none, some,
}
use starrocks_shadow_proxy.Prelude.Outcome.{
  Outcome, ok, err, authentication_failed, malformed, panicked, M, ◌>>=◌, ◌>>◌, pure, fail,
}
use starrocks_shadow_proxy.Prelude.Text.{is_empty}

-- `byte(v), byte(v>>8), byte(v>>16), byte(v>>24)`
abbrev pub put_uint32 : ℕ → Bytes
put_uint32 v = v % 256 ∷ v / 256 % 256 ∷ v / 65536 % 256 ∷ v / 16777216 % 256 ∷ []

-- A packet with its header: three bytes of length, and the sequence number.
unfoldable pub packet_of : ℕ → Bytes → Bytes
packet_of seq body =
    let n = length body in (n % 256 ∷ n / 256 % 256 ∷ n / 65536 % 256 ∷ seq ∷ []) ++ body

-- The capabilities, a packet size of 16 MB, the charset and 23 reserved bytes.
unfoldable pub login_head : ℕ → Bytes
login_head caps = put_uint32 caps ++ (0 ∷ 0 ∷ 0 ∷ 1 ∷ 33 ∷ []) ++ replicate 23 0

unfoldable pub ssl_packet : Bytes
ssl_packet = packet_of 1 (login_head 0x8a00)

-- The answer with its length in front; without a password the length is zero.
unfoldable pub auth_answer : (Bytes → Bytes) → Bytes → Bytes → Bytes
auth_answer sha1 password scramble =
    let answer = mysql_native_password sha1 password scramble in
    if is_empty password then 0 ∷ [] else length answer % 256 ∷ answer

unfoldable pub login_body : Bool → Bytes → Bytes → Bytes
login_body tls username answer =
    login_head (if tls then 0x8a00 else 0x8200) ++ (username ++ 0 ∷ answer)

unfoldable pub seq_of : Bool → ℕ
seq_of tls = if tls then 2 else 1

-- The connection to the shadow, and the counters tlsFailures and authFailures.
pub record ShadowLink (P : Type 0) : Type 0 where
  pub conn_in : Conn
  pub conn : P
  pub tls_failures : ℕ
  pub auth_failures : ℕ

pub record ShadowEnd (P : Type 0) : Type 0 where
  pub write : Bytes → M P (Unit {0})
  pub tls : Option (Conn × P → Outcome (Conn × P) (Unit {0}))
  pub sha1 : Bytes → Bytes
  pub username : Bytes
  pub password : Bytes

abbrev pub is_some : {A : Type 0} → Option A → Bool
is_some none = false
is_some (some a) = true

module _ {P : Type 0} where
  abbrev pub got_packet : ShadowLink P → Outcome Conn Bytes → Outcome (ShadowLink P) Bytes
  got_packet l (ok p c) = ok p (record l { conn_in = c })
  got_packet l (err e c) = err e (record l { conn_in = c })

  abbrev pub wrote : ShadowLink P → Outcome P (Unit {0}) → Outcome (ShadowLink P) (Unit {0})
  wrote l (ok _ c) = ok tt (record l { conn = c })
  wrote l (err e c) = err e (record l { conn = c })

  abbrev pub shaken :
      ShadowLink P → Outcome (Conn × P) (Unit {0}) → Outcome (ShadowLink P) (Unit {0})
  shaken l (ok _ (c, p)) = ok tt (record l { conn_in = c; conn = p })
  shaken l (err e (c, p)) =
      err e (record l { conn_in = c; conn = p; tls_failures = suc l.tls_failures })

module _ {P : Type 0} (shadow : ShadowEnd P) where
  unfoldable pub read_from_shadow : M (ShadowLink P) Bytes
  read_from_shadow l = got_packet l (read_mysql_packet l.conn_in)

  unfoldable pub write_to_shadow : Bytes → M (ShadowLink P) (Unit {0})
  write_to_shadow bs l = wrote l (shadow.write bs l.conn)

  -- Step 2: TLS, if it is configured.
  unfoldable pub upgrade_shadow :
      Option (Conn × P → Outcome (Conn × P) (Unit {0})) → M (ShadowLink P) (Unit {0})
  upgrade_shadow none = pure tt
  upgrade_shadow (some handshake) = do
    write_to_shadow ssl_packet
    (λ l. shaken l (handshake (l.conn_in, l.conn)))

  unfoldable pub login_packet : Bytes → Bytes
  login_packet scramble =
      let tls = is_some shadow.tls in
      packet_of (seq_of tls)
        (login_body tls shadow.username (auth_answer shadow.sha1 shadow.password scramble))

  unfoldable pub refused_by_shadow : M (ShadowLink P) (Unit {0})
  refused_by_shadow l = err authentication_failed (record l { auth_failures = suc l.auth_failures })

  -- Step 5: an error packet, or a request for another method, which is not supported.
  unfoldable pub judge_response : Bytes → M (ShadowLink P) (Unit {0})
  judge_response response =
      if responds 0xff response
      then refused_by_shadow
      else if responds 0xfe response
      then refused_by_shadow
      else pure tt

  unfoldable pub log_in : Scramble → M (ShadowLink P) (Unit {0})
  log_in none_found = fail malformed
  log_in crashed = fail panicked
  log_in (scramble_is scramble) = do
    upgrade_shadow shadow.tls
    write_to_shadow (login_packet scramble)
    response ← read_from_shadow
    judge_response response

  -- `authenticateWithShadow`; the connection to use is the one in the state.
  unfoldable pub authenticate_with_shadow : M (ShadowLink P) (Unit {0})
  authenticate_with_shadow = do
    handshake ← read_from_shadow
    log_in (extract_scramble_from_handshake handshake)
