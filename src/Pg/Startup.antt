-- ===== src/Pg/Startup.antt =====
-- pg_proxy.go: forwardStartup and forwardAuthPhase, the login between client and primary, and
-- pg_tls.go's upgrades of the two connections. Parameters: the writers, and the TLS handshakes,
-- which turn a connection into what arrives and is written through it.

pub mod Client
pub mod Exchange
pub mod Login
pub mod Probes
use starrocks_shadow_proxy.Net.{Conn, read_full}
use starrocks_shadow_proxy.MySql.Wire.{byte}
use starrocks_shadow_proxy.Pg.Protocol.{
  PgPacket, bytes, be32, read_message, read_startup_message, is_ssl_request, is_gssenc_request,
  is_cancel_request,
}
use starrocks_shadow_proxy.Prelude.{
  ℕ, zero, suc, Bool, true, false, ◌||◌, Bytes, [], ◌∷◌, length, ltb, ◌==◌, if◌then◌else◌, Option,
  none, some,
}
use starrocks_shadow_proxy.Prelude.Outcome.{
  Outcome, ok, err, authentication_failed, malformed, tls_refused, out_of_fuel, M, ◌>>=◌, ◌>>◌,
  pure, fail,
}

-- The two connections, and the counters tlsFailures and authFailures.
pub record Link (P D : Type 0) : Type 0 where
  pub client_in : Conn
  pub primary_in : Conn
  pub client_out : D
  pub primary_out : P
  pub tls_failures : ℕ
  pub auth_failures : ℕ

-- `accept` is the handshake of tls.Server with the listener's configuration, if there is one.
pub record Ends (P D : Type 0) : Type 0 where
  pub write_client : Bytes → M D (Unit {0})
  pub write_primary : Bytes → M P (Unit {0})
  pub accept : Option (Conn × D → Outcome (Conn × D) (Unit {0}))
  pub connect : Conn × P → Outcome (Conn × P) (Unit {0})

module _ {P D : Type 0} where
  abbrev pub on_client : {A : Type 0} → Link P D → Outcome Conn A → Outcome (Link P D) A
  on_client l (ok a c) = ok a (record l { client_in = c })
  on_client l (err e c) = err e (record l { client_in = c })

  abbrev pub on_primary : {A : Type 0} → Link P D → Outcome Conn A → Outcome (Link P D) A
  on_primary l (ok a c) = ok a (record l { primary_in = c })
  on_primary l (err e c) = err e (record l { primary_in = c })

  abbrev pub written_client : {A : Type 0} → Link P D → Outcome D A → Outcome (Link P D) A
  written_client l (ok a d) = ok a (record l { client_out = d })
  written_client l (err e d) = err e (record l { client_out = d })

  abbrev pub written_primary : {A : Type 0} → Link P D → Outcome P A → Outcome (Link P D) A
  written_primary l (ok a c) = ok a (record l { primary_out = c })
  written_primary l (err e c) = err e (record l { primary_out = c })

  abbrev pub accepted : Link P D → Outcome (Conn × D) (Unit {0}) → Outcome (Link P D) (Unit {0})
  accepted l (ok a (c, d)) = ok a (record l { client_in = c; client_out = d })
  accepted l (err e (c, d)) = err e (record l { client_in = c; client_out = d })

  abbrev pub connected : Link P D → Outcome (Conn × P) (Unit {0}) → Outcome (Link P D) (Unit {0})
  connected l (ok a (c, d)) = ok a (record l { primary_in = c; primary_out = d })
  connected l (err e (c, d)) = err e (record l { primary_in = c; primary_out = d })

  -- `tlsFailures.Inc()` where the upgrade fails.
  abbrev pub count_tls_failure : Outcome (Link P D) (Unit {0}) → Outcome (Link P D) (Unit {0})
  count_tls_failure (ok a l) = ok a l
  count_tls_failure (err e l) = err e (record l { tls_failures = suc l.tls_failures })

-- The eight bytes of upgradeBackendTLS.
abbrev pub ssl_request : Bytes
ssl_request = 0 ∷ 0 ∷ 0 ∷ 8 ∷ 4 ∷ 210 ∷ 22 ∷ 47 ∷ []

-- The codes of an AuthenticationRequest that the client does not answer: Ok and SASLFinal.
abbrev pub expects_none : ℕ → Bool
expects_none code = code == 0 || code == 12

module _ {P D : Type 0} (ends : Ends P D) where
  unfoldable pub to_client : Bytes → M (Link P D) (Unit {0})
  to_client bs l = written_client l (ends.write_client bs l.client_out)

  unfoldable pub to_primary : Bytes → M (Link P D) (Unit {0})
  to_primary bs l = written_primary l (ends.write_primary bs l.primary_out)

  -- `upgradeClientTLS`
  unfoldable pub upgrade_client_tls :
      (Conn × D → Outcome (Conn × D) (Unit {0})) → M (Link P D) (Unit {0})
  upgrade_client_tls handshake = do
    to_client (b'S' ∷ [])
    (λ l. accepted l (handshake (l.client_in, l.client_out)))

  -- `upgradeBackendTLS`
  unfoldable pub upgrade_backend_tls : M (Link P D) (Unit {0})
  upgrade_backend_tls = do
    to_primary ssl_request
    resp ← (λ l. on_primary l (read_full 1 l.primary_in))
    if byte resp 0 == b'S'
        then (λ l. connected l (ends.connect (l.primary_in, l.primary_out)))
        else fail (tls_refused (byte resp 0))

  -- What forwardStartup does with a message; `more` is the next round.
  unfoldable pub answer_probe : M (Link P D) (Option PgPacket) → M (Link P D) (Option PgPacket)
  answer_probe more = do to_client (b'N' ∷ []); more

  unfoldable pub answer_ssl :
      Option (Conn × D → Outcome (Conn × D) (Unit {0}))
      → M (Link P D) (Option PgPacket)
      → M (Link P D) (Option PgPacket)
  answer_ssl none more = answer_probe more
  answer_ssl (some handshake) more = do
    (λ l. count_tls_failure (upgrade_client_tls handshake l))
    more

  unfoldable pub forward_last : PgPacket → Option PgPacket → M (Link P D) (Option PgPacket)
  forward_last startup result = do to_primary startup.payload; pure result

  unfoldable pub after_startup :
      PgPacket → M (Link P D) (Option PgPacket) → M (Link P D) (Option PgPacket)
  after_startup startup more =
      if is_ssl_request startup
      then answer_ssl ends.accept more
      else if is_gssenc_request startup
      then answer_probe more
      else if is_cancel_request startup
      then forward_last startup none
      else forward_last startup (some startup)

  -- `forwardStartup`; the client's connection in effect is the one in the state.
  unfoldable pub forward_startup : ℕ → M (Link P D) (Option PgPacket)
  forward_startup zero = fail out_of_fuel
  forward_startup (suc fuel) = do
    startup ← (λ l. on_client l (read_startup_message l.client_in))
    after_startup startup (λ l. forward_startup fuel l)

  -- The client's answer to a challenge.
  unfoldable pub relay_password : M (Link P D) (Unit {0}) → M (Link P D) (Unit {0})
  relay_password more = do
    password ← (λ l. on_client l (read_message l.client_in))
    to_primary (bytes password)
    more

  unfoldable pub refuse : M (Link P D) (Unit {0})
  refuse l = err authentication_failed (record l { auth_failures = suc l.auth_failures })

  unfoldable pub after_auth : PgPacket → M (Link P D) (Unit {0}) → M (Link P D) (Unit {0})
  after_auth msg more =
      if msg.type_byte == b'R'
      then (if ltb (length msg.payload) 8
          then fail malformed
          else if expects_none (be32 msg.payload 4)
          then more
          else relay_password more)
      else if msg.type_byte == b'Z'
      then pure tt
      else if msg.type_byte == b'E'
      then refuse
      else more

  -- `forwardAuthPhase`
  unfoldable pub forward_auth_phase : ℕ → M (Link P D) (Unit {0})
  forward_auth_phase zero = fail out_of_fuel
  forward_auth_phase (suc fuel) = do
    msg ← (λ l. on_primary l (read_message l.primary_in))
    to_client (bytes msg)
    after_auth msg (λ l. forward_auth_phase fuel l)
