-- ===== src/MySql/Handshake.antt =====
-- proxy.go: forwardMySQLHandshake, the login between client and primary without TLS, and
-- handleMySQLSSLUpgrade, the one at a listener with TLS. Each side is
-- what arrives from it and what is written to it; the two writers are parameters, and
-- so is the TLS handshake.
pub mod Relayed
pub mod Upgraded
use starrocks_shadow_proxy.MySql.Auth.{
  remove_unsupported_capabilities, modify_handshake_for_ssl, is_ssl_request,
}
use starrocks_shadow_proxy.MySql.Wire.{byte, read_mysql_packet}
use starrocks_shadow_proxy.Net.{Conn}
use starrocks_shadow_proxy.Prelude.{
  ℕ, Bool, true, false, [], ◌∷◌, write_at, ◌&&◌, Bytes, length, ltb, ◌==◌, if◌then◌else◌,
}
use starrocks_shadow_proxy.Prelude.Outcome.{
  Outcome, ok, err, authentication_failed, M, ◌>>=◌, ◌>>◌, pure, fail,
}

pub record Link (P D : Type 0) : Type 0 where
  pub client_in : Conn
  pub primary_in : Conn
  pub client_out : D
  pub primary_out : P

-- The fifth byte of a response: 0xFE asks for another method, 0xFF refuses.
abbrev pub responds : ℕ → Bytes → Bool
responds code response = ltb 4 (length response) && byte response 4 == code

module _ {P D : Type 0} (write_client : Bytes → M D (Unit {0}))
    (write_primary : Bytes → M P (Unit {0})) where
  unfoldable pub from_client : M (Link P D) Bytes
  from_client l = elim (read_mysql_packet l.client_in) [
    | ok p c ↦ ok p (record l { client_in = c })
    | err e c ↦ err e (record l { client_in = c })
  ]

  unfoldable pub from_primary : M (Link P D) Bytes
  from_primary l = elim (read_mysql_packet l.primary_in) [
    | ok p c ↦ ok p (record l { primary_in = c })
    | err e c ↦ err e (record l { primary_in = c })
  ]

  unfoldable pub to_client : Bytes → M (Link P D) (Unit {0})
  to_client bs l = elim (write_client bs l.client_out) [
    | ok _ d ↦ ok tt (record l { client_out = d })
    | err e d ↦ err e (record l { client_out = d })
  ]

  unfoldable pub to_primary : Bytes → M (Link P D) (Unit {0})
  to_primary bs l = elim (write_primary bs l.primary_out) [
    | ok _ d ↦ ok tt (record l { primary_out = d })
    | err e d ↦ err e (record l { primary_out = d })
  ]

  -- One more round where the primary asks for another method; the result is its last answer.
  unfoldable pub switch_auth : Bytes → M (Link P D) Bytes
  switch_auth response = do
    to_client response
    switch_response ← from_client
    to_primary switch_response
    from_primary

  unfoldable pub conclude : Bytes → M (Link P D) (Unit {0})
  conclude response = do
    to_client response
    if responds 0xff response then fail authentication_failed else pure tt

  unfoldable pub forward_mysql_handshake : M (Link P D) (Unit {0})
  forward_mysql_handshake = do
    handshake ← from_primary
    to_client handshake
    auth_packet ← from_client
    to_primary (remove_unsupported_capabilities auth_packet)
    auth_response ← from_primary
    last ← (if responds 0xfe auth_response then switch_auth auth_response else pure auth_response)
    conclude last

  abbrev pub shaken : Link P D → Outcome (Conn × D) (Unit {0}) → Outcome (Link P D) (Unit {0})
  shaken l (ok _ (c, d)) = ok tt (record l { client_in = c; client_out = d })
  shaken l (err e (c, d)) = err e (record l { client_in = c; client_out = d })

  module _ (accept : Conn × D → Outcome (Conn × D) (Unit {0})) where
    -- The client asked for TLS: the login packet comes behind the handshake, and the sequence
    -- numbers of it and of the answer are set to what each side expects.
    unfoldable pub log_in_over_tls : M (Link P D) Bool
    log_in_over_tls = do
      (λ l. shaken l (accept (l.client_in, l.client_out)))
      auth_packet ← from_client
      to_primary (write_at (remove_unsupported_capabilities auth_packet) 3 (1 ∷ []))
      auth_response ← from_primary
      to_client (write_at auth_response 3 (3 ∷ []))
      pure true

    -- It did not: what it sent is the login packet.
    unfoldable pub log_in_plainly : Bytes → M (Link P D) Bool
    log_in_plainly client_response = do
      to_primary client_response
      auth_response ← from_primary
      last ← (if responds 0xfe auth_response then switch_auth auth_response else pure auth_response)
      conclude last
      pure false

    -- `handleMySQLSSLUpgrade`; the result says whether the client's connection is a TLS one now.
    unfoldable pub handle_mysql_ssl_upgrade : M (Link P D) Bool
    handle_mysql_ssl_upgrade = do
      handshake ← from_primary
      to_client (modify_handshake_for_ssl handshake)
      client_response ← from_client
      if is_ssl_request client_response then log_in_over_tls else log_in_plainly client_response
