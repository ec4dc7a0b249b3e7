-- ===== src/Tests/Logins.antt =====
-- proxy.go: a login with a switch of the authentication method, and one with TLS.
use starrocks_shadow_proxy.MySql.Handshake.{Link, forward_mysql_handshake}
use starrocks_shadow_proxy.MySql.Handshake.Relayed.{LoggedIn, forward_mysql_handshake-LoggedIn}
use starrocks_shadow_proxy.MySql.Handshake.Upgraded.{Upgraded}
use starrocks_shadow_proxy.Net.{segment}
use starrocks_shadow_proxy.Prelude.{Bytes, [], ◌∷◌, ◌++◌, refl}
use starrocks_shadow_proxy.Prelude.Outcome.{ok, M}
use starrocks_shadow_proxy.Prelude.Rules.{Post}

abbrev collect : Bytes → M Bytes (Unit {0})
collect bs d = ok tt (d ++ bs)

-- The server greets, asks for another method, and accepts.
abbrev login : Link Bytes Bytes
login = record {
  client_in =
      segment (4 ∷ 0 ∷ 0 ∷ 1 ∷ 0x85 ∷ 0xae ∷ 0xff ∷ 0x01 ∷ [])
      ∷ segment (1 ∷ 0 ∷ 0 ∷ 3 ∷ 9 ∷ [])
      ∷ [];
  primary_in =
      segment (1 ∷ 0 ∷ 0 ∷ 0 ∷ 10 ∷ [])
      ∷ segment (1 ∷ 0 ∷ 0 ∷ 2 ∷ 0xfe ∷ [])
      ∷ segment (1 ∷ 0 ∷ 0 ∷ 4 ∷ 0 ∷ [])
      ∷ [];
  client_out = [];
  primary_out = [];
}

forward_mysql_handshake-LoggedIn_example :
    Post
      (λ _ l. LoggedIn collect collect (λ d. d) (λ d. d) (λ bs d. refl) (λ bs d. refl) login l)
      (λ _ _. Unit {0})
      (forward_mysql_handshake collect collect login)
forward_mysql_handshake-LoggedIn_example =
    forward_mysql_handshake-LoggedIn collect collect (λ d. d) (λ d. d) (λ bs d. refl) (λ bs d. refl)
      login

-- A client that asks for TLS; the handshake leaves the connection as it is.
abbrev tls_login : Link Bytes Bytes
tls_login = record login {
  client_in =
      segment (4 ∷ 0 ∷ 0 ∷ 1 ∷ 0 ∷ 0x8a ∷ 0 ∷ 0 ∷ [])
      ∷ segment (4 ∷ 0 ∷ 0 ∷ 2 ∷ 0x85 ∷ 0xae ∷ 0xff ∷ 0x01 ∷ [])
      ∷ [];
}
