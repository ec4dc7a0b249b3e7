-- ===== src/MySql/Handshake/Upgraded.antt =====
-- What handleMySQLSSLUpgrade passes on.
use starrocks_shadow_proxy.MySql.Auth.{
  remove_unsupported_capabilities, modify_handshake_for_ssl, is_ssl_request,
}
use starrocks_shadow_proxy.MySql.Handshake.{Link, shaken}
use starrocks_shadow_proxy.MySql.Handshake.Relayed.{Passed}
use starrocks_shadow_proxy.Net.{Conn}
use starrocks_shadow_proxy.Prelude.{◌≡◌, Bool, true, false, Bytes, [], ◌∷◌, ◌++◌, write_at}
use starrocks_shadow_proxy.Prelude.Outcome.{Outcome, ok, M}
use starrocks_shadow_proxy.Prelude.Rules.{Post}

module _ {P D : Type 0} (write_client : Bytes → M D (Unit {0}))
    (write_primary : Bytes → M P (Unit {0})) (sent_c : D → Bytes) (sent_p : P → Bytes)
    (client_takes : (bs : Bytes) (d : D)
      → Post (λ _ d'. sent_c d' ≡ sent_c d ++ bs) (λ _ _. Unit {0}) (write_client bs d))
    (primary_takes : (bs : Bytes) (p : P)
      → Post (λ _ p'. sent_p p' ≡ sent_p p ++ bs) (λ _ _. Unit {0}) (write_primary bs p))
    (accept : Conn × D → Outcome (Conn × D) (Unit {0})) where
  abbrev pub Moved : Link P D → Bytes → Bytes → Bytes → Bytes → Link P D → Type 0
  Moved = Passed write_client write_primary sent_c sent_p client_takes primary_takes

  -- The login over TLS: the handshake stands between `l` and `m`, and then one packet goes each way.
  pub record OverTls (l q : Link P D) : Type 0 where
    pub secured : Link P D
    pub handshake :
        shaken write_client write_primary l (accept (l.client_in, l.client_out)) ≡ ok tt secured
    pub auth : Bytes
    pub response : Bytes
    pub moved :
        Moved secured response
          (write_at response 3 (3 ∷ []))
          auth
          (write_at (remove_unsupported_capabilities auth) 3 (1 ∷ []))
          q

  -- The login without TLS: both ways unchanged.
  pub record Plain (l : Link P D) (auth : Bytes) (q : Link P D) : Type 0 where
    pub responses : Bytes
    pub switched : Bytes
    pub moved : Moved l responses responses switched (auth ++ switched) q

  abbrev pub Ended : Link P D → Bytes → Bool → Link P D → Type 0
  Ended l client_response true q = OverTls l q
  Ended l client_response false q = Plain l client_response q

  pub record Upgraded (l : Link P D) (b : Bool) (q : Link P D) : Type 0 where
    pub greeting : Bytes
    pub answer : Bytes
    pub greeted : Link P D
    pub opened : Moved l greeting (modify_handshake_for_ssl greeting) answer [] greeted
    pub wanted : is_ssl_request answer ≡ b
    pub ended : Ended greeted answer b q
