-- ===== src/MySql/Connection.antt =====
-- proxy.go: handleConnection, the life of one connection, and shadow_worker.go: the dial and login
-- of Initialize. Parameters: what the dials give, and whether the copying of a session without a
-- shadow, and the deferred Close of a ShadowWorker, come to an end.
pub mod Counted
use starrocks_shadow_proxy.MySql.Handshake.{Link, forward_mysql_handshake, handle_mysql_ssl_upgrade}
use starrocks_shadow_proxy.MySql.Log.{Logs}
use starrocks_shadow_proxy.MySql.Mirror.{Proxy, Peers, proxy_loop}
use starrocks_shadow_proxy.MySql.Reader.{new_reader}
use starrocks_shadow_proxy.MySql.Shadow.{ShadowLink, ShadowEnd, authenticate_with_shadow}
use starrocks_shadow_proxy.Net.{Conn}
use starrocks_shadow_proxy.Net.Arrival.{arriving}
use starrocks_shadow_proxy.Prelude.{
  ℕ, suc, ◌+◌, ◌-◌, Bool, true, false, Bytes, [], length, if◌then◌else◌, Option, none, some,
}
use starrocks_shadow_proxy.Prelude.Outcome.{Error, panicked, Outcome, ok, err, M}

-- The counters of metrics.go that a connection moves; connectionFailures by its label.
pub record TcpCounters : Type 0 where
  pub active_connections : ℕ
  pub total_connections : ℕ
  pub primary_failures : ℕ
  pub shadow_failures : ℕ
  pub tls_failures : ℕ
  pub connections_with_shadow : ℕ
  pub connections_without_shadow : ℕ

module _ (P D S : Type 0) where
  -- What the connection is made of: the writers at the login, the TLS handshake if the listener has
  -- a configuration, the loop's peers, and the shadow.
  pub record TcpEnds : Type 0 where
    pub write_client : Bytes → M D (Unit {0})
    pub write_primary : Bytes → M P (Unit {0})
    pub accept : Option (Conn × D → Outcome (Conn × D) (Unit {0}))
    pub peers : Peers P D
    pub shadow : ShadowEnd S
    pub logger : Logs
    pub copying_returns : Bool
    pub close_returns : Bool

  -- How a connection went: no primary, a login that failed, a session that is only passed on, one
  -- that is mirrored, with the shadow's connection and the state before and after the loop, or a
  -- panic in the login at the shadow, which no function recovers: it ends the process.
  pub data TcpEnd : Type 0 where
    undialled : TcpEnd
    login_failed : Error → Link P D → TcpEnd
    unmirrored : Link P D → TcpEnd
    crashed : ShadowLink S → TcpEnd
    mirrored : ShadowLink S → Proxy P D → Option Error × Proxy P D → TcpEnd

-- What Initialize gives: an error, a panic, or a worker on its connection.
pub data Initialized (S : Type 0) : Type 0 where
  failed : Initialized S
  panics worker_on : ShadowLink S → Initialized S

unfoldable pub login_error : {S : Type 0} → Error → ShadowLink S → Initialized S
login_error panicked q = panics q
login_error _ q = failed

module _ {P D S : Type 0} (ends : TcpEnds P D S) where
  -- `Initialize`: the dial, and authenticateWithShadow as its authFunc.
  unfoldable pub initialize_shadow : Option (ShadowLink S) → Initialized S
  initialize_shadow none = failed
  initialize_shadow (some l) = elim (authenticate_with_shadow ends.shadow l) [
    | ok _ q ↦ worker_on q
    | err e q ↦ login_error e q
  ]

  abbrev pub proxy_of : Link P D → Proxy P D
  proxy_of l = record {
    client_reader = new_reader l.client_in;
    primary_reader = new_reader l.primary_in;
    primary_conn = l.primary_out;
    client = l.client_out;
    mirrored = [];
    log = ends.logger;
    served = 0;
  }

  abbrev pub after_initialize : Link P D → TcpCounters → Initialized S → TcpEnd P D S × TcpCounters
  after_initialize l m failed = (
    unmirrored l,
    record m {
      shadow_failures = suc m.shadow_failures;
      connections_without_shadow = suc m.connections_without_shadow;
    },
  )
  after_initialize l m (panics s) = (crashed s, m)
  after_initialize l m (worker_on s) = (
    mirrored s (proxy_of l)
        (proxy_loop ends.peers (suc (length (arriving l.client_in))) (proxy_of l)),
    record m { connections_with_shadow = suc m.connections_with_shadow },
  )

  abbrev pub after_tls_login :
      Option (ShadowLink S) → TcpCounters → Outcome (Link P D) Bool → TcpEnd P D S × TcpCounters
  after_tls_login dialled m (err e l) =
      (login_failed e l, record m { tls_failures = suc m.tls_failures })
  after_tls_login dialled m (ok b l) = after_initialize l m (initialize_shadow dialled)

  abbrev pub after_plain_login :
      Option (ShadowLink S)
      → TcpCounters
      → Outcome (Link P D) (Unit {0})
      → TcpEnd P D S × TcpCounters
  after_plain_login dialled m (err e l) = (login_failed e l, m)
  after_plain_login dialled m (ok _ l) = after_initialize l m (initialize_shadow dialled)

  abbrev pub with_primary :
      Option (Conn × D → Outcome (Conn × D) (Unit {0}))
      → Option (ShadowLink S)
      → TcpCounters
      → Option (Link P D)
      → TcpEnd P D S × TcpCounters
  with_primary accept dialled m none =
      (undialled, record m { primary_failures = suc m.primary_failures })
  with_primary (some accept) dialled m (some l) =
      after_tls_login dialled m
        (handle_mysql_ssl_upgrade ends.write_client ends.write_primary accept l)
  with_primary none dialled m (some l) =
      after_plain_login dialled m (forward_mysql_handshake ends.write_client ends.write_primary l)

  -- Whether the function comes to its first deferred call, the decrement of the gauge, which a
  -- panic runs too.
  unfoldable pub unwinds : TcpEnd P D S → Bool
  unwinds (unmirrored l) = ends.copying_returns
  unwinds (mirrored s p out) = ends.close_returns
  unwinds _ = true

  -- `handleConnection`; `dial` and `dialled` are the primary and the shadow, if they were reached.
  unfoldable pub handle_tcp_connection :
      Option (Link P D) → Option (ShadowLink S) → TcpCounters → TcpEnd P D S × TcpCounters
  handle_tcp_connection dial dialled m =
      let (end, m') =
        with_primary ends.accept dialled
          (record m {
            active_connections = suc m.active_connections;
            total_connections = suc m.total_connections;
          })
          dial in
      (
        end,
        if unwinds end then record m' { active_connections = m'.active_connections - 1 } else m',
      )
