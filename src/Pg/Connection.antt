-- ===== src/Pg/Connection.antt =====
-- pg_proxy.go: startShadowWorker and handleConnection, the life of one connection, and the startup
-- parameters of pg_shadow_worker.go. Parameters: the dials, the sample roll, the worker's
-- Initialize, and whether its Close and copyFallback come to an end.
pub mod Lifetime
pub mod Parameters
use starrocks_shadow_proxy.MySql.Log.{Logs}
use starrocks_shadow_proxy.Net.{Conn}
use starrocks_shadow_proxy.Net.Arrival.{arriving}
use starrocks_shadow_proxy.Pg.Protocol.{PgPacket}
use starrocks_shadow_proxy.Pg.Session.{Session, Peers, Next, copies, run_query_loop}
use starrocks_shadow_proxy.Pg.Startup.{
  Link, Ends, upgrade_backend_tls, forward_startup, forward_auth_phase,
}
use starrocks_shadow_proxy.Prelude.{
  ℕ, zero, suc, ◌+◌, ◌-◌, Bool, true, false, not, ◌&&◌, ◌||◌, Bytes, List, [], ◌∷◌, drop, length,
  ltb, ◌==◌, if◌then◌else◌, Option, none, some,
}
use starrocks_shadow_proxy.Prelude.Outcome.{Error, Outcome, ok, err}
use starrocks_shadow_proxy.Prelude.Text.{codes, is_empty, bytes_eq}

-- `bytes.Split(kv, []byte{0})`: the first part, and the others.
unfoldable pub split_null : Bytes → Bytes × List Bytes
split_null [] = ([], [])
split_null (c ∷ cs) =
    let (part, parts) = split_null cs in
    if◌then◌else◌ {A = Bytes × List Bytes} (c == 0) ([], part ∷ parts) (c ∷ part, parts)

-- A Go map of strings: of the entries for a key, the first is the one that was set last.
abbrev pub Params : Type 0
Params = List (Bytes × Bytes)

unfoldable pub lookup : Bytes → Params → Option Bytes
lookup k [] = none
lookup k ((k', v) ∷ ps) = let rest = lookup k ps in if bytes_eq k' k then some v else rest

-- The loop of parseStartupParams over the parts.
unfoldable pub read_params : List Bytes → Params → Params
read_params [] out = out
read_params (k ∷ []) out = out
read_params (k ∷ v ∷ parts) out =
    let rest = read_params parts ((k, v) ∷ out) in if is_empty k then out else rest

-- `parseStartupParams`
unfoldable pub parse_startup_params : PgPacket → Params
parse_startup_params p =
    let (part, parts) = split_null (drop 8 p.payload) in
    if ltb (length p.payload) 9 then [] else read_params (part ∷ parts) []

-- `params["database"]`, empty if there is none
unfoldable pub dbname_of : PgPacket → Bytes
dbname_of startup = elim (lookup (codes "database") (parse_startup_params startup)) [
  | none ↦ []
  | some v ↦ v
]

-- The counters of a connection.
pub record Counters : Type 0 where
  pub active_connections : ℕ
  pub total_connections : ℕ
  pub connection_failures : ℕ
  pub connections_with_shadow : ℕ
  pub connections_without_shadow : ℕ
  pub sampled_out : ℕ

-- `samples`: the filter's rate is below one and the roll not below the rate. `initialize` dials the
-- shadow with the database's name, and says whether that succeeds.
pub record Shadow : Type 0 where
  pub has_host : Bool
  pub samples : Bool
  pub initialize : Bytes → Bool
  pub logger : Logs
  pub close_returns : Bool
  pub copying_returns : Bool

-- `startShadowWorker`: whether there is a worker.
unfoldable pub start_shadow_worker : Shadow → PgPacket → Counters → Bool × Counters
start_shadow_worker shadow startup m =
    if◌then◌else◌ {A = Bool × Counters} (not shadow.has_host) (false, m)
      (if◌then◌else◌ {A = Bool × Counters} shadow.samples
        (
          false,
          record m {
            sampled_out = suc m.sampled_out;
            connections_without_shadow = suc m.connections_without_shadow;
          },
        )
        (if◌then◌else◌ {A = Bool × Counters} (shadow.initialize (dbname_of startup))
          (true, record m { connections_with_shadow = suc m.connections_with_shadow })
          (false, record m { connections_without_shadow = suc m.connections_without_shadow })))

-- How a connection ended: no primary, an upgrade, startup or login that failed, a cancel request,
-- or a query loop.
pub data End (P D : Type 0) : Type 0 where
  undialled : End P D
  upgrade_failed startup_failed login_failed : Error → Link P D → End P D
  cancelled : Link P D → End P D
  looped : Bool → Next × Session P D → End P D

abbrev pub is_copying : Next → Bool
is_copying copies = true
is_copying _ = false

module _ {P D : Type 0} (ends : Ends P D) (shadow : Shadow) (peers : Peers P D) where
  -- The query loop on the connections that the login leaves.
  abbrev pub session_of : Link P D → Session P D
  session_of l = record {
    client_in = l.client_in;
    primary_in = l.primary_in;
    primary_conn = l.primary_out;
    client = l.client_out;
    filtered_stmt_names = record { names = []; resets = 0 };
    frames = [];
    log = shadow.logger;
    served = 0;
  }

  abbrev pub after_login : PgPacket → Counters → Outcome (Link P D) (Unit {0}) → End P D × Counters
  after_login startup m (err e l) = (login_failed e l, m)
  after_login startup m (ok _ l) =
      let (worker, m') = start_shadow_worker shadow startup m in
      (
        looped worker (
            run_query_loop (record peers { has_shadow = worker })
              (suc (length (arriving l.client_in))) (session_of l)),
        m',
      )

  abbrev pub after_startup_phase :
      Counters → Outcome (Link P D) (Option PgPacket) → End P D × Counters
  after_startup_phase m (err e l) = (startup_failed e l, m)
  after_startup_phase m (ok none l) = (cancelled l, m)
  after_startup_phase m (ok (some startup) l) =
      after_login startup m (forward_auth_phase ends (suc (length (arriving l.primary_in))) l)

  abbrev pub after_upgrade : Counters → Outcome (Link P D) (Unit {0}) → End P D × Counters
  after_upgrade m (err e l) = (upgrade_failed e (record l { tls_failures = suc l.tls_failures }), m)
  after_upgrade m (ok _ l) =
      after_startup_phase m (forward_startup ends (suc (length (arriving l.client_in))) l)

  -- Whether the function comes to the deferred decrement of the gauge: behind the copying of
  -- copyFallback, where the loop goes over to it, and the deferred Close of the shadow's worker.
  unfoldable pub unwinds : End P D → Bool
  unwinds (looped worker (next, s)) =
      (not (is_copying next) || shadow.copying_returns) && (not worker || shadow.close_returns)
  unwinds _ = true

  -- `handleConnection`; `dial` is the primary, if it was reached, and `backend_tls` says whether
  -- there is a configuration for it.
  unfoldable pub handle_connection : Bool → Option (Link P D) → Counters → End P D × Counters
  handle_connection backend_tls dial m =
      let m1 = record m {
        active_connections = suc m.active_connections;
        total_connections = suc m.total_connections;
      } in
      let (end, m2) : End P D × Counters = elim dial [
        | none ↦ (undialled, record m1 { connection_failures = suc m.connection_failures })
        | some l ↦
            if backend_tls
            then after_upgrade m1 (upgrade_backend_tls ends l)
            else after_startup_phase m1
                (forward_startup ends (suc (length (arriving l.client_in))) l)
      ] in
      (
        end,
        if unwinds end then record m2 { active_connections = m2.active_connections - 1 } else m2,
      )
