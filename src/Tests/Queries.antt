-- ===== src/Tests/Queries.antt =====
-- pg_proxy.go on a short login, and its query loop on a Sync, the ReadyForQuery that answers it,
-- and a Terminate.
use starrocks_shadow_proxy.Filter.Decision.{allowed}
use starrocks_shadow_proxy.Net.{segment}
use starrocks_shadow_proxy.Pg.Protocol.{PgPacket}
use starrocks_shadow_proxy.Pg.Session.{
  Session, Peers, goes_on, returns, run_query_loop, forward_response_until_ready,
}
use starrocks_shadow_proxy.Pg.Session.Forwarded.{Forwards, forward_response_until_ready-Forwards}
use starrocks_shadow_proxy.Pg.Session.Loop.{SentAll, run_query_loop-SentAll, run_query_loop-Ends}
use starrocks_shadow_proxy.Pg.Connection.{
  lookup, parse_startup_params, Shadow, Counters, unwinds, handle_connection,
}
use starrocks_shadow_proxy.Pg.Connection.Lifetime.{InTime, handle_connection-InTime}
use starrocks_shadow_proxy.Pg.Connection.Parameters.{
  last_value, written_params, parse_startup_params-written,
}
use starrocks_shadow_proxy.Pg.Startup.{Ends, Link, ssl_request, forward_auth_phase}
use starrocks_shadow_proxy.Pg.Startup.Exchange.{LogsIn}
use starrocks_shadow_proxy.Pg.Startup.Login.{forward_auth_phase-LogsIn}
use starrocks_shadow_proxy.Prelude.Text.{is_empty}
use starrocks_shadow_proxy.Prelude.{
  if◌then◌else◌, ℕ, ◌≡◌, ◌≢◌, refl, true, false, Bytes, List, [], ◌∷◌, ◌++◌, Option, none, some,
  length, arith,
}
use starrocks_shadow_proxy.Prelude.Outcome.{Error, out_of_fuel, ok}

abbrev write : Bytes → List Bytes → ℕ × (Option Error × List Bytes)
write bs c = (length bs, (none, c ++ (bs ∷ [])))

abbrev reply : Bytes → Bytes → ℕ × (Option Error × Bytes)
reply bs d = (length bs, (none, d ++ bs))

abbrev peers : Peers (List Bytes) Bytes
peers = record {
  write = write;
  reply = reply;
  mirror = λ q. allowed;
  has_shadow = true;
  uuid = λ n. n ∷ [];
  md5 = λ q. q;
  client_addr = [];
}

abbrev session : Session (List Bytes) Bytes
session = record {
  client_in = segment (b'S' ∷ 0 ∷ 0 ∷ []) ∷ segment (0 ∷ 4 ∷ b'X' ∷ 0 ∷ 0 ∷ 0 ∷ 4 ∷ []) ∷ [];
  primary_in = segment (b'Z' ∷ 0 ∷ 0 ∷ 0 ∷ 5 ∷ b'I' ∷ []) ∷ [];
  primary_conn = [];
  client = [];
  filtered_stmt_names = record { names = []; resets = 0 };
  frames = [];
  log = some [];
  served = 0;
}

forward_response_until_ready-Forwards_example :
    Forwards peers (λ d. d) session 0 (forward_response_until_ready peers 9 0 session)
forward_response_until_ready-Forwards_example =
    forward_response_until_ready-Forwards peers (λ d. d) (λ bs d. (refl, refl)) 9 0 session
      (omega arith)

run_query_loop-SentAll_example :
    (xs : List PgPacket) × SentAll peers
      (λ c. c)
      (λ d. d)
      (λ bs d. (refl, refl))
      (λ bs c. refl)
      session
      xs
      (run_query_loop peers 20 session).1
run_query_loop-SentAll_example =
    run_query_loop-SentAll peers (λ c. c) (λ d. d) (λ bs d. (refl, refl)) (λ bs c. refl) refl 20
      session

run_query_loop-Ends_example :
    ((run_query_loop peers 20 session).0 ≢ goes_on)
    × ((run_query_loop peers 20 session).0 ≢ returns (some out_of_fuel))
run_query_loop-Ends_example =
    run_query_loop-Ends peers (λ c. c) (λ d. d) (λ bs d. (refl, refl)) (λ bs c. refl) 20 session
      (omega arith)

-- The login of a client that first asks for TLS: the startup message, AuthenticationOk and
-- ReadyForQuery; then the query loop on a Terminate.
abbrev ends : Ends (List Bytes) Bytes
ends = record {
  write_client = λ bs d. ok tt (d ++ bs);
  write_primary = λ bs c. ok tt (c ++ (bs ∷ []));
  accept = none;
  connect = λ s. ok tt s;
}

abbrev startup : PgPacket
startup = record {
  type_byte = 0;
  payload = 0 ∷ 0 ∷ 0 ∷ 13 ∷ 0 ∷ 3 ∷ 0 ∷ 0 ∷ b'u' ∷ 0 ∷ b'x' ∷ 0 ∷ 0 ∷ [];
}

abbrev link : Link (List Bytes) Bytes
link = record {
  client_in =
      segment ssl_request ∷ segment startup.payload ∷ segment (b'X' ∷ 0 ∷ 0 ∷ 0 ∷ 4 ∷ []) ∷ [];
  primary_in =
      segment (b'R' ∷ 0 ∷ 0 ∷ 0 ∷ 8 ∷ 0 ∷ 0 ∷ 0 ∷ 0 ∷ b'Z' ∷ 0 ∷ 0 ∷ 0 ∷ 5 ∷ b'I' ∷ []) ∷ [];
  client_out = [];
  primary_out = [];
  tls_failures = 0;
  auth_failures = 0;
}

forward_auth_phase-LogsIn_example : LogsIn (λ c. c) (λ d. d) link (forward_auth_phase ends 60 link)
forward_auth_phase-LogsIn_example =
    forward_auth_phase-LogsIn ends (λ c. c) (λ d. d) (λ bs c. refl) (λ bs d. refl) (λ bs c. tt)
      (λ bs d. tt) 60 link (omega arith)

parse_startup_params-written_example :
    lookup (b'u' ∷ []) (parse_startup_params startup)
    ≡ last_value (b'u' ∷ []) ((b'u' ∷ [], b'x' ∷ []) ∷ []) none
unfolding written_params is_empty
parse_startup_params-written_example =
    parse_startup_params-written startup (0 ∷ 0 ∷ 0 ∷ 13 ∷ 0 ∷ 3 ∷ 0 ∷ 0 ∷ [])
      ((b'u' ∷ [], b'x' ∷ []) ∷ []) refl ((omega arith, tt), refl, (omega arith, tt), tt) refl
      (b'u' ∷ [])

abbrev no_shadow : Shadow
no_shadow = record {
  has_host = false;
  samples = false;
  initialize = λ d. false;
  logger = none;
  close_returns = true;
  copying_returns = true;
}

abbrev counters : Counters
counters = record {
  active_connections = 2;
  total_connections = 5;
  connection_failures = 0;
  connections_with_shadow = 1;
  connections_without_shadow = 1;
  sampled_out = 0;
}

handle_connection-InTime_example :
    let (end, m) = handle_connection ends no_shadow peers false (some link) counters in
    InTime end
    × (m.active_connections ≡ (if unwinds ends no_shadow peers end then 2 else 3))
    × (m.total_connections ≡ 6)
handle_connection-InTime_example =
    handle_connection-InTime ends no_shadow peers (λ c. c) (λ d. d) (λ bs c. refl) (λ bs d. refl)
      (λ bs c. tt) (λ bs d. tt) tt (λ s. tt) (λ bs c. refl) (λ bs d. (refl, refl)) false (some link)
      counters
