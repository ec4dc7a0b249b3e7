-- ===== src/Tests/Mirroring.antt =====
-- The MySQL proxy loop, the shadow worker and the query log on a few requests.
use starrocks_shadow_proxy.MySql.Connection.{TcpCounters, TcpEnds}
use starrocks_shadow_proxy.MySql.Handshake.{Link}
use starrocks_shadow_proxy.MySql.Shadow.{ShadowLink}
use starrocks_shadow_proxy.MySql.Command.{get_mysql_command, is_no_response_command}
use starrocks_shadow_proxy.MySql.Log.{
  QueryRequest, QueryLogEntry, QueryLogger, shadow, LogEvent, logged, received, ticked, cancelled,
  execution_entry, run_log,
}
use starrocks_shadow_proxy.MySql.Log.Batches.{held, taken, goes_on, written_out, run_log-delivers}
use starrocks_shadow_proxy.MySql.Mirror.{Proxy, Peers, proxy_loop}
use starrocks_shadow_proxy.MySql.Mirror.Loop.{Sent, proxy_loop-Sent}
use starrocks_shadow_proxy.MySql.Reader.{Reader}
use starrocks_shadow_proxy.MySql.Worker.{
  Worker, Metrics, serving, draining, returned, send, begin_close, process_request, after_write,
  count_request, Run, start, step, sends, closes, drains, takes, drained,
}
use starrocks_shadow_proxy.MySql.Worker.Promises.{worker_drains, worker_in_order}
use starrocks_shadow_proxy.MySql.Worker.Queue.{packets, Logged, Ordered}
use starrocks_shadow_proxy.Net.{Conn, segment}
use starrocks_shadow_proxy.Prelude.{
  ℕ, ◌≡◌, ◌≢◌, refl, true, false, Bytes, List, [], ◌∷◌, ◌++◌, Option, none, length,
}
use starrocks_shadow_proxy.Prelude.{some}
use starrocks_shadow_proxy.Prelude.Outcome.{Error, ok}
use starrocks_shadow_proxy.Prelude.Text.{codes}

abbrev reader_of : Conn → Reader
reader_of c = record { conn = c; buf = 0 ∷ 0 ∷ 0 ∷ 0 ∷ []; offset = 0; limit = 0 }

abbrev stmt_close : Bytes
stmt_close = 1 ∷ 0 ∷ 0 ∷ 0 ∷ 0x19 ∷ []

abbrev quit : Bytes
quit = 1 ∷ 0 ∷ 0 ∷ 0 ∷ 0x01 ∷ []

abbrev peers : Peers (List Bytes) Bytes
peers = record {
  write = λ bs c. (length bs, (none, c ++ (bs ∷ [])));
  reply = λ bs d. ok tt (d ++ bs);
  filter = none;
  uuid = λ n. n ∷ [];
  md5 = λ bs. bs;
  client_addr = [];
}

abbrev session : Proxy (List Bytes) Bytes
session = record {
  client_reader = reader_of (segment stmt_close ∷ segment quit ∷ []);
  primary_reader = reader_of [];
  primary_conn = [];
  client = [];
  mirrored = [];
  log = some [];
  served = 0;
}

proxy_loop-Sent_example :
    (xs : List Bytes) × Sent peers (λ c. c) (λ bs c. refl) session xs (proxy_loop peers 3 session).1
proxy_loop-Sent_example = proxy_loop-Sent peers (λ c. c) (λ bs c. refl) 3 session

abbrev request : QueryRequest
request = record {
  id = 7 ∷ [];
  packet = stmt_close;
  query_text = [];
  query_hash = [];
  command = codes "COM_STMT_CLOSE";
  client_addr = [];
}

abbrev no_counts : Metrics
no_counts = record {
  packets = 0;
  queries = 0;
  query_errors = 0;
  write_errors = 0;
  read_timeouts = 0;
  bytes_sent = 0;
  bytes_received = 0;
  queue_drops = 0;
  drain_timeouts = 0;
}

abbrev write : Bytes → List Bytes → ℕ × (Option Error × List Bytes)
write bs c = (length bs, (none, c ++ (bs ∷ [])))

abbrev started : Worker (List Bytes)
started = record {
  queue = [];
  queue_size = 2;
  closed = false;
  registered = true;
  closing = false;
  forced = false;
  phase = serving;
  conn = [];
  conn_open = true;
  reader = reader_of [];
  log = some [];
  metrics = no_counts;
}

abbrev one_queued : Worker (List Bytes)
one_queued = (send request started).1

abbrev at_close : Worker (List Bytes)
at_close = begin_close one_queued

abbrev in_drain : Worker (List Bytes)
in_drain = record at_close { phase = draining }

abbrev handled : Worker (List Bytes)
handled = process_request write request (record in_drain { queue = [] })

abbrev finished : Worker (List Bytes)
finished = record handled { phase = returned }

serving_goes_on : serving ≢ returned
serving_goes_on = λ h. cc

draining_goes_on : draining ≢ returned
draining_goes_on = λ h. cc

-- A request is queued, the worker is closed, drains, handles it and returns.
life : Run write (request ∷ []) started finished
unfolding send begin_close process_request after_write count_request is_no_response_command
    get_mysql_command
life =
    step (request ∷ []) [] started handled finished
      (step (request ∷ []) [] started in_drain handled
        (step (request ∷ []) [] started at_close in_drain
          (step (request ∷ []) [] started one_queued at_close
            (step [] (request ∷ []) started started one_queued (start started)
              (sends request started refl))
            (closes one_queued))
          (drains at_close refl refl))
        (takes request [] in_drain draining_goes_on refl))
      (drained handled refl refl refl)

worker_drains_example :
    (finished.conn ≡ started.conn ++ packets (request ∷ []))
    × Logged true (request ∷ []) finished.log
    × (finished.closed ≡ true)
unfolding send begin_close process_request after_write count_request is_no_response_command
    get_mysql_command
worker_drains_example =
    worker_drains write (λ c. c) (λ bs c. refl) true (request ∷ []) started finished
      (refl, refl, refl, ([], refl, refl)) life refl refl

worker_in_order_example :
    Ordered write (λ c. c) (λ bs c. refl) true started.conn (request ∷ []) finished
worker_in_order_example =
    worker_in_order write (λ c. c) (λ bs c. refl) true (request ∷ []) started finished
      (refl, refl, refl, ([], refl, refl)) life

abbrev entry : QueryLogEntry
entry = execution_entry shadow request 5 0 none

abbrev empty_log : QueryLogger
empty_log = record {
  entries = [];
  buffer_size = 1;
  batch = [];
  batch_size = 10;
  flushed = [];
  dropped = 0;
  flushes_stored = 0;
  flushes_failed = 0;
  fallback_writes = 0;
  stopped = false;
}

abbrev events : List LogEvent
events = logged entry ∷ logged entry ∷ received true ∷ logged entry ∷ ticked false ∷ []

run_log-delivers_example :
    let q = run_log (events ++ cancelled true ∷ []) empty_log in
    (written_out q.flushed ≡ held empty_log ++ taken events empty_log)
    × (q.batch ≡ [])
    × (q.entries ≡ [])
    × (q.stopped ≡ true)
unfolding goes_on
run_log-delivers_example = run_log-delivers events true empty_log refl refl

-- A whole connection: the login, a shadow that greets and accepts, and two commands.
abbrev tcp_ends : TcpEnds (List Bytes) Bytes (List Bytes)
tcp_ends = record {
  write_client = λ bs d. ok tt (d ++ bs);
  write_primary = λ bs c. ok tt (c ++ (bs ∷ []));
  accept = none;
  peers = peers;
  shadow = record {
    write = λ bs c. ok tt (c ++ (bs ∷ []));
    tls = none;
    sha1 = λ bs. bs;
    username = codes "root";
    password = [];
  };
  logger = some [];
  copying_returns = true;
  close_returns = true;
}

abbrev tcp_link : Link (List Bytes) Bytes
tcp_link = record {
  client_in =
      segment (4 ∷ 0 ∷ 0 ∷ 1 ∷ 0x85 ∷ 0xae ∷ 0xff ∷ 0x01 ∷ [])
      ∷ segment stmt_close
      ∷ segment quit
      ∷ [];
  primary_in = segment (1 ∷ 0 ∷ 0 ∷ 0 ∷ 10 ∷ []) ∷ segment (1 ∷ 0 ∷ 0 ∷ 2 ∷ 0 ∷ []) ∷ [];
  client_out = [];
  primary_out = [];
}

abbrev shadow_greets : ShadowLink (List Bytes)
shadow_greets = record {
  conn_in =
      segment (15 ∷ 0 ∷ 0 ∷ 0 ∷ 10 ∷ 56 ∷ 0 ∷ 9 ∷ 0 ∷ 0 ∷ 0 ∷ 1 ∷ 2 ∷ 3 ∷ 4 ∷ 5 ∷ 6 ∷ 7 ∷ 8 ∷ [])
      ∷ segment (1 ∷ 0 ∷ 0 ∷ 2 ∷ 0 ∷ [])
      ∷ [];
  conn = [];
  tls_failures = 0;
  auth_failures = 0;
}

abbrev tcp_counters : TcpCounters
tcp_counters = record {
  active_connections = 1;
  total_connections = 4;
  primary_failures = 0;
  shadow_failures = 1;
  tls_failures = 0;
  connections_with_shadow = 2;
  connections_without_shadow = 1;
}
