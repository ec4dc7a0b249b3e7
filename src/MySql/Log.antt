-- ===== src/MySql/Log.antt =====
-- query_logger.go: the request that both clusters log, and the log's entries. The ids are
-- `uuid.New()` and the hash is `md5`, both parameters; times and durations are left out.
pub mod Batches
use starrocks_shadow_proxy.Filter.Decision.{Reason, no_reason, has}
use starrocks_shadow_proxy.MySql.Command.{get_mysql_command, get_mysql_command_name, com_query}
use starrocks_shadow_proxy.Prelude.{
  ℕ, ◌+◌, Bool, true, false, ◌&&◌, Bytes, List, [], ◌∷◌, ◌++◌, length, drop, ltb, leb, ◌==◌,
  if◌then◌else◌, Option, none, some,
}
use starrocks_shadow_proxy.Prelude.Outcome.{Error}
use starrocks_shadow_proxy.Prelude.Text.{codes}

pub record QueryRequest : Type 0 where
  pub id : Bytes
  pub packet : Bytes
  pub query_text : Bytes
  pub query_hash : Bytes
  pub command : Bytes
  pub client_addr : Bytes

pub data Target : Type 0 where
  primary shadow : Target

pub record QueryLogEntry : Type 0 where
  pub query_id : Bytes
  pub target : Target
  pub command : Bytes
  pub query_text : Bytes
  pub query_hash : Bytes
  pub bytes_sent : ℕ
  pub bytes_recv : ℕ
  pub error : Option Error
  pub client_addr : Bytes
  pub filtered : Bool
  pub filter_reason : Reason

-- `NewQueryRequest`
module _ (md5 : Bytes → Bytes) where
  unfoldable pub new_query_request : Bytes → Bytes → Bytes → QueryRequest
  new_query_request uuid packet client_addr =
      let cmd = get_mysql_command packet in
      let is_text = cmd.0 == com_query && ltb 5 (length packet) in
      record {
        id = uuid;
        packet = packet;
        query_text = if is_text then drop 5 packet else [];
        query_hash = if is_text then md5 (drop 5 packet) else [];
        command = if cmd.1 then get_mysql_command_name cmd.0 else codes "UNKNOWN";
        client_addr = client_addr;
      }

-- What the query logger is given, oldest first; `none` without a logger.
abbrev pub Logs : Type 0
Logs = Option (List QueryLogEntry)

unfoldable pub execution_entry : Target → QueryRequest → ℕ → ℕ → Option Error → QueryLogEntry
execution_entry target req sent recv error = record {
  query_id = req.id;
  target = target;
  command = req.command;
  query_text = req.query_text;
  query_hash = req.query_hash;
  bytes_sent = sent;
  bytes_recv = recv;
  error = error;
  client_addr = req.client_addr;
  filtered = false;
  filter_reason = no_reason;
}

unfoldable pub filtered_entry : QueryRequest → Reason → QueryLogEntry
filtered_entry req reason = record (execution_entry shadow req 0 0 none) {
  filtered = true;
  filter_reason = reason;
}

-- `if logger == nil { return }`
abbrev pub given : QueryLogEntry → Logs → Logs
given e none = none
given e (some es) = some (es ++ (e ∷ []))

-- `logQueryExecution` and `logPrimaryExecution`
unfoldable pub log_execution : Target → QueryRequest → ℕ → ℕ → Option Error → Logs → Logs
log_execution target req sent recv error log =
    given (execution_entry target req sent recv error) log

-- `logFilteredShadow`
unfoldable pub log_filtered_shadow : QueryRequest → Reason → Logs → Logs
log_filtered_shadow req reason log = given (filtered_entry req reason) log

-- `QueryLogger`, as far as its entries go: the channel of `bufferSize` entries, the batch that
-- `flushLoop` holds, the batches that it wrote, each with whether the object store took it or the
-- fallback printed it, and the counters of entries dropped, flushes by their status, and fallback
-- writes.
pub record QueryLogger : Type 0 where
  pub entries : List QueryLogEntry
  pub buffer_size : ℕ
  pub batch : List QueryLogEntry
  pub batch_size : ℕ
  pub flushed : List (Bool × List QueryLogEntry)
  pub dropped : ℕ
  pub flushes_stored : ℕ
  pub flushes_failed : ℕ
  pub fallback_writes : ℕ
  pub stopped : Bool

-- `Log` never blocks: with a full channel the entry is dropped.
unfoldable pub log_entry : QueryLogEntry → QueryLogger → QueryLogger
log_entry e l =
    if ltb (length l.entries) l.buffer_size
    then record l { entries = l.entries ++ (e ∷ []) }
    else record l { dropped = l.dropped + 1 }

-- `flush`, at which the object store takes what it is written, `up`, or the write or the close of
-- the object fails, and fallbackLog prints the batch. An entry is made of strings and numbers,
-- whose encoding does not fail.
unfoldable pub flush : Bool → QueryLogger → QueryLogger
flush up l =
    if has l.batch
    then record l {
      flushed = l.flushed ++ ((up, l.batch) ∷ []);
      batch = [];
      flushes_stored = if up then l.flushes_stored + 1 else l.flushes_stored;
      flushes_failed = if up then l.flushes_failed else l.flushes_failed + 1;
      fallback_writes = if up then l.fallback_writes else l.fallback_writes + length l.batch;
    }
    else l

-- A round of `flushLoop`, by the case that its select takes; after a shutdown it has returned.
unfoldable pub receive_entry : Bool → QueryLogger → QueryLogger
receive_entry up l = elim l.entries [
  | [] ↦ l
  | e ∷ es ↦
      let l' = record l { entries = es; batch = l.batch ++ (e ∷ []) } in
      if l.stopped then l else if leb l.batch_size (length l'.batch) then flush up l' else l'
]

unfoldable pub tick : Bool → QueryLogger → QueryLogger
tick up l = if l.stopped then l else flush up l

unfoldable pub shut_down : Bool → QueryLogger → QueryLogger
shut_down up l =
    if l.stopped
    then l
    else record (flush up (record l { batch = l.batch ++ l.entries; entries = [] })) {
      stopped = true;
    }

-- What happens to the log; with a flush, if there is one, that the store takes, or not.
pub data LogEvent : Type 0 where
  logged : QueryLogEntry → LogEvent
  received ticked cancelled : Bool → LogEvent

unfoldable pub log_step : LogEvent → QueryLogger → QueryLogger
log_step (logged e) l = log_entry e l
log_step (received up) l = receive_entry up l
log_step (ticked up) l = tick up l
log_step (cancelled up) l = shut_down up l

unfoldable pub run_log : List LogEvent → QueryLogger → QueryLogger
run_log [] l = l
run_log (e ∷ es) l = run_log es (log_step e l)
