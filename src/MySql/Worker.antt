-- ===== src/MySql/Worker.antt =====
-- shadow_worker.go: the queue of a ShadowWorker and its goroutine. Channels are lists and flags;
-- `write bs c` is `conn.Write(bs)`: the bytes written, an error if there was one, the connection
-- after it. Responses are read by mysql_protocol.go's reader over the connection's incoming side.
pub mod Queue
pub mod Promises
use starrocks_shadow_proxy.MySql.Command.{
  get_mysql_command, is_countable_command, is_no_response_command, is_simple_response_command,
}
use starrocks_shadow_proxy.MySql.Log.{QueryRequest, Logs, shadow, log_execution}
use starrocks_shadow_proxy.MySql.Reader.{Reader, read_packet}
use starrocks_shadow_proxy.MySql.Reader.Window.{stream}
use starrocks_shadow_proxy.MySql.Response.{Tally, read_simple_response, read_full_response}
use starrocks_shadow_proxy.Prelude.{
  ℕ, suc, ◌+◌, ◌≡◌, ◌≢◌, Bool, true, false, ◌&&◌, Bytes, List, [], ◌∷◌, ◌++◌, length, ltb,
  if◌then◌else◌, Option, none, some,
}
use starrocks_shadow_proxy.Prelude.Outcome.{net, timeout, Error, Outcome, ok, err, M}

-- The counters of metrics.go that the worker moves.
pub record Metrics : Type 0 where
  pub packets : ℕ
  pub queries : ℕ
  pub query_errors : ℕ
  pub write_errors : ℕ
  pub read_timeouts : ℕ
  pub bytes_sent : ℕ
  pub bytes_received : ℕ
  pub queue_drops : ℕ
  pub drain_timeouts : ℕ

-- The goroutine: in its loop, in drainPendingRequests, or returned (`doneCh` is closed).
pub data Phase : Type 0 where
  serving draining returned : Phase

module _ (W : Type 0) where
  -- `closing` is a closed `drainCh`, `forced` a closed `closeCh`, `log` what the query logger is
  -- given, oldest first.
  pub record Worker : Type 0 where
    pub queue : List QueryRequest
    pub queue_size : ℕ
    pub closed : Bool
    pub registered : Bool
    pub closing : Bool
    pub forced : Bool
    pub phase : Phase
    pub conn : W
    pub conn_open : Bool
    pub reader : Reader
    pub log : Logs
    pub metrics : Metrics

unfoldable pub is_timeout : Error → Bool
is_timeout (net timeout) = true
is_timeout _ = false

-- What is read of the response, and the error.
unfoldable pub read_response : ℕ → Reader → ℕ × (Option Error × Reader)
read_response cmd r =
    let whole = read_full_response read_packet (suc (length (stream r))) r in
    if is_simple_response_command cmd
    then elim (read_simple_response read_packet r) [
      | ok n r' ↦ (n, (none, r'))
      | err e r' ↦ (0, (some e, r'))
    ]
    else elim whole [
      | ok _ t ↦ (t.total, (none, t.source))
      | err e t ↦ (t.total, (some e, t.source))
    ]

module _ {W : Type 0} where
  unfoldable pub send : QueryRequest → Worker W → Bool × Worker W
  send req w =
      if w.closed
      then (false, w)
      else if ltb (length w.queue) w.queue_size
      then (true, record w { queue = w.queue ++ (req ∷ []) })
      else (
        false,
        record w { metrics = record (w.metrics) { queue_drops = w.metrics.queue_drops + 1 } },
      )

  -- `Close` up to the wait for the goroutine.
  unfoldable pub begin_close : Worker W → Worker W
  begin_close w =
      if w.closed then w else record w { closed = true; registered = false; closing = true }

  -- The drain timeout passed before `doneCh` was closed.
  unfoldable pub force_close : Worker W → Worker W
  force_close w = record w {
    forced = true;
    metrics = record (w.metrics) { drain_timeouts = w.metrics.drain_timeouts + 1 };
  }

  -- The end of `Close`, behind `wg.Wait()`.
  unfoldable pub close_conn : Worker W → Worker W
  close_conn w = record w { conn_open = false }

  abbrev pub logged_by : QueryRequest → ℕ → ℕ → Option Error → Worker W → Worker W
  logged_by req sent recv e w = record w { log = log_execution shadow req sent recv e w.log }

  unfoldable pub finish_request :
      QueryRequest → ℕ → ℕ × (Option Error × Reader) → Worker W → Worker W
  finish_request req sent (recv, (none, r)) w = logged_by req sent recv none (record w {
    reader = r;
    metrics = record (w.metrics) { bytes_received = w.metrics.bytes_received + recv };
  })
  finish_request req sent (recv, (some e, r)) w = logged_by req sent recv (some e) (record w {
    reader = r;
    metrics = record (w.metrics) {
      read_timeouts = if is_timeout e then w.metrics.read_timeouts + 1 else w.metrics.read_timeouts;
    };
  })

  -- Behind the write.
  unfoldable pub after_write : QueryRequest → ℕ × (Option Error × W) → Worker W → Worker W
  after_write req (sent, (some e, c)) w = logged_by req sent 0 (some e) (record w {
    conn = c;
    metrics = record (w.metrics) {
      write_errors = w.metrics.write_errors + 1;
      query_errors =
          if is_countable_command (get_mysql_command (req.packet)).0
            && (get_mysql_command (req.packet)).1
          then w.metrics.query_errors + 1
          else w.metrics.query_errors;
    };
  })
  after_write req (sent, (none, c)) w =
      let cmd = (get_mysql_command (req.packet)).0 in
      let w' = record w {
        conn = c;
        metrics = record (w.metrics) { bytes_sent = w.metrics.bytes_sent + sent };
      } in
      if is_no_response_command cmd
      then logged_by req sent 0 none w'
      else finish_request req sent (read_response cmd w.reader) w'

  unfoldable pub count_request : QueryRequest → Worker W → Worker W
  count_request req w =
      let cmd = get_mysql_command req.packet in
      record w {
        metrics = record (w.metrics) {
          packets = w.metrics.packets + 1;
          queries =
              if cmd.1 && is_countable_command cmd.0
              then w.metrics.queries + 1
              else w.metrics.queries;
        };
      }

  module _ (write : Bytes → W → ℕ × (Option Error × W)) where
    unfoldable pub process_request : QueryRequest → Worker W → Worker W
    process_request req w =
        if w.forced then w else after_write req (write req.packet w.conn) (count_request req w)

    -- One step of the program on the worker: a call of Send or Close by the connection's goroutine,
    -- or a case of the worker's select. `accepted` lists what Send queued.
    pub data Step : List QueryRequest → Worker W → Worker W → Type 0 where
      sends :
          (req : QueryRequest) (w : Worker W)
          → (send req w).0 ≡ true
          → Step (req ∷ []) w (send req w).1
      refused :
          (req : QueryRequest) (w : Worker W) → (send req w).0 ≡ false → Step [] w (send req w).1
      closes : (w : Worker W) → Step [] w (begin_close w)
      times_out : (w : Worker W) → w.closing ≡ true → w.forced ≡ false → Step [] w (force_close w)
      conn_closes :
          (w : Worker W) → w.closing ≡ true → w.phase ≡ returned → Step [] w (close_conn w)
      takes :
          (req : QueryRequest) (rest : List QueryRequest) (w : Worker W)
          → w.phase ≢ returned
          → w.queue ≡ req ∷ rest
          → Step [] w (process_request req (record w { queue = rest }))
      stops :
          (w : Worker W)
          → w.forced ≡ true
          → w.phase ≢ returned
          → Step [] w (record w { phase = returned })
      drains :
          (w : Worker W)
          → w.closing ≡ true
          → w.phase ≡ serving
          → Step [] w (record w { phase = draining })
      drained :
          (w : Worker W)
          → w.phase ≡ draining
          → w.forced ≡ false
          → w.queue ≡ []
          → Step [] w (record w { phase = returned })

    pub data Run : List QueryRequest → Worker W → Worker W → Type 0 where
      start : (w : Worker W) → Run [] w w
      step :
          (accepted more : List QueryRequest) (u v w : Worker W)
          → Run accepted u v
          → Step more v w
          → Run (accepted ++ more) u w
