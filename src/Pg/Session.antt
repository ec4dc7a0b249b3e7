-- ===== src/Pg/Session.antt =====
-- pg_proxy.go: runQueryLoop, the loop that serves a client from the primary and mirrors its frames
-- to the shadow. Parameters: `write` and `reply` are Write on the primary's and on the client's
-- connection, `mirror` is shouldShadowMirror with the proxy's filter, `has_shadow` says whether
-- there is a shadow worker, `uuid` is the id of the n-th request, `md5` the hash.
pub mod Forwarded
pub mod Loop
pub mod Mirrored
pub mod Rounds
use starrocks_shadow_proxy.Filter.Decision.{Verdict}
use starrocks_shadow_proxy.MySql.Log.{
  QueryRequest, Logs, primary, log_execution, log_filtered_shadow,
}
use starrocks_shadow_proxy.Net.{Conn}
use starrocks_shadow_proxy.Net.Arrival.{arriving}
use starrocks_shadow_proxy.Pg.Command.{pg_frontend_command_name}
use starrocks_shadow_proxy.Pg.Protocol.{
  PgPacket, bytes, read_message, extract_pg_query_text, extract_pg_close_target,
}
use starrocks_shadow_proxy.Pg.Sticky.{Tracker, delete, names_statement, should_mirror_pg_frame}
use starrocks_shadow_proxy.Pg.Worker.{PgShadowFrame}
use starrocks_shadow_proxy.Prelude.{
  ℕ, zero, suc, ◌+◌, Bool, true, false, not, ◌&&◌, ◌||◌, Bytes, List, [], ◌∷◌, ◌++◌, length, ◌==◌,
  if◌then◌else◌, Option, none, some,
}
use starrocks_shadow_proxy.Prelude.Outcome.{Error, out_of_fuel, Outcome, ok, err}
use starrocks_shadow_proxy.Prelude.Text.{is_empty}

module _ (P D : Type 0) where
  -- `frames` is what the worker's Send is called with, in order, `log` what the query logger is
  -- given, `served` the number of requests so far.
  pub record Session : Type 0 where
    pub client_in : Conn
    pub primary_in : Conn
    pub primary_conn : P
    pub client : D
    pub filtered_stmt_names : Tracker
    pub frames : List PgShadowFrame
    pub log : Logs
    pub served : ℕ

  pub record Peers : Type 0 where
    pub write : Bytes → P → ℕ × (Option Error × P)
    pub reply : Bytes → D → ℕ × (Option Error × D)
    pub mirror : Bytes → Verdict
    pub has_shadow : Bool
    pub uuid : ℕ → Bytes
    pub md5 : Bytes → Bytes
    pub client_addr : Bytes

  -- What forwardResponseUntilReady returns, and the session after it.
  pub record Response : Type 0 where
    pub total : ℕ
    pub copy_mode : Bool
    pub error : Option Error
    pub session : Session

-- ReadyForQuery, and CopyInResponse, CopyOutResponse, CopyBothResponse.
abbrev pub is_ready : PgPacket → Bool
is_ready msg = msg.type_byte == b'Z'

abbrev pub is_copy : PgPacket → Bool
is_copy msg = msg.type_byte == b'G' || (msg.type_byte == b'H' || msg.type_byte == b'W')

-- Query and Sync: the messages that the server answers with a ReadyForQuery.
abbrev pub is_answered : PgPacket → Bool
is_answered msg = msg.type_byte == b'Q' || msg.type_byte == b'S'

-- How a round of the loop ends; `copies` goes over to copyFallback.
pub data Next : Type 0 where
  goes_on : Next
  returns : Option Error → Next
  copies : Next

module _ {P D : Type 0} (peers : Peers P D) where
  unfoldable pub after_reply :
      PgPacket
      → (ℕ → Session P D → Response P D)
      → ℕ
      → Session P D
      → ℕ × (Option Error × D)
      → Response P D
  after_reply msg more total s (n, (some e, d)) = record {
    total = total + n;
    copy_mode = false;
    error = some e;
    session = record s { client = d };
  }
  after_reply msg more total s (n, (none, d)) =
      let s' = record s { client = d } in
      let rest = more (total + n) s' in
      if is_ready msg
      then record { total = total + n; copy_mode = false; error = none; session = s' }
      else if is_copy msg
      then record { total = total + n; copy_mode = true; error = none; session = s' }
      else rest

  -- `forwardResponseUntilReady`, with `total` bytes forwarded so far
  unfoldable pub forward_response_until_ready : ℕ → ℕ → Session P D → Response P D
  forward_response_until_ready zero total s = record {
    total = total;
    copy_mode = false;
    error = some out_of_fuel;
    session = s;
  }
  forward_response_until_ready (suc fuel) total s = elim (read_message s.primary_in) [
    | err e c ↦ record {
      total = total;
      copy_mode = false;
      error = some e;
      session = record s { primary_in = c };
    }
    | ok msg c ↦
        after_reply msg (λ t s'. forward_response_until_ready fuel t s') total
          (record s { primary_in = c }) (peers.reply (bytes msg) s.client)
  ]

  abbrev pub logged_entry : QueryRequest → ℕ → ℕ → Option Error → Session P D → Session P D
  logged_entry req sent recv e s = record s { log = log_execution primary req sent recv e s.log }

  -- The request of a frame.
  unfoldable pub frame_request : Bytes → PgPacket → QueryRequest
  frame_request uuid msg =
      let text = extract_pg_query_text msg in
      record {
        id = uuid;
        packet = [];
        query_text = text;
        query_hash = if is_empty text then [] else peers.md5 text;
        command = pg_frontend_command_name msg.type_byte;
        client_addr = peers.client_addr;
      }

  abbrev pub frame_of : QueryRequest → PgPacket → PgShadowFrame
  frame_of req msg = record { req = req; payload = bytes msg; expects_response = is_answered msg }

  -- What is done for the shadow behind the write to the primary.
  unfoldable pub mirror_pg_frame : QueryRequest → PgPacket → Session P D → Session P D
  mirror_pg_frame req msg s =
      let (verdict, names) = should_mirror_pg_frame peers.mirror msg s.filtered_stmt_names in
      let close = extract_pg_close_target msg in
      if not (peers.has_shadow && not (msg.type_byte == b'X'))
      then s
      else if not verdict.0
      then record s { filtered_stmt_names = names; log = log_filtered_shadow req verdict.1 s.log }
      else record s {
        frames = s.frames ++ (frame_of req msg ∷ []);
        filtered_stmt_names =
            if msg.type_byte == b'C' && names_statement close
            then record names { names = delete close.1 names.names }
            else names;
      }

  unfoldable pub after_response : QueryRequest → ℕ → Response P D → Next × Session P D
  after_response req sent r = elim r.error [
    | some e ↦ (returns (some e), logged_entry req sent r.total (some e) r.session)
    | none ↦ (if r.copy_mode then copies else goes_on, logged_entry req sent r.total none r.session)
  ]

  unfoldable pub after_write :
      PgPacket → QueryRequest → ℕ × (Option Error × P) → Session P D → Next × Session P D
  after_write msg req (sent, (some e, c)) s =
      (returns (some e), logged_entry req sent 0 (some e) (record s { primary_conn = c }))
  after_write msg req (sent, (none, c)) s =
      let s' = mirror_pg_frame req msg (record s { primary_conn = c }) in
      if msg.type_byte == b'X'
      then (returns none, logged_entry req sent 0 none s')
      else if not (is_answered msg)
      then (goes_on, logged_entry req sent 0 none s')
      else after_response req sent
          (forward_response_until_ready (suc (length (arriving s'.primary_in))) 0 s')

  -- A round with the message that the client sent.
  unfoldable pub serve : PgPacket → Session P D → Next × Session P D
  serve msg s =
      after_write msg (frame_request (peers.uuid s.served) msg)
        (peers.write (bytes msg) s.primary_conn) (record s { served = suc s.served })

  unfoldable pub after_read : Session P D → Outcome Conn PgPacket → Next × Session P D
  after_read s (err e c) = (returns (some e), record s { client_in = c })
  after_read s (ok msg c) = serve msg (record s { client_in = c })

  unfoldable pub round : Session P D → Next × Session P D
  round s = after_read s (read_message s.client_in)

  unfoldable pub continue_loop : Next → Session P D → Next × Session P D → Next × Session P D
  continue_loop goes_on s rest = rest
  continue_loop (returns e) s rest = (returns e, s)
  continue_loop copies s rest = (copies, s)

  -- `runQueryLoop` up to its return or to copyFallback; `goes_on` marks the end of the fuel.
  unfoldable pub run_query_loop : ℕ → Session P D → Next × Session P D
  run_query_loop zero s = (goes_on, s)
  run_query_loop (suc fuel) s =
      let (next, s') = round s in continue_loop next s' (run_query_loop fuel s')
