-- ===== src/Pg/Worker.antt =====
-- pg_shadow_worker.go: what PgShadowWorker does with a frame. A connection that failed is never
-- used again: `dead` is latched. `write` is Write on the shadow's connection.
pub mod Goroutine
pub mod Latch
pub mod Order
pub mod Reading
pub mod Sent
use starrocks_shadow_proxy.MySql.Log.{QueryRequest, Logs, shadow, log_execution}
use starrocks_shadow_proxy.Net.{Conn}
use starrocks_shadow_proxy.Net.Arrival.{arriving}
use starrocks_shadow_proxy.Pg.Protocol.{PgPacket, bytes, read_message}
use starrocks_shadow_proxy.Prelude.{
  ℕ, zero, suc, ◌+◌, Bool, true, false, not, Bytes, List, [], ◌∷◌, ◌++◌, length, ltb, ◌==◌,
  if◌then◌else◌, Option, none, some,
}
use starrocks_shadow_proxy.Prelude.Outcome.{Error, out_of_fuel, Outcome, ok, err}

-- `pgShadowFrame`
pub record PgShadowFrame : Type 0 where
  pub req : QueryRequest
  pub payload : Bytes
  pub expects_response : Bool

-- `dropped` counts the frames dropped since the connection is dead, `queue_drops` those that found
-- the queue full.
pub record PgShadowWorker (W : Type 0) : Type 0 where
  pub queue : List PgShadowFrame
  pub queue_size : ℕ
  pub closed : Bool
  pub forced : Bool
  pub dead : Bool
  pub conn : W
  pub conn_open : Bool
  pub conn_in : Conn
  pub log : Logs
  pub dropped : ℕ
  pub queue_drops : ℕ

-- The loop that reads up to ReadyForQuery: the bytes read, the error, the connection after it.
unfoldable pub read_until_ready : ℕ → ℕ → Conn → ℕ × (Option Error × Conn)
read_until_ready zero total c = (total, (some out_of_fuel, c))
read_until_ready (suc fuel) total c = elim (read_message c) [
  | err e c' ↦ (total, (some e, c'))
  | ok msg c' ↦
      let count = total + length (bytes msg) in
      let rest = read_until_ready fuel count c' in
      if msg.type_byte == b'Z' then (count, (none, c')) else rest
]

module _ {W : Type 0} where
  -- `Send`
  unfoldable pub send_frame : PgShadowFrame → PgShadowWorker W → Bool × PgShadowWorker W
  send_frame frame w =
      if w.dead
      then (false, record w { dropped = w.dropped + 1 })
      else if w.closed
      then (false, w)
      else if ltb (length w.queue) w.queue_size
      then (true, record w { queue = w.queue ++ (frame ∷ []) })
      else (false, record w { queue_drops = w.queue_drops + 1 })

  -- `markDead`
  unfoldable pub mark_dead : PgShadowWorker W → PgShadowWorker W
  mark_dead w = if w.dead then w else record w { dead = true; conn_open = false }

  abbrev pub logged_frame :
      PgShadowFrame → ℕ → ℕ → Option Error → PgShadowWorker W → PgShadowWorker W
  logged_frame frame sent recv e w = record w {
    log = log_execution shadow frame.req sent recv e w.log;
  }

  unfoldable pub after_response :
      PgShadowFrame → ℕ → ℕ × (Option Error × Conn) → PgShadowWorker W → PgShadowWorker W
  after_response frame sent (recv, (some e, c)) w =
      logged_frame frame sent recv (some e) (mark_dead (record w { conn_in = c }))
  after_response frame sent (recv, (none, c)) w =
      logged_frame frame sent recv none (record w { conn_in = c })

  unfoldable pub after_frame :
      PgShadowFrame → ℕ × (Option Error × W) → PgShadowWorker W → PgShadowWorker W
  after_frame frame (sent, (some e, c)) w =
      logged_frame frame sent 0 (some e) (mark_dead (record w { conn = c }))
  after_frame frame (sent, (none, c)) w =
      let w' = record w { conn = c } in
      if not frame.expects_response
      then logged_frame frame sent 0 none w'
      else after_response frame sent
          (read_until_ready (suc (length (arriving w.conn_in))) 0 w.conn_in) w'

  module _ (write : Bytes → W → ℕ × (Option Error × W)) where
    unfoldable pub process_frame : PgShadowFrame → PgShadowWorker W → PgShadowWorker W
    process_frame frame w =
        if w.forced
        then w
        else if w.dead
        then record w { dropped = w.dropped + 1 }
        else after_frame frame (write frame.payload w.conn) w

    -- The frames that the worker takes from its queue, one after the other.
    unfoldable pub process_frames : List PgShadowFrame → PgShadowWorker W → PgShadowWorker W
    process_frames [] w = w
    process_frames (f ∷ fs) w = process_frames fs (process_frame f w)
