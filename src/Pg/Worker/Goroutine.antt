-- ===== src/Pg/Worker/Goroutine.antt =====
-- pg_shadow_worker.go: Close and the worker's goroutine. Send and Close are called by the goroutine
-- of the connection, one after the other, so each is one step, and the worker's goroutine takes its
-- steps between them in any order.
use starrocks_shadow_proxy.Pg.Worker.{PgShadowFrame, PgShadowWorker, send_frame, process_frame}
use starrocks_shadow_proxy.Prelude.{
  ℕ, ◌≡◌, ◌≢◌, Bool, true, false, Bytes, List, [], ◌∷◌, ◌++◌, if◌then◌else◌, Option,
}
use starrocks_shadow_proxy.Prelude.Outcome.{Error}

pub data PgPhase : Type 0 where
  serving draining returned : PgPhase

-- A worker with its channels: `closing` is a closed drainCh, the worker's `forced` a closed closeCh,
-- `returned` a closed doneCh; `registered` says whether it is in the registry.
pub record PgRunning (W : Type 0) : Type 0 where
  pub worker : PgShadowWorker W
  pub registered : Bool
  pub closing : Bool
  pub phase : PgPhase

module _ {W : Type 0} where
  abbrev pub with_worker : PgRunning W → PgShadowWorker W → PgRunning W
  with_worker g w = record g { worker = w }

  -- `Close` up to the wait for the goroutine.
  unfoldable pub begin_pg_close : PgRunning W → PgRunning W
  begin_pg_close g = if g.worker.closed then g else record g {
    worker = record (g.worker) { closed = true };
    registered = false;
    closing = true;
  }

  -- The drain timeout passed before `doneCh` was closed.
  unfoldable pub force_pg_close : PgRunning W → PgRunning W
  force_pg_close g = with_worker g (record (g.worker) { forced = true })

  -- The end of `Close`, behind `wg.Wait()`.
  unfoldable pub close_pg_conn : PgRunning W → PgRunning W
  close_pg_conn g = with_worker g (record (g.worker) { conn_open = false })

  module _ (write : Bytes → W → ℕ × (Option Error × W)) where
    -- One step of the program on the worker; `accepted` lists what Send queued.
    pub data PgStep : List PgShadowFrame → PgRunning W → PgRunning W → Type 0 where
      sends :
          (f : PgShadowFrame) (g : PgRunning W)
          → (send_frame f g.worker).0 ≡ true
          → PgStep (f ∷ []) g (with_worker g (send_frame f g.worker).1)
      refused :
          (f : PgShadowFrame) (g : PgRunning W)
          → (send_frame f g.worker).0 ≡ false
          → PgStep [] g (with_worker g (send_frame f g.worker).1)
      closes : (g : PgRunning W) → PgStep [] g (begin_pg_close g)
      times_out :
          (g : PgRunning W)
          → g.closing ≡ true
          → g.worker.forced ≡ false
          → PgStep [] g (force_pg_close g)
      conn_closes :
          (g : PgRunning W) → g.closing ≡ true → g.phase ≡ returned → PgStep [] g (close_pg_conn g)
      takes :
          (f : PgShadowFrame) (rest : List PgShadowFrame) (g : PgRunning W)
          → g.phase ≢ returned
          → g.worker.queue ≡ f ∷ rest
          → PgStep [] g (with_worker g (process_frame write f (record (g.worker) { queue = rest })))
      stops :
          (g : PgRunning W)
          → g.worker.forced ≡ true
          → g.phase ≢ returned
          → PgStep [] g (record g { phase = returned })
      drains :
          (g : PgRunning W)
          → g.closing ≡ true
          → g.phase ≡ serving
          → PgStep [] g (record g { phase = draining })
      drained :
          (g : PgRunning W)
          → g.phase ≡ draining
          → g.worker.forced ≡ false
          → g.worker.queue ≡ []
          → PgStep [] g (record g { phase = returned })

    pub data PgRun : List PgShadowFrame → PgRunning W → PgRunning W → Type 0 where
      start : (g : PgRunning W) → PgRun [] g g
      step :
          (accepted more : List PgShadowFrame) (u v w : PgRunning W)
          → PgRun accepted u v
          → PgStep more v w
          → PgRun (accepted ++ more) u w
