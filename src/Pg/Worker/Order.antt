-- ===== src/Pg/Worker/Order.antt =====
-- What the PostgreSQL shadow is sent over the life of its worker.
use starrocks_shadow_proxy.Pg.Worker.{PgShadowFrame}
use starrocks_shadow_proxy.Pg.Worker.Goroutine.{PgRunning, serving, draining, returned}
use starrocks_shadow_proxy.Pg.Worker.Latch.{Written}
use starrocks_shadow_proxy.Prelude.{ℕ, ◌≡◌, true, false, Bytes, List, [], Option}
use starrocks_shadow_proxy.Prelude.Outcome.{Error}
use starrocks_shadow_proxy.Pg.Worker.Sent.{Ordered}

module _ {W : Type 0} where
  -- A worker that Initialize has just started.
  abbrev pub IsFresh : PgRunning W → Type 0
  IsFresh g = (g.worker.queue ≡ []) × (g.closing ≡ false) × (g.phase ≡ serving)

  -- The state of the close: a goroutine that has returned by itself has emptied the queue.
  abbrev Phased : PgRunning W → Type 0
  Phased g =
      (g.closing ≡ true → g.worker.closed ≡ true)
      × (g.phase ≡ draining → g.closing ≡ true)
      × (g.phase ≡ returned → g.worker.forced ≡ false → (g.closing ≡ true) × (g.worker.queue ≡ []))

  module _ (write : Bytes → W → ℕ × (Option Error × W)) (sent : W → List Bytes)
      (delivers : (bs : Bytes) (c : W) → Written write sent bs c (write bs c)) where
    abbrev pub Inv : List Bytes → List PgShadowFrame → PgRunning W → Type 0
    Inv old accepted g = Ordered write sent old accepted g.worker × Phased g
