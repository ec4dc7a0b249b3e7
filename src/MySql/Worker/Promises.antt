-- ===== src/MySql/Worker/Promises.antt =====
-- What Send and Close promise to the connection that uses the worker.
use starrocks_shadow_proxy.MySql.Log.{QueryRequest}
use starrocks_shadow_proxy.MySql.Worker.{
  Worker, serving, draining, returned, send, begin_close, force_close, close_conn, Step, sends,
  refused, closes, times_out, conn_closes, takes, stops, drains, drained, Run, start, step,
}
use starrocks_shadow_proxy.MySql.Worker.Queue.{
  packets, Logged, Ordered, takes-Ordered, same-Ordered, send_queues, send_refuses, sends-Ordered,
}
use starrocks_shadow_proxy.Prelude.{
  ℕ, ◌≡◌, refl, sym, ap, ◌∙◌, Bool, true, false, Bytes, List, [], ◌∷◌, ◌++◌, append-nil, length,
  if◌then◌else◌, Option, arith,
}
use starrocks_shadow_proxy.Prelude.Outcome.{Error}

module _ {W : Type 0} where
  -- A worker that Initialize has just started, whose entries count from here.
  abbrev pub IsFresh : Bool → Worker W → Type 0
  IsFresh on u = (u.queue ≡ []) × (u.closing ≡ false) × (u.phase ≡ serving) × Logged on [] u.log

  -- The state of the close: a goroutine that has returned by itself has emptied the queue.
  abbrev Phased : Worker W → Type 0
  Phased w =
      (w.closing ≡ true → w.closed ≡ true)
      × (w.phase ≡ draining → w.closing ≡ true)
      × (w.phase ≡ returned → w.forced ≡ false → (w.closing ≡ true) × (w.queue ≡ []))

  module _ (write : Bytes → W → ℕ × (Option Error × W)) (calls : W → List Bytes)
      (called : (bs : Bytes) (c : W) → calls (write bs c).1.1 ≡ calls c ++ (bs ∷ [])) where
    abbrev Inv : Bool → List Bytes → List QueryRequest → Worker W → Type 0
    Inv on old accepted w = Ordered write calls called on old accepted w × Phased w

    sends-Phased :
        (req : QueryRequest) (w : Worker W)
        → (send req w).0 ≡ true
        → Phased w
        → Phased (send req w).1
    sends-Phased req w h (k, m, n) =
        let (shut, _, e) = send_queues write calls called req w h in
        (
          (λ x. ap (λ z. z.closed) e ∙ k (sym (ap (λ z. z.closing) e) ∙ x)),
          (λ x. ap (λ z. z.closing) e ∙ m (sym (ap (λ z. z.phase) e) ∙ x)),
          λ x off.
              let (y, _) = n (sym (ap (λ z. z.phase) e) ∙ x) (sym (ap (λ z. z.forced) e) ∙ off) in
              absurd (true_false (sym (k y) ∙ shut)),
        )
      where
        true_false : true ≡ false → ⊥
        true_false x = cc

    closes-Inv :
        (on : Bool) (old : List Bytes) (accepted : List QueryRequest) (w : Worker W) (b : Bool)
        → Inv on old accepted w
        → Inv on old
            (accepted ++ [])
            (if b then w else record w { closed = true; registered = false; closing = true })
    closes-Inv on old accepted w true (o, p) =
        (same-Ordered write calls called on old accepted w w refl refl refl refl (λ x. x) o, p)
    closes-Inv on old accepted w false (o, (k, m, n)) = (
      same-Ordered write calls called on old accepted w _ refl refl refl refl (λ x. x) o,
      ((λ _. refl), (λ _. refl), λ x off. let (_, y) = n x off in (refl, y)),
    )

    Step-Inv :
        (on : Bool) (old : List Bytes) (accepted more : List QueryRequest) (w q : Worker W)
        → Step write more w q
        → Inv on old accepted w
        → Inv on old (accepted ++ more) q
    unfolding begin_close force_close close_conn
    Step-Inv on old accepted more w q (sends req _ h) (o, p) =
        (sends-Ordered write calls called on old accepted req w h o, sends-Phased req w h p)
    Step-Inv on old accepted more w q (refused req _ h) (o, (k, m, n)) =
        let ((a, b, c, d, f, g), e, l) = send_refuses write calls called req w h in
        (
          same-Ordered write calls called on old accepted w (send req w).1 a b e l (λ x. sym f ∙ x)
              o,
          (
            (λ x. c ∙ k (sym d ∙ x)),
            (λ x. d ∙ m (sym g ∙ x)),
            λ x off. let (y, z) = n (sym g ∙ x) (sym f ∙ off) in (d ∙ y, a ∙ z),
          ),
        )
    Step-Inv on old accepted more w q (closes _) i = closes-Inv on old accepted w w.closed i
    Step-Inv on old accepted more w q (times_out _ h1 h2) (o, (k, m, n)) = (
      same-Ordered write calls called on old accepted w _ refl refl refl refl (λ x. cc) o,
      (k, m, λ x off. cc),
    )
    Step-Inv on old accepted more w q (conn_closes _ h1 h2) (o, p) =
        (same-Ordered write calls called on old accepted w _ refl refl refl refl (λ x. x) o, p)
    Step-Inv on old accepted more w q (takes req rest _ h1 h2) (o, (k, m, n)) =
        let (o', c, d, g) = takes-Ordered write calls called on old accepted req rest w h2 o in
        (
          rw (append-nil accepted) o',
          ((λ x. c ∙ k (sym d ∙ x)), (λ x. d ∙ m (sym g ∙ x)), λ x _. absurd (h1 (sym g ∙ x))),
        )
    Step-Inv on old accepted more w q (stops _ h1 h2) (o, (k, m, n)) = (
      same-Ordered write calls called on old accepted w _ refl refl refl refl (λ x. x) o,
      (k, (λ x. cc), λ x off. cc),
    )
    Step-Inv on old accepted more w q (drains _ h1 h2) (o, (k, m, n)) = (
      same-Ordered write calls called on old accepted w _ refl refl refl refl (λ x. x) o,
      (k, (λ _. h1), λ x. cc),
    )
    Step-Inv on old accepted more w q (drained _ h1 h3 h2) (o, (k, m, n)) = (
      same-Ordered write calls called on old accepted w _ refl refl refl refl (λ x. x) o,
      (k, (λ x. cc), λ x off. (m h1, h2)),
    )

    IsFresh-Inv : (on : Bool) (u : Worker W) → IsFresh on u → Inv on (calls u.conn) [] u
    IsFresh-Inv on u (a, b, c, l) = (
      record {
        done = [];
        lost = [];
        split = sym a;
        written = sym (append-nil (calls u.conn));
        noted = l;
        no_gap = λ _. refl;
        fits = omega (arith, ap length a);
      },
      ((λ h. cc), (λ h. absurd (other (sym c ∙ h))), λ h _. absurd (third (sym c ∙ h))),
    )
      where
        other : serving ≡ draining → ⊥
        other h = cc

        third : serving ≡ returned → ⊥
        third h = cc

    Run-Inv :
        (on : Bool) (accepted : List QueryRequest) (u w : Worker W)
        → IsFresh on u
        → Run write accepted u w
        → Inv on (calls u.conn) accepted w
    Run-Inv on accepted u w h (start _) = IsFresh-Inv on u h
    Run-Inv on accepted u w h (step before more _ v _ r s) =
        Step-Inv on (calls u.conn) before more v w s (Run-Inv on before u v h r)

    -- Of a shadow connection that records the calls of Write, and a worker that Initialize has just
    -- started, at every moment of its life, also behind a forced close: the requests that Send
    -- accepted are, in order, those whose packets Write was called with, once each, those that were
    -- dropped, and those in the queue, which keeps within its size. With a logger, `on`, the
    -- requests written are the ones logged, once each and in order; without one, nothing is logged.
    -- None is dropped before the drain timeout has forced the close.
    pub worker_in_order :
        (on : Bool) (accepted : List QueryRequest) (u w : Worker W)
        → IsFresh on u
        → Run write accepted u w
        → Ordered write calls called on (calls u.conn) accepted w
    worker_in_order on accepted u w h r = (Run-Inv on accepted u w h r).0

    -- Of a shadow connection that records the calls of Write, a close of a worker that Initialize
    -- has just started loses nothing if its drain timeout did not pass: once the goroutine has
    -- returned, Write was called with the packet of each request that Send accepted, once and in
    -- order, each of them has been logged, with a logger, and the worker is closed.
    pub worker_drains :
        (on : Bool) (accepted : List QueryRequest) (u w : Worker W)
        → IsFresh on u
        → Run write accepted u w
        → w.phase ≡ returned
        → w.forced ≡ false
        → (calls w.conn ≡ calls u.conn ++ packets accepted)
          × Logged on accepted w.log
          × (w.closed ≡ true)
    worker_drains on accepted u w h r p off =
        let (o, (k, m, n)) = Run-Inv on accepted u w h r in
        let (x, y) = n p off in
        let all_done : o.done ≡ accepted = sym (
          o.split
          ∙ ap (λ z. o.done ++ (z ++ w.queue)) (o.no_gap off)
          ∙ ap (λ z. o.done ++ z) y
          ∙ append-nil o.done) in
        (o.written ∙ ap (λ z. calls u.conn ++ packets z) all_done, rw (sym all_done) o.noted, k x)
