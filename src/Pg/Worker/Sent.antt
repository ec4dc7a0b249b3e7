-- ===== src/Pg/Worker/Sent.antt =====
-- The frames that Send accepted over the life of a PostgreSQL shadow worker: which of them the
-- shadow was sent.
use starrocks_shadow_proxy.Net.{Conn}
use starrocks_shadow_proxy.Net.Arrival.{arriving}
use starrocks_shadow_proxy.Pg.Worker.{
  PgShadowFrame, PgShadowWorker, read_until_ready, send_frame, mark_dead, after_response,
  after_frame, process_frame,
}
use starrocks_shadow_proxy.Pg.Worker.Latch.{
  payloads, is_silent, Written, FrameSent, after_frame-FrameSent, process_frame_silent,
  process_frame_writes, dead_silent,
}
use starrocks_shadow_proxy.Prelude.{
  ℕ, suc, ◌≤◌, ◌<◌, ◌≡◌, refl, sym, ap, ◌∙◌, Bool, true, false, not, Bytes, List, [], ◌∷◌, ◌++◌,
  append_assoc, append-nil, length, length-append, if◌then◌else◌, Option, none, some, arith,
}
use starrocks_shadow_proxy.Prelude.Outcome.{Error}

payloads-append : (xs ys : List PgShadowFrame) → payloads (xs ++ ys) ≡ payloads xs ++ payloads ys
payloads-append [] ys = refl
payloads-append (x ∷ xs) ys = ap (λ z. x.payload ∷ z) (payloads-append xs ys)

module _ {W : Type 0} where
  -- What a frame leaves alone.
  abbrev pub Keeps : PgShadowWorker W → PgShadowWorker W → Type 0
  Keeps w q =
      (q.queue ≡ w.queue)
      × (q.queue_size ≡ w.queue_size)
      × (q.closed ≡ w.closed)
      × (q.forced ≡ w.forced)

  if-Keeps :
      (b : Bool) (w q r : PgShadowWorker W) → Keeps w q → Keeps w r → Keeps w (if b then q else r)
  if-Keeps true w q r h k = h
  if-Keeps false w q r h k = k

  after_response-Keeps :
      (f : PgShadowFrame) (n : ℕ) (out : ℕ × (Option Error × Conn)) (w : PgShadowWorker W)
      → Keeps w (after_response f n out w)
  unfolding after_response mark_dead
  after_response-Keeps f n (recv, (some e, c)) w = ground arith
  after_response-Keeps f n (recv, (none, c)) w = (refl, refl, refl, refl)

  after_frame-Keeps :
      (f : PgShadowFrame) (out : ℕ × (Option Error × W)) (w : PgShadowWorker W)
      → Keeps w (after_frame f out w)
  unfolding after_frame mark_dead
  after_frame-Keeps f (n, (some e, c)) w = ground arith
  after_frame-Keeps f (n, (none, c)) w =
      if-Keeps (not f.expects_response) w _ _ (refl, refl, refl, refl)
        (after_response-Keeps f n (read_until_ready (suc (length (arriving w.conn_in))) 0 w.conn_in)
          (record w { conn = c }))

  module _ (write : Bytes → W → ℕ × (Option Error × W)) (sent : W → List Bytes) where
    pub process_frame-Keeps :
        (f : PgShadowFrame) (w : PgShadowWorker W) → Keeps w (process_frame write f w)
    unfolding process_frame
    process_frame-Keeps f w =
        if-Keeps w.forced w _ _ (refl, refl, refl, refl)
          (if-Keeps w.dead w _ _ (refl, refl, refl, refl)
            (after_frame-Keeps f (write f.payload w.conn) w))

    -- Of the frames that Send accepted, the first were sent, those behind them were lost, the last
    -- are in the queue; none are lost while the worker is not silent.
    pub record Ordered (old : List Bytes) (accepted : List PgShadowFrame) (w : PgShadowWorker W)
        : Type 0 where
      pub passed : List PgShadowFrame
      pub lost : List PgShadowFrame
      pub split : accepted ≡ passed ++ (lost ++ w.queue)
      pub arrived : sent w.conn ≡ old ++ payloads passed
      pub no_gap : is_silent w ≡ false → lost ≡ []
      pub fits : length w.queue ≤ w.queue_size

    pub send_frame-cases :
        (f : PgShadowFrame) (w : PgShadowWorker W)
        → (send_frame f w).0 ≡ true
        → (w.closed ≡ false)
          × (length w.queue < w.queue_size)
          × ((send_frame f w).1 ≡ record w { queue = w.queue ++ (f ∷ []) })
    unfolding send_frame
    send_frame-cases f w h = ground arith

    pub refused-Keeps :
        (f : PgShadowFrame) (w : PgShadowWorker W)
        → (send_frame f w).0 ≡ false
        → Keeps w (send_frame f w).1
          × ((send_frame f w).1.conn ≡ w.conn)
          × ((send_frame f w).1.dead ≡ w.dead)
    unfolding send_frame
    refused-Keeps f w h = ground arith

    module _ (delivers : (bs : Bytes) (c : W) → Written write sent bs c (write bs c)) where
      -- The head of the queue is taken: it is sent, or lost with a worker that is silent then.
      pub takes-Ordered :
          (old : List Bytes) (accepted : List PgShadowFrame) (f : PgShadowFrame)
          (rest : List PgShadowFrame) (w : PgShadowWorker W)
          → w.queue ≡ f ∷ rest
          → Ordered old accepted w
          → Ordered old accepted (process_frame write f (record w { queue = rest }))
      takes-Ordered old accepted f rest w q o = by_silence (is_silent w1) refl
        where
          w1 : PgShadowWorker W
          w1 = record w { queue = rest }

          kept : Keeps w1 (process_frame write f w1)
          kept = process_frame-Keeps f w1

          fitting : length (process_frame write f w1).queue ≤ (process_frame write f w1).queue_size
          fitting = let (a, b, _, _) = kept in omega (arith, ap length a, b, o.fits, ap length q)

          lost_one :
              is_silent (process_frame write f w1) ≡ true
              → sent (process_frame write f w1).conn ≡ sent w.conn
              → Ordered old accepted (process_frame write f w1)
          lost_one quiet same =
              let (a, _, _, _) = kept in
              record {
                passed = o.passed;
                lost = o.lost ++ (f ∷ []);
                split =
                    o.split
                    ∙ ap (λ z. o.passed ++ (o.lost ++ z)) (q ∙ ap (λ z. f ∷ z) (sym a))
                    ∙ ap (λ z. o.passed ++ z)
                        (sym (append_assoc o.lost (f ∷ []) (process_frame write f w1).queue));
                arrived = same ∙ o.arrived;
                no_gap = λ h. absurd (true_false (sym quiet ∙ h));
                fits = fitting;
              }
            where
              true_false : true ≡ false → ⊥
              true_false h = cc

          by_write :
              is_silent w1 ≡ false
              → process_frame write f w1 ≡ after_frame f (write f.payload w.conn) w1
              → ((b : Bool) × FrameSent write sent f w1
                    (after_frame f (write f.payload w.conn) w1)
                    b
                  × (b ≡ false → (after_frame f (write f.payload w.conn) w1).dead ≡ true))
              → Ordered old accepted (process_frame write f w1)
          by_write open_ e (false, same, dead) =
              lost_one
                (dead_silent write sent (process_frame write f w1) (ap (λ z. z.dead) e ∙ dead refl))
                (ap (λ z. sent z.conn) e ∙ same)
          by_write open_ e (true, went, _) =
              let (a, _, _, _) = kept in
              let none_lost : o.lost ≡ [] = o.no_gap open_ in
              record {
                passed = o.passed ++ (f ∷ []);
                lost = [];
                split =
                    o.split
                    ∙ ap (λ z. o.passed ++ (z ++ w.queue)) none_lost
                    ∙ ap (λ z. o.passed ++ z) (q ∙ ap (λ z. f ∷ z) (sym a))
                    ∙ sym (append_assoc o.passed (f ∷ []) (process_frame write f w1).queue);
                arrived =
                    ap (λ z. sent z.conn) e
                    ∙ went
                    ∙ ap (λ z. z ++ (f.payload ∷ [])) o.arrived
                    ∙ append_assoc old (payloads o.passed) (f.payload ∷ [])
                    ∙ ap (λ z. old ++ z) (sym (payloads-append o.passed (f ∷ [])));
                no_gap = λ _. refl;
                fits = fitting;
              }

          by_silence :
              (b : Bool) → is_silent w1 ≡ b → Ordered old accepted (process_frame write f w1)
          by_silence true quiet =
              let (c, k) = process_frame_silent write sent f w1 quiet in lost_one k (ap sent c)
          by_silence false open_ = by_write open_ (process_frame_writes write sent f w1 open_) (
              after_frame-FrameSent write sent f (write f.payload w.conn) w1
                (delivers f.payload w.conn))

      -- The same frames in a state that is no less silent.
      pub same-Ordered :
          (old : List Bytes) (accepted : List PgShadowFrame) (w q : PgShadowWorker W)
          → q.queue ≡ w.queue
          → q.queue_size ≡ w.queue_size
          → q.conn ≡ w.conn
          → (is_silent q ≡ false → is_silent w ≡ false)
          → Ordered old accepted w
          → Ordered old (accepted ++ []) q
      same-Ordered old accepted w q a b c loud o = record {
        passed = o.passed;
        lost = o.lost;
        split = append-nil accepted ∙ o.split ∙ ap (λ z. o.passed ++ (o.lost ++ z)) (sym a);
        arrived = ap sent c ∙ o.arrived;
        no_gap = λ h. o.no_gap (loud h);
        fits = omega (arith, ap length a, b, o.fits);
      }

      pub sends-Ordered :
          (old : List Bytes) (accepted : List PgShadowFrame) (f : PgShadowFrame)
          (w : PgShadowWorker W)
          → (send_frame f w).0 ≡ true
          → Ordered old accepted w
          → Ordered old (accepted ++ f ∷ []) (send_frame f w).1
      sends-Ordered old accepted f w h o =
          let (_, room, e) = send_frame-cases f w h in
          rw (e) (record {
            passed = o.passed;
            lost = o.lost;
            split =
                ap (λ z. z ++ f ∷ []) o.split
                ∙ append_assoc o.passed (o.lost ++ w.queue) (f ∷ [])
                ∙ ap (λ z. o.passed ++ z) (append_assoc o.lost w.queue (f ∷ []));
            arrived = o.arrived;
            no_gap = o.no_gap;
            fits = omega (arith, length-append w.queue (f ∷ []), room);
          })
