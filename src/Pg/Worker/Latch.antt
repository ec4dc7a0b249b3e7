-- ===== src/Pg/Worker/Latch.antt =====
-- What the latch keeps from the shadow.
use starrocks_shadow_proxy.Net.{Conn}
use starrocks_shadow_proxy.Net.Arrival.{arriving}
use starrocks_shadow_proxy.Pg.Worker.{
  PgShadowFrame, PgShadowWorker, read_until_ready, mark_dead, after_response, after_frame,
  process_frame, process_frames,
}
use starrocks_shadow_proxy.Prelude.{
  ℕ, suc, ◌≡◌, refl, sym, ap, ◌∙◌, Bool, true, false, Bytes, List, [], ◌∷◌, ◌++◌, append_assoc,
  append-nil, map, length, if◌then◌else◌, Option, none, some, Bool-cases, inl, inr, arith,
}
use starrocks_shadow_proxy.Prelude.Outcome.{Error}

abbrev pub payloads : List PgShadowFrame → List Bytes
payloads = map (λ f. f.payload)

module _ {W : Type 0} where
  -- Nothing is written behind this point.
  abbrev pub is_silent : PgShadowWorker W → Bool
  is_silent w = if w.forced then true else w.dead

  mark_dead_dead :
      (w : PgShadowWorker W)
      → ((mark_dead w).dead ≡ true)
        × ((mark_dead w).conn ≡ w.conn)
        × ((mark_dead w).forced ≡ w.forced)
  unfolding mark_dead
  mark_dead_dead w = ground arith

  after_response_keeps :
      (f : PgShadowFrame) (sent : ℕ) (out : ℕ × (Option Error × Conn)) (w : PgShadowWorker W)
      → (after_response f sent out w).conn ≡ w.conn
  unfolding after_response mark_dead
  after_response_keeps f sent (recv, (some e, c)) w = ground arith
  after_response_keeps f sent (recv, (none, c)) w = refl

  written_conn :
      (f : PgShadowFrame) (n : ℕ) (c : W) (w : PgShadowWorker W)
      → (after_frame f (n, (none, c)) w).conn ≡ c
  unfolding after_frame
  written_conn f n c w = ground (
    arith,
    after_response_keeps f n (read_until_ready (suc (length (arriving w.conn_in))) 0 w.conn_in)
        (record w { conn = c }),
  )

  module _ (write : Bytes → W → ℕ × (Option Error × W)) (sent : W → List Bytes) where
    abbrev pub Written : Bytes → W → ℕ × (Option Error × W) → Type 0
    Written bs c (n, (none, c')) = sent c' ≡ sent c ++ (bs ∷ [])
    Written bs c (n, (some e, c')) = sent c' ≡ sent c

    -- The frame has been written whole, or the worker is dead.
    abbrev pub FrameSent : PgShadowFrame → PgShadowWorker W → PgShadowWorker W → Bool → Type 0
    FrameSent f w w' b = sent w'.conn ≡ (if b then sent w.conn ++ (f.payload ∷ []) else sent w.conn)

    pub after_frame-FrameSent :
        (f : PgShadowFrame) (out : ℕ × (Option Error × W)) (w : PgShadowWorker W)
        → Written f.payload w.conn out
        → (b : Bool) × FrameSent f w (after_frame f out w) b
          × (b ≡ false → (after_frame f out w).dead ≡ true)
    unfolding after_frame
    after_frame-FrameSent f (n, (some e, c)) w h =
        let (d, k, _) = mark_dead_dead (record w { conn = c }) in (false, ap sent k ∙ h, λ _. d)
    after_frame-FrameSent f (n, (none, c)) w h = (true, ap sent (written_conn f n c w) ∙ h, λ x. cc)

    pub process_frame_silent :
        (f : PgShadowFrame) (w : PgShadowWorker W)
        → is_silent w ≡ true
        → ((process_frame write f w).conn ≡ w.conn) × (is_silent (process_frame write f w) ≡ true)
    unfolding process_frame
    process_frame_silent f w h = ground arith

    process_frames_silent :
        (fs : List PgShadowFrame) (w : PgShadowWorker W)
        → is_silent w ≡ true
        → ((process_frames write fs w).conn ≡ w.conn)
          × (is_silent (process_frames write fs w) ≡ true)
    unfolding process_frames
    process_frames_silent [] w h = (refl, h)
    process_frames_silent (f ∷ fs) w h =
        let (c, k) = process_frame_silent f w h in
        let (d, m) = process_frames_silent fs (process_frame write f w) k in (d ∙ c, m)

    pub process_frame_writes :
        (f : PgShadowFrame) (w : PgShadowWorker W)
        → is_silent w ≡ false
        → process_frame write f w ≡ after_frame f (write f.payload w.conn) w
    unfolding process_frame
    process_frame_writes f w h = ground arith

    pub dead_silent : (w : PgShadowWorker W) → w.dead ≡ true → is_silent w ≡ true
    dead_silent w h = ground arith

    abbrev SentPrefix : List PgShadowFrame → PgShadowWorker W → PgShadowWorker W → Type 0
    SentPrefix fs w w' =
        (xs : List PgShadowFrame) × (ys : List PgShadowFrame) × (fs ≡ xs ++ ys)
        × (sent w'.conn ≡ sent w.conn ++ payloads xs)
        × (is_silent w' ≡ false → ys ≡ [])

    silent-SentPrefix :
        (fs : List PgShadowFrame) (w w' : PgShadowWorker W)
        → sent w'.conn ≡ sent w.conn
        → is_silent w' ≡ true
        → SentPrefix fs w w'
    silent-SentPrefix fs w w' h k = ([], fs, refl, h ∙ sym (append-nil (sent w.conn)), λ x. cc)

  -- The shadow never sees a frame behind a gap: of the frames that the worker takes from its queue
  -- it writes a first part, each once and in order, and if any is left out, then the connection
  -- has failed or the close was forced.
  process_frames-SentPrefix :
      (write : Bytes → W → ℕ × (Option Error × W)) (sent : W → List Bytes)
      → ((bs : Bytes) (c : W) → Written write sent bs c (write bs c))
      → (fs : List PgShadowFrame) (w : PgShadowWorker W)
      → SentPrefix write sent fs w (process_frames write fs w)
  unfolding process_frames
  process_frames-SentPrefix write sent delivers [] w =
      ([], [], refl, sym (append-nil (sent w.conn)), λ _. refl)
  process_frames-SentPrefix write sent delivers (f ∷ fs) w = elim (Bool-cases (is_silent w)) [
    | inl quiet ↦
        let (c, k) = process_frames_silent write sent (f ∷ fs) w quiet in
        silent-SentPrefix write sent (f ∷ fs) w (process_frames write (f ∷ fs) w) (ap sent c) k
    | inr open_ ↦
        let w1 = process_frame write f w in
        let e : w1 ≡ after_frame f (write f.payload w.conn) w =
          process_frame_writes write sent f w open_ in
        by_write
          (after_frame-FrameSent write sent f (write f.payload w.conn) w
            (delivers f.payload w.conn))
          e (process_frames-SentPrefix write sent delivers fs w1)
  ]
    where
      by_write :
          ((b : Bool) × FrameSent write sent f w (after_frame f (write f.payload w.conn) w) b
            × (b ≡ false → (after_frame f (write f.payload w.conn) w).dead ≡ true))
          → process_frame write f w ≡ after_frame f (write f.payload w.conn) w
          → SentPrefix write sent fs
              (process_frame write f w)
              (process_frames write fs (process_frame write f w))
          → SentPrefix write sent (f ∷ fs) w (process_frames write fs (process_frame write f w))
      by_write (true, s, d) e (xs, ys, cut, more, left) = (
        f ∷ xs,
        ys,
        ap (λ z. f ∷ z) cut,
        more
            ∙ ap (λ z. z ++ payloads xs) (ap (λ z. sent z.conn) e ∙ s)
            ∙ append_assoc (sent w.conn) (f.payload ∷ []) (payloads xs),
        left,
      )
      by_write (false, s, d) e _ =
          let dead : (process_frame write f w).dead ≡ true = ap (λ z. z.dead) e ∙ d refl in
          let (c, k) =
            process_frames_silent write sent fs (process_frame write f w)
              (dead_silent write sent (process_frame write f w) dead) in
          silent-SentPrefix write sent (f ∷ fs) w
            (process_frames write fs (process_frame write f w))
            (ap sent c ∙ ap (λ z. sent z.conn) e ∙ s) k
