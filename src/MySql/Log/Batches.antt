-- ===== src/MySql/Log/Batches.antt =====
-- No entry that the log took is lost on the way to the store or the fallback.
use starrocks_shadow_proxy.MySql.Log.{
  QueryLogEntry, QueryLogger, log_entry, flush, receive_entry, tick, shut_down, LogEvent, logged,
  received, ticked, cancelled, log_step, run_log,
}
use starrocks_shadow_proxy.Prelude.{
  ◌≡◌, refl, sym, ap, ◌∙◌, Bool, true, false, List, [], ◌∷◌, ◌++◌, append_assoc, append_if,
  append-nil, length, ltb, if◌then◌else◌, arith, Bool-cases, inl, inr,
}

-- The entries of the batches, in order.
unfoldable pub written_out : List (Bool × List QueryLogEntry) → List QueryLogEntry
written_out [] = []
written_out ((up, xs) ∷ xss) = xs ++ written_out xss

-- What `Log` took, in order: the entries for which the channel had room.
unfoldable pub taken : List LogEvent → QueryLogger → List QueryLogEntry
taken [] l = []
taken (logged e ∷ es) l =
    let rest = taken es (log_entry e l) in
    if ltb (length l.entries) l.buffer_size then e ∷ rest else rest
taken (e ∷ es) l = taken es (log_step e l)

-- The context is not cancelled among the events.
unfoldable pub goes_on : List LogEvent → Bool
goes_on [] = true
goes_on (cancelled up ∷ es) = false
goes_on (e ∷ es) = goes_on es

-- The entries that a logger has been given, whether written out, batched or still in its channel.
unfoldable pub held : QueryLogger → List QueryLogEntry
held l = written_out l.flushed ++ (l.batch ++ l.entries)

written_out-append_one :
    (xss : List (Bool × List QueryLogEntry)) (up : Bool) (xs : List QueryLogEntry)
    → written_out (xss ++ ((up, xs) ∷ [])) ≡ written_out xss ++ xs
unfolding written_out
written_out-append_one [] up xs = append-nil xs
written_out-append_one ((b, ys) ∷ xss) up xs =
    ap (λ z. ys ++ z) (written_out-append_one xss up xs)
    ∙ sym (append_assoc ys (written_out xss) xs)

-- A flush moves the batch out, and leaves the channel and the goroutine as they are.
flush_lem :
    (up : Bool) (l : QueryLogger)
    → (written_out (flush up l).flushed ≡ written_out l.flushed ++ l.batch)
      × ((flush up l).batch ≡ [])
      × ((flush up l).entries ≡ l.entries)
      × ((flush up l).stopped ≡ l.stopped)
unfolding flush
flush_lem up l = flushes l.batch
  where
    flushes :
        (b : List QueryLogEntry)
        → let q = flush up (record l { batch = b }) in
          (written_out q.flushed ≡ written_out l.flushed ++ b)
          × (q.batch ≡ [])
          × (q.entries ≡ l.entries)
          × (q.stopped ≡ l.stopped)
    flushes [] = (sym (append-nil (written_out l.flushed)), refl, refl, refl)
    flushes (e ∷ b) = (written_out-append_one l.flushed up (e ∷ b), refl, refl, refl)

held-flush : (up : Bool) (l : QueryLogger) → held (flush up l) ≡ held l
unfolding held
held-flush up l =
    let (w, b, e, _) = flush_lem up l in
    rw (w, b, e) (append_assoc (written_out l.flushed) l.batch l.entries)

held-log_entry :
    (e : QueryLogEntry) (l : QueryLogger)
    → held (log_entry e l) ≡ held l ++ (if ltb (length l.entries) l.buffer_size then e ∷ [] else [])
unfolding held log_entry
held-log_entry e l = elim (Bool-cases (ltb (length l.entries) l.buffer_size)) [
  | inl fits ↦
      rw
        (
          fits,
          if◌then◌else◌,
          append_assoc (written_out l.flushed) (l.batch ++ l.entries) (e ∷ []),
          append_assoc l.batch l.entries (e ∷ []),
        )
        refl
  | inr full ↦
      rw (full, if◌then◌else◌, append-nil (written_out l.flushed ++ (l.batch ++ l.entries))) refl
]

held-tick : (up : Bool) (l : QueryLogger) → held (tick up l) ≡ held l
unfolding tick
held-tick up l = ground (arith, held-flush up l)

abbrev one_received : QueryLogEntry → List QueryLogEntry → QueryLogger → QueryLogger
one_received e es l = record l { entries = es; batch = l.batch ++ (e ∷ []) }

held_received :
    (e : QueryLogEntry) (es : List QueryLogEntry) (l : QueryLogger)
    → held (one_received e es l) ≡ held (record l { entries = e ∷ es })
unfolding held
held_received e es l = ap (λ b. written_out l.flushed ++ b) (append_assoc l.batch (e ∷ []) es)

-- A round of the goroutine that has not returned keeps what is held, and does not return.
receive_entry_lem :
    (up : Bool) (l : QueryLogger)
    → (held (receive_entry up l) ≡ held l) × ((receive_entry up l).stopped ≡ l.stopped)
unfolding receive_entry
receive_entry_lem up l = by_channel l.entries
  where
    by_channel :
        (xs : List QueryLogEntry)
        → let l' = record l { entries = xs } in
          (held (receive_entry up l') ≡ held l') × ((receive_entry up l').stopped ≡ l.stopped)
    by_channel [] = (refl, refl)
    by_channel (e ∷ es) = ground (
      arith,
      held-flush up (one_received e es l),
      held_received e es l,
      flush_lem up (one_received e es l),
    )

tick_stopped : (up : Bool) (l : QueryLogger) → (tick up l).stopped ≡ l.stopped
unfolding tick
tick_stopped up l = ground (arith, flush_lem up l)

log_entry_stopped : (e : QueryLogEntry) (l : QueryLogger) → (log_entry e l).stopped ≡ l.stopped
unfolding log_entry
log_entry_stopped e l = ground arith

abbrev gathered : QueryLogger → QueryLogger
gathered l = record l { batch = l.batch ++ l.entries; entries = [] }

shut_down_running :
    (up : Bool) (l : QueryLogger)
    → l.stopped ≡ false
    → shut_down up l ≡ record (flush up (gathered l)) { stopped = true }
unfolding shut_down
shut_down_running up l h = by_stop l.stopped h
  where
    by_stop :
        (b : Bool)
        → b ≡ false
        → let q = record (flush up (gathered l)) { stopped = true } in (if b then l else q) ≡ q
    by_stop true k = cc
    by_stop false k = refl

-- The shutdown writes out all that is held.
shut_down_lem :
    (up : Bool) (l : QueryLogger)
    → l.stopped ≡ false
    → let q = shut_down up l in
      (written_out q.flushed ≡ held l) × (q.batch ≡ []) × (q.entries ≡ []) × (q.stopped ≡ true)
unfolding held
shut_down_lem up l h =
    let (w, b, e, _) = flush_lem up (gathered l) in simp (shut_down_running up l h) (w, b, e, refl)

-- A logger that has not shut down loses nothing that Log took: after any run of Log calls, rounds
-- of the goroutine and flushes that the store takes or not, and a cancelled context at its end, the
-- goroutine has returned, its batch and the channel are empty, and the batches that it wrote to the
-- store or to the fallback hold, in order, the entries held at the start and then those that Log
-- took since.
pub run_log-delivers :
    (es : List LogEvent) (up : Bool) (l : QueryLogger)
    → l.stopped ≡ false
    → goes_on es ≡ true
    → let q = run_log (es ++ cancelled up ∷ []) l in
      (written_out q.flushed ≡ held l ++ taken es l)
      × (q.batch ≡ [])
      × (q.entries ≡ [])
      × (q.stopped ≡ true)
unfolding run_log taken log_step goes_on
run_log-delivers [] up l h k =
    let (w, b, e, s) = shut_down_lem up l h in (w ∙ sym (append-nil (held l)), b, e, s)
run_log-delivers (logged e ∷ es) up l h k =
    let (w, b, x, s) = run_log-delivers es up (log_entry e l) (log_entry_stopped e l ∙ h) k in
    (
      w
          ∙ ap (λ z. z ++ taken es (log_entry e l)) (held-log_entry e l)
          ∙ append_if (ltb (length l.entries) l.buffer_size) (held l) e (taken es (log_entry e l)),
      b,
      x,
      s,
    )
run_log-delivers (received b ∷ es) up l h k =
    let (kept, still) = receive_entry_lem b l in
    let (w, c, x, s) = run_log-delivers es up (receive_entry b l) (still ∙ h) k in
    (w ∙ ap (λ z. z ++ taken es (receive_entry b l)) kept, c, x, s)
run_log-delivers (ticked b ∷ es) up l h k =
    let (w, c, x, s) = run_log-delivers es up (tick b l) (tick_stopped b l ∙ h) k in
    (w ∙ ap (λ z. z ++ taken es (tick b l)) (held-tick b l), c, x, s)
run_log-delivers (cancelled b ∷ es) up l h k = cc
