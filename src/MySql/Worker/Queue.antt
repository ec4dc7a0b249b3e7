-- ===== src/MySql/Worker/Queue.antt =====
-- What the worker's queue promises: every request that Send accepted is written once and in order,
-- unless the drain timeout cuts the worker off.
use starrocks_shadow_proxy.MySql.Command.{get_mysql_command, is_no_response_command}
use starrocks_shadow_proxy.MySql.Log.{
  QueryRequest, QueryLogEntry, shadow, Logs, given, execution_entry, log_execution,
}
use starrocks_shadow_proxy.MySql.Reader.{Reader}
use starrocks_shadow_proxy.MySql.Worker.{
  Worker, send, logged_by, read_response, finish_request, after_write, count_request,
  process_request,
}
use starrocks_shadow_proxy.Prelude.{
  ℕ, ◌+◌, ◌≤◌, ◌<◌, ◌≡◌, refl, sym, ap, ◌∙◌, Bool, true, false, Bytes, List, [], ◌∷◌, ◌++◌, map,
  append_assoc, append-nil, length, length-append, if◌then◌else◌, Option, none, some, arith,
}
use starrocks_shadow_proxy.Prelude.Outcome.{Error}

abbrev pub ids : List QueryRequest → List Bytes
ids = map (λ r. r.id)

abbrev pub packets : List QueryRequest → List Bytes
packets = map (λ r. r.packet)

abbrev pub logged_ids : List QueryLogEntry → List Bytes
logged_ids = map (λ e. e.query_id)

map-append : {A B : Type 0} (f : A → B) (xs ys : List A) → map f (xs ++ ys) ≡ map f xs ++ map f ys
map-append f [] ys = refl
map-append f (x ∷ xs) ys = ap (λ z. f x ∷ z) (map-append f xs ys)

-- With a logger, `on`, its entries are those of the requests, in order; without one there are none.
abbrev pub Logged : Bool → List QueryRequest → Logs → Type 0
Logged false done log = log ≡ none
Logged true done log = (es : List QueryLogEntry) × (log ≡ some es) × (logged_ids es ≡ ids done)

log_execution-Logged :
    (on : Bool) (done : List QueryRequest) (req : QueryRequest) (n m : ℕ) (e : Option Error)
    (log : Logs)
    → Logged on done log
    → Logged on (done ++ (req ∷ [])) (log_execution shadow req n m e log)
unfolding log_execution execution_entry
log_execution-Logged false done req n m e log h = ap (given (execution_entry shadow req n m e)) h
log_execution-Logged true done req n m e log (es, h, k) = (
  es ++ (execution_entry shadow req n m e ∷ []),
  ap (given (execution_entry shadow req n m e)) h,
  map-append (λ x. x.query_id) es (execution_entry shadow req n m e ∷ [])
      ∙ ap (λ z. z ++ (req.id ∷ [])) k
      ∙ sym (map-append (λ r. r.id) done (req ∷ [])),
)

module _ {W : Type 0} where
  abbrev pub Keeps : Worker W → Worker W → Type 0
  Keeps w q =
      (q.queue ≡ w.queue)
      × (q.queue_size ≡ w.queue_size)
      × (q.closed ≡ w.closed)
      × (q.closing ≡ w.closing)
      × (q.forced ≡ w.forced)
      × (q.phase ≡ w.phase)

  -- Behind the write, which left the connection `c`, a request is logged once.
  abbrev Noted : Bool → List QueryRequest → QueryRequest → W → Worker W → Worker W → Type 0
  Noted on done req c w q = Keeps w q × (q.conn ≡ c) × Logged on (done ++ (req ∷ [])) q.log

  logged_by-Noted :
      (on : Bool) (done : List QueryRequest) (req : QueryRequest) (n m : ℕ) (e : Option Error)
      (w : Worker W)
      → Logged on done w.log
      → Noted on done req w.conn w (logged_by req n m e w)
  logged_by-Noted on done req n m e w h =
      ((refl, refl, refl, refl, refl, refl), refl, log_execution-Logged on done req n m e w.log h)

  if-Noted :
      (b on : Bool) (done : List QueryRequest) (req : QueryRequest) (c : W) (w q r : Worker W)
      → Noted on done req c w q
      → Noted on done req c w r
      → Noted on done req c w (if b then q else r)
  if-Noted true on done req c w q r h k = h
  if-Noted false on done req c w q r h k = k

  finish_request-Noted :
      (on : Bool) (done : List QueryRequest) (req : QueryRequest) (n : ℕ)
      (out : ℕ × (Option Error × Reader)) (w : Worker W)
      → Logged on done w.log
      → Noted on done req w.conn w (finish_request req n out w)
  unfolding finish_request
  finish_request-Noted on done req n (m, (none, r)) w h = logged_by-Noted on done req n m none w h
  finish_request-Noted on done req n (m, (some e, r)) w h =
      logged_by-Noted on done req n m (some e) w h

  after_write-Noted :
      (on : Bool) (done : List QueryRequest) (req : QueryRequest) (out : ℕ × (Option Error × W))
      (w : Worker W)
      → Logged on done w.log
      → Noted on done req out.1.1 w (after_write req out w)
  unfolding after_write
  after_write-Noted on done req (n, (some e, c)) w h =
      logged_by-Noted on done req n 0 (some e) (record w { conn = c }) h
  after_write-Noted on done req (n, (none, c)) w h =
      let w' = record w {
        conn = c;
        metrics = record (w.metrics) { bytes_sent = w.metrics.bytes_sent + n };
      } in
      let out = read_response (get_mysql_command req.packet).0 w.reader in
      if-Noted (is_no_response_command (get_mysql_command req.packet).0) on done req c w
        (logged_by req n 0 none w') (finish_request req n out w')
        (logged_by-Noted on done req n 0 none w' h) (finish_request-Noted on done req n out w' h)

  module _ (write : Bytes → W → ℕ × (Option Error × W)) (calls : W → List Bytes)
      (called : (bs : Bytes) (c : W) → calls (write bs c).1.1 ≡ calls c ++ (bs ∷ [])) where
    -- Of the requests that Send accepted, Write was called with the first, which were logged; those
    -- behind them were dropped, the last are in the queue; none is dropped before a forced close.
    pub record Ordered (on : Bool) (old : List Bytes) (accepted : List QueryRequest) (w : Worker W)
        : Type 0 where
      pub done : List QueryRequest
      pub lost : List QueryRequest
      pub split : accepted ≡ done ++ (lost ++ w.queue)
      pub written : calls w.conn ≡ old ++ packets done
      pub noted : Logged on done w.log
      pub no_gap : w.forced ≡ false → lost ≡ []
      pub fits : length w.queue ≤ w.queue_size

    pub takes-Ordered :
        (on : Bool) (old : List Bytes) (accepted : List QueryRequest) (req : QueryRequest)
        (rest : List QueryRequest) (w : Worker W)
        → w.queue ≡ req ∷ rest
        → Ordered on old accepted w
        → Ordered on old accepted (process_request write req (record w { queue = rest }))
          × ((process_request write req (record w { queue = rest })).closed ≡ w.closed)
          × ((process_request write req (record w { queue = rest })).closing ≡ w.closing)
          × ((process_request write req (record w { queue = rest })).phase ≡ w.phase)
    unfolding process_request count_request
    takes-Ordered on old accepted req rest w q o = by_force w.forced refl
      where
        w1 : Worker W
        w1 = record w { queue = rest }

        w2 : Worker W
        w2 = after_write req (write req.packet w.conn) (count_request req w1)

        served :
            w.forced ≡ false
            → Noted on o.done req (write req.packet w.conn).1.1 w1 w2
            → Ordered on old accepted w2
              × (w2.closed ≡ w.closed)
              × (w2.closing ≡ w.closing)
              × (w2.phase ≡ w.phase)
        served off ((a, b, c, d, f, g), conn, log) = (
          record {
            done = o.done ++ (req ∷ []);
            lost = [];
            split =
                o.split
                ∙ ap (λ z. o.done ++ (z ++ w.queue)) (o.no_gap off)
                ∙ ap (λ z. o.done ++ z) (q ∙ ap (λ z. req ∷ z) (sym a))
                ∙ sym (append_assoc o.done (req ∷ []) w2.queue);
            written =
                ap calls conn
                ∙ called req.packet w.conn
                ∙ ap (λ z. z ++ (req.packet ∷ [])) o.written
                ∙ append_assoc old (packets o.done) (req.packet ∷ [])
                ∙ ap (λ z. old ++ z) (sym (map-append (λ r. r.packet) o.done (req ∷ [])));
            noted = log;
            no_gap = λ _. refl;
            fits = omega (arith, ap length a, b, o.fits, ap length q);
          },
          c,
          d,
          g,
        )

        by_force :
            (b : Bool)
            → w.forced ≡ b
            → Ordered on old accepted (if b then w1 else w2)
              × ((if b then w1 else w2).closed ≡ w.closed)
              × ((if b then w1 else w2).closing ≡ w.closing)
              × ((if b then w1 else w2).phase ≡ w.phase)
        by_force true h = (
          record {
            done = o.done;
            lost = o.lost ++ (req ∷ []);
            split =
                o.split
                ∙ ap (λ z. o.done ++ (o.lost ++ z)) q
                ∙ ap (λ z. o.done ++ z) (sym (append_assoc o.lost (req ∷ []) rest));
            written = o.written;
            noted = o.noted;
            no_gap = λ off. absurd (true_false (sym h ∙ off));
            fits = omega (arith, o.fits, ap length q);
          },
          refl,
          refl,
          refl,
        )
          where
            true_false : true ≡ false → ⊥
            true_false x = cc
        by_force false h = served h (
            after_write-Noted on o.done req (write req.packet w.conn) (count_request req w1)
              o.noted)

    -- The same requests in a state that differs elsewhere.
    pub same-Ordered :
        (on : Bool) (old : List Bytes) (accepted : List QueryRequest) (w q : Worker W)
        → q.queue ≡ w.queue
        → q.queue_size ≡ w.queue_size
        → q.conn ≡ w.conn
        → q.log ≡ w.log
        → (q.forced ≡ false → w.forced ≡ false)
        → Ordered on old accepted w
        → Ordered on old (accepted ++ []) q
    same-Ordered on old accepted w q a b c d free o = record {
      done = o.done;
      lost = o.lost;
      split = append-nil accepted ∙ o.split ∙ ap (λ z. o.done ++ (o.lost ++ z)) (sym a);
      written = ap calls c ∙ o.written;
      noted = rw (d) o.noted;
      no_gap = λ h. o.no_gap (free h);
      fits = omega (arith, ap length a, b, o.fits);
    }

    pub send_queues :
        (req : QueryRequest) (w : Worker W)
        → (send req w).0 ≡ true
        → (w.closed ≡ false)
          × (length w.queue < w.queue_size)
          × ((send req w).1 ≡ record w { queue = w.queue ++ (req ∷ []) })
    unfolding send
    send_queues req w h = ground arith

    -- A refused request leaves all but a counter.
    pub send_refuses :
        (req : QueryRequest) (w : Worker W)
        → (send req w).0 ≡ false
        → Keeps w (send req w).1 × ((send req w).1.conn ≡ w.conn) × ((send req w).1.log ≡ w.log)
    unfolding send
    send_refuses req w h = ground arith

    pub sends-Ordered :
        (on : Bool) (old : List Bytes) (accepted : List QueryRequest) (req : QueryRequest)
        (w : Worker W)
        → (send req w).0 ≡ true
        → Ordered on old accepted w
        → Ordered on old (accepted ++ (req ∷ [])) (send req w).1
    sends-Ordered on old accepted req w h o =
        let (_, room, e) = send_queues req w h in
        rw (e) (record {
          done = o.done;
          lost = o.lost;
          split =
              ap (λ z. z ++ (req ∷ [])) o.split
              ∙ append_assoc o.done (o.lost ++ w.queue) (req ∷ [])
              ∙ ap (λ z. o.done ++ z) (append_assoc o.lost w.queue (req ∷ []));
          written = o.written;
          noted = o.noted;
          no_gap = o.no_gap;
          fits = omega (arith, length-append w.queue (req ∷ []), room);
        })
