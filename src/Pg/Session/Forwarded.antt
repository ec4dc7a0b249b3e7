-- ===== src/Pg/Session/Forwarded.antt =====
-- forwardResponseUntilReady passes on a whole response and ends.
use starrocks_shadow_proxy.Net.{Conn}
use starrocks_shadow_proxy.Net.Arrival.{arriving}
use starrocks_shadow_proxy.Pg.Protocol.{PgPacket, bytes, read_message}
use starrocks_shadow_proxy.Pg.Protocol.Messages.{
  wire, wires, written, TakesMessage, read_message-Takes,
}
use starrocks_shadow_proxy.Pg.Session.{
  Session, Peers, Response, is_ready, is_copy, after_reply, forward_response_until_ready,
}
use starrocks_shadow_proxy.Prelude.{
  ℕ, zero, suc, ◌+◌, ◌<◌, ◌≡◌, ◌≢◌, refl, sym, ap, ◌∙◌, Bool, true, false, ◌||◌, Bytes, List, [],
  ◌∷◌, ◌++◌, append_assoc, append-nil, length, length-append, All, if◌then◌else◌, Option, none,
  some, arith,
}
use starrocks_shadow_proxy.Prelude.Outcome.{Error, out_of_fuel, Outcome, ok, err}

abbrev pub is_last : PgPacket → Bool
is_last msg = is_ready msg || is_copy msg

pub some_inner : {e f : Error} → some e ≡ some f → e ≡ f
some_inner h = cc

pub length-wire : (msg : PgPacket) → 0 < length (wire msg)
unfolding wire
length-wire msg = omega arith

module _ {P D : Type 0} where
  -- Nothing but the primary's stream and the client has moved.
  abbrev pub Same : Session P D → Session P D → Type 0
  Same s q =
      (q.client_in ≡ s.client_in)
      × (q.primary_conn ≡ s.primary_conn)
      × (q.filtered_stmt_names ≡ s.filtered_stmt_names)
      × (q.frames ≡ s.frames)
      × (q.served ≡ s.served)

module _ {P D : Type 0} (peers : Peers P D) (sent : D → Bytes) where
  -- A client that has taken all of a write that it reports as done.
  abbrev pub Replied : Bytes → D → ℕ × (Option Error × D) → Type 0
  Replied bs d (n, (none, d')) = (sent d' ≡ sent d ++ bs) × (n ≡ length bs)
  Replied bs d (n, (some e, d')) = e ≢ out_of_fuel

  -- A response: messages of which only the last is a ReadyForQuery or begins a copy, taken from
  -- the primary's stream, and written to the client.
  pub record Passes (s : Session P D) (total : ℕ) (r : Response P D) : Type 0 where
    pub before : List PgPacket
    pub last : PgPacket
    pub taken : arriving s.primary_in ≡ wires (before ++ last ∷ []) ++ arriving r.session.primary_in
    pub delivered : sent r.session.client ≡ sent s.client ++ written (before ++ last ∷ [])
    pub counted : r.total ≡ total + length (written (before ++ last ∷ []))
    pub none_before : All (λ m. is_last m ≡ false) before
    pub ends : is_last last ≡ true
    pub copies : r.copy_mode ≡ is_copy last

  abbrev pub Forwards : Session P D → ℕ → Response P D → Type 0
  Forwards s total r =
      (r.error ≢ some out_of_fuel) × (r.error ≡ none → Passes s total r) × Same s r.session

  -- The message that ends the response.
  only :
      (msg : PgPacket) (c : Conn) (total n : ℕ) (copying : Bool) (s : Session P D) (d : D)
      → arriving s.primary_in ≡ wire msg ++ arriving c
      → sent d ≡ sent s.client ++ bytes msg
      → n ≡ length (bytes msg)
      → is_last msg ≡ true
      → copying ≡ is_copy msg
      → Passes s total (record {
        total = total + n;
        copy_mode = copying;
        error = none;
        session = record s { primary_in = c; client = d };
      })
  unfolding wires written
  only msg c total n copying s d t e k l m = record {
    before = [];
    last = msg;
    taken = rw (append-nil (wire msg)) t;
    delivered = rw (append-nil (bytes msg)) e;
    counted = rw (append-nil (bytes msg), k) refl;
    none_before = tt;
    ends = l;
    copies = m;
  }

  -- One message before the others.
  further :
      (msg : PgPacket) (c : Conn) (total n : ℕ) (s : Session P D) (d : D) (r : Response P D)
      → arriving s.primary_in ≡ wire msg ++ arriving c
      → sent d ≡ sent s.client ++ bytes msg
      → n ≡ length (bytes msg)
      → is_last msg ≡ false
      → Passes (record s { primary_in = c; client = d }) (total + n) r
      → Passes s total r
  unfolding wires written
  further msg c total n s d r t e k l p = record {
    before = msg ∷ p.before;
    last = p.last;
    taken =
        t
        ∙ ap (λ z. wire msg ++ z) p.taken
        ∙ sym (
            append_assoc (wire msg) (wires (p.before ++ p.last ∷ []))
              (arriving r.session.primary_in));
    delivered =
        p.delivered
        ∙ ap (λ z. z ++ written (p.before ++ p.last ∷ [])) e
        ∙ append_assoc (sent s.client) (bytes msg) (written (p.before ++ p.last ∷ []));
    counted =
        omega (arith, p.counted, k, length-append (bytes msg) (written (p.before ++ p.last ∷ [])));
    none_before = (l, p.none_before);
    ends = p.ends;
    copies = p.copies;
  }

  after_reply-Forwards :
      (msg : PgPacket) (more : ℕ → Session P D → Response P D) (total : ℕ) (s : Session P D)
      (c : Conn) (out : ℕ × (Option Error × D))
      → arriving s.primary_in ≡ wire msg ++ arriving c
      → Replied (bytes msg) s.client out
      → ((t : ℕ) (d : D)
          → Forwards
              (record s { primary_in = c; client = d })
              t
              (more t (record s { primary_in = c; client = d })))
      → Forwards s total (after_reply peers msg more total (record s { primary_in = c }) out)
  unfolding after_reply
  after_reply-Forwards msg more total s c (n, (some e, d)) t r ih =
      ((λ h. r (some_inner h)), λ h. cc, (refl, refl, refl, refl, refl))
  after_reply-Forwards msg more total s c (n, (none, d)) t (e, k) ih =
      decide (is_ready msg) (is_copy msg) refl refl
    where
      q : Session P D
      q = record s { primary_in = c; client = d }

      same : Same s q
      same = (refl, refl, refl, refl, refl)

      decide :
          (b1 b2 : Bool)
          → is_ready msg ≡ b1
          → is_copy msg ≡ b2
          → Forwards s total (
              if b1
              then record { total = total + n; copy_mode = false; error = none; session = q }
              else if b2
              then record { total = total + n; copy_mode = true; error = none; session = q }
              else more (total + n) q)
      decide true b2 h m =
          ((λ x. cc), (λ _. only msg c total n false s d t e k (ground arith) (ground arith)), same)
      decide false true h m =
          ((λ x. cc), (λ _. only msg c total n true s d t e k (ground arith) (sym m)), same)
      decide false false h m =
          let (ended, passed, kept) = ih (total + n) d in
          (ended, (λ x. further msg c total n s d _ t e k (ground arith) (passed x)), kept)

  -- Of a client that takes whole messages, with more fuel than bytes arrive from the primary: the
  -- loop ends, and where it reports no error it took from the primary's stream messages of which
  -- only the last is a ReadyForQuery or begins a copy, wrote all of them to the client in order,
  -- as Bytes writes them (a message whose type byte is zero goes without it), counted their bytes, and reports a copy exactly if the last begins one. Whether it fails or
  -- not, the rest of the session is as it was.
  pub forward_response_until_ready-Forwards :
      ((bs : Bytes) (d : D) → Replied bs d (peers.reply bs d))
      → (fuel total : ℕ) (s : Session P D) → length (arriving s.primary_in) < fuel
      → Forwards s total (forward_response_until_ready peers fuel total s)
  unfolding forward_response_until_ready
  forward_response_until_ready-Forwards replies zero total s h = absurd (omega arith)
  forward_response_until_ready-Forwards replies (suc fuel) total s h =
      by_message (read_message s.primary_in) (read_message-Takes s.primary_in) (λ c t d k.
        forward_response_until_ready-Forwards replies fuel t
          (record s { primary_in = c; client = d }) k)
    where
      by_message :
          (out : Outcome Conn PgPacket)
          → TakesMessage s.primary_in out
          → ((c : Conn) (t : ℕ) (d : D)
              → length (arriving c) < fuel
              → Forwards
                  (record s { primary_in = c; client = d })
                  t
                  (forward_response_until_ready peers fuel t
                    (record s { primary_in = c; client = d })))
          → Forwards s total (elim out [
            | err e c ↦ record {
              total = total;
              copy_mode = false;
              error = some e;
              session = record s { primary_in = c };
            }
            | ok msg c ↦
                after_reply peers msg
                  (λ t s'. forward_response_until_ready peers fuel t s')
                  total
                  (record s { primary_in = c })
                  (peers.reply (bytes msg) s.client)
          ])
      by_message (err e c) k ih = ((λ h. k (some_inner h)), λ h. cc, (refl, refl, refl, refl, refl))
      by_message (ok msg c) t ih =
          after_reply-Forwards msg (λ t s'. forward_response_until_ready peers fuel t s') total s c
            (peers.reply (bytes msg) s.client) t (replies (bytes msg) s.client)
            (λ n d.
              ih c n d (
                omega (arith, ap length t, length-append (wire msg) (arriving c), length-wire msg)))
