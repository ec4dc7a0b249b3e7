-- ===== src/Pg/Startup/Exchange.antt =====
-- What passes between client and primary in forwardAuthPhase.
use starrocks_shadow_proxy.Net.Arrival.{arriving}
use starrocks_shadow_proxy.Pg.Protocol.{PgPacket, bytes, be32}
use starrocks_shadow_proxy.Pg.Protocol.Messages.{wire, wires, written}
use starrocks_shadow_proxy.Pg.Startup.{Link, expects_none}
use starrocks_shadow_proxy.Prelude.{
  ℕ, suc, ◌+◌, ◌≡◌, ◌≢◌, ◌⊎◌, inl, inr, refl, sym, ap, ◌∙◌, Bool, true, not, ◌&&◌, Bytes, List, [],
  ◌∷◌, ◌++◌, append_assoc, append-nil, map, length, length-append, All, ltb, ◌==◌, if◌then◌else◌,
}
use starrocks_shadow_proxy.Prelude.Outcome.{out_of_fuel, authentication_failed, Outcome, ok, err}

-- An AuthenticationRequest that the client answers, and how many of them there are.
abbrev pub is_challenge : PgPacket → Bool
is_challenge msg =
    msg.type_byte == b'R'
    && (not (ltb (length msg.payload) 8) && not (expects_none (be32 msg.payload 4)))

abbrev pub challenges : List PgPacket → ℕ
challenges [] = 0
challenges (m ∷ ms) = (if is_challenge m then 1 else 0) + challenges ms

-- A message that leaves the login going on.
abbrev pub is_inner : PgPacket → Bool
is_inner msg = not (msg.type_byte == b'Z') && not (msg.type_byte == b'E')

module _ {P D : Type 0} (sent : P → List Bytes) (got : D → Bytes) where
  -- From `l` to `q` the primary's messages `ms` went to the client, and an answer of the client to
  -- the primary for each of the challenges among them.
  pub record Exchange (l : Link P D) (ms : List PgPacket) (q : Link P D) : Type 0 where
    pub answers : List PgPacket
    pub heard : arriving l.primary_in ≡ wires ms ++ arriving q.primary_in
    pub passed : got q.client_out ≡ got l.client_out ++ written ms
    pub read : arriving l.client_in ≡ wires answers ++ arriving q.client_in
    pub answered : sent q.primary_out ≡ sent l.primary_out ++ map bytes answers
    pub counted : length answers ≡ challenges ms

  -- The login ended with a ReadyForQuery, the first.
  pub record LoggedIn (l q : Link P D) : Type 0 where
    pub before : List PgPacket
    pub last : PgPacket
    pub exchange : Exchange l (before ++ last ∷ []) q
    pub inner : All (λ m. is_inner m ≡ true) before
    pub ready : last.type_byte ≡ b'Z'
    pub unrefused : q.auth_failures ≡ l.auth_failures

  -- It ended with an ErrorResponse, which the client has got.
  pub record Refused (l q : Link P D) : Type 0 where
    pub before : List PgPacket
    pub last : PgPacket
    pub exchange : Exchange l (before ++ last ∷ []) q
    pub inner : All (λ m. is_inner m ≡ true) before
    pub refuses : last.type_byte ≡ b'E'
    pub counted_once : q.auth_failures ≡ suc l.auth_failures

  abbrev pub LogsIn : Link P D → Outcome (Link P D) (Unit {0}) → Type 0
  LogsIn l (ok _ q) = LoggedIn l q
  LogsIn l (err e q) =
      (e ≢ out_of_fuel)
      × (((e ≡ authentication_failed) × Refused l q)
          ⊎ ((e ≢ authentication_failed) × (q.auth_failures ≡ l.auth_failures)))

  -- One message of the primary's, and what the client answers.
  pub record Relays (l : Link P D) (m : PgPacket) (q : Link P D) : Type 0 where
    pub answers : List PgPacket
    pub heard : arriving l.primary_in ≡ wire m ++ arriving q.primary_in
    pub passed : got q.client_out ≡ got l.client_out ++ bytes m
    pub read : arriving l.client_in ≡ wires answers ++ arriving q.client_in
    pub answered : sent q.primary_out ≡ sent l.primary_out ++ map bytes answers
    pub counted : length answers ≡ (if is_challenge m then 1 else 0)
    pub unrefused : q.auth_failures ≡ l.auth_failures

  wires-append : (xs ys : List PgPacket) → wires (xs ++ ys) ≡ wires xs ++ wires ys
  unfolding wires
  wires-append [] ys = refl
  wires-append (x ∷ xs) ys =
      ap (λ z. wire x ++ z) (wires-append xs ys) ∙ sym (append_assoc (wire x) (wires xs) (wires ys))

  map-append : (xs ys : List PgPacket) → map bytes (xs ++ ys) ≡ map bytes xs ++ map bytes ys
  map-append [] ys = refl
  map-append (x ∷ xs) ys = ap (λ z. bytes x ∷ z) (map-append xs ys)

  pub Relays-Exchange :
      (l q r : Link P D) (m : PgPacket) (ms : List PgPacket)
      → Relays l m q
      → Exchange q ms r
      → Exchange l (m ∷ ms) r
  unfolding wires written
  Relays-Exchange l q r m ms s e = record {
    answers = s.answers ++ e.answers;
    heard =
        s.heard
        ∙ ap (λ z. wire m ++ z) e.heard
        ∙ sym (append_assoc (wire m) (wires ms) (arriving r.primary_in));
    passed =
        e.passed
        ∙ ap (λ z. z ++ written ms) s.passed
        ∙ append_assoc (got l.client_out) (bytes m) (written ms);
    read =
        s.read
        ∙ ap (λ z. wires s.answers ++ z) e.read
        ∙ sym (append_assoc (wires s.answers) (wires e.answers) (arriving r.client_in))
        ∙ ap (λ z. z ++ arriving r.client_in) (sym (wires-append s.answers e.answers));
    answered =
        e.answered
        ∙ ap (λ z. z ++ map bytes e.answers) s.answered
        ∙ append_assoc (sent l.primary_out) (map bytes s.answers) (map bytes e.answers)
        ∙ ap (λ z. sent l.primary_out ++ z) (sym (map-append s.answers e.answers));
    counted =
        length-append s.answers e.answers
        ∙ ap (λ z. z + length e.answers) s.counted
        ∙ ap (λ z. (if is_challenge m then 1 else 0) + z) e.counted;
  }

  pub Relays-last : (l q : Link P D) (m : PgPacket) → Relays l m q → Exchange l (m ∷ []) q
  unfolding wires written
  Relays-last l q m s = Relays-Exchange l q q m [] s (record {
    answers = [];
    heard = refl;
    passed = sym (append-nil (got q.client_out));
    read = refl;
    answered = sym (append-nil (sent q.primary_out));
    counted = refl;
  })

  -- The counters are no part of an exchange.
  pub counting :
      (l q : Link P D) (ms : List PgPacket) (n : ℕ)
      → Exchange l ms q
      → Exchange l ms (record q { auth_failures = n })
  counting l q ms n e = record {
    answers = e.answers;
    heard = e.heard;
    passed = e.passed;
    read = e.read;
    answered = e.answered;
    counted = e.counted;
  }

  pub Relays-LogsIn :
      (l q : Link P D) (m : PgPacket) (out : Outcome (Link P D) (Unit {0}))
      → is_inner m ≡ true
      → Relays l m q
      → LogsIn q out
      → LogsIn l out
  Relays-LogsIn l q m (ok u r) is s k = record {
    before = m ∷ k.before;
    last = k.last;
    exchange = Relays-Exchange l q r m (k.before ++ k.last ∷ []) s k.exchange;
    inner = (is, k.inner);
    ready = k.ready;
    unrefused = k.unrefused ∙ s.unrefused;
  }
  Relays-LogsIn l q m (err e r) is s (n, inr (other, k)) = (n, inr (other, k ∙ s.unrefused))
  Relays-LogsIn l q m (err e r) is s (n, inl (f, k)) = (
    n,
    inl (
      f,
      record {
        before = m ∷ k.before;
        last = k.last;
        exchange = Relays-Exchange l q r m (k.before ++ k.last ∷ []) s k.exchange;
        inner = (is, k.inner);
        refuses = k.refuses;
        counted_once = k.counted_once ∙ ap suc s.unrefused;
      },
    ),
  )
