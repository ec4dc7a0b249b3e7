-- ===== src/Filter/Statements/Join.antt =====
-- splitStatements takes apart what was joined by semicolons, whatever stands inside quotes.
use starrocks_shadow_proxy.Filter.Statements.{Scan, fresh, flush, scan_byte, scan, split_statements}
use starrocks_shadow_proxy.Prelude.{
  ℕ, Bool, true, false, ◌||◌, List, [], ◌∷◌, ◌++◌, append_assoc, append-nil, Bytes, ◌==◌,
  if◌then◌else◌, ◌≡◌, ◌≢◌, refl, sym, ap, ◌∙◌, arith, Bool-cases, inl, inr, All,
}
use starrocks_shadow_proxy.Prelude.Text.{trim_space, is_empty}

abbrev pub is_quote : ℕ → Bool
is_quote q = q == b'\'' || (q == b'"' || q == b'`')

-- What may stand between two quotes `q`: any byte but `q`, or any byte behind a backslash.
pub data Quoted (q : ℕ) : Bytes → Type 0 where
  nil : Quoted q []
  char : (c : ℕ) (cs : Bytes) → c ≢ q → c ≢ b'\\' → Quoted q cs → Quoted q (c ∷ cs)
  escape : (c : ℕ) (cs : Bytes) → Quoted q cs → Quoted q (b'\\' ∷ c ∷ cs)

-- SQL text with no semicolon outside quotes, every quote of which is closed.
pub data IsStatement : Bytes → Type 0 where
  nil : IsStatement []
  char :
      (c : ℕ) (cs : Bytes)
      → is_quote c ≡ false
      → c ≢ b'\\'
      → c ≢ b';'
      → IsStatement cs
      → IsStatement (c ∷ cs)
  escape : (c : ℕ) (cs : Bytes) → IsStatement cs → IsStatement (b'\\' ∷ c ∷ cs)
  quote :
      (q : ℕ) (body cs whole : Bytes)
      → is_quote q ≡ true
      → Quoted q body
      → IsStatement cs
      → whole ≡ q ∷ (body ++ q ∷ cs)
      → IsStatement whole

abbrev between : List Bytes → Bytes → Scan
between done cur = record fresh { statements = done; current = cur }

-- Inside a quote `q`.
abbrev inside : ℕ → List Bytes → Bytes → Scan
inside q done cur = record {
  statements = done;
  current = cur;
  in_single = q == b'\'';
  in_double = q == b'"';
  in_backtick = q == b'`';
  escaped = false;
}

scan-append : (s : Scan) (a b : Bytes) → scan s (a ++ b) ≡ scan (scan s a) b
unfolding scan
scan-append s [] b = refl
scan-append s (c ∷ a) b = scan-append (scan_byte s c) a b

opens :
    (q : ℕ) (done : List Bytes) (cur : Bytes)
    → is_quote q ≡ true
    → scan_byte (between done cur) q ≡ inside q done (cur ++ q ∷ [])
unfolding scan_byte
opens q done cur h = ground arith

closes :
    (q : ℕ) (done : List Bytes) (cur : Bytes)
    → is_quote q ≡ true
    → scan_byte (inside q done cur) q ≡ between done (cur ++ q ∷ [])
unfolding scan_byte
closes q done cur h = ground arith

stays :
    (q c : ℕ) (done : List Bytes) (cur : Bytes)
    → is_quote q ≡ true
    → c ≢ q
    → c ≢ b'\\'
    → scan_byte (inside q done cur) c ≡ inside q done (cur ++ c ∷ [])
unfolding scan_byte
stays q c done cur h n m = ground arith

escapes :
    (s : Scan) (c : ℕ)
    → s.escaped ≡ false
    → scan_byte (scan_byte s b'\\') c ≡ record s { current = s.current ++ b'\\' ∷ c ∷ [] }
unfolding scan_byte
escapes s c h =
    rw h
      (λ i. record s { current = append_assoc s.current (b'\\' ∷ []) (c ∷ []) i; escaped = false })

passes :
    (c : ℕ) (done : List Bytes) (cur : Bytes)
    → is_quote c ≡ false
    → c ≢ b'\\'
    → c ≢ b';'
    → scan_byte (between done cur) c ≡ between done (cur ++ c ∷ [])
unfolding scan_byte
passes c done cur h n m = ground arith

scan-Quoted :
    (q : ℕ) {body : Bytes} (done : List Bytes) (cur : Bytes)
    → is_quote q ≡ true
    → Quoted q body
    → scan (inside q done cur) body ≡ inside q done (cur ++ body)
unfolding scan
scan-Quoted q done cur h nil = ap (inside q done) (sym (append-nil cur))
scan-Quoted q done cur h (char c cs n m rest) =
    ap (λ s. scan s cs) (stays q c done cur h n m)
    ∙ scan-Quoted q done (cur ++ c ∷ []) h rest
    ∙ ap (inside q done) (append_assoc cur (c ∷ []) cs)
scan-Quoted q done cur h (escape c cs rest) =
    ap (λ s. scan s cs) (escapes (inside q done cur) c refl)
    ∙ scan-Quoted q done (cur ++ b'\\' ∷ c ∷ []) h rest
    ∙ ap (inside q done) (append_assoc cur (b'\\' ∷ c ∷ []) cs)

scan-IsStatement :
    {st : Bytes} (done : List Bytes) (cur : Bytes)
    → IsStatement st
    → scan (between done cur) st ≡ between done (cur ++ st)
unfolding scan
scan-IsStatement done cur nil = ap (between done) (sym (append-nil cur))
scan-IsStatement done cur (char c cs h n m rest) =
    ap (λ s. scan s cs) (passes c done cur h n m)
    ∙ scan-IsStatement done (cur ++ c ∷ []) rest
    ∙ ap (between done) (append_assoc cur (c ∷ []) cs)
scan-IsStatement done cur (escape c cs rest) =
    ap (λ s. scan s cs) (escapes (between done cur) c refl)
    ∙ scan-IsStatement done (cur ++ b'\\' ∷ c ∷ []) rest
    ∙ ap (between done) (append_assoc cur (b'\\' ∷ c ∷ []) cs)
scan-IsStatement done cur (quote q body cs whole h inner rest e) =
    let open_q : Bytes = cur ++ q ∷ [] in
    ap (scan (between done cur)) e
    ∙ ap (λ s. scan s (body ++ q ∷ cs)) (opens q done cur h)
    ∙ scan-append (inside q done open_q) body (q ∷ cs)
    ∙ ap (λ s. scan s (q ∷ cs)) (scan-Quoted q done open_q h inner)
    ∙ ap (λ s. scan s cs) (closes q done (open_q ++ body) h)
    ∙ scan-IsStatement done ((open_q ++ body) ++ q ∷ []) rest
    ∙ ap (between done) (simp append_assoc (rw e))

-- The statements followed by a semicolon each, and what follows the last semicolon.
abbrev pub joined : List Bytes → Bytes → Bytes
joined [] last = last
joined (s ∷ ss) last = s ++ (b';' ∷ joined ss last)

-- The statements with the space round them trimmed, the empty ones left out.
abbrev pub kept : List Bytes → List Bytes
kept [] = []
kept (s ∷ ss) = let rest = kept ss in if is_empty (trim_space s) then rest else trim_space s ∷ rest

flush-append : (done : List Bytes) (cur : Bytes) → flush done cur ≡ done ++ flush [] cur
unfolding flush
flush-append done cur = elim (Bool-cases (is_empty (trim_space cur))) [
  | inl blank ↦ rw blank (sym (append-nil done))
  | inr full ↦ rw full
]

flush-kept : (s : Bytes) (ss : List Bytes) → flush [] s ++ kept ss ≡ kept (s ∷ ss)
unfolding flush
flush-kept s ss = elim (Bool-cases (is_empty (trim_space s))) [
  | inl blank ↦ rw blank refl
  | inr full ↦ rw full refl
]

cuts :
    (done : List Bytes) (cur : Bytes)
    → scan_byte (between done cur) b';' ≡ between (flush done cur) []
unfolding scan_byte
cuts done cur = refl

after_first :
    (s : Bytes) (ss : List Bytes) (last : Bytes) (done : List Bytes)
    → IsStatement s
    → scan (between done []) (s ++ (b';' ∷ joined ss last))
      ≡ scan (between (flush done s) []) (joined ss last)
unfolding scan
after_first s ss last done h =
    scan-append (between done []) s (b';' ∷ joined ss last)
    ∙ ap (λ t. scan t (b';' ∷ joined ss last)) (scan-IsStatement done [] h)
    ∙ ap (λ t. scan t (joined ss last)) (cuts done s)

scan-joined :
    (ss : List Bytes) (last : Bytes) (done : List Bytes)
    → All IsStatement ss
    → IsStatement last
    → flush
        (scan (between done []) (joined ss last)).statements
        (scan (between done []) (joined ss last)).current
      ≡ done ++ kept (ss ++ last ∷ [])
scan-joined [] last done hs h = rw (scan-IsStatement done [] h) (
    flush-append done last
    ∙ ap (λ z. done ++ z) (sym (append-nil (flush [] last)) ∙ flush-kept last []))
scan-joined (s ∷ ss) last done (h1, hs) h =
    ap (λ t. flush t.statements t.current) (after_first s ss last done h1)
    ∙ scan-joined ss last (flush done s) hs h
    ∙ ap (λ d. d ++ kept (ss ++ last ∷ [])) (flush-append done s)
    ∙ append_assoc done (flush [] s) (kept (ss ++ last ∷ []))
    ∙ ap (λ z. done ++ z) (flush-kept s (ss ++ last ∷ []))

-- `splitStatements` on statements joined by semicolons gives them back, trimmed, without those
-- that are blank: a semicolon inside single quotes, double quotes or backticks, or behind a
-- backslash, does not cut, and neither does a quote of another kind or an escaped quote end one.
pub split_statements-joined :
    (ss : List Bytes) (last : Bytes)
    → All IsStatement ss
    → IsStatement last
    → split_statements (joined ss last) ≡ kept (ss ++ last ∷ [])
unfolding split_statements
split_statements-joined ss last hs h = scan-joined ss last [] hs h
