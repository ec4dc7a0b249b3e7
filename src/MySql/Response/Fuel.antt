-- ===== src/MySql/Response/Fuel.antt =====
-- Reading a response ends: each packet shortens what the source still holds.
use starrocks_shadow_proxy.MySql.Response.{
  Tally, next, read_columns, read_rows, read_result_set, read_body, full_loop, read_full_response,
  ends_rows, is_ok_packet,
}
use starrocks_shadow_proxy.MySql.Wire.{byte}
use starrocks_shadow_proxy.Prelude.{
  ℕ, zero, suc, ◌+◌, ◌≤◌, ◌<◌, ◌≢◌, Bool, true, false, Bytes, length, ltb, ◌==◌, if◌then◌else◌,
  arith,
}
use starrocks_shadow_proxy.Prelude.Outcome.{Outcome, ok, err, out_of_fuel, M, continue_with}
use starrocks_shadow_proxy.Prelude.Rules.{Post}

-- Every ending is the code's own, and the source that a value leaves is well formed and holds
-- less than `n`.
abbrev pub EndsBelow : {S A : Type 0} → (S → Type 0) → (S → ℕ) → ℕ → Outcome (Tally S) A → Type 0
EndsBelow V measure n (ok a t) = V t.source × (measure t.source < n)
EndsBelow V measure n (err e t) = e ≢ out_of_fuel

module _ {S : Type 0} (read_packet : M S Bytes) (V : S → Type 0) (measure : S → ℕ)
    (shrinks : (s : S)
      → V s
      → Post
          (λ _ s'. V s' × (measure s' < measure s))
          (λ e _. e ≢ out_of_fuel)
          (read_packet s)) where
  abbrev Ends : {A : Type 0} → ℕ → Outcome (Tally S) A → Type 0
  Ends n out = EndsBelow V measure n out

  Ends-mono : {A : Type 0} (m n : ℕ) (out : Outcome (Tally S) A) → m ≤ n → Ends m out → Ends n out
  Ends-mono m n (ok a t) h (v, b) = (v, omega arith)
  Ends-mono m n (err e t) h b = b

  Ends-bind :
      {A B : Type 0} (m n : ℕ) (x : Outcome (Tally S) A) (f : A → Tally S → Outcome (Tally S) B)
      → Ends m x
      → ((a : A) (t : Tally S) → V t.source → measure t.source < m → Ends n (f a t))
      → Ends n (continue_with x f)
  Ends-bind m n (ok a t) f (v, b) k = k a t v b
  Ends-bind m n (err e t) f h k = h

  Ends-if_at :
      {A : Type 0} (n : ℕ) (b : Bool) (k l : M (Tally S) A) (t : Tally S)
      → Ends n (k t)
      → Ends n (l t)
      → Ends n ((if b then k else l) t)
  Ends-if_at n true k l t h h' = h
  Ends-if_at n false k l t h h' = h'

  Ends-if :
      {A : Type 0} (n : ℕ) (b : Bool) (x y : Outcome (Tally S) A)
      → Ends n x
      → Ends n y
      → Ends n (if b then x else y)
  Ends-if n true x y h h' = h
  Ends-if n false x y h h' = h'

  next-Ends :
      (t : Tally S) (n : ℕ) → V t.source → measure t.source ≤ n → Ends n (next read_packet t)
  unfolding next
  next-Ends t n v h = taken (read_packet t.source) (shrinks t.source v)
    where
      taken :
          (out : Outcome S Bytes)
          → Post (λ _ s'. V s' × (measure s' < measure t.source)) (λ e _. e ≢ out_of_fuel) out
          → Ends n (elim out [
            | ok pkt s ↦ ok pkt (record { source = s; total = t.total + length pkt })
            | err e s ↦ err e (record { source = s; total = t.total })
          ])
      taken (ok pkt s) (v', less) = (v', omega arith)
      taken (err e s) ne = ne

  columns-Ends :
      (k n : ℕ) (t : Tally S)
      → V t.source
      → measure t.source < n
      → Ends n (read_columns read_packet k t)
  unfolding read_columns
  columns-Ends zero n t v h = (v, h)
  columns-Ends (suc k) n t v h =
      Ends-bind n n _ _ (next-Ends t n v (omega arith)) (λ _ t' v' h'. columns-Ends k n t' v' h')

  rows-Ends :
      (fuel : ℕ) (t : Tally S)
      → V t.source
      → measure t.source < fuel
      → Ends fuel (read_rows read_packet fuel t)
  unfolding read_rows
  rows-Ends zero t v h = absurd (omega arith)
  rows-Ends (suc fuel) t v h =
      Ends-bind fuel (suc fuel) _ _ (next-Ends t fuel v (omega arith)) (λ pkt t' v' h'.
        Ends-if (suc fuel) (ends_rows pkt) _ _ (v', omega arith)
          (Ends-mono fuel (suc fuel) _ (omega arith) (rows-Ends fuel t' v' h')))

  result_set-Ends :
      (fuel : ℕ) (packet : Bytes) (t : Tally S)
      → V t.source
      → measure t.source < fuel
      → Ends fuel (read_result_set read_packet fuel packet t)
  unfolding read_result_set
  result_set-Ends fuel packet t v h =
      Ends-bind fuel fuel _ _ (columns-Ends _ fuel t v h) (λ _ t1 v1 h1.
        Ends-bind fuel fuel _ _ (next-Ends t1 fuel v1 (omega arith)) (λ pkt t2 v2 h2.
          Ends-if_at fuel (is_ok_packet pkt) _ _ t2 (v2, h2) (rows-Ends fuel t2 v2 h2)))

  body-Ends :
      (fuel : ℕ) (packet : Bytes) (t : Tally S)
      → V t.source
      → measure t.source < fuel
      → Ends fuel (read_body read_packet fuel packet t)
  unfolding read_body
  body-Ends fuel packet t v h =
      Ends-if_at fuel (ltb (length packet) 5) _ _ t (λ e. cc)
        (Ends-if_at fuel (byte packet 4 == 0x00) _ _ t (v, h)
          (Ends-if_at fuel (byte packet 4 == 0xff) _ _ t (v, h)
            (Ends-if_at fuel (byte packet 4 == 0xfb) _ _ t (v, h)
              (Ends-if_at fuel (byte packet 4 == 0xfe) _ _ t (v, h)
                (result_set-Ends fuel packet t v h)))))

  pub loop-Ends :
      (fuel : ℕ) (t : Tally S)
      → V t.source
      → measure t.source < fuel
      → Ends fuel (full_loop read_packet fuel t)
  unfolding full_loop
  loop-Ends zero t v h = absurd (omega arith)
  loop-Ends (suc fuel) t v h =
      Ends-bind fuel (suc fuel) _ _ (next-Ends t fuel v (omega arith)) (λ packet t1 v1 h1.
        Ends-bind fuel (suc fuel) _ _ (body-Ends fuel packet t1 v1 h1) (λ more t2 v2 h2.
          Ends-if (suc fuel) more _ _
            (Ends-mono fuel (suc fuel) _ (omega arith) (loop-Ends fuel t2 v2 h2))
            (v2, omega arith)))

  -- `ReadFullResponse` ends by itself on fuel above the measure of the source.
  pub read_full_response-ends :
      (fuel : ℕ) (s : S)
      → V s
      → measure s < fuel
      → EndsBelow V measure fuel (read_full_response read_packet fuel s)
  unfolding read_full_response
  read_full_response-ends fuel s v h = loop-Ends fuel _ v h
