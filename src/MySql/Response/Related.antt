-- ===== src/MySql/Response/Related.antt =====
-- Two sources that hand out the same packets give the same response.
use starrocks_shadow_proxy.MySql.Response.{
  Tally, next, read_columns, read_rows, read_result_set, read_body, full_loop, read_full_response,
  ends_rows, is_ok_packet,
}
use starrocks_shadow_proxy.MySql.Wire.{byte}
use starrocks_shadow_proxy.Prelude.{
  ℕ, zero, suc, ◌+◌, ◌≡◌, refl, ap, Bool, Bytes, length, ltb, ◌==◌, if◌then◌else◌, arith,
}
use starrocks_shadow_proxy.Prelude.Outcome.{Outcome, ok, err, M}
use starrocks_shadow_proxy.Prelude.Rules.{Sim, Sim-bind, Sim-if, Sim-if_at}

-- Related sources and equal counts.
abbrev pub Counted : {S T : Type 0} → (S → T → Type 0) → Tally S → Tally T → Type 0
Counted R a b = R a.source b.source × (a.total ≡ b.total)

module _ {S T : Type 0} (read_s : M S Bytes) (read_t : M T Bytes) (R F : S → T → Type 0)
    (related : (s : S) (t : T) → R s t → Sim R F (read_s s) (read_t t))
    (weaken : (s : S) (t : T) → R s t → F s t) where
  abbrev After : Tally S → Tally T → Type 0
  After = Counted R

  abbrev Failed : Tally S → Tally T → Type 0
  Failed = Counted F

  abbrev Same : {A : Type 0} → Outcome (Tally S) A → Outcome (Tally T) A → Type 0
  Same = Sim (Counted R) (Counted F)

  next-Same : (a : Tally S) (b : Tally T) → After a b → Same (next read_s a) (next read_t b)
  unfolding next
  next-Same a b (h, n) = answered (read_s a.source) (read_t b.source) (related a.source b.source h)
    where
      answered :
          (x : Outcome S Bytes) (y : Outcome T Bytes)
          → Sim R F x y
          → Same
              (elim x [
                | ok pkt s ↦ ok pkt (record { source = s; total = a.total + length pkt })
                | err e s ↦ err e (record { source = s; total = a.total })
              ])
              (elim y [
                | ok pkt s ↦ ok pkt (record { source = s; total = b.total + length pkt })
                | err e s ↦ err e (record { source = s; total = b.total })
              ])
      answered (ok p s) (ok q t) (e, r) = (e, (r, omega (arith, n, ap length e)))
      answered (err e s) (err f t) (e', r) = (e', (r, n))
      answered (ok p s) (err e t) r = absurd r
      answered (err e s) (ok p t) r = absurd r

  columns-Same :
      (k : ℕ) (a : Tally S) (b : Tally T)
      → After a b
      → Same (read_columns read_s k a) (read_columns read_t k b)
  unfolding read_columns
  columns-Same zero a b h = (refl, h)
  columns-Same (suc k) a b h =
      Sim-bind After Failed _ _ _ _ (next-Same a b h) (λ _ a' b' h'. columns-Same k a' b' h')

  rows-Same :
      (fuel : ℕ) (a : Tally S) (b : Tally T)
      → After a b
      → Same (read_rows read_s fuel a) (read_rows read_t fuel b)
  unfolding read_rows
  rows-Same zero a b (h, n) = (refl, (weaken _ _ h, n))
  rows-Same (suc fuel) a b h = Sim-bind After Failed _ _ _ _ (next-Same a b h) (λ pkt a' b' h'.
      Sim-if After Failed (ends_rows pkt) _ _ _ _ (refl, h') (rows-Same fuel a' b' h'))

  result_set-Same :
      (fuel : ℕ) (packet : Bytes) (a : Tally S) (b : Tally T)
      → After a b
      → Same (read_result_set read_s fuel packet a) (read_result_set read_t fuel packet b)
  unfolding read_result_set
  result_set-Same fuel packet a b h =
      Sim-bind After Failed _ _ _ _ (columns-Same _ a b h) (λ _ a1 b1 h1.
        Sim-bind After Failed _ _ _ _ (next-Same a1 b1 h1) (λ pkt a2 b2 h2.
          Sim-if_at After Failed (is_ok_packet pkt) _ _ _ _ a2 b2 (refl, h2)
            (rows-Same fuel a2 b2 h2)))

  body-Same :
      (fuel : ℕ) (packet : Bytes) (a : Tally S) (b : Tally T)
      → After a b
      → Same (read_body read_s fuel packet a) (read_body read_t fuel packet b)
  unfolding read_body
  body-Same fuel packet a b h =
      if_at (ltb (length packet) 5) _ _ _ _ (refl, (weaken _ _ h.0, h.1))
        (if_at (byte packet 4 == 0x00) _ _ _ _ (refl, h)
          (if_at (byte packet 4 == 0xff) _ _ _ _ (refl, h)
            (if_at (byte packet 4 == 0xfb) _ _ _ _ (refl, h)
              (if_at (byte packet 4 == 0xfe) _ _ _ _ (refl, h)
                (result_set-Same fuel packet a b h)))))
    where
      if_at :
          (c : Bool) (m m' : M (Tally S) Bool) (n n' : M (Tally T) Bool)
          → Same (m a) (n b)
          → Same (m' a) (n' b)
          → Same ((if c then m else m') a) ((if c then n else n') b)
      if_at c m m' n n' = Sim-if_at After Failed c m m' n n' a b

  loop-Same :
      (fuel : ℕ) (a : Tally S) (b : Tally T)
      → After a b
      → Same (full_loop read_s fuel a) (full_loop read_t fuel b)
  unfolding full_loop
  loop-Same zero a b (h, n) = (refl, (weaken _ _ h, n))
  loop-Same (suc fuel) a b h = Sim-bind After Failed _ _ _ _ (next-Same a b h) (λ packet a1 b1 h1.
      Sim-bind After Failed _ _ _ _ (body-Same fuel packet a1 b1 h1)
        (λ more a2 b2 h2. Sim-if After Failed more _ _ _ _ (loop-Same fuel a2 b2 h2) (refl, h2)))

  pub read_full_response-Same :
      (fuel : ℕ) (s : S) (t : T)
      → R s t
      → Sim
          (Counted R)
          (Counted F)
          (read_full_response read_s fuel s)
          (read_full_response read_t fuel t)
  unfolding read_full_response
  read_full_response-Same fuel s t h = loop-Same fuel _ _ (h, refl)
