-- ===== src/Net/Full.antt =====
-- `io.ReadFull` against what arrives.
use starrocks_shadow_proxy.Net.{Conn, segment, failure, read_full_from, read_full}
use starrocks_shadow_proxy.Net.Arrival.{arriving, stops}
use starrocks_shadow_proxy.Prelude.{
  ℕ, zero, suc, ◌+◌, ◌-◌, ◌<◌, ◌≡◌, ◌≢◌, refl, sym, ap, ◌∙◌, [], ◌∷◌, ◌++◌, append_assoc,
  append-nil, Bytes, length, take, drop, length-append, leb, leb→le, if◌then◌else◌, Bool-cases, inl,
  inr, arith, take-append-drop, length-take,
}
use starrocks_shadow_proxy.Prelude.Outcome.{out_of_fuel, Outcome, ok, err}
use starrocks_shadow_proxy.Prelude.Rules.{Post}

-- `n` bytes off the front of what arrives, behind what was read before; or fewer arrive.
abbrev pub Full : Bytes → ℕ → Conn → Outcome Conn Bytes → Type 0
Full got n c (ok bs c') =
    (tail : Bytes) × (bs ≡ got ++ tail)
    × (length tail ≡ n)
    × (tail ++ arriving c' ≡ arriving c)
    × (stops c' ≡ stops c)
Full got n c (err e c') = length (arriving c) < n

-- A segment that is used up stands before what follows it.
behind :
    (got s : Bytes) (n m : ℕ) (c : Conn) (out : Outcome Conn Bytes)
    → n ≡ length s + m
    → Full (got ++ s) m c out
    → Full got n (segment s ∷ c) out
behind got s n m c (ok bs c') e (tail, b, len, f, t) = (
  s ++ tail,
  b ∙ append_assoc got s tail,
  omega (arith, length-append s tail, len, e),
  append_assoc s tail (arriving c') ∙ ap (λ x. s ++ x) f,
  t,
)
behind got s n m c (err x c') e few = omega (arith, length-append s (arriving c), e)

read_full_from-Full : (got : Bytes) (n : ℕ) (c : Conn) → Full got n c (read_full_from got n c)
unfolding read_full_from
read_full_from-Full got zero c = ([], sym (append-nil got), refl, refl, refl)
read_full_from-Full got (suc n) [] = omega arith
read_full_from-Full got (suc n) (failure e ∷ c) = omega arith
read_full_from-Full got (suc n) (segment s ∷ c) =
    split (read_full_from-Full (got ++ s) (suc n - length s) c)
  where
    split :
        Full (got ++ s) (suc n - length s) c (read_full_from (got ++ s) (suc n - length s) c)
        → Full got (suc n) (segment s ∷ c) (read_full_from got (suc n) (segment s ∷ c))
    split rest = elim (Bool-cases (leb (suc n) (length s))) [
      | inl fits ↦
          rw (fits, read_full_from, if◌then◌else◌)
            (
              take (suc n) s,
              refl,
              omega (arith, length-take (suc n) s, leb→le _ _ fits),
              sym (append_assoc (take (suc n) s) (drop (suc n) s) (arriving c))
                  ∙ ap (λ x. x ++ arriving c) (take-append-drop (suc n) s),
              refl,
            )
      | inr more ↦
          rw (more, read_full_from, if◌then◌else◌)
            (behind got s (suc n) (suc n - length s) c _ (ground arith) rest)
    ]

-- `io.ReadFull` takes the next `n` bytes, however they are cut into segments; it fails only where
-- fewer arrive.
pub read_full-Full : (n : ℕ) (c : Conn) → Full [] n c (read_full n c)
unfolding read_full
read_full-Full n c = read_full_from-Full [] n c

-- The value is there, or the connection failed: the error is never one of the model's.
read_full_from-fuel :
    (got : Bytes) (n : ℕ) (c : Conn)
    → Post (λ _ _. Unit {0}) (λ e _. e ≢ out_of_fuel) (read_full_from got n c)
unfolding read_full_from
read_full_from-fuel got zero c = tt
read_full_from-fuel got (suc n) [] = λ h. cc
read_full_from-fuel got (suc n) (failure e ∷ c) = λ h. cc
read_full_from-fuel got (suc n) (segment s ∷ c) = elim (Bool-cases (leb (suc n) (length s))) [
  | inl there ↦ rw (there, if◌then◌else◌) tt
  | inr short ↦ rw (short, if◌then◌else◌) (read_full_from-fuel (got ++ s) (suc n - length s) c)
]

pub read_full-fuel :
    (n : ℕ) (c : Conn) → Post (λ _ _. Unit {0}) (λ e _. e ≢ out_of_fuel) (read_full n c)
unfolding read_full
read_full-fuel n c = read_full_from-fuel [] n c
