-- ===== src/Prelude/Rules.antt =====
-- Reasoning about code in the outcome monad: a postcondition, and a simulation between two states,
-- each with its rule for a bind.
use starrocks_shadow_proxy.Prelude.Outcome.{Error, Outcome, ok, err, M, continue_with}
use mathlib.Core.Path.{◌≡◌, subst}
use starrocks_shadow_proxy.Prelude.Tests.{if◌then◌else◌}
use mathlib.Core.Bool.{Bool, true, false}

-- `P` of a returned value and its state, `E` of an error and its state.
abbrev pub Post {ℓ κ μ} :
    {S : Type ℓ} {A : Type κ} → (A → S → Type μ) → (Error → S → Type μ) → Outcome S A → Type μ
Post P E (ok a s) = P a s
Post P E (err e s) = E e s

module _ {ℓ κ ν μ} {S : Type ℓ} {A : Type κ} {B : Type ν} where
  pub Post-bind :
      (P : A → S → Type μ) (Q : B → S → Type μ) (E : Error → S → Type μ) (x : Outcome S A)
      (f : A → S → Outcome S B)
      → Post P E x
      → ((a : A) (s : S) → P a s → Post Q E (f a s))
      → Post Q E (continue_with x f)
  Post-bind P Q E (ok a s) f h k = k a s h
  Post-bind P Q E (err e s) f h k = h

module _ {ℓ κ μ} {S : Type ℓ} {A : Type κ} where
  pub Post-mono :
      (P Q : A → S → Type μ) (E F : Error → S → Type μ) (x : Outcome S A)
      → ((a : A) (s : S) → P a s → Q a s)
      → ((e : Error) (s : S) → E e s → F e s)
      → Post P E x
      → Post Q F x
  Post-mono P Q E F (ok a s) p q h = p a s h
  Post-mono P Q E F (err e s) p q h = q e s h

-- The same answer in related states: `R` after a value, `F` after an error.
abbrev pub Sim :
    {S T A : Type 0} → (S → T → Type 0) → (S → T → Type 0) → Outcome S A → Outcome T A → Type 0
Sim R F (ok a s) (ok b t) = (a ≡ b) × R s t
Sim R F (err e s) (err f t) = (e ≡ f) × F s t
Sim R F (ok _ _) (err _ _) = ⊥
Sim R F (err _ _) (ok _ _) = ⊥

module _ {S T A B : Type 0} (R F : S → T → Type 0) where
  pub Sim-bind :
      (x : Outcome S A) (y : Outcome T A) (f : A → S → Outcome S B) (g : A → T → Outcome T B)
      → Sim R F x y
      → ((a : A) (s : S) (t : T) → R s t → Sim R F (f a s) (g a t))
      → Sim R F (continue_with x f) (continue_with y g)
  Sim-bind (ok a s) (ok b t) f g (e, h) k = subst (λ c. Sim R F (f a s) (g c t)) e (k a s t h)
  Sim-bind (err e s) (err e' t) f g h k = h
  Sim-bind (ok a s) (err e t) f g h k = absurd h
  Sim-bind (err e s) (ok b t) f g h k = absurd h

module _ {S T A : Type 0} (R F : S → T → Type 0) where
  -- Both sides branch on one test.
  pub Sim-if :
      (b : Bool) (x x' : Outcome S A) (y y' : Outcome T A)
      → Sim R F x y
      → Sim R F x' y'
      → Sim R F (if b then x else x') (if b then y else y')
  Sim-if true x x' y y' h h' = h
  Sim-if false x x' y y' h h' = h'

  pub Sim-if_at :
      (b : Bool) (m m' : M S A) (n n' : M T A) (s : S) (t : T)
      → Sim R F (m s) (n t)
      → Sim R F (m' s) (n' t)
      → Sim R F ((if b then m else m') s) ((if b then n else n') t)
  Sim-if_at true m m' n n' s t h h' = h
  Sim-if_at false m m' n n' s t h h' = h'

module _ {ℓ κ μ} {S : Type ℓ} {A : Type κ} where
  pub Post-if :
      (P : A → S → Type μ) (E : Error → S → Type μ) (b : Bool) (x y : Outcome S A)
      → Post P E x
      → Post P E y
      → Post P E (if b then x else y)
  Post-if P E true x y h k = h
  Post-if P E false x y h k = k

  pub Post-if_at :
      (P : A → S → Type μ) (E : Error → S → Type μ) (b : Bool) (m n : M S A) (s : S)
      → Post P E (m s)
      → Post P E (n s)
      → Post P E ((if b then m else n) s)
  Post-if_at P E true m n s h k = h
  Post-if_at P E false m n s h k = k
