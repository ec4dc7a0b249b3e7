-- ===== src/Prelude/Outcome.antt =====
-- A call that returns a value or an error, and in either case the state that it leaves.
-- `out_of_fuel` is no Go value: it marks a loop that a model's fuel cut short.
use Prim.Native.Nat.{ℕ}

-- What a Read of a connection fails with.
pub data NetError : Type 0 where
  eof unexpected_eof timeout reset : NetError

pub data Error : Type 0 where
  net : NetError → Error
  packet_too_short : ℕ → Error
  forward_failed : Error
  authentication_failed : Error
  invalid_length : ℕ → Error
  malformed : Error
  panicked : Error
  tls_refused : ℕ → Error
  out_of_fuel : Error

pub data Outcome {ℓ κ} (S : Type ℓ) (A : Type κ) : Type (ℓ ⊔ κ) where
  ok : A → S → Outcome S A
  err : Error → S → Outcome S A

-- Go code that threads one state.
abbrev pub M {ℓ κ} : Type ℓ → Type κ → Type (ℓ ⊔ κ)
M S A = S → Outcome S A

abbrev pub continue_with {ℓ κ μ} :
    {S : Type ℓ} {A : Type κ} {B : Type μ} → Outcome S A → (A → M S B) → Outcome S B
continue_with (ok a s) f = f a s
continue_with (err e s) f = err e s

infixl 5 ◌>>=◌ ◌>>◌
abbrev pub ◌>>=◌ {ℓ κ μ} : {S : Type ℓ} {A : Type κ} {B : Type μ} → M S A → (A → M S B) → M S B
◌>>=◌ m f s = continue_with (m s) f

abbrev pub ◌>>◌ {ℓ μ} : {S : Type ℓ} {B : Type μ} → M S (Unit {0}) → M S B → M S B
◌>>◌ m k s = continue_with (m s) (λ _. k)

abbrev pub pure {ℓ κ} : {S : Type ℓ} {A : Type κ} → A → M S A
pure a s = ok a s

abbrev pub fail {ℓ κ} : {S : Type ℓ} {A : Type κ} → Error → M S A
fail e s = err e s

abbrev pub state {ℓ κ} : {S : Type ℓ} {A : Type κ} → Outcome S A → S
state (ok a s) = s
state (err e s) = s
