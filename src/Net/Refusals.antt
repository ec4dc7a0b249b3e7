-- ===== src/Net/Refusals.antt =====
-- Reading from a connection never fails with a refused authentication.
use starrocks_shadow_proxy.Net.{Conn, segment, failure, read_full_from, read_full}
use starrocks_shadow_proxy.Prelude.{
  ℕ, zero, suc, ◌-◌, ◌≢◌, [], ◌∷◌, ◌++◌, Bytes, length, leb, if◌then◌else◌, Bool-cases, inl, inr,
}
use starrocks_shadow_proxy.Prelude.Outcome.{authentication_failed, Outcome}
use starrocks_shadow_proxy.Prelude.Rules.{Post}

-- A call that does not fail the way a refused login does.
abbrev pub NoRefusal : {S A : Type 0} → Outcome S A → Type 0
NoRefusal = Post (λ _ _. Unit {0}) (λ e _. e ≢ authentication_failed)

read_full_from-NoRefusal : (got : Bytes) (n : ℕ) (c : Conn) → NoRefusal (read_full_from got n c)
unfolding read_full_from
read_full_from-NoRefusal got zero c = tt
read_full_from-NoRefusal got (suc n) [] = λ h. cc
read_full_from-NoRefusal got (suc n) (failure e ∷ c) = λ h. cc
read_full_from-NoRefusal got (suc n) (segment s ∷ c) = elim (Bool-cases (leb (suc n) (length s))) [
  | inl there ↦ rw (there, if◌then◌else◌) tt
  | inr short ↦ rw (short, if◌then◌else◌) (read_full_from-NoRefusal (got ++ s) (suc n - length s) c)
]

pub read_full-NoRefusal : (n : ℕ) (c : Conn) → NoRefusal (read_full n c)
unfolding read_full
read_full-NoRefusal n c = read_full_from-NoRefusal [] n c
