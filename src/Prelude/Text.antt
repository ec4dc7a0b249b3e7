-- ===== src/Prelude/Text.antt =====
-- Go strings as lists of bytes, and what the code uses of package strings. A text is taken to be
-- ASCII where letters are folded or spaces trimmed: there Go works on bytes as these functions do.
use Prim.Native.Char.{code}
use Prim.Native.String.{String}
use starrocks_shadow_proxy.Prelude.Lists.{length}
use starrocks_shadow_proxy.Prelude.Tests.{leb, ◌==◌, if◌then◌else◌, Bool-cases, Option-cases}
use Prim.Native.Nat.{ℕ, suc, ◌+◌, ◌-◌, ◌≤◌}
use mathlib.Core.Bool.{Bool, true, false, ◌&&◌, ◌||◌}
use mathlib.Core.List.{List, [], ◌∷◌, map}
use mathlib.Core.Logic.{◌↔◌, inl, inr}
use mathlib.Core.Option.{Option, none, some}
use mathlib.Core.Path.{◌≡◌}
use native.Mathlib.Omega.{arith}

-- The bytes of an ASCII literal.
abbrev pub codes : String → List ℕ
codes String.[] = []
codes (String.◌∷◌ c s) = code c ∷ codes s

unfoldable pub bytes_eq : List ℕ → List ℕ → Bool
bytes_eq [] [] = true
bytes_eq (x ∷ xs) (y ∷ ys) = x == y && bytes_eq xs ys
bytes_eq _ _ = false

pub bytes_eq_iff : (a b : List ℕ) → (bytes_eq a b ≡ true) ↔ (a ≡ b)
unfolding bytes_eq
bytes_eq_iff (x ∷ a) (y ∷ b) = ground (arith, bytes_eq_iff a b)
bytes_eq_iff _ _ = ground arith

-- Membership in a set of strings, kept as a list.
unfoldable pub contains : List (List ℕ) → List ℕ → Bool
contains [] a = false
contains (x ∷ xs) a = bytes_eq x a || contains xs a

unfoldable pub to_upper : List ℕ → List ℕ
to_upper = map (λ c. if leb b'a' c && leb c b'z' then c - 32 else c)

unfoldable pub to_lower : List ℕ → List ℕ
to_lower = map (λ c. if leb b'A' c && leb c b'Z' then c + 32 else c)

-- `unicode.IsSpace` on ASCII: tab, newline, vertical tab, form feed, return, space.
unfoldable pub is_space : ℕ → Bool
is_space c = leb 9 c && leb c 13 || c == 32

unfoldable pub is_empty : List ℕ → Bool
is_empty [] = true
is_empty (c ∷ cs) = false

unfoldable pub trim_left : List ℕ → List ℕ
trim_left [] = []
trim_left (c ∷ cs) = if is_space c then trim_left cs else c ∷ cs

unfoldable pub trim_right : List ℕ → List ℕ
trim_right [] = []
trim_right (c ∷ cs) =
    let rest = trim_right cs in if is_empty rest && is_space c then [] else c ∷ rest

-- `strings.TrimSpace`
unfoldable pub trim_space : List ℕ → List ℕ
unfolding trim_left trim_right is_space is_empty
trim_space s = trim_right (trim_left s)

unfoldable pub has_prefix : List ℕ → List ℕ → Bool
has_prefix [] s = true
has_prefix (p ∷ ps) [] = false
has_prefix (p ∷ ps) (c ∷ cs) = p == c && has_prefix ps cs

-- `strings.Index(s, pat)`; `none` is -1.
unfoldable pub index : List ℕ → List ℕ → Option ℕ
unfolding has_prefix
index pat [] = if has_prefix pat [] then some 0 else none
index pat (c ∷ cs) =
    let rest : Option ℕ = elim (index pat cs) [ none ↦ none | some i ↦ some (suc i) ] in
    if has_prefix pat (c ∷ cs) then some 0 else rest

has_prefix-le : (p s : List ℕ) → has_prefix p s ≡ true → length p ≤ length s
unfolding has_prefix
has_prefix-le [] s h = omega arith
has_prefix-le (p ∷ ps) [] h = cc
has_prefix-le (p ∷ ps) (c ∷ cs) h = ground (arith, has_prefix-le ps cs)

-- A match stands inside the text.
pub index-le : (pat s : List ℕ) (i : ℕ) → index pat s ≡ some i → i + length pat ≤ length s
unfolding index
index-le pat [] i h = ground (arith, has_prefix-le pat [])
index-le pat (c ∷ cs) i h = elim (Bool-cases (has_prefix pat (c ∷ cs))) [
  | inl here ↦ ground (arith, has_prefix-le pat (c ∷ cs) here)
  | inr later ↦ elim (Option-cases (index pat cs)) [
    | inl absent ↦ ground arith
    | inr (j, found) ↦ ground (arith, index-le pat cs j found)
  ]
]
