-- ===== src/Filter/Comments/Stripped.antt =====
-- The comment strippers return on every text, and what they return holds no comment of their kind.
use starrocks_shadow_proxy.Filter.Comments.{
  Round, done, again, skip_past, leading_round, block_round, rounds, strip_leading_comments,
  strip_all_block_comments,
}
use starrocks_shadow_proxy.Prelude.{
  ℕ, zero, suc, ◌+◌, ◌≤◌, ◌<◌, ◌≡◌, ◌⊎◌, refl, false, [], ◌∷◌, Bytes, length, take, drop,
  length-take, length-drop, length-append, none, some, arith, Bool-cases, Option-cases, inl, inr,
}
use starrocks_shadow_proxy.Prelude.Text.{
  codes, trim_space, trim_left, trim_right, is_empty, has_prefix, index, index-le,
}

-- `P` of the result, or a shorter text for the next round.
abbrev Progress : (Bytes → Type 0) → Bytes → Round → Type 0
Progress P s (done t) = P t
Progress P s (again t) = length t < length s

rounds-return :
    (P : Bytes → Type 0) (round : Bytes → Round)
    → ((s : Bytes) → Progress P s (round s))
    → (fuel : ℕ) (s : Bytes) → length s < fuel
    → (t : Bytes) × (rounds round fuel s ≡ some t) × P t
unfolding rounds
rounds-return P round progress zero s h = absurd (omega arith)
rounds-return P round progress (suc fuel) s h =
    next (round s) (progress s) (λ t k. rounds-return P round progress fuel t k)
  where
    next :
        (r : Round)
        → Progress P s r
        → ((t : Bytes) → length t < fuel → (u : Bytes) × (rounds round fuel t ≡ some u) × P u)
        → (t : Bytes) × ((elim r [ done t ↦ some t | again t ↦ rounds round fuel t ]) ≡ some t)
          × P t
    next (done t) p ih = (t, refl, p)
    next (again t) p ih = ih t (omega arith)

trim_left-le : (s : Bytes) → length (trim_left s) ≤ length s
unfolding trim_left
trim_left-le [] = omega arith
trim_left-le (c ∷ cs) = ground (arith, trim_left-le cs)

trim_right-le : (s : Bytes) → length (trim_right s) ≤ length s
unfolding trim_right
trim_right-le [] = omega arith
trim_right-le (c ∷ cs) = ground (arith, trim_right-le cs)

trim_space-le : (s : Bytes) → length (trim_space s) ≤ length s
unfolding trim_space
trim_space-le s = omega (arith, trim_right-le (trim_left s), trim_left-le s)

-- No complete block comment: no opening, or no end behind the first one.
abbrev pub NoBlockComment : Bytes → Type 0
NoBlockComment t =
    (index (codes "/*") t ≡ none)
    ⊎ ((i : ℕ) × (index (codes "/*") t ≡ some i) × (index (codes "*/") (drop (i + 2) t) ≡ none))

block_round-Progress : (s : Bytes) → Progress NoBlockComment s (block_round s)
unfolding block_round
block_round-Progress s = elim (Option-cases (index (codes "/*") s)) [
  | inl absent ↦ rw (absent, Progress) (inl absent)
  | inr (i, found) ↦ elim (Option-cases (index (codes "*/") (drop (i + 2) s))) [
    | inl open_end ↦ rw (found, open_end, Progress) (inr (i, found, open_end))
    | inr (j, ended) ↦
        rw (found, ended, Progress)
          (omega (
            arith,
            index-le (codes "/*") s i found,
            index-le (codes "*/") (drop (i + 2) s) j ended,
            length-drop (i + 2) s,
            length-append (take i s) (b' ' ∷ drop (i + 2 + j + 2) s),
            length-take i s,
            length-drop (i + 2 + j + 2) s,
          ))
  ]
]

-- `stripAllBlockComments` returns on every text, and its result holds no complete block comment.
pub strip_all_block_comments-NoBlockComment :
    (s : Bytes) → (t : Bytes) × (strip_all_block_comments s ≡ some t) × NoBlockComment t
unfolding strip_all_block_comments
strip_all_block_comments-NoBlockComment s =
    rounds-return NoBlockComment block_round block_round-Progress (suc (length s)) s (omega arith)

-- Nothing is left, or a trimmed text that begins with neither kind of comment.
abbrev pub NoLeadingComment : Bytes → Type 0
NoLeadingComment t =
    (t ≡ [])
    ⊎ ((u : Bytes) × (t ≡ trim_space u)
        × (has_prefix (codes "--") t ≡ false)
        × (has_prefix (codes "/*") t ≡ false))

skip_past-Progress :
    (pat s u : Bytes) (n : ℕ)
    → 0 < n
    → n ≡ length pat
    → length s ≤ length u
    → Progress NoLeadingComment u (skip_past (index pat s) n s)
skip_past-Progress pat s u n pos e le = elim (Option-cases (index pat s)) [
  | inl absent ↦ rw (absent, Progress) (inl refl)
  | inr (i, found) ↦
      rw (found, Progress) (omega (arith, index-le pat s i found, length-drop (i + n) s))
]

leading_round-Progress : (s : Bytes) → Progress NoLeadingComment s (leading_round s)
unfolding leading_round
leading_round-Progress s = elim (Bool-cases (is_empty (trim_space s))) [
  | inl blank ↦ rw (blank, Progress) (inl refl)
  | inr text ↦ elim (Bool-cases (has_prefix (codes "--") (trim_space s))) [
    | inl dashes ↦
        rw (text, dashes, Progress)
          (skip_past-Progress (codes "\n") (trim_space s) s 1 (omega arith) refl (trim_space-le s))
    | inr no_dashes ↦ elim (Bool-cases (has_prefix (codes "/*") (trim_space s))) [
      | inl star ↦
          rw (text, no_dashes, star, Progress)
            (skip_past-Progress (codes "*/") (trim_space s) s 2 (omega arith) refl
              (trim_space-le s))
      | inr no_star ↦ rw (text, no_dashes, no_star, Progress) (inr (s, refl, no_dashes, no_star))
    ]
  ]
]

-- `stripLeadingComments` returns on every text, and its result is empty or a trimmed text that
-- begins with neither kind of comment.
pub strip_leading_comments-NoLeadingComment :
    (s : Bytes) → (t : Bytes) × (strip_leading_comments s ≡ some t) × NoLeadingComment t
unfolding strip_leading_comments
strip_leading_comments-NoLeadingComment s =
    rounds-return NoLeadingComment leading_round leading_round-Progress (suc (length s)) s
      (omega arith)
