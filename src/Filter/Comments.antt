-- ===== src/Filter/Comments.antt =====
-- query_filter.go: stripLeadingComments and stripAllBlockComments. Each round of either loop makes
-- the text shorter, so the text's length is fuel enough; `none` means that the fuel ran out.
pub mod Stripped
use starrocks_shadow_proxy.Prelude.{
  ℕ, zero, suc, ◌+◌, Bool, true, false, [], ◌∷◌, ◌++◌, Bytes, length, take, drop, Option, none,
  some, if◌then◌else◌,
}
use starrocks_shadow_proxy.Prelude.Text.{codes, trim_space, is_empty, has_prefix, index}

-- What a round of the loop ends in: a result, or the text of the next round.
pub data Round : Type 0 where
  done : Bytes → Round
  again : Bytes → Round

-- `if idx := ...; idx >= 0 { s = s[idx+n:]; continue }; return ""`
abbrev pub skip_past : Option ℕ → ℕ → Bytes → Round
skip_past none n s = done []
skip_past (some idx) n s = again (drop (idx + n) s)

unfoldable pub leading_round : Bytes → Round
leading_round text =
    let s = trim_space text in
    if is_empty s
    then done []
    else if has_prefix (codes "--") s
    then skip_past (index (codes "\n") s) 1 s
    else if has_prefix (codes "/*") s
    then skip_past (index (codes "*/") s) 2 s
    else done s

unfoldable pub block_round : Bytes → Round
block_round s = elim (index (codes "/*") s) [
  | none ↦ done s
  | some start ↦ elim (index (codes "*/") (drop (start + 2) s)) [
    | none ↦ done s
    | some end_at ↦ again (take start s ++ (b' ' ∷ drop (start + 2 + end_at + 2) s))
  ]
]

unfoldable pub rounds : (Bytes → Round) → ℕ → Bytes → Option Bytes
rounds round zero s = none
rounds round (suc fuel) s = elim (round s) [ done t ↦ some t | again t ↦ rounds round fuel t ]

unfoldable pub strip_leading_comments : Bytes → Option Bytes
unfolding rounds leading_round
strip_leading_comments s = rounds leading_round (suc (length s)) s

unfoldable pub strip_all_block_comments : Bytes → Option Bytes
unfolding rounds block_round
strip_all_block_comments s = rounds block_round (suc (length s)) s
