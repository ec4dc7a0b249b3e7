-- ===== src/Config/Lists.antt =====
-- getEnvList reads back what is joined with commas.
use starrocks_shadow_proxy.Config.{Env, split_comma, nonempty_parts, get_env_list}
use starrocks_shadow_proxy.Prelude.{
  ℕ, zero, suc, ◌≡◌, refl, ap, ◌∙◌, false, Bytes, List, [], ◌∷◌, ◌++◌, map, replicate, All, ◌==◌,
  if◌then◌else◌,
}
use starrocks_shadow_proxy.Prelude.Text.{is_empty, is_space, trim_left, trim_space}

abbrev pub NoComma : Bytes → Type 0
NoComma = All (λ c. (c == b',') ≡ false)

-- An item of a list: not empty, without commas, and without spaces around it.
pub record IsItem (x : Bytes) : Type 0 where
  pub not_empty : is_empty x ≡ false
  pub no_comma : NoComma x
  pub trimmed : trim_space x ≡ x

-- An item with spaces in front of it.
abbrev pub padded : ℕ × Bytes → Bytes
padded (n, x) = replicate n b' ' ++ x

-- The items with a comma between each two.
unfoldable pub joined : (ℕ × Bytes) → List (ℕ × Bytes) → Bytes
joined p [] = padded p
joined p (q ∷ ps) = padded p ++ b',' ∷ joined q ps

split_comma-part : (t : Bytes) → NoComma t → split_comma t ≡ (t, [])
unfolding split_comma
split_comma-part [] h = refl
split_comma-part (c ∷ t) (p, h) = rw (p, if◌then◌else◌, split_comma-part t h) refl

split_comma-append :
    (t rest : Bytes)
    → NoComma t
    → split_comma (t ++ b',' ∷ rest) ≡ (t, (split_comma rest).0 ∷ (split_comma rest).1)
unfolding split_comma
split_comma-append [] rest h = refl
split_comma-append (c ∷ t) rest (p, h) = rw (p, if◌then◌else◌, split_comma-append t rest h) refl

padded-NoComma : (n : ℕ) (x : Bytes) → NoComma x → NoComma (padded (n, x))
unfolding replicate
padded-NoComma zero x h = h
padded-NoComma (suc n) x h = (refl, padded-NoComma n x h)

trim_space-padded : (n : ℕ) (x : Bytes) → trim_space (padded (n, x)) ≡ trim_space x
unfolding trim_space trim_left is_space replicate
trim_space-padded zero x = refl
trim_space-padded (suc n) x = trim_space-padded n x

split_comma-joined :
    (p : ℕ × Bytes) (ps : List (ℕ × Bytes))
    → All (λ q. IsItem q.1) (p ∷ ps)
    → (split_comma (joined p ps)).0 ∷ (split_comma (joined p ps)).1 ≡ map padded (p ∷ ps)
unfolding joined
split_comma-joined (n, x) [] (h, _) =
    ap (λ r. r.0 ∷ r.1) (split_comma-part (padded (n, x)) (padded-NoComma n x h.no_comma))
split_comma-joined (n, x) (q ∷ ps) (h, hs) =
    ap (λ r. r.0 ∷ r.1)
      (split_comma-append (padded (n, x)) (joined q ps) (padded-NoComma n x h.no_comma))
    ∙ ap (λ r. padded (n, x) ∷ r) (split_comma-joined q ps hs)

nonempty_parts-padded :
    (ps : List (ℕ × Bytes))
    → All (λ q. IsItem q.1) ps
    → nonempty_parts (map padded ps) ≡ map (λ q. q.1) ps
unfolding nonempty_parts
nonempty_parts-padded [] h = refl
nonempty_parts-padded ((n, x) ∷ ps) (h, hs) =
    rw (trim_space-padded n x, h.trimmed, h.not_empty, if◌then◌else◌, nonempty_parts-padded ps hs)
      refl

is_empty-append : (t u : Bytes) → is_empty u ≡ false → is_empty (t ++ u) ≡ false
unfolding is_empty
is_empty-append [] u h = h
is_empty-append (c ∷ t) u h = refl

is_empty-joined :
    (p : ℕ × Bytes) (ps : List (ℕ × Bytes)) → IsItem p.1 → is_empty (joined p ps) ≡ false
unfolding joined is_empty
is_empty-joined (n, x) [] h = is_empty-append (replicate n b' ') x h.not_empty
is_empty-joined (n, x) (q ∷ ps) h = is_empty-append (padded (n, x)) (b',' ∷ joined q ps) refl

-- A variable that holds one or more items with a comma between each two and any number of spaces in
-- front of each, where no item is empty, has a comma, or has spaces around it, is read as the list
-- of these items, in order, whatever the default.
pub get_env_list-joined :
    (env : Env) (key : Bytes) (default : List Bytes) (p : ℕ × Bytes) (ps : List (ℕ × Bytes))
    → All (λ q. IsItem q.1) (p ∷ ps)
    → env key ≡ joined p ps
    → get_env_list env key default ≡ map (λ q. q.1) (p ∷ ps)
unfolding get_env_list
get_env_list-joined env key default p ps h e =
    rw
      (
        e,
        is_empty-joined p ps h.0,
        if◌then◌else◌,
        split_comma-joined p ps h,
        nonempty_parts-padded (p ∷ ps) h,
      )
      refl
