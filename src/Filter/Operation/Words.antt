-- ===== src/Filter/Operation/Words.antt =====
-- normalizeWhitespacePrefix ends: each of its rounds takes a byte off the text.
use starrocks_shadow_proxy.Filter.Operation.{
  is_blank, skip_blanks, read_word, take_words, join_words, normalize_whitespace_prefix,
}
use starrocks_shadow_proxy.Prelude.{
  ℕ, zero, suc, ◌-◌, ◌≤◌, ◌<◌, ◌≡◌, refl, Bool, true, false, ◌||◌, List, [], ◌∷◌, ◌++◌, Bytes,
  get_or, length, ◌==◌, if◌then◌else◌, Option, none, some, arith,
}
use starrocks_shadow_proxy.Prelude.Text.{is_empty}

-- Behind the blanks stands no blank.
skip_blanks_lem :
    (s : Bytes)
    → (length (skip_blanks s) ≤ length s)
      × (is_empty (skip_blanks s) ≡ false → is_blank (get_or (skip_blanks s) 0 0) ≡ false)
unfolding skip_blanks is_empty
skip_blanks_lem [] = (omega arith, λ h. cc)
skip_blanks_lem (c ∷ cs) = ground (arith, skip_blanks_lem cs)

length-read_word : (s : Bytes) → length (read_word s).1 ≤ length s
unfolding read_word
length-read_word [] = omega arith
length-read_word (c ∷ cs) = ground (arith, length-read_word cs)

-- A word that stands at the front is taken.
read_word_shorter :
    (s : Bytes)
    → is_empty s ≡ false
    → is_blank (get_or s 0 0) ≡ false
    → (get_or s 0 0 == b'(') ≡ false
    → length (read_word s).1 < length s
unfolding read_word is_empty
read_word_shorter [] h b p = cc
read_word_shorter (c ∷ cs) h b p = ground (arith, length-read_word cs)

take_words_total :
    (fuel max : ℕ) (s : Bytes)
    → length s < fuel
    → (r : List Bytes × Bytes) × (take_words fuel max s ≡ some r)
unfolding take_words
take_words_total zero max s h = absurd (omega arith)
take_words_total (suc fuel) max s h =
    decide (max == 0 || is_empty s) (is_empty s') (get_or s' 0 0 == b'(') refl refl
      (λ k. take_words_total fuel left_to_take (read_word s').1 k)
  where
    s' : Bytes
    s' = skip_blanks s

    left_to_take : ℕ
    left_to_take = if is_empty (read_word s').0 then max else max - 1

    decide :
        (done blank paren : Bool)
        → is_empty s' ≡ blank
        → (get_or s' 0 0 == b'(') ≡ paren
        → (length (read_word s').1 < fuel
            → (r : List Bytes × Bytes) × (take_words fuel left_to_take (read_word s').1 ≡ some r))
        → let next : Option (List Bytes × Bytes) =
            elim (take_words fuel left_to_take (read_word s').1) [
              | none ↦ none
              | some (words, left) ↦
                  some (if is_empty (read_word s').0 then words else (read_word s').0 ∷ words, left)
            ] in
          (r : List Bytes × Bytes) × ((if done
              then some ([], s)
              else if blank
              then some ([], s')
              else if paren
              then some ([], s')
              else next)
            ≡ some r)
    decide true blank paren b p ih = (([], s), refl)
    decide false true paren b p ih = (([], s'), refl)
    decide false false true b p ih = (([], s'), refl)
    decide false false false b p ih =
        let (shorter, unblank) = skip_blanks_lem s in
        let ((words, left), e) =
          ih (omega (arith, h, shorter, read_word_shorter s' b (unblank b) p)) in
        ((if is_empty (read_word s').0 then words else (read_word s').0 ∷ words, left), rw (e) refl)

pub normalize_whitespace_prefix_total :
    (s : Bytes) (max_words : ℕ) → (t : Bytes) × (normalize_whitespace_prefix s max_words ≡ some t)
unfolding normalize_whitespace_prefix
normalize_whitespace_prefix_total s max_words =
    let ((words, left), e) = take_words_total (suc (length s)) max_words s (omega arith) in
    (join_words words ++ left, rw (e, normalize_whitespace_prefix) refl)
