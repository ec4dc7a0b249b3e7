-- ===== src/Filter/Operation/Primary.antt =====
-- ExtractPrimarySQLOperation: it always answers, and its answer is the last operation that is more
-- than session setup.
use starrocks_shadow_proxy.Filter.Comments.Stripped.{
  strip_leading_comments-NoLeadingComment, strip_all_block_comments-NoBlockComment,
}
use starrocks_shadow_proxy.Filter.Operation.{
  operation_of, extract_statement_operation, is_main, find_from_end, primary_of, operations,
  extract_primary_sql_operation,
}
use starrocks_shadow_proxy.Filter.Statements.{split_statements}
use starrocks_shadow_proxy.Filter.Operation.{
  operation_of, find_multi_word, multi_word_ops, first_word,
}
use starrocks_shadow_proxy.Filter.Operation.Words.{normalize_whitespace_prefix_total}
use starrocks_shadow_proxy.Prelude.Text.{to_upper}
use starrocks_shadow_proxy.Filter.Statements.Join.{
  joined, kept, IsStatement, split_statements-joined,
}
use starrocks_shadow_proxy.Prelude.{
  Bool, true, false, not, List, [], ◌∷◌, ◌++◌, Bytes, none, some, if◌then◌else◌, ◌≡◌, refl, ap, All,
}
use starrocks_shadow_proxy.Prelude.Text.{trim_space, is_empty}

operation_of_total : (s : Bytes) → (op : Bytes) × (operation_of s ≡ some op)
unfolding operation_of
operation_of_total s =
    let (prefix, e) = normalize_whitespace_prefix_total (to_upper s) 4 in
    let op : Bytes = elim (find_multi_word multi_word_ops prefix) [
      | some name ↦ name
      | none ↦ first_word prefix
    ] in
    (op, rw (e, operation_of) refl)

extract_statement_operation_total :
    (stmt : Bytes) → (op : Bytes) × (extract_statement_operation stmt ≡ some op)
unfolding extract_statement_operation
extract_statement_operation_total stmt =
    let (s, stripped, _) = strip_leading_comments-NoLeadingComment stmt in
    let (t, blocks, _) = strip_all_block_comments-NoBlockComment (trim_space s) in
    let (found, e) = operation_of_total t in
    rw (stripped, blocks, e, extract_statement_operation) (answer (is_empty (trim_space s)) found)
  where
    answer :
        (b : Bool) (found : Bytes) → (op : Bytes) × ((if b then some [] else some found) ≡ some op)
    answer true found = ([], refl)
    answer false found = (found, refl)

operations_total : (ss : List Bytes) → (ops : List Bytes) × (operations ss ≡ some ops)
unfolding operations
operations_total [] = ([], refl)
operations_total (s ∷ ss) =
    let (op, e) = extract_statement_operation_total s in
    let (ops, f) = operations_total ss in (op ∷ ops, rw (e, f, operations))

-- Every query text is given an operation: on fuel of a little more than the length of the text
-- neither the loops that strip comments nor the loop over the words fails to end.
pub extract_primary_sql_operation_total :
    (query : Bytes) → (op : Bytes) × (extract_primary_sql_operation query ≡ some op)
unfolding extract_primary_sql_operation
extract_primary_sql_operation_total query =
    let (ops, e) = operations_total (split_statements query) in
    (primary_of ops, rw (e, extract_primary_sql_operation))

module _ (test : Bytes → Bool) where
  find_from_end-none :
      (ops : List Bytes) → All (λ op. test op ≡ false) ops → find_from_end test ops ≡ none
  unfolding find_from_end
  find_from_end-none [] h = refl
  find_from_end-none (op ∷ ops) (h, hs) = rw (find_from_end-none ops hs, h)

  find_from_end_last :
      (before after : List Bytes) (op : Bytes)
      → test op ≡ true
      → All (λ x. test x ≡ false) after
      → find_from_end test (before ++ op ∷ after) ≡ some op
  unfolding find_from_end
  find_from_end_last [] after op h hs = rw (find_from_end-none after hs, h)
  find_from_end_last (x ∷ before) after op h hs = rw (find_from_end_last before after op h hs)

primary_of-last_main :
    (before after : List Bytes) (op : Bytes)
    → is_main op ≡ true
    → All (λ x. is_main x ≡ false) after
    → primary_of (before ++ op ∷ after) ≡ op
unfolding primary_of
primary_of-last_main before after op h hs =
    rw (find_from_end_last is_main before after op h hs, primary_of)

-- On statements joined by semicolons, `ExtractPrimarySQLOperation` answers with the last operation
-- that is no session setup (SET, SET_CATALOG, USE), whatever setup stands before or behind it.
pub extract_primary_sql_operation-joined :
    (ss : List Bytes) (last : Bytes) (before after : List Bytes) (op : Bytes)
    → All IsStatement ss
    → IsStatement last
    → operations (kept (ss ++ last ∷ [])) ≡ some (before ++ op ∷ after)
    → is_main op ≡ true
    → All (λ x. is_main x ≡ false) after
    → extract_primary_sql_operation (joined ss last) ≡ some op
unfolding extract_primary_sql_operation
extract_primary_sql_operation-joined ss last before after op hs h ops main rest =
    rw (split_statements-joined ss last hs h, ops, extract_primary_sql_operation)
      (ap some (primary_of-last_main before after op main rest))

-- A query of nothing but session setup is given its last setup operation.
primary_of_setup :
    (before after : List Bytes) (op : Bytes)
    → All (λ x. is_main x ≡ false) (before ++ op ∷ after)
    → is_empty op ≡ false
    → All (λ x. is_empty x ≡ true) after
    → primary_of (before ++ op ∷ after) ≡ op
unfolding primary_of
primary_of_setup before after op setup full blank = rw (
  find_from_end-none is_main (before ++ op ∷ after) setup,
  find_from_end_last (λ x. not (is_empty x)) before after op (ap not full) (blanks after blank),
  primary_of,
)
  where
    blanks :
        (xs : List Bytes) → All (λ x. is_empty x ≡ true) xs → All (λ x. not (is_empty x) ≡ false) xs
    blanks [] h = tt
    blanks (x ∷ xs) (h, hs) = (ap not h, blanks xs hs)
