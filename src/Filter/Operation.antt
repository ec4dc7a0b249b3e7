-- ===== src/Filter/Operation.antt =====
-- query_filter.go: which SQL operation a statement performs, and which one a query stands for.
pub mod Primary
pub mod Words
use Prim.Native.String.{String}
use starrocks_shadow_proxy.Filter.Comments.{strip_leading_comments, strip_all_block_comments}
use starrocks_shadow_proxy.Filter.Statements.{split_statements}
use starrocks_shadow_proxy.Prelude.{
  ℕ, zero, suc, ◌-◌, ◌<◌, Bool, true, false, not, ◌&&◌, ◌||◌, List, [], ◌∷◌, ◌++◌, map, Bytes,
  length, take, drop, get_or, Option, none, some, ltb, leb, ◌==◌, if◌then◌else◌,
}
use starrocks_shadow_proxy.Prelude.Text.{
  codes, trim_space, to_upper, is_empty, has_prefix, bytes_eq, contains,
}

-- `s[i] == ' ' || s[i] == '\t' || s[i] == '\n' || s[i] == '\r'`
unfoldable pub is_blank : ℕ → Bool
is_blank c = c == b' ' || (c == b'\t' || (c == b'\n' || c == b'\r'))

unfoldable pub skip_blanks : Bytes → Bytes
unfolding is_blank
skip_blanks [] = []
skip_blanks (c ∷ cs) = if is_blank c then skip_blanks cs else c ∷ cs

-- The word at the front, up to a blank or an open paren, and what follows it.
unfoldable pub read_word : Bytes → Bytes × Bytes
unfolding is_blank
read_word [] = ([], [])
read_word (c ∷ cs) =
    let (word, rest) = read_word cs in
    if is_blank c || c == b'(' then ([], c ∷ cs) else (c ∷ word, rest)

-- The loop, with `max` words left to append: the words, and the text from `i` on. `fuel` bounds the
-- rounds; `none` means that it ran out.
unfoldable pub take_words : ℕ → ℕ → Bytes → Option (List Bytes × Bytes)
unfolding skip_blanks read_word is_empty
take_words zero max s = none
take_words (suc fuel) max s =
    let s' = skip_blanks s in
    let (word, rest) = read_word s' in
    let more = take_words fuel (if is_empty word then max else max - 1) rest in
    let next : Option (List Bytes × Bytes) = elim more [
      | none ↦ none
      | some (words, left) ↦ some (if is_empty word then words else word ∷ words, left)
    ] in
    if max == 0 || is_empty s
    then some ([], s)
    else if is_empty s'
    then some ([], s')
    else if get_or s' 0 0 == b'('
    then some ([], s')
    else next

-- `strings.Join(words, " ")`
unfoldable pub join_words : List Bytes → Bytes
join_words [] = []
join_words (w ∷ []) = w
join_words (w ∷ v ∷ ws) = w ++ (b' ' ∷ join_words (v ∷ ws))

unfoldable pub normalize_whitespace_prefix : Bytes → ℕ → Option Bytes
unfolding take_words join_words
normalize_whitespace_prefix s max_words = elim (take_words (suc (length s)) max_words s) [
  | none ↦ none
  | some (words, left) ↦ some (join_words words ++ left)
]

-- `multiWordOps`
abbrev pub multi_word_ops : List (String × String)
multi_word_ops =
    ("SUBMIT TASK", "SUBMIT_TASK")
    ∷ ("INSERT OVERWRITE", "INSERT_OVERWRITE")
    ∷ ("REFRESH MATERIALIZED VIEW", "REFRESH_MATERIALIZED_VIEW")
    ∷ ("CREATE MATERIALIZED VIEW", "CREATE_MATERIALIZED_VIEW")
    ∷ ("DROP MATERIALIZED VIEW", "DROP_MATERIALIZED_VIEW")
    ∷ ("ALTER MATERIALIZED VIEW", "ALTER_MATERIALIZED_VIEW")
    ∷ ("CANCEL LOAD", "CANCEL_LOAD")
    ∷ ("SHOW LOAD", "SHOW_LOAD")
    ∷ ("BROKER LOAD", "BROKER_LOAD")
    ∷ ("ROUTINE LOAD", "ROUTINE_LOAD")
    ∷ ("ADMIN SET", "ADMIN_SET")
    ∷ ("ADMIN SHOW", "ADMIN_SHOW")
    ∷ ("ADMIN CHECK", "ADMIN_CHECK")
    ∷ ("ADMIN REPAIR", "ADMIN_REPAIR")
    ∷ ("SET CATALOG", "SET_CATALOG")
    ∷ ("INSERT INTO", "INSERT")
    ∷ ("CREATE TABLE", "CREATE_TABLE")
    ∷ ("CREATE EXTERNAL TABLE", "CREATE_TABLE")
    ∷ ("CREATE VIEW", "CREATE_VIEW")
    ∷ ("CREATE DATABASE", "CREATE_DATABASE")
    ∷ ("CREATE INDEX", "CREATE_INDEX")
    ∷ ("ALTER TABLE", "ALTER_TABLE")
    ∷ ("ALTER DATABASE", "ALTER_DATABASE")
    ∷ ("DROP TABLE", "DROP_TABLE")
    ∷ ("DROP VIEW", "DROP_VIEW")
    ∷ ("DROP DATABASE", "DROP_DATABASE")
    ∷ ("DROP INDEX", "DROP_INDEX")
    ∷ ("TRUNCATE TABLE", "TRUNCATE")
    ∷ ("ANALYZE TABLE", "ANALYZE")
    ∷ ("SHOW TABLES", "SHOW")
    ∷ ("SHOW DATABASES", "SHOW")
    ∷ ("SHOW CREATE", "SHOW")
    ∷ ("SHOW COLUMNS", "SHOW")
    ∷ ("SHOW PROCESSLIST", "SHOW")
    ∷ []

-- The prefix stands at the front, with the end, a space or an open paren behind it.
unfoldable pub at_boundary : Bytes → Bytes → Bool
at_boundary prefix s =
    (leb (length prefix) (length s) && has_prefix prefix s)
    && (length s == length prefix
        || (get_or s (length prefix) 0 == b' ' || get_or s (length prefix) 0 == b'('))

unfoldable pub find_multi_word : List (String × String) → Bytes → Option Bytes
unfolding at_boundary
find_multi_word [] s = none
find_multi_word ((prefix, name) ∷ ops) s =
    if at_boundary (codes prefix) s then some (codes name) else find_multi_word ops s

-- `strings.IndexAny(s, " (")`: what stands before the first of them.
unfoldable pub before_any : Bytes → Bytes
before_any [] = []
before_any (c ∷ cs) = if c == b' ' || c == b'(' then [] else c ∷ before_any cs

-- Single-word fallback: `idx > 0` asks that the word is not empty.
unfoldable pub first_word : Bytes → Bytes
unfolding before_any is_empty
first_word s = if is_empty (before_any s) then s else before_any s

unfoldable pub operation_of : Bytes → Option Bytes
unfolding find_multi_word first_word normalize_whitespace_prefix to_upper
operation_of s = elim (normalize_whitespace_prefix (to_upper s) 4) [
  | none ↦ none
  | some prefix ↦
      some (elim (find_multi_word multi_word_ops prefix) [
        | some name ↦ name
        | none ↦ first_word prefix
      ])
]

-- `none` means that the fuel of a loop ran out, which it never does.
unfoldable pub extract_statement_operation : Bytes → Option Bytes
extract_statement_operation stmt = elim (strip_leading_comments stmt) [
  | none ↦ none
  | some stripped ↦
      let s = trim_space stripped in
      let found : Option Bytes = elim (strip_all_block_comments s) [
        | none ↦ none
        | some t ↦ operation_of t
      ] in
      if is_empty s then some [] else found
]

abbrev pub preamble_operations : List Bytes
preamble_operations = codes "SET" ∷ codes "SET_CATALOG" ∷ codes "USE" ∷ []

-- The loops from the last statement to the first: the first operation that passes a test.
unfoldable pub find_from_end : (Bytes → Bool) → List Bytes → Option Bytes
find_from_end test [] = none
find_from_end test (op ∷ ops) = elim (find_from_end test ops) [
  | some found ↦ some found
  | none ↦ if test op then some op else none
]

abbrev pub is_main : Bytes → Bool
is_main op = not (is_empty op) && not (contains preamble_operations op)

unfoldable pub primary_of : List Bytes → Bytes
primary_of ops = elim (find_from_end is_main ops) [
  | some op ↦ op
  | none ↦ elim (find_from_end (λ op. not (is_empty op)) ops) [
    | some op ↦ op
    | none ↦ codes "UNKNOWN"
  ]
]

unfoldable pub operations : List Bytes → Option (List Bytes)
operations [] = some []
operations (s ∷ ss) = elim (extract_statement_operation s) [
  | none ↦ none
  | some op ↦ elim (operations ss) [ none ↦ none | some ops ↦ some (op ∷ ops) ]
]

unfoldable pub extract_primary_sql_operation : Bytes → Option Bytes
extract_primary_sql_operation query_text = elim (operations (split_statements query_text)) [
  | none ↦ none
  | some ops ↦ some (primary_of ops)
]
