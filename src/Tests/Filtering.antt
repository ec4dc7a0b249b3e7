-- ===== src/Tests/Filtering.antt =====
-- query_filter.go on short queries; the numbers are percents, and a pattern is a text to contain.
use starrocks_shadow_proxy.Filter.Comments.{strip_all_block_comments, strip_leading_comments}
use starrocks_shadow_proxy.Filter.Comments.Stripped.{
  NoBlockComment, NoLeadingComment, strip_all_block_comments-NoBlockComment,
  strip_leading_comments-NoLeadingComment,
}
use starrocks_shadow_proxy.Filter.Decision.{Runtime, QueryFilter, FilterConfig}
use starrocks_shadow_proxy.Filter.Operation.{
  extract_statement_operation, extract_primary_sql_operation, operations, operation_of,
}
use starrocks_shadow_proxy.Filter.Operation.Primary.{
  extract_primary_sql_operation_total, extract_primary_sql_operation-joined,
}
use starrocks_shadow_proxy.Filter.Statements.{split_statements, flush}
use starrocks_shadow_proxy.Filter.Statements.Join.{
  Quoted, IsStatement, joined, kept, split_statements-joined,
}
use starrocks_shadow_proxy.Prelude.{
  ℕ, ◌≡◌, refl, true, false, [], ◌∷◌, Bytes, none, some, ltb, leb, arith,
}
use starrocks_shadow_proxy.Prelude.Text.{
  codes, contains, has_prefix, index, is_empty, bytes_eq, trim_space,
}

abbrev runtime : Runtime
runtime = record {
  Float = ℕ;
  lt = ltb;
  ge = λ a b. leb b a;
  zero_f = 0;
  one_f = 100;
  Regexp = Bytes;
  compile = λ p. some p;
  match_string = λ p q. elim (index p q) [ none ↦ false | some i ↦ true ];
}

abbrev config : FilterConfig runtime
config = record {
  shadow_filter_mode = [];
  shadow_filter_sql_operations = codes "SELECT" ∷ [];
  shadow_filter_patterns = [];
  shadow_sample_rate = 50;
}

abbrev selects : QueryFilter runtime
selects = record {
  mode = codes "include";
  sql_operations = codes "SELECT" ∷ [];
  patterns = [];
  sample_rate = 50;
}

strip_all_block_comments-NoBlockComment_example :
    (t : Bytes) × (strip_all_block_comments (codes "a/*b*/c") ≡ some t) × NoBlockComment t
strip_all_block_comments-NoBlockComment_example =
    strip_all_block_comments-NoBlockComment (codes "a/*b*/c")

strip_leading_comments-NoLeadingComment_example :
    (t : Bytes) × (strip_leading_comments (codes "/*b*/c") ≡ some t) × NoLeadingComment t
strip_leading_comments-NoLeadingComment_example =
    strip_leading_comments-NoLeadingComment (codes "/*b*/c")

extract_primary_sql_operation_total_example :
    (op : Bytes) × (extract_primary_sql_operation (codes "SET a;DROP t") ≡ some op)
extract_primary_sql_operation_total_example =
    extract_primary_sql_operation_total (codes "SET a;DROP t")

-- The statements `a';'` and `b`.
quoted_semicolon : IsStatement (codes "a';'")
quoted_semicolon =
    IsStatement.char b'a' (codes "';'") (ground arith) (ground arith) (ground arith) (
      IsStatement.quote b'\'' (codes ";") [] (codes "';'") (ground arith)
        (Quoted.char b';' [] (ground arith) (ground arith) Quoted.nil) IsStatement.nil refl)

plain : IsStatement (codes "b")
plain = IsStatement.char b'b' [] (ground arith) (ground arith) (ground arith) IsStatement.nil

split_statements-joined_example :
    split_statements (joined (codes "a';'" ∷ []) (codes "b")) ≡ kept (codes "a';'" ∷ codes "b" ∷ [])
split_statements-joined_example =
    split_statements-joined (codes "a';'" ∷ []) (codes "b") (quoted_semicolon, tt) plain

extract_primary_sql_operation-joined_example :
    extract_primary_sql_operation (joined (codes "a';'" ∷ []) (codes "b")) ≡ some (codes "B")
unfolding operations extract_statement_operation operation_of strip_leading_comments
    strip_all_block_comments is_empty contains flush trim_space has_prefix index bytes_eq
extract_primary_sql_operation-joined_example =
    extract_primary_sql_operation-joined (codes "a';'" ∷ []) (codes "b") (codes "A';'" ∷ []) []
      (codes "B") (quoted_semicolon, tt) plain refl refl tt
