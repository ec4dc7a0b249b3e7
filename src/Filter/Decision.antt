-- ===== src/Filter/Decision.antt =====
-- query_filter.go: QueryFilter, its construction and its decisions. Floating point numbers and
-- regular expressions are not the program's own: they come as an interface.
pub mod Policy
use starrocks_shadow_proxy.Filter.Operation.{extract_primary_sql_operation}
use starrocks_shadow_proxy.Prelude.{
  ℕ, Bool, true, false, not, ◌&&◌, ◌||◌, List, [], ◌∷◌, ◌++◌, Bytes, Option, none, some,
  if◌then◌else◌,
}
use starrocks_shadow_proxy.Prelude.Text.{
  codes, trim_space, to_upper, to_lower, is_empty, bytes_eq, contains,
}

-- `float64` with its two comparisons, and package regexp.
pub record Runtime : Type 1 where
  pub Float : Type 0
  pub lt : Float → Float → Bool
  pub ge : Float → Float → Bool
  pub zero_f : Float
  pub one_f : Float
  pub Regexp : Type 0
  pub compile : Bytes → Option Regexp
  pub match_string : Regexp → Bytes → Bool

pub data Reason : Type 0 where
  no_reason sql_operation pattern sampling sticky_stmt : Reason

abbrev pub Verdict : Type 0
Verdict = Bool × Reason

abbrev pub allowed : Verdict
allowed = (true, no_reason)

-- `len(xs) > 0`
abbrev pub has : {A : Type 0} → List A → Bool
has [] = false
has (x ∷ xs) = true

-- `ExtractPrimarySQLOperation`, which always answers.
unfoldable pub primary_op : Bytes → Bytes
primary_op q = elim (extract_primary_sql_operation q) [ some op ↦ op | none ↦ [] ]

module _ (rt : Runtime) where
  open rt use {Float, lt, ge, zero_f, one_f, Regexp, compile, match_string}

  pub record QueryFilter : Type 0 where
    pub mode : Bytes
    pub sql_operations : List Bytes
    pub patterns : List Regexp
    pub sample_rate : Float

  -- The part of Config that NewQueryFilter reads.
  pub record FilterConfig : Type 0 where
    pub shadow_filter_mode : Bytes
    pub shadow_filter_sql_operations : List Bytes
    pub shadow_filter_patterns : List Bytes
    pub shadow_sample_rate : Float

  -- `(nil, nil)`, an error, or a filter.
  pub data NewFilter : Type 0 where
    no_filter : NewFilter
    invalid_rate : NewFilter
    invalid_mode : NewFilter
    invalid_pattern : Bytes → NewFilter
    new : QueryFilter → NewFilter

  unfoldable pub operation_set : List Bytes → List Bytes
  operation_set [] = []
  operation_set (op ∷ ops) =
      if is_empty (trim_space op)
      then operation_set ops
      else to_upper (trim_space op) ∷ operation_set ops

  -- The compiled patterns, or the first that does not compile.
  pub data Compiled : Type 0 where
    compiled : List Regexp → Compiled
    bad_pattern : Bytes → Compiled

  unfoldable pub compile_patterns : List Bytes → List Regexp → Compiled
  compile_patterns [] res = compiled res
  compile_patterns (p ∷ ps) res =
      let skipped = compile_patterns ps res in
      let next : Compiled = elim (compile (trim_space p)) [
        | none ↦ bad_pattern (trim_space p)
        | some re ↦ compile_patterns ps (res ++ re ∷ [])
      ] in
      if is_empty (trim_space p) then skipped else next

  unfoldable pub new_query_filter : FilterConfig → NewFilter
  new_query_filter config =
      let rate = config.shadow_sample_rate in
      let lowered = to_lower config.shadow_filter_mode in
      let mode = if is_empty lowered then codes "include" else lowered in
      let built : NewFilter = elim (compile_patterns config.shadow_filter_patterns []) [
        | bad_pattern p ↦ invalid_pattern p
        | compiled res ↦ new (record {
          mode = mode;
          sql_operations = operation_set config.shadow_filter_sql_operations;
          patterns = res;
          sample_rate = rate;
        })
      ] in
      if not (has config.shadow_filter_mode)
        && (not (has config.shadow_filter_sql_operations)
            && (not (has config.shadow_filter_patterns) && not (lt rate one_f)))
      then no_filter
      else if lt rate zero_f || lt one_f rate
      then invalid_rate
      else if not (bytes_eq mode (codes "include")) && not (bytes_eq mode (codes "exclude"))
      then invalid_mode
      else built

  unfoldable pub match_any_pattern : List Regexp → Bytes → Bool
  match_any_pattern [] q = false
  match_any_pattern (re ∷ res) q = match_string re q || match_any_pattern res q

  unfoldable pub match_include : QueryFilter → Bytes → Verdict
  match_include f q =
      if has f.sql_operations && not (contains f.sql_operations (primary_op q))
      then (false, sql_operation)
      else if has f.patterns && not (match_any_pattern f.patterns q)
      then (false, pattern)
      else allowed

  unfoldable pub match_exclude : QueryFilter → Bytes → Verdict
  match_exclude f q =
      if has f.sql_operations && contains f.sql_operations (primary_op q)
      then (false, sql_operation)
      else if has f.patterns && match_any_pattern f.patterns q
      then (false, pattern)
      else allowed

  unfoldable pub passes_filter : QueryFilter → Bytes → Verdict
  passes_filter f q =
      if bytes_eq f.mode (codes "include")
      then match_include f q
      else if bytes_eq f.mode (codes "exclude")
      then match_exclude f q
      else allowed

  -- `Allow`; `roll` is what `rand.Float64()` returns.
  unfoldable pub allow : Float → QueryFilter → Bytes → Verdict
  allow roll f q =
      if is_empty q
      then allowed
      else if not (passes_filter f q).0
      then (false, (passes_filter f q).1)
      else if lt f.sample_rate one_f && ge roll f.sample_rate
      then (false, sampling)
      else allowed

  -- `AllowDeterministic`
  unfoldable pub allow_deterministic : QueryFilter → Bytes → Verdict
  allow_deterministic f q =
      if is_empty q
      then allowed
      else if not (passes_filter f q).0
      then (false, (passes_filter f q).1)
      else allowed

  -- `SampleRate` of a filter that may be nil
  unfoldable pub sample_rate_of : Option QueryFilter → Float
  sample_rate_of none = one_f
  sample_rate_of (some f) = f.sample_rate

  -- `shouldShadowMirror` of pg_shadow_filter.go
  unfoldable pub should_shadow_mirror : Option QueryFilter → Bytes → Verdict
  should_shadow_mirror none q = allowed
  should_shadow_mirror (some f) q = allow_deterministic f q
