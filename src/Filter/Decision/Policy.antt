-- ===== src/Filter/Decision/Policy.antt =====
-- What QueryFilter lets through, and what NewQueryFilter makes.
use starrocks_shadow_proxy.Filter.Decision.{
  Runtime, primary_op, QueryFilter, FilterConfig, operation_set, allow_deterministic,
}
use starrocks_shadow_proxy.Prelude.{
  Bool, true, false, not, ◌&&◌, ◌||◌, List, [], ◌∷◌, none, some, Bytes, if◌then◌else◌, ◌≡◌, ◌⊎◌,
}
use starrocks_shadow_proxy.Prelude.Text.{codes, to_lower, to_upper, trim_space, is_empty, bytes_eq}

-- A configured item that is not blank.
pub any_given : List Bytes → Bool
any_given [] = false
any_given (s ∷ ss) = not (is_empty (trim_space s)) || any_given ss

-- The operation is one of those listed, whatever their case and the space round them.
pub any_listed : List Bytes → Bytes → Bool
any_listed [] op = false
any_listed (s ∷ ss) op =
    (not (is_empty (trim_space s)) && bytes_eq (to_upper (trim_space s)) op) || any_listed ss op

module _ (rt : Runtime) where
  open rt use {Regexp, compile, match_string}

  -- One of the patterns given compiles to a regular expression that matches.
  pub any_matched : List Bytes → Bytes → Bool
  any_matched [] q = false
  any_matched (p ∷ ps) q =
      (not (is_empty (trim_space p))
        && elim (compile (trim_space p)) [ none ↦ false | some re ↦ match_string re q ])
      || any_matched ps q

module _ (rt : Runtime) (c : FilterConfig rt) (q : Bytes) where
  -- The criteria that the configuration gives, and whether the query meets them.
  abbrev pub wanted : Bool
  wanted =
      (not (any_given c.shadow_filter_sql_operations)
        || any_listed c.shadow_filter_sql_operations (primary_op q))
      && (not (any_given c.shadow_filter_patterns) || any_matched rt c.shadow_filter_patterns q)

  abbrev pub unwanted : Bool
  unwanted =
      (any_given c.shadow_filter_sql_operations
        && any_listed c.shadow_filter_sql_operations (primary_op q))
      || (any_given c.shadow_filter_patterns && any_matched rt c.shadow_filter_patterns q)

  abbrev mode_of : Bytes
  mode_of = to_lower c.shadow_filter_mode

  abbrev chosen : Bytes
  chosen = if is_empty mode_of then codes "include" else mode_of

  abbrev pub Follows : QueryFilter rt → Type 0
  Follows f =
      (((is_empty mode_of ≡ true) ⊎ (mode_of ≡ codes "include"))
        × ((allow_deterministic rt f q).0 ≡ wanted))
      ⊎ ((mode_of ≡ codes "exclude") × ((allow_deterministic rt f q).0 ≡ not unwanted))

  abbrev made : List rt.Regexp → QueryFilter rt
  made res = record {
    mode = chosen;
    sql_operations = operation_set rt c.shadow_filter_sql_operations;
    patterns = res;
    sample_rate = c.shadow_sample_rate;
  }
