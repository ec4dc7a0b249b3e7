-- ===== src/Tests/Settings.antt =====
-- config.go on a list in a variable.
use starrocks_shadow_proxy.Config.{Env, get_env_list}
use starrocks_shadow_proxy.Config.Lists.{joined, get_env_list-joined}
use starrocks_shadow_proxy.Prelude.{◌≡◌, refl, [], ◌∷◌, replicate}
use starrocks_shadow_proxy.Prelude.Text.{
  codes, is_empty, trim_space, trim_left, trim_right, is_space,
}

abbrev settings : Env
settings key = codes "a, bc"

get_env_list-joined_example :
    get_env_list settings (codes "SHADOW_FILTER_SQL_OPERATIONS") [] ≡ codes "a" ∷ codes "bc" ∷ []
unfolding joined is_empty trim_space trim_left trim_right is_space replicate
get_env_list-joined_example =
    get_env_list-joined settings (codes "SHADOW_FILTER_SQL_OPERATIONS") [] (0, codes "a")
      ((1, codes "bc") ∷ [])
      (
        record { not_empty = refl; no_comma = (refl, tt); trimmed = refl },
        (record { not_empty = refl; no_comma = (refl, (refl, tt)); trimmed = refl }, tt),
      )
      refl
