-- ===== src/Examples/Switches.antt =====
-- Lookups of feature flags and checks of a quota, through the models of
-- src/services/featureFlags.ts and src/services/exportQuota.ts.
use disciplr_backend.Prelude.{
  ℕ, ◌≤◌, String, Bool, true, false, Option, none, some, List, [], ◌∷◌, ◌≡◌, refl, arith, find, min,
  length,
}
use disciplr_backend.Flags.{
  Cache, CacheEntry, Platform, FlagContext, FlagRow, FlagRule, Scalar, text, get_flag, set_flag,
  is_flag, evaluate_targeted_flag, no_rollout, no_rules, rule_list,
}
use disciplr_backend.Quota.Days.{allowed_checks, allowed_checks-min}
use disciplr_backend.Flags.Lookups.{get_flag_any_context, get_flag-set_flag}

abbrev platform : Platform
platform = record { key_leb = λ a b. true; text_of = λ v. "x"; bucket = λ name org. 5 }

-- The flag is on for the plan "pro" only.
abbrev pro_only : FlagRow
pro_only = record {
  name = "F";
  org_id = none;
  enabled = false;
  rollout_percentage = no_rollout;
  rules = rule_list (
      record {
        attribute = "plan";
        operator = none;
        rule_value = some (text "pro");
        values = none;
        rule_enabled = none;
      }
      ∷ []);
}

abbrev pro : FlagContext
pro = ("plan", text "pro") ∷ []

abbrev free : FlagContext
free = ("plan", text "free") ∷ []

get_flag_any_context_example :
    (get_flag platform
      (some (pro_only ∷ []))
      "F"
      none
      free
      2000
      (get_flag platform (some (pro_only ∷ [])) "F" none pro 1000 []).0).1
    ≡ evaluate_targeted_flag platform (find (is_flag "F" none) (pro_only ∷ [])) "F" none pro
unfolding get_flag disciplr_backend.Flags.cache_get disciplr_backend.Prelude.lookup
get_flag_any_context_example =
    get_flag_any_context platform (pro_only ∷ []) (some (pro_only ∷ [])) "F" pro free 1000 2000 []
      refl (omega arith)

get_flag-set_flag_example :
    (get_flag platform
      (some (set_flag "F" (some "acme") true (pro_only ∷ []) []).0.0)
      "F"
      (some "acme")
      free
      5
      (set_flag "F" (some "acme") true (pro_only ∷ []) []).0.1).1
    ≡ true
get_flag-set_flag_example =
    get_flag-set_flag platform "F" "acme" true (pro_only ∷ []) free 5 [] refl

abbrev times : List (ℕ × ℕ)
times = (1, 1) ∷ (2, 2) ∷ (3, 3) ∷ []

allowed_checks-min_example : allowed_checks "acme" "2026-01-01" 2 times [] ≡ min (length times) 2
unfolding disciplr_backend.Quota.get disciplr_backend.Prelude.lookup
allowed_checks-min_example = allowed_checks-min "acme" "2026-01-01" 2 times [] tt
