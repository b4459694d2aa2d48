-- ===== src/Flags.antt =====
-- src/services/featureFlags.ts. The table of flags is an argument, none where the database fails; the
-- hash that spreads organizations over a hundred buckets is an argument too.
pub mod Lookups
use disciplr_backend.Prelude.{
  ℕ, suc, ◌-◌, min, String, Bool, true, false, not, ◌&&◌, ◌||◌, Option, none, some, List, [], ◌∷◌,
  ltb, leb, ◌==◌, if◌then◌else◌, find, any, length, map, same, join, is_empty, or_null, or_default,
  Dict, lookup, put, without,
}

pub record CacheEntry : Type 0 where
  pub value : Bool
  pub timestamp : ℕ

abbrev pub Cache : Type 0
Cache = Dict CacheEntry

abbrev pub max_size : ℕ
max_size = 1000

abbrev pub ttl_ms : ℕ
ttl_ms = 300000

-- The first key is deleted; an empty one is taken for none.
abbrev pub without_first : Cache → Cache
without_first [] = []
without_first (e ∷ c) = if is_empty e.0 then e ∷ c else c

unfoldable pub cache_set : String → Bool → ℕ → Cache → Cache
cache_set key value now c =
    put key (record { value = value; timestamp = now })
      (if leb max_size (length c) then without_first c else c)

unfoldable pub cache_get : String → ℕ → Cache → Cache × Option Bool
cache_get key now c = elim (lookup key c) [
  | none ↦ (c, none)
  | some e ↦ if ltb ttl_ms (now - e.timestamp) then (without key c, none) else (c, some e.value)
]

-- string | number | boolean | null | undefined
pub data Scalar : Type 0 where
  undefined null : Scalar
  text : String → Scalar
  number : ℕ → Scalar
  boolean : Bool → Scalar

-- a === b
unfoldable pub equals : Scalar → Scalar → Bool
equals undefined undefined = true
equals null null = true
equals (text s) (text t) = same s t
equals (number m) (number n) = m == n
equals (boolean true) (boolean b) = b
equals (boolean false) (boolean b) = not b
equals _ _ = false

abbrev pub FlagContext : Type 0
FlagContext = Dict Scalar

pub data Operator : Type 0 where
  eq neq in_values not_in_values unknown_operator : Operator

-- `value` is none where the rule has no such property.
pub record FlagRule : Type 0 where
  pub attribute : String
  pub operator : Option Operator
  pub rule_value : Option Scalar
  pub values : Option (List Scalar)
  pub rule_enabled : Option Bool

-- The column of rules: nothing, a list, or a text with the list that it is read as, if it is one.
pub data RulesColumn : Type 0 where
  no_rules : RulesColumn
  rule_list : List FlagRule → RulesColumn
  rule_text : Option (List FlagRule) → RulesColumn

-- The column of the percentage: nothing, no finite number, a negative one, or a whole one.
pub data RolloutColumn : Type 0 where
  no_rollout not_finite negative : RolloutColumn
  percentage : ℕ → RolloutColumn

-- `enabled` as the database gives it: true, 1 or '1', or anything else.
pub record FlagRow : Type 0 where
  pub name : String
  pub org_id : Option String
  pub enabled : Bool
  pub rollout_percentage : RolloutColumn
  pub rules : RulesColumn

-- The order of sort and the text of a value, as JavaScript fixes them, and the bucket of an
-- organization.
pub record Platform : Type 0 where
  pub key_leb : String → String → Bool
  pub text_of : Scalar → String
  pub bucket : String → String → ℕ

unfoldable pub insert_key : (String → String → Bool) → String → List String → List String
insert_key le k [] = k ∷ []
insert_key le k (x ∷ xs) = let rest = insert_key le k xs in if le k x then k ∷ x ∷ xs else x ∷ rest

unfoldable pub sorted_keys : (String → String → Bool) → FlagContext → List String
sorted_keys le [] = []
sorted_keys le (e ∷ c) = insert_key le e.0 (sorted_keys le c)

unfoldable pub attribute_of : FlagContext → String → Scalar
attribute_of context key = or_default (lookup key context) undefined

-- .join('&')
abbrev pub join_all : List String → String
join_all [] = ""
join_all (s ∷ []) = s
join_all (s ∷ t ∷ rest) = join s (join "&" (join_all (t ∷ rest)))

unfoldable pub context_key : Platform → Option FlagContext → String
context_key p none = ""
context_key p (some context) = join_all (
    map (λ key. join key (join "=" (p.text_of (attribute_of context key))))
      (sorted_keys p.key_leb context))

unfoldable pub get_cache_key : Platform → String → Option String → Option FlagContext → String
get_cache_key p name org context =
    join name
      (join ":" (join (or_default (or_null org) "global") (join ":" (context_key p context))))

unfoldable pub parse_rules : RulesColumn → List FlagRule
parse_rules no_rules = []
parse_rules (rule_list rules) = rules
parse_rules (rule_text none) = []
parse_rules (rule_text (some rules)) = rules

unfoldable pub get_rollout_percentage : RolloutColumn → Option ℕ
get_rollout_percentage no_rollout = none
get_rollout_percentage not_finite = none
get_rollout_percentage negative = some 0
get_rollout_percentage (percentage n) = some (min 100 n)

abbrev pub own_values : FlagRule → List Scalar
own_values rule = elim rule.values [
  | some vs ↦ vs
  | none ↦ elim rule.rule_value [ none ↦ [] | some v ↦ v ∷ [] ]
]

abbrev pub apply_operator : Operator → Scalar → Scalar → List Scalar → Bool
apply_operator eq actual v vs = equals actual v
apply_operator neq actual v vs = not (equals actual v)
apply_operator in_values actual v vs = any (equals actual) vs
apply_operator not_in_values actual v vs = not (any (equals actual) vs)
apply_operator unknown_operator actual v vs = false

unfoldable pub matches_feature_flag_rule : FlagRule → FlagContext → Bool
matches_feature_flag_rule rule context =
    apply_operator (or_default rule.operator eq) (attribute_of context rule.attribute)
      (or_default rule.rule_value undefined) (own_values rule)

unfoldable pub rollout_or_default : Platform → FlagRow → String → Option String → Bool
rollout_or_default p row name org = elim (or_null org) [
  | none ↦ row.enabled
  | some id ↦ elim (get_rollout_percentage row.rollout_percentage) [
    | none ↦ row.enabled
    | some n ↦ ltb (p.bucket name id) n
  ]
]

unfoldable pub evaluate_targeted_flag :
    Platform → Option FlagRow → String → Option String → FlagContext → Bool
evaluate_targeted_flag p none name org context = false
evaluate_targeted_flag p (some row) name org context =
    elim (find (λ rule. matches_feature_flag_rule rule context) (parse_rules row.rules)) [
      | some rule ↦ or_default rule.rule_enabled true
      | none ↦ rollout_or_default p row name org
    ]

abbrev pub same_org : Option String → Option String → Bool
same_org none none = true
same_org none (some b) = false
same_org (some a) none = false
same_org (some a) (some b) = same a b

unfoldable pub is_flag : String → Option String → FlagRow → Bool
is_flag name org row = same row.name name && same_org row.org_id org

-- The default of the flag, with the cache key that the caller has made.
unfoldable pub get_global :
    Platform
    → Option (List FlagRow)
    → String
    → Option String
    → FlagContext
    → String
    → ℕ
    → Cache
    → Cache × Bool
get_global p table name org context key now c =
    let looked = cache_get key now c in
    elim looked.1 [
      | some v ↦ (looked.0, v)
      | none ↦ elim table [
        | none ↦ (looked.0, false)
        | some rows ↦
            let v = evaluate_targeted_flag p (find (is_flag name none) rows) name org context in
            (cache_set key v now looked.0, v)
      ]
    ]

-- The row of the organization, if the database answers and there is one.
abbrev pub org_row : Option (List FlagRow) → String → String → Option FlagRow
org_row none name org = none
org_row (some rows) name org = find (is_flag name (some org)) rows

unfoldable pub get_for_org :
    Platform → Option (List FlagRow) → String → String → FlagContext → ℕ → Cache → Cache × Bool
get_for_org p table name org context now c =
    let key = get_cache_key p name (some org) (some context) in
    let looked = cache_get key now c in
    elim looked.1 [
      | some v ↦ (looked.0, v)
      | none ↦ elim (org_row table name org) [
        | some row ↦ (cache_set key row.enabled now looked.0, row.enabled)
        | none ↦ get_global p table name (some org) context key now looked.0
      ]
    ]

-- Without an organization the context is no part of the cache key.
unfoldable pub get_flag :
    Platform
    → Option (List FlagRow)
    → String
    → Option String
    → FlagContext
    → ℕ
    → Cache
    → Cache × Bool
get_flag p table name org context now c = elim (or_null org) [
  | some id ↦ get_for_org p table name id context now c
  | none ↦ get_global p table name org context (get_cache_key p name org none) now c
]

abbrev pub update_rows : String → Option String → Bool → List FlagRow → List FlagRow
update_rows name org enabled [] = []
update_rows name org enabled (row ∷ rows) =
    let rest = update_rows name org enabled rows in
    if is_flag name org row then record row { enabled = enabled } ∷ rest else row ∷ rest

-- An update of no row is followed by an insert; then the cache is emptied.
unfoldable pub set_flag :
    String → Option String → Bool → List FlagRow → Cache → (List FlagRow × Cache) × Bool
set_flag name org enabled rows c =
    let inserted =
      if any (is_flag name org) rows
      then update_rows name org enabled rows
      else record {
        name = name;
        org_id = org;
        enabled = enabled;
        rollout_percentage = no_rollout;
        rules = no_rules;
      }
        ∷ rows in
    ((inserted, []), enabled)

unfoldable pub is_valid_feature_flag : String → Bool
is_valid_feature_flag value = any (same value) (
    "ENTERPRISE_ANALYTICS" ∷ "MULTI_VERIFIER_ENABLED" ∷ "ORGANIZATION_QUOTAS" ∷ "ADVANCED_ANALYTICS"
    ∷ [])
