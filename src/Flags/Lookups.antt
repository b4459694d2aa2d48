-- ===== src/Flags/Lookups.antt =====
-- What a lookup of a flag in src/services/featureFlags.ts gives after a write or another lookup.
use disciplr_backend.Prelude.{
  ℕ, ◌-◌, ◌+◌, ◌≤◌, String, Bool, true, false, Option, none, some, List, [], ◌∷◌, ◌≡◌, refl, ap,
  sym, subst, ◌∙◌, arith, ltb, find, any, same_refl, is_empty, or_null, lookup, lookup-put,
  Bool-cases, inl, inr,
}
use disciplr_backend.Flags.{
  Cache, ttl_ms, cache_set, cache_get, Platform, FlagContext, FlagRow, get_cache_key,
  evaluate_targeted_flag, is_flag, same_org, get_global, get_for_org, get_flag, update_rows,
  set_flag, no_rollout, no_rules,
}

cache_set-get :
    (key : String) (v : Bool) (now later : ℕ) (c : Cache)
    → later ≤ now + ttl_ms
    → cache_get key later (cache_set key v now c) ≡ (cache_set key v now c, some v)
unfolding cache_get cache_set
cache_set-get key v now later c fresh =
    let there : lookup key (cache_set key v now c) ≡ some (record { value = v; timestamp = now }) =
      lookup-put key key _ _ ∙ rw (same_refl key) refl in
    let young : ltb ttl_ms (later - now) ≡ false = ground (arith, fresh) in
    rw (there, cache_get, young) refl

found_again :
    (p : Platform) (table : Option (List FlagRow)) (name : String) (other : FlagContext)
    (key : String) (later : ℕ) (c : Cache) (v : Bool)
    → cache_get key later c ≡ (c, some v)
    → (get_global p table name none other key later c).1 ≡ v
unfolding get_global
found_again p table name other key later c v h = rw (ap (λ x. x.1) h, get_global) refl

get_global_missed :
    (p : Platform) (rows : List FlagRow) (name : String) (context : FlagContext) (key : String)
    (now : ℕ) (c : Cache)
    → (cache_get key now c).1 ≡ none
    → get_global p (some rows) name none context key now c ≡ (
      cache_set key
          (evaluate_targeted_flag p (find (is_flag name none) rows) name none context)
          now
          (cache_get key now c).0,
      evaluate_targeted_flag p (find (is_flag name none) rows) name none context,
    )
unfolding get_global
get_global_missed p rows name context key now c missed = rw (missed, get_global) refl

-- A lookup without an organization that misses the cache fills it for every context: the very next
-- call, if it looks the same flag up without an organization before the entry has expired, is given the
-- same value in any other context, whatever the rules say of that one.
pub get_flag_any_context :
    (p : Platform) (rows : List FlagRow) (table : Option (List FlagRow)) (name : String)
    (context other : FlagContext) (now later : ℕ) (c : Cache)
    → (cache_get (get_cache_key p name none none) now c).1 ≡ none
    → later ≤ now + ttl_ms
    → (get_flag p table name none other later (get_flag p (some rows) name none context now c).0).1
      ≡ evaluate_targeted_flag p (find (is_flag name none) rows) name none context
unfolding get_flag
get_flag_any_context p rows table name context other now later c missed fresh =
    let key = get_cache_key p name none none in
    let v = evaluate_targeted_flag p (find (is_flag name none) rows) name none context in
    let again = cache_set-get key v now later (cache_get key now c).0 fresh in
    subst (λ r. (get_global p table name none other key later r.0).1 ≡ v)
      (sym (get_global_missed p rows name context key now c missed))
      (found_again p table name other key later (cache_set key v now (cache_get key now c).0) v
        again)

update_rows-find :
    (name : String) (org : Option String) (enabled : Bool) (rows : List FlagRow)
    → any (is_flag name org) rows ≡ true
    → (row : FlagRow) × (find (is_flag name org) (update_rows name org enabled rows) ≡ some row)
      × (row.enabled ≡ enabled)
unfolding is_flag
update_rows-find name org enabled [] h = cc h
update_rows-find name org enabled (row ∷ rows) h = elim (Bool-cases (is_flag name org row)) [
  | inl e ↦ (record row { enabled = enabled }, rw (e, e) refl, refl)
  | inr e ↦
      let (found, there, same_value) =
        update_rows-find name org enabled rows (ground (arith, h, e)) in
      (found, rw (e, e) there, same_value)
]

same_org_refl : (org : Option String) → same_org org org ≡ true
same_org_refl none = refl
same_org_refl (some s) = same_refl s

set_flag-find :
    (name : String) (org : Option String) (enabled : Bool) (rows : List FlagRow) (c : Cache)
    → (row : FlagRow) × (find (is_flag name org) (set_flag name org enabled rows c).0.0 ≡ some row)
      × (row.enabled ≡ enabled)
unfolding set_flag is_flag
set_flag-find name org enabled rows c = elim (Bool-cases (any (is_flag name org) rows)) [
  | inl e ↦ rw (e) (update_rows-find name org enabled rows e)
  | inr e ↦ rw (e) (
    record {
      name = name;
      org_id = org;
      enabled = enabled;
      rollout_percentage = no_rollout;
      rules = no_rules;
    },
    rw (same_refl name, same_org_refl org) refl,
    refl,
  )
]

or_null_given : (s : String) → is_empty s ≡ false → or_null (some s) ≡ some s
or_null_given String.[] h = cc h
or_null_given (String.◌∷◌ x s) h = refl

get_for_org_found :
    (p : Platform) (rows : List FlagRow) (name org : String) (context : FlagContext) (now : ℕ)
    (row : FlagRow)
    → find (is_flag name (some org)) rows ≡ some row
    → (get_for_org p (some rows) name org context now []).1 ≡ row.enabled
unfolding get_for_org cache_get lookup
get_for_org_found p rows name org context now row found = rw (found, get_for_org) refl

-- After a flag was set for an organization with a name, a lookup of the flag for that organization
-- gives what was set, in any context, at any time and whatever was cached before.
pub get_flag-set_flag :
    (p : Platform) (name org : String) (enabled : Bool) (rows : List FlagRow)
    (context : FlagContext) (now : ℕ) (c : Cache)
    → is_empty org ≡ false
    → (get_flag p
        (some (set_flag name (some org) enabled rows c).0.0)
        name
        (some org)
        context
        now
        (set_flag name (some org) enabled rows c).0.1).1
      ≡ enabled
unfolding get_flag set_flag
get_flag-set_flag p name org enabled rows context now c given =
    let (row, found, same_value) = set_flag-find name (some org) enabled rows c in
    rw (or_null_given org given, get_flag)
      (get_for_org_found p _ name org context now row found ∙ same_value)
