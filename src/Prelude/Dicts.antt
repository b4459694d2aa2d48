-- ===== src/Prelude/Dicts.antt =====
-- A JavaScript `Map` with text keys, as the list of its entries in insertion order.
use Prim.Native.String.{String}
use mathlib.Core.Path.{◌≡◌, refl, subst}
use mathlib.Core.Bool.{Bool, not}
use mathlib.Core.List.{List, [], ◌∷◌}
use mathlib.Core.Option.{Option, none, some, some_inj}
use native.Mathlib.Omega.{arith}
use disciplr_backend.Prelude.Tests.{if◌then◌else◌, Bool-cases, if_both}
use mathlib.Core.Logic.{inl, inr}
use disciplr_backend.Prelude.Lists.{filter}
use disciplr_backend.Prelude.Ids.{same, same_iff, same_refl}

abbrev pub Dict {ℓ} : Type ℓ → Type ℓ
Dict V = List (String × V)

abbrev pub keep_if {ℓ} : {V : Type ℓ} → (V → Bool) → Option V → Option V
keep_if p none = none
keep_if p (some v) = if p v then some v else none

module _ {ℓ} {V : Type ℓ} where
  -- m.get(k)
  unfoldable pub lookup : String → Dict V → Option V
  lookup k [] = none
  lookup k (e ∷ m) = let rest = lookup k m in if same e.0 k then some e.1 else rest

  -- m.set(k, v): an entry keeps its place.
  unfoldable pub put : String → V → Dict V → Dict V
  put k v [] = (k, v) ∷ []
  put k v (e ∷ m) = let rest = put k v m in if same e.0 k then (k, v) ∷ m else e ∷ rest

  -- m.delete(k)
  unfoldable pub without : String → Dict V → Dict V
  without k m = filter (λ e. not (same e.0 k)) m

  -- The entries whose values pass the test.
  unfoldable pub keep_values : (V → Bool) → Dict V → Dict V
  keep_values p m = filter (λ e. p e.1) m

  -- No key stands twice.
  abbrev pub HasUniqueKeys : Dict V → Type ℓ
  HasUniqueKeys [] = Unit
  HasUniqueKeys (e ∷ m) = (lookup e.0 m ≡ none) × HasUniqueKeys m

  pub lookup-put :
      (k j : String) (v : V) (m : Dict V)
      → lookup j (put k v m) ≡ (if same k j then some v else lookup j m)
  unfolding lookup put
  lookup-put k j v [] = refl
  lookup-put k j v (e ∷ m) =
      ground (arith, same_iff k j, same_iff e.0 k, same_iff e.0 j, lookup-put k j v m)

  pub lookup-without :
      (k j : String) (m : Dict V) → lookup j (without k m) ≡ (if same k j then none else lookup j m)
  unfolding lookup without
  lookup-without k j [] = ground arith
  lookup-without k j (e ∷ m) =
      ground (arith, same_iff k j, same_iff e.0 k, same_iff e.0 j, lookup-without k j m)

  pub lookup-keep_values :
      (p : V → Bool) (j : String) (m : Dict V)
      → HasUniqueKeys m
      → lookup j (keep_values p m) ≡ keep_if p (lookup j m)
  unfolding lookup keep_values
  lookup-keep_values p j [] u = refl
  lookup-keep_values p j (e ∷ m) u =
      ground (arith, same_iff e.0 j, u.0, lookup-keep_values p j m u.1)

  pub put-HasUniqueKeys :
      (k : String) (v : V) (m : Dict V) → HasUniqueKeys m → HasUniqueKeys (put k v m)
  unfolding put lookup
  put-HasUniqueKeys k v [] u = (refl, tt)
  put-HasUniqueKeys k v (e ∷ m) u = elim (Bool-cases (same e.0 k)) [
    | inl hit ↦ rw (hit) (subst (λ j. lookup j m ≡ none) ((same_iff e.0 k).0 hit) u.0, u.1)
    | inr miss ↦ rw (miss) (
      rw (lookup-put k e.0 v m) (ground (arith, same_iff k e.0, same_iff e.0 k, u.0)),
      put-HasUniqueKeys k v m u.1,
    )
  ]

  pub keep_values-HasUniqueKeys :
      (p : V → Bool) (m : Dict V) → HasUniqueKeys m → HasUniqueKeys (keep_values p m)
  unfolding keep_values
  keep_values-HasUniqueKeys p [] u = tt
  keep_values-HasUniqueKeys p (e ∷ m) u =
      if_both HasUniqueKeys (p e.1)
        (rw (lookup-keep_values p e.0 m u.1, u.0) refl, keep_values-HasUniqueKeys p m u.1)
        (keep_values-HasUniqueKeys p m u.1)

  pub without-HasUniqueKeys :
      (k : String) (m : Dict V) → HasUniqueKeys m → HasUniqueKeys (without k m)
  unfolding without
  without-HasUniqueKeys k [] u = tt
  without-HasUniqueKeys k (e ∷ m) u =
      if_both HasUniqueKeys (not (same e.0 k))
        (rw (lookup-without k e.0 m) (ground (arith, u.0)), without-HasUniqueKeys k m u.1)
        (without-HasUniqueKeys k m u.1)

  pub put-put : (k : String) (u v : V) (m : Dict V) → put k v (put k u m) ≡ put k v m
  unfolding put
  put-put k u v [] = rw (same_refl k) refl
  put-put k u v (e ∷ m) = ground (arith, same_refl k, put-put k u v m)

module _ {ℓ κ} {V : Type ℓ} (P : V → Type κ) where
  -- A predicate on each value.
  abbrev pub AllValues : Dict V → Type κ
  AllValues [] = Unit
  AllValues (e ∷ m) = P e.1 × AllValues m

  pub put-AllValues : (k : String) (v : V) (m : Dict V) → P v → AllValues m → AllValues (put k v m)
  unfolding put
  put-AllValues k v [] h all = (h, tt)
  put-AllValues k v (e ∷ m) h all =
      if_both AllValues (same e.0 k) (h, all.1) (all.0, put-AllValues k v m h all.1)

  pub lookup-AllValues : (k : String) (m : Dict V) {v : V} → lookup k m ≡ some v → AllValues m → P v
  unfolding lookup
  lookup-AllValues k [] e all = cc e
  lookup-AllValues k (x ∷ m) {v} e all = elim (Bool-cases (same x.0 k)) [
    | inl h ↦ subst P (some_inj.0 (rw (h) at e)) all.0
    | inr h ↦ lookup-AllValues k m (rw (h) at e) all.1
  ]
