-- ===== src/Quota/Days.antt =====
-- A day of checks of src/services/exportQuota.ts.
use disciplr_backend.Prelude.{
  ℕ, suc, ◌+◌, ◌-◌, min, String, true, false, Option, none, some, List, [], ◌∷◌, ◌≡◌, refl, ap, sym,
  subst, ◌∙◌, arith, ltb, if◌then◌else◌, lookup, put, lookup-put, same_refl, length, Bool-cases,
  inl, inr,
}
use disciplr_backend.Quota.{
  OrgQuotaEntry, Quotas, quota_key, used_before, incremented, increment, get, Decision, allowed,
  denied, is_used_up, export_quota_metric, check_and_increment_export_quota,
  seconds_until_end_of_utc_day,
}

unfoldable pub is_allowed : Decision → ℕ
is_allowed allowed = 1
is_allowed (denied s) = 0

module _ (org today : String) (daily_limit : ℕ) where
  -- How many of the checks at some times are allowed.
  unfoldable pub allowed_checks : List (ℕ × ℕ) → Quotas → ℕ
  allowed_checks [] q = 0
  allowed_checks (t ∷ ts) q =
      let r = check_and_increment_export_quota org daily_limit today t.0 t.1 q in
      is_allowed r.1 + allowed_checks ts r.0

  abbrev left_of : Option OrgQuotaEntry → ℕ
  left_of none = daily_limit
  left_of (some e) = daily_limit - e.used

  abbrev HasLimit : Option OrgQuotaEntry → Type 0
  HasLimit none = Unit
  HasLimit (some e) = e.limit ≡ daily_limit

  -- One check, where the organization stands at an entry of the same limit.
  check_denied :
      (now ms : ℕ) (q : Quotas)
      → is_used_up (get org today export_quota_metric q) ≡ true
      → check_and_increment_export_quota org daily_limit today now ms q
        ≡ (q, denied (seconds_until_end_of_utc_day ms))
  unfolding check_and_increment_export_quota
  check_denied now ms q h = rw (h) refl

  entry_after : ℕ → Quotas → OrgQuotaEntry
  entry_after now q = incremented org today export_quota_metric daily_limit now q

  check_counted :
      (now ms : ℕ) (q : Quotas)
      → is_used_up (get org today export_quota_metric q) ≡ false
      → check_and_increment_export_quota org daily_limit today now ms q ≡ (
        put (quota_key org today export_quota_metric) (entry_after now q) q,
        if ltb daily_limit (used_before (lookup (quota_key org today export_quota_metric) q) + 1)
            then denied (seconds_until_end_of_utc_day ms)
            else allowed,
      )
  unfolding check_and_increment_export_quota increment incremented entry_after
  check_counted now ms q h = rw (h) refl

  lookup-after :
      (now : ℕ) (q : Quotas)
      → lookup
          (quota_key org today export_quota_metric)
          (put (quota_key org today export_quota_metric) (entry_after now q) q)
        ≡ some (entry_after now q)
  lookup-after now q =
      lookup-put (quota_key org today export_quota_metric) (quota_key org today export_quota_metric)
        _ q
      ∙ rw (same_refl (quota_key org today export_quota_metric)) refl

  entry_after-limit : (now : ℕ) (q : Quotas) → HasLimit (some (entry_after now q))
  unfolding entry_after incremented
  entry_after-limit now q = refl

  nothing_left :
      (n : ℕ) (o : Option OrgQuotaEntry)
      → HasLimit o
      → is_used_up o ≡ true
      → min n (left_of o) ≡ min (suc n) (left_of o)
  unfolding is_used_up
  nothing_left n none h u = cc u
  nothing_left n (some e) h u = ground (arith, h, u)

  counted :
      (n s : ℕ) (o : Option OrgQuotaEntry)
      → HasLimit o
      → is_used_up o ≡ false
      → is_allowed (if ltb daily_limit (used_before o + 1) then denied s else allowed)
          + min n (daily_limit - (used_before o + 1))
        ≡ min (suc n) (left_of o)
  unfolding is_used_up is_allowed
  counted n s none h u = ground arith
  counted n s (some e) h u = ground (arith, h, u)

  one_more :
      (n s now : ℕ) (q : Quotas)
      → HasLimit (lookup (quota_key org today export_quota_metric) q)
      → is_used_up (lookup (quota_key org today export_quota_metric) q) ≡ false
      → is_allowed (
            if ltb daily_limit
              (used_before (lookup (quota_key org today export_quota_metric) q) + 1)
            then denied s
            else allowed)
          + min n (left_of (some (entry_after now q)))
        ≡ min (suc n) (left_of (lookup (quota_key org today export_quota_metric) q))
  unfolding entry_after incremented
  one_more n s now q h u = counted n s (lookup (quota_key org today export_quota_metric) q) h u

  -- As many checks of a day are allowed as are made, up to the limit less what was used before, if the
  -- entry of the organization for the day, where there is one, was written with the same limit.
  pub allowed_checks-min :
      (ts : List (ℕ × ℕ)) (q : Quotas)
      → HasLimit (get org today export_quota_metric q)
      → allowed_checks ts q ≡ min (length ts) (left_of (get org today export_quota_metric q))
  unfolding allowed_checks get is_allowed
  allowed_checks-min [] q h = omega arith
  allowed_checks-min (t ∷ ts) q h =
      elim (Bool-cases (is_used_up (lookup (quota_key org today export_quota_metric) q))) [
        | inl u ↦ rw (check_denied t.0 t.1 q u) (
            omega (
              arith,
              allowed_checks-min ts q h,
              nothing_left (length ts) (lookup (quota_key org today export_quota_metric) q) h u,
            ))
        | inr u ↦ rw (check_counted t.0 t.1 q u) (
            let key = quota_key org today export_quota_metric in
            let after = lookup-after t.0 q in
            let ih =
              allowed_checks-min ts (put key (entry_after t.0 q) q)
                (subst HasLimit (sym after) (entry_after-limit t.0 q)) in
            ap
              (λ n.
                is_allowed (
                  if ltb daily_limit (used_before (lookup key q) + 1)
                  then denied (seconds_until_end_of_utc_day t.1)
                  else allowed)
                + n)
              (ih ∙ ap (λ o. min (length ts) (left_of o)) after)
            ∙ one_more (length ts) (seconds_until_end_of_utc_day t.1) t.0 q h u)
      ]
