-- ===== src/Quota.antt =====
-- The daily quota of src/services/exportQuota.ts with its repository in memory. The mutex makes an
-- increment one step.
pub mod Days
use disciplr_backend.Prelude.{
  ℕ, zero, suc, ◌+◌, ◌-◌, ◌/◌, max, String, Bool, Option, none, some, List, [], ◌∷◌, ltb, leb,
  if◌then◌else◌, join, Dict, lookup, put,
}

pub record OrgQuotaEntry : Type 0 where
  pub org_id : String
  pub quota_date : String
  pub metric : String
  pub used : ℕ
  pub limit : ℕ
  pub updated_at : ℕ

abbrev pub Quotas : Type 0
Quotas = Dict OrgQuotaEntry

unfoldable pub quota_key : String → String → String → String
quota_key org date metric = join org (join ":" (join date (join ":" metric)))

abbrev pub used_before : Option OrgQuotaEntry → ℕ
used_before none = 0
used_before (some e) = e.used

unfoldable pub incremented : String → String → String → ℕ → ℕ → Quotas → OrgQuotaEntry
incremented org date metric daily_limit now q = record {
  org_id = org;
  quota_date = date;
  metric = metric;
  used = used_before (lookup (quota_key org date metric) q) + 1;
  limit = daily_limit;
  updated_at = now;
}

unfoldable pub increment : String → String → String → ℕ → ℕ → Quotas → Quotas × OrgQuotaEntry
increment org date metric daily_limit now q =
    let entry = incremented org date metric daily_limit now q in
    (put (quota_key org date metric) entry q, entry)

unfoldable pub get : String → String → String → Quotas → Option OrgQuotaEntry
get org date metric q = lookup (quota_key org date metric) q

unfoldable pub reset : Quotas → Quotas
reset q = []

pub data Decision : Type 0 where
  allowed : Decision
  denied : (retry_after : ℕ) → Decision

-- `ms` is the time of the day in milliseconds; the quotient is rounded up.
unfoldable pub seconds_until_end_of_utc_day : ℕ → ℕ
seconds_until_end_of_utc_day ms = max 1 ((86400000 - ms + 999) / 1000)

abbrev pub export_quota_metric : String
export_quota_metric = "exports"

unfoldable pub is_used_up : Option OrgQuotaEntry → Bool
is_used_up none = Bool.false
is_used_up (some e) = leb e.limit e.used

unfoldable pub check_and_increment_export_quota :
    String → ℕ → (today : String) → (now ms : ℕ) → Quotas → Quotas × Decision
check_and_increment_export_quota org daily_limit today now ms q =
    if is_used_up (get org today export_quota_metric q)
    then (q, denied (seconds_until_end_of_utc_day ms))
    else let r = increment org today export_quota_metric daily_limit now q in
      (r.0, if ltb r.1.limit r.1.used then denied (seconds_until_end_of_utc_day ms) else allowed)
