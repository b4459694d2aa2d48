-- ===== src/Vault/Thresholds/Veto.antt =====
-- The veto rule of `allMilestonesMetThreshold` in src/services/milestones.ts.
use disciplr_backend.Prelude.{
  ℕ, ◌+◌, ◌≤◌, ◌<◌, String, true, false, Option, none, some, List, [], ◌∷◌, ◌≡◌, ◌≢◌, refl, ◌↔◌,
  arith, All, all, length, leb, if◌then◌else◌, ◌==◌, zero, suc,
}
use disciplr_backend.Vault.Milestones.{Milestone, Table, get_milestones_by_vault_id}
use disciplr_backend.Vault.Thresholds.{
  Votes, Counts, votes_of, vetoed, settled, milestone_met, threshold_or_one,
  all_milestones_met_threshold, or_zero,
}

-- Where the number of verifiers is not known, nobody may have rejected.
abbrev pub NoLoneVeto : Option ℕ → ℕ → Type 0
NoLoneVeto none rejected = rejected ≡ 0
NoLoneVeto (some zero) rejected = rejected ≡ 0
NoLoneVeto (some (suc n)) rejected = Unit

judged_iff :
    (threshold approved rejected : ℕ) (total : Option ℕ)
    → ((if vetoed threshold approved rejected total then false else leb threshold approved) ≡ true)
      ↔ ((threshold ≤ approved) × NoLoneVeto total rejected)
unfolding vetoed
judged_iff threshold approved rejected none = (λ h. ground arith, λ h. ground arith)
judged_iff threshold approved rejected (some zero) = (λ h. ground arith, λ h. ground arith)
judged_iff threshold approved rejected (some (suc n)) = (λ h. (ground arith, tt), λ h. ground arith)

settled_iff :
    (threshold : ℕ) (v : Votes)
    → (settled threshold v ≡ true)
      ↔ ((threshold ≤ v.approved) × NoLoneVeto v.total_verifiers v.rejected)
unfolding settled
settled_iff threshold v = judged_iff threshold v.approved v.rejected v.total_verifiers

module _ (approvals rejections totals : Counts) where
  -- A milestone whose approvals reach its threshold, with no veto where the total is unknown.
  abbrev pub IsMet : Milestone → Type 0
  IsMet m =
      (threshold_or_one m.approval_threshold ≤ or_zero (approvals m.id))
      × NoLoneVeto (totals m.id) (or_zero (rejections m.id))

  milestone_met_iff :
      (m : Milestone) → (milestone_met approvals rejections totals m ≡ true) ↔ IsMet m
  unfolding milestone_met
  milestone_met_iff m =
      settled_iff (threshold_or_one m.approval_threshold) (votes_of approvals rejections totals m)

  all-IsMet_iff :
      (ms : List Milestone)
      → (all (milestone_met approvals rejections totals) ms ≡ true) ↔ All IsMet ms
  all-IsMet_iff [] = (λ h. tt, λ h. refl)
  all-IsMet_iff (m ∷ ms) = (
    λ h. ((milestone_met_iff m).0 (ground arith), (all-IsMet_iff ms).0 (ground arith)),
    λ (a, b). ground (arith, (milestone_met_iff m).1 a, (all-IsMet_iff ms).1 b),
  )

  -- A vault meets its thresholds exactly when it has milestones, each has as many approvals as
  -- it wants, and none whose number of verifiers is unknown (or 0) was rejected: where the number
  -- is known the veto test of the code decides nothing.
  pub all_milestones_met_threshold_iff :
      (vault_id : String) (t : Table)
      → (all_milestones_met_threshold vault_id approvals rejections totals t ≡ true) ↔ (
          (get_milestones_by_vault_id vault_id t ≢ [])
          × All IsMet (get_milestones_by_vault_id vault_id t))
  unfolding all_milestones_met_threshold
  all_milestones_met_threshold_iff vault_id t = nonempty_all (get_milestones_by_vault_id vault_id t)
    where
      nonempty_all :
          (ms : List Milestone)
          → ((if length ms == 0 then false else all (milestone_met approvals rejections totals) ms)
              ≡ true)
            ↔ ((ms ≢ []) × All IsMet ms)
      nonempty_all [] = (λ h. cc, λ (ne, a). absurd (ne refl))
      nonempty_all (m ∷ ms) = (
        λ h. (λ e. cc, (all-IsMet_iff (m ∷ ms)).0 (ground arith)),
        λ (ne, a). ground (arith, (all-IsMet_iff (m ∷ ms)).1 a),
      )

-- A veto that the counts report is final: however the remaining verifiers vote, the approvals
-- stay below the threshold as long as there are no more votes than verifiers.
vetoed_final :
    (threshold n approved rejected approved' rejected' : ℕ)
    → 0 < n
    → vetoed threshold approved rejected (some n) ≡ true
    → approved ≤ approved'
    → rejected ≤ rejected'
    → approved' + rejected' ≤ n
    → approved' < threshold
unfolding vetoed
vetoed_final threshold n approved rejected approved' rejected' pos veto a r fits = ground arith
