-- ===== src/Vault/Thresholds.antt =====
-- src/services/milestones.ts, the M-of-N part: milestones that want several approvals.
pub mod Veto
use disciplr_backend.Prelude.{
  ℕ, ◌+◌, ◌-◌, String, Bool, true, false, ◌&&◌, not, Option, none, some, List, [], ◌∷◌, ◌++◌, map,
  ltb, leb, ◌==◌, if◌then◌else◌, filter, all, same, is_empty, or_null, or_default, length,
}
use disciplr_backend.Vault.Milestones.{
  Milestone, Table, in_vault, get_milestones_by_vault_id, get_milestone_by_id, assigned_to_another,
}

pub record MilestoneWithThreshold : Type 0 where
  pub id : String
  pub vault_id : String
  pub description : String
  pub verifier_id : Option String
  pub approval_threshold : ℕ
  pub verified : Bool
  pub verified_at : Option ℕ
  pub verified_by : Option String
  pub created_at : ℕ

-- n || 1, where `n` may be absent
unfoldable pub threshold_or_one : Option ℕ → ℕ
threshold_or_one none = 1
threshold_or_one (some n) = if n == 0 then 1 else n

-- n || 0, where `n` may be absent
abbrev pub or_zero : Option ℕ → ℕ
or_zero o = or_default o 0

unfoldable pub create_milestone_with_threshold :
    String → ℕ → String → String → Option ℕ → Option String → Table → Table × MilestoneWithThreshold
create_milestone_with_threshold id now vault_id description approval_threshold verifier_id t =
    (record t { milestones = t.milestones ++ stored ∷ [] }, milestone)
  where
    stored : Milestone
    stored = record {
      id = id;
      vault_id = vault_id;
      description = description;
      verified = false;
      verified_at = none;
      verified_by = none;
      verifier_id = or_null verifier_id;
      evidence_hash = none;
      created_at = now;
      due_date = none;
      approval_threshold = some (or_default approval_threshold 1);
    }

    milestone : MilestoneWithThreshold
    milestone = record {
      id = id;
      vault_id = vault_id;
      description = description;
      verifier_id = or_null verifier_id;
      approval_threshold = or_default approval_threshold 1;
      verified = false;
      verified_at = none;
      verified_by = none;
      created_at = now;
    }

unfoldable pub with_threshold : Milestone → MilestoneWithThreshold
unfolding threshold_or_one
with_threshold m = record {
  id = m.id;
  vault_id = m.vault_id;
  description = m.description;
  verifier_id = or_null m.verifier_id;
  approval_threshold = threshold_or_one m.approval_threshold;
  verified = m.verified;
  verified_at = m.verified_at;
  verified_by = m.verified_by;
  created_at = m.created_at;
}

unfoldable pub get_milestone_by_id_with_threshold : String → Table → Option MilestoneWithThreshold
unfolding get_milestone_by_id with_threshold
get_milestone_by_id_with_threshold id t = elim (get_milestone_by_id id t) [
  | none ↦ none
  | some m ↦ some (with_threshold m)
]

abbrev passes_minimum : Option ℕ → MilestoneWithThreshold → Bool
passes_minimum none m = true
passes_minimum (some least) m = leb least m.approval_threshold

unfoldable pub get_milestones_by_vault_id_with_threshold :
    String → Option ℕ → Table → List MilestoneWithThreshold
unfolding in_vault with_threshold
get_milestones_by_vault_id_with_threshold vault_id min_threshold t =
    filter (passes_minimum min_threshold)
      (map with_threshold (filter (in_vault vault_id) t.milestones))

pub data MultiVerifierError : Type 0 where
  not_found : MultiVerifierError
  unauthorized already_verified : MilestoneWithThreshold → MultiVerifierError

pub data MultiVerifierResult : Type 0 where
  can_approve : MilestoneWithThreshold → MultiVerifierResult
  cannot_approve : MultiVerifierError → MultiVerifierResult

-- threshold === 1 && verifierId && verifierId !== validatorUserId
unfoldable pub sole_verifier_is_another : MilestoneWithThreshold → String → Bool
unfolding assigned_to_another
sole_verifier_is_another m user =
    m.approval_threshold == 1 && assigned_to_another m.verifier_id user

unfoldable pub validate_milestone_multi_verifier : String → String → Table → MultiVerifierResult
unfolding get_milestone_by_id_with_threshold sole_verifier_is_another
validate_milestone_multi_verifier id user t = elim (get_milestone_by_id_with_threshold id t) [
  | none ↦ cannot_approve not_found
  | some m ↦
      if sole_verifier_is_another m user
      then cannot_approve (unauthorized m)
      else if m.verified
      then cannot_approve (already_verified m)
      else can_approve m
]

-- What the three count tables say of one milestone.
pub record Votes : Type 0 where
  pub approved : ℕ
  pub rejected : ℕ
  pub total_verifiers : Option ℕ

-- `Math.max(n - totalVoted, 0)` is the truncated difference.
unfoldable pub vetoed : ℕ → ℕ → ℕ → Option ℕ → Bool
vetoed threshold approved rejected none = ltb 0 rejected
vetoed threshold approved rejected (some n) =
    if ltb 0 n then ltb (approved + (n - (approved + rejected))) threshold else ltb 0 rejected

unfoldable pub settled : ℕ → Votes → Bool
unfolding vetoed
settled threshold v =
    if vetoed threshold v.approved v.rejected v.total_verifiers
    then false
    else leb threshold v.approved

-- `Record<string, number>`: a table from milestone ids, which may have no entry.
abbrev pub Counts : Type 0
Counts = String → Option ℕ

abbrev pub votes_of : Counts → Counts → Counts → Milestone → Votes
votes_of approvals rejections totals m = record {
  approved = or_zero (approvals m.id);
  rejected = or_zero (rejections m.id);
  total_verifiers = totals m.id;
}

unfoldable pub milestone_met : Counts → Counts → Counts → Milestone → Bool
unfolding settled threshold_or_one
milestone_met approvals rejections totals m =
    settled (threshold_or_one m.approval_threshold) (votes_of approvals rejections totals m)

unfoldable pub all_milestones_met_threshold : String → Counts → Counts → Counts → Table → Bool
unfolding get_milestones_by_vault_id
all_milestones_met_threshold vault_id approvals rejections totals t =
    let milestones = get_milestones_by_vault_id vault_id t in
    if length milestones == 0
    then false
    else all (milestone_met approvals rejections totals) milestones
