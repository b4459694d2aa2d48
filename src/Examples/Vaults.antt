-- ===== src/Examples/Vaults.antt =====
-- Vaults and milestones of concrete users, run through the models of src/services.
use disciplr_backend.Prelude.{
  ℕ, ◌≢◌, true, false, none, some, List, [], ◌∷◌, ◌≡◌, ◌↔◌, refl, get_elem?, All,
}
use disciplr_backend.Vault.Milestones.{
  Milestone, Table, has_id, get_milestone_by_id, get_milestones_by_vault_id, validated,
  validate_milestone,
}
use disciplr_backend.Vault.Milestones.Validation.{validate_milestone_once}
use disciplr_backend.Vault.Thresholds.{all_milestones_met_threshold, Counts}
use disciplr_backend.Vault.Thresholds.Veto.{IsMet, all_milestones_met_threshold_iff}
use disciplr_backend.Vault.Transitions.{
  active, completed, Vault, Store, Call, fail, activate, check_expired, dispute, run, to_completed,
  success, find_vault, has_vault_id, finish_vault, check_expired_vaults,
}
use disciplr_backend.Vault.Transitions.Lifecycle.{Descends, run-Descends}
use disciplr_backend.Vault.Transitions.Guards.{MayFinish, finish_vault-success_iff}
use disciplr_backend.Vault.Transitions.Expiry.{due_ids, check_expired_vaults_complete}

abbrev open_milestone : Milestone
open_milestone = record {
  id = "m1";
  vault_id = "v1";
  description = "run";
  verified = false;
  verified_at = none;
  verified_by = none;
  verifier_id = some "vera";
  evidence_hash = none;
  created_at = 5;
  due_date = none;
  approval_threshold = none;
}

abbrev table : Table
table = record { milestones = open_milestone ∷ []; events = [] }

abbrev closed : Milestone
closed = validated "vera" "hash" 9 open_milestone

abbrev closed_table : Table
closed_table = record { milestones = closed ∷ []; events = [] }

abbrev running : Vault
running = record { id = "v1"; creator = "cleo"; status = active; end_timestamp = some 100 }

abbrev ended : Vault
ended = record { id = "v2"; creator = "cleo"; status = completed; end_timestamp = some 100 }

abbrev undated : Vault
undated = record { id = "v3"; creator = "cleo"; status = active; end_timestamp = none }

abbrev store : Store
store = record { vaults = running ∷ ended ∷ []; table = closed_table }

abbrev calls : List (ℕ × Call)
calls =
    (50, dispute "v1" "root" "root")
    ∷ (120, check_expired)
    ∷ (130, fail "v1")
    ∷ (140, activate "v2")
    ∷ []

run-Descends_example :
    (w : Vault) × (get_elem? (run calls store).vaults 0 ≡ some w) × Descends running w
run-Descends_example = run-Descends calls store 0 {v = running} refl

finish_vault-success_iff_example :
    ((finish_vault to_completed "v1" none 50 store).1 ≡ success)
    ↔ MayFinish to_completed running none 50 closed_table
unfolding find_vault has_vault_id
finish_vault-success_iff_example =
    finish_vault-success_iff to_completed "v1" none 50 store {v = running} refl

check_expired_vaults_complete_example :
    ((check_expired_vaults 100 store).1 ≡ due_ids 100 store.vaults)
    × (check_expired_vaults 100 (check_expired_vaults 100 store).0
        ≡ ((check_expired_vaults 100 store).0, []))
check_expired_vaults_complete_example = check_expired_vaults_complete 100 store

abbrev after : Table
after = (validate_milestone "m1" "vera" "hash" "e1" 9 table).0

abbrev closed_milestone : Milestone
closed_milestone = (validated "vera" "hash" 9 open_milestone)

validate_milestone_once_example :
    (get_milestone_by_id "m1" after ≡ some closed_milestone)
    × (closed_milestone.verified ≡ true)
    × (closed_milestone.verified_by ≡ some "vera")
    × (closed_milestone.verified_at ≡ some 9)
    × (closed_milestone.evidence_hash ≡ some "hash")
    × ((validate_milestone "m1" "mallory" "other" "e2" 12 after).0 ≡ after)
unfolding validate_milestone get_milestone_by_id has_id validated
validate_milestone_once_example =
    validate_milestone_once "m1" "vera" "hash" "e1" 9 table {m = closed_milestone} "mallory" "other"
      "e2" 12 refl

abbrev two_approvals : Counts
two_approvals id = some 2

abbrev no_counts : Counts
no_counts id = none

all_milestones_met_threshold_iff_example :
    (all_milestones_met_threshold "v1" two_approvals no_counts no_counts table ≡ true) ↔ (
      (get_milestones_by_vault_id "v1" table ≢ [])
      × All (IsMet two_approvals no_counts no_counts) (get_milestones_by_vault_id "v1" table))
all_milestones_met_threshold_iff_example =
    all_milestones_met_threshold_iff two_approvals no_counts no_counts "v1" table
