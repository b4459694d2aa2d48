-- ===== src/Verifiers/Approvals.antt =====
-- The votes of verifiers on a milestone, and its progress, of src/services/verifiers.ts. Rows stand
-- in the order of their insertion, which is that of `created_at`.
pub mod Votes
pub mod Progress
use disciplr_backend.Prelude.{
  ℕ, ◌+◌, ◌-◌, String, Bool, true, false, ◌&&◌, not, Option, none, some, List, [], ◌∷◌, ◌++◌,
  if◌then◌else◌, ltb, leb, is_some, length, filter, find, count, same,
}

pub data ApprovalStatus : Type 0 where
  pending approved rejected : ApprovalStatus

abbrev pub same_status : ApprovalStatus → ApprovalStatus → Bool
same_status pending pending = true
same_status approved approved = true
same_status rejected rejected = true
same_status _ _ = false

pub record MilestoneApproval : Type 0 where
  pub id : String
  pub milestone_id : String
  pub verifier_user_id : String
  pub approval_status : ApprovalStatus
  pub created_at : ℕ
  pub updated_at : ℕ

pub data VoteResult : Type 0 where
  voted : MilestoneApproval → VoteResult
  duplicate_vote : VoteResult

-- { milestone_id: milestoneId, verifier_user_id: verifierUserId }
unfoldable pub is_vote : String → String → MilestoneApproval → Bool
is_vote milestone verifier a = same a.milestone_id milestone && same a.verifier_user_id verifier

-- `id` and `now` are what the database fills in.
unfoldable pub record_milestone_approval :
    String
    → String
    → ApprovalStatus
    → String
    → ℕ
    → List MilestoneApproval
    → List MilestoneApproval × VoteResult
record_milestone_approval milestone verifier status id now rows =
    if is_some (find (is_vote milestone verifier) rows)
    then (rows, duplicate_vote)
    else (rows ++ row ∷ [], voted row)
  where
    row : MilestoneApproval
    row = record {
      id = id;
      milestone_id = milestone;
      verifier_user_id = verifier;
      approval_status = status;
      created_at = now;
      updated_at = now;
    }

unfoldable pub on_milestone : String → MilestoneApproval → Bool
on_milestone milestone a = same a.milestone_id milestone

unfoldable pub has_status : ApprovalStatus → MilestoneApproval → Bool
has_status status a = same_status a.approval_status status

pub record Grouped : Type 0 where
  pub approved : List MilestoneApproval
  pub rejected : List MilestoneApproval
  pub pending : List MilestoneApproval

-- grouped[row.approval_status].push(…) for each row
abbrev pub group : List MilestoneApproval → Grouped
group rows = record {
  approved = filter (has_status approved) rows;
  rejected = filter (has_status rejected) rows;
  pending = filter (has_status pending) rows;
}

unfoldable pub get_milestone_approvals : String → List MilestoneApproval → Grouped
get_milestone_approvals milestone rows = group (filter (on_milestone milestone) rows)

unfoldable pub get_approved_verifiers_count : String → List MilestoneApproval → ℕ
get_approved_verifiers_count milestone rows =
    count (λ a. on_milestone milestone a && has_status approved a) rows

unfoldable pub get_all_milestone_votes : String → List MilestoneApproval → List MilestoneApproval
get_all_milestone_votes milestone rows = filter (on_milestone milestone) rows

unfoldable pub has_verifier_voted : String → String → List MilestoneApproval → Bool
has_verifier_voted milestone verifier rows = is_some (find (is_vote milestone verifier) rows)

unfoldable pub has_milestone_met_threshold : String → ℕ → List MilestoneApproval → Bool
has_milestone_met_threshold milestone threshold rows =
    leb threshold (get_approved_verifiers_count milestone rows)

-- `approvalPercentage`, a float for display, is not modelled.
pub record ApprovalProgress : Type 0 where
  pub approved : ℕ
  pub rejected : ℕ
  pub pending : ℕ
  pub required : ℕ
  pub is_complete : Bool
  pub is_rejected : Bool

-- The veto: with no number of verifiers, or 0 of them, one rejection; else the threshold is out of
-- reach. `◌-◌` stops at 0, as Math.max(remaining, 0) does.
abbrev pub cannot_reach : ℕ → ℕ → ℕ → ℕ → Option ℕ → Bool
cannot_reach approvals rejections total threshold none = ltb 0 rejections
cannot_reach approvals rejections total threshold (some verifiers) =
    if ltb 0 verifiers then ltb (approvals + (verifiers - total)) threshold else ltb 0 rejections

unfoldable pub progress_of : Grouped → ℕ → Option ℕ → ApprovalProgress
progress_of g threshold total_verifiers = record {
  approved = length g.approved;
  rejected = length g.rejected;
  pending = length g.pending;
  required = threshold;
  is_complete = leb threshold (length g.approved) && not vetoed;
  is_rejected = vetoed;
}
  where
    vetoed : Bool
    vetoed =
        cannot_reach (length g.approved) (length g.rejected)
          (length g.approved + length g.rejected + length g.pending) threshold total_verifiers

unfoldable pub get_milestone_approval_progress :
    String → ℕ → Option ℕ → List MilestoneApproval → ApprovalProgress
get_milestone_approval_progress milestone threshold total_verifiers rows =
    progress_of (get_milestone_approvals milestone rows) threshold total_verifiers
