-- ===== src/Examples/Checkers.antt =====
-- Verifiers, their decisions and their votes, through the model of src/services/verifiers.ts.
use disciplr_backend.Prelude.{String, true, false, none, some, List, [], ◌∷◌, ◌≡◌, refl, arith}
use disciplr_backend.Verifiers.Profiles.{
  VerifierProfile, approved, suspended, deactivated, pending, MutationContext, Tables, Updates,
}
use disciplr_backend.Verifiers.Profiles.Timestamps as Timestamps
use disciplr_backend.Verifiers.Profiles.Timestamps.{
  IsConsistent, run-IsConsistent, creates, moves, deletes,
}
use disciplr_backend.Verifiers.Records as Records
use disciplr_backend.Verifiers.Records.{VerificationRecord, is_decision, get_verifier_stats}
use disciplr_backend.Verifiers.Records.Decisions as Decisions
use disciplr_backend.Verifiers.Records.Decisions.{OneDecision}
use disciplr_backend.Verifiers.Approvals as Approvals
use disciplr_backend.Verifiers.Approvals.{
  MilestoneApproval, on_milestone, get_approved_verifiers_count, get_milestone_approval_progress,
}
use disciplr_backend.Verifiers.Approvals.Votes as Votes
use disciplr_backend.Verifiers.Approvals.Votes.{OneVote, run-OneVote, tally}
use disciplr_backend.Verifiers.Approvals.Progress.{is_rejected_final}

abbrev context : MutationContext
context = record { actor_user_id = "root"; reason = none }

abbrev no_profiles : Tables
no_profiles = record { verifiers = []; audit_log = [] }

nobody-IsConsistent : IsConsistent no_profiles
nobody-IsConsistent = record { unique = λ user. omega arith; agreeing = refl }

abbrev career : List Timestamps.Call
career =
    creates "vera" none none none context 1
    ∷ moves "vera" approved context 2
    ∷ moves "vera" suspended context 3
    ∷ moves "vera" pending context 4
    ∷ moves "vera" deactivated context 5
    ∷ deletes "vera" context
    ∷ []

run-IsConsistent_example : IsConsistent (Timestamps.run career no_profiles)
run-IsConsistent_example = run-IsConsistent career no_profiles nobody-IsConsistent

abbrev vera : VerifierProfile
vera = record {
  user_id = "vera";
  display_name = none;
  metadata = none;
  status = pending;
  created_at = 1;
  approved_at = none;
  suspended_at = none;
  deactivated_at = none;
}

abbrev profiles : Tables
profiles = record { verifiers = vera ∷ []; audit_log = [] }

abbrev approval : Updates
approval = record { display_name = none; metadata = none; status = some approved }

abbrev decision : VerificationRecord
decision = record {
  id = "d1";
  verifier_user_id = "vera";
  target_id = "m1";
  result = Records.approved;
  evidence_hash = none;
  disputed = false;
  timestamp = 3;
}

abbrev decides : Records.VerificationResult → Decisions.Call
decides result = record {
  verifier = "vera";
  target = "m1";
  result = result;
  disputed = false;
  evidence_hash = none;
  id = "d2";
  now = 4;
}

no_decisions : OneDecision []
no_decisions verifier target = omega arith

abbrev vote_row : String → Approvals.ApprovalStatus → MilestoneApproval
vote_row verifier status = record {
  id = verifier;
  milestone_id = "m1";
  verifier_user_id = verifier;
  approval_status = status;
  created_at = 1;
  updated_at = 1;
}

abbrev votes : List MilestoneApproval
votes = vote_row "vera" Approvals.approved ∷ vote_row "vito" Approvals.rejected ∷ []

abbrev votes_late : Approvals.ApprovalStatus → Votes.Call
votes_late status = record {
  milestone = "m1";
  verifier = "vlad";
  status = status;
  id = "x";
  now = 9;
}

no_votes : OneVote []
no_votes milestone verifier = omega arith

run-OneVote_example :
    OneVote (Votes.run (votes_late Approvals.approved ∷ votes_late Approvals.rejected ∷ []) [])
run-OneVote_example =
    run-OneVote (votes_late Approvals.approved ∷ votes_late Approvals.rejected ∷ []) [] no_votes

is_rejected_final_example :
    (get_milestone_approval_progress "m1" 3
      (some 3)
      (Votes.run (votes_late Approvals.approved ∷ []) votes)).is_rejected
    ≡ true
unfolding on_milestone Votes.run Votes.step Approvals.record_milestone_approval Approvals.is_vote
    get_milestone_approval_progress Approvals.progress_of Approvals.get_milestone_approvals
    Approvals.has_status
is_rejected_final_example =
    is_rejected_final (votes_late Approvals.approved ∷ []) "m1" 3 (some 3) votes (omega arith) refl
