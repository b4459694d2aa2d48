-- ===== src/Verifiers/Approvals/Progress.antt =====
-- What `getMilestoneApprovalProgress` of src/services/verifiers.ts says, and what later votes can
-- change of it.
use disciplr_backend.Prelude.{
  ℕ, ◌+◌, ◌≤◌, ◌<◌, String, true, ◌&&◌, not, Option, none, some, List, ◌≡◌, ◌↔◌, refl, arith, leb,
  length, filter, count,
}
use disciplr_backend.Verifiers.Approvals.{
  ApprovalStatus, pending, approved, rejected, MilestoneApproval, on_milestone, has_status,
  get_milestone_approvals, get_approved_verifiers_count, get_milestone_approval_progress,
  progress_of, cannot_reach,
}
use disciplr_backend.Verifiers.Approvals.Votes.{
  Call, run, run-tally, tally, tally-total, length-filter-filter,
}

abbrev counted : String → ApprovalStatus → List MilestoneApproval → ℕ
counted milestone status rows =
    length (filter (has_status status) (filter (on_milestone milestone) rows))

counted-tally :
    (milestone : String) (status : ApprovalStatus) (rows : List MilestoneApproval)
    → counted milestone status rows ≡ tally milestone status rows
counted-tally milestone status rows =
    length-filter-filter (on_milestone milestone) (has_status status) rows

-- The progress of a milestone accounts for each of its votes once, and its approvals are the number
-- that `getApprovedVerifiersCount` asks the database for.
progress_counts :
    (milestone : String) (threshold : ℕ) (known : Option ℕ) (rows : List MilestoneApproval)
    → ((get_milestone_approval_progress milestone threshold known rows).approved
          + (get_milestone_approval_progress milestone threshold known rows).rejected
          + (get_milestone_approval_progress milestone threshold known rows).pending
        ≡ count (on_milestone milestone) rows)
      × ((get_milestone_approval_progress milestone threshold known rows).approved
          ≡ get_approved_verifiers_count milestone rows)
unfolding get_milestone_approval_progress progress_of get_milestone_approvals
    get_approved_verifiers_count
progress_counts milestone threshold known rows = (
  omega (
    arith,
    counted-tally milestone approved rows,
    counted-tally milestone rejected rows,
    counted-tally milestone pending rows,
    tally-total milestone rows,
  ),
  counted-tally milestone approved rows,
)

-- The progress, said of the tallies.
progress_rejected :
    (milestone : String) (threshold : ℕ) (known : Option ℕ) (rows : List MilestoneApproval)
    → (get_milestone_approval_progress milestone threshold known rows).is_rejected
      ≡ cannot_reach
          (tally milestone approved rows)
          (tally milestone rejected rows)
          (tally milestone approved rows
            + tally milestone rejected rows
            + tally milestone pending rows)
          threshold
          known
unfolding get_milestone_approval_progress progress_of get_milestone_approvals
progress_rejected milestone threshold known rows =
    rw
      (
        counted-tally milestone approved rows,
        counted-tally milestone rejected rows,
        counted-tally milestone pending rows,
      )
      refl

progress_complete :
    (milestone : String) (threshold : ℕ) (known : Option ℕ) (rows : List MilestoneApproval)
    → (get_milestone_approval_progress milestone threshold known rows).is_complete
      ≡ leb threshold (tally milestone approved rows)
        && not (get_milestone_approval_progress milestone threshold known rows).is_rejected
unfolding get_milestone_approval_progress progress_of get_milestone_approvals
progress_complete milestone threshold known rows = rw (counted-tally milestone approved rows) refl

-- With a known number of verifiers, and no more votes than verifiers, a milestone is rejected exactly
-- when the votes that are not approvals, pending ones included, leave fewer verifiers than the
-- threshold asks for.
is_rejected_iff :
    (milestone : String) (threshold verifiers : ℕ) (rows : List MilestoneApproval)
    → 1 ≤ verifiers
    → count (on_milestone milestone) rows ≤ verifiers
    → ((get_milestone_approval_progress milestone threshold (some verifiers) rows).is_rejected
        ≡ true)
      ↔ (verifiers < tally milestone rejected rows + tally milestone pending rows + threshold)
is_rejected_iff milestone threshold verifiers rows some_one within =
    rw (progress_rejected milestone threshold (some verifiers) rows) (
      (λ h. ground (arith, tally-total milestone rows)),
      λ h. ground (arith, tally-total milestone rows),
    )

-- The votes on a milestone are no more than its verifiers, where their number is known.
abbrev pub Within : Option ℕ → ℕ → Type 0
Within none votes = Unit
Within (some verifiers) votes = votes ≤ verifiers

-- A rejected milestone stays rejected, whatever is voted after, while no more votes are cast on it
-- than it has verifiers.
pub is_rejected_final :
    (cs : List Call) (milestone : String) (threshold : ℕ) (known : Option ℕ)
    (rows : List MilestoneApproval)
    → Within known (count (on_milestone milestone) (run cs rows))
    → (get_milestone_approval_progress milestone threshold known rows).is_rejected ≡ true
    → (get_milestone_approval_progress milestone threshold known (run cs rows)).is_rejected ≡ true
is_rejected_final cs milestone threshold none rows within h =
    rw (progress_rejected milestone threshold none (run cs rows)) (
      ground (
        arith,
        run-tally cs milestone rejected rows,
        progress_rejected milestone threshold none rows,
      ))
is_rejected_final cs milestone threshold (some verifiers) rows within h =
    rw (progress_rejected milestone threshold (some verifiers) (run cs rows)) (
      ground (
        arith,
        run-tally cs milestone approved rows,
        run-tally cs milestone rejected rows,
        run-tally cs milestone pending rows,
        tally-total milestone (run cs rows),
        progress_rejected milestone threshold (some verifiers) rows,
      ))

-- Where the number of verifiers is known, a complete milestone stays complete, whatever is voted
-- after.
is_complete_final :
    (cs : List Call) (milestone : String) (threshold verifiers : ℕ) (rows : List MilestoneApproval)
    → 1 ≤ verifiers
    → (get_milestone_approval_progress milestone threshold (some verifiers) rows).is_complete ≡ true
    → (get_milestone_approval_progress milestone threshold
        (some verifiers)
        (run cs rows)).is_complete
      ≡ true
is_complete_final cs milestone threshold verifiers rows some_one h =
    rw
      (
        progress_complete milestone threshold (some verifiers) (run cs rows),
        progress_rejected milestone threshold (some verifiers) (run cs rows),
      )
      (ground (
        arith,
        run-tally cs milestone approved rows,
        progress_complete milestone threshold (some verifiers) rows,
      ))
