-- ===== src/Verifiers/Approvals/Votes.antt =====
-- What calls of `recordMilestoneApproval` in src/services/verifiers.ts do to the votes.
use disciplr_backend.Prelude.{
  ℕ, ◌+◌, ◌≤◌, String, Bool, false, ◌&&◌, List, [], ◌∷◌, ◌++◌, ◌≡◌, ◌⊎◌, refl, arith, length,
  filter, find, count, count-append, is_some, ids, Bool-cases, inl, inr,
}
use disciplr_backend.Verifiers.Approvals.{
  ApprovalStatus, pending, approved, rejected, MilestoneApproval, is_vote,
  record_milestone_approval, on_milestone, has_status,
}

-- A call of `recordMilestoneApproval`, with the identifier and the time that the database gives.
pub record Call : Type 0 where
  pub milestone : String
  pub verifier : String
  pub status : ApprovalStatus
  pub id : String
  pub now : ℕ

unfoldable pub step : Call → List MilestoneApproval → List MilestoneApproval
step c rows = (record_milestone_approval c.milestone c.verifier c.status c.id c.now rows).0

unfoldable pub run : List Call → List MilestoneApproval → List MilestoneApproval
run [] rows = rows
run (c ∷ cs) rows = run cs (step c rows)

-- Each verifier has at most one vote on each milestone.
abbrev pub OneVote : List MilestoneApproval → Type 0
OneVote rows = (milestone verifier : String) → count (is_vote milestone verifier) rows ≤ 1

find-none-count_zero {ℓ} :
    {A : Type ℓ} (p : A → Bool) (xs : List A) → is_some (find p xs) ≡ false → count p xs ≡ 0
find-none-count_zero p [] e = refl
find-none-count_zero p (x ∷ xs) e = ground (arith, find-none-count_zero p xs)

count-vote_snoc :
    (milestone verifier : String) (row : MilestoneApproval) (rows : List MilestoneApproval)
    → count (is_vote row.milestone_id row.verifier_user_id) rows ≡ 0
    → count (is_vote milestone verifier) rows ≤ 1
    → count (is_vote milestone verifier) (rows ++ row ∷ []) ≤ 1
unfolding is_vote
count-vote_snoc milestone verifier row rows h unique =
    grind (ids, count-append (is_vote milestone verifier) rows (row ∷ []))

step-OneVote : (c : Call) (rows : List MilestoneApproval) → OneVote rows → OneVote (step c rows)
unfolding step record_milestone_approval
step-OneVote c rows one milestone verifier =
    elim (Bool-cases (is_some (find (is_vote c.milestone c.verifier) rows))) [
      | inl present ↦ rw (present, step, record_milestone_approval) (one milestone verifier)
      | inr absent ↦
          rw (absent, step, record_milestone_approval)
            (count-vote_snoc milestone verifier _ rows
              (find-none-count_zero (is_vote c.milestone c.verifier) rows absent)
              (one milestone verifier))
    ]

-- Where no verifier has two votes on a milestone, none has after any calls.
pub run-OneVote :
    (cs : List Call) (rows : List MilestoneApproval) → OneVote rows → OneVote (run cs rows)
unfolding run
run-OneVote [] rows one = one
run-OneVote (c ∷ cs) rows one = run-OneVote cs (step c rows) (step-OneVote c rows one)

-- The votes on a milestone that have a status.
abbrev pub tally : String → ApprovalStatus → List MilestoneApproval → ℕ
tally milestone status rows = count (λ a. on_milestone milestone a && has_status status a) rows

pub length-filter-filter {ℓ} :
    {A : Type ℓ} (p q : A → Bool) (xs : List A)
    → length (filter q (filter p xs)) ≡ count (λ x. p x && q x) xs
length-filter-filter p q [] = refl
length-filter-filter p q (x ∷ xs) = ground (arith, length-filter-filter p q xs)

step-tally :
    (c : Call) (milestone : String) (status : ApprovalStatus) (rows : List MilestoneApproval)
    → tally milestone status rows ≤ tally milestone status (step c rows)
unfolding step record_milestone_approval
step-tally c milestone status rows =
    elim (Bool-cases (is_some (find (is_vote c.milestone c.verifier) rows))) [
      | inl present ↦ rw (present, step, record_milestone_approval) (omega arith)
      | inr absent ↦
          rw (absent, step, record_milestone_approval)
            (omega
              (arith, count-append (λ a. on_milestone milestone a && has_status status a) rows _))
    ]

-- No vote is lost.
pub run-tally :
    (cs : List Call) (milestone : String) (status : ApprovalStatus) (rows : List MilestoneApproval)
    → tally milestone status rows ≤ tally milestone status (run cs rows)
unfolding run
run-tally [] milestone status rows = omega arith
run-tally (c ∷ cs) milestone status rows =
    omega (arith, step-tally c milestone status rows, run-tally cs milestone status (step c rows))

Status-cases : (s : ApprovalStatus) → (s ≡ pending) ⊎ ((s ≡ approved) ⊎ (s ≡ rejected))
Status-cases pending = inl refl
Status-cases approved = inr (inl refl)
Status-cases rejected = inr (inr refl)

-- Each vote on a milestone has one of the three statuses.
pub tally-total :
    (milestone : String) (rows : List MilestoneApproval)
    → tally milestone approved rows + tally milestone rejected rows + tally milestone pending rows
      ≡ count (on_milestone milestone) rows
unfolding has_status
tally-total milestone [] = refl
tally-total milestone (a ∷ rows) = elim (Status-cases a.approval_status) [
  | inl e ↦ ground (arith, tally-total milestone rows, e)
  | inr e ↦ ground (arith, tally-total milestone rows, e)
]
