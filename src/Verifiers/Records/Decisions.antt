-- ===== src/Verifiers/Records/Decisions.antt =====
-- Sequences of calls of `recordVerification` in src/services/verifiers.ts, and its statistics.
use disciplr_backend.Prelude.{
  ℕ, ◌+◌, ◌≤◌, String, Bool, ◌&&◌, Option, none, some, List, [], ◌∷◌, ◌++◌, ◌≡◌, refl, arith, ◌⊎◌,
  find, count, count-append, ids, Option-cases, inl, inr, if_both,
}
use disciplr_backend.Verifiers.Records.{
  VerificationResult, approved, rejected, same_result, VerificationRecord, Recorded, is_decision,
  record_verification, by_verifier, get_verifier_stats,
}

-- A call of `recordVerification`, with the identifier and the time that the database would give.
pub record Call : Type 0 where
  pub verifier : String
  pub target : String
  pub result : VerificationResult
  pub disputed : Bool
  pub evidence_hash : Option String
  pub id : String
  pub now : ℕ

unfoldable pub step : Call → List VerificationRecord → List VerificationRecord
step c rows =
    (record_verification c.verifier c.target c.result c.disputed c.evidence_hash c.id c.now rows).0

unfoldable pub run : List Call → List VerificationRecord → List VerificationRecord
run [] rows = rows
run (c ∷ cs) rows = run cs (step c rows)

module _ {ℓ} {A : Type ℓ} (p : A → Bool) where
  find-append : (xs ys : List A) {a : A} → find p xs ≡ some a → find p (xs ++ ys) ≡ some a
  find-append [] ys e = ground arith
  find-append (x ∷ xs) ys {a} e = ground (arith, find-append xs ys {a = a})

  find-none-count : (xs : List A) → find p xs ≡ none → count p xs ≡ 0
  find-none-count [] e = refl
  find-none-count (x ∷ xs) e = ground (arith, find-none-count xs)

step-find :
    (c : Call) (verifier target : String) (rows : List VerificationRecord) {r : VerificationRecord}
    → find (is_decision verifier target) rows ≡ some r
    → find (is_decision verifier target) (step c rows) ≡ some r
unfolding step record_verification
step-find c verifier target rows {r} e =
    elim (Option-cases (find (is_decision c.verifier c.target) rows)) [
      | inl missing ↦
          rw (missing, step, record_verification)
            (find-append (is_decision verifier target) rows _ {a = r} e)
      | inr (old, found) ↦
          rw (found, step, record_verification)
            (if_both
              (λ (x : List VerificationRecord × Recorded).
                find (is_decision verifier target) x.0 ≡ some r)
              (same_result old.result c.result) e e)
    ]

-- A verifier's first decision on a target stays the one that is found, whatever is recorded after.
run-find :
    (cs : List Call) (verifier target : String) (rows : List VerificationRecord)
    {r : VerificationRecord}
    → find (is_decision verifier target) rows ≡ some r
    → find (is_decision verifier target) (run cs rows) ≡ some r
unfolding run
run-find [] verifier target rows {r} e = e
run-find (c ∷ cs) verifier target rows {r} e =
    run-find cs verifier target (step c rows) {r = r} (step-find c verifier target rows {r = r} e)

-- Each verifier has at most one decision on each target.
abbrev pub OneDecision : List VerificationRecord → Type 0
OneDecision rows = (verifier target : String) → count (is_decision verifier target) rows ≤ 1

count-decision_snoc :
    (verifier target : String) (row : VerificationRecord) (rows : List VerificationRecord)
    → count (is_decision row.verifier_user_id row.target_id) rows ≡ 0
    → count (is_decision verifier target) rows ≤ 1
    → count (is_decision verifier target) (rows ++ row ∷ []) ≤ 1
unfolding is_decision
count-decision_snoc verifier target row rows h unique =
    grind (ids, count-append (is_decision verifier target) rows (row ∷ []))

step-OneDecision :
    (c : Call) (rows : List VerificationRecord) → OneDecision rows → OneDecision (step c rows)
unfolding step record_verification
step-OneDecision c rows one verifier target =
    elim (Option-cases (find (is_decision c.verifier c.target) rows)) [
      | inl missing ↦
          rw (missing, step, record_verification)
            (count-decision_snoc verifier target _ rows
              (find-none-count (is_decision c.verifier c.target) rows missing)
              (one verifier target))
      | inr (old, found) ↦
          rw (found, step, record_verification)
            (if_both
              (λ (x : List VerificationRecord × Recorded).
                count (is_decision verifier target) x.0 ≤ 1)
              (same_result old.result c.result) (one verifier target) (one verifier target))
    ]

-- Where no verifier has two decisions on a target, none has after any calls.
run-OneDecision :
    (cs : List Call) (rows : List VerificationRecord) → OneDecision rows → OneDecision (run cs rows)
unfolding run
run-OneDecision [] rows one = one
run-OneDecision (c ∷ cs) rows one = run-OneDecision cs (step c rows) (step-OneDecision c rows one)

Result-cases : (x : VerificationResult) → (x ≡ approved) ⊎ (x ≡ rejected)
Result-cases approved = inl refl
Result-cases rejected = inr refl

split :
    (user : String) (rows : List VerificationRecord)
    → count (λ r. by_verifier user r && same_result r.result approved) rows
        + count (λ r. by_verifier user r && same_result r.result rejected) rows
      ≡ count (by_verifier user) rows
split user [] = refl
split user (r ∷ rows) = elim (Result-cases r.result) [
  | inl e ↦ ground (arith, split user rows, e)
  | inr e ↦ ground (arith, split user rows, e)
]

disputes_le :
    (user : String) (rows : List VerificationRecord)
    → count (λ r. by_verifier user r && r.disputed) rows ≤ count (by_verifier user) rows
disputes_le user [] = omega arith
disputes_le user (r ∷ rows) = ground (arith, disputes_le user rows)

-- A verifier's approvals and rejections are all his verifications, and no more of them are disputed.
get_verifier_stats_total :
    (user : String) (rows : List VerificationRecord)
    → ((get_verifier_stats user rows).approvals + (get_verifier_stats user rows).rejections
        ≡ (get_verifier_stats user rows).total_verifications)
      × ((get_verifier_stats user rows).disputes
          ≤ (get_verifier_stats user rows).total_verifications)
unfolding get_verifier_stats
get_verifier_stats_total user rows = (split user rows, disputes_le user rows)
