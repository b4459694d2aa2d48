-- ===== src/Verifiers/Records.antt =====
-- The decisions of verifiers on targets, and what they add up to, of src/services/verifiers.ts. Rows
-- stand in the order of their insertion.
pub mod Decisions
use disciplr_backend.Prelude.{
  ℕ, ◌+◌, String, Bool, true, false, ◌&&◌, not, Option, none, some, List, [], ◌∷◌, ◌++◌,
  if◌then◌else◌, find, count, same,
}

pub data VerificationResult : Type 0 where
  approved rejected : VerificationResult

abbrev pub same_result : VerificationResult → VerificationResult → Bool
same_result approved approved = true
same_result rejected rejected = true
same_result _ _ = false

pub record VerificationRecord : Type 0 where
  pub id : String
  pub verifier_user_id : String
  pub target_id : String
  pub result : VerificationResult
  pub evidence_hash : Option String
  pub disputed : Bool
  pub timestamp : ℕ

pub data Recorded : Type 0 where
  recorded : VerificationRecord → Recorded
  conflict : Recorded

-- { verifier_user_id: verifierUserId, target_id: targetId }
unfoldable pub is_decision : String → String → VerificationRecord → Bool
is_decision verifier target r = same r.verifier_user_id verifier && same r.target_id target

-- `id` and `now` are what the database fills in.
unfoldable pub record_verification :
    String
    → String
    → VerificationResult
    → Bool
    → Option String
    → String
    → ℕ
    → List VerificationRecord
    → List VerificationRecord × Recorded
record_verification verifier target result disputed evidence_hash id now rows =
    elim (find (is_decision verifier target) rows) [
      | some existing ↦
          if same_result existing.result result then (rows, recorded existing) else (rows, conflict)
      | none ↦ (rows ++ row ∷ [], recorded row)
    ]
  where
    row : VerificationRecord
    row = record {
      id = id;
      verifier_user_id = verifier;
      target_id = target;
      result = result;
      evidence_hash = evidence_hash;
      disputed = disputed;
      timestamp = now;
    }

pub record VerifierStats : Type 0 where
  pub total_verifications : ℕ
  pub approvals : ℕ
  pub rejections : ℕ
  pub disputes : ℕ

unfoldable pub by_verifier : String → VerificationRecord → Bool
by_verifier user r = same r.verifier_user_id user

-- The four counts; the three ratios that the code divides out of them are not modelled.
unfoldable pub get_verifier_stats : String → List VerificationRecord → VerifierStats
get_verifier_stats user rows = record {
  total_verifications = count (by_verifier user) rows;
  approvals = count (λ r. by_verifier user r && same_result r.result approved) rows;
  rejections = count (λ r. by_verifier user r && same_result r.result rejected) rows;
  disputes = count (λ r. by_verifier user r && r.disputed) rows;
}
