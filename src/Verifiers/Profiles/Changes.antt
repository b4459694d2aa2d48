-- ===== src/Verifiers/Profiles/Changes.antt =====
-- What an update of src/services/verifiers.ts reports and records.
use disciplr_backend.Prelude.{
  ℕ, String, true, false, Option, none, some, List, [], ◌∷◌, ◌++◌, ◌≡◌, ◌≢◌, ◌↔◌, refl, sym, ap,
  ◌∙◌, arith, or_default, find, List-cases, Option-cases, Bool-cases, inl, inr,
}
use disciplr_backend.Verifiers.Profiles.{
  VerifierStatus, pending, approved, suspended, deactivated, VerifierProfile, MutationContext,
  AuditEntry, Tables, can_transition, is_verifier, Updates, get_changed_fields, put_status,
  UpdateResult, not_found, invalid_transition, missing_action, done, patched, is_refused, action_of,
  update_found, update_verifier_profile,
}

put_status-status :
    (s : Option VerifierStatus) (now : ℕ) (p : VerifierProfile)
    → (put_status s now p).status ≡ or_default s p.status
put_status-status none now p = refl
put_status-status (some pending) now p = refl
put_status-status (some approved) now p = refl
put_status-status (some suspended) now p = refl
put_status-status (some deactivated) now p = refl

patched-status :
    (u : Updates) (now : ℕ) (p : VerifierProfile)
    → (patched u now p).status ≡ or_default u.status p.status
unfolding patched
patched-status u now p = put_status-status u.status now (record p {
  display_name = or_default u.display_name p.display_name;
  metadata = or_default u.metadata p.metadata;
})

-- The matrix allows no move that `statusAction` has no name for.
allowed_named :
    (s : Option VerifierStatus) (from : VerifierStatus)
    → is_refused from s ≡ false
    → action_of from (or_default s from) s ≢ none
unfolding is_refused
allowed_named none from h = λ e. ground arith
allowed_named (some pending) pending h = λ e. ground arith
allowed_named (some pending) approved h = λ e. ground arith
allowed_named (some pending) suspended h = λ e. ground arith
allowed_named (some pending) deactivated h = λ e. ground arith
allowed_named (some approved) from h = elim from [
  | pending ↦ λ e. ground arith
  | approved ↦ λ e. ground arith
  | suspended ↦ λ e. ground arith
  | deactivated ↦ λ e. ground arith
]
allowed_named (some suspended) from h = elim from [
  | pending ↦ λ e. ground arith
  | approved ↦ λ e. ground arith
  | suspended ↦ λ e. ground arith
  | deactivated ↦ λ e. ground arith
]
allowed_named (some deactivated) from h = elim from [
  | pending ↦ λ e. ground arith
  | approved ↦ λ e. ground arith
  | suspended ↦ λ e. ground arith
  | deactivated ↦ λ e. ground arith
]

allowed_listed :
    (s : Option VerifierStatus) (from : VerifierStatus)
    → is_refused from s ≡ false
    → can_transition from (or_default s from) ≡ true
unfolding is_refused
allowed_listed none pending h = refl
allowed_listed none approved h = refl
allowed_listed none suspended h = refl
allowed_listed none deactivated h = refl
allowed_listed (some to) from h = ground arith

reflexive : (s : VerifierStatus) → can_transition s s ≡ true
reflexive pending = refl
reflexive approved = refl
reflexive suspended = refl
reflexive deactivated = refl

append-nil {ℓ} : {A : Type ℓ} (xs : List A) → xs ++ [] ≡ xs
append-nil [] = refl
append-nil (x ∷ xs) = ap (λ ys. x ∷ ys) (append-nil xs)

abbrev pub entries : Option AuditEntry → List AuditEntry
entries none = []
entries (some e) = e ∷ []

-- What the result of an update says of the tables before and after, for a profile that was found.
abbrev pub Tells : VerifierProfile → Tables → Tables → UpdateResult → Type 0
Tells p before after not_found = ⊥
Tells p before after invalid_transition = after ≡ before
Tells p before after missing_action = ⊥
Tells p before after (done r) =
    (can_transition p.status r.after.status ≡ true)
    × (after.audit_log ≡ before.audit_log ++ entries r.audit_log)
    × ((r.changed_fields ≡ []) ↔ (r.audit_log ≡ none))

-- Updating a profile that exists never fails for want of an audit action; a refused transition
-- changes no table; and where the update is done, the matrix allows the move from the old status to
-- the new one, the audit log has grown by the entry reported and by no other, and an entry is
-- reported exactly when some field changed.
update-Tells :
    (user : String) (u : Updates) (context : MutationContext) (now : ℕ) (t : Tables)
    (p : VerifierProfile)
    → find (is_verifier user) t.verifiers ≡ some p
    → Tells p t
        (update_verifier_profile user u context now t).0
        (update_verifier_profile user u context now t).1
unfolding update_verifier_profile update_found
update-Tells user u context now t p found = elim (Bool-cases (is_refused p.status u.status)) [
  | inl bad ↦ rw (found, bad, update_verifier_profile, update_found) refl
  | inr fine ↦ elim (List-cases (get_changed_fields p u)) [
    | inl same_fields ↦
        rw (found, fine, same_fields, update_verifier_profile, update_found)
          (reflexive p.status, sym (append-nil t.audit_log), ((λ e. refl), λ e. refl))
    | inr (field, fields, changed) ↦
        elim (Option-cases (action_of p.status (patched u now p).status u.status)) [
          | inl missing ↦ absurd (
              allowed_named u.status p.status fine
                (ap (λ s. action_of p.status s u.status) (sym (patched-status u now p)) ∙ missing))
          | inr (action, named) ↦
              rw (found, fine, changed, named, update_verifier_profile, update_found)
                (
                  ap (can_transition p.status) (patched-status u now p)
                      ∙ allowed_listed u.status p.status fine,
                  refl,
                  ((λ e. ground arith), λ e. ground arith),
                )
        ]
  ]
]
