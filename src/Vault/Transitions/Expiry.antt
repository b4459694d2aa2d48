-- ===== src/Vault/Transitions/Expiry.antt =====
-- The sweep `checkExpiredVaults` of src/services/vaultTransitions.ts, and how it and `failVault`
-- agree.
use disciplr_backend.Prelude.{
  ℕ, String, true, false, Option, none, some, List, [], ◌∷◌, ◌≡◌, refl, ◌↔◌, arith, map, filter,
  Bool-cases, inl, inr,
}
use disciplr_backend.Vault.Milestones.{Table}
use disciplr_backend.Vault.Transitions.{
  active, failed, Vault, Store, to_failed, get_transition_error, is_due, expire,
  check_expired_vaults,
}

abbrev pub due_ids : ℕ → List Vault → List String
due_ids now vs = map (λ v. v.id) (filter (is_due now) vs)

expire-ids : (now : ℕ) (vs : List Vault) → (expire now vs).1 ≡ due_ids now vs
unfolding expire
expire-ids now [] = refl
expire-ids now (v ∷ vs) = ground (arith, expire-ids now vs)

failed-not_due : (now : ℕ) (v : Vault) → is_due now (record v { status = failed }) ≡ false
unfolding is_due
failed-not_due now v = refl

expire_again : (now : ℕ) (vs : List Vault) → expire now (expire now vs).0 ≡ ((expire now vs).0, [])
unfolding expire
expire_again now [] = refl
expire_again now (v ∷ vs) = elim (Bool-cases (is_due now v)) [
  | inl due ↦ rw due (ground (arith, failed-not_due now v, expire_again now vs))
  | inr not_due ↦ rw not_due (ground (arith, expire_again now vs))
]

-- The sweep reports exactly the ids of the active vaults whose end date has come, and a second
-- sweep at the same time finds nothing left to do.
pub check_expired_vaults_complete :
    (now : ℕ) (s : Store)
    → ((check_expired_vaults now s).1 ≡ due_ids now s.vaults)
      × (check_expired_vaults now (check_expired_vaults now s).0
          ≡ ((check_expired_vaults now s).0, []))
unfolding check_expired_vaults
check_expired_vaults_complete now s =
    (expire-ids now s.vaults, ground (arith, expire_again now s.vaults))

-- On an active vault with a valid end date the sweep and `failVault` decide alike.
due-fail_agree :
    (now end : ℕ) (v : Vault) (requester : Option String) (t : Table)
    → v.status ≡ active
    → v.end_timestamp ≡ some end
    → (is_due now v ≡ true) ↔ (get_transition_error v to_failed requester now t ≡ none)
unfolding is_due get_transition_error
due-fail_agree now end v requester t h e = (λ d. ground arith, λ d. ground arith)

-- On an active vault whose end date is invalid they do not: at any time `failVault` lets it fail,
-- and the sweep passes it by.
invalid_end_disagree :
    (now : ℕ) (v : Vault) (requester : Option String) (t : Table)
    → v.status ≡ active
    → v.end_timestamp ≡ none
    → (is_due now v ≡ false) × (get_transition_error v to_failed requester now t ≡ none)
unfolding is_due get_transition_error
invalid_end_disagree now v requester t h e = (ground arith, ground arith)
