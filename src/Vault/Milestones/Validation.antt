-- ===== src/Vault/Milestones/Validation.antt =====
-- What `validateMilestone` of src/services/milestones.ts promises, on each of its branches.
use disciplr_backend.Prelude.{
  ℕ, suc, String, true, some, ◌≡◌, arith, length, count, find, length-snoc, modify_first,
  find-modify_first, count-modify_first, Option-cases, inl, inr,
}
use disciplr_backend.Vault.Milestones.{
  Milestone, Table, valid, invalid, ValidationError, has_id, get_milestone_by_id, validated,
  validate_milestone, is_verified,
}

module _ (id user evidence event_id : String) (now : ℕ) (t : Table) where
  -- A refused validation changes neither the milestones nor the event log.
  validate_milestone_refused :
      {e : ValidationError}
      → (validate_milestone id user evidence event_id now t).1 ≡ invalid e
      → (validate_milestone id user evidence event_id now t).0 ≡ t
  unfolding validate_milestone
  validate_milestone_refused h = ground arith

  find-validated :
      (m : Milestone)
      → get_milestone_by_id id t ≡ some m
      → find (has_id id) (modify_first (has_id id) (validated user evidence now) t.milestones)
        ≡ some (validated user evidence now m)
  unfolding get_milestone_by_id validated has_id
  find-validated m h =
      find-modify_first (has_id id) (validated user evidence now) t.milestones (λ a e. e) h

  -- A success closes exactly one milestone, which was open, and logs exactly one event.
  validate_milestone_counts :
      {m : Milestone}
      → (validate_milestone id user evidence event_id now t).1 ≡ valid m
      → let t' = (validate_milestone id user evidence event_id now t).0 in
        (count is_verified t'.milestones ≡ suc (count is_verified t.milestones))
        × (length t'.events ≡ suc (length t.events))
  unfolding validate_milestone
  validate_milestone_counts {m} h = elim (Option-cases (get_milestone_by_id id t)) [
    | inl e ↦ ground arith
    | inr (a, e) ↦ (
      ground (
        arith,
        count-modify_first (has_id id) (validated user evidence now) is_verified t.milestones
            {a = a},
      ),
      grind (arith, length-snoc),
    )
  ]

  -- After a validation that succeeds, the milestone that it returned is the one found in the table: it
  -- is verified, by this user, at this time and with this evidence; and no later attempt, by whomever
  -- and with whatever evidence, changes the milestones or the event log.
  pub validate_milestone_once :
      {m : Milestone} (other later_evidence later_event : String) (later : ℕ)
      → (validate_milestone id user evidence event_id now t).1 ≡ valid m
      → let t' = (validate_milestone id user evidence event_id now t).0 in
        (get_milestone_by_id id t' ≡ some m)
        × (m.verified ≡ true)
        × (m.verified_by ≡ some user)
        × (m.verified_at ≡ some now)
        × (m.evidence_hash ≡ some evidence)
        × ((validate_milestone id other later_evidence later_event later t').0 ≡ t')
  unfolding validate_milestone
  validate_milestone_once {m} other later_evidence later_event later h =
      elim (Option-cases (get_milestone_by_id id t)) [
        | inl e ↦ ground arith
        | inr (a, e) ↦ (
          ground (arith, find-validated a e),
          ground arith,
          ground arith,
          ground arith,
          ground arith,
          ground (arith, find-validated a e),
        )
      ]
