-- ===== src/Idempotency/Runs.antt =====
-- Sequences of calls of src/services/idempotency.ts.
use disciplr_backend.Prelude.{
  ℕ, String, Bool, Option, none, List, [], ◌∷◌, ◌≡◌, refl, ap, subst, ◌∙◌, same, same_iff,
  same_refl, not, lookup, keep_if, lookup-put, lookup-without, lookup-keep_values,
  put-HasUniqueKeys, keep_values-HasUniqueKeys, Option-cases, Bool-cases, inl, inr, if_both,
}
use disciplr_backend.Idempotency.{
  OwnerContext, build_internal_key, Store, StoreEntry, Answer, is_live, prune_expired_entries,
  answer_for, register_pending, get_idempotent_response, settle_pending, Settled, save_entry,
  save_idempotent_response, fail_pending_idempotent_response, reset_idempotency_store, resolved,
  rejected,
}
use disciplr_backend.Idempotency.Slots.{
  Call, asks, saves, fails, resets, Slots, spec, step, abstract, IsWellFormed,
}
use disciplr_backend.Idempotency.Steps.{asks-spec, saves-spec, fails-spec}

module _ {ℓ} {R : Type ℓ} where
  keep_if-none :
      (p : StoreEntry R → Bool) (o : Option (StoreEntry R)) → o ≡ none → keep_if p o ≡ none
  keep_if-none p o h = ap (keep_if p) h

  prune-IsWellFormed :
      (now : ℕ) (s : Store R) → IsWellFormed s → IsWellFormed (prune_expired_entries now s)
  unfolding prune_expired_entries
  prune-IsWellFormed now s w = record {
    unique = keep_values-HasUniqueKeys (is_live now) s.entries w.unique;
    exclusive = λ key p h.
        lookup-keep_values (is_live now) key s.entries w.unique
        ∙ ap (keep_if (is_live now)) (w.exclusive key p h);
  }

  register_pending-IsWellFormed :
      (key hash : String) (owner : Option OwnerContext) (s : Store R)
      → lookup key s.entries ≡ none
      → IsWellFormed s
      → IsWellFormed (register_pending key hash owner s)
  unfolding register_pending
  register_pending-IsWellFormed key hash owner s free w = record {
    unique = w.unique;
    exclusive = λ j p h. elim (Bool-cases (same key j)) [
      | inl e ↦ subst (λ k. lookup k s.entries ≡ none) ((same_iff key j).0 e) free
      | inr e ↦ w.exclusive j p (rw (lookup-put key j _ s.pendings, e) at h)
    ];
  }

  answer_for-IsWellFormed :
      (key hash : String) (owner : Option OwnerContext) (s : Store R)
      → IsWellFormed s
      → IsWellFormed (answer_for key hash owner s).0
  unfolding answer_for
  answer_for-IsWellFormed key hash owner s w = elim (Option-cases (lookup key s.pendings)) [
    | inr (p, e) ↦ rw (e, answer_for) w
    | inl e ↦ elim (Option-cases (lookup key s.entries)) [
      | inr (x, f) ↦ rw (e, f, answer_for) w
      | inl f ↦ rw (e, f, answer_for) (register_pending-IsWellFormed key hash owner s f w)
    ]
  ]

  settle_pending-IsWellFormed :
      (key : String) (how : Settled R) (s : Store R)
      → IsWellFormed s
      → IsWellFormed (settle_pending key how s)
        × (lookup key (settle_pending key how s).pendings ≡ none)
  unfolding settle_pending
  settle_pending-IsWellFormed key how s w = elim (Option-cases (lookup key s.pendings)) [
    | inl e ↦ rw (e, settle_pending) (w, e)
    | inr (p, e) ↦
        rw (e, settle_pending)
          (
            record {
              unique = w.unique;
              exclusive = λ j q h. elim (Bool-cases (same key j)) [
                | inl g ↦ cc (rw (lookup-without key j s.pendings, g) at h)
                | inr g ↦ w.exclusive j q (rw (lookup-without key j s.pendings, g) at h)
              ];
            },
            lookup-without key key s.pendings ∙ rw (same_refl key) refl,
          )
  ]

  save_entry-IsWellFormed :
      (now : ℕ) (key hash : String) (response : R) (owner : Option OwnerContext) (s : Store R)
      → lookup key s.pendings ≡ none
      → IsWellFormed s
      → IsWellFormed (save_entry now key hash response owner s)
  unfolding save_entry
  save_entry-IsWellFormed now key hash response owner s free w = record {
    unique = put-HasUniqueKeys key _ s.entries w.unique;
    exclusive = λ j p h. elim (Bool-cases (same key j)) [
      | inl e ↦ cc (h, subst (λ k. lookup k s.pendings ≡ none) ((same_iff key j).0 e) free)
      | inr e ↦ lookup-put key j _ s.entries ∙ rw (e) (w.exclusive j p h)
    ];
  }

  -- Every call keeps the two maps apart.
  pub step-IsWellFormed : (c : Call R) (s : Store R) → IsWellFormed s → IsWellFormed (step c s).0
  unfolding step get_idempotent_response save_idempotent_response reset_idempotency_store
      fail_pending_idempotent_response lookup
  step-IsWellFormed (asks now key hash owner) s w =
      answer_for-IsWellFormed (build_internal_key key owner) hash owner
        (prune_expired_entries now s) (prune-IsWellFormed now s w)
  step-IsWellFormed (saves now key hash response owner) s w =
      let settled =
        settle_pending-IsWellFormed (build_internal_key key owner) (resolved response)
          (prune_expired_entries now s) (prune-IsWellFormed now s w) in
      save_entry-IsWellFormed now (build_internal_key key owner) hash response owner _ settled.1
        settled.0
  step-IsWellFormed (fails key hash error owner) s w =
      let internal_key = build_internal_key key owner in
      elim (Option-cases (lookup internal_key s.pendings)) [
        | inl e ↦ rw (e, fail_pending_idempotent_response) w
        | inr (p, e) ↦
            rw (e, fail_pending_idempotent_response)
              (if_both IsWellFormed (not (same p.hash hash)) w
                (settle_pending-IsWellFormed internal_key (rejected error) s w).0)
      ]
  step-IsWellFormed resets s w = record { unique = tt; exclusive = λ j p h. refl }

  -- One call, as the specification has it.
  pub step-spec :
      (c : Call R) (s : Store R)
      → IsWellFormed s
      → (abstract (step c s).0 ≡ (spec c (abstract s)).0) × ((step c s).1 ≡ (spec c (abstract s)).1)
  unfolding step spec reset_idempotency_store abstract lookup
  step-spec (asks now key hash owner) s w = asks-spec now key hash owner s w
  step-spec (saves now key hash response owner) s w =
      (saves-spec now key hash response owner s w, refl)
  step-spec (fails key hash error owner) s w = (fails-spec key hash error owner s w, refl)
  step-spec resets s w = (refl, refl)

  -- Calls one after the other, with their answers.
  unfoldable pub run : List (Call R) → Store R → Store R × List (Option (Answer R))
  run [] s = (s, [])
  run (c ∷ cs) s = let r = step c s in let rest = run cs r.0 in (rest.0, r.1 ∷ rest.1)

  unfoldable pub spec_run : List (Call R) → Slots R → Slots R × List (Option (Answer R))
  spec_run [] s = (s, [])
  spec_run (c ∷ cs) s = let r = spec c s in let rest = spec_run cs r.0 in (rest.0, r.1 ∷ rest.1)

  -- From two maps that are kept apart, whatever is called, the answers and the maps that are left
  -- are those of the state machine of one key, run from what the maps stand for.
  pub run-spec_run :
      (cs : List (Call R)) (s : Store R)
      → IsWellFormed s
      → (abstract (run cs s).0 ≡ (spec_run cs (abstract s)).0)
        × ((run cs s).1 ≡ (spec_run cs (abstract s)).1)
  unfolding run spec_run
  run-spec_run [] s w = (refl, refl)
  run-spec_run (c ∷ cs) s w =
      let (states, answers) = step-spec c s w in
      let rest = run-spec_run cs (step c s).0 (step-IsWellFormed c s w) in
      (
        rest.0 ∙ ap (λ x. (spec_run cs x).0) states,
        λ i. answers i ∷ (rest.1 ∙ ap (λ x. (spec_run cs x).1) states) i,
      )

  pub run-IsWellFormed :
      (cs : List (Call R)) (s : Store R) → IsWellFormed s → IsWellFormed (run cs s).0
  unfolding run
  run-IsWellFormed [] s w = w
  run-IsWellFormed (c ∷ cs) s w = run-IsWellFormed cs (step c s).0 (step-IsWellFormed c s w)
