-- ===== src/Idempotency/Steps.antt =====
-- The two maps of src/services/idempotency.ts against the state machine of one key.
use disciplr_backend.Prelude.{
  ℕ, ◌+◌, String, true, false, Option, none, some, ◌≡◌, refl, sym, ap, subst, ◌∙◌, arith,
  if◌then◌else◌, same, same_iff, lookup, keep_if, lookup-put, lookup-without, lookup-keep_values,
  Option-cases, Bool-cases, inl, inr,
}
use disciplr_backend.Idempotency.{
  OwnerContext, build_internal_key, Store, StoreEntry, PendingRequest, is_live,
  prune_expired_entries, answer_for, register_pending, get_idempotent_response, settle_pending,
  Settled, save_entry, save_idempotent_response, fail_pending_idempotent_response, resolved,
  rejected,
}
use disciplr_backend.Idempotency.Slots.{
  asks, saves, fails, Slot, absent, stored, Slots, age, answer, claimed, promises_after, released,
  at_key, spec, step, slot_of, abstract, IsWellFormed,
}

module _ {ℓ} {R : Type ℓ} where
  slots_ext :
      (a b : Slots R)
      → ((j : String) → a.slot j ≡ b.slot j)
      → a.promises ≡ b.promises
      → a.ttl_ms ≡ b.ttl_ms
      → a ≡ b
  slots_ext a b h p t = λ i. record { slot = λ j. h j i; promises = p i; ttl_ms = t i }

  slot_of-keep_if :
      (now : ℕ) (p : Option PendingRequest) (e : Option (StoreEntry R))
      → slot_of p (keep_if (is_live now) e) ≡ age now (slot_of p e)
  unfolding is_live
  slot_of-keep_if now (some p) e = refl
  slot_of-keep_if now none none = refl
  slot_of-keep_if now none (some e) = ground arith

  abstract-prune :
      (now : ℕ) (s : Store R)
      → IsWellFormed s
      → (j : String)
      → (abstract (prune_expired_entries now s)).slot j ≡ age now ((abstract s).slot j)
  unfolding abstract prune_expired_entries
  abstract-prune now s w j =
      rw (lookup-keep_values (is_live now) j s.entries w.unique)
        (slot_of-keep_if now (lookup j s.pendings) (lookup j s.entries))

  module _ (key : String) (f : Slot R → Slot R) where
    at_key_intro :
        (slots : String → Slot R) (j : String) (x : Slot R)
        → (same key j ≡ true → x ≡ f (slots j))
        → (same key j ≡ false → x ≡ slots j)
        → x ≡ at_key key f slots j
    at_key_intro slots j x hit miss = elim (Bool-cases (same key j)) [
      | inl e ↦ rw (e) (hit e)
      | inr e ↦ rw (e) (miss e)
    ]

    at_key_fixed :
        (slots : String → Slot R)
        → f (slots key) ≡ slots key
        → (j : String) → slots j ≡ at_key key f slots j
    at_key_fixed slots fixed j =
        at_key_intro slots j (slots j)
          (λ e. subst (λ k. slots k ≡ f (slots k)) ((same_iff key j).0 e) (sym fixed)) (λ e. refl)

  answer_for-slot :
      (key hash : String) (owner : Option OwnerContext) (s : Store R) (j : String)
      → (abstract (answer_for key hash owner s).0).slot j
        ≡ at_key key (claimed hash s.next_promise) (abstract s).slot j
  unfolding abstract answer_for register_pending
  answer_for-slot key hash owner s j = elim (Option-cases (lookup key s.pendings)) [
    | inr (p, e) ↦
        rw (e, answer_for)
          (at_key_fixed key (claimed hash s.next_promise) (abstract s).slot (rw (e) refl) j)
    | inl e ↦ elim (Option-cases (lookup key s.entries)) [
      | inr (x, f) ↦
          rw (e, f, answer_for)
            (at_key_fixed key (claimed hash s.next_promise) (abstract s).slot (rw (e, f) refl) j)
      | inl f ↦
          rw (e, f, answer_for, lookup-put key j)
            (elim (Bool-cases (same key j)) [
              | inl h ↦
                  rw
                    (
                      h,
                      subst (λ k. lookup k s.pendings ≡ none) ((same_iff key j).0 h) e,
                      subst (λ k. lookup k s.entries ≡ none) ((same_iff key j).0 h) f,
                    )
                    refl
              | inr h ↦ rw (h) refl
            ])
    ]
  ]

  answer_for-rest :
      (key hash : String) (owner : Option OwnerContext) (s : Store R)
      → ((answer_for key hash owner s).0.next_promise
          ≡ promises_after s.next_promise ((abstract s).slot key))
        × ((answer_for key hash owner s).0.ttl_ms ≡ s.ttl_ms)
        × ((answer_for key hash owner s).1 ≡ answer hash ((abstract s).slot key))
  unfolding abstract answer_for register_pending
  answer_for-rest key hash owner s = elim (Option-cases (lookup key s.pendings)) [
    | inr (p, e) ↦ rw (e, answer_for) (refl, refl, refl)
    | inl e ↦ elim (Option-cases (lookup key s.entries)) [
      | inr (x, f) ↦ rw (e, f, answer_for) (refl, refl, refl)
      | inl f ↦ rw (e, f, answer_for) (refl, refl, refl)
    ]
  ]

  -- A question after the prune, in terms of the slot.
  pub asks-spec :
      (now : ℕ) (key hash : String) (owner : Option OwnerContext) (s : Store R)
      → IsWellFormed s
      → (abstract (step (asks now key hash owner) s).0
          ≡ (spec (asks now key hash owner) (abstract s)).0)
        × ((step (asks now key hash owner) s).1 ≡ (spec (asks now key hash owner) (abstract s)).1)
  unfolding step spec get_idempotent_response prune_expired_entries abstract
  asks-spec now key hash owner s w =
      let pruned = prune_expired_entries now s in
      let internal_key = build_internal_key key owner in
      let aged = abstract-prune now s w in
      let rest = answer_for-rest internal_key hash owner pruned in
      (
        slots_ext _ _
            (λ j.
              answer_for-slot internal_key hash owner pruned j
              ∙ ap (λ x. if same internal_key j then claimed hash s.next_promise x else x) (aged j))
            (rest.0 ∙ ap (promises_after s.next_promise) (aged internal_key)) rest.1,
        ap some (rest.2 ∙ ap (answer hash) (aged internal_key)),
      )

  save-slot :
      (now : ℕ) (key hash : String) (response : R) (owner : Option OwnerContext) (s : Store R)
      (j : String)
      → (abstract (
            save_entry now key hash response owner (settle_pending key (resolved response) s))).slot
          j
        ≡ at_key key (λ x. stored hash response (now + s.ttl_ms)) (abstract s).slot j
  unfolding abstract save_entry settle_pending
  save-slot now key hash response owner s j = elim (Option-cases (lookup key s.pendings)) [
    | inr (p, e) ↦
        rw (e, save_entry, settle_pending)
          (rw (lookup-without key j s.pendings, lookup-put key j)
            (elim (Bool-cases (same key j)) [ inl h ↦ rw (h) refl | inr h ↦ rw (h) refl ]))
    | inl e ↦
        rw (e, save_entry, settle_pending)
          (rw (lookup-put key j) (elim (Bool-cases (same key j)) [
            | inl h ↦ rw (h, subst (λ k. lookup k s.pendings ≡ none) ((same_iff key j).0 h) e) refl
            | inr h ↦ rw (h) refl
          ]))
  ]

  settle_pending-rest :
      (key : String) (how : Settled R) (s : Store R)
      → ((settle_pending key how s).next_promise ≡ s.next_promise)
        × ((settle_pending key how s).ttl_ms ≡ s.ttl_ms)
        × ((settle_pending key how s).entries ≡ s.entries)
  unfolding settle_pending
  settle_pending-rest key how s = elim (Option-cases (lookup key s.pendings)) [
    | inr (p, e) ↦ rw (e, settle_pending) (refl, refl, refl)
    | inl e ↦ rw (e, settle_pending) (refl, refl, refl)
  ]

  pub saves-spec :
      (now : ℕ) (key hash : String) (response : R) (owner : Option OwnerContext) (s : Store R)
      → IsWellFormed s
      → abstract (step (saves now key hash response owner) s).0
        ≡ (spec (saves now key hash response owner) (abstract s)).0
  unfolding step spec save_idempotent_response prune_expired_entries abstract save_entry
  saves-spec now key hash response owner s w =
      let pruned = prune_expired_entries now s in
      let internal_key = build_internal_key key owner in
      slots_ext _ _
        (λ j.
          save-slot now internal_key hash response owner pruned j
          ∙ ap (λ x. if same internal_key j then stored hash response (now + s.ttl_ms) else x)
              (abstract-prune now s w j))
        (settle_pending-rest internal_key (resolved response) pruned).0
        (settle_pending-rest internal_key (resolved response) pruned).1

  -- Taking a pending request off leaves the slot of its key empty.
  settle_pending-slot :
      (key : String) (how : Settled R) (s : Store R)
      → IsWellFormed s
      → {p : PendingRequest} → lookup key s.pendings ≡ some p
      → (j : String)
      → (abstract (settle_pending key how s)).slot j
        ≡ (if same key j then absent else (abstract s).slot j)
  unfolding abstract settle_pending
  settle_pending-slot key how s w {p} e j =
      rw (e, settle_pending)
        (rw (lookup-without key j s.pendings) (elim (Bool-cases (same key j)) [
          | inl h ↦
              rw
                (
                  h,
                  subst (λ k. lookup k s.entries ≡ none) ((same_iff key j).0 h)
                      (w.exclusive key p e),
                )
                refl
          | inr h ↦ rw (h) refl
        ]))

  at_key_eq :
      (key : String) (f : Slot R → Slot R) (slots : String → Slot R) (x : Slot R)
      → f (slots key) ≡ x
      → (j : String) → at_key key f slots j ≡ (if same key j then x else slots j)
  at_key_eq key f slots x h j = elim (Bool-cases (same key j)) [
    | inl e ↦ rw (e) (subst (λ k. f (slots k) ≡ x) ((same_iff key j).0 e) h)
    | inr e ↦ rw (e) refl
  ]

  released-stored :
      (hash : String) (e : Option (StoreEntry R)) → released hash (slot_of none e) ≡ slot_of none e
  released-stored hash none = refl
  released-stored hash (some e) = refl

  pub fails-spec :
      (key hash error : String) (owner : Option OwnerContext) (s : Store R)
      → IsWellFormed s
      → abstract (step (fails key hash error owner) s).0
        ≡ (spec (fails key hash error owner) (abstract s)).0
  unfolding step spec fail_pending_idempotent_response abstract
  fails-spec key hash error owner s w =
      let internal_key = build_internal_key key owner in
      let slots = (abstract s).slot in
      elim (Option-cases (lookup internal_key s.pendings)) [
        | inl e ↦
            rw (e, fail_pending_idempotent_response)
              (slots_ext _ _
                (at_key_fixed internal_key (released hash) slots
                  (rw (e) (released-stored hash (lookup internal_key s.entries))))
                refl refl)
        | inr (p, e) ↦ elim (Bool-cases (same p.hash hash)) [
          | inl h ↦
              rw (e, fail_pending_idempotent_response, h)
                (slots_ext _ _
                  (λ j.
                    settle_pending-slot internal_key (rejected error) s w e j
                    ∙ sym (at_key_eq internal_key (released hash) slots absent (rw (e, h) refl) j))
                  (settle_pending-rest internal_key (rejected error) s).0
                  (settle_pending-rest internal_key (rejected error) s).1)
          | inr h ↦
              rw (e, fail_pending_idempotent_response, h)
                (slots_ext _ _ (at_key_fixed internal_key (released hash) slots (rw (e, h) refl))
                  refl refl)
        ]
      ]
