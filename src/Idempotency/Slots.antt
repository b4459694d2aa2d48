-- ===== src/Idempotency/Slots.antt =====
-- What src/services/idempotency.ts promises of one key, as a state machine, and that the two maps
-- of the implementation keep it.
use disciplr_backend.Prelude.{
  ℕ, suc, ◌+◌, String, Option, none, some, ◌≡◌, leb, if◌then◌else◌, same, lookup, HasUniqueKeys,
}
use disciplr_backend.Idempotency.{
  OwnerContext, build_internal_key, Store, StoreEntry, PendingRequest, Answer, proceed, replays,
  waits, conflict, get_idempotent_response, save_idempotent_response,
  fail_pending_idempotent_response, reset_idempotency_store,
}

-- The calls, with the time at which the first two are made.
pub data Call {ℓ} (R : Type ℓ) : Type ℓ where
  asks : (now : ℕ) (key hash : String) → Option OwnerContext → Call R
  saves : (now : ℕ) (key hash : String) → R → Option OwnerContext → Call R
  fails : (key hash error : String) → Option OwnerContext → Call R
  resets : Call R

-- What is known of one internal key.
pub data Slot {ℓ} (R : Type ℓ) : Type ℓ where
  absent : Slot R
  pending : (hash : String) (promise : ℕ) → Slot R
  stored : (hash : String) (response : R) (expires_at : ℕ) → Slot R

-- The specification: a slot for each internal key, and the number of promises made.
pub record Slots {ℓ} (R : Type ℓ) : Type ℓ where
  pub slot : String → Slot R
  pub promises : ℕ
  pub ttl_ms : ℕ

module _ {ℓ} {R : Type ℓ} where
  -- A stored response is forgotten when its time is up.
  abbrev pub age : ℕ → Slot R → Slot R
  age now absent = absent
  age now (pending hash promise) = pending hash promise
  age now (stored hash response expires_at) =
      if leb expires_at now then absent else stored hash response expires_at

  abbrev pub answer : String → Slot R → Answer R
  answer hash absent = proceed
  answer hash (pending h promise) = if same h hash then waits promise else conflict
  answer hash (stored h response expires_at) = if same h hash then replays response else conflict

  abbrev pub claimed : String → ℕ → Slot R → Slot R
  claimed hash promise absent = pending hash promise
  claimed hash promise (pending h p) = pending h p
  claimed hash promise (stored h r t) = stored h r t

  abbrev pub promises_after : ℕ → Slot R → ℕ
  promises_after n absent = suc n
  promises_after n (pending h p) = n
  promises_after n (stored h r t) = n

  abbrev pub released : String → Slot R → Slot R
  released hash absent = absent
  released hash (pending h p) = if same h hash then absent else pending h p
  released hash (stored h r t) = stored h r t

  -- The slot of one key is changed.
  abbrev pub at_key : String → (Slot R → Slot R) → (String → Slot R) → String → Slot R
  at_key key f slots j = if same key j then f (slots j) else slots j

  -- The specification of the calls, with the answer to a question.
  unfoldable pub spec : Call R → Slots R → Slots R × Option (Answer R)
  spec (asks now key hash owner) s =
      let internal_key = build_internal_key key owner in
      let aged = age now (s.slot internal_key) in
      (
        record s {
          slot = at_key internal_key (claimed hash s.promises) (λ j. age now (s.slot j));
          promises = promises_after s.promises aged;
        },
        some (answer hash aged),
      )
  spec (saves now key hash response owner) s = (
    record s {
      slot =
          at_key (build_internal_key key owner) (λ x. stored hash response (now + s.ttl_ms))
            (λ j. age now (s.slot j));
    },
    none,
  )
  spec (fails key hash error owner) s =
      (record s { slot = at_key (build_internal_key key owner) (released hash) s.slot }, none)
  spec resets s = (record s { slot = λ j. absent }, none)

  -- The calls as the code makes them.
  unfoldable pub step : Call R → Store R → Store R × Option (Answer R)
  step (asks now key hash owner) s =
      let r = get_idempotent_response now key hash owner s in (r.0, some r.1)
  step (saves now key hash response owner) s =
      (save_idempotent_response now key hash response owner s, none)
  step (fails key hash error owner) s =
      (fail_pending_idempotent_response key hash error owner s, none)
  step resets s = (reset_idempotency_store s, none)

  abbrev pub slot_of : Option PendingRequest → Option (StoreEntry R) → Slot R
  slot_of (some p) e = pending p.hash p.promise
  slot_of none (some e) = stored e.hash e.response e.expires_at
  slot_of none none = absent

  unfoldable pub abstract : Store R → Slots R
  abstract s = record {
    slot = λ j. slot_of (lookup j s.pendings) (lookup j s.entries);
    promises = s.next_promise;
    ttl_ms = s.ttl_ms;
  }

  -- A key is not both pending and stored.
  pub record IsWellFormed (s : Store R) : Type ℓ where
    pub unique : HasUniqueKeys s.entries
    pub exclusive :
        (key : String) (p : PendingRequest)
        → lookup key s.pendings ≡ some p
        → lookup key s.entries ≡ none
