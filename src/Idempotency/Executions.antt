-- ===== src/Idempotency/Executions.antt =====
-- How often the requests of one key of src/services/idempotency.ts are executed, and what a
-- repeated request is given.
use disciplr_backend.Prelude.{
  ℕ, suc, ◌+◌, ◌≤◌, ◌<◌, String, Bool, true, false, Option, none, some, List, [], ◌∷◌, ◌≡◌, refl,
  sym, ap, subst, ◌∙◌, arith, ltb, lt→ltb, if◌then◌else◌, same, same_iff, same_refl, all,
  Bool-cases, if_both, inl, inr, ◌&&◌, not,
}
use disciplr_backend.Idempotency.{
  OwnerContext, build_internal_key, Store, Answer, proceed, replays, waits, conflict,
}
use disciplr_backend.Idempotency.Slots.{
  Call, asks, saves, fails, resets, Slot, absent, pending, stored, Slots, age, answer, claimed,
  spec, step, abstract, IsWellFormed,
}
use disciplr_backend.Idempotency.Runs.{
  run, spec_run, run-spec_run, step-spec, step-IsWellFormed, run-IsWellFormed,
}

eq_false_of_not : (b : Bool) → not b ≡ true → b ≡ false
eq_false_of_not true h = sym h
eq_false_of_not false h = refl

-- One more call is counted within the allowance.
count_step :
    (go before after : Bool) (n : ℕ)
    → (before ≡ true → (after ≡ true) × (go ≡ false))
    → (go ≡ true → after ≡ true)
    → n ≤ (if after then 0 else 1)
    → (if go then suc n else n) ≤ (if before then 0 else 1)
count_step true true after n kept asked h = cc ((kept refl).1)
count_step true false after n kept asked h =
    omega (arith, subst (λ b. n ≤ (if b then 0 else 1)) (asked refl) h)
count_step false true after n kept asked h =
    omega (arith, subst (λ b. n ≤ (if b then 0 else 1)) (kept refl).0 h)
count_step false false after n kept asked h = ground arith

module _ {ℓ} {R : Type ℓ} where
  -- The call neither saves nor fails the request of an internal key.
  unfoldable pub leaves_alone : String → Call R → Bool
  leaves_alone k (asks now key hash owner) = true
  leaves_alone k (saves now key hash response owner) = not (same (build_internal_key key owner) k)
  leaves_alone k (fails key hash error owner) = not (same (build_internal_key key owner) k)
  leaves_alone k resets = false

  -- The call is made before a time.
  unfoldable pub is_before : ℕ → Call R → Bool
  is_before t (asks now key hash owner) = ltb now t
  is_before t (saves now key hash response owner) = ltb now t
  is_before t (fails key hash error owner) = true
  is_before t resets = true

  unfoldable pub asks_for : String → Call R → Bool
  asks_for k (asks now key hash owner) = same (build_internal_key key owner) k
  asks_for k (saves now key hash response owner) = false
  asks_for k (fails key hash error owner) = false
  asks_for k resets = false

  unfoldable pub tells_to_proceed : Option (Answer R) → Bool
  tells_to_proceed (some proceed) = true
  tells_to_proceed (some (replays r)) = false
  tells_to_proceed (some (waits p)) = false
  tells_to_proceed (some conflict) = false
  tells_to_proceed none = false

  -- How many questions about an internal key were answered by telling the caller to proceed.
  unfoldable pub executions : String → List (Call R) → List (Option (Answer R)) → ℕ
  executions k [] answers = 0
  executions k (c ∷ cs) [] = 0
  executions k (c ∷ cs) (a ∷ answers) =
      let rest = executions k cs answers in
      if asks_for k c && tells_to_proceed a then suc rest else rest

  is_pending : Slot R → Bool
  is_pending absent = false
  is_pending (pending h p) = true
  is_pending (stored h r t) = false

  -- A question leaves its key pending if it was so, and then does not tell the caller to proceed.
  asked-pending :
      (now n : ℕ) (hash : String) (x : Slot R)
      → (is_pending x ≡ true
          → (is_pending (claimed hash n (age now x)) ≡ true)
            × (tells_to_proceed (some (answer hash (age now x))) ≡ false))
        × (tells_to_proceed (some (answer hash (age now x))) ≡ true
            → is_pending (claimed hash n (age now x)) ≡ true)
  unfolding is_pending tells_to_proceed
  asked-pending now n hash absent = (λ h. cc h, λ h. refl)
  asked-pending now n hash (pending h p) = (λ g. (refl, ground arith), λ g. refl)
  asked-pending now n hash (stored h r t) = (λ g. cc g, λ g. ground arith)

  age-pending : (now : ℕ) (x : Slot R) → is_pending x ≡ true → is_pending (age now x) ≡ true
  unfolding is_pending
  age-pending now absent h = h
  age-pending now (pending hash p) h = h
  age-pending now (stored hash r t) h = cc h

  age-early :
      (now t : ℕ) (hash : String) (response : R)
      → ltb now t ≡ true
      → age now (stored hash response t) ≡ stored hash response t
  age-early now t hash response h = ground arith

  PendingKept : String → Call R → Slots R → Type 0
  PendingKept k c s =
      (is_pending (s.slot k) ≡ true
        → (is_pending ((spec c s).0.slot k) ≡ true)
          × ((asks_for k c && tells_to_proceed (spec c s).1) ≡ false))
      × ((asks_for k c && tells_to_proceed (spec c s).1) ≡ true
          → is_pending ((spec c s).0.slot k) ≡ true)

  spec-pending :
      (k : String) (c : Call R) (s : Slots R) → leaves_alone k c ≡ true → PendingKept k c s
  unfolding PendingKept leaves_alone asks_for spec tells_to_proceed
  spec-pending k (asks now key hash owner) s h =
      elim (Bool-cases (same (build_internal_key key owner) k)) [
        | inl e ↦
            rw (e, (same_iff (build_internal_key key owner) k).0 e)
              (asked-pending now s.promises hash (s.slot k))
        | inr e ↦ rw (e) (λ g. (age-pending now (s.slot k) g, refl), λ g. cc g)
      ]
  spec-pending k (saves now key hash response owner) s h =
      rw (eq_false_of_not (same (build_internal_key key owner) k) h)
        (λ g. (age-pending now (s.slot k) g, refl), λ g. cc g)
  spec-pending k (fails key hash error owner) s h =
      rw (eq_false_of_not (same (build_internal_key key owner) k) h) (λ g. (g, refl), λ g. cc g)
  spec-pending k resets s h = cc h

  -- What a slot allows still.
  allowance : Slot R → ℕ
  allowance x = if is_pending x then 0 else 1

  allowance_small : (x : Slot R) → allowance x ≤ 1
  unfolding allowance
  allowance_small x =
      if_both (λ n. n ≤ 1) (is_pending x) {x = 0} {y = 1} (omega arith) (omega arith)

  executions-spec_run :
      (k : String) (cs : List (Call R)) (s : Slots R)
      → all (leaves_alone k) cs ≡ true
      → executions k cs (spec_run cs s).1 ≤ allowance (s.slot k)
  unfolding executions spec_run allowance PendingKept
  executions-spec_run k [] s h = omega arith
  executions-spec_run k (c ∷ cs) s h =
      let rest = executions-spec_run k cs (spec c s).0 (ground (arith, h)) in
      let kept = spec-pending k c s (ground (arith, h)) in
      count_step (asks_for k c && tells_to_proceed (spec c s).1) (is_pending (s.slot k))
        (is_pending ((spec c s).0.slot k)) _ kept.0 kept.1 rest

  -- From two maps that are kept apart, however many requests of one internal key come in, at most
  -- one of them is told to proceed, as long as no request of that key is saved or failed and the
  -- store is not reset.
  pub executions-run :
      (k : String) (cs : List (Call R)) (s : Store R)
      → IsWellFormed s
      → all (leaves_alone k) cs ≡ true
      → executions k cs (run cs s).1 ≤ 1
  executions-run k cs s w h =
      let same_answers = (run-spec_run cs s w).1 in
      let few = executions-spec_run k cs (abstract s) h in
      omega (arith, ap (executions k cs) same_answers, few, allowance_small ((abstract s).slot k))

  -- What is stored stays, until its time.
  spec-stored :
      (k : String) (c : Call R) (s : Slots R) (hash : String) (response : R) (t : ℕ)
      → s.slot k ≡ stored hash response t
      → leaves_alone k c ≡ true
      → is_before t c ≡ true
      → (spec c s).0.slot k ≡ stored hash response t
  unfolding leaves_alone is_before spec
  spec-stored k (asks now key h owner) s hash response t e l b =
      elim (Bool-cases (same (build_internal_key key owner) k)) [
        | inl g ↦ rw (g, e) (ap (claimed h s.promises) (age-early now t hash response b))
        | inr g ↦ rw (g, e) (age-early now t hash response b)
      ]
  spec-stored k (saves now key h r owner) s hash response t e l b =
      rw (eq_false_of_not (same (build_internal_key key owner) k) l, e)
        (age-early now t hash response b)
  spec-stored k (fails key h error owner) s hash response t e l b =
      rw (eq_false_of_not (same (build_internal_key key owner) k) l) e
  spec-stored k resets s hash response t e l b = cc l

  spec_run-stored :
      (k : String) (cs : List (Call R)) (s : Slots R) (hash : String) (response : R) (t : ℕ)
      → s.slot k ≡ stored hash response t
      → all (leaves_alone k) cs ≡ true
      → all (is_before t) cs ≡ true
      → (spec_run cs s).0.slot k ≡ stored hash response t
  unfolding spec_run
  spec_run-stored k [] s hash response t e l b = e
  spec_run-stored k (c ∷ cs) s hash response t e l b =
      spec_run-stored k cs (spec c s).0 hash response t
        (spec-stored k c s hash response t e (ground (arith, l)) (ground (arith, b)))
        (ground (arith, l)) (ground (arith, b))

  saved-slot :
      (now : ℕ) (key hash : String) (response : R) (owner : Option OwnerContext) (s : Slots R)
      → (spec (saves now key hash response owner) s).0.slot (build_internal_key key owner)
        ≡ stored hash response (now + s.ttl_ms)
  unfolding spec
  saved-slot now key hash response owner s = rw (same_refl (build_internal_key key owner)) refl

  replayed :
      (later : ℕ) (key hash : String) (response : R) (owner : Option OwnerContext) (t : ℕ)
      (s : Slots R)
      → s.slot (build_internal_key key owner) ≡ stored hash response t
      → ltb later t ≡ true
      → (spec (asks later key hash owner) s).1 ≡ some (replays response)
  unfolding spec
  replayed later key hash response owner t s e early =
      ap (λ x. some (answer hash (age later x))) e
      ∙ ap (λ x. some (answer hash x)) (age-early later t hash response early)
      ∙ rw (same_refl hash) refl

  -- From two maps that are kept apart, a request that is repeated with the same key, hash and
  -- owner is given the response that was saved, as long as the time to live of the response is
  -- not over and the request of that key was not saved or failed again, and the store not reset.
  pub run-replays :
      (now later : ℕ) (key hash : String) (response : R) (owner : Option OwnerContext)
      (cs : List (Call R)) (s : Store R)
      → IsWellFormed s
      → all (leaves_alone (build_internal_key key owner)) cs ≡ true
      → all (is_before (now + s.ttl_ms)) cs ≡ true
      → later < now + s.ttl_ms
      → (step
          (asks later key hash owner)
          (run cs (step (saves now key hash response owner) s).0).0).1
        ≡ some (replays response)
  unfolding abstract
  run-replays now later key hash response owner cs s w l b early =
      let k = build_internal_key key owner in
      let save = saves now key hash response owner in
      let saved = step save s in
      let w1 = step-IsWellFormed save s w in
      let t = now + s.ttl_ms in
      let kept =
        ap (λ x. x.slot k) (run-spec_run cs saved.0 w1).0
        ∙ spec_run-stored k cs (abstract saved.0) hash response t
            (ap (λ x. x.slot k) (step-spec save s w).0
              ∙ saved-slot now key hash response owner (abstract s))
            l b in
      (step-spec (asks later key hash owner) (run cs saved.0).0 (run-IsWellFormed cs saved.0 w1)).1
      ∙ replayed later key hash response owner t (abstract (run cs saved.0).0) kept
          (lt→ltb later t early)
