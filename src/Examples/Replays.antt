-- ===== src/Examples/Replays.antt =====
-- Requests with idempotency keys, through the model of src/services/idempotency.ts.
use disciplr_backend.Prelude.{
  ℕ, ◌≤◌, ◌↔◌, String, Option, none, some, List, [], ◌∷◌, ◌≡◌, refl, arith, lookup,
}
use disciplr_backend.Idempotency.{
  OwnerContext, Store, build_internal_key, validate_idempotency_key, valid, replays,
}
use disciplr_backend.Idempotency.Keys.{principal, build_internal_key-same_iff}
use disciplr_backend.Idempotency.Slots.{Call, asks, saves, fails, step, abstract, IsWellFormed}
use disciplr_backend.Idempotency.Runs.{run, spec_run, run-spec_run}
use disciplr_backend.Idempotency.Executions.{executions, executions-run, run-replays}

abbrev ann : Option OwnerContext
ann = some (record { user_id = some "ann"; org_id = none })

abbrev acme : Option OwnerContext
acme = some (record { user_id = some "ann"; org_id = some "acme" })

abbrev empty_store : Store ℕ
empty_store = record { entries = []; pendings = []; ttl_ms = 100; next_promise = 0; settled = [] }

empty_store-IsWellFormed : IsWellFormed empty_store
unfolding lookup
empty_store-IsWellFormed = record { unique = tt; exclusive = λ key p h. refl }

k1-valid : validate_idempotency_key "k1" ≡ valid
unfolding validate_idempotency_key disciplr_backend.Idempotency.matches_key_re
    disciplr_backend.Idempotency.is_key_code
k1-valid = refl

build_internal_key-same_iff_example :
    (build_internal_key "k1" ann ≡ build_internal_key "k1" acme)
    ↔ ((principal ann ≡ principal acme) × (◌≡◌ {A = String} "k1" "k1"))
build_internal_key-same_iff_example =
    build_internal_key-same_iff "k1" "k1" ann acme k1-valid k1-valid

abbrev busy : List (Call ℕ)
busy =
    asks 1 "k1" "h" ann ∷ asks 2 "k1" "h" ann ∷ asks 3 "k1" "other" ann ∷ asks 4 "k1" "h" acme ∷ []

run-spec_run_example :
    (abstract (run (saves 0 "k2" "h" 7 ann ∷ busy) empty_store).0
      ≡ (spec_run (saves 0 "k2" "h" 7 ann ∷ busy) (abstract empty_store)).0)
    × ((run (saves 0 "k2" "h" 7 ann ∷ busy) empty_store).1
        ≡ (spec_run (saves 0 "k2" "h" 7 ann ∷ busy) (abstract empty_store)).1)
run-spec_run_example =
    run-spec_run (saves 0 "k2" "h" 7 ann ∷ busy) empty_store empty_store-IsWellFormed

executions-run_example : executions (build_internal_key "k1" ann) busy (run busy empty_store).1 ≤ 1
unfolding disciplr_backend.Idempotency.Executions.leaves_alone
executions-run_example =
    executions-run (build_internal_key "k1" ann) busy empty_store empty_store-IsWellFormed refl

run-replays_example :
    (step
      (asks 50 "k1" "h" ann)
      (run
        (asks 20 "k1" "h" ann ∷ fails "k2" "h" "boom" ann ∷ [])
        (step (saves 10 "k1" "h" 7 ann) empty_store).0).0).1
    ≡ some (replays 7)
unfolding disciplr_backend.Idempotency.Executions.leaves_alone
    disciplr_backend.Idempotency.Executions.is_before build_internal_key
    disciplr_backend.Idempotency.in_namespace
run-replays_example =
    run-replays 10 50 "k1" "h" 7 ann (asks 20 "k1" "h" ann ∷ fails "k2" "h" "boom" ann ∷ [])
      empty_store empty_store-IsWellFormed refl refl (omega arith)
