-- ===== src/Webhooks/Breaker/Bursts.antt =====
-- How many failures in a row open the breaker of src/services/webhooks.ts.
use disciplr_backend.Prelude.{
  ℕ, suc, ◌+◌, ◌<◌, Option, none, some, List, [], ◌∷◌, ◌≡◌, refl, ◌∙◌, sym, ap, lt→ltb, arith,
  length, leb, if◌then◌else◌, Bool-cases, inl, inr,
}
use disciplr_backend.Webhooks.Breaker.{
  BreakerStateValue, closed, opened, BreakerState, CircuitBreakerConfig, Breaker, loaded,
  load_breaker_state, new_failure_count, tripped_state, failed_state, failure_recorded,
  record_breaker_failure, record_breaker_success,
}

-- Failures one after the other, with nothing else between them.
unfoldable pub failures : CircuitBreakerConfig → List ℕ → Breaker → Breaker
failures config [] b = b
failures config (t ∷ ts) b = failures config ts (record_breaker_failure config t b)

-- Each failure comes less than the window after the one before it.
abbrev pub Steady : ℕ → ℕ → List ℕ → Type 0
Steady window last [] = Unit
Steady window last (t ∷ ts) = (0 < last) × (t < last + window) × Steady window t ts

abbrev pub cached_state : Option BreakerState → BreakerStateValue
cached_state none = closed
cached_state (some s) = s.state

-- The state that a number of failures calls for.
abbrev pub judged : ℕ → ℕ → BreakerStateValue
judged threshold count = if leb threshold count then opened else closed

-- The cached state after one failure, where the count is known.
abbrev next_state : CircuitBreakerConfig → ℕ → ℕ → BreakerState → BreakerState
next_state config count t s =
    if leb config.threshold count then tripped_state count t s else failed_state count t s

failure-cached :
    (config : CircuitBreakerConfig) (t : ℕ) (b : Breaker) (s : BreakerState)
    → b.cached ≡ some s
    → (record_breaker_failure config t b).cached
      ≡ some (next_state config (new_failure_count config t s) t s)
unfolding record_breaker_failure load_breaker_state failure_recorded
failure-cached config t b s e =
    elim (Bool-cases (leb config.threshold (new_failure_count config t s))) [
      | inl reached ↦ rw (e, reached) refl
      | inr below ↦ rw (e, below) refl
    ]

counted_on :
    (config : CircuitBreakerConfig) (t last : ℕ) (s : BreakerState)
    → s.last_failure_at ≡ some last
    → 0 < last
    → t < last + config.window_ms
    → new_failure_count config t s ≡ suc s.failure_count
unfolding new_failure_count
counted_on config t last s l started soon =
    rw l (ground (arith, lt→ltb _ _ started, lt→ltb _ _ soon))

next-judged :
    (config : CircuitBreakerConfig) (count t : ℕ) (s : BreakerState)
    → (count < config.threshold → s.state ≡ closed)
    → (next_state config count t s).state ≡ judged config.threshold count
next-judged config count t s j = elim (Bool-cases (leb config.threshold count)) [
  | inl reached ↦ rw reached refl
  | inr below ↦ rw below (j (ground (arith, below)))
]

next-count :
    (config : CircuitBreakerConfig) (count t : ℕ) (s : BreakerState)
    → (next_state config count t s).failure_count ≡ count
next-count config count t s = elim (Bool-cases (leb config.threshold count)) [
  | inl reached ↦ rw reached refl
  | inr below ↦ rw below refl
]

next-last :
    (config : CircuitBreakerConfig) (count t : ℕ) (s : BreakerState)
    → (next_state config count t s).last_failure_at ≡ some t
next-last config count t s = elim (Bool-cases (leb config.threshold count)) [
  | inl reached ↦ rw reached refl
  | inr below ↦ rw below refl
]

failures-judged :
    (config : CircuitBreakerConfig) (ts : List ℕ) (b : Breaker) (s : BreakerState) (last : ℕ)
    → b.cached ≡ some s
    → s.state ≡ judged config.threshold s.failure_count
    → s.last_failure_at ≡ some last
    → Steady config.window_ms last ts
    → cached_state (failures config ts b).cached
      ≡ judged config.threshold (s.failure_count + length ts)
unfolding failures
failures-judged config [] b s last e j l steady = rw e (ground (arith, j))
failures-judged config (t ∷ ts) b s last e j l steady =
    let n : ℕ = new_failure_count config t s in
    let one_more : n ≡ suc s.failure_count = counted_on config t last s l steady.0 steady.1 in
    let ih =
      failures-judged config ts (record_breaker_failure config t b) (next_state config n t s) t
        (failure-cached config t b s e)
        (next-judged config n t s (λ below. j ∙ ground (arith, one_more, below))
          ∙ ap (judged config.threshold) (sym (next-count config n t s)))
        (next-last config n t s) steady.2 in
    ih ∙ ap (judged config.threshold) (omega (arith, next-count config n t s, one_more))

-- After a success, failures that follow each other within the window open the breaker exactly when
-- there are as many of them as the threshold; until then it is closed.
burst_state :
    (config : CircuitBreakerConfig) (now first : ℕ) (ts : List ℕ) (b : Breaker)
    → 0 < first
    → Steady config.window_ms first ts
    → cached_state (failures config (first ∷ ts) (record_breaker_success now b)).cached
      ≡ judged config.threshold (suc (length ts))
unfolding failures record_breaker_success load_breaker_state new_failure_count
burst_state config now first ts b started steady =
    let b' : Breaker = record_breaker_success now b in
    let s : BreakerState = record (loaded b.cached b.row now) {
      state = closed;
      failure_count = 0;
      last_failure_at = none;
      tripped_at = none;
      half_open_at = none;
      updated_at = now;
    } in
    let ih =
      failures-judged config ts (record_breaker_failure config first b')
        (next_state config 1 first s) first (failure-cached config first b' s refl)
        (next-judged config 1 first s (λ below. refl)
          ∙ ap (judged config.threshold) (sym (next-count config 1 first s)))
        (next-last config 1 first s) steady in
    ih ∙ ap (judged config.threshold) (omega (arith, next-count config 1 first s))
