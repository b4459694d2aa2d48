-- ===== src/Retry/Attempts.antt =====
-- The attempts and the waits of src/utils/retry.ts.
use disciplr_backend.Prelude.{
  ℕ, zero, suc, ◌≤◌, max, Bool, true, false, not, ◌||◌, ◌≡◌, refl, ap, arith, ◌==◌, if_both, length,
  All, inl, inr, ◌⊎◌,
}
use disciplr_backend.Retry.{
  RetryConfig, Attempt, value, error, Ended, returned, threw, Retried, retry_loop,
  retry_with_backoff, next_backoff, after_wait, stop_with,
}

module _ {ℓ} {A E : Type ℓ} where
  pub Attempt-cases : (x : Attempt A E) → ((a : A) × (x ≡ value a)) ⊎ ((e : E) × (x ≡ error e))
  Attempt-cases (value a) = inl (a, refl)
  Attempt-cases (error e) = inr (e, refl)

-- The attempts and the waits of a run of the loop.
pub record IsBounded {ℓ} {S A E : Type ℓ} (n limit : ℕ) (r : Retried S A E) : Type ℓ where
  pub few : r.attempts_made ≤ n
  pub no_more_waits : length r.waits ≤ r.attempts_made
  pub short : All (λ w. w ≤ limit) r.waits

module _ {ℓ} {S A E : Type ℓ} where
  stopped : (n limit : ℕ) (s : S) (how : Ended A E) → IsBounded (suc n) limit (stop_with s how)
  unfolding stop_with
  stopped n limit s how = record { few = omega arith; no_more_waits = omega arith; short = tt }

  waited :
      (n limit backoff_ms : ℕ) (r : Retried S A E)
      → backoff_ms ≤ limit
      → IsBounded n limit r
      → IsBounded (suc n) limit (after_wait backoff_ms r)
  unfolding after_wait
  waited n limit backoff_ms r h b = record {
    few = omega (arith, b.few);
    no_more_waits = omega (arith, b.no_more_waits);
    short = (h, b.short);
  }

module _ {ℓ} {S A E : Type ℓ} (operation : ℕ → S → S × Attempt A E) (retryable : E → Bool)
    (config : RetryConfig) where
  retry_loop-IsBounded :
      (n attempt backoff_ms limit : ℕ) (s : S)
      → backoff_ms ≤ limit
      → config.max_backoff_ms ≤ limit
      → IsBounded n limit (retry_loop operation retryable config n attempt backoff_ms s)
  unfolding retry_loop next_backoff
  retry_loop-IsBounded zero attempt backoff_ms limit s h top = record {
    few = omega arith;
    no_more_waits = omega arith;
    short = tt;
  }
  retry_loop-IsBounded (suc n) attempt backoff_ms limit s h top =
      elim (Attempt-cases (operation attempt s).1) [
        | inl (a, e) ↦ rw (e, retry_loop) (stopped n limit _ _)
        | inr (e, f) ↦
            rw (f, retry_loop)
              (if_both (IsBounded (suc n) limit) (not (retryable e) || n == 0) (stopped n limit _ _)
                (waited n limit backoff_ms _ h (
                  retry_loop-IsBounded n (suc attempt) (next_backoff config backoff_ms) limit _
                    (omega (arith, top)) top)))
      ]

  -- No more attempts are made than are allowed, with no more waits than attempts, and no wait is
  -- longer than the larger of the first backoff and the cap, its random part aside.
  retry_with_backoff-IsBounded :
      (s : S)
      → IsBounded config.max_attempts
          (max config.initial_backoff_ms config.max_backoff_ms)
          (retry_with_backoff operation retryable config s)
  unfolding retry_with_backoff
  retry_with_backoff-IsBounded s =
      retry_loop-IsBounded config.max_attempts 1 config.initial_backoff_ms _ s (omega arith)
        (omega arith)

  -- After a number of failures that may be retried the operation returns a value.
  abbrev pub SucceedsAfter : (failures attempt : ℕ) → S → A → Type ℓ
  SucceedsAfter zero attempt s a = (operation attempt s).1 ≡ value a
  SucceedsAfter (suc failures) attempt s a =
      (e : E) × ((operation attempt s).1 ≡ error e)
      × (retryable e ≡ true)
      × SucceedsAfter failures (suc attempt) (operation attempt s).0 a

  retry_loop_succeeds :
      (failures n attempt backoff_ms : ℕ) (s : S) (a : A)
      → SucceedsAfter failures attempt s a
      → suc failures ≤ n
      → ((retry_loop operation retryable config n attempt backoff_ms s).ended ≡ returned a)
        × ((retry_loop operation retryable config n attempt backoff_ms s).attempts_made
            ≡ suc failures)
  unfolding retry_loop stop_with after_wait
  retry_loop_succeeds failures zero attempt backoff_ms s a h enough = ground (arith, enough)
  retry_loop_succeeds zero (suc n) attempt backoff_ms s a h enough = rw (h, retry_loop) (refl, refl)
  retry_loop_succeeds (suc failures) (suc n) attempt backoff_ms s a (e, fails, again, later)
        enough =
      let more : n == 0 ≡ false = ground (arith, enough) in
      let rest =
        retry_loop_succeeds failures n (suc attempt) (next_backoff config backoff_ms) _ a later
          (omega (arith, enough)) in
      rw (fails, retry_loop, again, more) (rest.0, ap suc rest.1)

  -- An operation that fails some times with errors that may be retried and then returns a value makes
  -- the retry return that value after as many attempts and one more, if so many are allowed.
  pub retry_with_backoff_succeeds :
      (failures : ℕ) (s : S) (a : A)
      → SucceedsAfter failures 1 s a
      → suc failures ≤ config.max_attempts
      → ((retry_with_backoff operation retryable config s).ended ≡ returned a)
        × ((retry_with_backoff operation retryable config s).attempts_made ≡ suc failures)
  unfolding retry_with_backoff
  retry_with_backoff_succeeds failures s a h enough =
      retry_loop_succeeds failures config.max_attempts 1 config.initial_backoff_ms s a h enough

  -- What every attempt keeps, the retry keeps.
  retry_loop_keeps :
      (P : S → Type ℓ)
      → ((attempt : ℕ) (s : S) → P s → P (operation attempt s).0)
      → (n attempt backoff_ms : ℕ) (s : S) → P s
      → P (retry_loop operation retryable config n attempt backoff_ms s).state
  unfolding retry_loop stop_with after_wait
  retry_loop_keeps P keeps zero attempt backoff_ms s h = h
  retry_loop_keeps P keeps (suc n) attempt backoff_ms s h =
      let kept = keeps attempt s h in
      elim (Attempt-cases (operation attempt s).1) [
        | inl (a, e) ↦ rw (e, retry_loop) kept
        | inr (e, f) ↦
            rw (f, retry_loop)
              (if_both (λ (r : Retried S A E). P r.state) (not (retryable e) || n == 0) kept
                (retry_loop_keeps P keeps n (suc attempt) (next_backoff config backoff_ms) _ kept))
      ]

  pub retry_with_backoff_keeps :
      (P : S → Type ℓ)
      → ((attempt : ℕ) (s : S) → P s → P (operation attempt s).0)
      → (s : S) → P s
      → P (retry_with_backoff operation retryable config s).state
  unfolding retry_with_backoff
  retry_with_backoff_keeps P keeps s h =
      retry_loop_keeps P keeps config.max_attempts 1 config.initial_backoff_ms s h

  retry_loop_final :
      (n attempt backoff_ms : ℕ) (s s' : S) (e : E)
      → 1 ≤ n
      → operation attempt s ≡ (s', error e)
      → retryable e ≡ false
      → retry_loop operation retryable config n attempt backoff_ms s ≡ stop_with s' (threw e)
  unfolding retry_loop
  retry_loop_final zero attempt backoff_ms s s' e allowed fails final = ground (arith, allowed)
  retry_loop_final (suc n) attempt backoff_ms s s' e allowed fails final =
      rw (ap (λ p. p.1) fails, retry_loop, final)
        (ap (λ x. stop_with x (threw e)) (ap (λ p. p.0) fails))

  -- An error that is not retried ends the loop with the first attempt.
  pub retry_with_backoff_final :
      (s s' : S) (e : E)
      → 1 ≤ config.max_attempts
      → operation 1 s ≡ (s', error e)
      → retryable e ≡ false
      → retry_with_backoff operation retryable config s ≡ stop_with s' (threw e)
  unfolding retry_with_backoff
  retry_with_backoff_final s s' e allowed fails final =
      retry_loop_final config.max_attempts 1 config.initial_backoff_ms s s' e allowed fails final
