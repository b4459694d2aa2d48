-- ===== src/Webhooks/Breaker/Stuck.antt =====
-- Failures that come late, outside the window, in the breaker of src/services/webhooks.ts.
use disciplr_backend.Prelude.{
  ℕ, ◌<◌, false, none, some, List, [], ◌∷◌, ◌≡◌, refl, sym, subst, ap, ◌∙◌, arith, leb,
}
use disciplr_backend.Webhooks.Breaker.{
  BreakerStateValue, closed, half_open, BreakerState, CircuitBreakerConfig, Breaker,
  load_breaker_state, new_failure_count, within_window, failure_recorded, failed_state,
  upsert_breaker_state, record_breaker_failure, check_breaker, Check, allowed,
}

-- What the cache and the row say of the breaker, which may differ.
pub record Says (in_cache in_row : BreakerStateValue) (b : Breaker) : Type 0 where
  pub cache_says : (s : BreakerState) × (b.cached ≡ some s) × (s.state ≡ in_cache)
  pub row_says : (s : BreakerState) × (b.row ≡ some s) × (s.state ≡ in_row)

-- One failure outside the window is below a threshold of more than one.
late_count :
    (config : CircuitBreakerConfig) (now : ℕ) (s : BreakerState)
    → within_window config now s ≡ false
    → 1 < config.threshold
    → leb config.threshold (new_failure_count config now s) ≡ false
unfolding new_failure_count
late_count config now s late many = rw late (ground arith)

late_failure-cached :
    (config : CircuitBreakerConfig) (now : ℕ) (b : Breaker) (s : BreakerState)
    → b.cached ≡ some s
    → within_window config now s ≡ false
    → 1 < config.threshold
    → record_breaker_failure config now b ≡ record b {
      cached = some (failed_state (new_failure_count config now s) now s);
      row = upsert_breaker_state closed (new_failure_count config now s) (some now) none now b.row;
    }
unfolding record_breaker_failure load_breaker_state failure_recorded
late_failure-cached config now b s e late many = rw (e, late_count config now s late many) refl

late_failure-Says :
    (config : CircuitBreakerConfig) (now : ℕ) (b : Breaker) (s : BreakerState)
    → b.cached ≡ some s
    → within_window config now s ≡ false
    → 1 < config.threshold
    → Says s.state closed (record_breaker_failure config now b)
late_failure-Says config now b s e late many =
    subst (Says s.state closed) (sym (late_failure-cached config now b s e late many)) (record {
      cache_says = (failed_state (new_failure_count config now s) now s, refl, refl);
      row_says = (_, refl, refl);
    })

half_open_allowed :
    (config : CircuitBreakerConfig) (later : ℕ) (b : Breaker)
    → Says half_open closed b
    → b.probing ≡ false
    → (check_breaker config later b).1 ≡ allowed
unfolding check_breaker load_breaker_state
half_open_allowed config later b k idle = let (s, e, half) = k.cache_says in rw (e, half, idle) refl

-- A probe that fails outside the window leaves the breaker half-open in the cache and closed in its
-- row, and while no probe is under way every later delivery is allowed: the failure of the probe
-- does not open it again.
failed_probe_allows :
    (config : CircuitBreakerConfig) (now later : ℕ) (b : Breaker) (s : BreakerState)
    → b.cached ≡ some s
    → s.state ≡ half_open
    → b.probing ≡ false
    → within_window config now s ≡ false
    → 1 < config.threshold
    → Says half_open closed (record_breaker_failure config now b)
      × ((check_breaker config later (record_breaker_failure config now b)).1 ≡ allowed)
failed_probe_allows config now later b s e half idle late many =
    let k =
      subst (λ x. Says x closed (record_breaker_failure config now b)) half
        (late_failure-Says config now b s e late many) in
    (
      k,
      half_open_allowed config later (record_breaker_failure config now b) k
          (ap (λ (x : Breaker). x.probing) (late_failure-cached config now b s e late many) ∙ idle),
    )

-- The answers to checks at several times, with nothing else between them.
unfoldable pub answers : CircuitBreakerConfig → List ℕ → Breaker → List Check
answers config [] b = []
answers config (t ∷ ts) b =
    (check_breaker config t b).1 ∷ answers config ts (check_breaker config t b).0
