-- ===== src/Examples/Hooks.antt =====
-- The breaker of a concrete subscriber, through the model of src/services/webhooks.ts.
use disciplr_backend.Prelude.{false, none, some}
use disciplr_backend.Webhooks.Breaker.{
  BreakerStateValue, BreakerState, CircuitBreakerConfig, Breaker,
}

abbrev config : CircuitBreakerConfig
config = record { threshold = 3; window_ms = 60_000; half_open_timeout_ms = 30_000 }

abbrev tripped : BreakerStateValue → BreakerState
tripped state = record {
  state = state;
  failure_count = 3;
  last_failure_at = some 100;
  tripped_at = some 100;
  half_open_at = none;
  created_at = 1;
  updated_at = 100;
}

abbrev breaker : BreakerStateValue → Breaker
breaker state = record {
  cached = some (tripped state);
  probing = false;
  row = some (tripped state);
}
