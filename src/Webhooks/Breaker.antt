-- ===== src/Webhooks/Breaker.antt =====
-- The circuit breaker of src/services/webhooks.ts and its row in src/repositories/
-- webhookSubscriberRepository.ts, for one subscriber: the operations on one subscriber read and write
-- nothing of another. Times are milliseconds, 0 standing for none as in the code's comparisons.
pub mod Bursts
pub mod Stuck
use disciplr_backend.Prelude.{
  ℕ, suc, ◌+◌, Bool, true, false, ◌&&◌, Option, none, some, List, [], ◌∷◌, ltb, leb, if◌then◌else◌,
  or_default,
}

pub data BreakerStateValue : Type 0 where
  closed opened half_open : BreakerStateValue

pub record BreakerState : Type 0 where
  pub state : BreakerStateValue
  pub failure_count : ℕ
  pub last_failure_at : Option ℕ
  pub tripped_at : Option ℕ
  pub half_open_at : Option ℕ
  pub created_at : ℕ
  pub updated_at : ℕ

pub record CircuitBreakerConfig : Type 0 where
  pub threshold : ℕ
  pub window_ms : ℕ
  pub half_open_timeout_ms : ℕ

-- The subscriber's entries in `breakerCache` and in `inFlightProbes`, and its database row.
pub record Breaker : Type 0 where
  pub cached : Option BreakerState
  pub probing : Bool
  pub row : Option BreakerState

abbrev pub default_state : ℕ → BreakerState
default_state now = record {
  state = closed;
  failure_count = 0;
  last_failure_at = none;
  tripped_at = none;
  half_open_at = none;
  created_at = now;
  updated_at = now;
}

abbrev pub loaded : Option BreakerState → Option BreakerState → ℕ → BreakerState
loaded (some s) row now = s
loaded none (some s) now = s
loaded none none now = default_state now

unfoldable pub reset_breaker_cache : Breaker → Breaker
reset_breaker_cache b = record b { cached = none; probing = false }

unfoldable pub load_breaker_state : ℕ → Breaker → Breaker × BreakerState
load_breaker_state now b =
    (record b { cached = some (loaded b.cached b.row now) }, loaded b.cached b.row now)

-- The row after an upsert of the five columns; a new row is created now.
abbrev pub upsert_breaker_state :
    BreakerStateValue → ℕ → Option ℕ → Option ℕ → ℕ → Option BreakerState → Option BreakerState
upsert_breaker_state state count failed tripped now row = some (record {
  state = state;
  failure_count = count;
  last_failure_at = failed;
  tripped_at = tripped;
  half_open_at = none;
  created_at = (or_default row (default_state now)).created_at;
  updated_at = now;
})

-- lastFailureMs > 0 && nowMs - lastFailureMs < windowMs
abbrev pub within_window : CircuitBreakerConfig → ℕ → BreakerState → Bool
within_window config now s =
    ltb 0 (or_default s.last_failure_at 0)
    && ltb now (or_default s.last_failure_at 0 + config.window_ms)

unfoldable pub new_failure_count : CircuitBreakerConfig → ℕ → BreakerState → ℕ
new_failure_count config now s = if within_window config now s then suc s.failure_count else 1

abbrev pub tripped_state : ℕ → ℕ → BreakerState → BreakerState
tripped_state count now s = record s {
  state = opened;
  failure_count = count;
  last_failure_at = some now;
  tripped_at = some now;
  half_open_at = none;
  updated_at = now;
}

abbrev pub failed_state : ℕ → ℕ → BreakerState → BreakerState
failed_state count now s = record s {
  failure_count = count;
  last_failure_at = some now;
  updated_at = now;
}

unfoldable pub failure_recorded : CircuitBreakerConfig → ℕ → BreakerState → Breaker → Breaker
failure_recorded config now s b =
    let count = new_failure_count config now s in
    if leb config.threshold count
    then record b {
      cached = some (tripped_state count now s);
      row = upsert_breaker_state opened count (some now) (some now) now b.row;
    }
    else record b {
      cached = some (failed_state count now s);
      row = upsert_breaker_state closed count (some now) none now b.row;
    }

unfoldable pub record_breaker_failure : CircuitBreakerConfig → ℕ → Breaker → Breaker
record_breaker_failure config now b =
    failure_recorded config now (load_breaker_state now b).1 (load_breaker_state now b).0

unfoldable pub record_breaker_success : ℕ → Breaker → Breaker
record_breaker_success now b = record b {
  cached = some (record (load_breaker_state now b).1 {
    state = closed;
    failure_count = 0;
    last_failure_at = none;
    tripped_at = none;
    half_open_at = none;
    updated_at = now;
  });
  row = upsert_breaker_state closed 0 none none now b.row;
}

abbrev pub half_opened : ℕ → BreakerState → BreakerState
half_opened now s = record s { state = half_open; half_open_at = some now; updated_at = now }

-- The row that is updated where it is open, and whether it was.
abbrev pub moved_row : BreakerStateValue → ℕ → BreakerState → Option BreakerState × Bool
moved_row opened now s = (some (half_opened now s), true)
moved_row closed now s = (some s, false)
moved_row half_open now s = (some s, false)

unfoldable pub try_transition_to_half_open : ℕ → Option BreakerState → Option BreakerState × Bool
try_transition_to_half_open now none = (none, false)
try_transition_to_half_open now (some s) = moved_row s.state now s

pub data Check : Type 0 where
  allowed breaker_open open_probe_in_flight half_open_probe_in_flight : Check

-- trippedMs > 0 && Date.now() - trippedMs >= halfOpenTimeoutMs
abbrev pub timeout_elapsed : CircuitBreakerConfig → ℕ → BreakerState → Bool
timeout_elapsed config now s =
    ltb 0 (or_default s.tripped_at 0)
    && leb (or_default s.tripped_at 0 + config.half_open_timeout_ms) now

unfoldable pub check_open : CircuitBreakerConfig → ℕ → BreakerState → Breaker → Breaker × Check
check_open config now s b =
    if timeout_elapsed config now s
    then (let moved = try_transition_to_half_open now b.row in
        if moved.1
        then (record b { cached = some (half_opened now s); row = moved.0 }, allowed)
        else (record b { row = moved.0 }, open_probe_in_flight))
    else (b, breaker_open)

abbrev pub check_state :
    CircuitBreakerConfig → ℕ → BreakerStateValue → BreakerState → Breaker → Breaker × Check
check_state config now closed s b = (b, allowed)
check_state config now opened s b = check_open config now s b
check_state config now half_open s b = (b, if b.probing then half_open_probe_in_flight else allowed)

unfoldable pub check_breaker : CircuitBreakerConfig → ℕ → Breaker → Breaker × Check
check_breaker config now b =
    let s = (load_breaker_state now b).1 in
    check_state config now s.state s (load_breaker_state now b).0
