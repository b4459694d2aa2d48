-- ===== src/Retry.antt =====
-- src/utils/retry.ts: an operation that may fail is a function of the state, repeated on the state
-- that it left. The waits are recorded without their random part.
pub mod Attempts
use disciplr_backend.Prelude.{
  ℕ, zero, suc, ◌*◌, min, String, Bool, true, false, not, ◌||◌, ◌&&◌, Option, none, some, List, [],
  ◌∷◌, ◌==◌, if◌then◌else◌, any,
}

pub record RetryConfig : Type 0 where
  pub max_attempts : ℕ
  pub initial_backoff_ms : ℕ
  pub max_backoff_ms : ℕ
  pub backoff_multiplier : ℕ

abbrev pub default_retry_config : RetryConfig
default_retry_config = record {
  max_attempts = 3;
  initial_backoff_ms = 100;
  max_backoff_ms = 60000;
  backoff_multiplier = 2;
}

-- errorMessage.includes(word), for one message in lower case
abbrev pub Includes : Type 0
Includes = String → Bool

unfoldable pub is_retryable : Includes → Bool
is_retryable includes =
    any includes ("connection" ∷ "econnrefused" ∷ "enotfound" ∷ "etimedout" ∷ [])
    || any includes ("deadlock" ∷ "lock timeout" ∷ "lock wait timeout" ∷ [])
    || any includes ("timeout" ∷ "timed out" ∷ [])
    || (includes "horizon" && (includes "connection" || includes "network"))

-- How the loop ends: with a value, with the last error, or, where no attempt is allowed, with the
-- error that was never set.
pub data Ended {ℓ} (A E : Type ℓ) : Type ℓ where
  returned : A → Ended A E
  threw : E → Ended A E
  threw_undefined : Ended A E

-- An attempt returns a value or throws an error.
pub data Attempt {ℓ} (A E : Type ℓ) : Type ℓ where
  value : A → Attempt A E
  error : E → Attempt A E

-- The state that is left, how the loop ended, the attempts made, and the waits between them.
pub record Retried {ℓ} (S A E : Type ℓ) : Type ℓ where
  pub state : S
  pub ended : Ended A E
  pub attempts_made : ℕ
  pub waits : List ℕ

unfoldable pub next_backoff : RetryConfig → ℕ → ℕ
next_backoff config backoff_ms = min (backoff_ms * config.backoff_multiplier) config.max_backoff_ms

module _ {ℓ} {S A E : Type ℓ} where
  unfoldable pub after_wait : ℕ → Retried S A E → Retried S A E
  after_wait backoff_ms r = record r {
    attempts_made = suc r.attempts_made;
    waits = backoff_ms ∷ r.waits;
  }

  unfoldable pub stop_with : S → Ended A E → Retried S A E
  stop_with s how = record { state = s; ended = how; attempts_made = 1; waits = [] }

module _ {ℓ} {S A E : Type ℓ} (operation : ℕ → S → S × Attempt A E) (retryable : E → Bool)
    (config : RetryConfig) where
  -- `remaining` attempts are left, the next of them being number `attempt`; the last has one left.
  unfoldable pub retry_loop : (remaining attempt backoff_ms : ℕ) → S → Retried S A E
  retry_loop zero attempt backoff_ms s = record {
    state = s;
    ended = threw_undefined;
    attempts_made = 0;
    waits = [];
  }
  retry_loop (suc remaining) attempt backoff_ms s =
      let r = operation attempt s in
      elim r.1 [
        | value a ↦ stop_with r.0 (returned a)
        | error e ↦
            if not (retryable e) || remaining == 0
            then stop_with r.0 (threw e)
            else after_wait backoff_ms
                (retry_loop remaining (suc attempt) (next_backoff config backoff_ms) r.0)
      ]

  unfoldable pub retry_with_backoff : S → Retried S A E
  retry_with_backoff s = retry_loop config.max_attempts 1 config.initial_backoff_ms s
