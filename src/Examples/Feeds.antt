-- ===== src/Examples/Feeds.antt =====
-- Events of the chain, through the models of src/services/eventProcessor.ts, src/utils/retry.ts and
-- src/services/outboxRelay.ts.
use disciplr_backend.Prelude.{
  ℕ, suc, String, Bool, true, false, Option, none, some, List, [], ◌∷◌, ◌≡◌, refl, arith, All, same,
  ltb, if◌then◌else◌,
}
use disciplr_backend.Retry.{
  RetryConfig, Attempt, value, error, returned, retry_with_backoff, default_retry_config,
}
use disciplr_backend.Retry.Attempts.{retry_with_backoff_succeeds}
use disciplr_backend.Events.{
  ParsedEvent, Body, vault_event, vault_created, vault_completed, VaultEventPayload, Tables,
  OutboxRow, ProcessorConfig, process_event_with_transaction, Reading, is_event_processed,
  commit_routed, route_event, handle_vault_event, create_vault,
}
use disciplr_backend.Events.Later.{process_event_with_transaction_once}
use disciplr_backend.Events.Outbox.{Call, processes, reprocesses, run, IsOnce, run-IsOnce}
use disciplr_backend.Events.Relay.{
  is_claimable, relay_outbox_batch, relay_rows, relay_row, relayed, IsAlive, relay_outbox_batch-All,
}

-- An operation that fails in its first two attempts.
abbrev flaky : ℕ → ℕ → ℕ × Attempt ℕ String
flaky n s = if ltb n 3 then (suc s, error "timeout") else (s, value 7)

abbrev always : String → Bool
always message = true

retry_with_backoff_succeeds_example :
    ((retry_with_backoff flaky always default_retry_config 0).ended ≡ returned 7)
    × ((retry_with_backoff flaky always default_retry_config 0).attempts_made ≡ 3)
retry_with_backoff_succeeds_example =
    retry_with_backoff_succeeds flaky always default_retry_config 2 0 7
      ("timeout", refl, refl, ("timeout", refl, refl, refl)) (omega arith)

abbrev payload : VaultEventPayload
payload = record {
  vault_id = "v1";
  creator = some "ann";
  amount = some "5";
  start_timestamp = none;
  end_timestamp = none;
  success_destination = none;
  failure_destination = none;
}

abbrev event : String → Body → ParsedEvent
event id body = record {
  event_id = id;
  transaction_hash = "tx";
  event_index = 0;
  ledger_number = 1;
  body = body;
}

abbrev creation : ParsedEvent
creation = event "e1" (vault_event vault_created payload)

abbrev completion : ParsedEvent
completion = event "e2" (vault_event vault_completed payload)

abbrev no_tables : Tables
no_tables = record {
  vaults = [];
  milestones = [];
  validations = [];
  processed_events = [];
  vault_outbox = [];
  failed_events = [];
  audit_log = [];
}

abbrev config : ProcessorConfig
config = record { max_retries = 2; retry_backoff_ms = 100 }

abbrev reading : Reading
reading message word = false

abbrev later_calls : List Call
later_calls = processes 3 7 (λ n. none) completion ∷ reprocesses 4 7 (λ n. none) "e1" ∷ []

process_event_with_transaction_once_example :
    (process_event_with_transaction 5 none creation (
      run reading config later_calls
        (process_event_with_transaction 1 none creation no_tables).0)).0
    ≡ run reading config later_calls (process_event_with_transaction 1 none creation no_tables).0
unfolding process_event_with_transaction is_event_processed commit_routed route_event
    handle_vault_event create_vault
process_event_with_transaction_once_example =
    process_event_with_transaction_once reading config 1 5 none none creation creation no_tables
      later_calls refl refl

no_tables-IsOnce : IsOnce "e2" no_tables
no_tables-IsOnce = record { one_record = omega arith; one_row = omega arith }

run-IsOnce_example : IsOnce "e2" (
    run reading config
      (processes 1 7 (λ n. none) completion
        ∷ processes 2 7 (λ n. none) creation
        ∷ reprocesses 3 7 (λ n. none) "e2"
        ∷ processes 4 7 (λ n. some "deadlock") completion
        ∷ [])
      no_tables)
run-IsOnce_example =
    run-IsOnce reading config "e2"
      (processes 1 7 (λ n. none) completion
        ∷ processes 2 7 (λ n. none) creation
        ∷ reprocesses 3 7 (λ n. none) "e2"
        ∷ processes 4 7 (λ n. some "deadlock") completion
        ∷ [])
      no_tables no_tables-IsOnce

abbrev row : String → ℕ → OutboxRow
row id attempts = record {
  event_id = id;
  event = creation;
  organization_id = "";
  processed = false;
  attempts = attempts;
  last_error = none;
  created_at = 1;
}

abbrev rows : List OutboxRow
rows = row "e1" 0 ∷ row "e2" 4 ∷ []

-- The insert of an ETL batch that is there already aborts the transaction.
abbrev duplicate : OutboxRow → Option String
duplicate r = if same r.event_id "e2" then some "duplicate key" else none

relay_outbox_batch-All_example :
    All IsAlive
      (relay_outbox_batch (λ r. same r.event_id "e9") (λ r. some "down") duplicate false 50 rows).0
unfolding is_claimable
relay_outbox_batch-All_example =
    relay_outbox_batch-All (λ r. same r.event_id "e9") (λ r. some "down") duplicate false 50 rows
      (
        record { done_or_claimable = refl; tried = omega arith },
        (record { done_or_claimable = refl; tried = omega arith }, tt),
      )

batch_rolled_back :
    relay_outbox_batch (λ r. false) (λ r. none) duplicate false 50 rows ≡ (rows, none)
unfolding relay_outbox_batch relay_rows relay_row is_claimable relayed
batch_rolled_back = refl
