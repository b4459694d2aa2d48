-- ===== src/Events.antt =====
-- src/services/eventProcessor.ts, with the tables that it writes and the part of
-- src/services/idempotency.ts that it calls. An event carries the payload of its own type, as the
-- parser makes it; the texts of dates are their values.
pub mod Once
pub mod Outbox
pub mod Later
pub mod Relay
use disciplr_backend.Prelude.{
  ℕ, suc, String, Bool, true, false, not, ◌||◌, Option, none, some, List, [], ◌∷◌, ◌++◌,
  if◌then◌else◌, any, filter, same, join, is_some, or_default, is_empty, Dict, lookup, put, without,
}
use disciplr_backend.Retry.{
  RetryConfig, Attempt, value, error, Ended, returned, threw, threw_undefined, Retried,
  retry_with_backoff, Includes,
}
use disciplr_backend.Retry

-- vault_created, vault_completed, vault_failed and vault_cancelled
pub data VaultEventType : Type 0 where
  vault_created vault_completed vault_failed vault_cancelled : VaultEventType

pub record VaultEventPayload : Type 0 where
  pub vault_id : String
  pub creator : Option String
  pub amount : Option String
  pub start_timestamp : Option ℕ
  pub end_timestamp : Option ℕ
  pub success_destination : Option String
  pub failure_destination : Option String

pub record MilestoneEventPayload : Type 0 where
  pub milestone_id : String
  pub vault_id : String
  pub title : String
  pub description : String
  pub target_amount : String
  pub deadline : ℕ

pub data ValidationResult : Type 0 where
  approved rejected pending_review : ValidationResult

pub record ValidationEventPayload : Type 0 where
  pub validation_id : String
  pub milestone_id : String
  pub validator_address : String
  pub validation_result : ValidationResult
  pub evidence_hash : String
  pub validated_at : ℕ

pub data Body : Type 0 where
  vault_event : VaultEventType → VaultEventPayload → Body
  milestone_created : MilestoneEventPayload → Body
  milestone_validated : ValidationEventPayload → Body
  settlement_summary : Body

pub record ParsedEvent : Type 0 where
  pub event_id : String
  pub transaction_hash : String
  pub event_index : ℕ
  pub ledger_number : ℕ
  pub body : Body

pub data VaultStatus : Type 0 where
  active completed failed cancelled : VaultStatus

pub record VaultRow : Type 0 where
  pub vault : VaultEventPayload
  pub status : VaultStatus
  pub organization_id : Option String
  pub created_at : ℕ
  pub updated_at : Option ℕ

pub data MilestoneStatus : Type 0 where
  milestone_pending milestone_completed milestone_failed : MilestoneStatus

pub record MilestoneRow : Type 0 where
  pub milestone : MilestoneEventPayload
  pub current_amount : String
  pub status : MilestoneStatus
  pub created_at : ℕ
  pub updated_at : ℕ

pub record ValidationRow : Type 0 where
  pub validation : ValidationEventPayload
  pub created_at : ℕ

pub record ProcessedRow : Type 0 where
  pub event_id : String
  pub transaction_hash : String
  pub event_index : ℕ
  pub ledger_number : ℕ
  pub processed_at : ℕ

-- A row of vault_outbox; its payload is the event with the organization.
pub record OutboxRow : Type 0 where
  pub event_id : String
  pub event : ParsedEvent
  pub organization_id : String
  pub processed : Bool
  pub attempts : ℕ
  pub last_error : Option String
  pub created_at : ℕ

pub record FailedRow : Type 0 where
  pub event_payload : ParsedEvent
  pub error_message : String
  pub retry_count : ℕ
  pub failed_at : ℕ
  pub created_at : ℕ

-- What an audit entry tells of an event that failed: the message and whether it is retried.
pub record AuditFailure : Type 0 where
  pub error_message : String
  pub retryable : Bool

-- The argument of a call of createAuditLog by the processor; `failure` is there for the action
-- event_processing_failed and not for event_processed.
pub record AuditInput : Type 0 where
  pub actor_user_id : String
  pub action : String
  pub target_type : String
  pub target_id : String
  pub event_type : String
  pub transaction_hash : String
  pub ledger_number : ℕ
  pub processing_duration_ms : ℕ
  pub failure : Option AuditFailure

-- The tables, by their primary keys. The audit log holds the entries in the order in which they are
-- handed to createAuditLog, which is taken to write them.
pub record Tables : Type 0 where
  pub vaults : Dict VaultRow
  pub milestones : Dict MilestoneRow
  pub validations : Dict ValidationRow
  pub processed_events : List ProcessedRow
  pub vault_outbox : List OutboxRow
  pub failed_events : Dict FailedRow
  pub audit_log : List AuditInput

-- A missing dependency, or any other error with its message.
pub data EventError : Type 0 where
  dependency_not_found other_error : String → EventError

-- What a statement in a transaction gives.
pub data Outcome : Type 0 where
  done : Tables → Outcome
  throws : EventError → Outcome

-- .onConflict('id').ignore()
abbrev pub insert_or_ignore {ℓ} : {V : Type ℓ} → String → V → Dict V → Dict V
insert_or_ignore key row m = elim (lookup key m) [ none ↦ put key row m | some old ↦ m ]

unfoldable pub update_vault_status : VaultStatus → ℕ → VaultEventPayload → Tables → Outcome
update_vault_status status now p t = elim (lookup p.vault_id t.vaults) [
  | none ↦ throws (dependency_not_found (join "Vault not found for update: " p.vault_id))
  | some row ↦ done (record t {
    vaults = put p.vault_id (record row { status = status; updated_at = some now }) t.vaults;
  })
]

unfoldable pub create_vault : ℕ → VaultEventPayload → Tables → Outcome
create_vault now p t = done (record t {
  vaults =
      insert_or_ignore p.vault_id
        (record {
          vault = p;
          status = active;
          organization_id = none;
          created_at = now;
          updated_at = none;
        })
        t.vaults;
})

unfoldable pub handle_vault_event : ℕ → VaultEventType → VaultEventPayload → Tables → Outcome
handle_vault_event now vault_created p t = create_vault now p t
handle_vault_event now vault_completed p t = update_vault_status completed now p t
handle_vault_event now vault_failed p t = update_vault_status failed now p t
handle_vault_event now vault_cancelled p t = update_vault_status cancelled now p t

unfoldable pub handle_milestone_event : ℕ → MilestoneEventPayload → Tables → Outcome
handle_milestone_event now p t = elim (lookup p.vault_id t.vaults) [
  | none ↦ throws (dependency_not_found (join "Vault not found for milestone: " p.vault_id))
  | some vault ↦ done (record t {
    milestones =
        insert_or_ignore p.milestone_id
          (record {
            milestone = p;
            current_amount = "0";
            status = milestone_pending;
            created_at = now;
            updated_at = now;
          })
          t.milestones;
  })
]

-- What a decision changes in the milestone; a pending review changes nothing.
unfoldable pub decide :
    ValidationResult → ℕ → String → MilestoneRow → Dict MilestoneRow → Dict MilestoneRow
decide approved now id row m =
    put id
      (record row {
        status = milestone_completed;
        current_amount = row.milestone.target_amount;
        updated_at = now;
      })
      m
decide rejected now id row m = put id (record row { status = milestone_failed; updated_at = now }) m
decide pending_review now id row m = m

unfoldable pub handle_validation_event : ℕ → ValidationEventPayload → Tables → Outcome
handle_validation_event now p t = elim (lookup p.milestone_id t.milestones) [
  | none ↦
      throws (dependency_not_found (join "Milestone not found for validation: " p.milestone_id))
  | some row ↦ done (record t {
    validations =
        insert_or_ignore p.validation_id (record { validation = p; created_at = now })
          t.validations;
    milestones = decide p.validation_result now p.milestone_id row t.milestones;
  })
]

unfoldable pub route_event : ℕ → Body → Tables → Outcome
route_event now (vault_event kind p) t = handle_vault_event now kind p t
route_event now (milestone_created p) t = handle_milestone_event now p t
route_event now (milestone_validated p) t = handle_validation_event now p t
route_event now settlement_summary t = throws (other_error "Unknown event type: settlement_summary")

unfoldable pub is_row_of : String → ProcessedRow → Bool
is_row_of id r = same r.event_id id

unfoldable pub is_event_processed : String → Tables → Bool
is_event_processed id t = any (is_row_of id) t.processed_events

unfoldable pub mark_event_processed : ℕ → ParsedEvent → Tables → Tables
mark_event_processed now e t = record t {
  processed_events =
      record {
        event_id = e.event_id;
        transaction_hash = e.transaction_hash;
        event_index = e.event_index;
        ledger_number = e.ledger_number;
        processed_at = now;
      }
      ∷ t.processed_events;
}

unfoldable pub resolve_organization_id : VaultEventPayload → Tables → String
resolve_organization_id p t =
    if is_empty p.vault_id then "" else elim (lookup p.vault_id t.vaults) [
      | none ↦ ""
      | some row ↦ or_default row.organization_id ""
    ]

unfoldable pub outbox_row : ℕ → ParsedEvent → VaultEventPayload → Tables → OutboxRow
outbox_row now e p t = record {
  event_id = e.event_id;
  event = e;
  organization_id = resolve_organization_id p t;
  processed = false;
  attempts = 0;
  last_error = none;
  created_at = now;
}

-- The row for the outbox, if the event is one of VAULT_LIFECYCLE_EVENTS.
unfoldable pub add_to_outbox : ℕ → ParsedEvent → Body → Tables → Tables
add_to_outbox now e (vault_event kind p) t = record t {
  vault_outbox = t.vault_outbox ++ outbox_row now e p t ∷ [];
}
add_to_outbox now e (milestone_created p) t = t
add_to_outbox now e (milestone_validated p) t = t
add_to_outbox now e settlement_summary t = t

-- What the transaction commits, or the error that rolls it back.
unfoldable pub commit_routed :
    ℕ → ParsedEvent → Tables → Outcome → Tables × Attempt (Unit {0}) EventError
commit_routed now e t (done routed) =
    (add_to_outbox now e e.body (mark_event_processed now e routed), value tt)
commit_routed now e t (throws error_thrown) = (t, error error_thrown)

-- `fault` is an error of the database somewhere in the transaction, which is rolled back.
unfoldable pub process_event_with_transaction :
    ℕ → Option String → ParsedEvent → Tables → Tables × Attempt (Unit {0}) EventError
process_event_with_transaction now (some message) e t = (t, error (other_error message))
process_event_with_transaction now none e t =
    if is_event_processed e.event_id t
    then (t, value tt)
    else commit_routed now e t (route_event now e.body t)

-- Whether a message in lower case includes a word.
abbrev pub Reading : Type 0
Reading = String → Includes

unfoldable pub is_retryable_event_error : Reading → EventError → Bool
is_retryable_event_error reading (dependency_not_found message) = true
is_retryable_event_error reading (other_error message) = Retry.is_retryable (reading message)

abbrev pub message_of : EventError → String
message_of (dependency_not_found message) = message
message_of (other_error message) = message

pub record ProcessorConfig : Type 0 where
  pub max_retries : ℕ
  pub retry_backoff_ms : ℕ

unfoldable pub retry_config : ProcessorConfig → RetryConfig
retry_config c = record {
  max_attempts = c.max_retries;
  initial_backoff_ms = c.retry_backoff_ms;
  max_backoff_ms = 60000;
  backoff_multiplier = 2;
}

pub record ProcessingResult : Type 0 where
  pub success : Bool
  pub event_id : String
  pub error_text : Option String
  pub retry_count : Option ℕ

-- An insert, or an update of all but the time of creation.
unfoldable pub failed_row : ℕ → ParsedEvent → String → ℕ → Option FailedRow → FailedRow
failed_row now e message retries none = record {
  event_payload = e;
  error_message = message;
  retry_count = retries;
  failed_at = now;
  created_at = now;
}
failed_row now e message retries (some old) = record {
  event_payload = e;
  error_message = message;
  retry_count = retries;
  failed_at = now;
  created_at = old.created_at;
}

unfoldable pub move_to_dead_letter_queue : ℕ → ParsedEvent → String → ℕ → Tables → Tables
move_to_dead_letter_queue now e message retries t = record t {
  failed_events =
      put e.event_id (failed_row now e message retries (lookup e.event_id t.failed_events))
        t.failed_events;
}

unfoldable pub failure : ParsedEvent → String → ℕ → ProcessingResult
failure e message retries = record {
  success = false;
  event_id = e.event_id;
  error_text = some message;
  retry_count = some retries;
}

-- event.eventType
unfoldable pub event_type : Body → String
event_type (vault_event vault_created p) = "vault_created"
event_type (vault_event vault_completed p) = "vault_completed"
event_type (vault_event vault_failed p) = "vault_failed"
event_type (vault_event vault_cancelled p) = "vault_cancelled"
event_type (milestone_created p) = "milestone_created"
event_type (milestone_validated p) = "milestone_validated"
event_type settlement_summary = "settlement_summary"

unfoldable pub audit_input : String → ℕ → ParsedEvent → Option AuditFailure → AuditInput
audit_input action spent e why = record {
  actor_user_id = "system";
  action = action;
  target_type = event_type e.body;
  target_id = e.event_id;
  event_type = event_type e.body;
  transaction_hash = e.transaction_hash;
  ledger_number = e.ledger_number;
  processing_duration_ms = spent;
  failure = why;
}

unfoldable pub create_audit_log : AuditInput → Tables → Tables
create_audit_log a t = record t { audit_log = t.audit_log ++ a ∷ [] }

unfoldable pub audit_processed : ℕ → ParsedEvent → Tables → Tables
audit_processed spent e t = create_audit_log (audit_input "event_processed" spent e none) t

unfoldable pub audit_failed : ℕ → ParsedEvent → String → Bool → Tables → Tables
audit_failed spent e message retryable t =
    create_audit_log
      (audit_input "event_processing_failed" spent e
        (some record { error_message = message; retryable = retryable }))
      t

-- What processEvent does once the retries are over, after `spent` milliseconds. With no attempt
-- allowed the error is undefined.
unfoldable pub report :
    Reading
    → ProcessorConfig
    → (now spent : ℕ) → ParsedEvent
    → Tables
    → Ended (Unit {0}) EventError
    → Tables × ProcessingResult
report reading c now spent e t (returned x) = (
  audit_processed spent e t,
  record { success = true; event_id = e.event_id; error_text = none; retry_count = none },
)
report reading c now spent e t (threw err) =
    let retryable = is_retryable_event_error reading err in
    let audited = audit_failed spent e (message_of err) retryable t in
    if retryable
    then (
      move_to_dead_letter_queue now e (message_of err) c.max_retries audited,
      failure e (message_of err) c.max_retries,
    )
    else (audited, failure e (message_of err) 0)
report reading c now spent e t threw_undefined =
    (audit_failed spent e "Unknown error" false t, failure e "Unknown error" 0)

-- `faults` tells which attempts meet an error of the database, `now` is the time of all of them
-- and `spent` the time that they take.
unfoldable pub process_event :
    Reading
    → ProcessorConfig
    → (now spent : ℕ) → (ℕ → Option String)
    → ParsedEvent
    → Tables
    → Tables × ProcessingResult
process_event reading c now spent faults e t =
    let r =
      retry_with_backoff (λ attempt s. process_event_with_transaction now (faults attempt) e s)
        (is_retryable_event_error reading) (retry_config c) t in
    report reading c now spent e r.state r.ended

-- Once an event of the dead-letter table was processed again.
unfoldable pub forget_if_processed : String → Tables × ProcessingResult → Tables × ProcessingResult
forget_if_processed id r =
    if r.1.success then (record r.0 { failed_events = without id r.0.failed_events }, r.1) else r

unfoldable pub reprocess_failed_event :
    Reading
    → ProcessorConfig
    → (now spent : ℕ) → (ℕ → Option String)
    → String
    → Tables
    → Tables × ProcessingResult
reprocess_failed_event reading c now spent faults id t = elim (lookup id t.failed_events) [
  | none ↦ (
    t,
    record {
      success = false;
      event_id = id;
      error_text = some "Failed event not found";
      retry_count = none;
    },
  )
  | some row ↦ forget_if_processed id (process_event reading c now spent faults row.event_payload t)
]
