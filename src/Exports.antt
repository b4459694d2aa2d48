-- ===== src/Exports.antt =====
-- The types of src/services/exportQueue.ts. A text of a time or an identifier that the code makes up
-- is an argument of the function that makes it up.
pub mod Data
pub mod Repository
pub mod DeadLetters
pub mod Jobs
pub mod Runs
pub mod Table
pub mod Ownership
pub mod Requests
pub mod Outcomes
use disciplr_backend.Prelude.{ℕ, String, Bool, true, false, Option, none, some, List, Dict}

pub data ExportFormat : Type 0 where
  csv json ndjson : ExportFormat

pub data ExportScope : Type 0 where
  vaults_scope transactions_scope analytics_scope all_scope : ExportScope

pub data JobStatus : Type 0 where
  pending running done failed : JobStatus

pub data FailureReason : Type 0 where
  serialization_error data_fetch_error unknown_error : FailureReason

-- keyof ExportData
pub data Section : Type 0 where
  vaults_section transactions_section analytics_section : Section

-- Record<keyof ExportData, string[]>
pub record Columns : Type 0 where
  pub vaults_columns : List String
  pub transactions_columns : List String
  pub analytics_columns : List String

pub record ExportJob : Type 0 where
  pub id : String
  pub user_id : String
  pub org_id : Option String
  pub is_admin : Bool
  pub target_user_id : Option String
  pub scope : ExportScope
  pub format : ExportFormat
  pub columns : Option Columns
  pub status : JobStatus
  pub created_at : String
  pub completed_at : Option String
  pub error : Option String
  pub result : Option String
  pub filename : Option String
  pub s3_key : Option String
  pub attempts : ℕ
  pub max_attempts : ℕ
  pub idempotency_key : Option String
  pub request_hash : String

pub record DlqEntry : Type 0 where
  pub job_id : String
  pub job_type : String
  pub failure_reason : FailureReason
  pub error_message : String
  pub attempt_count : ℕ
  pub failed_at : String
  pub sanitised_context : Dict String

pub data DlqEvent : Type 0 where
  entry_added entry_requeued entry_discarded dlq_cleared : DlqEvent

pub record DlqMetricsEvent : Type 0 where
  pub event : DlqEvent
  pub job_id : String
  pub failure_reason : Option FailureReason
  pub dlq_depth : ℕ
  pub timestamp : String

abbrev pub format_text : ExportFormat → String
format_text csv = "csv"
format_text json = "json"
format_text ndjson = "ndjson"

abbrev pub scope_text : ExportScope → String
scope_text vaults_scope = "vaults"
scope_text transactions_scope = "transactions"
scope_text analytics_scope = "analytics"
scope_text all_scope = "all"

abbrev pub is_done : JobStatus → Bool
is_done done = true
is_done pending = false
is_done running = false
is_done failed = false

-- RETRYABLE_EXPORT_JOB_STATUSES.includes(status)
abbrev pub is_retryable_status : JobStatus → Bool
is_retryable_status pending = true
is_retryable_status running = true
is_retryable_status done = false
is_retryable_status failed = false
