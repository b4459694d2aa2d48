-- ===== src/Exports/Jobs.antt =====
-- Enqueuing and processing export jobs, in src/services/exportQueue.ts.
use disciplr_backend.Prelude.{
  ℕ, suc, ◌-◌, max, String, Bool, not, Option, none, some, List, [], ◌∷◌, ◌++◌, ltb, if◌then◌else◌,
  filter, length, join, is_empty, same, or_default, Dict,
}
use disciplr_backend.Exports.{
  ExportJob, ExportScope, ExportFormat, csv, json, ndjson, Columns, FailureReason, data_fetch_error,
  serialization_error, unknown_error, pending, running, done, failed, is_done, DlqEntry,
  entry_added, format_text, scope_text,
}
use disciplr_backend.Exports.Repository.{
  Repository, NewJob, create, get, update, find_by_idempotency_key, list_recoverable,
}
use disciplr_backend.Exports.DeadLetters.{Dlq, dlq_insert, invoke_metrics_hook}
use disciplr_backend.Exports.Data.{ExportData, Row, Platform, build_export_data_from_vault_store}
use disciplr_backend.Exports.Data.Serializing.{
  Outcome, returned, threw, Writers, Serialized, serialize_export_data,
}

-- jobSystem.enqueue('export.generate', { exportJobId }, { maxAttempts })
pub record Submission : Type 0 where
  pub export_job_id : String
  pub submitted_attempts : ℕ

pub record State : Type 0 where
  pub repository : Repository
  pub dlq : Dlq
  pub submissions : List Submission

pub record EnqueueInput : Type 0 where
  pub user_id : String
  pub org_id : Option String
  pub is_admin : Bool
  pub target_user_id : Option String
  pub scope : ExportScope
  pub format : ExportFormat
  pub columns : Option Columns
  pub idempotency_key : Option String
  pub max_attempts : Option ℕ

abbrev pub default_max_attempts : ℕ
default_max_attempts = 3

-- What enqueueExportJob gives: a job, or the exception of an idempotency conflict.
pub data Enqueued : Type 0 where
  accepted : ExportJob → Enqueued
  idempotency_conflict : Enqueued

-- sha256 of the JSON text of the target user, the scope, the format and the columns
abbrev pub Hash : Type 0
Hash = Option String → ExportScope → ExportFormat → Option Columns → String

unfoldable pub hash_export_request : Hash → EnqueueInput → String
hash_export_request hash input = hash input.target_user_id input.scope input.format input.columns

unfoldable pub attempts_allowed : EnqueueInput → ℕ
attempts_allowed input = max 1 (or_default input.max_attempts default_max_attempts)

-- The columns of the input are not passed on.
unfoldable pub new_job : Hash → EnqueueInput → NewJob
new_job hash input = record {
  user_id = input.user_id;
  org_id = input.org_id;
  is_admin = input.is_admin;
  target_user_id = input.target_user_id;
  scope = input.scope;
  format = input.format;
  columns = none;
  max_attempts = attempts_allowed input;
  idempotency_key = input.idempotency_key;
  request_hash = hash_export_request hash input;
}

unfoldable pub find_existing : EnqueueInput → Repository → Option ExportJob
find_existing input r = elim input.idempotency_key [
  | none ↦ none
  | some key ↦ if is_empty key then none else find_by_idempotency_key input.user_id key r
]

unfoldable pub create_and_submit : Hash → EnqueueInput → String → String → State → State × Enqueued
create_and_submit hash input id now s =
    let created = create (new_job hash input) id now s.repository in
    (
      record s {
        repository = created.0;
        submissions =
            s.submissions
            ++ record { export_job_id = created.1.id; submitted_attempts = attempts_allowed input }
              ∷ [];
      },
      accepted created.1,
    )

-- `id` and `now` are the identifier and the creation time of a new job.
unfoldable pub enqueue_export_job : Hash → EnqueueInput → String → String → State → State × Enqueued
enqueue_export_job hash input id now s = elim (find_existing input s.repository) [
  | none ↦ create_and_submit hash input id now s
  | some existing ↦ (
    s,
    if not (same existing.request_hash (hash_export_request hash input))
        then idempotency_conflict
        else accepted existing,
  )
]

-- An end of the try block: the file, or the stage that threw and what.
pub data Work : Type 0 where
  produced : (buffer : Option String) (filename : String) (s3_key : Option String) → Work
  broke : FailureReason → String → Work

-- What a run of a job meets outside the module: the database, the writers, the bucket (none where it
-- is not configured; the key, the content type and the text of an upload otherwise), the privacy
-- filters, and the time as a text and as a stamp.
pub record World : Type 0 where
  pub platform : Platform
  pub database : ExportScope → Option String → Outcome ExportData
  pub writers : Writers
  pub bucket : Option (String → String → Option String → Option ExportData → Outcome (Unit {0}))
  pub sanitize_string : String → List String → String
  pub sanitize_context : Dict String → List String → Dict String
  pub mask_pii : String → String
  pub now : String
  pub stamp : String

abbrev pub content_type : ExportFormat → String
content_type csv = "text/csv; charset=utf-8"
content_type json = "application/json; charset=utf-8"
content_type ndjson = "application/x-ndjson"

-- job.isAdmin ? job.targetUserId : job.userId
unfoldable pub scoped_user_id : ExportJob → Option String
scoped_user_id job = if job.is_admin then job.target_user_id else some job.user_id

unfoldable pub fetch_data : World → Option (List Row) → ExportJob → Outcome ExportData
fetch_data w (some store) job =
    returned
      (build_export_data_from_vault_store w.platform job.scope (scoped_user_id job) store w.now)
fetch_data w none job = w.database job.scope (scoped_user_id job)

abbrev pub object_key : ExportJob → String → String
object_key job filename = join "exports/" (join job.id (join "/" filename))

unfoldable pub upload : World → ExportJob → Serialized → Work
upload w job file = elim w.bucket [
  | none ↦ produced file.buffer file.filename none
  | some put_object ↦
      let key = object_key job file.filename in
      elim (put_object key (content_type job.format) file.buffer file.readable) [
        | returned x ↦ produced file.buffer file.filename (some key)
        | threw message ↦ broke unknown_error message
      ]
]

-- The try block.
unfoldable pub work : World → Option (List Row) → ExportJob → Work
work w store job = elim (fetch_data w store job) [
  | threw message ↦ broke data_fetch_error message
  | returned rows ↦ elim (serialize_export_data w.writers rows job.format job.columns w.stamp) [
    | threw message ↦ broke serialization_error message
    | returned file ↦ upload w job file
  ]
]

-- exportPiiValues
unfoldable pub export_pii_values : ExportJob → List String
export_pii_values job = filter (λ s. not (is_empty s)) (job.user_id ∷ or_none job.target_user_id)
  where
    or_none : Option String → List String
    or_none none = []
    or_none (some s) = s ∷ []

abbrev pub target_token : (String → String) → Option String → Dict String
target_token mask none = []
target_token mask (some s) = if is_empty s then [] else ("targetUserToken", mask s) ∷ []

unfoldable pub export_user_tokens : World → ExportJob → Dict String
export_user_tokens w job =
    ("requesterUserToken", w.mask_pii job.user_id) ∷ target_token w.mask_pii job.target_user_id

unfoldable pub sanitise_dlq_context : World → ExportJob → Dict String
sanitise_dlq_context w job =
    w.sanitize_context
      (export_user_tokens w job
        ++ ("scope", scope_text job.scope)
          ∷ ("format", format_text job.format)
          ∷ ("isAdmin", if job.is_admin then "true" else "false")
          ∷ ("requestHash", job.request_hash)
          ∷ [])
      (export_pii_values job)

unfoldable pub running_job : ℕ → ExportJob → ExportJob
running_job attempt job = record job {
  status = running;
  attempts = attempt;
  error = none;
  completed_at = none;
}

unfoldable pub done_job : World → ℕ → Option String → String → Option String → ExportJob → ExportJob
done_job w attempt buffer filename s3_key job = record job {
  status = done;
  attempts = attempt;
  completed_at = some w.now;
  error = none;
  result = elim job.format [ ndjson ↦ none | csv ↦ buffer | json ↦ buffer ];
  filename = some filename;
  s3_key = s3_key;
}

unfoldable pub failed_job : World → ℕ → String → ExportJob → ExportJob
failed_job w attempt message job =
    let retryable = ltb attempt job.max_attempts in
    record job {
      status = if retryable then pending else failed;
      attempts = attempt;
      completed_at = if retryable then none else some w.now;
      error = some message;
      result = none;
      filename = none;
    }

unfoldable pub dead_letter : World → ℕ → FailureReason → String → ExportJob → DlqEntry
dead_letter w attempt reason message job = record {
  job_id = job.id;
  job_type = join (scope_text job.scope) (join ":" (format_text job.format));
  failure_reason = reason;
  error_message = message;
  attempt_count = attempt;
  failed_at = w.now;
  sanitised_context = sanitise_dlq_context w job;
}

unfoldable pub bury : World → ℕ → FailureReason → String → ExportJob → Dlq → Dlq
bury w attempt reason message job q =
    if ltb attempt job.max_attempts
    then q
    else invoke_metrics_hook entry_added job.id (some reason) w.now
        (dlq_insert (dead_letter w attempt reason message job) q)

-- What follows the try block, with the message of the exception that processJob throws.
unfoldable pub finish : World → ℕ → ExportJob → Work → State → State × Option String
finish w attempt job (produced buffer filename s3_key) s = (
  record s { repository = update (done_job w attempt buffer filename s3_key job) s.repository },
  none,
)
finish w attempt job (broke reason thrown) s =
    let message = w.sanitize_string thrown (export_pii_values job) in
    (
      record s {
        repository = update (failed_job w attempt message job) s.repository;
        dlq = bury w attempt reason message job s.dlq;
      },
      some message,
    )

unfoldable pub run_job : World → Option (List Row) → ℕ → ExportJob → State → State × Option String
run_job w store attempt job s =
    finish w attempt job (work w store job)
      (record s { repository = update (running_job attempt job) s.repository })

unfoldable pub process_job :
    World → String → Option (List Row) → Option ℕ → State → State × Option String
process_job w job_id store attempt s = elim (get job_id s.repository) [
  | none ↦ (s, none)
  | some job ↦
      if is_done job.status
      then (s, none)
      else run_job w store (or_default attempt (suc job.attempts)) job s
]

abbrev pub resubmit : List ExportJob → List Submission
resubmit [] = []
resubmit (job ∷ jobs) =
    record { export_job_id = job.id; submitted_attempts = max 1 (job.max_attempts - job.attempts) }
    ∷ resubmit jobs

-- Math.max(1, maxAttempts - attempts): the recoverable jobs have attempts to spare.
unfoldable pub recover_pending_export_jobs : State → State × ℕ
recover_pending_export_jobs s =
    let recoverable = list_recoverable s.repository in
    (record s { submissions = s.submissions ++ resubmit recoverable }, length recoverable)
