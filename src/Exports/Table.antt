-- ===== src/Exports/Table.antt =====
-- The repository of src/services/exportQueue.ts on the table export_jobs: its rows, and the queries on
-- them. JSON and the order of the times are arguments.
use disciplr_backend.Prelude.{
  ℕ, String, Bool, true, false, ◌&&◌, Option, none, some, List, [], ◌∷◌, ◌++◌, ◌≡◌, ap, ◌∙◌, arith,
  ltb, if◌then◌else◌, filter, find, map, same, is_empty, same_refl,
}
use disciplr_backend.Exports.{
  ExportJob, ExportScope, ExportFormat, JobStatus, Columns, is_retryable_status,
}
use disciplr_backend.Exports.Repository.{NewJob, created_job}

pub record ExportJobRecord : Type 0 where
  pub id : String
  pub requester_user_id : String
  pub org_id : Option String
  pub requester_is_admin : Bool
  pub target_user_id : Option String
  pub scope : ExportScope
  pub format : ExportFormat
  pub columns_text : Option String
  pub status : JobStatus
  pub created_at : String
  pub completed_at : Option String
  pub error : Option String
  pub result_data : Option String
  pub filename : Option String
  pub s3_key : Option String
  pub attempts : ℕ
  pub max_attempts : ℕ
  pub idempotency_key : Option String
  pub request_hash : String

-- JSON.stringify and JSON.parse of the columns, and the order of the column created_at.
pub record Codec : Type 0 where
  pub stringify : Columns → String
  pub parse : String → Columns
  pub time_leb : String → String → Bool

module _ (codec : Codec) where
  abbrev pub columns_out : Option Columns → Option String
  columns_out none = none
  columns_out (some c) = some (codec.stringify c)

  -- An empty text is no columns.
  abbrev pub columns_in : Option String → Option Columns
  columns_in none = none
  columns_in (some s) = if is_empty s then none else some (codec.parse s)

  unfoldable pub to_record : ExportJob → ExportJobRecord
  to_record job = record {
    id = job.id;
    requester_user_id = job.user_id;
    org_id = job.org_id;
    requester_is_admin = job.is_admin;
    target_user_id = job.target_user_id;
    scope = job.scope;
    format = job.format;
    columns_text = columns_out job.columns;
    status = job.status;
    created_at = job.created_at;
    completed_at = job.completed_at;
    error = job.error;
    result_data = job.result;
    filename = job.filename;
    s3_key = job.s3_key;
    attempts = job.attempts;
    max_attempts = job.max_attempts;
    idempotency_key = job.idempotency_key;
    request_hash = job.request_hash;
  }

  unfoldable pub to_export_job : ExportJobRecord → ExportJob
  to_export_job r = record {
    id = r.id;
    user_id = r.requester_user_id;
    org_id = r.org_id;
    is_admin = r.requester_is_admin;
    target_user_id = r.target_user_id;
    scope = r.scope;
    format = r.format;
    columns = columns_in r.columns_text;
    status = r.status;
    created_at = r.created_at;
    completed_at = r.completed_at;
    error = r.error;
    result = r.result_data;
    filename = r.filename;
    s3_key = r.s3_key;
    attempts = r.attempts;
    max_attempts = r.max_attempts;
    idempotency_key = r.idempotency_key;
    request_hash = r.request_hash;
  }

  unfoldable pub insert_job :
      NewJob → String → String → List ExportJobRecord → List ExportJobRecord × ExportJob
  insert_job new id now rows =
      let row = to_record (created_job new id now) in (rows ++ row ∷ [], to_export_job row)

  abbrev pub as_job : Option ExportJobRecord → Option ExportJob
  as_job none = none
  as_job (some r) = some (to_export_job r)

  unfoldable pub has_id : String → ExportJobRecord → Bool
  has_id id r = same r.id id

  unfoldable pub select_job : String → List ExportJobRecord → Option ExportJob
  select_job id rows = as_job (find (has_id id) rows)

  abbrev pub write_row : String → ExportJobRecord → List ExportJobRecord → List ExportJobRecord
  write_row id new [] = []
  write_row id new (r ∷ rows) =
      let rest = write_row id new rows in if has_id id r then new ∷ rest else r ∷ rest

  -- The rows after an update, and the job read back: none, which is a TypeError, if there is no row.
  unfoldable pub update_job :
      ExportJob → List ExportJobRecord → List ExportJobRecord × Option ExportJob
  update_job job rows =
      let written = write_row job.id (to_record job) rows in (written, select_job job.id written)

  abbrev pub has_text : Option String → String → Bool
  has_text none s = false
  has_text (some t) s = same t s

  unfoldable pub select_by_idempotency_key :
      String → String → List ExportJobRecord → Option ExportJob
  select_by_idempotency_key user_id key rows =
      as_job (find (λ r. same r.requester_user_id user_id && has_text r.idempotency_key key) rows)

  unfoldable pub insert_by_time : ExportJobRecord → List ExportJobRecord → List ExportJobRecord
  insert_by_time r [] = r ∷ []
  insert_by_time r (x ∷ xs) =
      let rest = insert_by_time r xs in
      if codec.time_leb r.created_at x.created_at then r ∷ x ∷ xs else x ∷ rest

  unfoldable pub order_by_time : List ExportJobRecord → List ExportJobRecord
  order_by_time [] = []
  order_by_time (r ∷ rows) = insert_by_time r (order_by_time rows)

  unfoldable pub select_recoverable : List ExportJobRecord → List ExportJob
  select_recoverable rows = map to_export_job (
      order_by_time
        (filter (λ r. is_retryable_status r.status && ltb r.attempts r.max_attempts) rows))

  to_export_job-to_record :
      (job : ExportJob)
      → columns_in (columns_out job.columns) ≡ job.columns
      → to_export_job (to_record job) ≡ job
  unfolding to_export_job to_record
  to_export_job-to_record job reads_back =
      ap (λ columns. record job { columns = columns }) reads_back

  find-write_row :
      (id : String) (new : ExportJobRecord) (rows : List ExportJobRecord) {old : ExportJobRecord}
      → same new.id id ≡ true
      → find (has_id id) rows ≡ some old
      → find (has_id id) (write_row id new rows) ≡ some new
  unfolding has_id
  find-write_row id new [] h found = cc found
  find-write_row id new (r ∷ rows) {old} h found =
      ground (arith, h, find-write_row id new rows {old = old} h)

  -- Where the columns of a job are read back from their JSON text, an update of the job, which has a
  -- row, reads back that very job, and so does a later query for it.
  update_job-select_job :
      (job : ExportJob) (rows : List ExportJobRecord) (old : ExportJobRecord)
      → columns_in (columns_out job.columns) ≡ job.columns
      → find (has_id job.id) rows ≡ some old
      → ((update_job job rows).1 ≡ some job)
        × (select_job job.id (update_job job rows).0 ≡ some job)
  unfolding update_job select_job to_record
  update_job-select_job job rows old reads_back found =
      let read =
        ap as_job (find-write_row job.id (to_record job) rows {old = old} (same_refl job.id) found)
        ∙ ap some (to_export_job-to_record job reads_back) in
      (read, read)
