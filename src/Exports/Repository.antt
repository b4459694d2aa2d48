-- ===== src/Exports/Repository.antt =====
-- The in-memory repository of src/services/exportQueue.ts.
use disciplr_backend.Prelude.{
  ℕ, String, Bool, ◌&&◌, Option, none, some, List, [], ◌∷◌, ltb, if◌then◌else◌, filter, join,
  is_empty, Dict, lookup, put,
}
use disciplr_backend.Exports.{
  ExportJob, ExportScope, ExportFormat, Columns, pending, is_retryable_status,
}

pub record Repository : Type 0 where
  pub jobs : Dict ExportJob
  pub idempotency_keys : Dict String

-- The argument of create.
pub record NewJob : Type 0 where
  pub user_id : String
  pub org_id : Option String
  pub is_admin : Bool
  pub target_user_id : Option String
  pub scope : ExportScope
  pub format : ExportFormat
  pub columns : Option Columns
  pub max_attempts : ℕ
  pub idempotency_key : Option String
  pub request_hash : String

unfoldable pub created_job : NewJob → String → String → ExportJob
created_job new id now = record {
  id = id;
  user_id = new.user_id;
  org_id = new.org_id;
  is_admin = new.is_admin;
  target_user_id = new.target_user_id;
  scope = new.scope;
  format = new.format;
  columns = new.columns;
  status = pending;
  created_at = now;
  completed_at = none;
  error = none;
  result = none;
  filename = none;
  s3_key = none;
  attempts = 0;
  max_attempts = new.max_attempts;
  idempotency_key = new.idempotency_key;
  request_hash = new.request_hash;
}

-- `${userId}:${idempotencyKey}`
unfoldable pub idempotency_entry : String → String → String
idempotency_entry user_id key = join user_id (join ":" key)

abbrev pub register_key : Option String → String → String → Dict String → Dict String
register_key none user_id id keys = keys
register_key (some key) user_id id keys =
    if is_empty key then keys else put (idempotency_entry user_id key) id keys

-- `id` and `now` are the random identifier and the current time.
unfoldable pub create : NewJob → String → String → Repository → Repository × ExportJob
create new id now r = (
  record {
    jobs = put id (created_job new id now) r.jobs;
    idempotency_keys = register_key new.idempotency_key new.user_id id r.idempotency_keys;
  },
  created_job new id now,
)

unfoldable pub get : String → Repository → Option ExportJob
get id r = lookup id r.jobs

unfoldable pub update : ExportJob → Repository → Repository
update job r = record r { jobs = put job.id job r.jobs }

unfoldable pub find_by_idempotency_key : String → String → Repository → Option ExportJob
find_by_idempotency_key user_id key r =
    elim (lookup (idempotency_entry user_id key) r.idempotency_keys) [
      | none ↦ none
      | some id ↦ if is_empty id then none else get id r
    ]

unfoldable pub is_recoverable : ExportJob → Bool
is_recoverable job = is_retryable_status job.status && ltb job.attempts job.max_attempts

abbrev pub values : Dict ExportJob → List ExportJob
values [] = []
values (e ∷ m) = e.1 ∷ values m

unfoldable pub list_recoverable : Repository → List ExportJob
list_recoverable r = filter is_recoverable (values r.jobs)

unfoldable pub reset : Repository → Repository
reset r = record { jobs = []; idempotency_keys = [] }
