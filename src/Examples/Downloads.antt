-- ===== src/Examples/Downloads.antt =====
-- An export of a user's vaults, through the model of src/services/exportQueue.ts.
use disciplr_backend.Prelude.{
  suc, String, true, false, not, ◌&&◌, none, some, List, [], ◌∷◌, ◌≡◌, ◌≢◌, ap, refl, arith, ltb,
  if◌then◌else◌, is_some, or_default, any, same, lookup, put,
}
use disciplr_backend.Exports.{ExportJob, vaults_scope, csv, ndjson, pending, failed, done, is_done}
use disciplr_backend.Exports.Repository.{get, is_recoverable}
use disciplr_backend.Exports.DeadLetters.{is_entry_of}
use disciplr_backend.Exports.Data.{Row, Value, text, number, field, equals_text}
use disciplr_backend.Exports.Data.Serializing.{returned, threw, starts_formula, cast_string}
use disciplr_backend.Exports.Jobs.{
  State, EnqueueInput, Hash, World, accepted, idempotency_conflict, enqueue_export_job,
  hash_export_request, process_job, fetch_data,
}
use disciplr_backend.Exports.Table.{Codec}
use disciplr_backend.Exports.Runs.{
  enqueues, processes, requeues, recovers, run, IsSound, run-IsSound,
}
use disciplr_backend.Exports.Ownership.{fetch_data_own}
use disciplr_backend.Exports.Requests.{enqueue_export_job_again}
use disciplr_backend.Exports.Outcomes.{
  process_job_settled, process_job-has_file, has_file, keeps_file,
}

abbrev plain_hash : Hash
plain_hash target scope format columns = "h"

-- No bucket, and a database that is down.
abbrev world : World
world = record {
  platform = record { locale_leb = λ a b. true; text_of = λ v. "v1"; number_of = λ v. 1 };
  database = λ scope user_id. threw "down";
  writers = record {
    json_stringify = λ rows. returned "{}";
    csv_stringify = λ cast keys rows. returned "id";
  };
  bucket = none;
  sanitize_string = λ s hidden. s;
  sanitize_context = λ context hidden. context;
  mask_pii = λ s. "token";
  now = "2026-01-02";
  stamp = "2026";
}

abbrev vault_of : String → Row
vault_of user_id = ("id", text "v1") ∷ ("creator", text user_id) ∷ ("amount", number 5) ∷ []

abbrev vaults : List Row
vaults = vault_of "ann" ∷ vault_of "bob" ∷ []

abbrev input : EnqueueInput
input = record {
  user_id = "ann";
  org_id = none;
  is_admin = false;
  target_user_id = none;
  scope = vaults_scope;
  format = csv;
  columns = none;
  idempotency_key = some "k";
  max_attempts = some 1;
}

abbrev job : ExportJob
job = record {
  id = "j1";
  user_id = "ann";
  org_id = none;
  is_admin = false;
  target_user_id = none;
  scope = vaults_scope;
  format = ndjson;
  columns = none;
  status = pending;
  created_at = "2026-01-01";
  completed_at = none;
  error = none;
  result = none;
  filename = none;
  s3_key = none;
  attempts = 0;
  max_attempts = 1;
  idempotency_key = none;
  request_hash = "h";
}

abbrev empty_state : State
empty_state = record {
  repository = record { jobs = []; idempotency_keys = [] };
  dlq = record { entries = []; max_size = 1; has_hook = true; events = [] };
  submissions = [];
}

abbrev with_job : State
with_job = record empty_state {
  repository = record { jobs = ("j1", job) ∷ []; idempotency_keys = [] };
}

empty_state-IsSound : IsSound empty_state
empty_state-IsSound = record { jobs = tt; some_room = omega arith; bounded = omega arith }

run-IsSound_example : IsSound (
    run
      (enqueues plain_hash input "j1" "2026-01-01"
        ∷ processes world "j1" none none
        ∷ requeues "j1" "2026-01-03"
        ∷ processes world "j1" (some vaults) none
        ∷ recovers
        ∷ [])
      empty_state)
run-IsSound_example =
    run-IsSound
      (enqueues plain_hash input "j1" "2026-01-01"
        ∷ processes world "j1" none none
        ∷ requeues "j1" "2026-01-03"
        ∷ processes world "j1" (some vaults) none
        ∷ recovers
        ∷ [])
      empty_state empty_state-IsSound

bob_no_creator : field "creator" (vault_of "bob") ≢ text "ann"
unfolding field lookup
bob_no_creator h = cc (ap (λ v. equals_text v "ann") h)

bob_no_user : field "user_id" (vault_of "bob") ≢ text "ann"
unfolding field lookup
bob_no_user h = cc (ap (λ v. equals_text v "ann") h)

fetch_data_own_example :
    fetch_data world (some vaults) job ≡ fetch_data world (some (vault_of "ann" ∷ [])) job
fetch_data_own_example =
    fetch_data_own world job (vault_of "ann" ∷ []) [] (vault_of "bob") refl refl bob_no_creator
      bob_no_user

enqueue_export_job_again_example :
    enqueue_export_job plain_hash input "j2" "2026-01-02"
      (enqueue_export_job plain_hash input "j1" "2026-01-01" empty_state).0
    ≡ (
      (enqueue_export_job plain_hash input "j1" "2026-01-01" empty_state).0,
      if not (same "h" (hash_export_request plain_hash input))
          then idempotency_conflict
          else accepted (record job { format = csv; idempotency_key = some "k" }),
    )
unfolding enqueue_export_job disciplr_backend.Exports.Jobs.find_existing
    disciplr_backend.Exports.Repository.find_by_idempotency_key lookup
    disciplr_backend.Exports.Jobs.create_and_submit disciplr_backend.Exports.Repository.create
    disciplr_backend.Exports.Repository.created_job disciplr_backend.Exports.Jobs.new_job
    disciplr_backend.Exports.Jobs.attempts_allowed hash_export_request
enqueue_export_job_again_example =
    enqueue_export_job_again plain_hash input input "k" refl refl refl refl "j1" "2026-01-01" "j2"
      "2026-01-02" empty_state (record job { format = csv; idempotency_key = some "k" }) refl refl

abbrev failed_last : ExportJob
failed_last = record job {
  status = failed;
  attempts = 1;
  completed_at = some "2026-01-02";
  error = some "down";
}

process_job_settled_example :
    (is_done failed_last.status ≡ not (is_some (process_job world "j1" none none with_job).1))
    × (is_recoverable failed_last ≡ (
        is_some (process_job world "j1" none none with_job).1 && ltb (or_default none (suc 0)) 1))
    × ((is_some (process_job world "j1" none none with_job).1
            && not (ltb (or_default none (suc 0)) 1))
          ≡ true
        → any (is_entry_of "j1") (process_job world "j1" none none with_job).0.dlq.entries ≡ true)
unfolding process_job get lookup disciplr_backend.Exports.Jobs.run_job
    disciplr_backend.Exports.Jobs.finish disciplr_backend.Exports.Jobs.work fetch_data
    disciplr_backend.Exports.Repository.update put disciplr_backend.Exports.Jobs.running_job
    disciplr_backend.Exports.Jobs.failed_job
process_job_settled_example =
    process_job_settled world none none job with_job refl refl failed_last refl

abbrev done_last : ExportJob
done_last = record job {
  status = done;
  attempts = 1;
  completed_at = some "2026-01-02";
  filename = some "export-2026.ndjson.gz";
}

process_job-has_file_example : has_file done_last ≡ keeps_file world job
unfolding process_job get lookup disciplr_backend.Exports.Jobs.run_job
    disciplr_backend.Exports.Jobs.finish disciplr_backend.Exports.Jobs.work fetch_data
    disciplr_backend.Exports.Data.Serializing.serialize_export_data
    disciplr_backend.Exports.Jobs.upload disciplr_backend.Exports.Repository.update put
    disciplr_backend.Exports.Jobs.running_job disciplr_backend.Exports.Jobs.done_job
process_job-has_file_example =
    process_job-has_file world (some vaults) none job with_job refl refl done_last refl refl

-- One set of columns, and its text.
abbrev codec : Codec
codec = record {
  stringify = λ c. "all";
  parse =
      λ s. record { vaults_columns = "id" ∷ []; transactions_columns = []; analytics_columns = [] };
  time_leb = λ a b. true;
}

abbrev with_columns : ExportJob
with_columns = record job {
  columns =
      some
        (record { vaults_columns = "id" ∷ []; transactions_columns = []; analytics_columns = [] });
}
