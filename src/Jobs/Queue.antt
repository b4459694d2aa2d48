-- ===== src/Jobs/Queue.antt =====
-- The class `InMemoryJobQueue` of src/jobs/queue.ts. A job is an object that the lists share: a
-- reference is a number, and `heap` says what the object holds. `active` is the `Map` from ids, in
-- insertion order, and a flight is a call of `runJob` that waits for its handler. The time and a
-- fresh id are arguments; one burst of synchronous code reads one time. `draining` is left out: it
-- is false whenever a call of `drain` begins, since its loop never waits.
pub mod Drain
use disciplr_backend.Prelude.{
  ℕ, zero, suc, ◌+◌, ◌-◌, ◌*◌, ◌^◌, String, Bool, true, false, ◌&&◌, not, Option, none, some, List,
  [], ◌∷◌, ◌++◌, min, max, ltb, leb, ◌==◌, if◌then◌else◌, is_some, or_default, filter, find, any,
  take, same, length,
}
use disciplr_backend.Jobs.Types.{
  JobType, same_type, Job, CompletedJobRecord, FailedJobRecord, DeadLetterJobRecord,
  QueuedJobReceipt, QueueTotals, ReclaimedJobRecord,
}

pub record Flight : Type 0 where
  pub ref : ℕ
  pub started_at : ℕ

-- `faults` counts the promises that reject with nobody to handle it.
pub record Queue : Type 0 where
  pub handlers : JobType → Bool
  pub heap : ℕ → Job
  pub next_ref : ℕ
  pub pending : List ℕ
  pub active : List (String × ℕ)
  pub flights : List Flight
  pub completed_jobs : List CompletedJobRecord
  pub failed_jobs : List FailedJobRecord
  pub dead_letters : List DeadLetterJobRecord
  pub totals : QueueTotals
  pub faults : ℕ
  pub concurrency : ℕ
  pub poll_interval_ms : ℕ
  pub history_limit : ℕ
  pub stale_lease_ms : ℕ
  pub started_at : Option ℕ
  pub running : Bool

abbrev pub default_concurrency : ℕ
default_concurrency = 2

abbrev pub default_poll_interval_ms : ℕ
default_poll_interval_ms = 250

abbrev pub default_history_limit : ℕ
default_history_limit = 50

abbrev pub default_stale_lease_ms : ℕ
default_stale_lease_ms = 300_000

unfoldable pub as_positive_integer : Option ℕ → ℕ → ℕ
as_positive_integer none fallback = fallback
as_positive_integer (some value) fallback = if value == 0 then fallback else value

-- The heap of a new queue holds no object that anything refers to; `blank` fills it.
unfoldable pub new_queue : Job → Option ℕ → Option ℕ → Option ℕ → Option ℕ → Queue
unfolding as_positive_integer
new_queue blank concurrency poll_interval_ms history_limit stale_lease_ms = record {
  handlers = λ t. false;
  heap = λ r. blank;
  next_ref = 0;
  pending = [];
  active = [];
  flights = [];
  completed_jobs = [];
  failed_jobs = [];
  dead_letters = [];
  totals = record { enqueued = 0; executions = 0; completed = 0; failed = 0; retried = 0 };
  faults = 0;
  concurrency = as_positive_integer concurrency default_concurrency;
  poll_interval_ms = as_positive_integer poll_interval_ms default_poll_interval_ms;
  history_limit = as_positive_integer history_limit default_history_limit;
  stale_lease_ms = as_positive_integer stale_lease_ms default_stale_lease_ms;
  started_at = none;
  running = false;
}

unfoldable pub register_handler : JobType → Queue → Queue
register_handler t q = record q { handlers = λ u. if same_type t u then true else q.handlers u }

-- The write of one object.
unfoldable pub update : (ℕ → Job) → ℕ → Job → ℕ → Job
update heap ref job r = if ref == r then job else heap r

unfoldable pub write : ℕ → Job → Queue → Queue
unfolding update
write ref job q = record q { heap = update q.heap ref job }

-- Array.prototype.sort is stable: an entry goes behind those that are due no later.
unfoldable pub insert_by : (ℕ → ℕ) → ℕ → List ℕ → List ℕ
insert_by key r [] = r ∷ []
insert_by key r (x ∷ xs) =
    let rest = insert_by key r xs in if leb (key r) (key x) then r ∷ x ∷ xs else x ∷ rest

unfoldable pub sort_by : (ℕ → ℕ) → List ℕ → List ℕ
unfolding insert_by
sort_by key [] = []
sort_by key (x ∷ xs) = insert_by key x (sort_by key xs)

unfoldable pub due_time : Queue → ℕ → ℕ
due_time q r = (q.heap r).run_at

unfoldable pub sort_pending_jobs : Queue → Queue
unfolding due_time
sort_pending_jobs q = record q { pending = sort_by (due_time q) q.pending }

-- this.pendingJobs.push(job); this.sortPendingJobs()
unfoldable pub push_pending : ℕ → Queue → Queue
unfolding sort_pending_jobs
push_pending ref q = sort_pending_jobs (record q { pending = q.pending ++ ref ∷ [] })

-- Map.prototype.set and delete: a key that is there keeps its place.
unfoldable pub map_set : String → ℕ → List (String × ℕ) → List (String × ℕ)
map_set k r [] = (k, r) ∷ []
map_set k r ((j, x) ∷ m) = if same j k then (k, r) ∷ m else (j, x) ∷ map_set k r m

unfoldable pub map_delete : String → List (String × ℕ) → List (String × ℕ)
map_delete k [] = []
map_delete k ((j, x) ∷ m) = if same j k then m else (j, x) ∷ map_delete k m

unfoldable pub trim_history {ℓ} : {A : Type ℓ} → ℕ → List A → List A
trim_history limit records = if ltb limit (length records) then take limit records else records

unfoldable pub get_retry_delay_ms : ℕ → ℕ
get_retry_delay_ms attempt = min 60_000 (1_000 * 2 ^ (attempt - 1))

unfoldable pub record_completed_job : ℕ → Job → ℕ → Queue → Queue
unfolding trim_history
record_completed_job now job duration_ms q = record q {
  totals = record q.totals { completed = q.totals.completed + 1 };
  completed_jobs = trim_history q.history_limit (entry ∷ q.completed_jobs);
}
  where
    entry : CompletedJobRecord
    entry = record {
      job_id = job.id;
      type = job.type;
      completed_at = now;
      attempts = job.attempt;
      duration_ms = duration_ms;
    }

unfoldable pub failed_record : ℕ → Job → String → FailedJobRecord
failed_record now job error = record {
  job_id = job.id;
  type = job.type;
  failed_at = now;
  attempts = job.attempt;
  error = error;
}

unfoldable pub dead_letter_record : ℕ → Job → String → DeadLetterJobRecord
unfolding failed_record
dead_letter_record now job error = record {
  failure = failed_record now job error;
  payload = job.payload;
  created_at = job.created_at;
  run_at = job.run_at;
  max_attempts = job.max_attempts;
}

unfoldable pub move_to_dead_letter : ℕ → Job → String → Queue → Queue
unfolding trim_history dead_letter_record
move_to_dead_letter now job error q = record q {
  totals = record q.totals { failed = q.totals.failed + 1 };
  failed_jobs = trim_history q.history_limit (failed_record now job error ∷ q.failed_jobs);
  dead_letters = dead_letter_record now job error ∷ q.dead_letters;
}

-- `runJob` up to its `await`. `this.recordFailedJob` is called and nowhere defined: the call throws
-- a TypeError, and the promise that `runJob` returned rejects.
unfoldable pub run_job : ℕ → ℕ → Queue → Queue
unfolding write map_set
run_job now ref q = if q.handlers job.type then started else record q { faults = q.faults + 1 }
  where
    job : Job
    job = q.heap ref

    started : Queue
    started =
        record (write ref (record job { attempt = job.attempt + 1; leased_at = some now }) q) {
          active = map_set job.id ref q.active;
          totals = record q.totals { executions = q.totals.executions + 1 };
          flights = q.flights ++ record { ref = ref; started_at = now } ∷ [];
        }

-- findIndex and splice: the first reference whose job is due, and the others.
unfoldable pub take_due : (ℕ → ℕ) → ℕ → List ℕ → Option (ℕ × List ℕ)
take_due key now [] = none
take_due key now (x ∷ xs) =
    let rest = take_due key now xs in
    if leb (key x) now
    then some (x, xs)
    else elim rest [ none ↦ none | some (r, ys) ↦ some (r, x ∷ ys) ]

unfoldable pub drain_loop : ℕ → ℕ → Queue → Queue
unfolding take_due due_time
drain_loop zero now q = q
drain_loop (suc fuel) now q = elim (q.running && ltb (length q.active) q.concurrency) [
  | false ↦ q
  | true ↦ elim (take_due (due_time q) now q.pending) [
    | none ↦ q
    | some (ref, rest) ↦ drain_loop fuel now (run_job now ref (record q { pending = rest }))
  ]
]

-- Each round takes one pending job, so as many rounds as there are pending jobs are enough.
unfoldable pub drain : ℕ → Queue → Queue
unfolding drain_loop
drain now q = drain_loop (suc (length q.pending)) now q

-- if (this.running) void this.drain()
unfoldable pub drain_if_running : ℕ → Queue → Queue
drain_if_running now q = if q.running then drain now q else q
