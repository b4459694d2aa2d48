-- ===== src/Jobs/Operations.antt =====
-- The public methods of `InMemoryJobQueue` in src/jobs/queue.ts, and the end of `runJob`.
use disciplr_backend.Prelude.{
  ℕ, zero, suc, ◌+◌, ◌-◌, String, Bool, true, false, Option, none, some, List, [], ◌∷◌, ◌++◌, max,
  ltb, leb, if◌then◌else◌, or_default, find, take, same, length, get_elem?,
}
use disciplr_backend.Jobs.Types.{
  JobType, Job, DeadLetterJobRecord, QueuedJobReceipt, ReclaimedJobRecord,
}
use disciplr_backend.Jobs.Queue.{
  Queue, Flight, write, push_pending, sort_pending_jobs, map_delete, get_retry_delay_ms,
  record_completed_job, move_to_dead_letter, drain, drain_if_running, register_handler,
}

pub data QueueError : Type 0 where
  no_handler : JobType → QueueError
  dead_letter_not_found attempts_exhausted not_in_failed_state : QueueError

pub data Result {ℓ} (A : Type ℓ) : Type ℓ where
  ok : A → Result A
  err : QueueError → Result A

unfoldable pub receipt : Job → QueuedJobReceipt
receipt job = record {
  id = job.id;
  type = job.type;
  run_at = job.run_at;
  max_attempts = job.max_attempts;
}

-- A new object on the heap.
unfoldable pub alloc : Job → Queue → Queue
unfolding write
alloc job q = record (write q.next_ref job q) { next_ref = suc q.next_ref }

-- The options are whole numbers; `Math.max(0, …)` then changes nothing.
unfoldable pub new_job : String → ℕ → JobType → String → Option ℕ → Option ℕ → Job
new_job id now type payload delay_ms max_attempts = record {
  id = id;
  type = type;
  payload = payload;
  attempt = 0;
  max_attempts = max 1 (or_default max_attempts 3);
  created_at = now;
  run_at = now + or_default delay_ms 0;
  leased_at = none;
}

unfoldable pub enqueue :
    String → ℕ → JobType → String → Option ℕ → Option ℕ → Queue → Queue × Result QueuedJobReceipt
unfolding alloc push_pending receipt new_job
enqueue id now type payload delay_ms max_attempts q =
    if q.handlers type
    then (drain_if_running now queued, ok (receipt job))
    else (q, err (no_handler type))
  where
    job : Job
    job = new_job id now type payload delay_ms max_attempts

    pushed : Queue
    pushed = push_pending q.next_ref (alloc job q)

    queued : Queue
    queued = record pushed { totals = record q.totals { enqueued = q.totals.enqueued + 1 } }

unfoldable pub start : ℕ → Queue → Queue
start now q =
    if q.running then q else drain now (record q { running = true; started_at = some now })

-- `stop` then waits at most two seconds for the active jobs, which changes nothing here.
unfoldable pub stop : Queue → Queue
stop q = record q { running = false }

-- The timer that `start` sets.
unfoldable pub poll : ℕ → Queue → Queue
poll now q = drain_if_running now q

-- How a handler ends: the message of what it threw, and whether that is marked `nonRetryable`.
pub data Outcome : Type 0 where
  resolved : Outcome
  rejected : String → Bool → Outcome

unfoldable pub remove_at {ℓ} : {A : Type ℓ} → ℕ → List A → List A
remove_at i [] = []
remove_at zero (x ∷ xs) = xs
remove_at (suc i) (x ∷ xs) = x ∷ remove_at i xs

-- The part of `runJob` behind the `await`, without its `finally`. A non-retryable error calls the
-- missing `recordFailedJob`, and the promise rejects.
unfoldable pub settle_job : ℕ → Flight → Outcome → Queue → Queue
unfolding write push_pending
settle_job now f resolved q = record_completed_job now (q.heap f.ref) (now - f.started_at) q
settle_job now f (rejected message true) q = record q { faults = q.faults + 1 }
settle_job now f (rejected message false) q =
    let job = q.heap f.ref in
    if ltb job.attempt job.max_attempts
    then push_pending f.ref (
        write f.ref (record job { run_at = now + get_retry_delay_ms job.attempt })
          (record q { totals = record q.totals { retried = q.totals.retried + 1 } }))
    else move_to_dead_letter now job message q

-- The handler of the `i`-th flight ends: the rest of `runJob`, its `finally` included.
unfoldable pub finish_flight : ℕ → ℕ → Outcome → Queue → Queue
unfolding settle_job remove_at
finish_flight now i outcome q = elim (get_elem? q.flights i) [
  | none ↦ q
  | some f ↦
      let settled = settle_job now f outcome (record q { flights = remove_at i q.flights }) in
      drain_if_running now (record settled { active = map_delete (q.heap f.ref).id settled.active })
]

-- now - job.leasedAt, and whether it is more than `staleLeaseMs`. Without a lease it is NaN, and
-- `NaN <= staleLeaseMs` is false.
unfoldable pub is_fresh : ℕ → ℕ → Option ℕ → Bool
is_fresh now stale_lease_ms none = false
is_fresh now stale_lease_ms (some leased_at) = leb (now - leased_at) stale_lease_ms

unfoldable pub lease_age : ℕ → Option ℕ → ℕ
lease_age now none = 0
lease_age now (some leased_at) = now - leased_at

pub record Sweep : Type 0 where
  pub reclaimed : List ReclaimedJobRecord
  pub dead_lettered : List DeadLetterJobRecord

-- The message that a swept job dies with; how it shows the numbers is not modelled.
abbrev pub stuck_message : String
stuck_message = "Stuck job reclaimed: lease age exceeded staleLeaseMs"

unfoldable pub reclaim : ℕ → ℕ → Job → Queue → Queue
unfolding write
reclaim now ref job q =
    let q' = write ref (record job { leased_at = none; run_at = now }) q in
    record q' {
      totals = record q.totals { retried = q.totals.retried + 1 };
      pending = q.pending ++ ref ∷ [];
    }

unfoldable pub died : Sweep → Queue → Queue × Sweep
died out q = (q, record out { dead_lettered = out.dead_lettered ++ take 1 q.dead_letters })

-- One round of the loop of `sweepStaleLeases`, for the entry `(id, ref)` of the active jobs.
unfoldable pub sweep_entry : ℕ → ℕ → String × ℕ → Queue × Sweep → Queue × Sweep
unfolding reclaim is_fresh lease_age died move_to_dead_letter
sweep_entry now stale_lease_ms (id, ref) (q, out) =
    let job = q.heap ref in
    let freed : Queue = record q { active = map_delete id q.active } in
    if is_fresh now stale_lease_ms job.leased_at
    then (q, out)
    else if leb job.max_attempts job.attempt
    then died out (move_to_dead_letter now job stuck_message freed)
    else (reclaim now ref job freed, record out { reclaimed = out.reclaimed ++ entry job ∷ [] })
  where
    entry : Job → ReclaimedJobRecord
    entry job = record {
      job_id = job.id;
      type = job.type;
      attempt = job.attempt;
      max_attempts = job.max_attempts;
      lease_age_ms = lease_age now job.leased_at;
    }

unfoldable pub sweep_loop : ℕ → ℕ → List (String × ℕ) → Queue × Sweep → Queue × Sweep
sweep_loop now stale_lease_ms [] acc = acc
sweep_loop now stale_lease_ms (x ∷ xs) acc =
    sweep_loop now stale_lease_ms xs (sweep_entry now stale_lease_ms x acc)

unfoldable pub after_sweep : ℕ → Queue × Sweep → Queue
after_sweep now (q, out) =
    if ltb 0 (length out.reclaimed) then drain_if_running now (sort_pending_jobs q) else q

unfoldable pub sweep_stale_leases : ℕ → Option ℕ → Queue → Queue × Sweep
unfolding sweep_loop sweep_entry after_sweep
sweep_stale_leases now stale_lease_ms q =
    let limit = or_default stale_lease_ms q.stale_lease_ms in
    let swept = sweep_loop now limit q.active (q, record { reclaimed = []; dead_lettered = [] }) in
    (after_sweep now swept, swept.1)

unfoldable pub get_dead_letters : Queue → List DeadLetterJobRecord
get_dead_letters q = q.dead_letters

unfoldable pub has_job_id : String → DeadLetterJobRecord → Bool
has_job_id id d = same d.job_id id

unfoldable pub get_dead_letter : String → Queue → Option DeadLetterJobRecord
unfolding has_job_id
get_dead_letter id q = find (has_job_id id) q.dead_letters

-- deadLetterJobs.splice(index, 1), at the first entry of this id
unfoldable pub drop_letter : String → List DeadLetterJobRecord → List DeadLetterJobRecord
unfolding has_job_id
drop_letter id [] = []
drop_letter id (d ∷ ds) = let rest = drop_letter id ds in if has_job_id id d then ds else d ∷ rest

unfoldable pub replay_dead_letter : String → String → ℕ → Queue → Queue × Result QueuedJobReceipt
unfolding get_dead_letter drop_letter enqueue
replay_dead_letter new_id id now q = elim (get_dead_letter id q) [
  | none ↦ (q, err dead_letter_not_found)
  | some d ↦
      enqueue new_id now d.type d.payload none (some d.max_attempts)
        (record q { dead_letters = drop_letter id q.dead_letters })
]

-- The dead letter goes back into the queue as a new object under its old id.
unfoldable pub revive : DeadLetterJobRecord → ℕ → Queue → Queue × Result QueuedJobReceipt
unfolding alloc push_pending drop_letter receipt
revive d now q = (
  drain_if_running now (
      push_pending q.next_ref
        (alloc job (record q { dead_letters = drop_letter d.job_id q.dead_letters }))),
  ok (receipt job),
)
  where
    job : Job
    job = record {
      id = d.job_id;
      type = d.type;
      payload = d.payload;
      attempt = 0;
      max_attempts = d.max_attempts;
      created_at = d.created_at;
      run_at = now;
      leased_at = none;
    }

unfoldable pub hurry : ℕ → ℕ → Queue → Queue × Result QueuedJobReceipt
unfolding write sort_pending_jobs receipt
hurry now ref q =
    let job : Job = record (q.heap ref) { run_at = now } in
    (drain_if_running now (sort_pending_jobs (write ref job q)), ok (receipt job))

unfoldable pub retry_job : String → Bool → ℕ → Queue → Queue × Result QueuedJobReceipt
unfolding get_dead_letter revive hurry
retry_job id force now q = elim (get_dead_letter id q) [
  | some d ↦ if force then revive d now q else (q, err attempts_exhausted)
  | none ↦ elim (find (λ r. same (q.heap r).id id) q.pending) [
    | none ↦ (q, err not_in_failed_state)
    | some ref ↦
        if ltb 0 (q.heap ref).attempt then hurry now ref q else (q, err not_in_failed_state)
  ]
]

-- What may happen to a queue, one event at a time.
pub data Event : Type 0 where
  enqueues : String → JobType → String → Option ℕ → Option ℕ → Event
  starts stops polls : Event
  finishes : ℕ → Outcome → Event
  sweeps : Option ℕ → Event
  replays : String → String → Event
  retries : String → Bool → Event
  registers : JobType → Event

unfoldable pub step : ℕ → Event → Queue → Queue
step now (enqueues id type payload delay_ms max_attempts) q =
    (enqueue id now type payload delay_ms max_attempts q).0
step now starts q = start now q
step now stops q = stop q
step now polls q = poll now q
step now (finishes i outcome) q = finish_flight now i outcome q
step now (sweeps stale_lease_ms) q = (sweep_stale_leases now stale_lease_ms q).0
step now (replays new_id id) q = (replay_dead_letter new_id id now q).0
step now (retries id force) q = (retry_job id force now q).0
step now (registers type) q = register_handler type q

unfoldable pub run : List (ℕ × Event) → Queue → Queue
run [] q = q
run ((now, e) ∷ es) q = run es (step now e q)
