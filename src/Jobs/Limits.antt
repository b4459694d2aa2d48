-- ===== src/Jobs/Limits.antt =====
-- The limit on concurrency of the queue in src/jobs/queue.ts.
use disciplr_backend.Prelude.{
  ℕ, suc, ◌≤◌, ◌<◌, String, Bool, true, false, Option, none, some, List, [], ◌∷◌, ◌≡◌, refl, ap,
  inl, inr, arith, if_both, length, same, find, or_default, Option-cases, ltb, get_elem?,
}
use disciplr_backend.Jobs.Types.{JobType, Job, QueuedJobReceipt}
use disciplr_backend.Jobs.Queue.{
  Queue, Flight, map_set, map_delete, run_job, drain_if_running, move_to_dead_letter,
  record_completed_job, new_queue, register_handler, sort_pending_jobs,
}
use disciplr_backend.Jobs.Queue.Drain.{drain_induction, drain_if_running_induction}
use disciplr_backend.Jobs.Operations.{
  Outcome, resolved, rejected, Event, enqueues, starts, stops, polls, finishes, sweeps, replays,
  retries, registers, enqueue, start, stop, poll, settle_job, finish_flight, remove_at, Result,
  drop_letter, after_sweep, Sweep, sweep_entry, sweep_loop, sweep_stale_leases, replay_dead_letter,
  retry_job, get_dead_letter, step, run,
}

length-map_set :
    (k : String) (r : ℕ) (m : List (String × ℕ)) → length (map_set k r m) ≤ suc (length m)
unfolding map_set
length-map_set k r [] = omega arith
length-map_set k r ((j, x) ∷ m) = ground (arith, length-map_set k r m)

length-map_delete : (k : String) (m : List (String × ℕ)) → length (map_delete k m) ≤ length m
unfolding map_delete
length-map_delete k [] = omega arith
length-map_delete k ((j, x) ∷ m) = ground (arith, length-map_delete k m)

abbrev pub WithinLimit : Queue → Type 0
WithinLimit q = length q.active ≤ q.concurrency

run_job-WithinLimit :
    (now ref : ℕ) (q : Queue) → length q.active < q.concurrency → WithinLimit (run_job now ref q)
unfolding run_job
run_job-WithinLimit now ref q h = ground (arith, length-map_set (q.heap ref).id ref q.active)

drain_if_running-WithinLimit :
    (now : ℕ) (q : Queue) → WithinLimit q → WithinLimit (drain_if_running now q)
drain_if_running-WithinLimit now q h =
    drain_if_running_induction WithinLimit now
      (λ p ref rest _ room _. run_job-WithinLimit now ref (record p { pending = rest }) room) q h

settle_job-active :
    (now : ℕ) (f : Flight) (o : Outcome) (q : Queue)
    → ((settle_job now f o q).active ≡ q.active)
      × ((settle_job now f o q).concurrency ≡ q.concurrency)
unfolding settle_job record_completed_job move_to_dead_letter
settle_job-active now f resolved q = (refl, refl)
settle_job-active now f (rejected m true) q = (refl, refl)
settle_job-active now f (rejected m false) q = ground arith

finish_flight-WithinLimit :
    (now i : ℕ) (o : Outcome) (q : Queue) → WithinLimit q → WithinLimit (finish_flight now i o q)
unfolding finish_flight
finish_flight-WithinLimit now i o q h = elim (Option-cases (get_elem? q.flights i)) [
  | inl e ↦ rw (e, finish_flight) h
  | inr (f, e) ↦
      let q' : Queue = record q { flights = remove_at i q.flights } in
      rw (e, finish_flight)
        (drain_if_running-WithinLimit now _ (
          omega (
            arith,
            length-map_delete (q.heap f.ref).id (settle_job now f o q').active,
            settle_job-active now f o q',
            ap length (settle_job-active now f o q').0,
            h,
          )))
]

enqueue-WithinLimit :
    (id : String) (now : ℕ) (t : JobType) (payload : String) (delay tries : Option ℕ) (q : Queue)
    → WithinLimit q
    → WithinLimit (enqueue id now t payload delay tries q).0
unfolding enqueue
enqueue-WithinLimit id now t payload delay tries q h =
    if_both (λ (r : Queue × Result QueuedJobReceipt). WithinLimit r.0) (q.handlers t)
      (drain_if_running-WithinLimit now _ h) h

start-WithinLimit : (now : ℕ) (q : Queue) → WithinLimit q → WithinLimit (start now q)
unfolding start
start-WithinLimit now q h = if_both WithinLimit q.running h (
    drain_induction WithinLimit now
      (λ p ref rest _ room _. run_job-WithinLimit now ref (record p { pending = rest }) room) _ h)

sweep_entry-WithinLimit :
    (now limit : ℕ) (x : String × ℕ) (acc : Queue × Sweep)
    → WithinLimit acc.0
    → WithinLimit (sweep_entry now limit x acc).0
unfolding sweep_entry
sweep_entry-WithinLimit now limit (id, ref) (q, out) h =
    ground (arith, length-map_delete id q.active)

sweep_loop-WithinLimit :
    (now limit : ℕ) (xs : List (String × ℕ)) (acc : Queue × Sweep)
    → WithinLimit acc.0
    → WithinLimit (sweep_loop now limit xs acc).0
unfolding sweep_loop
sweep_loop-WithinLimit now limit [] acc h = h
sweep_loop-WithinLimit now limit (x ∷ xs) acc h =
    sweep_loop-WithinLimit now limit xs (sweep_entry now limit x acc)
      (sweep_entry-WithinLimit now limit x acc h)

after_sweep-WithinLimit :
    (now : ℕ) (acc : Queue × Sweep) → WithinLimit acc.0 → WithinLimit (after_sweep now acc)
unfolding after_sweep sort_pending_jobs
after_sweep-WithinLimit now (q, out) h =
    if_both WithinLimit (ltb 0 (length out.reclaimed))
      (drain_if_running-WithinLimit now (sort_pending_jobs q) h) h

sweep_stale_leases-WithinLimit :
    (now : ℕ) (limit : Option ℕ) (q : Queue)
    → WithinLimit q
    → WithinLimit (sweep_stale_leases now limit q).0
unfolding sweep_stale_leases
sweep_stale_leases-WithinLimit now limit q h =
    let none_yet : Queue × Sweep = (q, record { reclaimed = []; dead_lettered = [] }) in
    let stale = or_default limit q.stale_lease_ms in
    after_sweep-WithinLimit now (sweep_loop now stale q.active none_yet)
      (sweep_loop-WithinLimit now stale q.active none_yet h)

replay_dead_letter-WithinLimit :
    (new_id id : String) (now : ℕ) (q : Queue)
    → WithinLimit q
    → WithinLimit (replay_dead_letter new_id id now q).0
unfolding replay_dead_letter
replay_dead_letter-WithinLimit new_id id now q h = elim (Option-cases (get_dead_letter id q)) [
  | inl e ↦ rw (e, replay_dead_letter) h
  | inr (d, e) ↦
      rw (e, replay_dead_letter)
        (enqueue-WithinLimit new_id now d.type d.payload none (some d.max_attempts)
          (record q { dead_letters = drop_letter id q.dead_letters }) h)
]

retry_job-WithinLimit :
    (id : String) (force : Bool) (now : ℕ) (q : Queue)
    → WithinLimit q
    → WithinLimit (retry_job id force now q).0
unfolding retry_job
retry_job-WithinLimit id force now q h = elim (Option-cases (get_dead_letter id q)) [
  | inr (d, e) ↦
      rw (e, retry_job)
        (if_both (λ (r : Queue × Result QueuedJobReceipt). WithinLimit r.0) force
          (drain_if_running-WithinLimit now _ h) h)
  | inl e ↦ elim (Option-cases (find (λ r. same (q.heap r).id id) q.pending)) [
    | inl e' ↦ rw (e, retry_job) (rw (e', retry_job) h)
    | inr (ref, e') ↦
        rw (e, retry_job)
          (rw (e', retry_job)
            (if_both (λ (r : Queue × Result QueuedJobReceipt). WithinLimit r.0)
              (ltb 0 (q.heap ref).attempt) (drain_if_running-WithinLimit now _ h) h))
  ]
]

-- No event makes the queue hold more active jobs than its concurrency.
pub step-WithinLimit :
    (now : ℕ) (e : Event) (q : Queue) → WithinLimit q → WithinLimit (step now e q)
unfolding step poll stop register_handler
step-WithinLimit now (enqueues id t payload delay tries) q h =
    enqueue-WithinLimit id now t payload delay tries q h
step-WithinLimit now starts q h = start-WithinLimit now q h
step-WithinLimit now stops q h = h
step-WithinLimit now polls q h = drain_if_running-WithinLimit now q h
step-WithinLimit now (finishes i o) q h = finish_flight-WithinLimit now i o q h
step-WithinLimit now (sweeps limit) q h = sweep_stale_leases-WithinLimit now limit q h
step-WithinLimit now (replays new_id id) q h = replay_dead_letter-WithinLimit new_id id now q h
step-WithinLimit now (retries id force) q h = retry_job-WithinLimit id force now q h
step-WithinLimit now (registers t) q h = h

run-WithinLimit : (es : List (ℕ × Event)) (q : Queue) → WithinLimit q → WithinLimit (run es q)
unfolding run
run-WithinLimit [] q h = h
run-WithinLimit ((now, e) ∷ es) q h = run-WithinLimit es (step now e q) (step-WithinLimit now e q h)

-- After any history of a new queue it has no more active jobs than its concurrency.
pub run-new_queue-WithinLimit :
    (blank : Job) (concurrency poll_ms history stale : Option ℕ) (es : List (ℕ × Event))
    → WithinLimit (run es (new_queue blank concurrency poll_ms history stale))
unfolding new_queue
run-new_queue-WithinLimit blank concurrency poll_ms history stale es =
    run-WithinLimit es _ (omega arith)
