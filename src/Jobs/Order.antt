-- ===== src/Jobs/Order.antt =====
-- The order of the pending jobs of the queue in src/jobs/queue.ts.
pub mod Sorting
use disciplr_backend.Prelude.{
  ℕ, zero, suc, ◌+◌, ◌≤◌, ◌<◌, String, Bool, true, false, Option, none, some, List, [], ◌∷◌, ◌++◌,
  ◌≡◌, refl, ap, subst, sym, ◌∙◌, inl, inr, arith, if_both, if◌then◌else◌, length, length-snoc,
  same, find, or_default, Option-cases, Bool-cases, leb, ltb, get_elem?,
}
use disciplr_backend.Jobs.Types.{JobType, Job, DeadLetterJobRecord, QueuedJobReceipt}
use disciplr_backend.Jobs.Queue.{
  Queue, Flight, sort_pending_jobs, push_pending, run_job, take_due, due_time, drain,
  drain_if_running, move_to_dead_letter, record_completed_job, new_queue, register_handler, write,
}
use disciplr_backend.Jobs.Queue.Drain.{run_job_pending, drain_induction, drain_if_running_induction}
use disciplr_backend.Jobs.Operations.{
  Outcome, resolved, rejected, Event, enqueues, starts, stops, polls, finishes, sweeps, replays,
  retries, registers, alloc, new_job, enqueue, start, stop, poll, settle_job, finish_flight,
  remove_at, Result, err, drop_letter, after_sweep, Sweep, is_fresh, sweep_entry, sweep_loop,
  sweep_stale_leases, replay_dead_letter, retry_job, get_dead_letter, revive, hurry, step, run,
}
use Sorting.{IsSorted, sort_by-IsSorted, IsSorted-take_due, IsSorted-cong, take_due_front}

pub record IsOrdered (q : Queue) : Type 0 where
  pub sorted : IsSorted (λ r. (q.heap r).run_at) q.pending

-- The order is a matter of the heap and the pending jobs alone.
keep : (p q : Queue) → q.heap ≡ p.heap → q.pending ≡ p.pending → IsOrdered p → IsOrdered q
keep p q h k s = record { sorted = rw (h, k) s.sorted }

run_job-due_time :
    (now ref : ℕ) (q : Queue) (r : ℕ) → ((run_job now ref q).heap r).run_at ≡ (q.heap r).run_at
unfolding run_job
run_job-due_time now ref q r = ground arith

run_job-IsOrdered :
    (now : ℕ) (q : Queue) (ref : ℕ) (rest : List ℕ)
    → IsOrdered q
    → length q.active < q.concurrency
    → take_due (due_time q) now q.pending ≡ some (ref, rest)
    → IsOrdered (run_job now ref (record q { pending = rest }))
unfolding due_time
run_job-IsOrdered now q ref rest s room e =
    let q' : Queue = record q { pending = rest } in
    record {
      sorted = rw (run_job_pending now ref q') (
          IsSorted-cong (due_time q) (due_time (run_job now ref q')) rest
            (run_job-due_time now ref q')
            (IsSorted-take_due (due_time q) now q.pending {r = ref} {rest = rest} s.sorted e));
    }

drain-IsOrdered : (now : ℕ) (q : Queue) → IsOrdered q → IsOrdered (drain_if_running now q)
drain-IsOrdered now q h = drain_if_running_induction IsOrdered now (run_job-IsOrdered now) q h

sort_pending_jobs-IsOrdered : (q : Queue) → IsOrdered (sort_pending_jobs q)
unfolding sort_pending_jobs due_time
sort_pending_jobs-IsOrdered q = record { sorted = sort_by-IsSorted (due_time q) q.pending }

push_pending-IsOrdered : (ref : ℕ) (q : Queue) → IsOrdered (push_pending ref q)
unfolding push_pending
push_pending-IsOrdered ref q =
    sort_pending_jobs-IsOrdered (record q { pending = q.pending ++ ref ∷ [] })

settle_job-IsOrdered :
    (now : ℕ) (f : Flight) (o : Outcome) (q : Queue)
    → IsOrdered q
    → IsOrdered (settle_job now f o q)
unfolding settle_job record_completed_job move_to_dead_letter
settle_job-IsOrdered now f resolved q s = keep q _ refl refl s
settle_job-IsOrdered now f (rejected m true) q s = keep q _ refl refl s
settle_job-IsOrdered now f (rejected m false) q s =
    if_both IsOrdered (ltb (q.heap f.ref).attempt (q.heap f.ref).max_attempts)
      (push_pending-IsOrdered f.ref _) (keep q _ refl refl s)

finish_flight-IsOrdered :
    (now i : ℕ) (o : Outcome) (q : Queue) → IsOrdered q → IsOrdered (finish_flight now i o q)
unfolding finish_flight
finish_flight-IsOrdered now i o q s = elim (Option-cases (get_elem? q.flights i)) [
  | inl e ↦ rw (e, finish_flight) s
  | inr (f, e) ↦
      let q' : Queue = record q { flights = remove_at i q.flights } in
      rw (e, finish_flight)
        (drain-IsOrdered now _ (
          keep (settle_job now f o q') _ refl refl
            (settle_job-IsOrdered now f o q' (keep q q' refl refl s))))
]

enqueue-IsOrdered :
    (id : String) (now : ℕ) (t : JobType) (payload : String) (delay tries : Option ℕ) (q : Queue)
    → IsOrdered q
    → IsOrdered (enqueue id now t payload delay tries q).0
unfolding enqueue
enqueue-IsOrdered id now t payload delay tries q s =
    if_both (λ (r : Queue × Result QueuedJobReceipt). IsOrdered r.0) (q.handlers t)
      (drain-IsOrdered now _ (keep pushed _ refl refl (push_pending-IsOrdered q.next_ref added))) s
  where
    added : Queue
    added = alloc (new_job id now t payload delay tries) q

    pushed : Queue
    pushed = push_pending q.next_ref added

start-IsOrdered : (now : ℕ) (q : Queue) → IsOrdered q → IsOrdered (start now q)
unfolding start
start-IsOrdered now q s =
    if_both IsOrdered q.running s
      (drain_induction IsOrdered now (run_job-IsOrdered now) _ (keep q _ refl refl s))

-- Until a sweep takes a job back it touches neither the heap nor the pending jobs.
abbrev Untouched : Queue → Queue × Sweep → Type 0
Untouched q (q', out) = length out.reclaimed ≡ 0 → (q'.pending ≡ q.pending) × (q'.heap ≡ q.heap)

sweep_entry-Untouched :
    (now limit : ℕ) (x : String × ℕ) (q : Queue) (acc : Queue × Sweep)
    → Untouched q acc
    → Untouched q (sweep_entry now limit x acc)
unfolding sweep_entry
sweep_entry-Untouched now limit (id, ref) q (q', out) h =
    if_both (Untouched q) (is_fresh now limit (q'.heap ref).leased_at) h (
      if_both (Untouched q) (leb (q'.heap ref).max_attempts (q'.heap ref).attempt) h
        (λ empty. absurd (omega (arith, length-snoc {0}))))

sweep_loop-Untouched :
    (now limit : ℕ) (xs : List (String × ℕ)) (q : Queue) (acc : Queue × Sweep)
    → Untouched q acc
    → Untouched q (sweep_loop now limit xs acc)
unfolding sweep_loop
sweep_loop-Untouched now limit [] q acc h = h
sweep_loop-Untouched now limit (x ∷ xs) q acc h =
    sweep_loop-Untouched now limit xs q (sweep_entry now limit x acc)
      (sweep_entry-Untouched now limit x q acc h)

after_sweep-IsOrdered :
    (now : ℕ) (q : Queue) (acc : Queue × Sweep)
    → Untouched q acc
    → IsOrdered q
    → IsOrdered (after_sweep now acc)
unfolding after_sweep
after_sweep-IsOrdered now q (q', out) h s = elim (Bool-cases (ltb 0 (length out.reclaimed))) [
  | inl some_back ↦ rw some_back (drain-IsOrdered now _ (sort_pending_jobs-IsOrdered q'))
  | inr none_back ↦ let kept = h (ground arith) in rw none_back (keep q q' kept.1 kept.0 s)
]

sweep_stale_leases-IsOrdered :
    (now : ℕ) (limit : Option ℕ) (q : Queue)
    → IsOrdered q
    → IsOrdered (sweep_stale_leases now limit q).0
unfolding sweep_stale_leases
sweep_stale_leases-IsOrdered now limit q s =
    let none_yet : Queue × Sweep = (q, record { reclaimed = []; dead_lettered = [] }) in
    let stale = or_default limit q.stale_lease_ms in
    after_sweep-IsOrdered now q (sweep_loop now stale q.active none_yet)
      (sweep_loop-Untouched now stale q.active q none_yet (λ _. (refl, refl))) s

replay_dead_letter-IsOrdered :
    (new_id id : String) (now : ℕ) (q : Queue)
    → IsOrdered q
    → IsOrdered (replay_dead_letter new_id id now q).0
unfolding replay_dead_letter
replay_dead_letter-IsOrdered new_id id now q s = elim (Option-cases (get_dead_letter id q)) [
  | inl e ↦ rw (e, replay_dead_letter) s
  | inr (d, e) ↦
      rw (e, replay_dead_letter)
        (enqueue-IsOrdered new_id now d.type d.payload none (some d.max_attempts)
          (record q { dead_letters = drop_letter id q.dead_letters }) (keep q _ refl refl s))
]

retry_job-IsOrdered :
    (id : String) (force : Bool) (now : ℕ) (q : Queue)
    → IsOrdered q
    → IsOrdered (retry_job id force now q).0
unfolding retry_job
retry_job-IsOrdered id force now q s = elim (Option-cases (get_dead_letter id q)) [
  | inr (d, e) ↦
      rw (e, retry_job)
        (if_both (λ (r : Queue × Result QueuedJobReceipt). IsOrdered r.0) force
          (drain-IsOrdered now _ (push_pending-IsOrdered q.next_ref _)) s)
  | inl e ↦ elim (Option-cases (find (λ r. same (q.heap r).id id) q.pending)) [
    | inl e' ↦ rw (e, retry_job) (rw (e', retry_job) s)
    | inr (ref, e') ↦
        rw (e, retry_job)
          (rw (e', retry_job)
            (if_both (λ (r : Queue × Result QueuedJobReceipt). IsOrdered r.0)
              (ltb 0 (q.heap ref).attempt)
              (drain-IsOrdered now _
                (sort_pending_jobs-IsOrdered (write ref (record (q.heap ref) { run_at = now }) q)))
              s))
  ]
]

step-IsOrdered : (now : ℕ) (e : Event) (q : Queue) → IsOrdered q → IsOrdered (step now e q)
unfolding step poll stop register_handler
step-IsOrdered now (enqueues id t payload delay tries) q s =
    enqueue-IsOrdered id now t payload delay tries q s
step-IsOrdered now starts q s = start-IsOrdered now q s
step-IsOrdered now stops q s = keep q _ refl refl s
step-IsOrdered now polls q s = drain-IsOrdered now q s
step-IsOrdered now (finishes i o) q s = finish_flight-IsOrdered now i o q s
step-IsOrdered now (sweeps limit) q s = sweep_stale_leases-IsOrdered now limit q s
step-IsOrdered now (replays new_id id) q s = replay_dead_letter-IsOrdered new_id id now q s
step-IsOrdered now (retries id force) q s = retry_job-IsOrdered id force now q s
step-IsOrdered now (registers t) q s = keep q _ refl refl s

run-IsOrdered : (es : List (ℕ × Event)) (q : Queue) → IsOrdered q → IsOrdered (run es q)
unfolding run
run-IsOrdered [] q s = s
run-IsOrdered ((now, e) ∷ es) q s = run-IsOrdered es (step now e q) (step-IsOrdered now e q s)

-- Where some pending job is due after a history of a new queue, the pending jobs stand in the order
-- in which they are due, and the next job that a drain would start is the one at their head.
pub run-new_queue-IsOrdered :
    (blank : Job) (concurrency poll_ms history stale : Option ℕ) (es : List (ℕ × Event)) (now : ℕ)
    {r : ℕ} {rest : List ℕ}
    → take_due
        (due_time (run es (new_queue blank concurrency poll_ms history stale)))
        now
        (run es (new_queue blank concurrency poll_ms history stale)).pending
      ≡ some (r, rest)
    → IsOrdered (run es (new_queue blank concurrency poll_ms history stale))
      × ((run es (new_queue blank concurrency poll_ms history stale)).pending ≡ r ∷ rest)
unfolding new_queue due_time
run-new_queue-IsOrdered blank concurrency poll_ms history stale es now e =
    let q = new_queue blank concurrency poll_ms history stale in
    let ordered = run-IsOrdered es q (record { sorted = tt }) in
    (ordered, take_due_front (due_time (run es q)) now (run es q).pending ordered.sorted e)
