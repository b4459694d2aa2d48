-- ===== src/Jobs/Balance.antt =====
-- Counting the jobs of the queue in src/jobs/queue.ts: waiting, in flight, or counted in a total.
use disciplr_backend.Prelude.{
  ℕ, zero, suc, ◌+◌, ◌<◌, String, Bool, true, false, Option, none, some, List, [], ◌∷◌, ◌++◌, ◌≡◌,
  refl, ap, ◌∙◌, inl, inr, arith, if_both, if◌then◌else◌, length, length-snoc, same, find,
  or_default, Option-cases, Bool-cases, leb, ltb, get_elem?,
}
use disciplr_backend.Jobs.Types.{JobType, DeadLetterJobRecord, QueuedJobReceipt}
use disciplr_backend.Jobs.Queue.{
  Queue, Flight, insert_by, sort_by, sort_pending_jobs, push_pending, run_job, take_due, due_time,
  drain_if_running, move_to_dead_letter, record_completed_job, register_handler,
}
use disciplr_backend.Jobs.Queue.Drain.{length-take_due, drain_induction, drain_if_running_induction}
use disciplr_backend.Jobs.Operations.{
  Outcome, resolved, rejected, Event, enqueues, starts, stops, polls, finishes, sweeps, replays,
  retries, registers, enqueue, start, stop, poll, settle_job, finish_flight, remove_at, Result, err,
  attempts_exhausted, drop_letter, after_sweep, Sweep, is_fresh, sweep_entry, sweep_loop,
  sweep_stale_leases, replay_dead_letter, retry_job, get_dead_letter, revive, hurry, step, run,
}

-- Where the jobs are: waiting, in flight, completed, dead, or lost to a rejected promise.
abbrev pub accounted : Queue → ℕ
accounted q = length q.pending + length q.flights + q.totals.completed + q.totals.failed + q.faults

length-insert_by :
    (key : ℕ → ℕ) (r : ℕ) (xs : List ℕ) → length (insert_by key r xs) ≡ suc (length xs)
unfolding insert_by
length-insert_by key r [] = refl
length-insert_by key r (x ∷ xs) = ground (arith, length-insert_by key r xs)

length-sort_by : (key : ℕ → ℕ) (xs : List ℕ) → length (sort_by key xs) ≡ length xs
unfolding sort_by
length-sort_by key [] = refl
length-sort_by key (x ∷ xs) =
    omega (arith, length-insert_by key x (sort_by key xs), length-sort_by key xs)

-- `accounted` and the number of enqueued jobs change by the same amount, but for `extra` jobs.
record Balanced (before : Queue) (extra : ℕ) (after : Queue) : Type 0 where
  equation :
      accounted after + before.totals.enqueued ≡ accounted before + after.totals.enqueued + extra

Balanced-refl : (q : Queue) → Balanced q 0 q
Balanced-refl q = omega arith

run_job-Balanced :
    (now ref : ℕ) (rest : List ℕ) (q : Queue)
    → length q.pending ≡ suc (length rest)
    → Balanced q 0 (run_job now ref (record q { pending = rest }))
unfolding run_job
run_job-Balanced now ref rest q h = grind (arith, length-snoc)

Balanced-round :
    (now n : ℕ) (p r : Queue) (ref : ℕ) (rest : List ℕ)
    → Balanced p n r
    → length r.active < r.concurrency
    → take_due (due_time r) now r.pending ≡ some (ref, rest)
    → Balanced p n (run_job now ref (record r { pending = rest }))
Balanced-round now n p r ref rest b room e =
    let c =
      run_job-Balanced now ref rest r
        (length-take_due (due_time r) now r.pending {r = ref} {rest = rest} e) in
    record { equation = omega (arith, b.equation, c.equation) }

drain-Balanced : (now n : ℕ) (p q : Queue) → Balanced p n q → Balanced p n (drain_if_running now q)
drain-Balanced now n p q h =
    drain_if_running_induction (Balanced p n) now (Balanced-round now n p) q h

push_pending-length :
    (ref : ℕ) (q : Queue) → length (push_pending ref q).pending ≡ suc (length q.pending)
unfolding push_pending
push_pending-length ref q =
    length-sort_by (due_time (record q { pending = q.pending ++ ref ∷ [] })) (q.pending ++ ref ∷ [])
    ∙ length-snoc q.pending ref

settle_job-Balanced :
    (now : ℕ) (f : Flight) (o : Outcome) (q : Queue)
    → (accounted (settle_job now f o q) ≡ suc (accounted q))
      × ((settle_job now f o q).totals.enqueued ≡ q.totals.enqueued)
unfolding settle_job record_completed_job move_to_dead_letter push_pending
settle_job-Balanced now f resolved q = (omega arith, refl)
settle_job-Balanced now f (rejected m true) q = (omega arith, refl)
settle_job-Balanced now f (rejected m false) q =
    elim (Bool-cases (ltb (q.heap f.ref).attempt (q.heap f.ref).max_attempts)) [
      | inl again ↦ rw again (omega (arith, length-sort_by, length-snoc {0}), refl)
      | inr spent ↦ rw spent (omega arith, refl)
    ]

length-remove_at :
    (i : ℕ) (fs : List Flight) {f : Flight}
    → get_elem? fs i ≡ some f
    → length fs ≡ suc (length (remove_at i fs))
unfolding remove_at
length-remove_at i [] h = cc
length-remove_at zero (x ∷ fs) h = refl
length-remove_at (suc i) (x ∷ fs) h = ap suc (length-remove_at i fs h)

finish_flight-Balanced :
    (now i : ℕ) (o : Outcome) (q : Queue) → Balanced q 0 (finish_flight now i o q)
unfolding finish_flight
finish_flight-Balanced now i o q = elim (Option-cases (get_elem? q.flights i)) [
  | inl e ↦ rw (e, finish_flight) (Balanced-refl q)
  | inr (f, e) ↦
      let q' : Queue = record q { flights = remove_at i q.flights } in
      rw (e, finish_flight)
        (drain-Balanced now 0 q _ (record {
          equation = omega (arith, settle_job-Balanced now f o q', length-remove_at i q.flights e);
        }))
]

enqueue-Balanced :
    (id : String) (now : ℕ) (t : JobType) (payload : String) (delay tries : Option ℕ) (q : Queue)
    → Balanced q 0 (enqueue id now t payload delay tries q).0
unfolding enqueue push_pending
enqueue-Balanced id now t payload delay tries q =
    if_both (λ (r : Queue × Result QueuedJobReceipt). Balanced q 0 r.0) (q.handlers t)
      (drain-Balanced now 0 q _
        (record { equation = omega (arith, length-sort_by, length-snoc {0}) }))
      (Balanced-refl q)

start-Balanced : (now : ℕ) (q : Queue) → Balanced q 0 (start now q)
unfolding start
start-Balanced now q =
    if_both (Balanced q 0) q.running (Balanced-refl q)
      (drain_induction (Balanced q 0) now (Balanced-round now 0 q) _ (omega arith))

replay_dead_letter-Balanced :
    (new_id id : String) (now : ℕ) (q : Queue) → Balanced q 0 (replay_dead_letter new_id id now q).0
unfolding replay_dead_letter
replay_dead_letter-Balanced new_id id now q = elim (Option-cases (get_dead_letter id q)) [
  | inl e ↦ rw (e, replay_dead_letter) (Balanced-refl q)
  | inr (d, e) ↦
      let q' : Queue = record q { dead_letters = drop_letter id q.dead_letters } in
      let b : Balanced q' 0 (enqueue new_id now d.type d.payload none (some d.max_attempts) q').0 =
        enqueue-Balanced new_id now d.type d.payload none (some d.max_attempts) q' in
      rw (e, replay_dead_letter) (record { equation = b.equation })
]

-- How many jobs a sweep has taken back or buried.
abbrev pub swept : Sweep → ℕ
swept out = length out.reclaimed + length out.dead_lettered

-- Each job that a sweep counts is pending or dead once more, while its flight is still in the air.
record SweepBalanced (before after : Queue × Sweep) : Type 0 where
  jobs : accounted after.0 + swept before.1 ≡ accounted before.0 + swept after.1
  enqueued : after.0.totals.enqueued ≡ before.0.totals.enqueued

sweep_entry-SweepBalanced :
    (now limit : ℕ) (x : String × ℕ) (acc : Queue × Sweep)
    → SweepBalanced acc (sweep_entry now limit x acc)
unfolding sweep_entry
sweep_entry-SweepBalanced now limit (id, ref) (q, out) =
    if_both (SweepBalanced (q, out)) (is_fresh now limit (q.heap ref).leased_at)
      (record { jobs = omega arith; enqueued = refl })
      (if_both (SweepBalanced (q, out)) (leb (q.heap ref).max_attempts (q.heap ref).attempt)
        (record { jobs = omega (arith, length-snoc {0}); enqueued = refl })
        (record { jobs = omega (arith, length-snoc {0}); enqueued = refl }))

sweep_loop-SweepBalanced :
    (now limit : ℕ) (xs : List (String × ℕ)) (acc : Queue × Sweep)
    → SweepBalanced acc (sweep_loop now limit xs acc)
unfolding sweep_loop
sweep_loop-SweepBalanced now limit [] acc = record { jobs = refl; enqueued = refl }
sweep_loop-SweepBalanced now limit (x ∷ xs) acc =
    let first = sweep_entry-SweepBalanced now limit x acc in
    let rest = sweep_loop-SweepBalanced now limit xs (sweep_entry now limit x acc) in
    record { jobs = omega (arith, first, rest); enqueued = rest.enqueued ∙ first.enqueued }

sort_pending_jobs_totals :
    (q : Queue)
    → (accounted (sort_pending_jobs q) ≡ accounted q)
      × ((sort_pending_jobs q).totals.enqueued ≡ q.totals.enqueued)
unfolding sort_pending_jobs
sort_pending_jobs_totals q = (omega (arith, length-sort_by (due_time q) q.pending), refl)

after_sweep-Balanced :
    (now n : ℕ) (p : Queue) (acc : Queue × Sweep)
    → Balanced p n acc.0
    → Balanced p n (after_sweep now acc)
unfolding after_sweep
after_sweep-Balanced now n p (q, out) b =
    if_both (Balanced p n) (ltb 0 (length out.reclaimed))
      (drain-Balanced now n p (sort_pending_jobs q)
        (record { equation = omega (arith, b.equation, sort_pending_jobs_totals q) }))
      b

abbrev pub revived : Bool → Option DeadLetterJobRecord → ℕ
revived force none = 0
revived force (some d) = if force then 1 else 0

-- Jobs that an event brings back beside those that were counted already.
abbrev pub extra : ℕ → Event → Queue → ℕ
extra now (sweeps limit) q = swept (sweep_stale_leases now limit q).1
extra now (retries id force) q = revived force (get_dead_letter id q)
extra now _ q = 0

sweep_stale_leases-Balanced :
    (now : ℕ) (limit : Option ℕ) (q : Queue)
    → Balanced q (swept (sweep_stale_leases now limit q).1) (sweep_stale_leases now limit q).0
unfolding sweep_stale_leases
sweep_stale_leases-Balanced now limit q =
    let none_yet : Queue × Sweep = (q, record { reclaimed = []; dead_lettered = [] }) in
    let stale = or_default limit q.stale_lease_ms in
    let b = sweep_loop-SweepBalanced now stale q.active none_yet in
    after_sweep-Balanced now (swept (sweep_loop now stale q.active none_yet).1) q
      (sweep_loop now stale q.active none_yet)
      (record { equation = omega (arith, b.jobs, b.enqueued) })

revive-Balanced : (d : DeadLetterJobRecord) (now : ℕ) (q : Queue) → Balanced q 1 (revive d now q).0
unfolding revive push_pending
revive-Balanced d now q =
    drain-Balanced now 1 q _ (record { equation = omega (arith, length-sort_by, length-snoc {0}) })

hurry-Balanced : (now ref : ℕ) (q : Queue) → Balanced q 0 (hurry now ref q).0
unfolding hurry
hurry-Balanced now ref q =
    drain-Balanced now 0 q _ (record { equation = omega (arith, sort_pending_jobs_totals) })

retry_job-Balanced :
    (id : String) (force : Bool) (now : ℕ) (q : Queue)
    → Balanced q (extra now (retries id force) q) (retry_job id force now q).0
unfolding retry_job
retry_job-Balanced id force now q = elim (Option-cases (get_dead_letter id q)) [
  | inr (d, e) ↦ rw (e, retry_job) (forced d force)
  | inl e ↦ elim (Option-cases (find (λ r. same (q.heap r).id id) q.pending)) [
    | inl e' ↦ rw (e, retry_job) (rw (e', retry_job) (Balanced-refl q))
    | inr (ref, e') ↦
        rw (e, retry_job)
          (rw (e', retry_job)
            (if_both (λ (r : Queue × Result QueuedJobReceipt). Balanced q 0 r.0)
              (ltb 0 (q.heap ref).attempt) (hurry-Balanced now ref q) (Balanced-refl q)))
  ]
]
  where
    forced :
        (d : DeadLetterJobRecord) (f : Bool)
        → Balanced q
            (if f then 1 else 0)
            (let r : Queue × Result QueuedJobReceipt =
                if f then revive d now q else (q, err attempts_exhausted) in
              r).0
    forced d true = revive-Balanced d now q
    forced d false = Balanced-refl q

-- An event changes the jobs that are accounted for and the jobs that were enqueued alike, but for
-- those that a sweep takes back or buries and those that a forced retry revives.
step-Balanced :
    (now : ℕ) (e : Event) (q : Queue)
    → accounted (step now e q) + q.totals.enqueued
      ≡ accounted q + (step now e q).totals.enqueued + extra now e q
unfolding step poll stop register_handler
step-Balanced now (enqueues id t payload delay tries) q =
    (enqueue-Balanced id now t payload delay tries q).equation
step-Balanced now starts q = (start-Balanced now q).equation
step-Balanced now stops q = omega arith
step-Balanced now polls q = (drain-Balanced now 0 q q (Balanced-refl q)).equation
step-Balanced now (finishes i o) q = (finish_flight-Balanced now i o q).equation
step-Balanced now (sweeps limit) q = (sweep_stale_leases-Balanced now limit q).equation
step-Balanced now (replays new_id id) q = (replay_dead_letter-Balanced new_id id now q).equation
step-Balanced now (retries id force) q = (retry_job-Balanced id force now q).equation
step-Balanced now (registers t) q = omega arith

abbrev pub extra_of : List (ℕ × Event) → Queue → ℕ
extra_of [] q = 0
extra_of ((now, e) ∷ es) q = extra now e q + extra_of es (step now e q)

pub run_balance :
    (es : List (ℕ × Event)) (q : Queue)
    → accounted (run es q) + q.totals.enqueued
      ≡ accounted q + (run es q).totals.enqueued + extra_of es q
unfolding run
run_balance [] q = omega arith
run_balance ((now, e) ∷ es) q = omega (arith, step-Balanced now e q, run_balance es (step now e q))
