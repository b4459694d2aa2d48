-- ===== src/Jobs/Places.antt =====
-- Where a job of the queue in src/jobs/queue.ts is: each object by itself, and all of them together.
use disciplr_backend.Prelude.{
  ℕ, zero, suc, ◌+◌, ◌≤◌, ◌<◌, ◌==◌, String, Bool, true, false, Option, none, some, List, [], ◌∷◌,
  ◌++◌, ◌≡◌, refl, sym, subst, ◌∙◌, inl, inr, arith, if_both, if◌then◌else◌, length, length-snoc,
  count, count-append, same, find, or_default, Option-cases, leb, ltb, get_elem?,
}
use disciplr_backend.Jobs.Types.{JobType, Job, DeadLetterJobRecord, QueuedJobReceipt}
use disciplr_backend.Jobs.Queue.{
  Queue, Flight, insert_by, sort_by, sort_pending_jobs, push_pending, run_job, take_due, due_time,
  drain_if_running, write, get_retry_delay_ms, move_to_dead_letter, record_completed_job, new_queue,
  register_handler,
}
use disciplr_backend.Jobs.Queue.Drain.{drain_induction, drain_if_running_induction}
use disciplr_backend.Jobs.Operations.{
  Outcome, resolved, rejected, Event, enqueues, starts, stops, polls, finishes, sweeps, replays,
  retries, registers, enqueue, start, stop, poll, settle_job, alloc, new_job, reclaim, died,
  finish_flight, remove_at, Result, drop_letter, after_sweep, Sweep, is_fresh, sweep_entry,
  sweep_loop, sweep_stale_leases, replay_dead_letter, retry_job, get_dead_letter, revive, hurry,
  step, run,
}
use disciplr_backend.Jobs.Balance.{accounted, swept, extra, extra_of, run_balance}

abbrev pub is_ref : ℕ → ℕ → Bool
is_ref r x = x == r

abbrev pub flies : ℕ → Flight → Bool
flies r f = f.ref == r

-- In how many places of the queue an object is: pending or in flight.
abbrev pub places : ℕ → Queue → ℕ
places r q = count (is_ref r) q.pending + count (flies r) q.flights

count-insert_by :
    (p : ℕ → Bool) (key : ℕ → ℕ) (r : ℕ) (xs : List ℕ)
    → count p (insert_by key r xs) ≡ count p (r ∷ xs)
unfolding insert_by
count-insert_by p key r [] = refl
count-insert_by p key r (x ∷ xs) = ground (arith, count-insert_by p key r xs)

count-sort_by : (p : ℕ → Bool) (key : ℕ → ℕ) (xs : List ℕ) → count p (sort_by key xs) ≡ count p xs
unfolding sort_by
count-sort_by p key [] = refl
count-sort_by p key (x ∷ xs) =
    ground (arith, count-insert_by p key x (sort_by key xs), count-sort_by p key xs)

count-take_due :
    (p : ℕ → Bool) (key : ℕ → ℕ) (now : ℕ) (xs : List ℕ) {r : ℕ} {rest : List ℕ}
    → take_due key now xs ≡ some (r, rest)
    → count p xs ≡ count p (r ∷ rest)
unfolding take_due
count-take_due p key now [] h = cc
count-take_due p key now (x ∷ xs) {r} {rest} h = elim (Option-cases (take_due key now xs)) [
  | inl e ↦ ground arith
  | inr ((s, ys), e) ↦ ground (arith, count-take_due p key now xs {r = s} {rest = ys} e)
]

count-remove_at :
    (p : Flight → Bool) (i : ℕ) (fs : List Flight) {f : Flight}
    → get_elem? fs i ≡ some f
    → count p fs ≡ count p (f ∷ remove_at i fs)
unfolding remove_at
count-remove_at p i [] h = cc
count-remove_at p zero (x ∷ fs) {f} h = ground arith
count-remove_at p (suc i) (x ∷ fs) {f} h = ground (arith, count-remove_at p i fs {f = f} h)

-- An object that was made is in one place at most, and in none before; `n` is what sweeps and forced
-- retries add.
record Fits (r n : ℕ) (q : Queue) : Type 0 where
  fits : places r q ≤ n + (if ltb r q.next_ref then 1 else 0)

-- The second queue has made as many objects, and has this one in no more places, but for `n`.
record Holds (r n : ℕ) (before after : Queue) : Type 0 where
  held : places r after ≤ places r before + n
  made : after.next_ref ≡ before.next_ref

Holds-Fits : (r n k : ℕ) (p q : Queue) → Holds r k p q → Fits r n p → Fits r (k + n) q
Holds-Fits r n k p q h f = record {
  fits =
      subst (λ m. places r q ≤ k + n + (if ltb r m then 1 else 0)) (sym h.made)
        (omega (arith, h.held, f.fits));
}

Fits-more : (r n k : ℕ) (q : Queue) → Fits r n q → Fits r (k + n) q
Fits-more r n k q f = record { fits = omega (arith, f.fits) }

Holds-keeps : (r n : ℕ) (p q : Queue) → Holds r 0 p q → Fits r n p → Fits r n q
Holds-keeps r n p q h f = record { fits = omega (arith, (Holds-Fits r n 0 p q h f).fits) }

count-snoc_le {ℓ} :
    {A : Type ℓ} (p : A → Bool) (xs : List A) (x : A) → count p (xs ++ x ∷ []) ≤ suc (count p xs)
count-snoc_le p [] x = ground arith
count-snoc_le p (y ∷ xs) x = ground (arith, count-snoc_le p xs x)

run_job-Holds :
    (r now ref : ℕ) (rest : List ℕ) (q : Queue)
    → count (is_ref r) q.pending ≡ count (is_ref r) (ref ∷ rest)
    → Holds r 0 q (run_job now ref (record q { pending = rest }))
unfolding run_job
run_job-Holds r now ref rest q h =
    if_both (Holds r 0 q) (q.handlers (q.heap ref).type)
      (record {
        held = ground (
          arith,
          h,
          count-append (flies r) q.flights (record { ref = ref; started_at = now } ∷ []),
        );
        made = refl;
      })
      (record { held = ground (arith, h); made = refl })

Holds-round :
    (r n now : ℕ) (p q : Queue) (ref : ℕ) (rest : List ℕ)
    → Holds r n p q
    → length q.active < q.concurrency
    → take_due (due_time q) now q.pending ≡ some (ref, rest)
    → Holds r n p (run_job now ref (record q { pending = rest }))
Holds-round r n now p q ref rest h room e =
    let one =
      run_job-Holds r now ref rest q
        (count-take_due (is_ref r) (due_time q) now q.pending {r = ref} {rest = rest} e) in
    record { held = omega (arith, h.held, one.held); made = one.made ∙ h.made }

drain-Holds : (r n now : ℕ) (p q : Queue) → Holds r n p q → Holds r n p (drain_if_running now q)
drain-Holds r n now p q h = drain_if_running_induction (Holds r n p) now (Holds-round r n now p) q h

push_pending-places :
    (r ref : ℕ) (q : Queue)
    → places r (push_pending ref q) ≡ places r q + (if ref == r then 1 else 0)
unfolding push_pending sort_pending_jobs
push_pending-places r ref q =
    let queue : Queue = record q { pending = q.pending ++ ref ∷ [] } in
    ground (
      arith,
      count-sort_by (is_ref r) (due_time queue) (q.pending ++ ref ∷ []),
      count-append (is_ref r) q.pending (ref ∷ []),
    )

settle_job-places :
    (r now : ℕ) (f : Flight) (o : Outcome) (q : Queue)
    → (places r (settle_job now f o q) ≤ places r q + (if f.ref == r then 1 else 0))
      × ((settle_job now f o q).next_ref ≡ q.next_ref)
unfolding settle_job record_completed_job move_to_dead_letter write push_pending sort_pending_jobs
settle_job-places r now f resolved q = (omega arith, refl)
settle_job-places r now f (rejected m true) q = (omega arith, refl)
settle_job-places r now f (rejected m false) q =
    let job = q.heap f.ref in
    let again : Queue =
      write f.ref (record job { run_at = now + get_retry_delay_ms job.attempt })
        (record q { totals = record q.totals { retried = q.totals.retried + 1 } }) in
    if_both
      (λ (x : Queue).
        (places r x ≤ places r q + (if f.ref == r then 1 else 0)) × (x.next_ref ≡ q.next_ref))
      (ltb job.attempt job.max_attempts) (omega (arith, push_pending-places r f.ref again), refl)
      (omega arith, refl)

finish_flight-Holds :
    (r now i : ℕ) (o : Outcome) (q : Queue) → Holds r 0 q (finish_flight now i o q)
unfolding finish_flight
finish_flight-Holds r now i o q = elim (Option-cases (get_elem? q.flights i)) [
  | inl e ↦ rw (e, finish_flight) (record { held = omega arith; made = refl })
  | inr (f, e) ↦
      let q' : Queue = record q { flights = remove_at i q.flights } in
      let settled = settle_job-places r now f o q' in
      rw (e, finish_flight)
        (drain-Holds r 0 now q _ (record {
          held = ground (arith, settled.0, count-remove_at (flies r) i q.flights {f = f} e);
          made = settled.1;
        }))
]

sort_pending_jobs-places : (r : ℕ) (q : Queue) → places r (sort_pending_jobs q) ≡ places r q
unfolding sort_pending_jobs
sort_pending_jobs-places r q = ground (arith, count-sort_by (is_ref r) (due_time q) q.pending)

-- A new object that is pushed is in the one place that this gives it.
push_new-Fits :
    (r n : ℕ) (job : Job) (q : Queue)
    → Fits r n q
    → Fits r n (push_pending q.next_ref (alloc job q))
unfolding alloc write push_pending sort_pending_jobs
push_new-Fits r n job q h = record {
  fits = ground (arith, h.fits, push_pending-places r q.next_ref (alloc job q));
}

Fits-drained : (r n now : ℕ) (q : Queue) → Fits r n q → Fits r n (drain_if_running now q)
Fits-drained r n now q h =
    Holds-keeps r n q (drain_if_running now q)
      (drain-Holds r 0 now q q (record { held = omega arith; made = refl })) h

enqueue-Fits :
    (r n : ℕ) (id : String) (now : ℕ) (t : JobType) (payload : String) (delay tries : Option ℕ)
    (q : Queue)
    → Fits r n q
    → Fits r n (enqueue id now t payload delay tries q).0
unfolding enqueue
enqueue-Fits r n id now t payload delay tries q h =
    if_both (λ (x : Queue × Result QueuedJobReceipt). Fits r n x.0) (q.handlers t)
      (Fits-drained r n now _
        (record { fits = (push_new-Fits r n (new_job id now t payload delay tries) q h).fits }))
      h

start-Fits : (r n now : ℕ) (q : Queue) → Fits r n q → Fits r n (start now q)
unfolding start
start-Fits r n now q h = if_both (Fits r n) q.running h (
    Holds-keeps r n q _
      (drain_induction (Holds r 0 q) now (Holds-round r 0 now q)
        (record q { running = true; started_at = some now })
        (record { held = omega arith; made = refl }))
      h)

replay_dead_letter-Fits :
    (r n : ℕ) (new_id id : String) (now : ℕ) (q : Queue)
    → Fits r n q
    → Fits r n (replay_dead_letter new_id id now q).0
unfolding replay_dead_letter
replay_dead_letter-Fits r n new_id id now q h = elim (Option-cases (get_dead_letter id q)) [
  | inl e ↦ rw (e, replay_dead_letter) h
  | inr (d, e) ↦
      rw (e, replay_dead_letter)
        (enqueue-Fits r n new_id now d.type d.payload none (some d.max_attempts)
          (record q { dead_letters = drop_letter id q.dead_letters }) (record { fits = h.fits }))
]

-- A sweep adds no more places than it counts.
record SweepHolds (r : ℕ) (before after : Queue × Sweep) : Type 0 where
  held : places r after.0 + swept before.1 ≤ places r before.0 + swept after.1
  made : after.0.next_ref ≡ before.0.next_ref

sweep_entry-SweepHolds :
    (r now limit : ℕ) (x : String × ℕ) (acc : Queue × Sweep)
    → SweepHolds r acc (sweep_entry now limit x acc)
unfolding sweep_entry move_to_dead_letter reclaim write died
sweep_entry-SweepHolds r now limit (id, ref) (q, out) =
    let job = q.heap ref in
    if_both (SweepHolds r (q, out)) (is_fresh now limit job.leased_at)
      (record { held = omega arith; made = refl })
      (if_both (SweepHolds r (q, out)) (leb job.max_attempts job.attempt)
        (record { held = omega (arith, length-snoc {0}); made = refl })
        (record {
          held = omega (arith, length-snoc {0}, count-snoc_le (is_ref r) q.pending ref);
          made = refl;
        }))

sweep_loop-SweepHolds :
    (r now limit : ℕ) (xs : List (String × ℕ)) (acc : Queue × Sweep)
    → SweepHolds r acc (sweep_loop now limit xs acc)
unfolding sweep_loop
sweep_loop-SweepHolds r now limit [] acc = record { held = omega arith; made = refl }
sweep_loop-SweepHolds r now limit (x ∷ xs) acc =
    let first = sweep_entry-SweepHolds r now limit x acc in
    let rest = sweep_loop-SweepHolds r now limit xs (sweep_entry now limit x acc) in
    record { held = omega (arith, first.held, rest.held); made = rest.made ∙ first.made }

after_sweep-Holds :
    (r n now : ℕ) (p : Queue) (acc : Queue × Sweep)
    → Holds r n p acc.0
    → Holds r n p (after_sweep now acc)
unfolding after_sweep sort_pending_jobs
after_sweep-Holds r n now p (q, out) h =
    if_both (Holds r n p) (ltb 0 (length out.reclaimed))
      (drain-Holds r n now p (sort_pending_jobs q)
        (record { held = omega (arith, sort_pending_jobs-places r q, h.held); made = h.made }))
      h

sweep_stale_leases-Holds :
    (r now : ℕ) (limit : Option ℕ) (q : Queue)
    → Holds r (swept (sweep_stale_leases now limit q).1) q (sweep_stale_leases now limit q).0
unfolding sweep_stale_leases
sweep_stale_leases-Holds r now limit q =
    let none_yet : Queue × Sweep = (q, record { reclaimed = []; dead_lettered = [] }) in
    let stale = or_default limit q.stale_lease_ms in
    let b = sweep_loop-SweepHolds r now stale q.active none_yet in
    after_sweep-Holds r (swept (sweep_loop now stale q.active none_yet).1) now q
      (sweep_loop now stale q.active none_yet)
      (record { held = omega (arith, b.held); made = b.made })

revive-Fits :
    (r n : ℕ) (d : DeadLetterJobRecord) (now : ℕ) (q : Queue)
    → Fits r n q
    → Fits r n (revive d now q).0
unfolding revive
revive-Fits r n d now q h = Fits-drained r n now _ (
    push_new-Fits r n _ (record q { dead_letters = drop_letter d.job_id q.dead_letters })
      (record { fits = h.fits }))

hurry-Holds : (r now ref : ℕ) (q : Queue) → Holds r 0 q (hurry now ref q).0
unfolding hurry write
hurry-Holds r now ref q =
    let written : Queue = write ref (record (q.heap ref) { run_at = now }) q in
    drain-Holds r 0 now q (sort_pending_jobs written)
      (record { held = omega (arith, sort_pending_jobs-places r written); made = refl })

retry_job-Fits :
    (r n : ℕ) (id : String) (force : Bool) (now : ℕ) (q : Queue)
    → Fits r n q
    → Fits r n (retry_job id force now q).0
unfolding retry_job
retry_job-Fits r n id force now q h = elim (Option-cases (get_dead_letter id q)) [
  | inr (d, e) ↦
      rw (e, retry_job)
        (if_both (λ (x : Queue × Result QueuedJobReceipt). Fits r n x.0) force
          (revive-Fits r n d now q h) h)
  | inl e ↦ elim (Option-cases (find (λ x. same (q.heap x).id id) q.pending)) [
    | inl e' ↦ rw (e, retry_job) (rw (e', retry_job) h)
    | inr (ref, e') ↦
        rw (e, retry_job)
          (rw (e', retry_job)
            (if_both (λ (x : Queue × Result QueuedJobReceipt). Fits r n x.0)
              (ltb 0 (q.heap ref).attempt) (Holds-keeps r n q _ (hurry-Holds r now ref q) h) h))
  ]
]

step-Fits :
    (r n now : ℕ) (e : Event) (q : Queue) → Fits r n q → Fits r (extra now e q + n) (step now e q)
unfolding step poll stop register_handler
step-Fits r n now (enqueues id t payload delay tries) q h =
    Fits-more r n 0 _ (enqueue-Fits r n id now t payload delay tries q h)
step-Fits r n now starts q h = Fits-more r n 0 _ (start-Fits r n now q h)
step-Fits r n now stops q h = Fits-more r n 0 _ (record { fits = h.fits })
step-Fits r n now polls q h = Fits-more r n 0 _ (Fits-drained r n now q h)
step-Fits r n now (finishes i o) q h =
    Holds-Fits r n 0 q (finish_flight now i o q) (finish_flight-Holds r now i o q) h
step-Fits r n now (sweeps limit) q h =
    Holds-Fits r n (swept (sweep_stale_leases now limit q).1) q _
      (sweep_stale_leases-Holds r now limit q) h
step-Fits r n now (replays new_id id) q h =
    Fits-more r n 0 _ (replay_dead_letter-Fits r n new_id id now q h)
step-Fits r n now (retries id force) q h =
    Fits-more r n (extra now (retries id force) q) _ (retry_job-Fits r n id force now q h)
step-Fits r n now (registers t) q h = Fits-more r n 0 _ (record { fits = h.fits })

run-Fits :
    (r n : ℕ) (es : List (ℕ × Event)) (q : Queue)
    → Fits r n q
    → Fits r (extra_of es q + n) (run es q)
unfolding run
run-Fits r n [] q h = Fits-more r n 0 q h
run-Fits r n ((now, e) ∷ es) q h = record {
  fits =
      omega
        (arith, (run-Fits r (extra now e q + n) es (step now e q) (step-Fits r n now e q h)).fits);
}

-- After any history of a new queue the jobs that are pending and in flight, and the numbers of those
-- that completed, died or were lost to a rejected promise, add up to the number of enqueued jobs and
-- of the jobs that sweeps took back or buried and that forced retries revived. And each job object is
-- pending or in flight in one place at most, but for as many more as those sweeps and retries: without
-- them no job is in the queue twice, and none is there before it was made.
pub run-new_queue_balance :
    (blank : Job) (concurrency poll_ms history stale : Option ℕ) (es : List (ℕ × Event))
    → let q = new_queue blank concurrency poll_ms history stale in
      (accounted (run es q) ≡ (run es q).totals.enqueued + extra_of es q)
      × ((ref : ℕ)
          → places ref (run es q) ≤ extra_of es q + (if ltb ref (run es q).next_ref then 1 else 0))
unfolding new_queue
run-new_queue_balance blank concurrency poll_ms history stale es =
    let q = new_queue blank concurrency poll_ms history stale in
    (
      omega (arith, run_balance es q),
      (λ ref. omega (arith, (run-Fits ref 0 es q (record { fits = omega arith })).fits)),
    )
