-- ===== src/Exports/Runs.antt =====
-- Sequences of calls of src/services/exportQueue.ts.
use disciplr_backend.Prelude.{
  ℕ, zero, suc, ◌≤◌, ◌<◌, String, Bool, true, false, not, Option, none, some, List, [], ◌∷◌, ◌≡◌,
  refl, ap, arith, ltb, length, find, length-snoc, lookup, put, Dict, put-put, AllValues,
  put-AllValues, lookup-AllValues, Option-cases, inl, inr, if_both,
}
use disciplr_backend.Exports.{
  ExportJob, pending, running, done, failed, is_done, DlqEntry, FailureReason, DlqEvent,
  entry_added, entry_requeued, entry_discarded, dlq_cleared,
}
use disciplr_backend.Exports.Repository.{Repository, created_job, create, get, update}
use disciplr_backend.Exports.DeadLetters.{
  Dlq, shift_while_full, dlq_insert, splice_first, dlq_remove, invoke_metrics_hook, requeued,
  requeue_dlq_entry, discard_dlq_entry, clear_dlq, is_entry_of,
}
use disciplr_backend.Exports.Data.{Row}
use disciplr_backend.Exports.Jobs.{
  State, EnqueueInput, Hash, World, Work, produced, broke, enqueue_export_job, create_and_submit,
  new_job, attempts_allowed, find_existing, process_job, run_job, finish, work, done_job,
  failed_job, running_job, bury, dead_letter, export_pii_values, recover_pending_export_jobs,
}

-- The calls that the program makes while the size of the dead-letter queue stays configured.
pub data Call : Type 0 where
  enqueues : Hash → EnqueueInput → (id now : String) → Call
  processes : World → (job_id : String) → Option (List Row) → Option ℕ → Call
  requeues discards : (job_id now : String) → Call
  clears : (now : String) → Call
  recovers : Call

unfoldable pub step : Call → State → State
step (enqueues hash input id now) s = (enqueue_export_job hash input id now s).0
step (processes w job_id store attempt) s = (process_job w job_id store attempt s).0
step (requeues job_id now) s =
    let r = (requeue_dlq_entry job_id now (s.repository, s.dlq)).0 in
    record s { repository = r.0; dlq = r.1 }
step (discards job_id now) s = record s { dlq = (discard_dlq_entry job_id now s.dlq).0 }
step (clears now) s = record s { dlq = (clear_dlq now s.dlq).0 }
step recovers s = (recover_pending_export_jobs s).0

unfoldable pub run : List Call → State → State
run [] s = s
run (c ∷ cs) s = run cs (step c s)

-- A job is over, or it waits with attempts left, so that a restart finds it.
abbrev pub is_accounted_for : ExportJob → Bool
is_accounted_for job = elim job.status [
  | pending ↦ ltb job.attempts job.max_attempts
  | running ↦ false
  | done ↦ true
  | failed ↦ true
]

pub record IsAccountedFor (job : ExportJob) : Type 0 where
  pub over_or_waits : is_accounted_for job ≡ true
  pub allowed : 1 ≤ job.max_attempts

pub record IsSound (s : State) : Type 0 where
  pub jobs : AllValues IsAccountedFor s.repository.jobs
  pub some_room : 1 ≤ s.dlq.max_size
  pub bounded : length s.dlq.entries ≤ s.dlq.max_size

-- The loop leaves room for one entry.
length-shift_while_full :
    (fuel m : ℕ) (es : List DlqEntry)
    → 1 ≤ m
    → length es ≤ fuel
    → length (shift_while_full fuel m es) < m
unfolding shift_while_full
length-shift_while_full zero m es some_room enough = omega arith
length-shift_while_full (suc fuel) m [] some_room enough = omega arith
length-shift_while_full (suc fuel) m (e ∷ es) some_room enough =
    ground (arith, length-shift_while_full fuel m es)

length-dlq_insert :
    (entry : DlqEntry) (q : Dlq) → 1 ≤ q.max_size → length (dlq_insert entry q).entries ≤ q.max_size
unfolding dlq_insert
length-dlq_insert entry q some_room = omega (
  arith,
  length-shift_while_full (length q.entries) q.max_size q.entries some_room (omega arith),
  length-snoc (shift_while_full (length q.entries) q.max_size q.entries) entry,
)

length-splice_first :
    (job_id : String) (es : List DlqEntry) → length (splice_first job_id es) ≤ length es
length-splice_first job_id [] = omega arith
length-splice_first job_id (e ∷ es) = ground (arith, length-splice_first job_id es)

invoke_metrics_hook-rest :
    (event : DlqEvent) (job_id : String) (reason : Option FailureReason) (now : String) (q : Dlq)
    → ((invoke_metrics_hook event job_id reason now q).entries ≡ q.entries)
      × ((invoke_metrics_hook event job_id reason now q).max_size ≡ q.max_size)
unfolding invoke_metrics_hook
invoke_metrics_hook-rest event job_id reason now q =
    if_both (λ (r : Dlq). (r.entries ≡ q.entries) × (r.max_size ≡ q.max_size)) (not q.has_hook)
      (refl, refl) (refl, refl)

created_job-IsAccountedFor :
    (hash : Hash) (input : EnqueueInput) (id now : String)
    → IsAccountedFor (created_job (new_job hash input) id now)
unfolding created_job new_job attempts_allowed
created_job-IsAccountedFor hash input id now = record {
  over_or_waits = ground arith;
  allowed = omega arith;
}

enqueue_export_job-IsSound :
    (hash : Hash) (input : EnqueueInput) (id now : String) (s : State)
    → IsSound s
    → IsSound (enqueue_export_job hash input id now s).0
unfolding enqueue_export_job create_and_submit create
enqueue_export_job-IsSound hash input id now s w =
    elim (Option-cases (find_existing input s.repository)) [
      | inr (job, e) ↦ rw (e, enqueue_export_job) w
      | inl e ↦
          rw (e, enqueue_export_job)
            (record {
              jobs =
                  put-AllValues IsAccountedFor id _ s.repository.jobs
                    (created_job-IsAccountedFor hash input id now) w.jobs;
              some_room = w.some_room;
              bounded = w.bounded;
            })
    ]

failed_job-IsAccountedFor :
    (w : World) (attempt : ℕ) (message : String) (job : ExportJob)
    → 1 ≤ job.max_attempts
    → IsAccountedFor (failed_job w attempt message job)
unfolding failed_job
failed_job-IsAccountedFor w attempt message job allowed = record {
  over_or_waits = retry_or_over (ltb attempt job.max_attempts) refl;
  allowed = allowed;
}
  where
    retry_or_over :
        (b : Bool)
        → ltb attempt job.max_attempts ≡ b
        → is_accounted_for (failed_job w attempt message job) ≡ true
    retry_or_over true e = rw (e) (ground (arith, e))
    retry_or_over false e = rw (e) refl

bury-bounded :
    (w : World) (attempt : ℕ) (reason : FailureReason) (message : String) (job : ExportJob)
    (q : Dlq)
    → 1 ≤ q.max_size
    → length q.entries ≤ q.max_size
    → ((bury w attempt reason message job q).max_size ≡ q.max_size)
      × (length (bury w attempt reason message job q).entries ≤ q.max_size)
unfolding bury dlq_insert
bury-bounded w attempt reason message job q some_room bounded =
    if_both (λ (r : Dlq). (r.max_size ≡ q.max_size) × (length r.entries ≤ q.max_size))
      (ltb attempt job.max_attempts) (refl, bounded)
      (let (kept, size) =
          invoke_metrics_hook-rest entry_added job.id (some reason) w.now
            (dlq_insert (dead_letter w attempt reason message job) q) in
        (
          size,
          omega (
            arith,
            ap length kept,
            length-dlq_insert (dead_letter w attempt reason message job) q some_room,
          ),
        ))

put_twice :
    (k : String) (old new : ExportJob) (m : Dict ExportJob)
    → IsAccountedFor new
    → AllValues IsAccountedFor m
    → AllValues IsAccountedFor (put k new (put k old m))
put_twice k old new m h all = rw (put-put k old new m) (put-AllValues IsAccountedFor k new m h all)

finish-IsSound :
    (w : World) (attempt : ℕ) (job : ExportJob) (x : Work) (s : State)
    → 1 ≤ job.max_attempts
    → IsSound s
    → IsSound
        (finish w attempt job x
          (record s { repository = update (running_job attempt job) s.repository })).0
unfolding finish update running_job done_job failed_job
finish-IsSound w attempt job (produced buffer filename s3_key) s allowed sound = record {
  jobs =
      put_twice job.id (running_job attempt job) _ s.repository.jobs
        (record { over_or_waits = refl; allowed = allowed }) sound.jobs;
  some_room = sound.some_room;
  bounded = sound.bounded;
}
finish-IsSound w attempt job (broke reason thrown) s allowed sound =
    let (room, bounded) =
      bury-bounded w attempt reason (w.sanitize_string thrown (export_pii_values job)) job s.dlq
        sound.some_room sound.bounded in
    record {
      jobs =
          put_twice job.id (running_job attempt job) _ s.repository.jobs
            (failed_job-IsAccountedFor w attempt (w.sanitize_string thrown (export_pii_values job))
              job allowed)
            sound.jobs;
      some_room = omega (arith, room, sound.some_room);
      bounded = omega (arith, room, bounded);
    }

process_job-IsSound :
    (w : World) (job_id : String) (store : Option (List Row)) (attempt : Option ℕ) (s : State)
    → IsSound s
    → IsSound (process_job w job_id store attempt s).0
unfolding process_job run_job get
process_job-IsSound w job_id store attempt s sound =
    elim (Option-cases (lookup job_id s.repository.jobs)) [
      | inl e ↦ rw (e, process_job) sound
      | inr (job, e) ↦
          rw (e, process_job)
            (if_both (λ (r : State × Option String). IsSound r.0) (is_done job.status) sound
              (finish-IsSound w _ job (work w store job) s
                (lookup-AllValues IsAccountedFor job_id s.repository.jobs e sound.jobs).allowed
                sound))
    ]

dlq_remove-shorter :
    (job_id : String) (q : Dlq) → length (dlq_remove job_id q).0.entries ≤ length q.entries
unfolding dlq_remove
dlq_remove-shorter job_id q = length-splice_first job_id q.entries

-- A queue that is no longer than another one of the same size.
shorter_queue :
    (s : State) (r : Repository) (q : Dlq) (event : DlqEvent) (job_id now : String)
    → IsSound s
    → AllValues IsAccountedFor r.jobs
    → q.max_size ≡ s.dlq.max_size
    → length q.entries ≤ length s.dlq.entries
    → IsSound (record s { repository = r; dlq = invoke_metrics_hook event job_id none now q })
shorter_queue s r q event job_id now sound jobs same_size shorter =
    let (kept, size) = invoke_metrics_hook-rest event job_id none now q in
    record {
      jobs = jobs;
      some_room = omega (arith, size, same_size, sound.some_room);
      bounded = omega (arith, ap length kept, size, same_size, shorter, sound.bounded);
    }

requeued-IsAccountedFor : (job : ExportJob) → IsAccountedFor job → IsAccountedFor (requeued job)
unfolding requeued
requeued-IsAccountedFor job h = record {
  over_or_waits = ground (arith, h.allowed);
  allowed = h.allowed;
}

step-IsSound : (c : Call) (s : State) → IsSound s → IsSound (step c s)
unfolding step requeue_dlq_entry discard_dlq_entry clear_dlq recover_pending_export_jobs dlq_remove
    update get
step-IsSound (enqueues hash input id now) s w = enqueue_export_job-IsSound hash input id now s w
step-IsSound (processes world job_id store attempt) s w =
    process_job-IsSound world job_id store attempt s w
step-IsSound (requeues job_id now) s w =
    elim (Option-cases (find (is_entry_of job_id) s.dlq.entries)) [
      | inl e ↦ rw (e, requeue_dlq_entry) w
      | inr (entry, e) ↦ elim (Option-cases (lookup job_id s.repository.jobs)) [
        | inl f ↦
            rw (e, requeue_dlq_entry, f)
              (record {
                jobs = w.jobs;
                some_room = w.some_room;
                bounded = omega (arith, dlq_remove-shorter job_id s.dlq, w.bounded);
              })
        | inr (job, f) ↦
            rw (e, requeue_dlq_entry, f)
              (shorter_queue s _ _ entry_requeued job_id now w
                (put-AllValues IsAccountedFor _ (requeued job) s.repository.jobs
                  (requeued-IsAccountedFor job
                    (lookup-AllValues IsAccountedFor job_id s.repository.jobs f w.jobs))
                  w.jobs)
                refl (dlq_remove-shorter job_id s.dlq))
      ]
    ]
step-IsSound (discards job_id now) s w =
    elim (Option-cases (find (is_entry_of job_id) s.dlq.entries)) [
      | inl e ↦ rw (e, discard_dlq_entry) w
      | inr (entry, e) ↦
          rw (e, discard_dlq_entry)
            (shorter_queue s s.repository _ entry_discarded job_id now w w.jobs refl
              (dlq_remove-shorter job_id s.dlq))
    ]
step-IsSound (clears now) s w =
    shorter_queue s s.repository _ dlq_cleared "" now w w.jobs refl (omega arith)
step-IsSound recovers s w = record { jobs = w.jobs; some_room = w.some_room; bounded = w.bounded }

-- From a state in which every job is done, failed, or pending with attempts left, and the dead-letter
-- queue is within its size of at least one, every sequence of calls ends in such a state.
pub run-IsSound : (cs : List Call) (s : State) → IsSound s → IsSound (run cs s)
unfolding run
run-IsSound [] s w = w
run-IsSound (c ∷ cs) s w = run-IsSound cs (step c s) (step-IsSound c s w)
