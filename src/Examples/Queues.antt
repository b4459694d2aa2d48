-- ===== src/Examples/Queues.antt =====
-- Job queues with concrete events, run through the model of src/jobs/queue.ts.
use disciplr_backend.Prelude.{
  false, if◌then◌else◌, ltb, ◌≤◌, ℕ, ◌+◌, true, none, some, List, [], ◌∷◌, ◌≡◌, refl, arith,
}
use disciplr_backend.Jobs.Types.{Job, notification_send, export_generate}
use disciplr_backend.Jobs.Queue.{
  Queue, Flight, new_queue, take_due, due_time, drain, get_retry_delay_ms,
}
use disciplr_backend.Jobs.Queue.Drain.{IsDrained, drain-IsDrained}
use disciplr_backend.Jobs.Operations.{
  Event, registers, enqueues, starts, stops, finishes, sweeps, retries, resolved, rejected, step,
  run, finish_flight, Sweep, is_fresh, sweep_entry,
}
use disciplr_backend.Jobs.Balance.{accounted, extra_of}
use disciplr_backend.Jobs.Places.{places, run-new_queue_balance}
use disciplr_backend.Jobs.Limits.{WithinLimit, run-new_queue-WithinLimit}
use disciplr_backend.Jobs.Order.{IsOrdered, run-new_queue-IsOrdered}
use disciplr_backend.Jobs.Retries.{holds, finish_flight-retry_waits}

abbrev blank : Job
blank = record {
  id = "";
  type = notification_send;
  payload = "";
  attempt = 0;
  max_attempts = 1;
  created_at = 0;
  run_at = 0;
  leased_at = none;
}

abbrev fresh : Queue
fresh = new_queue blank (some 1) none none none

-- Two exports, the second due at once and the first a second later; one slot to run them.
abbrev day : List (ℕ × Event)
day =
    (0, registers export_generate)
    ∷ (1, enqueues "a" export_generate "{}" (some 1_000) none)
    ∷ (2, enqueues "b" export_generate "{}" none (some 2))
    ∷ (3, starts)
    ∷ (400_000, sweeps none)
    ∷ []

abbrev busy : Queue
busy =
    run
      ((0, registers export_generate)
        ∷ (2, enqueues "b" export_generate "{}" none (some 2))
        ∷ (3, starts)
        ∷ [])
      fresh

run-new_queue_balance_example :
    (accounted (run day fresh) ≡ (run day fresh).totals.enqueued + extra_of day fresh)
    × ((ref : ℕ)
        → places ref (run day fresh)
          ≤ extra_of day fresh + (if ltb ref (run day fresh).next_ref then 1 else 0))
run-new_queue_balance_example = run-new_queue_balance blank (some 1) none none none day

run-new_queue-WithinLimit_example : WithinLimit (run day fresh)
run-new_queue-WithinLimit_example = run-new_queue-WithinLimit blank (some 1) none none none day

abbrev quiet : List (ℕ × Event)
quiet =
    (0, registers export_generate)
    ∷ (1, enqueues "a" export_generate "{}" (some 1_000) none)
    ∷ (2, enqueues "b" export_generate "{}" none (some 2))
    ∷ []

run-new_queue-IsOrdered_example :
    IsOrdered (run quiet fresh) × ((run quiet fresh).pending ≡ 1 ∷ 0 ∷ [])
unfolding take_due run step disciplr_backend.Jobs.Operations.enqueue
    disciplr_backend.Jobs.Queue.register_handler disciplr_backend.Jobs.Queue.drain_if_running
    new_queue disciplr_backend.Jobs.Queue.sort_by
run-new_queue-IsOrdered_example =
    run-new_queue-IsOrdered blank (some 1) none none none quiet 5 {r = 1} {rest = 0 ∷ []} refl

drain-IsDrained_example : IsDrained 5 (drain 5 busy)
drain-IsDrained_example = drain-IsDrained 5 busy

finish_flight-retry_waits_example :
    (((finish_flight 10 0 (rejected "down" false) busy).heap 0).run_at
      ≡ 10 + get_retry_delay_ms (busy.heap 0).attempt)
    × (holds 0 (finish_flight 10 0 (rejected "down" false) busy).pending ≡ true)
unfolding run step disciplr_backend.Jobs.Operations.start disciplr_backend.Jobs.Operations.enqueue
    disciplr_backend.Jobs.Queue.register_handler disciplr_backend.Jobs.Queue.drain_if_running
    new_queue drain disciplr_backend.Jobs.Queue.sort_by disciplr_backend.Jobs.Queue.run_job
finish_flight-retry_waits_example =
    finish_flight-retry_waits 10 0 "down" busy {f = record { ref = 0; started_at = 3 }} refl
      (omega arith)

-- A sweep starts a job again whose first handler still runs.
swept_twice : places 1 (run day fresh) ≡ 2
unfolding run step disciplr_backend.Jobs.Operations.sweep_stale_leases
    disciplr_backend.Jobs.Operations.start disciplr_backend.Jobs.Operations.enqueue
    disciplr_backend.Jobs.Queue.register_handler disciplr_backend.Jobs.Queue.drain_if_running
    new_queue drain disciplr_backend.Jobs.Queue.sort_by disciplr_backend.Jobs.Queue.run_job
    disciplr_backend.Jobs.Queue.map_delete
swept_twice = refl
