-- ===== src/Jobs/Metrics.antt =====
-- `getMetrics` and `getQueueDepthReport` of src/jobs/queue.ts.
pub mod Totals
use disciplr_backend.Prelude.{
  ℕ, suc, ◌+◌, ◌-◌, String, Bool, true, false, ◌&&◌, not, Option, none, some, List, [], ◌∷◌, ltb,
  leb, if◌then◌else◌, count, length, or_default, take,
}
use disciplr_backend.Jobs.Types.{
  JobType, job_types, same_type, Job, CompletedJobRecord, FailedJobRecord, DeadLetterJobRecord,
  QueueTotals,
}
use disciplr_backend.Jobs.Queue.{Queue}
use disciplr_backend.Jobs.Operations.{is_fresh}

pub record QueueTypeMetrics : Type 0 where
  pub queued : ℕ
  pub delayed : ℕ
  pub active : ℕ
  pub completed : ℕ
  pub failed : ℕ
  pub dead_letter : ℕ

pub record QueueDepthByState : Type 0 where
  pub queued : ℕ
  pub delayed : ℕ
  pub active : ℕ
  pub stuck_active : ℕ
  pub dead_letter : ℕ

abbrev pub is_due : ℕ → Job → Bool
is_due now job = leb job.run_at now

-- The counters that the loops over the pending jobs leave in `byType[t]`.
unfoldable pub queued_of : ℕ → Queue → JobType → ℕ
queued_of now q t = count (λ r. same_type (q.heap r).type t && is_due now (q.heap r)) q.pending

unfoldable pub delayed_of : ℕ → Queue → JobType → ℕ
delayed_of now q t =
    count (λ r. same_type (q.heap r).type t && not (is_due now (q.heap r))) q.pending

unfoldable pub active_of : Queue → JobType → ℕ
active_of q t = count (λ x. same_type (q.heap x.1).type t) q.active

unfoldable pub dead_letter_of : Queue → JobType → ℕ
dead_letter_of q t = count (λ d. same_type d.type t) q.dead_letters

unfoldable pub type_metrics : ℕ → Queue → JobType → QueueTypeMetrics
unfolding queued_of delayed_of active_of dead_letter_of
type_metrics now q t = record {
  queued = queued_of now q t;
  delayed = delayed_of now q t;
  active = active_of q t;
  completed = count (λ c. same_type c.type t) q.completed_jobs;
  failed = count (λ f. same_type f.type t) q.failed_jobs;
  dead_letter = dead_letter_of q t;
}

-- for (const type of JOB_TYPES) total += f(type)
abbrev pub sum_over : List JobType → (JobType → ℕ) → ℕ
sum_over [] f = 0
sum_over (t ∷ ts) f = f t + sum_over ts f

pub record QueueMetrics : Type 0 where
  pub running : Bool
  pub concurrency : ℕ
  pub poll_interval_ms : ℕ
  pub uptime_ms : ℕ
  pub queue_depth : ℕ
  pub delayed_jobs : ℕ
  pub active_jobs : ℕ
  pub dead_letter_jobs : ℕ
  pub totals : QueueTotals
  pub by_type : JobType → QueueTypeMetrics
  pub recent_failures : List FailedJobRecord

-- this.startedAt ? now - this.startedAt : 0
unfoldable pub uptime : ℕ → Option ℕ → ℕ
uptime now none = 0
uptime now (some started_at) = if ltb 0 started_at then now - started_at else 0

unfoldable pub get_metrics : ℕ → Queue → QueueMetrics
unfolding type_metrics uptime
get_metrics now q = record {
  running = q.running;
  concurrency = q.concurrency;
  poll_interval_ms = q.poll_interval_ms;
  uptime_ms = uptime now q.started_at;
  queue_depth = sum_over job_types (λ t. (type_metrics now q t).queued);
  delayed_jobs = sum_over job_types (λ t. (type_metrics now q t).delayed);
  active_jobs = length q.active;
  dead_letter_jobs = length q.dead_letters;
  totals = q.totals;
  by_type = type_metrics now q;
  recent_failures = take 10 q.failed_jobs;
}

pub record QueueDepthReport : Type 0 where
  pub generated_at : ℕ
  pub stale_lease_ms : ℕ
  pub total_depth : ℕ
  pub by_type : JobType → QueueDepthByState

-- `now - job.leasedAt! > staleLeaseMs` is false where there is no lease.
unfoldable pub is_stuck : ℕ → ℕ → Option ℕ → Bool
is_stuck now stale_lease_ms none = false
is_stuck now stale_lease_ms (some leased_at) = ltb stale_lease_ms (now - leased_at)

unfoldable pub depth_by_state : ℕ → ℕ → Queue → JobType → QueueDepthByState
unfolding queued_of delayed_of active_of dead_letter_of is_stuck
depth_by_state now stale_lease_ms q t = record {
  queued = queued_of now q t;
  delayed = delayed_of now q t;
  active = active_of q t;
  stuck_active =
      count
        (λ x. same_type (q.heap x.1).type t && is_stuck now stale_lease_ms (q.heap x.1).leased_at)
        q.active;
  dead_letter = dead_letter_of q t;
}

unfoldable pub get_queue_depth_report : ℕ → Option ℕ → Queue → QueueDepthReport
unfolding depth_by_state
get_queue_depth_report now stale_lease_ms q =
    let limit = or_default stale_lease_ms q.stale_lease_ms in
    let by_type = depth_by_state now limit q in
    record {
      generated_at = now;
      stale_lease_ms = limit;
      total_depth =
          sum_over job_types (λ t. (by_type t).queued + (by_type t).delayed + (by_type t).active);
      by_type = by_type;
    }
