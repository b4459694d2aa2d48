-- ===== src/Jobs/Types.antt =====
-- src/jobs/types.ts and the records of src/jobs/queue.ts. A payload is opaque to the queue.
use disciplr_backend.Prelude.{ℕ, String, Bool, Option, List, [], ◌∷◌, ◌==◌}

pub data JobType : Type 0 where
  notification_send deadline_check milestone_reminders milestone_reminders_digest : JobType
  milestone_reminders_deferred oracle_call analytics_recompute export_generate : JobType
  vault_reconcile sessions_cleanup outbox_relay embeddings_reindex saved_search_evaluate : JobType

-- The order of `JOB_TYPES`, by which types are told apart.
abbrev pub position : JobType → ℕ
position notification_send = 0
position deadline_check = 1
position milestone_reminders = 2
position milestone_reminders_digest = 3
position milestone_reminders_deferred = 4
position oracle_call = 5
position analytics_recompute = 6
position export_generate = 7
position vault_reconcile = 8
position sessions_cleanup = 9
position outbox_relay = 10
position embeddings_reindex = 11
position saved_search_evaluate = 12

abbrev pub same_type : JobType → JobType → Bool
same_type a b = position a == position b

abbrev pub job_types : List JobType
job_types =
    notification_send ∷ deadline_check ∷ milestone_reminders ∷ milestone_reminders_digest
    ∷ milestone_reminders_deferred ∷ oracle_call ∷ analytics_recompute ∷ export_generate
    ∷ vault_reconcile ∷ sessions_cleanup ∷ outbox_relay ∷ embeddings_reindex ∷ saved_search_evaluate
    ∷ []

-- InternalQueuedJob
pub record Job : Type 0 where
  pub id : String
  pub type : JobType
  pub payload : String
  pub attempt : ℕ
  pub max_attempts : ℕ
  pub created_at : ℕ
  pub run_at : ℕ
  pub leased_at : Option ℕ

pub record CompletedJobRecord : Type 0 where
  pub job_id : String
  pub type : JobType
  pub completed_at : ℕ
  pub attempts : ℕ
  pub duration_ms : ℕ

pub record FailedJobRecord : Type 0 where
  pub job_id : String
  pub type : JobType
  pub failed_at : ℕ
  pub attempts : ℕ
  pub error : String

pub record DeadLetterJobRecord : Type 0 where
  pub failure : FailedJobRecord
  pub open failure use *
  pub payload : String
  pub created_at : ℕ
  pub run_at : ℕ
  pub max_attempts : ℕ

pub record QueuedJobReceipt : Type 0 where
  pub id : String
  pub type : JobType
  pub run_at : ℕ
  pub max_attempts : ℕ

pub record QueueTotals : Type 0 where
  pub enqueued : ℕ
  pub executions : ℕ
  pub completed : ℕ
  pub failed : ℕ
  pub retried : ℕ

pub record ReclaimedJobRecord : Type 0 where
  pub job_id : String
  pub type : JobType
  pub attempt : ℕ
  pub max_attempts : ℕ
  pub lease_age_ms : ℕ
