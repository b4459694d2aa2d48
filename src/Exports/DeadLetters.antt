-- ===== src/Exports/DeadLetters.antt =====
-- The dead-letter queue of src/services/exportQueue.ts. The events that a metrics hook receives are
-- kept as a list, the latest first; a hook that throws is ignored by the code.
use disciplr_backend.Prelude.{
  ℕ, zero, suc, max, String, Bool, true, false, not, Option, none, some, List, [], ◌∷◌, ◌++◌, leb,
  if◌then◌else◌, find, length, same,
}
use disciplr_backend.Exports.{
  ExportJob, DlqEntry, DlqMetricsEvent, DlqEvent, FailureReason, entry_requeued, entry_discarded,
  dlq_cleared, pending,
}
use disciplr_backend.Exports.Repository.{Repository, get, update}

pub record Dlq : Type 0 where
  pub entries : List DlqEntry
  pub max_size : ℕ
  pub has_hook : Bool
  pub events : List DlqMetricsEvent

abbrev pub default_max_dlq_size : ℕ
default_max_dlq_size = 100

-- The size is rounded down before it comes here.
unfoldable pub configure_dlq : Option ℕ → Bool → Dlq → Dlq
configure_dlq none hook q = record q { has_hook = hook }
configure_dlq (some size) hook q = record q { max_size = max 1 size; has_hook = hook }

-- The oldest entries are shifted out while the queue is full: each turn of the loop takes one, so as
-- many turns as there are entries are enough.
unfoldable pub shift_while_full : ℕ → ℕ → List DlqEntry → List DlqEntry
shift_while_full zero max_size es = es
shift_while_full (suc fuel) max_size [] = []
shift_while_full (suc fuel) max_size (e ∷ es) =
    let rest = shift_while_full fuel max_size es in
    if leb max_size (length (e ∷ es)) then rest else e ∷ es

unfoldable pub dlq_insert : DlqEntry → Dlq → Dlq
dlq_insert entry q = record q {
  entries = shift_while_full (length q.entries) q.max_size q.entries ++ entry ∷ [];
}

unfoldable pub is_entry_of : String → DlqEntry → Bool
is_entry_of job_id e = same e.job_id job_id

abbrev pub splice_first : String → List DlqEntry → List DlqEntry
splice_first job_id [] = []
splice_first job_id (e ∷ es) =
    let rest = splice_first job_id es in if is_entry_of job_id e then es else e ∷ rest

unfoldable pub dlq_remove : String → Dlq → Dlq × Option DlqEntry
dlq_remove job_id q =
    (record q { entries = splice_first job_id q.entries }, find (is_entry_of job_id) q.entries)

unfoldable pub invoke_metrics_hook : DlqEvent → String → Option FailureReason → String → Dlq → Dlq
invoke_metrics_hook event job_id reason now q = if not q.has_hook then q else record q {
  events =
      record {
        event = event;
        job_id = job_id;
        failure_reason = reason;
        dlq_depth = length q.entries;
        timestamp = now;
      }
      ∷ q.events;
}

abbrev pub reverse_onto : List DlqEntry → List DlqEntry → List DlqEntry
reverse_onto [] acc = acc
reverse_onto (e ∷ es) acc = reverse_onto es (e ∷ acc)

unfoldable pub get_dlq_entries : Dlq → List DlqEntry
get_dlq_entries q = reverse_onto q.entries []

unfoldable pub get_dlq_entry : String → Dlq → Option DlqEntry
get_dlq_entry job_id q = find (is_entry_of job_id) q.entries

unfoldable pub get_dlq_depth : Dlq → ℕ
get_dlq_depth q = length q.entries

unfoldable pub requeued : ExportJob → ExportJob
requeued job = record job { status = pending; attempts = 0; error = none; completed_at = none }

unfoldable pub requeue_dlq_entry : String → String → Repository × Dlq → (Repository × Dlq) × Bool
requeue_dlq_entry job_id now s =
    let removed = dlq_remove job_id s.1 in
    elim removed.1 [
      | none ↦ (s, false)
      | some entry ↦ elim (get job_id s.0) [
        | none ↦ ((s.0, removed.0), false)
        | some job ↦ (
          (update (requeued job) s.0, invoke_metrics_hook entry_requeued job_id none now removed.0),
          true,
        )
      ]
    ]

unfoldable pub discard_dlq_entry : String → String → Dlq → Dlq × Bool
discard_dlq_entry job_id now q =
    let removed = dlq_remove job_id q in
    elim removed.1 [
      | none ↦ (q, false)
      | some entry ↦ (invoke_metrics_hook entry_discarded job_id none now removed.0, true)
    ]

unfoldable pub clear_dlq : String → Dlq → Dlq × ℕ
clear_dlq now q =
    (invoke_metrics_hook dlq_cleared "" none now (record q { entries = [] }), length q.entries)

unfoldable pub reset_dlq : Dlq → Dlq
reset_dlq q = record q { entries = []; max_size = default_max_dlq_size; has_hook = false }
