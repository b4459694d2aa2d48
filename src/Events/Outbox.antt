-- ===== src/Events/Outbox.antt =====
-- The rows that src/services/eventProcessor.ts writes for one event identifier.
use disciplr_backend.Prelude.{
  ℕ, ◌+◌, ◌≤◌, String, Bool, false, Option, none, some, List, [], ◌∷◌, ◌++◌, ◌≡◌, refl, ap, subst,
  arith, if◌then◌else◌, any, count, same, same_iff, lookup, Option-cases, Bool-cases, inl, inr,
  if_both,
}
use disciplr_backend.Retry.{returned, threw, threw_undefined, Ended}
use disciplr_backend.Retry.Attempts.{retry_with_backoff_keeps}
use disciplr_backend.Events.Once.{add_to_outbox-processed}
use disciplr_backend.Events.{
  ParsedEvent, Body, vault_event, milestone_created, milestone_validated, settlement_summary,
  vault_created, vault_completed, vault_failed, vault_cancelled, VaultEventPayload, VaultStatus,
  Tables, OutboxRow, ProcessedRow, EventError, Outcome, done, throws, is_row_of, is_event_processed,
  mark_event_processed, add_to_outbox, outbox_row, commit_routed, route_event, handle_vault_event,
  create_vault, update_vault_status, handle_milestone_event, handle_validation_event,
  process_event_with_transaction, process_event, report, Reading, ProcessorConfig, ProcessingResult,
  retry_config, is_retryable_event_error, move_to_dead_letter_queue, reprocess_failed_event,
  forget_if_processed, audit_processed, audit_failed, create_audit_log,
}

-- Events and failed events are processed, at a time and with faults of the database by attempt.
pub data Call : Type 0 where
  processes : (now spent : ℕ) → (ℕ → Option String) → ParsedEvent → Call
  reprocesses : (now spent : ℕ) → (ℕ → Option String) → String → Call

module _ (reading : Reading) (c : ProcessorConfig) where
  unfoldable pub step : Call → Tables → Tables
  step (processes now spent faults e) t = (process_event reading c now spent faults e t).0
  step (reprocesses now spent faults id) t =
      (reprocess_failed_event reading c now spent faults id t).0

  unfoldable pub run : List Call → Tables → Tables
  run [] t = t
  run (x ∷ xs) t = run xs (step x t)

abbrev pub is_outbox_of : String → OutboxRow → Bool
is_outbox_of id r = same r.event_id id

-- The event is recorded once at most, and is in the outbox only as often.
pub record IsOnce (id : String) (t : Tables) : Type 0 where
  pub one_record : count (is_row_of id) t.processed_events ≤ 1
  pub one_row : count (is_outbox_of id) t.vault_outbox ≤ count (is_row_of id) t.processed_events

module _ (t : Tables) where
  -- The handlers leave the records and the outbox alone.
  abbrev pub Leaves : Outcome → Type 0
  Leaves (done t') = (t'.processed_events ≡ t.processed_events) × (t'.vault_outbox ≡ t.vault_outbox)
  Leaves (throws e) = Unit

  update_vault_status-Leaves :
      (status : VaultStatus) (now : ℕ) (p : VaultEventPayload)
      → Leaves (update_vault_status status now p t)
  unfolding update_vault_status
  update_vault_status-Leaves status now p = elim (Option-cases (lookup p.vault_id t.vaults)) [
    | inl e ↦ rw (e, update_vault_status) tt
    | inr (row, e) ↦ rw (e, update_vault_status) (refl, refl)
  ]

  pub route_event-Leaves : (now : ℕ) (b : Body) → Leaves (route_event now b t)
  unfolding route_event handle_vault_event create_vault handle_milestone_event
      handle_validation_event
  route_event-Leaves now (vault_event vault_created p) = (refl, refl)
  route_event-Leaves now (vault_event vault_completed p) = update_vault_status-Leaves _ now p
  route_event-Leaves now (vault_event vault_failed p) = update_vault_status-Leaves _ now p
  route_event-Leaves now (vault_event vault_cancelled p) = update_vault_status-Leaves _ now p
  route_event-Leaves now (milestone_created p) = elim (Option-cases (lookup p.vault_id t.vaults)) [
    | inl e ↦ rw (e, handle_milestone_event) tt
    | inr (row, e) ↦ rw (e, handle_milestone_event) (refl, refl)
  ]
  route_event-Leaves now (milestone_validated p) =
      elim (Option-cases (lookup p.milestone_id t.milestones)) [
        | inl e ↦ rw (e, handle_validation_event) tt
        | inr (row, e) ↦ rw (e, handle_validation_event) (refl, refl)
      ]
  route_event-Leaves now settlement_summary = tt

count-none :
    (p : ProcessedRow → Bool) (rows : List ProcessedRow) → any p rows ≡ false → count p rows ≡ 0
count-none p [] h = refl
count-none p (r ∷ rows) h = ground (arith, count-none p rows)

count-snoc :
    (p : OutboxRow → Bool) (rows : List OutboxRow) (r : OutboxRow)
    → count p (rows ++ r ∷ []) ≡ count p rows + (if p r then 1 else 0)
count-snoc p [] r = ground arith
count-snoc p (x ∷ rows) r = ground (arith, count-snoc p rows r)

add_to_outbox-count :
    (id : String) (now : ℕ) (e : ParsedEvent) (b : Body) (t : Tables)
    → count (is_outbox_of id) (add_to_outbox now e b t).vault_outbox
      ≤ count (is_outbox_of id) t.vault_outbox + (if same e.event_id id then 1 else 0)
unfolding add_to_outbox outbox_row
add_to_outbox-count id now e (vault_event kind p) t =
    omega (arith, count-snoc (is_outbox_of id) t.vault_outbox (outbox_row now e p t))
add_to_outbox-count id now e (milestone_created p) t = omega arith
add_to_outbox-count id now e (milestone_validated p) t = omega arith
add_to_outbox-count id now e settlement_summary t = omega arith

mark-count :
    (id : String) (now : ℕ) (e : ParsedEvent) (t : Tables)
    → count (is_row_of id) (mark_event_processed now e t).processed_events
      ≡ count (is_row_of id) t.processed_events + (if same e.event_id id then 1 else 0)
unfolding mark_event_processed is_row_of
mark-count id now e t = ground arith

-- An identifier that is added was not recorded.
first_time :
    (id : String) (e : ParsedEvent) (t : Tables)
    → is_event_processed e.event_id t ≡ false
    → IsOnce id t
    → count (is_row_of id) t.processed_events + (if same e.event_id id then 1 else 0) ≤ 1
unfolding is_event_processed
first_time id e t fresh once = elim (Bool-cases (same e.event_id id)) [
  | inl h ↦ rw (h) (
      omega (
        arith,
        count-none (is_row_of id) t.processed_events (
            subst (λ i. any (is_row_of i) t.processed_events ≡ false) ((same_iff e.event_id id).0 h)
              fresh),
      ))
  | inr h ↦ rw (h) (omega (arith, once.one_record))
]

-- What a committed transaction adds for an identifier.
commit_routed-IsOnce :
    (id : String) (now : ℕ) (e : ParsedEvent) (t : Tables) (x : Outcome)
    → is_event_processed e.event_id t ≡ false
    → Leaves t x
    → IsOnce id t
    → IsOnce id (commit_routed now e t x).0
unfolding commit_routed is_event_processed mark_event_processed
commit_routed-IsOnce id now e t (throws err) fresh leaves once = once
commit_routed-IsOnce id now e t (done t') fresh leaves once =
    let marked = mark_event_processed now e t' in
    let records = ap (count (is_row_of id)) (add_to_outbox-processed now e e.body marked) in
    let marks = mark-count id now e t' in
    let before = ap (count (is_row_of id)) leaves.0 in
    let rows = add_to_outbox-count id now e e.body marked in
    let rows_before = ap (count (is_outbox_of id)) leaves.1 in
    let none_before = first_time id e t fresh once in
    record {
      one_record = omega (arith, records, marks, before, none_before);
      one_row = omega (arith, records, marks, before, rows, rows_before, once.one_row);
    }

process-IsOnce :
    (id : String) (now : ℕ) (fault : Option String) (e : ParsedEvent) (t : Tables)
    → IsOnce id t
    → IsOnce id (process_event_with_transaction now fault e t).0
unfolding process_event_with_transaction
process-IsOnce id now (some message) e t once = once
process-IsOnce id now none e t once = elim (Bool-cases (is_event_processed e.event_id t)) [
  | inl g ↦ rw (g) once
  | inr g ↦ rw (g) (commit_routed-IsOnce id now e t _ g (route_event-Leaves t now e.body) once)
]

module _ (reading : Reading) (c : ProcessorConfig) (id : String) where
  report-IsOnce :
      (now spent : ℕ) (e : ParsedEvent) (t : Tables) (how : Ended (Unit {0}) EventError)
      → IsOnce id t
      → IsOnce id (report reading c now spent e t how).0
  unfolding report move_to_dead_letter_queue audit_processed audit_failed create_audit_log
  report-IsOnce now spent e t (returned x) once = record {
    one_record = once.one_record;
    one_row = once.one_row;
  }
  report-IsOnce now spent e t (threw err) once =
      if_both (λ (r : Tables × ProcessingResult). IsOnce id r.0)
        (is_retryable_event_error reading err)
        (record { one_record = once.one_record; one_row = once.one_row })
        (record { one_record = once.one_record; one_row = once.one_row })
  report-IsOnce now spent e t threw_undefined once = record {
    one_record = once.one_record;
    one_row = once.one_row;
  }

  process_event-IsOnce :
      (now spent : ℕ) (faults : ℕ → Option String) (e : ParsedEvent) (t : Tables)
      → IsOnce id t
      → IsOnce id (process_event reading c now spent faults e t).0
  unfolding process_event
  process_event-IsOnce now spent faults e t once = report-IsOnce now spent e _ _ (
      retry_with_backoff_keeps
        (λ attempt s. process_event_with_transaction now (faults attempt) e s)
        (is_retryable_event_error reading) (retry_config c) (IsOnce id)
        (λ attempt s h. process-IsOnce id now (faults attempt) e s h) t once)

  step-IsOnce : (x : Call) (t : Tables) → IsOnce id t → IsOnce id (step reading c x t)
  unfolding step reprocess_failed_event forget_if_processed
  step-IsOnce (processes now spent faults e) t once = process_event-IsOnce now spent faults e t once
  step-IsOnce (reprocesses now spent faults failed_id) t once =
      elim (Option-cases (lookup failed_id t.failed_events)) [
        | inl e ↦ rw (e, step, reprocess_failed_event) once
        | inr (row, e) ↦
            let kept = process_event-IsOnce now spent faults row.event_payload t once in
            rw (e, step, reprocess_failed_event)
              (if_both (λ (r : Tables × ProcessingResult). IsOnce id r.0)
                (process_event reading c now spent faults row.event_payload t).1.success
                (record { one_record = kept.one_record; one_row = kept.one_row }) kept)
      ]

  -- Whatever events are processed or processed again, with retries and with faults of the database, an
  -- identifier that was recorded once at most, with no more rows in the outbox than records, stays so.
  pub run-IsOnce : (xs : List Call) (t : Tables) → IsOnce id t → IsOnce id (run reading c xs t)
  unfolding run
  run-IsOnce [] t once = once
  run-IsOnce (x ∷ xs) t once = run-IsOnce xs (step reading c x t) (step-IsOnce x t once)
