-- ===== src/Events/Later.antt =====
-- An event of src/services/eventProcessor.ts after its transaction has succeeded.
use disciplr_backend.Prelude.{
  ℕ, String, true, Option, none, some, List, [], ◌∷◌, ◌≡◌, arith, subst, sym, ap, any, lookup,
  Option-cases, Bool-cases, inl, inr, if_both,
}
use disciplr_backend.Retry.{value, returned, threw, threw_undefined, Ended}
use disciplr_backend.Retry.Attempts.{retry_with_backoff_keeps}
use disciplr_backend.Events.Once.{
  add_to_outbox-processed, process-is_event_processed, process_processed,
}
use disciplr_backend.Events.Outbox.{
  Call, processes, reprocesses, step, run, Leaves, route_event-Leaves,
}
use disciplr_backend.Events.{
  ParsedEvent, Tables, EventError, Outcome, done, throws, is_row_of, is_event_processed,
  mark_event_processed, commit_routed, process_event_with_transaction, process_event, report,
  Reading, ProcessorConfig, ProcessingResult, retry_config, is_retryable_event_error,
  move_to_dead_letter_queue, reprocess_failed_event, forget_if_processed, audit_processed,
  audit_failed, create_audit_log,
}

-- A commit records its event and forgets none.
commit_routed-keeps :
    (id : String) (now : ℕ) (e : ParsedEvent) (t : Tables) (x : Outcome)
    → Leaves t x
    → is_event_processed id t ≡ true
    → is_event_processed id (commit_routed now e t x).0 ≡ true
unfolding commit_routed is_event_processed mark_event_processed is_row_of
commit_routed-keeps id now e t (throws err) leaves h = h
commit_routed-keeps id now e t (done t') leaves h =
    let records =
      ap (any (is_row_of id))
        (add_to_outbox-processed now e e.body (mark_event_processed now e t')) in
    ground (arith, records, ap (any (is_row_of id)) leaves.0, h)

process-keeps :
    (id : String) (now : ℕ) (fault : Option String) (e : ParsedEvent) (t : Tables)
    → is_event_processed id t ≡ true
    → is_event_processed id (process_event_with_transaction now fault e t).0 ≡ true
unfolding process_event_with_transaction
process-keeps id now (some message) e t h = h
process-keeps id now none e t h = elim (Bool-cases (is_event_processed e.event_id t)) [
  | inl g ↦ rw (g) h
  | inr g ↦ rw (g) (commit_routed-keeps id now e t _ (route_event-Leaves t now e.body) h)
]

module _ (reading : Reading) (c : ProcessorConfig) (id : String) where
  report-keeps :
      (now spent : ℕ) (e : ParsedEvent) (t : Tables) (how : Ended (Unit {0}) EventError)
      → is_event_processed id t ≡ true
      → is_event_processed id (report reading c now spent e t how).0 ≡ true
  unfolding report move_to_dead_letter_queue audit_processed audit_failed create_audit_log
      is_event_processed
  report-keeps now spent e t (returned x) h = h
  report-keeps now spent e t (threw err) h =
      if_both (λ (r : Tables × ProcessingResult). is_event_processed id r.0 ≡ true)
        (is_retryable_event_error reading err) h h
  report-keeps now spent e t threw_undefined h = h

  process_event-keeps :
      (now spent : ℕ) (faults : ℕ → Option String) (e : ParsedEvent) (t : Tables)
      → is_event_processed id t ≡ true
      → is_event_processed id (process_event reading c now spent faults e t).0 ≡ true
  unfolding process_event
  process_event-keeps now spent faults e t h = report-keeps now spent e _ _ (
      retry_with_backoff_keeps
        (λ attempt s. process_event_with_transaction now (faults attempt) e s)
        (is_retryable_event_error reading) (retry_config c) (λ s. is_event_processed id s ≡ true)
        (λ attempt s k. process-keeps id now (faults attempt) e s k) t h)

  step-keeps :
      (x : Call) (t : Tables)
      → is_event_processed id t ≡ true
      → is_event_processed id (step reading c x t) ≡ true
  unfolding step reprocess_failed_event forget_if_processed is_event_processed
  step-keeps (processes now spent faults e) t h = process_event-keeps now spent faults e t h
  step-keeps (reprocesses now spent faults failed_id) t h =
      elim (Option-cases (lookup failed_id t.failed_events)) [
        | inl e ↦ rw (e, step, reprocess_failed_event) h
        | inr (row, e) ↦
            let kept = process_event-keeps now spent faults row.event_payload t h in
            rw (e, step, reprocess_failed_event)
              (if_both (λ (r : Tables × ProcessingResult). is_event_processed id r.0 ≡ true)
                (process_event reading c now spent faults row.event_payload t).1.success kept kept)
      ]

  run-keeps :
      (xs : List Call) (t : Tables)
      → is_event_processed id t ≡ true
      → is_event_processed id (run reading c xs t) ≡ true
  unfolding run
  run-keeps [] t h = h
  run-keeps (x ∷ xs) t h = run-keeps xs (step reading c x t) (step-keeps x t h)

-- Once the transaction of an event has succeeded, and whatever events are processed or processed
-- again after that, with retries and faults, a transaction of an event with the same identifier
-- changes no table, whether the database fails in it or not.
pub process_event_with_transaction_once :
    (reading : Reading) (c : ProcessorConfig) (now later : ℕ) (fault fault' : Option String)
    (e e' : ParsedEvent) (t : Tables) (xs : List Call)
    → e'.event_id ≡ e.event_id
    → (process_event_with_transaction now fault e t).1 ≡ value tt
    → let between = run reading c xs (process_event_with_transaction now fault e t).0 in
      (process_event_with_transaction later fault' e' between).0 ≡ between
process_event_with_transaction_once reading c now later fault fault' e e' t xs same_id success =
    let committed = (process_event_with_transaction now fault e t).0 in
    process_processed later fault' e' (run reading c xs committed) (
      run-keeps reading c e'.event_id xs committed (
        subst (λ id. is_event_processed id committed ≡ true) (sym same_id)
          (process-is_event_processed now fault e t success)))
