-- ===== src/Events/Once.antt =====
-- Repeated and undeliverable events in src/services/eventProcessor.ts.
use disciplr_backend.Prelude.{
  ℕ, String, true, Option, none, some, ◌≡◌, refl, same_refl, Bool-cases, inl, inr, ◌⊎◌,
}
use disciplr_backend.Retry.{value, error}
use disciplr_backend.Events.{
  ParsedEvent, Body, settlement_summary, Tables, EventError, Outcome, done, throws, is_row_of,
  is_event_processed, mark_event_processed, add_to_outbox, commit_routed, route_event,
  process_event_with_transaction,
}

Outcome-cases : (x : Outcome) → ((t : Tables) × (x ≡ done t)) ⊎ ((e : EventError) × (x ≡ throws e))
Outcome-cases (done t) = inl (t, refl)
Outcome-cases (throws e) = inr (e, refl)

pub add_to_outbox-processed :
    (now : ℕ) (e : ParsedEvent) (b : Body) (t : Tables)
    → (add_to_outbox now e b t).processed_events ≡ t.processed_events
unfolding add_to_outbox
add_to_outbox-processed now e (Body.vault_event kind p) t = refl
add_to_outbox-processed now e (Body.milestone_created p) t = refl
add_to_outbox-processed now e (Body.milestone_validated p) t = refl
add_to_outbox-processed now e settlement_summary t = refl

-- A transaction that succeeds leaves its event processed.
pub process-is_event_processed :
    (now : ℕ) (fault : Option String) (e : ParsedEvent) (t : Tables)
    → (process_event_with_transaction now fault e t).1 ≡ value tt
    → is_event_processed e.event_id (process_event_with_transaction now fault e t).0 ≡ true
unfolding process_event_with_transaction is_event_processed commit_routed mark_event_processed
    is_row_of
process-is_event_processed now (some message) e t h = cc h
process-is_event_processed now none e t h = elim (Bool-cases (is_event_processed e.event_id t)) [
  | inl g ↦ rw (g) g
  | inr g ↦ elim (Outcome-cases (route_event now e.body t)) [
    | inl (t', f) ↦
        rw (g, f)
          (rw
            (
              add_to_outbox-processed now e e.body (mark_event_processed now e t'),
              same_refl e.event_id,
            )
            refl)
    | inr (err, f) ↦ cc (rw (g, f) at h)
  ]
]

pub process_processed :
    (now : ℕ) (fault : Option String) (e : ParsedEvent) (t : Tables)
    → is_event_processed e.event_id t ≡ true
    → (process_event_with_transaction now fault e t).0 ≡ t
unfolding process_event_with_transaction
process_processed now none e t h = rw (h) refl
process_processed now (some message) e t h = refl

-- A transaction that throws changes no table.
process_event_with_transaction_throws :
    (now : ℕ) (fault : Option String) (e : ParsedEvent) (t : Tables) (err : EventError)
    → (process_event_with_transaction now fault e t).1 ≡ error err
    → (process_event_with_transaction now fault e t).0 ≡ t
unfolding process_event_with_transaction is_event_processed commit_routed
process_event_with_transaction_throws now (some message) e t err h = refl
process_event_with_transaction_throws now none e t err h =
    elim (Bool-cases (is_event_processed e.event_id t)) [
      | inl g ↦ rw (g) refl
      | inr g ↦ elim (Outcome-cases (route_event now e.body t)) [
        | inl (t', f) ↦ cc (rw (g, f) at h)
        | inr (x, f) ↦ rw (g, f, commit_routed) refl
      ]
    ]
