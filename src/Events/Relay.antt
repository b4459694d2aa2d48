-- ===== src/Events/Relay.antt =====
-- src/services/outboxRelay.ts. The rows stand in the order of their creation; a dispatch is a function
-- that gives the message of its error, if it fails, and so is the insert of the batch of the ETL.
-- That insert is a statement of the transaction of the relay: PostgreSQL refuses every later statement
-- of a transaction in which one has failed, so the updates of the row fail too, the second of them in
-- the `catch`, and the transaction is rolled back.
use disciplr_backend.Prelude.{
  ℕ, zero, suc, ◌+◌, ◌≤◌, String, Bool, true, false, not, ◌&&◌, ◌||◌, Option, none, some, List, [],
  ◌∷◌, ◌≡◌, refl, arith, ltb, leb, min, if◌then◌else◌, join, count, All, Bool-cases, inl, inr,
}
use disciplr_backend.Events.{OutboxRow}

abbrev pub max_attempts : ℕ
max_attempts = 5

-- .where('processed', false).andWhere('attempts', '<', MAX_ATTEMPTS)
unfoldable pub is_claimable : OutboxRow → Bool
is_claimable row = not row.processed && ltb row.attempts max_attempts

-- The row after its dispatch, with the message of the error.
unfoldable pub relayed : OutboxRow → Option String → OutboxRow
relayed row none = record row { processed = true; attempts = suc row.attempts; last_error = none }
relayed row (some message) =
    if leb max_attempts (suc row.attempts)
    then record row {
      processed = true;
      attempts = suc row.attempts;
      last_error = some (join "Exceeded max attempts. Last error: " message);
    }
    else record row { attempts = suc row.attempts; last_error = some message }

-- A dispatch with its row, and the insert of its batch, which is tried when the dispatch succeeded.
-- There is no row where the transaction is aborted.
unfoldable pub relay_row : OutboxRow → (dispatched created : Option String) → Option OutboxRow
relay_row row (some message) created = some (relayed row (some message))
relay_row row none none = some (relayed row none)
relay_row row none (some message) = none

-- The rows with the first in front, where both are there, and one more row relayed.
abbrev pub cons_relayed :
    Option OutboxRow → Option (List OutboxRow × ℕ) → Option (List OutboxRow × ℕ)
cons_relayed none rest = none
cons_relayed (some row) none = none
cons_relayed (some row) (some (rows, n)) = some (row ∷ rows, suc n)

abbrev pub cons_skipped : OutboxRow → Option (List OutboxRow × ℕ) → Option (List OutboxRow × ℕ)
cons_skipped row none = none
cons_skipped row (some (rows, n)) = some (row ∷ rows, n)

-- The rows after the transaction and the number it returns; with none the transaction is rolled back
-- and its promise rejects.
abbrev pub committed : List OutboxRow → Option (List OutboxRow × ℕ) → List OutboxRow × Option ℕ
committed rows none = (rows, none)
committed rows (some (after, n)) = (after, some n)

module _ (is_locked : OutboxRow → Bool) (dispatch create_batch : OutboxRow → Option String) where
  -- At most `size` rows are claimed, those that another transaction has locked being skipped.
  unfoldable pub relay_rows : ℕ → List OutboxRow → Option (List OutboxRow × ℕ)
  relay_rows zero rows = some (rows, 0)
  relay_rows (suc size) [] = some ([], 0)
  relay_rows (suc size) (row ∷ rows) =
      let claimed = relay_rows size rows in
      let skipped = relay_rows (suc size) rows in
      if is_claimable row && not (is_locked row)
      then cons_relayed (relay_row row (dispatch row) (create_batch row)) claimed
      else cons_skipped row skipped

  unfoldable pub relay_outbox_batch : Bool → ℕ → List OutboxRow → List OutboxRow × Option ℕ
  relay_outbox_batch paused size rows =
      if paused then (rows, some 0) else committed rows (relay_rows size rows)

-- A row is done with, or it can be claimed again; it was tried no more often than allowed.
pub record IsAlive (row : OutboxRow) : Type 0 where
  pub done_or_claimable : (row.processed || is_claimable row) ≡ true
  pub tried : row.attempts ≤ max_attempts

relayed-IsAlive :
    (row : OutboxRow) (result : Option String)
    → is_claimable row ≡ true
    → IsAlive (relayed row result)
unfolding relayed is_claimable
relayed-IsAlive row none h = record { done_or_claimable = refl; tried = ground (arith, h) }
relayed-IsAlive row (some message) h = elim (Bool-cases (leb max_attempts (suc row.attempts))) [
  | inl e ↦ rw (e) (record { done_or_claimable = refl; tried = ground (arith, h) })
  | inr e ↦ rw (e) (record { done_or_claimable = ground (arith, h, e); tried = ground (arith, h) })
]

abbrev AllAlive : Option (List OutboxRow × ℕ) → Type 0
AllAlive none = Unit
AllAlive (some (rows, n)) = All IsAlive rows

cons_relayed-AllAlive :
    (row : OutboxRow) (dispatched created : Option String) (rest : Option (List OutboxRow × ℕ))
    → is_claimable row ≡ true
    → AllAlive rest
    → AllAlive (cons_relayed (relay_row row dispatched created) rest)
unfolding relay_row
cons_relayed-AllAlive row (some m) created none h k = tt
cons_relayed-AllAlive row (some m) created (some (rows, n)) h k =
    (relayed-IsAlive row (some m) h, k)
cons_relayed-AllAlive row none none none h k = tt
cons_relayed-AllAlive row none none (some (rows, n)) h k = (relayed-IsAlive row none h, k)
cons_relayed-AllAlive row none (some m) rest h k = tt

cons_skipped-AllAlive :
    (row : OutboxRow) (rest : Option (List OutboxRow × ℕ))
    → IsAlive row
    → AllAlive rest
    → AllAlive (cons_skipped row rest)
cons_skipped-AllAlive row none h k = tt
cons_skipped-AllAlive row (some (rows, n)) h k = (h, k)

committed-All :
    (rows : List OutboxRow) (r : Option (List OutboxRow × ℕ))
    → All IsAlive rows
    → AllAlive r
    → All IsAlive (committed rows r).0
committed-All rows none h k = h
committed-All rows (some (after, n)) h k = k

module _ (is_locked : OutboxRow → Bool) (dispatch create_batch : OutboxRow → Option String) where
  relay_rows-AllAlive :
      (size : ℕ) (rows : List OutboxRow)
      → All IsAlive rows
      → AllAlive (relay_rows is_locked dispatch create_batch size rows)
  unfolding relay_rows
  relay_rows-AllAlive zero rows all = all
  relay_rows-AllAlive (suc size) [] all = tt
  relay_rows-AllAlive (suc size) (row ∷ rows) all =
      elim (Bool-cases (is_claimable row && not (is_locked row))) [
        | inl e ↦ rw (e) (
            cons_relayed-AllAlive row (dispatch row) (create_batch row)
              (relay_rows is_locked dispatch create_batch size rows) (ground (arith, e))
              (relay_rows-AllAlive size rows all.1))
        | inr e ↦ rw (e) (
            cons_skipped-AllAlive row (relay_rows is_locked dispatch create_batch (suc size) rows)
              all.0 (relay_rows-AllAlive (suc size) rows all.1))
      ]

  -- If every row of the outbox is processed, or has attempts left and can be claimed, and none was tried
  -- more than five times, this is so after a batch, paused or not, rolled back or not, whatever is
  -- locked and whatever the dispatches and the inserts of ETL batches come to.
  pub relay_outbox_batch-All :
      (paused : Bool) (size : ℕ) (rows : List OutboxRow)
      → All IsAlive rows
      → All IsAlive (relay_outbox_batch is_locked dispatch create_batch paused size rows).0
  unfolding relay_outbox_batch
  relay_outbox_batch-All true size rows all = all
  relay_outbox_batch-All false size rows all =
      committed-All rows (relay_rows is_locked dispatch create_batch size rows) all
        (relay_rows-AllAlive size rows all)

module _ (dispatch create_batch : OutboxRow → Option String)
    (succeeds : (row : OutboxRow) → dispatch row ≡ none)
    (creates : (row : OutboxRow) → create_batch row ≡ none) where
  -- What a batch that commits leaves of the rows.
  Drained : ℕ → List OutboxRow → Type 0
  Drained size rows =
      (after : List OutboxRow) × (n : ℕ) × (relay_rows (λ row. false) dispatch create_batch size
          rows
        ≡ some (after, n))
      × (n ≡ min size (count is_claimable rows))
      × (count is_claimable after + n ≡ count is_claimable rows)
