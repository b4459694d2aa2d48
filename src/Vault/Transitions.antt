-- ===== src/Vault/Transitions.antt =====
-- src/services/vaultTransitions.ts. The arrays that its functions read and write are the record
-- `Store`; the current time is an argument, in milliseconds. Each error message is a constructor
-- that carries what the message shows.
pub mod Lifecycle
pub mod Guards
pub mod Expiry
use disciplr_backend.Prelude.{
  ℕ, String, Bool, true, false, ◌||◌, ◌&&◌, not, Option, none, some, List, [], ◌∷◌, map, ltb, leb,
  if◌then◌else◌, find, modify_first, same, is_empty, any,
}
use disciplr_backend.Vault.Milestones.{Table, all_milestones_verified}

pub data VaultStatus : Type 0 where
  draft active disputed completed failed cancelled : VaultStatus

-- type TerminalStatus and type DisputeResolution
pub data TerminalStatus : Type 0 where
  to_completed to_failed to_cancelled : TerminalStatus

pub data DisputeResolution : Type 0 where
  back_to_active as_completed as_failed : DisputeResolution

abbrev pub terminal_status : TerminalStatus → VaultStatus
terminal_status to_completed = completed
terminal_status to_failed = failed
terminal_status to_cancelled = cancelled

abbrev pub resolution_status : DisputeResolution → VaultStatus
resolution_status back_to_active = active
resolution_status as_completed = completed
resolution_status as_failed = failed

-- The fields that the transitions use. `end_timestamp` is the date that the text parses to; `none`
-- is an invalid date, which is neither before nor after any other.
pub record Vault : Type 0 where
  pub id : String
  pub creator : String
  pub status : VaultStatus
  pub end_timestamp : Option ℕ

pub record Store : Type 0 where
  pub vaults : List Vault
  pub table : Table

pub data TransitionError : Type 0 where
  vault_not_found milestones_unverified not_ended not_creator : TransitionError
  not_admin_to_dispute not_admin_to_resolve : TransitionError
  already_terminal : VaultStatus → TransitionError
  invalid_transition : VaultStatus → VaultStatus → List VaultStatus → TransitionError
  cannot_activate cannot_dispute not_disputed : VaultStatus → TransitionError
  invalid_resolution : VaultStatus → TransitionError

pub data TransitionResult : Type 0 where
  success : TransitionResult
  failure : TransitionError → TransitionResult

-- ===  on two statuses
abbrev pub same_status : VaultStatus → VaultStatus → Bool
same_status draft draft = true
same_status active active = true
same_status disputed disputed = true
same_status completed completed = true
same_status failed failed = true
same_status cancelled cancelled = true
same_status _ _ = false

unfoldable pub allowed_transitions : VaultStatus → List VaultStatus
allowed_transitions draft = active ∷ cancelled ∷ []
allowed_transitions active = completed ∷ failed ∷ cancelled ∷ disputed ∷ []
allowed_transitions disputed = active ∷ completed ∷ failed ∷ []
allowed_transitions completed = []
allowed_transitions failed = []
allowed_transitions cancelled = []

unfoldable pub is_terminal : VaultStatus → Bool
is_terminal completed = true
is_terminal failed = true
is_terminal cancelled = true
is_terminal _ = false

unfoldable pub includes : List VaultStatus → VaultStatus → Bool
includes statuses s = any (same_status s) statuses

unfoldable pub is_valid_transition : VaultStatus → VaultStatus → Bool
unfolding allowed_transitions includes
is_valid_transition from to = includes (allowed_transitions from) to

unfoldable pub has_vault_id : String → Vault → Bool
has_vault_id id v = same v.id id

unfoldable pub find_vault : String → List Vault → Option Vault
unfolding has_vault_id
find_vault id vaults = find (has_vault_id id) vaults

-- vault.status = status, through the reference that `findVault` returned
unfoldable pub set_status : String → VaultStatus → Store → Store
unfolding has_vault_id
set_status id status s = record s {
  vaults = modify_first (has_vault_id id) (λ v. record v { status = status }) s.vaults;
}

-- end > now
unfoldable pub ends_after : Option ℕ → ℕ → Bool
ends_after none now = false
ends_after (some end) now = ltb now end

-- end <= now
unfoldable pub ends_by : Option ℕ → ℕ → Bool
ends_by none now = false
ends_by (some end) now = leb end now

-- !requesterId || requesterId !== vault.creator
unfoldable pub is_stranger : Option String → String → Bool
is_stranger none creator = true
is_stranger (some requester) creator = is_empty requester || not (same requester creator)

-- The `switch` on the target status.
unfoldable pub target_error :
    TerminalStatus → Vault → Option String → ℕ → Table → Option TransitionError
unfolding ends_after is_stranger
target_error to_completed v requester now t =
    if all_milestones_verified v.id t then none else some milestones_unverified
target_error to_failed v requester now t =
    if ends_after v.end_timestamp now then some not_ended else none
target_error to_cancelled v requester now t =
    if is_stranger requester v.creator then some not_creator else none

unfoldable pub get_transition_error :
    Vault → TerminalStatus → Option String → ℕ → Table → Option TransitionError
unfolding is_terminal is_valid_transition target_error
get_transition_error v target requester now t =
    if is_terminal v.status
    then some (already_terminal v.status)
    else if is_valid_transition v.status (terminal_status target)
    then target_error target v requester now t
    else some (invalid_transition v.status (terminal_status target) (allowed_transitions v.status))

-- The common body of `completeVault`, `failVault` and `cancelVault`.
unfoldable pub finish_vault :
    TerminalStatus → String → Option String → ℕ → Store → Store × TransitionResult
unfolding find_vault set_status
finish_vault target id requester now s = elim (find_vault id s.vaults) [
  | none ↦ (s, failure vault_not_found)
  | some v ↦ elim (get_transition_error v target requester now s.table) [
    | some e ↦ (s, failure e)
    | none ↦ (set_status id (terminal_status target) s, success)
  ]
]

unfoldable pub complete_vault : String → ℕ → Store → Store × TransitionResult
unfolding finish_vault
complete_vault id now s = finish_vault to_completed id none now s

unfoldable pub fail_vault : String → ℕ → Store → Store × TransitionResult
unfolding finish_vault
fail_vault id now s = finish_vault to_failed id none now s

unfoldable pub cancel_vault : String → String → ℕ → Store → Store × TransitionResult
unfolding finish_vault
cancel_vault id requester now s = finish_vault to_cancelled id (some requester) now s

unfoldable pub is_due : ℕ → Vault → Bool
unfolding ends_by
is_due now v = same_status v.status active && ends_by v.end_timestamp now

-- The loop of `checkExpiredVaults`: the vaults written, and the ids pushed to `failed`.
unfoldable pub expire : ℕ → List Vault → List Vault × List String
expire now [] = ([], [])
expire now (v ∷ vs) =
    let (vs', failed_ids) = expire now vs in
    if is_due now v
    then (record v { status = failed } ∷ vs', v.id ∷ failed_ids)
    else (v ∷ vs', failed_ids)

unfoldable pub check_expired_vaults : ℕ → Store → Store × List String
unfolding expire
check_expired_vaults now s =
    let (vaults', failed_ids) = expire now s.vaults in (record s { vaults = vaults' }, failed_ids)

pub record VaultState : Type 0 where
  pub status : VaultStatus
  pub terminal : Bool
  pub is_active : Bool

unfoldable pub get_vault_state : String → Store → Option VaultState
unfolding find_vault is_terminal
get_vault_state id s = elim (find_vault id s.vaults) [
  | none ↦ none
  | some v ↦ some (record {
    status = v.status;
    terminal = is_terminal v.status;
    is_active = same_status v.status active;
  })
]

unfoldable pub get_allowed_next_states : String → Store → List VaultStatus
unfolding find_vault allowed_transitions
get_allowed_next_states id s = elim (find_vault id s.vaults) [
  | none ↦ []
  | some v ↦ allowed_transitions v.status
]

-- A row of the table `vaults`, as `transitionVaultStatus` uses it.
pub record VaultRow : Type 0 where
  pub id : String
  pub status : VaultStatus
  pub updated_at : ℕ

unfoldable pub row_has_id : String → VaultRow → Bool
row_has_id id r = same r.id id

unfoldable pub transition_vault_status :
    String → TerminalStatus → ℕ → List VaultRow → List VaultRow × TransitionResult
unfolding row_has_id is_terminal is_valid_transition
transition_vault_status id target now rows = elim (find (row_has_id id) rows) [
  | none ↦ (rows, failure vault_not_found)
  | some r ↦
      let to = terminal_status target in
      if is_terminal r.status
      then (rows, failure (already_terminal r.status))
      else if is_valid_transition r.status to
      then (map (update to) rows, success)
      else (rows, failure (invalid_transition r.status to (allowed_transitions r.status)))
]
  where
    update : VaultStatus → VaultRow → VaultRow
    update to r = if row_has_id id r then record r { status = to; updated_at = now } else r

unfoldable pub activate_vault : String → Store → Store × TransitionResult
unfolding find_vault set_status
activate_vault id s = elim (find_vault id s.vaults) [
  | none ↦ (s, failure vault_not_found)
  | some v ↦
      if same_status v.status draft
      then (set_status id active s, success)
      else (s, failure (cannot_activate v.status))
]

unfoldable pub dispute_vault : String → String → String → Store → Store × TransitionResult
unfolding find_vault set_status is_valid_transition
dispute_vault id requester admin s =
    if same requester admin
    then elim (find_vault id s.vaults) [
      | none ↦ (s, failure vault_not_found)
      | some v ↦
          if is_valid_transition v.status disputed
          then (set_status id disputed s, success)
          else (s, failure (cannot_dispute v.status))
    ]
    else (s, failure not_admin_to_dispute)

unfoldable pub resolve_dispute :
    String → String → String → DisputeResolution → Store → Store × TransitionResult
unfolding find_vault set_status is_valid_transition
resolve_dispute id requester admin target s =
    if same requester admin
    then elim (find_vault id s.vaults) [
      | none ↦ (s, failure vault_not_found)
      | some v ↦
          let to = resolution_status target in
          if same_status v.status disputed
          then if is_valid_transition disputed to
            then (set_status id to s, success)
            else (s, failure (invalid_resolution to))
          else (s, failure (not_disputed v.status))
    ]
    else (s, failure not_admin_to_resolve)

-- The calls that change a vault's status, as the callers make them.
pub data Call : Type 0 where
  complete fail activate : String → Call
  cancel : String → String → Call
  check_expired : Call
  dispute : String → String → String → Call
  resolve : String → String → String → DisputeResolution → Call

-- One call at a time; its result is dropped.
unfoldable pub step : ℕ → Call → Store → Store
step now (complete id) s = (complete_vault id now s).0
step now (fail id) s = (fail_vault id now s).0
step now (activate id) s = (activate_vault id s).0
step now (cancel id requester) s = (cancel_vault id requester now s).0
step now check_expired s = (check_expired_vaults now s).0
step now (dispute id requester admin) s = (dispute_vault id requester admin s).0
step now (resolve id requester admin target) s = (resolve_dispute id requester admin target s).0

unfoldable pub run : List (ℕ × Call) → Store → Store
run [] s = s
run ((now, c) ∷ cs) s = run cs (step now c s)
