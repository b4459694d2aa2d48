-- ===== src/Vault/Transitions/Guards.antt =====
-- When `completeVault`, `failVault` and `cancelVault` of src/services/vaultTransitions.ts succeed.
use disciplr_backend.Prelude.{
  ℕ, ◌≤◌, String, true, false, Option, none, some, ◌≡◌, refl, ◌↔◌, ◌⊎◌, arith, find-modify_first,
  same_iff, same_refl, is_empty,
}
use disciplr_backend.Vault.Milestones.{Table, all_milestones_verified}
use disciplr_backend.Vault.Transitions.{
  VaultStatus, draft, active, disputed, Vault, Store, TerminalStatus, to_completed, to_failed,
  to_cancelled, terminal_status, TransitionError, success, failure, find_vault, has_vault_id,
  set_status, get_transition_error, finish_vault,
}

-- No date, or one that is not in the future.
abbrev pub NotAhead : Option ℕ → ℕ → Type 0
NotAhead none now = Unit
NotAhead (some end) now = end ≤ now

-- What each terminal status demands of the vault, the caller and the milestones.
abbrev pub MayFinish : TerminalStatus → Vault → Option String → ℕ → Table → Type 0
MayFinish to_completed v requester now t =
    ((v.status ≡ active) ⊎ (v.status ≡ disputed)) × (all_milestones_verified v.id t ≡ true)
MayFinish to_failed v requester now t =
    ((v.status ≡ active) ⊎ (v.status ≡ disputed)) × NotAhead v.end_timestamp now
MayFinish to_cancelled v requester now t =
    ((v.status ≡ draft) ⊎ (v.status ≡ active))
    × (requester ≡ some v.creator)
    × (is_empty v.creator ≡ false)

module _ (v : Vault) (requester : Option String) (now : ℕ) (t : Table) where
  abbrev Passes : TerminalStatus → Type 0
  Passes target = get_transition_error v target requester now t ≡ none

  no_error-ahead :
      (o : Option ℕ) → v.end_timestamp ≡ o → Passes to_failed → NotAhead v.end_timestamp now
  unfolding get_transition_error
  no_error-ahead none e h = rw e tt
  no_error-ahead (some d) e h = rw e (ground arith)

  ahead-no_error :
      (o : Option ℕ)
      → v.end_timestamp ≡ o
      → MayFinish to_failed v requester now t
      → Passes to_failed
  unfolding get_transition_error
  ahead-no_error none e h = ground arith
  ahead-no_error (some d) e h = ground arith

  no_error-owner :
      (o : Option String)
      → requester ≡ o
      → Passes to_cancelled
      → MayFinish to_cancelled v requester now t
  unfolding get_transition_error
  no_error-owner none e h = ground arith
  no_error-owner (some r) e h = ground (arith, same_iff r v.creator)

  owner-no_error : MayFinish to_cancelled v requester now t → Passes to_cancelled
  unfolding get_transition_error
  owner-no_error h = ground (arith, same_refl v.creator)

  no_error_iff : (target : TerminalStatus) → Passes target ↔ MayFinish target v requester now t
  unfolding get_transition_error
  no_error_iff to_completed = (λ h. ground arith, λ h. ground arith)
  no_error_iff to_failed = (
    λ h. (ground arith, no_error-ahead v.end_timestamp refl h),
    ahead-no_error v.end_timestamp refl,
  )
  no_error_iff to_cancelled = (no_error-owner requester refl, owner-no_error)

find-set_status :
    (id : String) (to : VaultStatus) (s : Store) {v : Vault}
    → find_vault id s.vaults ≡ some v
    → find_vault id (set_status id to s).vaults ≡ some (record v { status = to })
unfolding find_vault set_status has_vault_id
find-set_status id to s h =
    find-modify_first (has_vault_id id) (λ v. record v { status = to }) s.vaults (λ a e. e) h

module _ (target : TerminalStatus) (id : String) (requester : Option String) (now : ℕ) (s : Store)
    {v : Vault} (found : find_vault id s.vaults ≡ some v) where
  -- On a vault that the store holds, a call of `completeVault`, `failVault` or `cancelVault` succeeds
  -- exactly when the vault, the caller and the milestones meet the demands of the target: completing wants an active or disputed vault whose milestones are there and all
  -- verified, failing one whose end is not ahead, and cancelling a draft or active vault whose
  -- creator asks.
  pub finish_vault-success_iff :
      ((finish_vault target id requester now s).1 ≡ success)
      ↔ MayFinish target v requester now s.table
  unfolding finish_vault
  finish_vault-success_iff = (
    λ h. (no_error_iff v requester now s.table target).0 (ground arith),
    λ h. ground (arith, (no_error_iff v requester now s.table target).1 h),
  )

  -- Where such a call succeeds on a vault that the store holds, the vault is found in the target
  -- status and otherwise as it was.
  finish_vault_success :
      (finish_vault target id requester now s).1 ≡ success
      → find_vault id (finish_vault target id requester now s).0.vaults
        ≡ some (record v { status = terminal_status target })
  unfolding finish_vault
  finish_vault_success h = ground (arith, find-set_status id (terminal_status target) s found)

  -- Where such a call fails on a vault that the store holds, it has changed nothing.
  finish_vault_failure :
      (e : TransitionError)
      → (finish_vault target id requester now s).1 ≡ failure e
      → (finish_vault target id requester now s).0 ≡ s
  unfolding finish_vault
  finish_vault_failure e h = ground arith
