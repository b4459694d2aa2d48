-- ===== src/Vault/Transitions/Lifecycle.antt =====
-- The calls of src/services/vaultTransitions.ts and the table of transitions.
use disciplr_backend.Prelude.{
  ℕ, zero, suc, String, true, Option, none, some, List, [], ◌∷◌, ◌≡◌, refl, sym, subst, arith,
  get_elem?, find, modify_first, Option-cases, Bool-cases, inl, inr, same,
}
use mathlib.Core.Option.{some-injective}
use disciplr_backend.Vault.Milestones.{Table}
use disciplr_backend.Vault.Transitions.{
  VaultStatus, active, failed, disputed, Vault, Store, Call, complete, fail, activate, cancel,
  check_expired, dispute, resolve, TerminalStatus, terminal_status, resolution_status, is_terminal,
  is_valid_transition, has_vault_id, find_vault, set_status, get_transition_error, finish_vault,
  is_due, expire, complete_vault, fail_vault, cancel_vault, check_expired_vaults, activate_vault,
  same_status, draft, to_completed, to_failed, to_cancelled, DisputeResolution, dispute_vault,
  resolve_dispute, step, run,
}

-- One vault before and after: the same, or only its status moved along the table.
pub data Moves (v w : Vault) : Type 0 where
  stay : w ≡ v → Moves v w
  move :
      (to : VaultStatus)
      → w ≡ record v { status = to }
      → is_valid_transition v.status to ≡ true
      → Moves v w

abbrev pub AllMove : List Vault → List Vault → Type 0
AllMove [] [] = Unit
AllMove [] (w ∷ ws) = ⊥
AllMove (v ∷ vs) [] = ⊥
AllMove (v ∷ vs) (w ∷ ws) = Moves v w × AllMove vs ws

AllMove-refl : (vs : List Vault) → AllMove vs vs
AllMove-refl [] = tt
AllMove-refl (v ∷ vs) = (stay refl, AllMove-refl vs)

modify-AllMove :
    (id : String) (to : VaultStatus) (vs : List Vault) {v : Vault}
    → find (has_vault_id id) vs ≡ some v
    → is_valid_transition v.status to ≡ true
    → AllMove vs (modify_first (has_vault_id id) (λ x. record x { status = to }) vs)
modify-AllMove id to [] e h = tt
modify-AllMove id to (x ∷ xs) {v} e h = elim (Bool-cases (has_vault_id id x)) [
  | inl hit ↦ rw hit (move to refl (ground arith), AllMove-refl xs)
  | inr miss ↦ rw miss (stay refl, modify-AllMove id to xs {v = v} (ground arith) h)
]

set_status-AllMove :
    (id : String) (to : VaultStatus) (s : Store) {v : Vault}
    → find_vault id s.vaults ≡ some v
    → is_valid_transition v.status to ≡ true
    → AllMove s.vaults (set_status id to s).vaults
unfolding find_vault set_status
set_status-AllMove id to s {v} e h = modify-AllMove id to s.vaults {v = v} e h

due-valid : (now : ℕ) (v : Vault) → is_due now v ≡ true → is_valid_transition v.status failed ≡ true
unfolding is_due is_valid_transition
due-valid now v h = ground arith

expire-AllMove : (now : ℕ) (vs : List Vault) → AllMove vs (expire now vs).0
unfolding expire
expire-AllMove now [] = tt
expire-AllMove now (v ∷ vs) = elim (Bool-cases (is_due now v)) [
  | inl due ↦ rw due (move failed refl (due-valid now v due), expire-AllMove now vs)
  | inr not_due ↦ rw not_due (stay refl, expire-AllMove now vs)
]

no_error-valid :
    (v : Vault) (target : TerminalStatus) (requester : Option String) (now : ℕ) (t : Table)
    → get_transition_error v target requester now t ≡ none
    → is_valid_transition v.status (terminal_status target) ≡ true
unfolding get_transition_error
no_error-valid v target requester now t h = ground arith

finish_vault-AllMove :
    (target : TerminalStatus) (id : String) (requester : Option String) (now : ℕ) (s : Store)
    → AllMove s.vaults (finish_vault target id requester now s).0.vaults
unfolding finish_vault
finish_vault-AllMove target id requester now s = elim (Option-cases (find_vault id s.vaults)) [
  | inl e ↦ rw (e, finish_vault) (AllMove-refl s.vaults)
  | inr (v, e) ↦ elim (Option-cases (get_transition_error v target requester now s.table)) [
    | inl fine ↦
        rw (e, finish_vault)
          (rw (fine, finish_vault)
            (set_status-AllMove id (terminal_status target) s e
              (no_error-valid v target requester now s.table fine)))
    | inr (err, refused) ↦ rw (e, finish_vault) (rw (refused, finish_vault) (AllMove-refl s.vaults))
  ]
]

same_status-eq : (a b : VaultStatus) → same_status a b ≡ true → a ≡ b
same_status-eq a b h = ground arith

terminal_stuck : (a b : VaultStatus) → is_terminal a ≡ true → is_valid_transition a b ≡ true → ⊥
unfolding is_terminal is_valid_transition
terminal_stuck a b t h = ground arith

activate_vault-AllMove : (id : String) (s : Store) → AllMove s.vaults (activate_vault id s).0.vaults
unfolding activate_vault is_valid_transition
activate_vault-AllMove id s = elim (Option-cases (find_vault id s.vaults)) [
  | inl e ↦ rw (e, activate_vault) (AllMove-refl s.vaults)
  | inr (v, e) ↦ elim (Bool-cases (same_status v.status draft)) [
    | inl is_draft ↦
        rw (e, activate_vault) (rw is_draft (set_status-AllMove id active s e (ground arith)))
    | inr other ↦ rw (e, activate_vault) (rw other (AllMove-refl s.vaults))
  ]
]

dispute_vault-AllMove :
    (id requester admin : String) (s : Store)
    → AllMove s.vaults (dispute_vault id requester admin s).0.vaults
unfolding dispute_vault
dispute_vault-AllMove id requester admin s = elim (Bool-cases (same requester admin)) [
  | inr not_admin ↦ rw not_admin (AllMove-refl s.vaults)
  | inl admits ↦ rw admits (elim (Option-cases (find_vault id s.vaults)) [
    | inl e ↦ rw (e, dispute_vault) (AllMove-refl s.vaults)
    | inr (v, e) ↦ elim (Bool-cases (is_valid_transition v.status disputed)) [
      | inl allowed ↦
          rw (e, dispute_vault) (rw allowed (set_status-AllMove id disputed s e allowed))
      | inr other ↦ rw (e, dispute_vault) (rw other (AllMove-refl s.vaults))
    ]
  ])
]

resolve_dispute-AllMove :
    (id requester admin : String) (target : DisputeResolution) (s : Store)
    → AllMove s.vaults (resolve_dispute id requester admin target s).0.vaults
unfolding resolve_dispute
resolve_dispute-AllMove id requester admin target s = elim (Bool-cases (same requester admin)) [
  | inr not_admin ↦ rw not_admin (AllMove-refl s.vaults)
  | inl admits ↦ rw admits (elim (Option-cases (find_vault id s.vaults)) [
    | inl e ↦ rw (e, resolve_dispute) (AllMove-refl s.vaults)
    | inr (v, e) ↦ elim (Bool-cases (same_status v.status disputed)) [
      | inr other ↦ rw (e, resolve_dispute) (rw other (AllMove-refl s.vaults))
      | inl in_dispute ↦
          rw (e, resolve_dispute)
            (rw in_dispute
              (elim (Bool-cases (is_valid_transition disputed (resolution_status target))) [
                | inl allowed ↦ rw allowed (
                    set_status-AllMove id (resolution_status target) s e (
                      subst (λ st. is_valid_transition st (resolution_status target) ≡ true)
                        (sym (same_status-eq v.status disputed in_dispute)) allowed))
                | inr refused ↦ rw refused (AllMove-refl s.vaults)
              ]))
    ]
  ])
]

-- Any call moves every vault along the table, or leaves it alone.
pub step-AllMove : (now : ℕ) (c : Call) (s : Store) → AllMove s.vaults (step now c s).vaults
unfolding step complete_vault fail_vault cancel_vault check_expired_vaults
step-AllMove now (complete id) s = finish_vault-AllMove to_completed id none now s
step-AllMove now (fail id) s = finish_vault-AllMove to_failed id none now s
step-AllMove now (activate id) s = activate_vault-AllMove id s
step-AllMove now (cancel id requester) s =
    finish_vault-AllMove to_cancelled id (some requester) now s
step-AllMove now check_expired s = expire-AllMove now s.vaults
step-AllMove now (dispute id requester admin) s = dispute_vault-AllMove id requester admin s
step-AllMove now (resolve id requester admin target) s =
    resolve_dispute-AllMove id requester admin target s

-- What the table of transitions lets a status become in any number of moves.
pub data Reaches (from : VaultStatus) : VaultStatus → Type 0 where
  here : Reaches from from
  next :
      {mid to : VaultStatus}
      → Reaches from mid
      → is_valid_transition mid to ≡ true
      → Reaches from to

Reaches-first :
    {from mid to : VaultStatus}
    → is_valid_transition from mid ≡ true
    → Reaches mid to
    → Reaches from to
Reaches-first h here = next here h
Reaches-first h (next r k) = next (Reaches-first h r) k

pub record Descends (v w : Vault) : Type 0 where
  pub same_id : w.id ≡ v.id
  pub same_creator : w.creator ≡ v.creator
  pub same_end : w.end_timestamp ≡ v.end_timestamp
  pub reached : Reaches v.status w.status

Descends-refl : (v : Vault) → Descends v v
Descends-refl v = record { same_id = refl; same_creator = refl; same_end = refl; reached = here }

Moves-Descends : {u v w : Vault} → Moves u v → Descends v w → Descends u w
Moves-Descends {w = w} (stay e) d = subst (λ x. Descends x w) e d
Moves-Descends {u} {v} {w} (move to e h) d =
    let d' : Descends (record u { status = to }) w = subst (λ x. Descends x w) e d in
    record {
      same_id = d'.same_id;
      same_creator = d'.same_creator;
      same_end = d'.same_end;
      reached = Reaches-first h d'.reached;
    }

AllMove-at :
    (i : ℕ) (vs ws : List Vault) {v : Vault}
    → AllMove vs ws
    → get_elem? vs i ≡ some v
    → (w : Vault) × (get_elem? ws i ≡ some w) × Moves v w
AllMove-at i [] ws m h = cc
AllMove-at i (x ∷ vs) [] m h = absurd m
AllMove-at zero (x ∷ vs) (y ∷ ws) m h = (y, refl, subst (λ a. Moves a y) (some-injective _ _ h) m.0)
AllMove-at (suc i) (x ∷ vs) (y ∷ ws) m h = AllMove-at i vs ws m.1 h

-- Whatever calls are made, at whatever times, the vault in each position keeps its id, creator and
-- end date, and its status is one that the table of transitions reaches from where it was.
pub run-Descends :
    (cs : List (ℕ × Call)) (s : Store) (i : ℕ) {v : Vault}
    → get_elem? s.vaults i ≡ some v
    → (w : Vault) × (get_elem? (run cs s).vaults i ≡ some w) × Descends v w
unfolding run
run-Descends [] s i {v} h = (v, h, Descends-refl v)
run-Descends ((now, c) ∷ cs) s i {v} h =
    let (u, hu, m) = AllMove-at i s.vaults (step now c s).vaults {v = v} (step-AllMove now c s) h in
    let (w, hw, d) = run-Descends cs (step now c s) i {v = u} hu in (w, hw, Moves-Descends m d)

terminal_stays : {from to : VaultStatus} → is_terminal from ≡ true → Reaches from to → to ≡ from
terminal_stays h here = refl
terminal_stays {from} {to} h (next {mid = mid} r k) =
    absurd
      (terminal_stuck mid to (subst (λ st. is_terminal st ≡ true) (sym (terminal_stays h r)) h) k)

-- A completed, failed or cancelled vault never changes its status again.
run-terminal :
    (cs : List (ℕ × Call)) (s : Store) (i : ℕ) {v : Vault}
    → get_elem? s.vaults i ≡ some v
    → is_terminal v.status ≡ true
    → (w : Vault) × (get_elem? (run cs s).vaults i ≡ some w) × (w.status ≡ v.status)
run-terminal cs s i {v} h t =
    let (w, hw, d) = run-Descends cs s i {v = v} h in (w, hw, terminal_stays t d.reached)
