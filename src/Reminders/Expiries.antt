-- ===== src/Reminders/Expiries.antt =====
-- The vaults that src/services/vaultExpiry.service.ts fails at their deadline.
use disciplr_backend.Prelude.{
  ℕ, suc, zero, true, false, Option, none, some, List, [], ◌∷◌, ◌≡◌, refl, arith, map, filter, All,
  Bool-cases, inl, inr, if_both, same_refl, leb,
}
use disciplr_backend.Reminders.{
  NotificationInput, PreferenceRow, VaultRow, is_active, is_expired, has_id, fail_selected, limited,
  notify_expiries, mark_vault_expiries,
}

Selects : ℕ → List VaultRow → VaultRow → Type 0
Selects now selected v = is_expired now v ≡ true → has_id selected v ≡ true

-- A longer selection selects no less.
All-Selects :
    (now : ℕ) (s t vs : List VaultRow)
    → ((v : VaultRow) → has_id s v ≡ true → has_id t v ≡ true)
    → All (Selects now s) vs
    → All (Selects now t) vs
unfolding Selects
All-Selects now s t [] f h = tt
All-Selects now s t (v ∷ vs) f h = ((λ e. f v (h.0 e)), All-Selects now s t vs f h.1)

has_id-filter :
    (now : ℕ) (v w : VaultRow) (vs : List VaultRow)
    → has_id (filter (is_expired now) vs) w ≡ true
    → has_id (filter (is_expired now) (v ∷ vs)) w ≡ true
unfolding has_id
has_id-filter now v w vs h = if_both (λ s. has_id s w ≡ true) (is_expired now v) (ground arith) h

filter-Selects : (now : ℕ) (vs : List VaultRow) → All (Selects now (filter (is_expired now) vs)) vs
unfolding Selects has_id
filter-Selects now [] = tt
filter-Selects now (v ∷ vs) = (
  (λ e. rw (e) (rw (same_refl v.id) refl)),
  All-Selects now (filter (is_expired now) vs) (filter (is_expired now) (v ∷ vs)) vs
      (λ w h. has_id-filter now v w vs h) (filter-Selects now vs),
)

fail_selected-is_expired :
    (now : ℕ) (s : List VaultRow) (v : VaultRow)
    → Selects now s v
    → is_expired now (fail_selected s v) ≡ false
unfolding Selects fail_selected is_expired
fail_selected-is_expired now s v h = elim (Bool-cases (is_active v.status)) [
  | inr f ↦ elim (Bool-cases (has_id s v)) [
    | inl e ↦ rw (e, f) (rw (f) refl)
    | inr e ↦ rw (e, f) refl
  ]
  | inl f ↦ elim (Bool-cases (has_id s v)) [
    | inl e ↦ rw (e, f) refl
    | inr e ↦ elim (Bool-cases (leb v.end_date now)) [
      | inl g ↦ cc (h (rw (f, g) refl), e)
      | inr g ↦ rw (e, f, g) refl
    ]
  ]
]

none_left :
    (now : ℕ) (s vs : List VaultRow)
    → All (Selects now s) vs
    → filter (is_expired now) (map (fail_selected s) vs) ≡ []
none_left now s [] h = refl
none_left now s (v ∷ vs) h = rw (fail_selected-is_expired now s v h.0) (none_left now s vs h.1)

map-fail_selected : (vs : List VaultRow) → map (fail_selected []) vs ≡ vs
unfolding fail_selected has_id
map-fail_selected [] = refl
map-fail_selected (v ∷ vs) = rw (map-fail_selected vs) refl

limited-none : (limit : Option ℕ) → limited limit [] ≡ []
unfolding limited
limited-none none = refl
limited-none (some zero) = refl
limited-none (some (suc n)) = if_both (λ vs. vs ≡ []) (leb (suc n) 0) refl refl

-- After a run without a limit every vault that was active and past its end date is failed: a second
-- run at the same time, with any limit, changes no vault, writes no notification and reports zero.
pub mark_vault_expiries_again :
    (prefs : List PreferenceRow) (now : ℕ) (limit : Option ℕ) (vaults : List VaultRow)
    (rows : List NotificationInput)
    → let r = mark_vault_expiries prefs now none vaults rows in
      mark_vault_expiries prefs now limit r.0 r.1 ≡ (r.0, r.1, 0)
unfolding mark_vault_expiries limited notify_expiries
mark_vault_expiries_again prefs now limit vaults rows =
    let selected = filter (is_expired now) vaults in
    rw
      (
        none_left now selected vaults (filter-Selects now vaults),
        limited-none limit,
        map-fail_selected (map (fail_selected selected) vaults),
      )
      refl
