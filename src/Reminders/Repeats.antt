-- ===== src/Reminders/Repeats.antt =====
-- Repeated runs of the reminders of src/services/vaultExpiry.service.ts.
use disciplr_backend.Prelude.{
  ℕ, String, Bool, true, Option, List, [], ◌∷◌, ◌++◌, ◌≡◌, refl, arith, any, or_default, Bool-cases,
  inl, inr, same_refl, if_both,
}
use disciplr_backend.Reminders.{
  NotificationInput, PreferenceRow, has_key, insert_notification, create_notification,
  is_notification_enabled, VaultMilestone, VaultRow, MilestoneRow, default_lead_times_ms, is_within,
  is_used_up, select_pending, reminder, reminder_key, send_first, send_each,
  send_milestone_reminders,
}

-- Each key that the first store has, the second has too.
Covers : List NotificationInput → List NotificationInput → Type 0
Covers s t = (user key : String) → any (has_key user key) s ≡ true → any (has_key user key) t ≡ true

any-append_left {ℓ} :
    {A : Type ℓ} (p : A → Bool) (xs : List A) (x : A)
    → any p xs ≡ true
    → any p (xs ++ x ∷ []) ≡ true
any-append_left p [] x h = cc h
any-append_left p (y ∷ ys) x h = ground (arith, any-append_left p ys x)

any-append_last {ℓ} :
    {A : Type ℓ} (p : A → Bool) (xs : List A) (x : A) → p x ≡ true → any p (xs ++ x ∷ []) ≡ true
any-append_last p [] x h = ground arith
any-append_last p (y ∷ ys) x h = ground (arith, any-append_last p ys x)

module _ (number_text hours_text : ℕ → String) (prefs : List PreferenceRow) where
  abbrev create : VaultMilestone → ℕ → List NotificationInput → List NotificationInput
  create vm lead rows = create_notification prefs (reminder number_text hours_text vm lead) rows

  create-Covers :
      (vm : VaultMilestone) (lead : ℕ) (rows : List NotificationInput)
      → Covers rows (create vm lead rows)
  unfolding Covers create_notification insert_notification reminder
  create-Covers vm lead rows user key h =
      if_both (λ r. any (has_key user key) r ≡ true)
        (is_notification_enabled vm.organization_id "milestone_reminder" "email" prefs)
        (if_both (λ r. any (has_key user key) r ≡ true)
          (any (has_key vm.user_id (reminder_key number_text hours_text vm.milestone_id lead)) rows)
          h (any-append_left (has_key user key) rows (reminder number_text hours_text vm lead) h))
        h

  insert-key :
      (vm : VaultMilestone) (lead : ℕ) (rows : List NotificationInput)
      → any
          (has_key vm.user_id (reminder_key number_text hours_text vm.milestone_id lead))
          (insert_notification (reminder number_text hours_text vm lead) rows)
        ≡ true
  unfolding insert_notification reminder
  insert-key vm lead rows =
      let key = reminder_key number_text hours_text vm.milestone_id lead in
      let row = reminder number_text hours_text vm lead in
      elim (Bool-cases (any (has_key vm.user_id key) rows)) [
        | inl there ↦ rw (there) there
        | inr fresh ↦ rw (fresh) (
            any-append_last (has_key vm.user_id key) rows row
              (rw (same_refl vm.user_id, same_refl key) refl))
      ]

  insert_there :
      (vm : VaultMilestone) (lead : ℕ) (t : List NotificationInput)
      → any (has_key vm.user_id (reminder_key number_text hours_text vm.milestone_id lead)) t ≡ true
      → insert_notification (reminder number_text hours_text vm lead) t ≡ t
  unfolding insert_notification reminder
  insert_there vm lead t h = rw (h) refl

  -- A store that has the keys of one that the reminder went to is not changed by it.
  create_again :
      (vm : VaultMilestone) (lead : ℕ) (rows t : List NotificationInput)
      → Covers (create vm lead rows) t
      → create vm lead t ≡ t
  unfolding Covers create_notification reminder
  create_again vm lead rows t h =
      elim (Bool-cases
        (is_notification_enabled vm.organization_id "milestone_reminder" "email" prefs)) [
          | inr off ↦ rw (off) refl
          | inl on ↦ rw (on) (
              insert_there vm lead t (
                h vm.user_id (reminder_key number_text hours_text vm.milestone_id lead)
                  (rw (on) (insert-key vm lead rows))))
        ]

  module _ (now : ℕ) where
    send_first-Covers :
        (leads : List ℕ) (vm : VaultMilestone) (sent : ℕ) (rows : List NotificationInput)
        → Covers rows (send_first number_text hours_text prefs now leads vm sent rows).0
    unfolding Covers send_first
    send_first-Covers [] vm sent rows user key h = h
    send_first-Covers (lead ∷ leads) vm sent rows user key h =
        if_both (λ (q : List NotificationInput × ℕ). any (has_key user key) q.0 ≡ true)
          (is_within now vm.due_date lead) (create-Covers vm lead rows user key h)
          (send_first-Covers leads vm sent rows user key h)

    send_each-Covers :
        (leads : List ℕ) (limit : Option ℕ) (vms : List VaultMilestone) (sent : ℕ)
        (rows : List NotificationInput)
        → Covers rows (send_each number_text hours_text prefs now leads limit vms sent rows).0
    unfolding Covers send_each
    send_each-Covers leads limit [] sent rows user key h = h
    send_each-Covers leads limit (vm ∷ vms) sent rows user key h =
        let r = send_first number_text hours_text prefs now leads vm sent rows in
        if_both (λ (q : List NotificationInput × ℕ). any (has_key user key) q.0 ≡ true)
          (is_used_up limit sent) h
          (send_each-Covers leads limit vms r.1 r.0 user key
            (send_first-Covers leads vm sent rows user key h))

    send_first_again :
        (leads : List ℕ) (vm : VaultMilestone) (sent : ℕ) (rows t : List NotificationInput)
        → Covers (send_first number_text hours_text prefs now leads vm sent rows).0 t
        → send_first number_text hours_text prefs now leads vm sent t
          ≡ (t, (send_first number_text hours_text prefs now leads vm sent rows).1)
    unfolding send_first
    send_first_again [] vm sent rows t h = refl
    send_first_again (lead ∷ leads) vm sent rows t h =
        elim (Bool-cases (is_within now vm.due_date lead)) [
          | inl e ↦ rw (e) (rw (create_again vm lead rows t (rw (e) at h)) refl)
          | inr e ↦ rw (e) (send_first_again leads vm sent rows t (rw (e) at h))
        ]

    send_each_again :
        (leads : List ℕ) (limit : Option ℕ) (vms : List VaultMilestone) (sent : ℕ)
        (rows t : List NotificationInput)
        → Covers (send_each number_text hours_text prefs now leads limit vms sent rows).0 t
        → send_each number_text hours_text prefs now leads limit vms sent t
          ≡ (t, (send_each number_text hours_text prefs now leads limit vms sent rows).1)
    unfolding send_each Covers
    send_each_again leads limit [] sent rows t h = refl
    send_each_again leads limit (vm ∷ vms) sent rows t h =
        elim (Bool-cases (is_used_up limit sent)) [
          | inl e ↦ rw (e) refl
          | inr e ↦
              let r = send_first number_text hours_text prefs now leads vm sent rows in
              let later : Covers
                  (send_each number_text hours_text prefs now leads limit vms r.1 r.0).0 t =
                rw (e) at h in
              let first : Covers r.0 t = λ user key k.
                later user key (send_each-Covers leads limit vms r.1 r.0 user key k) in
              rw (e) (
                rw (send_first_again leads vm sent rows t first)
                  (send_each_again leads limit vms r.1 r.0 t later))
        ]

-- A run of the reminders again, at the same time and on the same vaults and milestones, writes no
-- notification, and reports as many reminders as the run before it: a reminder that is there
-- already counts, in the number and towards the limit, like one that is sent.
pub send_milestone_reminders_again :
    (number_text hours_text : ℕ → String) (prefs : List PreferenceRow) (now : ℕ)
    (leads : Option (List ℕ)) (limit : Option ℕ) (vaults : List VaultRow)
    (milestones : List MilestoneRow) (rows : List NotificationInput)
    → let send =
        send_milestone_reminders number_text hours_text prefs now leads limit vaults milestones in
      send (send rows).0 ≡ send rows
unfolding send_milestone_reminders Covers
send_milestone_reminders_again number_text hours_text prefs now leads limit vaults milestones rows =
    let vms = select_pending vaults milestones in
    let times = or_default leads default_lead_times_ms in
    send_each_again number_text hours_text prefs now times limit vms 0 rows
      (send_each number_text hours_text prefs now times limit vms 0 rows).0 (λ user key k. k)
