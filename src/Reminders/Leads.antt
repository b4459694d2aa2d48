-- ===== src/Reminders/Leads.antt =====
-- The lead times in src/services/vaultExpiry.service.ts.
use disciplr_backend.Prelude.{
  ℕ, ◌≤◌, ◌==◌, String, Bool, true, false, Option, none, some, List, [], ◌∷◌, ◌++◌, ◌≡◌, refl,
  arith, All, all, or_default, Bool-cases, inl, inr, any, if_both,
}
use disciplr_backend.Reminders.{
  vault_failure, milestone_reminder, NotificationInput, PreferenceRow, has_key, insert_notification,
  insert_under, create_notification, is_notification_enabled, VaultMilestone, VaultRow,
  MilestoneRow, default_lead_times_ms, is_within, is_used_up, select_pending, reminder, send_first,
  send_each, send_milestone_reminders,
}

-- A reminder that is for the given lead time, or no reminder.
abbrev pub reminds_at : ℕ → NotificationInput → Bool
reminds_at lead n = elim n.content [
  | vault_failure v ↦ true
  | milestone_reminder d ↦ d.lead_time_ms == lead
]

all-append {ℓ} :
    {A : Type ℓ} (p : A → Bool) (xs : List A) (x : A)
    → all p xs ≡ true
    → p x ≡ true
    → all p (xs ++ x ∷ []) ≡ true
all-append p [] x h px = ground arith
all-append p (y ∷ ys) x h px = ground (arith, all-append p ys x)

insert_under-all :
    (p : NotificationInput → Bool) (key : Option String) (n : NotificationInput)
    (rows : List NotificationInput)
    → all p rows ≡ true
    → p n ≡ true
    → all p (insert_under key n rows) ≡ true
insert_under-all p none n rows h pn = all-append p rows n h pn
insert_under-all p (some key) n rows h pn =
    if_both (λ r. all p r ≡ true) (any (has_key n.user_id key) rows) h (all-append p rows n h pn)

-- What the store says of each row is kept by a creation of a row that has it.
create_notification-all :
    (p : NotificationInput → Bool) (prefs : List PreferenceRow) (n : NotificationInput)
    (rows : List NotificationInput)
    → all p rows ≡ true
    → p n ≡ true
    → all p (create_notification prefs n rows) ≡ true
unfolding create_notification insert_notification
create_notification-all p prefs n rows h pn =
    if_both (λ r. all p r ≡ true)
      (is_notification_enabled n.organization_id n.category "email" prefs)
      (insert_under-all p n.idempotency_key n rows h pn) h

is_within_mono :
    (now due l lead : ℕ) → l ≤ lead → is_within now due lead ≡ false → is_within now due l ≡ false
unfolding is_within
is_within_mono now due l lead h e = ground arith

module _ (number_text hours_text : ℕ → String) (prefs : List PreferenceRow) (now : ℕ) where
  send_first_outside :
      (lead : ℕ) (leads : List ℕ) (vm : VaultMilestone) (sent : ℕ) (rows : List NotificationInput)
      → All (λ l. l ≤ lead) leads
      → is_within now vm.due_date lead ≡ false
      → send_first number_text hours_text prefs now leads vm sent rows ≡ (rows, sent)
  unfolding send_first
  send_first_outside lead [] vm sent rows h e = refl
  send_first_outside lead (l ∷ leads) vm sent rows h e =
      rw (is_within_mono now vm.due_date l lead h.0 e)
        (send_first_outside lead leads vm sent rows h.1 e)

  send_first-all :
      (lead : ℕ) (leads : List ℕ) (vm : VaultMilestone) (sent : ℕ) (rows : List NotificationInput)
      → All (λ l. l ≤ lead) leads
      → all (reminds_at lead) rows ≡ true
      → all
          (reminds_at lead)
          (send_first number_text hours_text prefs now (lead ∷ leads) vm sent rows).0
        ≡ true
  unfolding send_first reminder
  send_first-all lead leads vm sent rows h e = elim (Bool-cases (is_within now vm.due_date lead)) [
    | inl g ↦ rw (g) (
        create_notification-all (reminds_at lead) prefs (reminder number_text hours_text vm lead)
          rows e (ground arith))
    | inr g ↦ rw (g, send_first_outside lead leads vm sent rows h g) e
  ]

  send_each-all :
      (lead : ℕ) (leads : List ℕ) (limit : Option ℕ) (vms : List VaultMilestone) (sent : ℕ)
      (rows : List NotificationInput)
      → All (λ l. l ≤ lead) leads
      → all (reminds_at lead) rows ≡ true
      → all
          (reminds_at lead)
          (send_each number_text hours_text prefs now (lead ∷ leads) limit vms sent rows).0
        ≡ true
  unfolding send_each
  send_each-all lead leads limit [] sent rows h e = e
  send_each-all lead leads limit (vm ∷ vms) sent rows h e =
      let r = send_first number_text hours_text prefs now (lead ∷ leads) vm sent rows in
      if_both (λ (q : List NotificationInput × ℕ). all (reminds_at lead) q.0 ≡ true)
        (is_used_up limit sent) e
        (send_each-all lead leads limit vms r.1 r.0 h (send_first-all lead leads vm sent rows h e))

-- Where the first of the lead times, by default 72, 24 and 1 hours, is the longest, a run of the
-- reminders writes reminders for that lead time only: a store whose reminders are all for the
-- longest lead time keeps that, and no reminder is written for a shorter one.
pub send_milestone_reminders_longest :
    (number_text hours_text : ℕ → String) (prefs : List PreferenceRow) (now lead : ℕ)
    (leads : Option (List ℕ)) (rest : List ℕ) (limit : Option ℕ) (vaults : List VaultRow)
    (milestones : List MilestoneRow) (rows : List NotificationInput)
    → or_default leads default_lead_times_ms ≡ lead ∷ rest
    → All (λ l. l ≤ lead) rest
    → all (reminds_at lead) rows ≡ true
    → all
        (reminds_at lead)
        (send_milestone_reminders number_text hours_text prefs now leads limit vaults milestones
          rows).0
      ≡ true
unfolding send_milestone_reminders
send_milestone_reminders_longest number_text hours_text prefs now lead leads rest limit vaults
      milestones rows e h start =
    rw (e) (
      send_each-all number_text hours_text prefs now lead rest limit
        (select_pending vaults milestones) 0 rows h start)
