-- ===== src/Reminders.antt =====
-- The reminders of src/services/vaultExpiry.service.ts with what they call of
-- src/services/notification.ts and src/models/notificationPreferences.ts. Times are milliseconds,
-- and the database is taken to answer. How the language prints a number is a parameter.
pub mod Leads
pub mod Repeats
pub mod Expiries
use disciplr_backend.Prelude.{
  ℕ, zero, suc, ◌+◌, ◌-◌, ◌==◌, String, Bool, true, false, not, ◌&&◌, Option, none, some, List, [],
  ◌∷◌, ◌++◌, map, ltb, leb, if◌then◌else◌, filter, find, any, length, same, join, is_empty,
  or_default,
}

pub data VaultStatus : Type 0 where
  active completed failed cancelled : VaultStatus

pub record VaultRow : Type 0 where
  pub id : String
  pub creator : String
  pub organization_id : Option String
  pub status : VaultStatus
  pub end_date : ℕ

pub record MilestoneRow : Type 0 where
  pub id : String
  pub vault_id : String
  pub title : String
  pub is_pending : Bool
  pub due_date : Option ℕ

-- A row of the join that the reminders select.
pub record VaultMilestone : Type 0 where
  pub vault_id : String
  pub user_id : String
  pub organization_id : Option String
  pub milestone_id : String
  pub milestone_title : String
  pub due_date : ℕ

pub record ReminderData : Type 0 where
  pub vault_id : String
  pub milestone_id : String
  pub due_date : ℕ
  pub lead_time_ms : ℕ

pub data NotificationData : Type 0 where
  vault_failure : (vault_id : String) → NotificationData
  milestone_reminder : ReminderData → NotificationData

pub record NotificationInput : Type 0 where
  pub user_id : String
  pub category : String
  pub title : String
  pub message : String
  pub content : NotificationData
  pub idempotency_key : Option String
  pub organization_id : Option String

pub record PreferenceRow : Type 0 where
  pub organization_id : String
  pub category : String
  pub channel : String
  pub enabled : Bool

abbrev pub in_category : String → PreferenceRow → Bool
in_category c r = same r.category c

unfoldable pub rows_of : String → String → String → List PreferenceRow → List PreferenceRow
rows_of org category channel rows =
    filter
      (λ r.
        same r.organization_id org
        && same r.channel channel
        && any (same r.category) (category ∷ "" ∷ []))
      rows

unfoldable pub is_enabled_by : String → List PreferenceRow → Bool
is_enabled_by category rows = elim (find (in_category category) rows) [
  | some r ↦ r.enabled
  | none ↦ elim (find (in_category "") rows) [ some r ↦ r.enabled | none ↦ true ]
]

unfoldable pub is_notification_enabled : Option String → String → String → List PreferenceRow → Bool
unfolding rows_of is_enabled_by
is_notification_enabled none category channel rows = true
is_notification_enabled (some org) category channel rows =
    if is_empty org then true else is_enabled_by category (rows_of org category channel rows)

-- The unique index on the user and the key, for rows with a key.
abbrev pub has_key : String → String → NotificationInput → Bool
has_key user key n = same n.user_id user && any (same key) (keys n.idempotency_key)
  where
    keys : Option String → List String
    keys none = []
    keys (some k) = k ∷ []

-- A row with this key that is there already is found again, and nothing is written.
abbrev pub insert_under :
    Option String → NotificationInput → List NotificationInput → List NotificationInput
insert_under none n rows = rows ++ n ∷ []
insert_under (some key) n rows = if any (has_key n.user_id key) rows then rows else rows ++ n ∷ []

unfoldable pub insert_notification :
    NotificationInput → List NotificationInput → List NotificationInput
insert_notification n rows = insert_under n.idempotency_key n rows

unfoldable pub create_notification :
    List PreferenceRow → NotificationInput → List NotificationInput → List NotificationInput
create_notification prefs n rows =
    if is_notification_enabled n.organization_id n.category "email" prefs
    then insert_notification n rows
    else rows

abbrev pub is_active : VaultStatus → Bool
is_active VaultStatus.active = true
is_active _ = false

-- .limit(n) when `opts.limit` is truthy
unfoldable pub limited : Option ℕ → List VaultRow → List VaultRow
limited none vs = vs
limited (some n) vs = if leb n 0 then vs else first n vs
  where
    first : ℕ → List VaultRow → List VaultRow
    first zero vs = []
    first (suc n) [] = []
    first (suc n) (v ∷ vs) = v ∷ first n vs

unfoldable pub is_expired : ℕ → VaultRow → Bool
is_expired now v = is_active v.status && leb v.end_date now

unfoldable pub has_id : List VaultRow → VaultRow → Bool
has_id selected v = any (λ w. same w.id v.id) selected

unfoldable pub fail_selected : List VaultRow → VaultRow → VaultRow
fail_selected selected v =
    if has_id selected v && is_active v.status then record v { status = failed } else v

unfoldable pub expiry_notification : VaultRow → NotificationInput
expiry_notification v = record {
  user_id = v.creator;
  category = "vault_failure";
  title = "Vault Deadline Reached";
  message = "A vault in your account has expired and been marked as failed.";
  content = vault_failure v.id;
  idempotency_key = none;
  organization_id = v.organization_id;
}

unfoldable pub notify_expiries :
    List PreferenceRow → List VaultRow → List NotificationInput → List NotificationInput
notify_expiries prefs [] rows = rows
notify_expiries prefs (v ∷ vs) rows =
    notify_expiries prefs vs (create_notification prefs (expiry_notification v) rows)

-- The vaults and the notifications after the run, and the number of vaults it failed.
unfoldable pub mark_vault_expiries :
    List PreferenceRow
    → (now : ℕ) → Option ℕ
    → List VaultRow
    → List NotificationInput
    → List VaultRow × List NotificationInput × ℕ
mark_vault_expiries prefs now limit vaults rows =
    let selected = limited limit (filter (is_expired now) vaults) in
    (map (fail_selected selected) vaults, notify_expiries prefs selected rows, length selected)

-- The default lead times are 72, 24 and 1 hours.
abbrev pub default_lead_times_ms : List ℕ
default_lead_times_ms = 259200000 ∷ 86400000 ∷ 3600000 ∷ []

unfoldable pub is_within : ℕ → ℕ → ℕ → Bool
is_within now due lead = ltb now due && leb (due - now) lead

abbrev pub remind_of : VaultRow → MilestoneRow → Option VaultMilestone
remind_of v m = elim m.due_date [
  | none ↦ none
  | some due ↦
      if same m.vault_id v.id && m.is_pending
      then some record {
        vault_id = v.id;
        user_id = v.creator;
        organization_id = v.organization_id;
        milestone_id = m.id;
        milestone_title = m.title;
        due_date = due;
      }
      else none
]

unfoldable pub join_milestones : VaultRow → List MilestoneRow → List VaultMilestone
join_milestones v [] = []
join_milestones v (m ∷ ms) =
    let rest = join_milestones v ms in elim (remind_of v m) [ none ↦ rest | some vm ↦ vm ∷ rest ]

-- The active vaults joined with their pending milestones that have a due date.
unfoldable pub select_pending : List VaultRow → List MilestoneRow → List VaultMilestone
select_pending [] ms = []
select_pending (v ∷ vs) ms =
    let rest = select_pending vs ms in
    if is_active v.status then join_milestones v ms ++ rest else rest

unfoldable pub is_used_up : Option ℕ → ℕ → Bool
is_used_up none sent = false
is_used_up (some n) sent = not (leb n 0) && leb n sent

module _ (number_text hours_text : ℕ → String) where
  unfoldable pub reminder_key : String → ℕ → String
  reminder_key milestone lead =
      join "milestone-reminder-" (join milestone (join "-" (number_text lead)))

  abbrev pub lead_time_text : ℕ → String
  lead_time_text lead = if lead == 3600000 then "1 hour" else join (hours_text lead) " hours"

  unfoldable pub reminder : VaultMilestone → ℕ → NotificationInput
  reminder vm lead = record {
    user_id = vm.user_id;
    category = "milestone_reminder";
    title = join "Milestone Reminder: " vm.milestone_title;
    message = join "Your milestone is due in " (
        join (lead_time_text lead)
          "! Don't forget to check in before the deadline to avoid a slash.");
    content = milestone_reminder record {
      vault_id = vm.vault_id;
      milestone_id = vm.milestone_id;
      due_date = vm.due_date;
      lead_time_ms = lead;
    };
    idempotency_key = some (reminder_key vm.milestone_id lead);
    organization_id = vm.organization_id;
  }

  -- The first lead time that the milestone is within gets the reminder, and the loop breaks.
  unfoldable pub send_first :
      List PreferenceRow
      → (now : ℕ) → List ℕ
      → VaultMilestone
      → (sent : ℕ) → List NotificationInput
      → List NotificationInput × ℕ
  send_first prefs now [] vm sent rows = (rows, sent)
  send_first prefs now (lead ∷ leads) vm sent rows =
      let rest = send_first prefs now leads vm sent rows in
      if is_within now vm.due_date lead
      then (create_notification prefs (reminder vm lead) rows, sent + 1)
      else rest

  unfoldable pub send_each :
      List PreferenceRow
      → (now : ℕ) → List ℕ
      → Option ℕ
      → List VaultMilestone
      → (sent : ℕ) → List NotificationInput
      → List NotificationInput × ℕ
  send_each prefs now leads limit [] sent rows = (rows, sent)
  send_each prefs now leads limit (vm ∷ vms) sent rows =
      let r = send_first prefs now leads vm sent rows in
      let rest = send_each prefs now leads limit vms r.1 r.0 in
      if is_used_up limit sent then (rows, sent) else rest

  -- The notifications after the run, and the number it reports.
  unfoldable pub send_milestone_reminders :
      List PreferenceRow
      → (now : ℕ) → Option (List ℕ)
      → Option ℕ
      → List VaultRow
      → List MilestoneRow
      → List NotificationInput
      → List NotificationInput × ℕ
  send_milestone_reminders prefs now leads limit vaults milestones rows =
      send_each prefs now (or_default leads default_lead_times_ms) limit
        (select_pending vaults milestones) 0 rows
