-- ===== src/Examples/Deadlines.antt =====
-- Deadlines and reminders through the model of src/services/vaultExpiry.service.ts.
use disciplr_backend.Prelude.{
  ℕ, String, true, false, none, some, List, [], ◌∷◌, ◌≡◌, refl, arith, all,
}
use disciplr_backend.Reminders.{
  VaultRow, active, MilestoneRow, PreferenceRow, mark_vault_expiries, send_milestone_reminders,
  send_each, select_pending, join_milestones, is_used_up, send_first, is_within, is_expired,
  limited,
}
use disciplr_backend.Reminders.Leads.{reminds_at, send_milestone_reminders_longest}
use disciplr_backend.Reminders.Repeats.{send_milestone_reminders_again}
use disciplr_backend.Reminders.Expiries.{mark_vault_expiries_again}

abbrev digits : ℕ → String
digits n = "n"

-- The organization turned the whole channel off, and the reminders on.
abbrev reminders_only : List PreferenceRow
reminders_only =
    record { organization_id = "acme"; category = ""; channel = "email"; enabled = false }
    ∷ record {
      organization_id = "acme";
      category = "milestone_reminder";
      channel = "email";
      enabled = true;
    }
    ∷ []

abbrev two_vaults : List VaultRow
two_vaults =
    record {
      id = "v1";
      creator = "alice";
      organization_id = some "acme";
      status = active;
      end_date = 9000000;
    }
    ∷ record { id = "v2"; creator = "bob"; organization_id = none; status = active; end_date = 100 }
    ∷ []

-- It is due in half an hour when the time is 1000.
abbrev due_soon : List MilestoneRow
due_soon =
    record {
      id = "m1";
      vault_id = "v1";
      title = "Ship";
      is_pending = true;
      due_date = some 1801000;
    }
    ∷ []

send_milestone_reminders_longest_example :
    all
      (reminds_at 259200000)
      (send_milestone_reminders digits digits reminders_only 1000 none none two_vaults due_soon
        []).0
    ≡ true
send_milestone_reminders_longest_example =
    send_milestone_reminders_longest digits digits reminders_only 1000 259200000 none
      (86400000 ∷ 3600000 ∷ []) none two_vaults due_soon [] refl (omega arith, (omega arith, tt))
      refl

send_milestone_reminders_again_example :
    send_milestone_reminders digits digits reminders_only 1000 none
      (some 1)
      two_vaults
      due_soon
      (send_milestone_reminders digits digits reminders_only 1000 none
        (some 1)
        two_vaults
        due_soon
        []).0
    ≡ send_milestone_reminders digits digits reminders_only 1000 none
        (some 1)
        two_vaults
        due_soon
        []
send_milestone_reminders_again_example =
    send_milestone_reminders_again digits digits reminders_only 1000 none (some 1) two_vaults
      due_soon []

mark_vault_expiries_again_example :
    mark_vault_expiries reminders_only 1000
      (some 1)
      (mark_vault_expiries reminders_only 1000 none two_vaults []).0
      (mark_vault_expiries reminders_only 1000 none two_vaults []).1
    ≡ (
      (mark_vault_expiries reminders_only 1000 none two_vaults []).0,
      (mark_vault_expiries reminders_only 1000 none two_vaults []).1,
      0,
    )
mark_vault_expiries_again_example =
    mark_vault_expiries_again reminders_only 1000 (some 1) two_vaults []

-- The milestone is due in half an hour and gets the reminder of three days.
reminders_written :
    (send_milestone_reminders digits digits reminders_only 1000 none none two_vaults due_soon []).1
    ≡ 1
unfolding send_milestone_reminders send_each select_pending join_milestones is_used_up send_first
    is_within
reminders_written = refl

expiries_marked : (mark_vault_expiries reminders_only 1000 none two_vaults []).2 ≡ 1
unfolding mark_vault_expiries is_expired limited
expiries_marked = refl
