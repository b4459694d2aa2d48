-- ===== src/Vault/Milestones.antt =====
-- src/services/milestones.ts. The module's two arrays are the record `Table`; a fresh id and the
-- current time are arguments. Times are milliseconds.
pub mod Validation
use disciplr_backend.Prelude.{
  ℕ, ◌+◌, ◌-◌, ◌<◌, String, Bool, true, false, ◌&&◌, ◌||◌, not, Option, none, some, List, [], ◌∷◌,
  ◌++◌, map, max, ltb, leb, ◌==◌, if◌then◌else◌, is_some, or_default, filter, find, all,
  modify_first, same, is_empty, or_null, length,
}

-- `approval_threshold` is the property that `createMilestoneWithThreshold` adds by a cast.
pub record Milestone : Type 0 where
  pub id : String
  pub vault_id : String
  pub description : String
  pub verified : Bool
  pub verified_at : Option ℕ
  pub verified_by : Option String
  pub verifier_id : Option String
  pub evidence_hash : Option String
  pub created_at : ℕ
  pub due_date : Option ℕ
  pub approval_threshold : Option ℕ

pub data MilestoneStatus : Type 0 where
  success failed : MilestoneStatus

pub record MilestoneEvent : Type 0 where
  pub id : String
  pub user_id : String
  pub vault_id : String
  pub name : String
  pub status : MilestoneStatus
  pub timestamp : ℕ

pub record Table : Type 0 where
  pub milestones : List Milestone
  pub events : List MilestoneEvent

unfoldable pub has_id : String → Milestone → Bool
has_id id m = same m.id id

unfoldable pub in_vault : String → Milestone → Bool
in_vault vault_id m = same m.vault_id vault_id

unfoldable pub create_milestone :
    String → ℕ → String → String → Option String → Option ℕ → Table → Table × Milestone
create_milestone id now vault_id description verifier_id due_date t =
    (record t { milestones = t.milestones ++ milestone ∷ [] }, milestone)
  where
    milestone : Milestone
    milestone = record {
      id = id;
      vault_id = vault_id;
      description = description;
      verified = false;
      verified_at = none;
      verified_by = none;
      verifier_id = or_null verifier_id;
      evidence_hash = none;
      created_at = now;
      due_date = due_date;
      approval_threshold = none;
    }

unfoldable pub get_milestones_by_vault_id : String → Table → List Milestone
unfolding in_vault
get_milestones_by_vault_id vault_id t = filter (in_vault vault_id) t.milestones

unfoldable pub get_milestone_by_id : String → Table → Option Milestone
unfolding has_id
get_milestone_by_id id t = find (has_id id) t.milestones

unfoldable pub verify_milestone : String → ℕ → Table → Table × Option Milestone
unfolding get_milestone_by_id
verify_milestone id now t = elim (get_milestone_by_id id t) [
  | none ↦ (t, none)
  | some m ↦
      let write = λ (x : Milestone). record x { verified = true; verified_at = some now } in
      (record t { milestones = modify_first (has_id id) write t.milestones }, some (write m))
]

unfoldable pub add_milestone_event :
    String → String → String → String → MilestoneStatus → ℕ → Table → Table × MilestoneEvent
add_milestone_event id user_id vault_id name status timestamp t =
    (record t { events = t.events ++ event ∷ [] }, event)
  where
    event : MilestoneEvent
    event = record {
      id = id;
      user_id = user_id;
      vault_id = vault_id;
      name = name;
      status = status;
      timestamp = timestamp;
    }

pub data ValidationError : Type 0 where
  not_found unauthorized already_validated : ValidationError

pub data ValidationResult : Type 0 where
  valid : Milestone → ValidationResult
  invalid : ValidationError → ValidationResult

-- milestone.verifierId && milestone.verifierId !== validatorUserId
unfoldable pub assigned_to_another : Option String → String → Bool
assigned_to_another none user = false
assigned_to_another (some v) user = not (is_empty v) && not (same v user)

-- The four assignments of `validateMilestone`.
unfoldable pub validated : String → String → ℕ → Milestone → Milestone
validated user evidence_hash now m = record m {
  verified = true;
  verified_at = some now;
  verified_by = some user;
  evidence_hash = some evidence_hash;
}

unfoldable pub validate_milestone :
    String → String → String → String → ℕ → Table → Table × ValidationResult
unfolding get_milestone_by_id assigned_to_another validated add_milestone_event
validate_milestone id user evidence_hash event_id now t = elim (get_milestone_by_id id t) [
  | none ↦ (t, invalid not_found)
  | some m ↦
      if assigned_to_another m.verifier_id user
      then (t, invalid unauthorized)
      else if m.verified
      then (t, invalid already_validated)
      else let ms = modify_first (has_id id) (validated user evidence_hash now) t.milestones in
        let t' : Table = record t { milestones = ms } in
        (
          (add_milestone_event event_id user m.vault_id "milestone.validated" success now t').0,
          valid (validated user evidence_hash now m),
        )
]

abbrev pub is_verified : Milestone → Bool
is_verified m = m.verified

unfoldable pub all_milestones_verified : String → Table → Bool
unfolding get_milestones_by_vault_id
all_milestones_verified vault_id t =
    let milestones = get_milestones_by_vault_id vault_id t in
    if length milestones == 0 then false else all is_verified milestones

unfoldable pub reset_milestones_table : Table → Table
reset_milestones_table t = record t { milestones = [] }

unfoldable pub reset_milestones : Table → Table
reset_milestones t = record t { events = [] }

-- if (opts.userId) …: an option that is absent or empty lets every entry pass.
abbrev matches_id : Option String → String → Bool
matches_id none id = true
matches_id (some wanted) id = is_empty wanted || same id wanted

-- A bound is the date it parses to; `some none` is an invalid date, with which no time compares.
abbrev at_least : Option (Option ℕ) → ℕ → Bool
at_least none time = true
at_least (some none) time = false
at_least (some (some b)) time = leb b time

abbrev at_most : Option (Option ℕ) → ℕ → Bool
at_most none time = true
at_most (some none) time = false
at_most (some (some b)) time = leb time b

unfoldable pub list_milestone_events :
    Option String
    → Option String
    → Option (Option ℕ)
    → Option (Option ℕ)
    → Table
    → List MilestoneEvent
list_milestone_events user_id vault_id from to t =
    filter (λ e. at_most to e.timestamp)
      (filter (λ e. at_least from e.timestamp)
        (filter (λ e. matches_id vault_id e.vault_id)
          (filter (λ e. matches_id user_id e.user_id) t.events)))
