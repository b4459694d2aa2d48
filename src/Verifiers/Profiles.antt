-- ===== src/Verifiers/Profiles.antt =====
-- The verifiers' profiles of src/services/verifiers.ts, and how their status moves. A profile's
-- metadata is the text that JSON.stringify makes of it, the only thing the code compares.
pub mod Timestamps
pub mod Changes
use disciplr_backend.Prelude.{
  ℕ, String, Bool, true, false, ◌&&◌, ◌||◌, not, Option, none, some, List, [], ◌∷◌, ◌++◌, map,
  if◌then◌else◌, is_some, or_default, filter, find, any, same, or_null,
}

pub data VerifierStatus : Type 0 where
  pending approved suspended deactivated : VerifierStatus

abbrev pub same_status : VerifierStatus → VerifierStatus → Bool
same_status pending pending = true
same_status approved approved = true
same_status suspended suspended = true
same_status deactivated deactivated = true
same_status _ _ = false

pub record VerifierProfile : Type 0 where
  pub user_id : String
  pub display_name : Option String
  pub metadata : Option String
  pub status : VerifierStatus
  pub created_at : ℕ
  pub approved_at : Option ℕ
  pub suspended_at : Option ℕ
  pub deactivated_at : Option ℕ

pub record MutationContext : Type 0 where
  pub actor_user_id : String
  pub reason : Option String

pub record AuditEntry : Type 0 where
  pub actor_user_id : String
  pub action : String
  pub target_id : String
  pub before : Option VerifierProfile
  pub after : Option VerifierProfile
  pub changed_fields : List String
  pub reason : Option String

pub record MutationResult : Type 0 where
  pub before : Option VerifierProfile
  pub after : VerifierProfile
  pub changed_fields : List String
  pub audit_log : Option AuditEntry

pub record Tables : Type 0 where
  pub verifiers : List VerifierProfile
  pub audit_log : List AuditEntry

abbrev pub transition_matrix : VerifierStatus → List VerifierStatus
transition_matrix pending = pending ∷ approved ∷ deactivated ∷ []
transition_matrix approved = approved ∷ suspended ∷ deactivated ∷ []
transition_matrix suspended = suspended ∷ approved ∷ deactivated ∷ []
transition_matrix deactivated = deactivated ∷ pending ∷ []

abbrev pub can_transition : VerifierStatus → VerifierStatus → Bool
can_transition from to = any (same_status to) (transition_matrix from)

-- The columns that `mapStatusToUpdates` writes, on a row; the columns it leaves out stay.
abbrev pub map_status_to_updates : VerifierStatus → ℕ → VerifierProfile → VerifierProfile
map_status_to_updates approved now p = record p {
  status = approved;
  approved_at = some now;
  suspended_at = none;
  deactivated_at = none;
}
map_status_to_updates suspended now p = record p { status = suspended; suspended_at = some now }
map_status_to_updates deactivated now p = record p {
  status = deactivated;
  deactivated_at = some now;
}
map_status_to_updates pending now p = record p {
  status = pending;
  approved_at = none;
  suspended_at = none;
  deactivated_at = none;
}

abbrev pub status_action : VerifierStatus → VerifierStatus → Option String
status_action pending pending = none
status_action approved approved = none
status_action suspended suspended = none
status_action deactivated deactivated = none
status_action _ approved = some "verifier.approved"
status_action _ suspended = some "verifier.suspended"
status_action _ deactivated = some "verifier.deactivated"
status_action deactivated pending = some "verifier.reactivated"
status_action _ pending = none

unfoldable pub audit_entry :
    String
    → MutationContext
    → String
    → Option VerifierProfile
    → Option VerifierProfile
    → List String
    → AuditEntry
audit_entry action context target before after changed_fields = record {
  actor_user_id = context.actor_user_id;
  action = action;
  target_id = target;
  before = before;
  after = after;
  changed_fields = changed_fields;
  reason = or_null context.reason;
}

unfoldable pub is_verifier : String → VerifierProfile → Bool
is_verifier user p = same p.user_id user

-- [name] where the field is given.
abbrev pub given : Option String → String → List String
given none name = []
given (some a) name = name ∷ []

-- A row with the columns' defaults, as the insertion fills them in.
unfoldable pub inserted :
    String → Option String → Option String → VerifierStatus → ℕ → VerifierProfile
inserted user display_name metadata status now = map_status_to_updates status now (record {
  user_id = user;
  display_name = display_name;
  metadata = metadata;
  status = pending;
  created_at = now;
  approved_at = none;
  suspended_at = none;
  deactivated_at = none;
})

-- The insertion throws where the user has a row: `user_id` is the primary key.
unfoldable pub create_verifier_profile :
    String
    → Option String
    → Option String
    → Option VerifierStatus
    → MutationContext
    → ℕ
    → Tables
    → Tables × Option MutationResult
create_verifier_profile user display_name metadata status context now t =
    if any (is_verifier user) t.verifiers then (t, none) else (
      record { verifiers = t.verifiers ++ row ∷ []; audit_log = t.audit_log ++ entry ∷ [] },
      some (record { before = none; after = row; changed_fields = fields; audit_log = some entry }),
    )
  where
    row : VerifierProfile
    row = inserted user display_name metadata (or_default status pending) now

    fields : List String
    fields = "user_id" ∷ "status" ∷ given display_name "display_name" ++ given metadata "metadata"

    entry : AuditEntry
    entry = audit_entry "verifier.created" context user none (some row) fields

abbrev pub after_of : Option MutationResult → Option VerifierProfile
after_of none = none
after_of (some r) = some r.after

unfoldable pub create_or_get_verifier_profile :
    String
    → Option String
    → Option String
    → MutationContext
    → ℕ
    → Tables
    → Tables × Option VerifierProfile
create_or_get_verifier_profile user display_name metadata context now t =
    elim (find (is_verifier user) t.verifiers) [
      | some p ↦ (t, some p)
      | none ↦
          let made = create_verifier_profile user display_name metadata none context now t in
          (made.0, after_of made.1)
    ]

-- The fields of an update: the outer option is `undefined`, the inner one is `null`.
pub record Updates : Type 0 where
  pub display_name : Option (Option String)
  pub metadata : Option (Option String)
  pub status : Option VerifierStatus

-- a === b for texts that may be null
abbrev pub same_text : Option String → Option String → Bool
same_text none none = true
same_text (some a) (some b) = same a b
same_text _ _ = false

unfoldable pub changed_text : String → Option String → Option (Option String) → List String
changed_text name old none = []
changed_text name old (some new) = if same_text old new then [] else name ∷ []

unfoldable pub changed_status : VerifierStatus → Option VerifierStatus → List String
changed_status old none = []
changed_status old (some new) = if same_status old new then [] else "status" ∷ []

unfoldable pub get_changed_fields : VerifierProfile → Updates → List String
get_changed_fields before updates =
    changed_text "display_name" before.display_name updates.display_name
    ++ changed_text "metadata" before.metadata updates.metadata
    ++ changed_status before.status updates.status

abbrev pub put_status : Option VerifierStatus → ℕ → VerifierProfile → VerifierProfile
put_status none now p = p
put_status (some s) now p = map_status_to_updates s now p

-- What `.update(patch)` makes of a row.
unfoldable pub patched : Updates → ℕ → VerifierProfile → VerifierProfile
patched updates now p = put_status updates.status now (record p {
  display_name = or_default updates.display_name p.display_name;
  metadata = or_default updates.metadata p.metadata;
})

unfoldable pub is_refused : VerifierStatus → Option VerifierStatus → Bool
is_refused from none = false
is_refused from (some to) = not (can_transition from to)

abbrev pub action_of : VerifierStatus → VerifierStatus → Option VerifierStatus → Option String
action_of from to none = some "verifier.updated"
action_of from to (some s) =
    if same_status from to then some "verifier.updated" else status_action from to

pub data UpdateResult : Type 0 where
  not_found invalid_transition missing_action : UpdateResult
  done : MutationResult → UpdateResult

-- The rows with `f` written to a user's.
unfoldable pub update_user :
    String → (VerifierProfile → VerifierProfile) → List VerifierProfile → List VerifierProfile
update_user user f rows = map (λ p. if is_verifier user p then f p else p) rows

-- The update of a profile that was found; an exception rolls the transaction back.
unfoldable pub update_found :
    String → Updates → MutationContext → ℕ → VerifierProfile → Tables → Tables × UpdateResult
update_found user updates context now before t =
    if is_refused before.status updates.status
    then (t, invalid_transition)
    else elim (get_changed_fields before updates) [
      | [] ↦ (
        t,
        done (record {
          before = some before;
          after = before;
          changed_fields = [];
          audit_log = none;
        }),
      )
      | field ∷ fields ↦
          elim (action_of before.status (patched updates now before).status updates.status) [
            | none ↦ (t, missing_action)
            | some action ↦ (
              record {
                verifiers = update_user user (patched updates now) t.verifiers;
                audit_log = t.audit_log ++ entry action (field ∷ fields) ∷ [];
              },
              done (record {
                before = some before;
                after = patched updates now before;
                changed_fields = field ∷ fields;
                audit_log = some (entry action (field ∷ fields));
              }),
            )
          ]
    ]
  where
    entry : String → List String → AuditEntry
    entry action fields =
        audit_entry action context user (some before) (some (patched updates now before)) fields

unfoldable pub update_verifier_profile :
    String → Updates → MutationContext → ℕ → Tables → Tables × UpdateResult
update_verifier_profile user updates context now t = elim (find (is_verifier user) t.verifiers) [
  | none ↦ (t, not_found)
  | some before ↦ update_found user updates context now before t
]

unfoldable pub transition_verifier :
    String → VerifierStatus → MutationContext → ℕ → Tables → Tables × UpdateResult
transition_verifier user status context now t =
    update_verifier_profile user
      (record { display_name = none; metadata = none; status = some status }) context now t

unfoldable pub delete_verifier_profile :
    String → MutationContext → Tables → Tables × Option VerifierProfile
delete_verifier_profile user context t = elim (find (is_verifier user) t.verifiers) [
  | none ↦ (t, none)
  | some before ↦ (
    record {
      verifiers = filter (λ p. not (is_verifier user p)) t.verifiers;
      audit_log =
          t.audit_log
          ++ audit_entry "verifier.deleted" context user (some before) none ("deleted" ∷ []) ∷ [];
    },
    some before,
  )
]

unfoldable pub get_verifier_profile : String → List VerifierProfile → Option VerifierProfile
get_verifier_profile user rows = find (is_verifier user) rows

-- `setVerifierStatus` writes any status, past the matrix and the audit log.
unfoldable pub set_verifier_status :
    String → VerifierStatus → ℕ → Tables → Tables × Option VerifierProfile
set_verifier_status user status now t = elim (find (is_verifier user) t.verifiers) [
  | none ↦ (t, none)
  | some p ↦ (
    record t { verifiers = update_user user (map_status_to_updates status now) t.verifiers },
    some (map_status_to_updates status now p),
  )
]
