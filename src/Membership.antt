-- ===== src/Membership.antt =====
-- src/services/membership.ts. The tables are lists of rows; `where(…).first()` finds the first row,
-- and an update or a deletion takes every row that matches.
pub mod Owners
pub mod Ownership
pub mod Invitations
use disciplr_backend.Prelude.{
  ℕ, ◌+◌, String, Bool, true, false, ◌&&◌, ◌||◌, not, Option, none, some, List, [], ◌∷◌, ◌++◌, map,
  leb, if◌then◌else◌, is_some, or_default, filter, find, count, same, join,
}

-- The two roles that the code names, and any other text.
pub data Role : Type 0 where
  owner admin : Role
  other : String → Role

abbrev pub role_name : Role → String
role_name owner = "owner"
role_name admin = "admin"
role_name (other r) = r

abbrev pub same_role : Role → Role → Bool
same_role owner owner = true
same_role admin admin = true
same_role (other a) (other b) = same a b
same_role _ _ = false

abbrev pub is_owner_role : Role → Bool
is_owner_role r = same_role r owner

unfoldable pub is_admin_role : Role → Bool
is_admin_role owner = true
is_admin_role admin = true
is_admin_role (other a) = false

pub record Membership : Type 0 where
  pub user_id : String
  pub organization_id : String
  pub team_id : Option String
  pub role : Role

pub record AuditEntry : Type 0 where
  pub actor_user_id : String
  pub organization_id : String
  pub action : String
  pub target_id : String
  pub metadata : List (String × String)

pub record Tables : Type 0 where
  pub memberships : List Membership
  pub audit_log : List AuditEntry

pub data MembershipError : Type 0 where
  not_member last_owner_removal last_owner_demotion last_admin : MembershipError
  caller_not_owner target_not_member : MembershipError

pub data Result {ℓ} (A : Type ℓ) : Type ℓ where
  ok : A → Result A
  err : MembershipError → Result A

-- { organization_id: orgId, team_id: null }
unfoldable pub in_org : String → Membership → Bool
in_org org m = same m.organization_id org && not (is_some m.team_id)

-- { user_id: userId, organization_id: orgId, team_id: null }
unfoldable pub is_member : String → String → Membership → Bool
unfolding in_org
is_member user org m = same m.user_id user && in_org org m

unfoldable pub is_owner_of : String → Membership → Bool
is_owner_of org m = in_org org m && is_owner_role m.role

unfoldable pub is_admin_of : String → Membership → Bool
unfolding is_admin_role
is_admin_of org m = in_org org m && is_admin_role m.role

unfoldable pub create_membership :
    String → String → Option String → Option Role → Tables → Tables × Membership
create_membership user org team role t = (record t { memberships = t.memberships ++ row ∷ [] }, row)
  where
    row : Membership
    row = record {
      user_id = user;
      organization_id = org;
      team_id = team;
      role = or_default role (other "member");
    }

unfoldable pub list_user_memberships : String → List Membership → List Membership
list_user_memberships user rows = filter (λ m. same m.user_id user) rows

unfoldable pub list_org_memberships : String → List Membership → List Membership
unfolding in_org
list_org_memberships org rows = filter (in_org org) rows

abbrev pub role_of : Option Membership → Option Role
role_of none = none
role_of (some m) = some m.role

unfoldable pub get_user_organization_role : String → String → List Membership → Option Role
unfolding is_member
get_user_organization_role user org rows = role_of (find (is_member user org) rows)

abbrev pub has_team : String → Option String → Bool
has_team team none = false
has_team team (some t) = same t team

unfoldable pub get_user_team_role : String → String → List Membership → Option Role
get_user_team_role user team rows =
    role_of (find (λ m. same m.user_id user && has_team team m.team_id) rows)

unfoldable pub count_org_admins : String → List Membership → ℕ
unfolding is_admin_of
count_org_admins org rows = count (is_admin_of org) rows

unfoldable pub count_org_owners : String → List Membership → ℕ
unfolding is_owner_of
count_org_owners org rows = count (is_owner_of org) rows

-- What `removeMembership` reads and throws before its deletion.
unfoldable pub removal_error : String → String → List Membership → Option MembershipError
unfolding is_admin_role
removal_error user org rows = elim (find (is_member user org) rows) [
  | none ↦ some not_member
  | some m ↦
      if is_owner_role m.role && leb (count_org_owners org rows) 1
      then some last_owner_removal
      else if is_admin_role m.role && leb (count_org_admins org rows) 1
      then some last_admin
      else none
]

-- Its deletion.
unfoldable pub delete_member : String → String → List Membership → List Membership
unfolding is_member
delete_member user org rows = filter (λ m. not (is_member user org m)) rows

unfoldable pub remove_membership : String → String → Tables → Tables × Result (Unit {0})
unfolding removal_error
remove_membership user org t = elim (removal_error user org t.memberships) [
  | some e ↦ (t, err e)
  | none ↦ (record t { memberships = delete_member user org t.memberships }, ok tt)
]

unfoldable pub set_role : String → String → Role → List Membership → List Membership
unfolding is_member
set_role user org role rows =
    map (λ m. if is_member user org m then record m { role = role } else m) rows

unfoldable pub demotion_error : Role → Role → String → List Membership → Option MembershipError
unfolding is_admin_role
demotion_error old_role new_role org rows =
    if is_owner_role old_role
    then (if leb (count_org_owners org rows) 1 then some last_owner_demotion else none)
    else if is_admin_role old_role && not (is_admin_role new_role)
    then (if leb (count_org_admins org rows) 1 then some last_admin else none)
    else none

unfoldable pub change_role : String → String → Role → String → Tables → Tables × Result Membership
change_role user org new_role actor t = elim (find (is_member user org) t.memberships) [
  | none ↦ (t, err not_member)
  | some m ↦
      if same_role m.role new_role
      then (t, ok m)
      else elim (demotion_error m.role new_role org t.memberships) [
        | some e ↦ (t, err e)
        | none ↦ (
          record {
            memberships = set_role user org new_role t.memberships;
            audit_log = t.audit_log ++ entry m ∷ [];
          },
          ok (record m { role = new_role }),
        )
      ]
]
  where
    entry : Membership → AuditEntry
    entry m = record {
      actor_user_id = actor;
      organization_id = org;
      action = "org.member.role_changed";
      target_id = join org (join ":" user);
      metadata =
          ("org_id", org) ∷ ("old_role", role_name m.role) ∷ ("new_role", role_name new_role) ∷ [];
    }

unfoldable pub transfer_rows : String → String → String → Role → List Membership → List Membership
unfolding set_role
transfer_rows org current new new_owner_role rows =
    set_role current org admin
      (if is_owner_role new_owner_role then rows else set_role new org owner rows)

unfoldable pub is_owned_by : Option Membership → Bool
is_owned_by none = false
is_owned_by (some m) = is_owner_role m.role

unfoldable pub transfer_ownership : String → String → String → Tables → Tables × Result (Unit {0})
unfolding is_owned_by
transfer_ownership org current new t =
    if is_owned_by (find (is_member current org) t.memberships)
    then elim (find (is_member new org) t.memberships) [
      | none ↦ (t, err target_not_member)
      | some m ↦ (
        record {
          memberships = transfer_rows org current new m.role t.memberships;
          audit_log = t.audit_log ++ entry ∷ [];
        },
        ok tt,
      )
    ]
    else (t, err caller_not_owner)
  where
    entry : AuditEntry
    entry = record {
      actor_user_id = current;
      organization_id = org;
      action = "org.ownership.transferred";
      target_id = org;
      metadata = ("org_id", org) ∷ ("from_user", current) ∷ ("to_user", new) ∷ [];
    }
