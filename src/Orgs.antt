-- ===== src/Orgs.antt =====
-- src/models/organizations.ts, the organizations and their members in memory, and the guards of
-- src/middleware/orgAuth.ts.
pub mod Admins
pub mod Access
use disciplr_backend.Prelude.{
  ℕ, String, Bool, true, false, ◌&&◌, ◌||◌, not, Option, none, some, List, [], ◌∷◌, ◌++◌, leb,
  if◌then◌else◌, filter, find, count, any, modify_first, same, is_empty, is_some, join,
}

pub record Organization : Type 0 where
  pub id : String
  pub name : String
  pub created_at : String

pub data OrgRole : Type 0 where
  owner admin member : OrgRole

pub record OrgMember : Type 0 where
  pub org_id : String
  pub user_id : String
  pub role : OrgRole

pub data OrgError : Type 0 where
  already_member membership_not_found last_admin : OrgError

unfoldable pub is_member_of : String → String → OrgMember → Bool
is_member_of org user m = same m.org_id org && same m.user_id user

unfoldable pub get_organization : String → List Organization → Option Organization
get_organization org orgs = find (λ o. same o.id org) orgs

abbrev pub role_of : Option OrgMember → Option OrgRole
role_of none = none
role_of (some m) = some m.role

unfoldable pub get_member_role : String → String → List OrgMember → Option OrgRole
get_member_role org user ms = role_of (find (is_member_of org user) ms)

abbrev pub is_admin_role : OrgRole → Bool
is_admin_role owner = true
is_admin_role admin = true
is_admin_role member = false

unfoldable pub is_admin_in : String → OrgMember → Bool
is_admin_in org m = same m.org_id org && is_admin_role m.role

unfoldable pub count_org_admins : String → List OrgMember → ℕ
count_org_admins org ms = count (is_admin_in org) ms

-- An operation returns the members with the error that it throws.
abbrev pub Outcome : Type 0
Outcome = List OrgMember × Option OrgError

unfoldable pub add_org_member : OrgMember → List OrgMember → Outcome
add_org_member m ms =
    if is_some (find (is_member_of m.org_id m.user_id) ms)
    then (ms, some already_member)
    else (ms ++ m ∷ [], none)

abbrev pub last_admin_removed : String → OrgMember → List OrgMember → Bool
last_admin_removed org m ms = is_admin_role m.role && leb (count_org_admins org ms) 1

unfoldable pub remove_org_member : String → String → List OrgMember → Outcome
remove_org_member org user ms = elim (find (is_member_of org user) ms) [
  | none ↦ (ms, some membership_not_found)
  | some m ↦
      if last_admin_removed org m ms
      then (ms, some last_admin)
      else (filter (λ x. not (is_member_of org user x)) ms, none)
]

abbrev pub set_role : OrgRole → OrgMember → OrgMember
set_role role m = record m { role = role }

abbrev pub last_admin_demoted : String → OrgRole → OrgMember → List OrgMember → Bool
last_admin_demoted org role m ms =
    is_admin_role m.role && not (is_admin_role role) && leb (count_org_admins org ms) 1

unfoldable pub update_org_member_role : String → String → OrgRole → List OrgMember → Outcome
update_org_member_role org user role ms = elim (find (is_member_of org user) ms) [
  | none ↦ (ms, some membership_not_found)
  | some m ↦
      if last_admin_demoted org role m ms
      then (ms, some last_admin)
      else (modify_first (is_member_of org user) (set_role role) ms, none)
]

pub data Call : Type 0 where
  add : OrgMember → Call
  remove : (org user : String) → Call
  update_role : (org user : String) → OrgRole → Call

abbrev pub step : Call → List OrgMember → List OrgMember
step (add m) ms = (add_org_member m ms).0
step (remove org user) ms = (remove_org_member org user ms).0
step (update_role org user role) ms = (update_org_member_role org user role ms).0

unfoldable pub run : List Call → List OrgMember → List OrgMember
run [] ms = ms
run (c ∷ cs) ms = run cs (step c ms)

-- What a guard answers: the next handler, with the request's orgId if the guard sets it, or a status
-- and the error of its body.
pub data Answer : Type 0 where
  next : (org_id : Option String) → Answer
  refuse : (status : ℕ) (error : String) → Answer

abbrev pub role_text : OrgRole → String
role_text owner = "owner"
role_text admin = "admin"
role_text member = "member"

-- `a || b`
abbrev pub or_else : String → String → String
or_else a b = if is_empty a then b else a

-- roles.join(' or ')
abbrev pub join_roles : List String → String
join_roles [] = ""
join_roles (r ∷ []) = r
join_roles (r ∷ s ∷ roles) = join r (join " or " (join_roles (s ∷ roles)))

abbrev pub role_answer : String → List String → Option OrgRole → Answer
role_answer org allowed none = refuse 403 "Forbidden: not a member of this organization"
role_answer org allowed (some r) =
    if any (same (role_text r)) allowed
    then next (some org)
    else refuse 403 (join "Forbidden: requires role " (join_roles allowed))

-- A missing parameter or user is the empty text.
unfoldable pub require_org_access :
    List String → (param query user : String) → List Organization → List OrgMember → Answer
require_org_access allowed param query user orgs ms =
    let org = or_else param query in
    if is_empty org || is_empty user
    then refuse 401 "Auth/Org info missing"
    else if is_some (get_organization org orgs)
    then role_answer org allowed (get_member_role org user ms)
    else refuse 404 "Organization not found"

-- A row of org_members in the database.
pub record MemberRow : Type 0 where
  pub org_id : String
  pub user_id : String
  pub role : String

abbrev pub is_row_of : String → String → MemberRow → Bool
is_row_of org user r = same r.org_id org && same r.user_id user

abbrev pub not_allowed : List String → Answer
not_allowed allowed =
    refuse 403 (join "Forbidden: requires organization role " (join_roles allowed))

abbrev pub row_answer : List String → Option MemberRow → Answer
row_answer allowed none = not_allowed allowed
row_answer allowed (some r) = if any (same r.role) allowed then next none else not_allowed allowed

-- The rows, or none where the query fails.
unfoldable pub require_org_role :
    List String → (param query user : String) → Option (List MemberRow) → Answer
require_org_role allowed param query user db =
    let org = or_else param query in
    if is_empty org || is_empty user then refuse 401 "Auth/Org info missing" else elim db [
      | none ↦ not_allowed allowed
      | some rows ↦ row_answer allowed (find (is_row_of org user) rows)
    ]
