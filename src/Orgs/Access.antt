-- ===== src/Orgs/Access.antt =====
-- The two guards of src/middleware/orgAuth.ts.
use disciplr_backend.Prelude.{
  ℕ, ◌||◌, none, Option, is_empty, any, String, true, ◌&&◌, some, List, [], ◌∷◌, ◌≡◌, refl, map,
  find, same, is_some, Bool-cases, inl, inr,
}
use disciplr_backend.Orgs.{
  refuse, next, Answer, Organization, OrgMember, MemberRow, role_text, or_else, is_row_of, role_of,
  is_member_of, get_member_role, get_organization, role_answer, row_answer, require_org_access,
  require_org_role,
}

-- The row that stands for a member.
abbrev pub row_of : OrgMember → MemberRow
row_of m = record { org_id = m.org_id; user_id = m.user_id; role = role_text m.role }

-- The status of a refusal.
abbrev pub status : Answer → Option ℕ
status (next org) = none
status (refuse code message) = some code

role_answer-row_answer :
    (allowed : List String) (org user : String) (ms : List OrgMember)
    → status (role_answer org allowed (role_of (find (is_member_of org user) ms)))
      ≡ status (row_answer allowed (find (is_row_of org user) (map row_of ms)))
unfolding is_member_of
role_answer-row_answer allowed org user [] = refl
role_answer-row_answer allowed org user (m ∷ ms) =
    elim (Bool-cases (same m.org_id org && same m.user_id user)) [
      | inl e ↦ rw (e) (elim (Bool-cases (any (same (role_text m.role)) allowed)) [
        | inl f ↦ rw (f) refl
        | inr f ↦ rw (f) refl
      ])
      | inr e ↦ rw (e) (role_answer-row_answer allowed org user ms)
    ]

-- For an organization that exists, and where the rows of the database stand for the members in memory,
-- the guard on the members lets a request pass exactly when the guard on the rows does, and else the
-- two refuse it with the same status; the texts of their errors differ.
pub require_org_access-require_org_role :
    (allowed : List String) (param query user : String) (orgs : List Organization)
    (ms : List OrgMember)
    → is_some (get_organization (or_else param query) orgs) ≡ true
    → status (require_org_access allowed param query user orgs ms)
      ≡ status (require_org_role allowed param query user (some (map row_of ms)))
unfolding require_org_access require_org_role get_member_role
require_org_access-require_org_role allowed param query user orgs ms h =
    elim (Bool-cases (is_empty (or_else param query) || is_empty user)) [
      | inl e ↦ rw (e) refl
      | inr e ↦ rw (e, h) (role_answer-row_answer allowed (or_else param query) user ms)
    ]
