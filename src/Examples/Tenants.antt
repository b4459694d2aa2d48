-- ===== src/Examples/Tenants.antt =====
-- Members and guards of organizations, through the models of src/models/organizations.ts and
-- src/middleware/orgAuth.ts.
use disciplr_backend.Prelude.{some, List, [], ◌∷◌, ◌≡◌, refl, arith, map}
use disciplr_backend.Orgs.{
  Organization, OrgMember, owner, admin, member, Call, add, remove, update_role, run,
  require_org_access, require_org_role, refuse, is_member_of, get_organization, get_member_role,
  count_org_admins, is_admin_in,
}
use disciplr_backend.Orgs.Admins.{IsUnique, HasAdmin, run-HasAdmin}
use disciplr_backend.Orgs.Access.{row_of, status, require_org_access-require_org_role}

abbrev alice : OrgMember
alice = record { org_id = "acme"; user_id = "alice"; role = owner }

abbrev acme : List Organization
acme = record { id = "acme"; name = "Acme"; created_at = "2026-01-01" } ∷ []

alice-IsUnique : IsUnique (alice ∷ [])
alice-IsUnique org user = ground arith

abbrev calls : List Call
calls =
    add (record { org_id = "acme"; user_id = "bob"; role = member })
    ∷ remove "acme" "alice"
    ∷ update_role "acme" "bob" admin
    ∷ remove "acme" "alice"
    ∷ []

run-HasAdmin_example : IsUnique (run calls (alice ∷ [])) × HasAdmin "acme" (run calls (alice ∷ []))
unfolding count_org_admins is_admin_in
run-HasAdmin_example = run-HasAdmin calls "acme" (alice ∷ []) alice-IsUnique (omega arith)

require_org_access-require_org_role_example :
    status (require_org_access ("owner" ∷ []) "acme" "" "alice" acme (alice ∷ []))
    ≡ status (require_org_role ("owner" ∷ []) "acme" "" "alice" (some (map row_of (alice ∷ []))))
unfolding get_organization
require_org_access-require_org_role_example =
    require_org_access-require_org_role ("owner" ∷ []) "acme" "" "alice" acme (alice ∷ []) refl

members_refused :
    require_org_access
      ("owner" ∷ "admin" ∷ [])
      ""
      "acme"
      "bob"
      acme
      (record { org_id = "acme"; user_id = "bob"; role = member } ∷ [])
    ≡ refuse 403 "Forbidden: requires role owner or admin"
unfolding require_org_access get_organization get_member_role is_member_of
members_refused = refl
