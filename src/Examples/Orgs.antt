-- ===== src/Examples/Orgs.antt =====
-- Members of a concrete organization, through the model of src/services/membership.ts.
use disciplr_backend.Prelude.{
  ℕ, ◌≤◌, ◌≢◌, String, none, some, List, [], ◌∷◌, ◌≡◌, refl, arith, same_iff, if_both,
}
use disciplr_backend.Membership.{
  Role, owner, other, Membership, Tables, in_org, is_member, count_org_owners, transfer_ownership,
}
use disciplr_backend.Membership.Owners.{removes, changes, Call, run, IsOwned, run-IsOwned}
use disciplr_backend.Membership.Ownership.{transfer_to_self_orphans}
use disciplr_backend.Membership.Invitations.{OrgInvitation, is_invitation, UniqueIds}

abbrev member_row : String → Role → Membership
member_row user role = record {
  user_id = user;
  organization_id = "org";
  team_id = none;
  role = role;
}

abbrev org : Tables
org = record {
  memberships = member_row "ann" owner ∷ member_row "bob" (other "member") ∷ [];
  audit_log = [];
}

abbrev ann : String
ann = "ann"

abbrev bob : String
bob = "bob"

ann_is_not_bob : ann ≢ bob
ann_is_not_bob e = ground (arith, same_iff ann bob, e)

org-IsOwned : IsOwned "org" org
unfolding is_member in_org count_org_owners
org-IsOwned = record {
  unique = λ user. grind (arith, same_iff ann user, same_iff bob user, ann_is_not_bob);
  owned = omega arith;
}

abbrev calls : List Call
calls = changes "bob" owner "ann" ∷ removes "ann" ∷ removes "bob" ∷ []

run-IsOwned_example : IsOwned "org" (run "org" calls org)
run-IsOwned_example = run-IsOwned "org" calls org org-IsOwned

transfer_to_self_orphans_example :
    count_org_owners "org" (transfer_ownership "org" "ann" "ann" org).0.memberships ≡ 0
unfolding is_member count_org_owners transfer_ownership
transfer_to_self_orphans_example = transfer_to_self_orphans "org" "ann" org refl refl refl

abbrev invitation : OrgInvitation
invitation = record {
  id = "i1";
  org_id = "org";
  email = "eve@example.org";
  token_hash = "hash";
  expires_at = 100;
  accepted_at = some 50;
  revoked_at = none;
}

one_invitation : UniqueIds (invitation ∷ [])
one_invitation o i =
    if_both (λ (n : ℕ). n ≤ 1) (is_invitation o i invitation) (omega arith) (omega arith)
