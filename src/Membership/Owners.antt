-- ===== src/Membership/Owners.antt =====
-- The owners of an organization under `removeMembership` and `changeRole` of
-- src/services/membership.ts.
use disciplr_backend.Prelude.{
  ℕ, ◌+◌, ◌≤◌, String, true, false, ◌&&◌, none, some, List, [], ◌∷◌, ◌≡◌, refl, arith,
  if◌then◌else◌, find, count, count-delete, count-both-le, count-both_none, Option-cases,
  Bool-cases, inl, inr, if_both,
}
use disciplr_backend.Membership.{
  Role, same_role, is_owner_role, Membership, Tables, is_member, is_owner_of, count_org_owners,
  removal_error, delete_member, remove_membership, set_role, demotion_error, change_role, Result,
}

abbrev pub members : String → String → List Membership → ℕ
members user org rows = count (is_member user org) rows

delete_member_owners :
    (user org : String) (rows : List Membership)
    → members user org rows ≤ 1
    → 1 ≤ count_org_owners org rows
    → removal_error user org rows ≡ none
    → 1 ≤ count_org_owners org (delete_member user org rows)
unfolding delete_member count_org_owners removal_error
delete_member_owners user org rows unique h e =
    let deleted = count-delete (is_member user org) (is_owner_of org) rows in
    let both = count-both-le (is_member user org) (is_owner_of org) rows in
    elim (Option-cases (find (is_member user org) rows)) [
      | inl missing ↦ ground (arith, h)
      | inr (m, found) ↦ elim (Bool-cases (is_owner_role m.role)) [
        | inl is_owner ↦ omega (arith, deleted, both, two_owners m found is_owner)
        | inr is_not ↦ omega (
          arith,
          deleted,
          count-both_none (is_member user org) (is_owner_of org) rows {a = m} unique found
              (ground (arith, is_not)),
        )
      ]
    ]
  where
    two_owners :
        (m : Membership)
        → find (is_member user org) rows ≡ some m
        → is_owner_role m.role ≡ true
        → 2 ≤ count (is_owner_of org) rows
    two_owners m found is_owner = ground arith

pub count-set_role :
    (user org : String) (role : Role) (rows : List Membership)
    → count (is_owner_of org) (set_role user org role rows)
        + count (λ m. is_member user org m && is_owner_of org m) rows
      ≡ count (is_owner_of org) rows
        + (if is_owner_role role then count (is_member user org) rows else 0)
unfolding set_role is_owner_of
count-set_role user org role [] = ground arith
count-set_role user org role (m ∷ rows) = ground (arith, count-set_role user org role rows)

members-set_role :
    (who user org : String) (role : Role) (rows : List Membership)
    → members who org (set_role user org role rows) ≡ members who org rows
unfolding set_role is_member
members-set_role who user org role [] = refl
members-set_role who user org role (m ∷ rows) =
    ground (arith, members-set_role who user org role rows)

members-delete :
    (who user org : String) (rows : List Membership)
    → members who org (delete_member user org rows) ≤ members who org rows
unfolding delete_member
members-delete who user org [] = omega arith
members-delete who user org (m ∷ rows) = ground (arith, members-delete who user org rows)

not_owner_of :
    (org : String) (m : Membership) → is_owner_role m.role ≡ false → is_owner_of org m ≡ false
unfolding is_owner_of
not_owner_of org m h = ground arith

set_role_owners :
    (user org : String) (role : Role) (rows : List Membership) (m : Membership)
    → members user org rows ≤ 1
    → 1 ≤ count_org_owners org rows
    → find (is_member user org) rows ≡ some m
    → demotion_error m.role role org rows ≡ none
    → 1 ≤ count_org_owners org (set_role user org role rows)
unfolding count_org_owners demotion_error
set_role_owners user org role rows m unique h found e =
    let moved = count-set_role user org role rows in
    let both = count-both-le (is_member user org) (is_owner_of org) rows in
    elim (Bool-cases (is_owner_role m.role)) [
      | inl is_owner ↦ ground (arith, moved, both)
      | inr is_not ↦
          let none_owned : count (λ x. is_member user org x && is_owner_of org x) rows ≡ 0 =
            count-both_none (is_member user org) (is_owner_of org) rows {a = m} unique found
              (not_owner_of org m is_not) in
          omega (arith, moved, none_owned)
    ]

-- The calls that take a member away or give it another role.
pub data Call : Type 0 where
  removes : String → Call
  changes : String → Role → String → Call

unfoldable pub step : String → Call → Tables → Tables
step org (removes user) t = (remove_membership user org t).0
step org (changes user role actor) t = (change_role user org role actor t).0

unfoldable pub run : String → List Call → Tables → Tables
run org [] t = t
run org (c ∷ cs) t = run org cs (step org c t)

-- The organization has an owner, and nobody is its member twice.
pub record IsOwned (org : String) (t : Tables) : Type 0 where
  pub unique : (user : String) → members user org t.memberships ≤ 1
  pub owned : 1 ≤ count_org_owners org t.memberships

remove_membership-IsOwned :
    (user org : String) (t : Tables) → IsOwned org t → IsOwned org (remove_membership user org t).0
unfolding remove_membership
remove_membership-IsOwned user org t o =
    elim (Option-cases (removal_error user org t.memberships)) [
      | inr (e, refused) ↦ rw (refused, remove_membership) o
      | inl fine ↦
          rw (fine, remove_membership)
            (record {
              unique =
                  λ who. omega (arith, members-delete who user org t.memberships, o.unique who);
              owned = delete_member_owners user org t.memberships (o.unique user) o.owned fine;
            })
    ]

change_role-IsOwned :
    (user org : String) (role : Role) (actor : String) (t : Tables)
    → IsOwned org t
    → IsOwned org (change_role user org role actor t).0
unfolding change_role
change_role-IsOwned user org role actor t o =
    elim (Option-cases (find (is_member user org) t.memberships)) [
      | inl missing ↦ rw (missing, change_role) o
      | inr (m, found) ↦
          rw (found, change_role)
            (if_both (λ (r : Tables × Result Membership). IsOwned org r.0) (same_role m.role role) o
              (elim (Option-cases (demotion_error m.role role org t.memberships)) [
                | inr (e, refused) ↦ rw (refused, change_role) o
                | inl fine ↦
                    rw (fine, change_role)
                      (record {
                        unique = λ who.
                            omega (
                              arith,
                              members-set_role who user org role t.memberships,
                              o.unique who,
                            );
                        owned =
                            set_role_owners user org role t.memberships m (o.unique user) o.owned
                              found fine;
                      })
              ]))
    ]

-- An organization with an owner, whose members are listed once each, has one after any removals
-- and role changes, refused ones included.
pub run-IsOwned :
    (org : String) (cs : List Call) (t : Tables) → IsOwned org t → IsOwned org (run org cs t)
unfolding run step
run-IsOwned org [] t o = o
run-IsOwned org (removes user ∷ cs) t o =
    run-IsOwned org cs (remove_membership user org t).0 (remove_membership-IsOwned user org t o)
run-IsOwned org (changes user role actor ∷ cs) t o =
    run-IsOwned org cs (change_role user org role actor t).0
      (change_role-IsOwned user org role actor t o)
