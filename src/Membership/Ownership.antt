-- ===== src/Membership/Ownership.antt =====
-- `transferOwnership` of src/services/membership.ts: who owns the organization after it.
use disciplr_backend.Prelude.{
  ℕ, ◌≤◌, String, Bool, true, false, ◌&&◌, some, List, [], ◌∷◌, ◌≡◌, ◌≢◌, refl, arith,
  if◌then◌else◌, find, find_sound, count, count-both-le, ids, Option-cases, Bool-cases, inl, inr,
}
use disciplr_backend.Membership.{
  Role, owner, admin, is_owner_role, Membership, Tables, is_member, is_owner_of, is_owned_by,
  count_org_owners, set_role, transfer_rows, transfer_ownership, ok,
}
use disciplr_backend.Membership.Owners.{members, count-set_role}

module _ {ℓ} {A : Type ℓ} (p q : A → Bool) where
  count-both-le_right : (xs : List A) → count (λ x. p x && q x) xs ≤ count q xs
  count-both-le_right [] = omega arith
  count-both-le_right (x ∷ xs) = ground (arith, count-both-le_right xs)

  -- The first entry that passes `p` passes `q`.
  count-both-find :
      (xs : List A) {a : A} → find p xs ≡ some a → q a ≡ true → 1 ≤ count (λ x. p x && q x) xs
  count-both-find [] e h = ground arith
  count-both-find (x ∷ xs) {a} e h = ground (arith, count-both-find xs {a = a})

  count-find : (xs : List A) {a : A} → find p xs ≡ some a → 1 ≤ count p xs
  count-find [] e = ground arith
  count-find (x ∷ xs) {a} e = ground (arith, count-find xs {a = a})

-- The rows of a user that say he owns the organization.
abbrev owned_by : String → String → List Membership → ℕ
owned_by user org rows = count (λ m. is_member user org m && is_owner_of org m) rows

owned_by-set_role_owner :
    (user org : String) (rows : List Membership)
    → owned_by user org (set_role user org owner rows) ≡ members user org rows
unfolding set_role is_member is_owner_of
owned_by-set_role_owner user org [] = refl
owned_by-set_role_owner user org (m ∷ rows) = ground (arith, owned_by-set_role_owner user org rows)

other_member :
    (user who org : String) (m : Membership)
    → who ≢ user
    → is_member user org m ≡ true
    → is_member who org m ≡ false
unfolding is_member
other_member user who org m differ h = grind ids

owned_by-set_role_other :
    (user who org : String) (role : Role) (rows : List Membership)
    → who ≢ user
    → owned_by user org (set_role who org role rows) ≡ owned_by user org rows
unfolding set_role
owned_by-set_role_other user who org role [] differ = refl
owned_by-set_role_other user who org role (m ∷ rows) differ = grind (
  arith,
  owned_by-set_role_other user who org role rows differ,
  other_member user who org m differ,
)

owner-is_owner_of :
    (org user : String) (rows : List Membership) (m : Membership)
    → find (is_member user org) rows ≡ some m
    → is_owner_role m.role ≡ true
    → is_owner_of org m ≡ true
unfolding is_owner_of is_member
owner-is_owner_of org user rows m found h =
    grind (arith, find_sound (is_member user org) rows {a = m})

new_owner-owned_by :
    (org new : String) (rows : List Membership) (m : Membership)
    → find (is_member new org) rows ≡ some m
    → 1 ≤ owned_by new org (if is_owner_role m.role then rows else set_role new org owner rows)
new_owner-owned_by org new rows m found =
    let members = count-find (is_member new org) (is_owner_of org) rows {a = m} found in
    elim (Bool-cases (is_owner_role m.role)) [
      | inl is_owner ↦ rw is_owner (
          count-both-find (is_member new org) (is_owner_of org) rows {a = m} found
            (owner-is_owner_of org new rows m found is_owner))
      | inr is_not ↦ rw (is_not, owned_by-set_role_owner new org rows) members
    ]

transfer_rows_owned :
    (org current new : String) (rows : List Membership) (m : Membership)
    → current ≢ new
    → find (is_member new org) rows ≡ some m
    → 1 ≤ count_org_owners org (transfer_rows org current new m.role rows)
unfolding transfer_rows count_org_owners
transfer_rows_owned org current new rows m differ found = omega (
  arith,
  new_owner-owned_by org new rows m found,
  owned_by-set_role_other new current org admin
      (if is_owner_role m.role then rows else set_role new org owner rows) differ,
  count-both-le_right (is_member new org) (is_owner_of org)
      (transfer_rows org current new m.role rows),
)

transfer_to_self_rows :
    (org current : String) (rows : List Membership) (m : Membership)
    → members current org rows ≡ 1
    → count_org_owners org rows ≡ 1
    → find (is_member current org) rows ≡ some m
    → is_owner_role m.role ≡ true
    → count_org_owners org (set_role current org admin rows) ≡ 0
unfolding count_org_owners
transfer_to_self_rows org current rows m unique sole found is_owner =
    let moved = count-set_role current org admin rows in
    let both = count-both-le (is_member current org) (is_owner_of org) rows in
    (omega (
      arith,
      moved,
      both,
      count-both-find (is_member current org) (is_owner_of org) rows {a = m} found
          (owner-is_owner_of org current rows m found is_owner),
    ))

-- Handing an organization to another of its members leaves it with an owner: the member who gets
-- it.
transfer_ownership_owned :
    (org current new : String) (t : Tables)
    → current ≢ new
    → (transfer_ownership org current new t).1 ≡ ok tt
    → 1 ≤ count_org_owners org (transfer_ownership org current new t).0.memberships
unfolding transfer_ownership
transfer_ownership_owned org current new t differ h =
    elim (Bool-cases (is_owned_by (find (is_member current org) t.memberships))) [
      | inr is_not ↦ ground arith
      | inl is_owner ↦ elim (Option-cases (find (is_member new org) t.memberships)) [
        | inl missing ↦ ground arith
        | inr (m, found) ↦
            rw (is_owner, found, transfer_ownership)
              (transfer_rows_owned org current new t.memberships m differ found)
      ]
    ]

-- A sole owner who names himself is made an admin, and the organization has no owner left.
pub transfer_to_self_orphans :
    (org current : String) (t : Tables)
    → members current org t.memberships ≡ 1
    → count_org_owners org t.memberships ≡ 1
    → (transfer_ownership org current current t).1 ≡ ok tt
    → count_org_owners org (transfer_ownership org current current t).0.memberships ≡ 0
unfolding transfer_ownership transfer_rows count_org_owners
transfer_to_self_orphans org current t unique sole h =
    elim (Option-cases (find (is_member current org) t.memberships)) [
      | inl missing ↦ ground arith
      | inr (m, found) ↦ elim (Bool-cases (is_owner_role m.role)) [
        | inr is_not ↦ ground arith
        | inl is_owner ↦
            rw (found, is_owner, transfer_ownership)
              (transfer_to_self_rows org current t.memberships m unique sole found is_owner)
      ]
    ]
