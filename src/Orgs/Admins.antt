-- ===== src/Orgs/Admins.antt =====
-- The administrators of an organization in src/models/organizations.ts.
use disciplr_backend.Prelude.{
  ◌≤◌, String, Bool, true, false, not, none, some, List, [], ◌∷◌, ◌++◌, ◌≡◌, refl, arith, filter,
  find, count, modify_first, count-delete, count-both-le, count-both_none, count-changed,
  count-append, Option-cases, Bool-cases, inl, inr, find_sound, ids, subst, sym, ◌⊎◌,
}
use disciplr_backend.Orgs.{
  OrgMember, OrgRole, is_member_of, is_admin_role, is_admin_in, count_org_admins, add_org_member,
  remove_org_member, update_org_member_role, set_role, last_admin_removed, last_admin_demoted, Call,
  add, remove, update_role, step, run,
}

abbrev pub IsUnique : List OrgMember → Type 0
IsUnique ms = (org user : String) → count (is_member_of org user) ms ≤ 1

abbrev pub HasAdmin : String → List OrgMember → Type 0
HasAdmin org ms = 1 ≤ count_org_admins org ms

find-none-count {ℓ} : {A : Type ℓ} (p : A → Bool) (xs : List A) → find p xs ≡ none → count p xs ≡ 0
find-none-count p [] h = refl
find-none-count p (x ∷ xs) h = ground (arith, find-none-count p xs)

same_member :
    (org user : String) (m : OrgMember)
    → is_member_of org user m ≡ true
    → (m.org_id ≡ org) × (m.user_id ≡ user)
unfolding is_member_of
same_member org user m h = grind ids

-- An operation throws and changes nothing, or it passed its guards.
add-cases :
    (m : OrgMember) (ms : List OrgMember)
    → (step (add m) ms ≡ ms)
      ⊎ ((find (is_member_of m.org_id m.user_id) ms ≡ none) × (step (add m) ms ≡ ms ++ m ∷ []))
unfolding add_org_member
add-cases m ms = elim (Option-cases (find (is_member_of m.org_id m.user_id) ms)) [
  | inr (a, e) ↦ inl (rw (e, step) refl)
  | inl e ↦ inr (e, rw (e, step) refl)
]

remove-cases :
    (org user : String) (ms : List OrgMember)
    → (step (remove org user) ms ≡ ms)
      ⊎ ((m : OrgMember) × (find (is_member_of org user) ms ≡ some m)
          × (last_admin_removed org m ms ≡ false)
          × (step (remove org user) ms ≡ filter (λ x. not (is_member_of org user x)) ms))
unfolding remove_org_member
remove-cases org user ms = elim (Option-cases (find (is_member_of org user) ms)) [
  | inl e ↦ inl (rw (e, step) refl)
  | inr (m, e) ↦ elim (Bool-cases (last_admin_removed org m ms)) [
    | inl f ↦ inl (rw (e, f, step) refl)
    | inr f ↦ inr (m, e, f, rw (e, f, step) refl)
  ]
]

update-cases :
    (org user : String) (role : OrgRole) (ms : List OrgMember)
    → (step (update_role org user role) ms ≡ ms)
      ⊎ ((m : OrgMember) × (find (is_member_of org user) ms ≡ some m)
          × (last_admin_demoted org role m ms ≡ false)
          × (step (update_role org user role) ms
              ≡ modify_first (is_member_of org user) (set_role role) ms))
unfolding update_org_member_role
update-cases org user role ms = elim (Option-cases (find (is_member_of org user) ms)) [
  | inl e ↦ inl (rw (e, step) refl)
  | inr (m, e) ↦ elim (Bool-cases (last_admin_demoted org role m ms)) [
    | inl f ↦ inl (rw (e, f, step) refl)
    | inr f ↦ inr (m, e, f, rw (e, f, step) refl)
  ]
]

fresh-IsUnique :
    (m : OrgMember) (ms : List OrgMember) (org user : String)
    → find (is_member_of m.org_id m.user_id) ms ≡ none
    → count (is_member_of org user) ms ≤ 1
    → count (is_member_of org user) (ms ++ m ∷ []) ≤ 1
unfolding is_member_of
fresh-IsUnique m ms org user e h = elim (Bool-cases (is_member_of org user m)) [
  | inl f ↦
      let own = same_member org user m f in
      let none_yet =
        subst (λ o. count (is_member_of o user) ms ≡ 0) own.0
          (subst (λ u. count (is_member_of m.org_id u) ms ≡ 0) own.1
            (find-none-count (is_member_of m.org_id m.user_id) ms e)) in
      ground (arith, count-append (is_member_of org user) ms (m ∷ []), none_yet, f)
  | inr f ↦ ground (arith, count-append (is_member_of org user) ms (m ∷ []), f, h)
]

step-IsUnique : (c : Call) (ms : List OrgMember) → IsUnique ms → IsUnique (step c ms)
unfolding is_member_of
step-IsUnique (add m) ms h org user = elim (add-cases m ms) [
  | inl e ↦ subst (λ x. count (is_member_of org user) x ≤ 1) (sym e) (h org user)
  | inr (fresh, e) ↦
      subst (λ x. count (is_member_of org user) x ≤ 1) (sym e)
        (fresh-IsUnique m ms org user fresh (h org user))
]
step-IsUnique (remove org' user') ms h org user = elim (remove-cases org' user' ms) [
  | inl e ↦ subst (λ x. count (is_member_of org user) x ≤ 1) (sym e) (h org user)
  | inr (m, found, f, e) ↦
      subst (λ x. count (is_member_of org user) x ≤ 1) (sym e)
        (omega
          (arith, h org user, count-delete (is_member_of org' user') (is_member_of org user) ms))
]
step-IsUnique (update_role org' user' role) ms h org user = elim (update-cases org' user' role ms) [
  | inl e ↦ subst (λ x. count (is_member_of org user) x ≤ 1) (sym e) (h org user)
  | inr (m, found, f, e) ↦
      subst (λ x. count (is_member_of org user) x ≤ 1) (sym e)
        (omega (
          arith,
          h org user,
          count-changed (is_member_of org' user') (is_member_of org user) (set_role role) ms {a = m}
              found,
        ))
]

same_org :
    (org user org' : String) (m : OrgMember)
    → is_member_of org user m ≡ true
    → is_admin_in org' m ≡ true
    → org ≡ org'
unfolding is_member_of is_admin_in
same_org org user org' m h h' = grind ids

is_admin_in-role :
    (org : String) (m : OrgMember) → is_admin_in org m ≡ true → is_admin_role m.role ≡ true
unfolding is_admin_in
is_admin_in-role org m h = ground arith

append-HasAdmin :
    (org : String) (m : OrgMember) (ms : List OrgMember)
    → HasAdmin org ms
    → HasAdmin org (ms ++ m ∷ [])
unfolding count_org_admins
append-HasAdmin org m ms h = omega (arith, h, count-append (is_admin_in org) ms (m ∷ []))

remove-HasAdmin :
    (org user org' : String) (m : OrgMember) (ms : List OrgMember)
    → count (is_member_of org user) ms ≤ 1
    → find (is_member_of org user) ms ≡ some m
    → last_admin_removed org m ms ≡ false
    → HasAdmin org' ms
    → HasAdmin org' (filter (λ x. not (is_member_of org user x)) ms)
unfolding count_org_admins
remove-HasAdmin org user org' m ms unique found f h =
    let deleted = count-delete (is_member_of org user) (is_admin_in org') ms in
    elim (Bool-cases (is_admin_in org' m)) [
      | inr not_admin ↦ omega (
        arith,
        deleted,
        h,
        count-both_none (is_member_of org user) (is_admin_in org') ms {a = m} unique found
            not_admin,
      )
      | inl is_admin ↦ omega (
        arith,
        deleted,
        unique,
        count-both-le (is_member_of org user) (is_admin_in org') ms,
        subst (λ o. 2 ≤ count (is_admin_in o) ms)
            (same_org org user org' m (find_sound (is_member_of org user) ms {a = m} found)
              is_admin)
            (two_admins (is_admin_in-role org' m is_admin)),
      )
    ]
  where
    two_admins : is_admin_role m.role ≡ true → 2 ≤ count (is_admin_in org) ms
    two_admins r = ground (arith, f)

set_role-is_admin_in :
    (org : String) (role : OrgRole) (m : OrgMember)
    → is_admin_in org m ≡ true
    → is_admin_role role ≡ true
    → is_admin_in org (set_role role m) ≡ true
unfolding is_admin_in
set_role-is_admin_in org role m h r = ground arith

update-HasAdmin :
    (org user org' : String) (role : OrgRole) (m : OrgMember) (ms : List OrgMember)
    → find (is_member_of org user) ms ≡ some m
    → last_admin_demoted org role m ms ≡ false
    → HasAdmin org' ms
    → HasAdmin org' (modify_first (is_member_of org user) (set_role role) ms)
unfolding count_org_admins
update-HasAdmin org user org' role m ms found f h =
    let changed =
      count-changed (is_member_of org user) (is_admin_in org') (set_role role) ms {a = m} found in
    elim (Bool-cases (is_admin_in org' m)) [
      | inr not_admin ↦ ground (arith, changed, h)
      | inl is_admin ↦ elim (Bool-cases (is_admin_role role)) [
        | inl stays ↦ ground (arith, changed, h, set_role-is_admin_in org' role m is_admin stays)
        | inr leaves ↦ ground (
          arith,
          changed,
          subst (λ o. 2 ≤ count (is_admin_in o) ms)
              (same_org org user org' m (find_sound (is_member_of org user) ms {a = m} found)
                is_admin)
              (two_admins (is_admin_in-role org' m is_admin) leaves),
        )
      ]
    ]
  where
    two_admins :
        is_admin_role m.role ≡ true → is_admin_role role ≡ false → 2 ≤ count (is_admin_in org) ms
    two_admins r n = ground (arith, f)

step-HasAdmin :
    (c : Call) (org : String) (ms : List OrgMember)
    → IsUnique ms
    → HasAdmin org ms
    → HasAdmin org (step c ms)
step-HasAdmin (add m) org ms unique h = elim (add-cases m ms) [
  | inl e ↦ subst (HasAdmin org) (sym e) h
  | inr (fresh, e) ↦ subst (HasAdmin org) (sym e) (append-HasAdmin org m ms h)
]
step-HasAdmin (remove org' user) org ms unique h = elim (remove-cases org' user ms) [
  | inl e ↦ subst (HasAdmin org) (sym e) h
  | inr (m, found, f, e) ↦
      subst (HasAdmin org) (sym e) (remove-HasAdmin org' user org m ms (unique org' user) found f h)
]
step-HasAdmin (update_role org' user role) org ms unique h = elim (update-cases org' user role ms) [
  | inl e ↦ subst (HasAdmin org) (sym e) h
  | inr (m, found, f, e) ↦
      subst (HasAdmin org) (sym e) (update-HasAdmin org' user org role m ms found f h)
]

-- While no user is twice in an organization, and one of its members is an owner or an admin, any
-- additions, removals and changes of roles, for any organizations, keep both.
pub run-HasAdmin :
    (cs : List Call) (org : String) (ms : List OrgMember)
    → IsUnique ms
    → HasAdmin org ms
    → IsUnique (run cs ms) × HasAdmin org (run cs ms)
unfolding run
run-HasAdmin [] org ms unique h = (unique, h)
run-HasAdmin (c ∷ cs) org ms unique h =
    run-HasAdmin cs org (step c ms) (step-IsUnique c ms unique) (step-HasAdmin c org ms unique h)
