-- ===== src/Verifiers/Profiles/Timestamps/Rows.antt =====
-- What a write of src/services/verifiers.ts does to one profile, and to the rows that hold it.
use disciplr_backend.Prelude.{
  ℕ, ◌≤◌, String, Bool, true, false, ◌&&◌, not, Option, none, some, List, [], ◌∷◌, ◌++◌, ◌≡◌, refl,
  arith, is_some, or_default, filter, find, any, all, count,
}
use disciplr_backend.Verifiers.Profiles.{
  VerifierStatus, pending, approved, suspended, deactivated, VerifierProfile, is_verifier, Updates,
  put_status, patched, is_refused, update_user,
}

-- A status and the times of approval, suspension and deactivation that go with it.
abbrev pub fits : VerifierStatus → Option ℕ → Option ℕ → Option ℕ → Bool
fits pending a s d = not (is_some a) && (not (is_some s) && not (is_some d))
fits approved a s d = is_some a && (not (is_some s) && not (is_some d))
fits suspended a s d = is_some s && not (is_some d)
fits deactivated a s d = is_some d

abbrev pub agrees : VerifierProfile → Bool
agrees p = fits p.status p.approved_at p.suspended_at p.deactivated_at

put_status-agrees :
    (s : Option VerifierStatus) (from : VerifierStatus) (now : ℕ) (p : VerifierProfile)
    → p.status ≡ from
    → fits from p.approved_at p.suspended_at p.deactivated_at ≡ true
    → is_refused from s ≡ false
    → agrees (put_status s now p) ≡ true
unfolding is_refused
put_status-agrees none from now p e h fine = ground (arith, e)
put_status-agrees (some pending) from now p e h fine = refl
put_status-agrees (some approved) from now p e h fine = refl
put_status-agrees (some suspended) pending now p e h fine = ground arith
put_status-agrees (some suspended) approved now p e h fine = ground arith
put_status-agrees (some suspended) suspended now p e h fine = ground arith
put_status-agrees (some suspended) deactivated now p e h fine = ground arith
put_status-agrees (some deactivated) from now p e h fine = refl

pub patched-agrees :
    (u : Updates) (now : ℕ) (p : VerifierProfile)
    → agrees p ≡ true
    → is_refused p.status u.status ≡ false
    → agrees (patched u now p) ≡ true
unfolding patched
patched-agrees u now p h fine =
    put_status-agrees u.status p.status now
      (record p {
        display_name = or_default u.display_name p.display_name;
        metadata = or_default u.metadata p.metadata;
      })
      refl h fine

put_status-user_id :
    (s : Option VerifierStatus) (now : ℕ) (p : VerifierProfile)
    → (put_status s now p).user_id ≡ p.user_id
put_status-user_id none now p = refl
put_status-user_id (some pending) now p = refl
put_status-user_id (some approved) now p = refl
put_status-user_id (some suspended) now p = refl
put_status-user_id (some deactivated) now p = refl

pub patched-user_id :
    (u : Updates) (now : ℕ) (p : VerifierProfile) → (patched u now p).user_id ≡ p.user_id
unfolding patched
patched-user_id u now p = put_status-user_id u.status now (record p {
  display_name = or_default u.display_name p.display_name;
  metadata = or_default u.metadata p.metadata;
})

module _ (p c : VerifierProfile → Bool) where
  pub all-find :
      (rows : List VerifierProfile) {a : VerifierProfile}
      → all c rows ≡ true
      → find p rows ≡ some a
      → c a ≡ true
  all-find [] h found = ground arith
  all-find (x ∷ rows) {a} h found = ground (arith, all-find rows {a = a})

  pub all-filter : (rows : List VerifierProfile) → all c rows ≡ true → all c (filter p rows) ≡ true
  all-filter [] h = refl
  all-filter (x ∷ rows) h = ground (arith, all-filter rows)

  pub count-filter_le : (rows : List VerifierProfile) → count c (filter p rows) ≤ count c rows
  count-filter_le [] = omega arith
  count-filter_le (x ∷ rows) = ground (arith, count-filter_le rows)

  pub any-count : (rows : List VerifierProfile) → any p rows ≡ false → count p rows ≡ 0
  any-count [] h = refl
  any-count (x ∷ rows) h = ground (arith, any-count rows)

  pub all-snoc :
      (rows : List VerifierProfile) (x : VerifierProfile)
      → all c rows ≡ true
      → c x ≡ true
      → all c (rows ++ x ∷ []) ≡ true
  all-snoc [] x h e = ground arith
  all-snoc (y ∷ rows) x h e = ground (arith, all-snoc rows x)

update_user_out :
    (user : String) (f : VerifierProfile → VerifierProfile) (rows : List VerifierProfile)
    → count (is_verifier user) rows ≤ 0
    → update_user user f rows ≡ rows
unfolding update_user
update_user_out user f [] h = refl
update_user_out user f (x ∷ rows) h = grind (arith, update_user_out user f rows)

pub all-update_user :
    (user : String) (c : VerifierProfile → Bool) (f : VerifierProfile → VerifierProfile)
    (rows : List VerifierProfile) {a : VerifierProfile}
    → count (is_verifier user) rows ≤ 1
    → all c rows ≡ true
    → find (is_verifier user) rows ≡ some a
    → c (f a) ≡ true
    → all c (update_user user f rows) ≡ true
unfolding update_user
all-update_user user c f [] {a} unique h found e = refl
all-update_user user c f (x ∷ rows) {a} unique h found e =
    grind (arith, all-update_user user c f rows {a = a}, update_user_out user f rows)

pub count-update_user :
    (user who : String) (f : VerifierProfile → VerifierProfile)
    → ((p : VerifierProfile) → (f p).user_id ≡ p.user_id)
    → (rows : List VerifierProfile)
    → count (is_verifier who) (update_user user f rows) ≡ count (is_verifier who) rows
unfolding update_user is_verifier
count-update_user user who f kept [] = refl
count-update_user user who f kept (x ∷ rows) =
    grind (arith, count-update_user user who f kept rows, kept x)
