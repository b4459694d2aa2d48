-- ===== src/Verifiers/Profiles/Timestamps.antt =====
-- The times that a verifier's profile keeps and its status, through the operations of
-- src/services/verifiers.ts that the routes call.
pub mod Rows
use disciplr_backend.Prelude.{
  ℕ, ◌≤◌, String, Bool, true, false, ◌&&◌, not, Option, none, some, List, [], ◌∷◌, ◌++◌, ◌≡◌, refl,
  arith, is_some, or_default, filter, find, any, all, count, count-append, same, same_iff, ◌∙◌, sym,
  List-cases, Option-cases, Bool-cases, inl, inr,
}
use disciplr_backend.Verifiers.Profiles.{
  VerifierStatus, pending, approved, suspended, deactivated, VerifierProfile, MutationContext,
  AuditEntry, Tables, is_verifier, inserted, create_verifier_profile,
  create_or_get_verifier_profile, Updates, get_changed_fields, put_status, patched, is_refused,
  action_of, update_user, update_found, update_verifier_profile, transition_verifier,
  delete_verifier_profile,
}
use disciplr_backend.Verifiers.Profiles.Timestamps.Rows.{
  patched-agrees, patched-user_id, all-find, all-filter, count-filter_le, any-count, all-snoc,
  all-update_user, count-update_user, agrees, fits,
}

-- Nobody has two profiles, and each has the times that its status asks for.
pub record IsConsistent (t : Tables) : Type 0 where
  pub unique : (user : String) → count (is_verifier user) t.verifiers ≤ 1
  pub agreeing : all agrees t.verifiers ≡ true

patched-IsConsistent :
    (user : String) (u : Updates) (now : ℕ) (p : VerifierProfile) (t : Tables)
    (log : List AuditEntry)
    → IsConsistent t
    → find (is_verifier user) t.verifiers ≡ some p
    → is_refused p.status u.status ≡ false
    → IsConsistent
        (record { verifiers = update_user user (patched u now) t.verifiers; audit_log = log })
patched-IsConsistent user u now p t log k found fine = record {
  unique = λ who. omega (
    arith,
    k.unique who,
    count-update_user user who (patched u now) (patched-user_id u now) t.verifiers,
  );
  agreeing =
      all-update_user user agrees (patched u now) t.verifiers {a = p} (k.unique user) k.agreeing
        found
        (patched-agrees u now p
          (all-find (is_verifier user) agrees t.verifiers {a = p} k.agreeing found) fine);
}

update_found-IsConsistent :
    (user : String) (u : Updates) (context : MutationContext) (now : ℕ) (p : VerifierProfile)
    (t : Tables)
    → IsConsistent t
    → find (is_verifier user) t.verifiers ≡ some p
    → IsConsistent (update_found user u context now p t).0
unfolding update_found
update_found-IsConsistent user u context now p t k found =
    elim (Bool-cases (is_refused p.status u.status)) [
      | inl bad ↦ rw (bad, update_found) k
      | inr fine ↦ elim (List-cases (get_changed_fields p u)) [
        | inl same_fields ↦ rw (fine, same_fields, update_found) k
        | inr (field, fields, changed) ↦
            elim (Option-cases (action_of p.status (patched u now p).status u.status)) [
              | inl missing ↦ rw (fine, changed, missing, update_found) k
              | inr (action, named) ↦
                  rw (fine, changed, named, update_found)
                    (patched-IsConsistent user u now p t _ k found fine)
            ]
      ]
    ]

update-IsConsistent :
    (user : String) (u : Updates) (context : MutationContext) (now : ℕ) (t : Tables)
    → IsConsistent t
    → IsConsistent (update_verifier_profile user u context now t).0
unfolding update_verifier_profile
update-IsConsistent user u context now t k =
    elim (Option-cases (find (is_verifier user) t.verifiers)) [
      | inl missing ↦ rw (missing, update_verifier_profile) k
      | inr (p, found) ↦
          rw (found, update_verifier_profile)
            (update_found-IsConsistent user u context now p t k found)
    ]

inserted-agrees :
    (user : String) (display_name metadata : Option String) (status : VerifierStatus) (now : ℕ)
    → agrees (inserted user display_name metadata status now) ≡ true
unfolding inserted
inserted-agrees user display_name metadata pending now = refl
inserted-agrees user display_name metadata approved now = refl
inserted-agrees user display_name metadata suspended now = refl
inserted-agrees user display_name metadata deactivated now = refl

inserted-user_id :
    (user : String) (display_name metadata : Option String) (status : VerifierStatus) (now : ℕ)
    → (inserted user display_name metadata status now).user_id ≡ user
unfolding inserted
inserted-user_id user display_name metadata pending now = refl
inserted-user_id user display_name metadata approved now = refl
inserted-user_id user display_name metadata suspended now = refl
inserted-user_id user display_name metadata deactivated now = refl

-- The operations that the routes call.
pub data Call : Type 0 where
  creates :
      String → Option String → Option String → Option VerifierStatus → MutationContext → ℕ → Call
  gets : String → Option String → Option String → MutationContext → ℕ → Call
  updates : String → Updates → MutationContext → ℕ → Call
  moves : String → VerifierStatus → MutationContext → ℕ → Call
  deletes : String → MutationContext → Call

unfoldable pub step : Call → Tables → Tables
step (creates user display_name metadata status context now) t =
    (create_verifier_profile user display_name metadata status context now t).0
step (gets user display_name metadata context now) t =
    (create_or_get_verifier_profile user display_name metadata context now t).0
step (updates user u context now) t = (update_verifier_profile user u context now t).0
step (moves user status context now) t = (transition_verifier user status context now t).0
step (deletes user context) t = (delete_verifier_profile user context t).0

unfoldable pub run : List Call → Tables → Tables
run [] t = t
run (c ∷ cs) t = run cs (step c t)

count-snoc_inserted :
    (user who : String) (p : VerifierProfile) (rows : List VerifierProfile)
    → p.user_id ≡ user
    → count (is_verifier user) rows ≡ 0
    → count (is_verifier who) rows ≤ 1
    → count (is_verifier who) (rows ++ p ∷ []) ≤ 1
unfolding is_verifier
count-snoc_inserted user who p rows e h unique = elim (Bool-cases (same p.user_id who)) [
  | inr differ ↦ rw (count-append (is_verifier who) rows (p ∷ [])) (ground (arith, unique))
  | inl named ↦
      let who_is_user : who ≡ user = sym ((same_iff p.user_id who).0 named) ∙ e in
      rw (count-append (is_verifier who) rows (p ∷ [])) (ground (arith, h, who_is_user))
]

create-IsConsistent :
    (user : String) (display_name metadata : Option String) (status : Option VerifierStatus)
    (context : MutationContext) (now : ℕ) (t : Tables)
    → IsConsistent t
    → IsConsistent (create_verifier_profile user display_name metadata status context now t).0
unfolding create_verifier_profile
create-IsConsistent user display_name metadata status context now t k =
    let row = inserted user display_name metadata (or_default status pending) now in
    elim (Bool-cases (any (is_verifier user) t.verifiers)) [
      | inl present ↦ rw (present, create_verifier_profile) k
      | inr absent ↦
          rw (absent, create_verifier_profile)
            (record {
              unique = λ who.
                  count-snoc_inserted user who row t.verifiers
                    (inserted-user_id user display_name metadata (or_default status pending) now)
                    (any-count (is_verifier user) agrees t.verifiers absent) (k.unique who);
              agreeing =
                  all-snoc (is_verifier user) agrees t.verifiers row k.agreeing
                    (inserted-agrees user display_name metadata (or_default status pending) now);
            })
    ]

create_or_get-IsConsistent :
    (user : String) (display_name metadata : Option String) (context : MutationContext) (now : ℕ)
    (t : Tables)
    → IsConsistent t
    → IsConsistent (create_or_get_verifier_profile user display_name metadata context now t).0
unfolding create_or_get_verifier_profile
create_or_get-IsConsistent user display_name metadata context now t k =
    elim (Option-cases (find (is_verifier user) t.verifiers)) [
      | inr (p, found) ↦ rw (found, create_or_get_verifier_profile) k
      | inl missing ↦
          rw (missing, create_or_get_verifier_profile)
            (create-IsConsistent user display_name metadata none context now t k)
    ]

delete-IsConsistent :
    (user : String) (context : MutationContext) (t : Tables)
    → IsConsistent t
    → IsConsistent (delete_verifier_profile user context t).0
unfolding delete_verifier_profile
delete-IsConsistent user context t k = elim (Option-cases (find (is_verifier user) t.verifiers)) [
  | inl missing ↦ rw (missing, delete_verifier_profile) k
  | inr (p, found) ↦
      rw (found, delete_verifier_profile)
        (record {
          unique = λ who. omega (
            arith,
            k.unique who,
            count-filter_le (λ x. not (is_verifier user x)) (is_verifier who) t.verifiers,
          );
          agreeing = all-filter (λ x. not (is_verifier user x)) agrees t.verifiers k.agreeing;
        })
]

step-IsConsistent : (c : Call) (t : Tables) → IsConsistent t → IsConsistent (step c t)
unfolding step transition_verifier
step-IsConsistent (creates user display_name metadata status context now) t k =
    create-IsConsistent user display_name metadata status context now t k
step-IsConsistent (gets user display_name metadata context now) t k =
    create_or_get-IsConsistent user display_name metadata context now t k
step-IsConsistent (updates user u context now) t k = update-IsConsistent user u context now t k
step-IsConsistent (moves user status context now) t k =
    update-IsConsistent user (record { display_name = none; metadata = none; status = some status })
      context now t k
step-IsConsistent (deletes user context) t k = delete-IsConsistent user context t k

-- Where nobody has two profiles and every profile's times fit its status (a pending verifier has
-- none, an approved one only that of the approval, a suspended one was suspended and not
-- deactivated, a deactivated one was deactivated), both hold after any creations, updates,
-- transitions and deletions, refused ones included.
pub run-IsConsistent : (cs : List Call) (t : Tables) → IsConsistent t → IsConsistent (run cs t)
unfolding run
run-IsConsistent [] t k = k
run-IsConsistent (c ∷ cs) t k = run-IsConsistent cs (step c t) (step-IsConsistent c t k)
