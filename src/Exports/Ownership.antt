-- ===== src/Exports/Ownership.antt =====
-- Whose vaults an export of src/services/exportQueue.ts shows, and what its cells start with.
use package.text.Mathlib.TextLemmas.{cons-append}
use disciplr_backend.Prelude.{
  String, true, false, some, List, [], ◌∷◌, ◌++◌, ◌≡◌, ◌≢◌, refl, ap, filter, is_empty, same_iff,
  Bool-cases, inl, inr,
}
use disciplr_backend.Exports.{ExportJob}
use disciplr_backend.Exports.Data.{
  Row, Value, undefined, null, text, number, equals_text, field, is_of_user, user_vaults,
  build_export_data_from_vault_store,
}
use disciplr_backend.Exports.Data.Serializing.{cast_string, starts_formula, is_formula_code}
use disciplr_backend.Exports.Jobs.{World, scoped_user_id, fetch_data}

equals_text_sound : (v : Value) (s : String) → equals_text v s ≡ true → v ≡ text s
equals_text_sound undefined s h = cc h
equals_text_sound null s h = cc h
equals_text_sound (text t) s h = ap text ((same_iff t s).0 h)
equals_text_sound (number n) s h = cc h

-- A vault with another creator and another user is not the user's.
not_of_user :
    (user_id : String) (vault : Row)
    → field "creator" vault ≢ text user_id
    → field "user_id" vault ≢ text user_id
    → is_of_user user_id vault ≡ false
unfolding is_of_user
not_of_user user_id vault creator user =
    elim (Bool-cases (equals_text (field "creator" vault) user_id)) [
      | inl e ↦ elim (creator (equals_text_sound (field "creator" vault) user_id e)) [ ]
      | inr e ↦ elim (Bool-cases (equals_text (field "user_id" vault) user_id)) [
        | inl f ↦ elim (user (equals_text_sound (field "user_id" vault) user_id f)) [ ]
        | inr f ↦ rw (e, f) refl
      ]
    ]

filter-insert :
    (user_id : String) (vault : Row) (before after : List Row)
    → is_of_user user_id vault ≡ false
    → filter (is_of_user user_id) (before ++ vault ∷ after)
      ≡ filter (is_of_user user_id) (before ++ after)
filter-insert user_id vault [] after h = rw (h) refl
filter-insert user_id vault (x ∷ before) after h =
    rw (filter-insert user_id vault before after h) refl

-- An export from a store in memory does not show the vaults of others to a user who is no
-- administrator and whose id is not empty: a vault whose creator and whose user are both not the user,
-- wherever it stands in the store, can be taken out of the store, or put into it, and the data stay the
-- same, the transactions and the analytics that are made of the vaults included.
pub fetch_data_own :
    (w : World) (job : ExportJob) (before after : List Row) (vault : Row)
    → job.is_admin ≡ false
    → is_empty job.user_id ≡ false
    → field "creator" vault ≢ text job.user_id
    → field "user_id" vault ≢ text job.user_id
    → fetch_data w (some (before ++ vault ∷ after)) job ≡ fetch_data w (some (before ++ after)) job
unfolding fetch_data scoped_user_id build_export_data_from_vault_store user_vaults
fetch_data_own w job before after vault not_admin named creator user =
    let other = not_of_user job.user_id vault creator user in
    rw (not_admin, named, filter-insert job.user_id vault before after other) refl

-- A text cell of an export never starts with a character that a spreadsheet takes for a formula.
cast_string_safe : (s : String) → starts_formula (cast_string s) ≡ false
unfolding cast_string is_formula_code
cast_string_safe s = elim (Bool-cases (starts_formula s)) [
  | inl e ↦ rw (e) (rw (cons-append "'" String.[] s) refl)
  | inr e ↦ rw (e, e) refl
]
