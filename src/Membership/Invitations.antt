-- ===== src/Membership/Invitations.antt =====
-- `resendInvitation` and `revokeInvitation` of src/services/membership.ts.
use disciplr_backend.Prelude.{
  ℕ, ◌≤◌, String, Bool, false, ◌&&◌, Option, none, some, List, [], ◌∷◌, ◌≡◌, refl, arith, map,
  if◌then◌else◌, is_some, filter, find, count, same, Option-cases, Bool-cases, inl, inr,
}

pub record OrgInvitation : Type 0 where
  pub id : String
  pub org_id : String
  pub email : String
  pub token_hash : String
  pub expires_at : ℕ
  pub accepted_at : Option ℕ
  pub revoked_at : Option ℕ

pub data InvitationError : Type 0 where
  invitation_not_found invitation_accepted : InvitationError

pub data InvitationResult : Type 0 where
  updated : OrgInvitation → InvitationResult
  refused : InvitationError → InvitationResult

unfoldable pub is_invitation : String → String → OrgInvitation → Bool
is_invitation org id i = same i.id id && same i.org_id org

unfoldable pub is_accepted : OrgInvitation → Bool
is_accepted i = is_some i.accepted_at

unfoldable pub resent : String → ℕ → OrgInvitation → OrgInvitation
resent token_hash expires_at i = record i {
  token_hash = token_hash;
  expires_at = expires_at;
  revoked_at = none;
}

unfoldable pub revoked : ℕ → OrgInvitation → OrgInvitation
revoked now i = record i { revoked_at = some now }

unfoldable pub update_where :
    (OrgInvitation → Bool)
    → (OrgInvitation → OrgInvitation)
    → List OrgInvitation
    → List OrgInvitation
update_where p f rows = map (λ i. if p i then f i else i) rows

-- What both operations do: find the invitation, refuse an accepted one, and write `f` to it.
unfoldable pub modify_invitation :
    String
    → String
    → (OrgInvitation → OrgInvitation)
    → List OrgInvitation
    → List OrgInvitation × InvitationResult
modify_invitation org id f rows = elim (find (is_invitation org id) rows) [
  | none ↦ (rows, refused invitation_not_found)
  | some i ↦
      if is_accepted i
      then (rows, refused invitation_accepted)
      else (update_where (is_invitation org id) f rows, updated (f i))
]

unfoldable pub resend_invitation :
    String → String → String → ℕ → List OrgInvitation → List OrgInvitation × InvitationResult
resend_invitation org id token_hash expires_at rows =
    modify_invitation org id (resent token_hash expires_at) rows

unfoldable pub revoke_invitation :
    String → String → ℕ → List OrgInvitation → List OrgInvitation × InvitationResult
revoke_invitation org id now rows = modify_invitation org id (revoked now) rows

-- The calls on an invitation.
pub data Call : Type 0 where
  resends : String → String → String → ℕ → Call
  revokes : String → String → ℕ → Call

unfoldable pub step : Call → List OrgInvitation → List OrgInvitation
step (resends org id token_hash expires_at) rows =
    (resend_invitation org id token_hash expires_at rows).0
step (revokes org id now) rows = (revoke_invitation org id now rows).0

unfoldable pub run : List Call → List OrgInvitation → List OrgInvitation
run [] rows = rows
run (c ∷ cs) rows = run cs (step c rows)

-- Identifiers are unique: the table's primary key.
abbrev pub UniqueIds : List OrgInvitation → Type 0
UniqueIds rows = (org id : String) → count (is_invitation org id) rows ≤ 1

-- A write that keeps the identifiers, and takes nothing that is not accepted to be so.
record KeepsKeys (f : OrgInvitation → OrgInvitation) : Type 0 where
  same_key :
      (org id : String) (i : OrgInvitation) → is_invitation org id (f i) ≡ is_invitation org id i
  same_accepted : (i : OrgInvitation) → is_accepted (f i) ≡ is_accepted i

count-update_where :
    (p q : OrgInvitation → Bool) (f : OrgInvitation → OrgInvitation)
    → ((i : OrgInvitation) → q (f i) ≡ q i)
    → (rows : List OrgInvitation) → count q (update_where p f rows) ≡ count q rows
unfolding update_where
count-update_where p q f h [] = refl
count-update_where p q f h (i ∷ rows) = grind (arith, count-update_where p q f h rows, h i)

filter-update_where_out :
    (p q : OrgInvitation → Bool) (f : OrgInvitation → OrgInvitation) (rows : List OrgInvitation)
    → count p rows ≤ 0
    → filter q (update_where p f rows) ≡ filter q rows
unfolding update_where
filter-update_where_out p q f [] h = refl
filter-update_where_out p q f (i ∷ rows) h = grind (arith, filter-update_where_out p q f rows)

-- Where the only entry that passes `p` fails `q`, before and after, those that pass `q` are left.
filter-update_where :
    (p q : OrgInvitation → Bool) (f : OrgInvitation → OrgInvitation) (rows : List OrgInvitation)
    → {i : OrgInvitation} → ((i : OrgInvitation) → q (f i) ≡ q i)
    → count p rows ≤ 1
    → find p rows ≡ some i
    → q i ≡ false
    → filter q (update_where p f rows) ≡ filter q rows
unfolding update_where
filter-update_where p q f [] {i} kept h found out = refl
filter-update_where p q f (x ∷ rows) {i} kept h found out =
    grind (
      arith,
      filter-update_where p q f rows {i = i} kept,
      filter-update_where_out p q f rows,
      kept x,
    )

resent-KeepsKeys : (token_hash : String) (expires_at : ℕ) → KeepsKeys (resent token_hash expires_at)
unfolding resent is_invitation is_accepted
resent-KeepsKeys token_hash expires_at = record {
  same_key = λ org id i. refl;
  same_accepted = λ i. refl;
}

revoked-KeepsKeys : (now : ℕ) → KeepsKeys (revoked now)
unfolding revoked is_invitation is_accepted
revoked-KeepsKeys now = record { same_key = λ org id i. refl; same_accepted = λ i. refl }

-- The rows after a call hold the same accepted invitations, and their identifiers are unique.
record Kept (before after : List OrgInvitation) : Type 0 where
  accepted : filter is_accepted after ≡ filter is_accepted before
  unique : UniqueIds after

modify_invitation-Kept :
    (org id : String) (f : OrgInvitation → OrgInvitation) (rows : List OrgInvitation)
    → KeepsKeys f
    → UniqueIds rows
    → Kept rows (modify_invitation org id f rows).0
unfolding modify_invitation
modify_invitation-Kept org id f rows keeps unique =
    elim (Option-cases (find (is_invitation org id) rows)) [
      | inl missing ↦ rw (missing, modify_invitation) (record { accepted = refl; unique = unique })
      | inr (i, found) ↦ elim (Bool-cases (is_accepted i)) [
        | inl done ↦
            rw (found, done, modify_invitation) (record { accepted = refl; unique = unique })
        | inr pending ↦
            rw (found, pending, modify_invitation)
              (record {
                accepted =
                    filter-update_where (is_invitation org id) is_accepted f rows {i = i}
                      keeps.same_accepted (unique org id) found pending;
                unique = λ o k. omega (
                  arith,
                  unique o k,
                  count-update_where (is_invitation org id) (is_invitation o k) f
                      (keeps.same_key o k) rows,
                );
              })
      ]
    ]

step-Kept : (c : Call) (rows : List OrgInvitation) → UniqueIds rows → Kept rows (step c rows)
unfolding step resend_invitation revoke_invitation
step-Kept (resends org id token_hash expires_at) rows unique =
    modify_invitation-Kept org id (resent token_hash expires_at) rows
      (resent-KeepsKeys token_hash expires_at) unique
step-Kept (revokes org id now) rows unique =
    modify_invitation-Kept org id (revoked now) rows (revoked-KeepsKeys now) unique

-- Where identifiers are unique, no sequence of resends and revocations, refused ones included,
-- changes an accepted invitation or makes or removes one.
run-accepted :
    (cs : List Call) (rows : List OrgInvitation)
    → UniqueIds rows
    → filter is_accepted (run cs rows) ≡ filter is_accepted rows
unfolding run
run-accepted [] rows unique = refl
run-accepted (c ∷ cs) rows unique =
    let kept = step-Kept c rows unique in
    cc (run-accepted cs (step c rows) kept.unique, kept.accepted)
