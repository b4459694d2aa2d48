-- ===== src/Idempotency/Keys.antt =====
-- The keys of src/services/idempotency.ts.
use Prim.Native.Char.{Char, code}
use text.Mathlib.TextLemmas.{
  nil-append, cons-append, tail-eq_of_cons-eq, head-eq_of_cons-eq, append_assoc, append_cancel_left,
}
use disciplr_backend.Prelude.{
  ℕ, String, Bool, true, false, not, Option, none, some, ◌≡◌, refl, ◌↔◌, arith, ◌==◌, ap, ◌∙◌, sym,
  Option-cases, inl, inr, or_null, join,
}
use disciplr_backend.Idempotency.{
  all_codes, is_key_code, matches_key_re, validate_idempotency_key, valid, in_namespace,
  build_internal_key, OwnerContext,
}

-- Whom the key of a request belongs to.
pub data Principal : Type 0 where
  anonymous : Principal
  organization user : String → Principal

unfoldable pub principal : Option OwnerContext → Principal
principal none = anonymous
principal (some owner) = elim (or_null owner.org_id) [
  | some org ↦ organization org
  | none ↦ elim (or_null owner.user_id) [ some id ↦ user id | none ↦ anonymous ]
]

-- The internal key, from the principal.
namespaced : Principal → String → String
namespaced anonymous key = key
namespaced (organization org) key = in_namespace "org:" org key
namespaced (user id) key = in_namespace "user:" id key

build_internal_key-namespaced :
    (key : String) (owner : Option OwnerContext)
    → build_internal_key key owner ≡ namespaced (principal owner) key
unfolding build_internal_key principal namespaced
build_internal_key-namespaced key none = refl
build_internal_key-namespaced key (some owner) = elim (Option-cases (or_null owner.org_id)) [
  | inr (org, e) ↦ rw (e, build_internal_key, principal, namespaced) refl
  | inl e ↦ elim (Option-cases (or_null owner.user_id)) [
    | inr (id, f) ↦ rw (e, f, build_internal_key, principal, namespaced) refl
    | inl f ↦ rw (e, f, build_internal_key, principal, namespaced) refl
  ]
]

abbrev colon : Char
colon = ":"

no_colon : String → Bool
no_colon = all_codes (λ c. not (c == b':'))

all_codes_mono :
    (p q : ℕ → Bool)
    → ((c : ℕ) → p c ≡ true → q c ≡ true)
    → (s : String) → all_codes p s ≡ true
    → all_codes q s ≡ true
all_codes_mono p q imp String.[] h = refl
all_codes_mono p q imp (String.◌∷◌ c s) h = ground (arith, imp (code c), all_codes_mono p q imp s)

validate_idempotency_key-no_colon :
    (key : String) → validate_idempotency_key key ≡ valid → no_colon key ≡ true
unfolding validate_idempotency_key matches_key_re no_colon is_key_code
validate_idempotency_key-no_colon key h =
    all_codes_mono is_key_code _ key_code (key) (ground (arith, h))
  where
    key_code : (c : ℕ) → is_key_code c ≡ true → not (c == b':') ≡ true
    key_code c h = ground arith

colon-cons : (t : String) → join ":" t ≡ String.◌∷◌ colon t
colon-cons t = cons-append colon String.[] t ∙ ap (String.◌∷◌ colon) (nil-append t)

no_colon-append : (s t : String) → no_colon (join s (String.◌∷◌ colon t)) ≡ false
unfolding no_colon
no_colon-append String.[] t = rw (nil-append (String.◌∷◌ colon t)) refl
no_colon-append (String.◌∷◌ c s) t =
    rw (cons-append c s (String.◌∷◌ colon t)) (ground (arith, no_colon-append s t))

-- The tail that a colon starts is not the tail of a longer text.
no_shorter :
    (c : Char) (p k l : String)
    → no_colon k ≡ true
    → join String.[] (String.◌∷◌ colon k) ≡ join (String.◌∷◌ c p) (String.◌∷◌ colon l)
    → true ≡ false
no_shorter c p k l hk h =
    sym hk
    ∙ ap no_colon
        (tail-eq_of_cons-eq (sym (nil-append _) ∙ h ∙ cons-append c p (String.◌∷◌ colon l)))
    ∙ no_colon-append p l

-- The last colon splits a scoped key.
split_unique :
    (o p k l : String)
    → no_colon k ≡ true
    → no_colon l ≡ true
    → join o (String.◌∷◌ colon k) ≡ join p (String.◌∷◌ colon l)
    → (o ≡ p) × (k ≡ l)
split_unique String.[] String.[] k l hk hl h =
    (refl, tail-eq_of_cons-eq (sym (nil-append _) ∙ h ∙ nil-append _))
split_unique String.[] (String.◌∷◌ c p) k l hk hl h = cc (no_shorter c p k l hk h)
split_unique (String.◌∷◌ c o) String.[] k l hk hl h = cc (no_shorter c o l k hl (sym h))
split_unique (String.◌∷◌ c o) (String.◌∷◌ d p) k l hk hl h =
    let g = sym (cons-append c o (String.◌∷◌ colon k)) ∙ h ∙ cons-append d p (String.◌∷◌ colon l) in
    let (e, f) = split_unique o p k l hk hl (tail-eq_of_cons-eq g) in
    (ap (λ x. String.◌∷◌ x o) (head-eq_of_cons-eq g) ∙ ap (String.◌∷◌ d) e, f)

in_namespace-colon :
    (kind id key : String) → in_namespace kind id key ≡ join kind (join id (String.◌∷◌ colon key))
unfolding in_namespace
in_namespace-colon kind id key = ap (λ t. join kind (join id t)) (colon-cons key)

no_colon-in_namespace : (kind id key : String) → no_colon (in_namespace kind id key) ≡ false
no_colon-in_namespace kind id key =
    rw (in_namespace-colon kind id key, sym (append_assoc kind id (String.◌∷◌ colon key)))
      (no_colon-append (join kind id) key)

in_namespace_inj :
    (kind id id' key key' : String)
    → no_colon key ≡ true
    → no_colon key' ≡ true
    → in_namespace kind id key ≡ in_namespace kind id' key'
    → (id ≡ id') × (key ≡ key')
in_namespace_inj kind id id' key key' h h' e = split_unique id id' key key' h h' (
    append_cancel_left kind _ _
      (sym (in_namespace-colon kind id key) ∙ e ∙ in_namespace-colon kind id' key'))

namespaces_differ :
    (o u key key' : String) → in_namespace "org:" o key ≡ in_namespace "user:" u key' → true ≡ false
unfolding in_namespace
namespaces_differ o u key key' e =
    let head = head-eq_of_cons-eq (sym (cons-append "o" "rg:" _) ∙ e ∙ cons-append "u" "ser:" _) in
    ground (arith, ap code head)

namespaced_inj :
    (p p' : Principal) (key key' : String)
    → no_colon key ≡ true
    → no_colon key' ≡ true
    → namespaced p key ≡ namespaced p' key'
    → (p ≡ p') × (key ≡ key')
unfolding namespaced
namespaced_inj anonymous anonymous key key' h h' e = (refl, e)
namespaced_inj anonymous (organization o) key key' h h' e =
    cc (h, no_colon-in_namespace "org:" o key')
namespaced_inj anonymous (user o) key key' h h' e = cc (h, no_colon-in_namespace "user:" o key')
namespaced_inj (organization o) anonymous key key' h h' e =
    cc (h', no_colon-in_namespace "org:" o key)
namespaced_inj (user o) anonymous key key' h h' e = cc (h', no_colon-in_namespace "user:" o key)
namespaced_inj (organization o) (user u) key key' h h' e = cc (namespaces_differ o u key key' e)
namespaced_inj (user u) (organization o) key key' h h' e =
    cc (namespaces_differ o u key' key (sym e))
namespaced_inj (organization o) (organization p) key key' h h' e =
    let (x, y) = in_namespace_inj "org:" o p key key' h h' e in (ap organization x, y)
namespaced_inj (user o) (user p) key key' h h' e =
    let (x, y) = in_namespace_inj "user:" o p key key' h h' e in (ap user x, y)

-- For client keys that pass the validation, two requests have the same internal key exactly when
-- they have the same principal and the same client key, where the principal is the organization,
-- or else the user, or else nobody.
pub build_internal_key-same_iff :
    (key key' : String) (owner owner' : Option OwnerContext)
    → validate_idempotency_key key ≡ valid
    → validate_idempotency_key key' ≡ valid
    → (build_internal_key key owner ≡ build_internal_key key' owner')
      ↔ ((principal owner ≡ principal owner') × (key ≡ key'))
build_internal_key-same_iff key key' owner owner' v v' = (
  λ e.
      namespaced_inj (principal owner) (principal owner') key key'
        (validate_idempotency_key-no_colon key v) (validate_idempotency_key-no_colon key' v')
        (sym (build_internal_key-namespaced key owner)
          ∙ e
          ∙ build_internal_key-namespaced key' owner'),
  λ e.
      build_internal_key-namespaced key owner
      ∙ ap (λ p. namespaced p key) e.0
      ∙ ap (namespaced (principal owner')) e.1
      ∙ sym (build_internal_key-namespaced key' owner'),
)
