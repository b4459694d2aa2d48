-- ===== src/Idempotency.antt =====
-- The in-memory half of src/services/idempotency.ts: the keys, the stored responses, and the
-- requests in flight. The time is an argument; a promise is a number, with how it was settled.
pub mod Keys
pub mod Slots
pub mod Steps
pub mod Runs
pub mod Executions
use Prim.Native.Char.{code}
use disciplr_backend.Prelude.{
  ℕ, suc, ◌+◌, String, Bool, true, false, ◌&&◌, ◌||◌, not, Option, none, some, List, [], ◌∷◌, ltb,
  leb, ◌==◌, if◌then◌else◌, or_null, join, same, is_empty, Dict, lookup, put, without, keep_values,
}

-- [A-Za-z0-9_-]
unfoldable pub is_key_code : ℕ → Bool
is_key_code c =
    (leb b'A' c && leb c b'Z')
    || (leb b'a' c && leb c b'z')
    || (leb b'0' c && leb c b'9')
    || c == b'_'
    || c == b'-'

abbrev pub all_codes : (ℕ → Bool) → String → Bool
all_codes p String.[] = true
all_codes p (String.◌∷◌ c s) = p (code c) && all_codes p s

abbrev pub text_length : String → ℕ
text_length String.[] = 0
text_length (String.◌∷◌ c s) = suc (text_length s)

-- IDEMPOTENCY_KEY_RE.test(key)
unfoldable pub matches_key_re : String → Bool
matches_key_re key =
    all_codes is_key_code key && leb 1 (text_length key) && leb (text_length key) 255

pub data KeyValidationResult : Type 0 where
  valid : KeyValidationResult
  invalid : (error code : String) → KeyValidationResult

unfoldable pub validate_idempotency_key : String → KeyValidationResult
validate_idempotency_key key =
    if is_empty key || not (matches_key_re key)
    then invalid
        "Idempotency key must be 1–255 characters and contain only letters, digits, hyphens, and underscores."
        "INVALID_IDEMPOTENCY_KEY"
    else valid

unfoldable pub scope_idempotency_key : String → String → String
scope_idempotency_key user_id client_key = join user_id (join ":" client_key)

pub record OwnerContext : Type 0 where
  pub user_id : Option String
  pub org_id : Option String

-- The namespace of a principal, in front of the client's key.
unfoldable pub in_namespace : String → String → String → String
in_namespace kind principal client_key = join kind (join principal (join ":" client_key))

unfoldable pub build_internal_key : String → Option OwnerContext → String
build_internal_key client_key none = client_key
build_internal_key client_key (some owner) = elim (or_null owner.org_id) [
  | some org ↦ in_namespace "org:" org client_key
  | none ↦ elim (or_null owner.user_id) [
    | some user ↦ in_namespace "user:" user client_key
    | none ↦ client_key
  ]
]

-- owner?.userId ?? null, and the same of the organization
abbrev pub owner_user_id : Option OwnerContext → Option String
owner_user_id none = none
owner_user_id (some owner) = owner.user_id

abbrev pub owner_org_id : Option OwnerContext → Option String
owner_org_id none = none
owner_org_id (some owner) = owner.org_id

pub record StoreEntry {ℓ} (R : Type ℓ) : Type ℓ where
  pub hash : String
  pub response : R
  pub expires_at : ℕ
  pub user_id : Option String
  pub org_id : Option String

pub record PendingRequest : Type 0 where
  pub hash : String
  pub promise : ℕ
  pub user_id : Option String
  pub org_id : Option String

-- How a promise was settled.
pub data Settled {ℓ} (R : Type ℓ) : Type ℓ where
  resolved : R → Settled R
  rejected : String → Settled R

pub record Store {ℓ} (R : Type ℓ) : Type ℓ where
  pub entries : Dict (StoreEntry R)
  pub pendings : Dict PendingRequest
  pub ttl_ms : ℕ
  pub next_promise : ℕ
  pub settled : List (ℕ × Settled R)

-- What getIdempotentResponse gives: null, a response, the promise of one, or an exception.
pub data Answer {ℓ} (R : Type ℓ) : Type ℓ where
  proceed : Answer R
  replays : R → Answer R
  waits : ℕ → Answer R
  conflict : Answer R

module _ {ℓ} {R : Type ℓ} where
  unfoldable pub is_live : ℕ → StoreEntry R → Bool
  is_live now e = not (leb e.expires_at now)

  unfoldable pub prune_expired_entries : ℕ → Store R → Store R
  prune_expired_entries now s = record s { entries = keep_values (is_live now) s.entries }

  unfoldable pub set_ttl_ms : ℕ → Store R → Store R
  set_ttl_ms ttl s = record s { ttl_ms = ttl }

  -- A new promise is registered for the key.
  unfoldable pub register_pending : String → String → Option OwnerContext → Store R → Store R
  register_pending key hash owner s = record s {
    pendings = put key request s.pendings;
    next_promise = suc s.next_promise;
  }
    where
      request : PendingRequest
      request = record {
        hash = hash;
        promise = s.next_promise;
        user_id = owner_user_id owner;
        org_id = owner_org_id owner;
      }

  -- The rest of getIdempotentResponse, on the pruned store.
  unfoldable pub answer_for : String → String → Option OwnerContext → Store R → Store R × Answer R
  answer_for key hash owner s = elim (lookup key s.pendings) [
    | some pending ↦ (s, if same pending.hash hash then waits pending.promise else conflict)
    | none ↦ elim (lookup key s.entries) [
      | none ↦ (register_pending key hash owner s, proceed)
      | some entry ↦ (s, if same entry.hash hash then replays entry.response else conflict)
    ]
  ]

  unfoldable pub get_idempotent_response :
      ℕ → String → String → Option OwnerContext → Store R → Store R × Answer R
  get_idempotent_response now key hash owner s =
      answer_for (build_internal_key key owner) hash owner (prune_expired_entries now s)

  -- A pending request of the key is taken off, and its promise settled.
  unfoldable pub settle_pending : String → Settled R → Store R → Store R
  settle_pending key how s = elim (lookup key s.pendings) [
    | none ↦ s
    | some pending ↦ record s {
      pendings = without key s.pendings;
      settled = (pending.promise, how) ∷ s.settled;
    }
  ]

  unfoldable pub save_entry : ℕ → String → String → R → Option OwnerContext → Store R → Store R
  save_entry now key hash response owner s = record s { entries = put key entry s.entries }
    where
      entry : StoreEntry R
      entry = record {
        hash = hash;
        response = response;
        expires_at = now + s.ttl_ms;
        user_id = owner_user_id owner;
        org_id = owner_org_id owner;
      }

  -- The argument _id of saveIdempotentResponse is not used.
  unfoldable pub save_idempotent_response :
      ℕ → String → String → R → Option OwnerContext → Store R → Store R
  save_idempotent_response now key hash response owner s =
      let internal_key = build_internal_key key owner in
      save_entry now internal_key hash response owner
        (settle_pending internal_key (resolved response) (prune_expired_entries now s))

  unfoldable pub fail_pending_idempotent_response :
      String → String → String → Option OwnerContext → Store R → Store R
  fail_pending_idempotent_response key hash error owner s =
      let internal_key = build_internal_key key owner in
      elim (lookup internal_key s.pendings) [
        | none ↦ s
        | some pending ↦
            if not (same pending.hash hash)
            then s
            else settle_pending internal_key (rejected error) s
      ]

  unfoldable pub reset_idempotency_store : Store R → Store R
  reset_idempotency_store s = record s { entries = []; pendings = [] }
