-- ===== src/Cache.antt =====
-- The class InMemoryLRUCache of src/lib/cache.ts. A `Map` is the list of its entries in insertion
-- order, which is the order of their last use; the time is an argument.
pub mod Bounds
pub mod Recency
use text.Mathlib.Text.{starts_with}
use disciplr_backend.Prelude.{
  ℕ, String, Bool, true, false, not, Option, none, some, List, [], ◌∷◌, ◌++◌, ltb, leb,
  if◌then◌else◌, filter, find, any, length, same,
}

pub record Entry {ℓ} (A : Type ℓ) : Type ℓ where
  pub version : String
  pub value : A
  pub expires_at : ℕ

pub record LruCache {ℓ} (A : Type ℓ) : Type ℓ where
  pub entries : List (String × Entry A)
  pub max_size : ℕ

abbrev pub cache_version : String
cache_version = "v1"

module _ {ℓ} {A : Type ℓ} where
  unfoldable pub has_key : String → String × Entry A → Bool
  has_key key e = same e.0 key

  -- this.cache.delete(key)
  unfoldable pub delete : String → List (String × Entry A) → List (String × Entry A)
  delete key es = filter (λ e. not (has_key key e)) es

  unfoldable pub is_expired : ℕ → String × Entry A → Bool
  is_expired now e = ltb e.1.expires_at now

  unfoldable pub get : ℕ → String → LruCache A → LruCache A × Option A
  get now key c = elim (find (has_key key) c.entries) [
    | none ↦ (c, none)
    | some e ↦
        if is_expired now e
        then (record c { entries = delete key c.entries }, none)
        else (record c { entries = delete key c.entries ++ (key, e.1) ∷ [] }, some e.1.value)
  ]

  abbrev pub without_oldest : List (String × Entry A) → List (String × Entry A)
  without_oldest [] = []
  without_oldest (e ∷ es) = es

  -- What is left of the entries before the new one is inserted.
  unfoldable pub make_room : String → LruCache A → List (String × Entry A)
  make_room key c =
      if any (has_key key) c.entries
      then delete key c.entries
      else if leb c.max_size (length c.entries)
      then without_oldest c.entries
      else c.entries

  unfoldable pub set : String → A → ℕ → LruCache A → LruCache A
  set key value expires_at c = record c { entries = make_room key c ++ (key, entry) ∷ [] }
    where
      entry : Entry A
      entry = record { version = cache_version; value = value; expires_at = expires_at }

  unfoldable pub invalidate : String → LruCache A → LruCache A
  invalidate key c = record c { entries = delete key c.entries }

  unfoldable pub invalidate_prefix : String → LruCache A → LruCache A
  invalidate_prefix prefix c = record c {
    entries = filter (λ e. not (starts_with e.0 prefix)) c.entries;
  }

  -- The expired entries are dropped, and the others counted.
  unfoldable pub size : ℕ → LruCache A → LruCache A × ℕ
  size now c =
      let kept = filter (λ e. not (is_expired now e)) c.entries in
      (record c { entries = kept }, length kept)

  unfoldable pub clear : LruCache A → LruCache A
  clear c = record c { entries = [] }
