-- ===== src/Cache/Recency.antt =====
-- What the cache of src/lib/cache.ts gives back, and what it evicts.
use disciplr_backend.Prelude.{
  ℕ, ◌≤◌, ◌≢◌, String, Bool, true, false, Option, none, some, List, [], ◌∷◌, ◌++◌, ◌≡◌, refl, sym,
  ap, subst, ◌∙◌, arith, leb, find, any, length, same_refl, ids, Bool-cases, Option-cases, inl, inr,
  if_both,
}
use disciplr_backend.Cache.{
  Entry, LruCache, has_key, delete, is_expired, get, set, without_oldest, make_room,
}

module _ {ℓ} {A : Type ℓ} where
  find-snoc_absent :
      (p : String × Entry A → Bool) (es : List (String × Entry A)) (e : String × Entry A)
      → any p es ≡ false
      → p e ≡ true
      → find p (es ++ e ∷ []) ≡ some e
  find-snoc_absent p [] e h k = ground arith
  find-snoc_absent p (x ∷ es) e h k = ground (arith, find-snoc_absent p es e)

  any-delete :
      (key : String) (es : List (String × Entry A)) → any (has_key key) (delete key es) ≡ false
  unfolding delete
  any-delete key [] = refl
  any-delete key (e ∷ es) = ground (arith, any-delete key es)

  any-without_oldest :
      (p : String × Entry A → Bool) (es : List (String × Entry A))
      → any p es ≡ false
      → any p (without_oldest es) ≡ false
  any-without_oldest p [] h = refl
  any-without_oldest p (e ∷ es) h = ground arith

  any-make_room : (key : String) (c : LruCache A) → any (has_key key) (make_room key c) ≡ false
  unfolding make_room
  any-make_room key c = elim (Bool-cases (any (has_key key) c.entries)) [
    | inl present ↦ rw (present, make_room) (any-delete key c.entries)
    | inr absent ↦
        rw (absent, make_room)
          (if_both (λ (es : List (String × Entry A)). any (has_key key) es ≡ false)
            (leb c.max_size (length c.entries)) (any-without_oldest (has_key key) c.entries absent)
            absent)
  ]

  own_key : (key : String) (e : Entry A) → has_key key (key, e) ≡ true
  unfolding has_key
  own_key key e = same_refl key

  -- What was set is read back, up to the time at which it expires.
  get-set :
      (now expires_at : ℕ) (key : String) (value : A) (c : LruCache A)
      → now ≤ expires_at
      → (get now key (set key value expires_at c)).1 ≡ some value
  unfolding get set is_expired
  get-set now expires_at key value c fresh =
      rw
        (
          find-snoc_absent (has_key key) (make_room key c) (key, _) (any-make_room key c)
              (own_key key _),
          get,
        )
        (ground (arith, fresh))

  find-delete_other :
      (key other_key : String) (es : List (String × Entry A))
      → key ≢ other_key
      → find (has_key key) (delete other_key es) ≡ find (has_key key) es
  unfolding delete has_key
  find-delete_other key other_key [] differ = refl
  find-delete_other key other_key (e ∷ es) differ =
      grind (ids, find-delete_other key other_key es differ)

  find-append_left :
      (p : String × Entry A → Bool) (es fs : List (String × Entry A)) {e : String × Entry A}
      → find p es ≡ some e
      → find p (es ++ fs) ≡ some e
  find-append_left p [] fs h = ground arith
  find-append_left p (x ∷ es) fs {e} h = ground (arith, find-append_left p es fs {e = e})

  -- The newest of several entries is not the oldest.
  find-without_oldest :
      (p : String × Entry A → Bool) (es : List (String × Entry A)) (e : String × Entry A)
      → 2 ≤ length (es ++ e ∷ [])
      → any p es ≡ false
      → p e ≡ true
      → find p (without_oldest (es ++ e ∷ [])) ≡ some e
  find-without_oldest p [] e two h k = ground arith
  find-without_oldest p (x ∷ es) e two h k = find-snoc_absent p es e (ground (arith, h)) k

  find-make_room :
      (key other_key : String) (es : List (String × Entry A)) (e : Entry A) (max_size : ℕ)
      → key ≢ other_key
      → 2 ≤ max_size
      → any (has_key key) es ≡ false
      → find
          (has_key key)
          (make_room other_key (record { entries = es ++ (key, e) ∷ []; max_size = max_size }))
        ≡ some (key, e)
  unfolding make_room
  find-make_room key other_key es e max_size differ two absent =
      let last = find-snoc_absent (has_key key) es (key, e) absent (own_key key e) in
      elim (Bool-cases (any (has_key other_key) (es ++ (key, e) ∷ []))) [
        | inl present ↦
            rw (present, make_room)
              (find-delete_other key other_key (es ++ (key, e) ∷ []) differ ∙ last)
        | inr new ↦ elim (Bool-cases (leb max_size (length (es ++ (key, e) ∷ [])))) [
          | inr room ↦ rw (new, room, make_room) last
          | inl full ↦
              rw (new, full, make_room)
                (find-without_oldest (has_key key) es (key, e) (ground (arith, full)) absent
                  (own_key key e))
        ]
      ]

  get_found :
      (now : ℕ) (key : String) (c : LruCache A) (e : String × Entry A)
      → find (has_key key) c.entries ≡ some e
      → is_expired now e ≡ false
      → get now key c
        ≡ (record c { entries = delete key c.entries ++ (key, e.1) ∷ [] }, some e.1.value)
  unfolding get
  get_found now key c e found fresh = rw (found, fresh, get) refl

  get_missing :
      (now : ℕ) (key : String) (c : LruCache A)
      → find (has_key key) c.entries ≡ none
      → (get now key c).1 ≡ none
  unfolding get
  get_missing now key c missing = rw (missing, get) refl

  get_expired :
      (now : ℕ) (key : String) (c : LruCache A) (e : String × Entry A)
      → find (has_key key) c.entries ≡ some e
      → is_expired now e ≡ true
      → (get now key c).1 ≡ none
  unfolding get
  get_expired now key c e found old = rw (found, old, get) refl

  -- A hit, an insertion under another key, and the entry is still there.
  found_after_set :
      (now expires_at : ℕ) (key other_key : String) (other_value : A) (c : LruCache A)
      (e : String × Entry A)
      → key ≢ other_key
      → 2 ≤ c.max_size
      → is_expired now (key, e.1) ≡ false
      → (get now key (
          set other_key other_value expires_at
            (record c { entries = delete key c.entries ++ (key, e.1) ∷ [] }))).1
        ≡ some e.1.value
  unfolding set
  found_after_set now expires_at key other_key other_value c e differ two fresh =
      ap (λ (r : LruCache A × Option A). r.1)
        (get_found now key
          (set other_key other_value expires_at
            (record c { entries = delete key c.entries ++ (key, e.1) ∷ [] }))
          (key, e.1)
          (find-append_left (has_key key)
            (make_room other_key (record c { entries = delete key c.entries ++ (key, e.1) ∷ [] })) _
            {e = (key, e.1)}
            (find-make_room key other_key (delete key c.entries) e.1 c.max_size differ two
              (any-delete key c.entries)))
          fresh)

  same_expiry :
      (now : ℕ) (key : String) (e : String × Entry A)
      → is_expired now e ≡ false
      → is_expired now (key, e.1) ≡ false
  unfolding is_expired
  same_expiry now key e h = h

  -- An entry that was just read survives the next insertion under another key: with room for two
  -- entries or more, the one that is evicted was used before it.
  get-set-get :
      (now expires_at : ℕ) (key other_key : String) (value other_value : A) (c : LruCache A)
      → key ≢ other_key
      → 2 ≤ c.max_size
      → (get now key c).1 ≡ some value
      → (get now key (set other_key other_value expires_at (get now key c).0)).1 ≡ some value
  get-set-get now expires_at key other_key value other_value c differ two hit =
      elim (Option-cases (find (has_key key) c.entries)) [
        | inl missing ↦ ground (arith, get_missing now key c missing, hit)
        | inr (e, found) ↦ elim (Bool-cases (is_expired now e)) [
          | inl old ↦ ground (arith, get_expired now key c e found old, hit)
          | inr fresh ↦
              (let read = get_found now key c e found fresh in
                subst
                  (λ (r : LruCache A × Option A).
                    (get now key (set other_key other_value expires_at r.0)).1 ≡ some value)
                  (sym read)
                  (found_after_set now expires_at key other_key other_value c e differ two
                      (same_expiry now key e fresh)
                    ∙ sym (ap (λ (r : LruCache A × Option A). r.1) read)
                    ∙ hit))
        ]
      ]
