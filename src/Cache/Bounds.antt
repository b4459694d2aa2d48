-- ===== src/Cache/Bounds.antt =====
-- The number of entries of the cache of src/lib/cache.ts.
use disciplr_backend.Prelude.{
  ℕ, ◌-◌, ◌≤◌, ◌<◌, String, Bool, true, not, Option, some, List, [], ◌∷◌, ◌≡◌, refl, arith, leb,
  filter, find, any, length, length-append, Bool-cases, Option-cases, inl, inr, if_both,
}
use disciplr_backend.Cache.{
  Entry, LruCache, has_key, delete, is_expired, get, set, without_oldest, make_room, invalidate,
  invalidate_prefix, size, clear,
}

-- The calls of the cache.
pub data Call {ℓ} (A : Type ℓ) : Type ℓ where
  gets : ℕ → String → Call A
  sets : String → A → ℕ → Call A
  invalidates invalidates_prefix : String → Call A
  sizes : ℕ → Call A
  clears : Call A

module _ {ℓ} {A : Type ℓ} where
  unfoldable pub step : Call A → LruCache A → LruCache A
  step (gets now key) c = (get now key c).0
  step (sets key value expires_at) c = set key value expires_at c
  step (invalidates key) c = invalidate key c
  step (invalidates_prefix prefix) c = invalidate_prefix prefix c
  step (sizes now) c = (size now c).0
  step clears c = clear c

  unfoldable pub run : List (Call A) → LruCache A → LruCache A
  run [] c = c
  run (x ∷ xs) c = run xs (step x c)

  -- No more entries than the maximum, which is not 0.
  pub record WithinSize (c : LruCache A) : Type 0 where
    pub some_room : 1 ≤ c.max_size
    pub bounded : length c.entries ≤ c.max_size

  length-filter_le :
      (p : String × Entry A → Bool) (es : List (String × Entry A))
      → length (filter p es) ≤ length es
  length-filter_le p [] = omega arith
  length-filter_le p (e ∷ es) = ground (arith, length-filter_le p es)

  length-delete :
      (key : String) (es : List (String × Entry A))
      → any (has_key key) es ≡ true
      → length (delete key es) < length es
  unfolding delete
  length-delete key [] h = ground arith
  length-delete key (e ∷ es) h =
      ground (arith, length-delete key es, length-filter_le (λ x. not (has_key key x)) es)

  find-any :
      (p : String × Entry A → Bool) (es : List (String × Entry A)) {e : String × Entry A}
      → find p es ≡ some e
      → any p es ≡ true
  find-any p [] h = ground arith
  find-any p (x ∷ es) {e} h = ground (arith, find-any p es {e = e})

  get-WithinSize :
      (now : ℕ) (key : String) (c : LruCache A) → WithinSize c → WithinSize (get now key c).0
  unfolding get
  get-WithinSize now key c w = elim (Option-cases (find (has_key key) c.entries)) [
    | inl missing ↦ rw (missing, get) w
    | inr (e, found) ↦
        let shorter =
          length-delete key c.entries (find-any (has_key key) c.entries {e = e} found) in
        rw (found, get)
          (if_both (λ (r : LruCache A × Option A). WithinSize r.0) (is_expired now e)
            (record { some_room = w.some_room; bounded = omega (arith, shorter, w.bounded) })
            (record {
              some_room = w.some_room;
              bounded = omega (
                arith,
                shorter,
                w.bounded,
                length-append (delete key c.entries) ((key, e.1) ∷ []),
              );
            }))
  ]

  length-make_room :
      (key : String) (c : LruCache A) → WithinSize c → length (make_room key c) < c.max_size
  unfolding make_room
  length-make_room key c w = elim (Bool-cases (any (has_key key) c.entries)) [
    | inl present ↦
        rw (present, make_room) (omega (arith, length-delete key c.entries present, w.bounded))
    | inr absent ↦ elim (Bool-cases (leb c.max_size (length c.entries))) [
      | inl full ↦
          rw (absent, full, make_room)
            (omega (arith, length-without_oldest c.entries, w.bounded, w.some_room))
      | inr room ↦ rw (absent, room, make_room) (ground (arith, room))
    ]
  ]
    where
      length-without_oldest :
          (es : List (String × Entry A)) → length (without_oldest es) ≡ length es - 1
      length-without_oldest [] = refl
      length-without_oldest (e ∷ es) = omega arith

  set-WithinSize :
      (key : String) (value : A) (expires_at : ℕ) (c : LruCache A)
      → WithinSize c
      → WithinSize (set key value expires_at c)
  unfolding set
  set-WithinSize key value expires_at c w = record {
    some_room = w.some_room;
    bounded =
        omega (arith, length-make_room key c w, length-append (make_room key c) ((key, _) ∷ []));
  }

  -- Whatever is called, a cache of at least one entry never holds more entries than its maximum.
  pub run-WithinSize : (xs : List (Call A)) (c : LruCache A) → WithinSize c → WithinSize (run xs c)
  unfolding run step invalidate invalidate_prefix size clear delete
  run-WithinSize [] c w = w
  run-WithinSize (gets now key ∷ xs) c w = run-WithinSize xs _ (get-WithinSize now key c w)
  run-WithinSize (sets key value expires_at ∷ xs) c w =
      run-WithinSize xs _ (set-WithinSize key value expires_at c w)
  run-WithinSize (invalidates key ∷ xs) c w = run-WithinSize xs _ (record {
    some_room = w.some_room;
    bounded = omega (arith, w.bounded, length-filter_le (λ e. not (has_key key e)) c.entries);
  })
  run-WithinSize (invalidates_prefix prefix ∷ xs) c w =
      run-WithinSize xs (invalidate_prefix prefix c) (record {
        some_room = w.some_room;
        bounded = omega (arith, w.bounded, length-filter_le _ c.entries);
      })
  run-WithinSize (sizes now ∷ xs) c w = run-WithinSize xs _ (record {
    some_room = w.some_room;
    bounded = omega (arith, w.bounded, length-filter_le (λ e. not (is_expired now e)) c.entries);
  })
  run-WithinSize (clears ∷ xs) c w =
      run-WithinSize xs _ (record { some_room = w.some_room; bounded = omega arith })
