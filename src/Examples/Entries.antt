-- ===== src/Examples/Entries.antt =====
-- A cache of two entries, through the model of src/lib/cache.ts.
use disciplr_backend.Prelude.{ℕ, ◌≢◌, String, [], ◌∷◌, arith, same_iff}
use disciplr_backend.Cache.{Entry, LruCache, cache_version}
use disciplr_backend.Cache.Bounds.{gets, sets, run, WithinSize, run-WithinSize}

abbrev ann : String
ann = "ann"

abbrev bob : String
bob = "bob"

ann-differs : ann ≢ bob
ann-differs e = ground (arith, same_iff ann bob, e)

abbrev entry : ℕ → Entry ℕ
entry n = record { version = cache_version; value = n; expires_at = 100 }

abbrev full : LruCache ℕ
full = record { entries = ("ann", entry 1) ∷ ("eve", entry 2) ∷ []; max_size = 2 }

full-WithinSize : WithinSize full
full-WithinSize = record { some_room = omega arith; bounded = omega arith }

run-WithinSize_example :
    WithinSize (run (sets "bob" 3 100 ∷ gets 50 "eve" ∷ sets "kim" 4 100 ∷ []) full)
run-WithinSize_example =
    run-WithinSize (sets "bob" 3 100 ∷ gets 50 "eve" ∷ sets "kim" 4 100 ∷ []) full full-WithinSize
