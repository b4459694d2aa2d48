-- ===== src/Jobs/Order/Sorting.antt =====
-- Lists of references sorted by a key, and the first one that is due.
use mathlib.Core.Path.{fun_ext}
use disciplr_backend.Prelude.{
  ℕ, ◌≤◌, ◌<◌, none, some, List, [], ◌∷◌, ◌≡◌, refl, subst, inl, inr, arith, All, Bool-cases,
  if_both, leb→le, leb,
}
use disciplr_backend.Jobs.Queue.{insert_by, sort_by, take_due}

module _ (key : ℕ → ℕ) where
  abbrev pub IsSorted : List ℕ → Type 0
  IsSorted [] = Unit
  IsSorted (x ∷ xs) = All (λ y. key x ≤ key y) xs × IsSorted xs

  All-insert_by :
      (k r : ℕ) (xs : List ℕ)
      → k ≤ key r
      → All (λ y. k ≤ key y) xs
      → All (λ y. k ≤ key y) (insert_by key r xs)
  unfolding insert_by
  All-insert_by k r [] h a = (h, tt)
  All-insert_by k r (x ∷ xs) h a =
      if_both (All (λ y. k ≤ key y)) (leb (key r) (key x)) (h, a) (a.0, All-insert_by k r xs h a.1)

  All-weaken :
      (k k' : ℕ) (xs : List ℕ) → k' ≤ k → All (λ y. k ≤ key y) xs → All (λ y. k' ≤ key y) xs
  All-weaken k k' [] h a = tt
  All-weaken k k' (x ∷ xs) h a = (omega arith, All-weaken k k' xs h a.1)

  insert_by-IsSorted : (r : ℕ) (xs : List ℕ) → IsSorted xs → IsSorted (insert_by key r xs)
  unfolding insert_by
  insert_by-IsSorted r [] s = (tt, tt)
  insert_by-IsSorted r (x ∷ xs) s = elim (Bool-cases (leb (key r) (key x))) [
    | inl before ↦
        rw before ((leb→le _ _ before, All-weaken (key x) (key r) xs (leb→le _ _ before) s.0), s)
    | inr behind ↦
        rw behind (All-insert_by (key x) r xs (ground arith) s.0, insert_by-IsSorted r xs s.1)
  ]

  pub sort_by-IsSorted : (xs : List ℕ) → IsSorted (sort_by key xs)
  unfolding sort_by
  sort_by-IsSorted [] = tt
  sort_by-IsSorted (x ∷ xs) = insert_by-IsSorted x (sort_by key xs) (sort_by-IsSorted xs)

  take_due-none :
      (k now : ℕ) (xs : List ℕ) → now < k → All (λ y. k ≤ key y) xs → take_due key now xs ≡ none
  unfolding take_due
  take_due-none k now [] h a = refl
  take_due-none k now (x ∷ xs) h a = ground (arith, take_due-none k now xs h a.1)

  -- From a sorted list the first due entry is taken off the front.
  pub take_due_front :
      (now : ℕ) (xs : List ℕ) {r : ℕ} {rest : List ℕ}
      → IsSorted xs
      → take_due key now xs ≡ some (r, rest)
      → xs ≡ r ∷ rest
  unfolding take_due
  take_due_front now [] s e = cc
  take_due_front now (x ∷ xs) s e = elim (Bool-cases (leb (key x) now)) [
    | inl due ↦ ground arith
    | inr later ↦ ground (arith, take_due-none (key x) now xs (ground arith) s.0)
  ]

  pub IsSorted-take_due :
      (now : ℕ) (xs : List ℕ) {r : ℕ} {rest : List ℕ}
      → IsSorted xs
      → take_due key now xs ≡ some (r, rest)
      → IsSorted rest
  IsSorted-take_due now xs {r} {rest} s e =
      (subst IsSorted (take_due_front now xs {r = r} {rest = rest} s e) s).1

pub IsSorted-cong :
    (key key' : ℕ → ℕ) (xs : List ℕ)
    → ((r : ℕ) → key' r ≡ key r)
    → IsSorted key xs
    → IsSorted key' xs
IsSorted-cong key key' xs h s = rw (fun_ext h) s
