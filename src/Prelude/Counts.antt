-- ===== src/Prelude/Counts.antt =====
-- How many entries pass a test after a deletion or a change of the list.
use Prim.Native.Nat.{◌+◌, ◌≤◌}
use mathlib.Core.Path.{◌≡◌, refl}
use mathlib.Core.Bool.{Bool, false, ◌&&◌, not}
use mathlib.Core.List.{List, [], ◌∷◌}
use mathlib.Core.Option.{some}
use native.Mathlib.Omega.{arith}
use disciplr_backend.Prelude.Tests.{if◌then◌else◌}
use disciplr_backend.Prelude.Lists.{filter, find, count, modify_first}

module _ {ℓ} {A : Type ℓ} (p q : A → Bool) where
  -- Deleting what passes `p` takes away the entries that pass both.
  pub count-delete :
      (xs : List A) → count q (filter (λ x. not (p x)) xs) + count (λ x. p x && q x) xs ≡ count q xs
  count-delete [] = refl
  count-delete (x ∷ xs) = ground (arith, count-delete xs)

  pub count-both-le : (xs : List A) → count (λ x. p x && q x) xs ≤ count p xs
  count-both-le [] = omega arith
  count-both-le (x ∷ xs) = ground (arith, count-both-le xs)

  -- Where the only entry that passes `p` fails `q`, none passes both.
  pub count-both_none :
      (xs : List A) {a : A}
      → count p xs ≤ 1
      → find p xs ≡ some a
      → q a ≡ false
      → count (λ x. p x && q x) xs ≡ 0
  count-both_none [] h e out = refl
  count-both_none (x ∷ xs) {a} h e out =
      ground (arith, count-both-le xs, count-both_none xs {a = a})

  -- A change of the first entry that passes `p`, found as `a`.
  pub count-changed :
      (f : A → A) (xs : List A) {a : A}
      → find p xs ≡ some a
      → count q (modify_first p f xs) + (if q a then 1 else 0)
        ≡ count q xs + (if q (f a) then 1 else 0)
  count-changed f [] e = cc e
  count-changed f (x ∷ xs) {a} e = ground (arith, count-changed f xs {a = a})
