-- ===== src/Prelude/Ids.antt =====
-- Identifiers are texts that the program only compares, and tests for being empty.
use Prim.Native.String.{String, ◌++◌}
use mathlib.Core.Path.{◌≡◌}
use mathlib.Core.Logic.{◌↔◌}
use mathlib.Core.Bool.{Bool, true, false}
use mathlib.Core.Option.{Option, none, some}
use text.Mathlib.Text.{◌==◌ as text_eq}
use text.Mathlib.TextEquality.{eq_iff}
use native.Mathlib.Omega.{arith}

-- a === b
abbrev pub same : String → String → Bool
same = text_eq

pub same_iff : (a b : String) → (same a b ≡ true) ↔ (a ≡ b)
same_iff = eq_iff

pub same_refl : (a : String) → same a a ≡ true
same_refl a = ground (arith, eq_iff a a)

-- !a: the empty text is falsy.
abbrev pub is_empty : String → Bool
is_empty String.[] = true
is_empty (String.◌∷◌ c s) = false

-- a || null
abbrev pub or_null : Option String → Option String
or_null none = none
or_null (some String.[]) = none
or_null (some (String.◌∷◌ c s)) = some (String.◌∷◌ c s)

-- `${a}${b}`
abbrev pub join : String → String → String
join a b = a ++ b

-- What `grind` uses to tell identifiers apart.
pub ruleset ids = (arith, same_iff, same_refl)
