-- ===== src/Prelude/Dict.antt =====
-- Go's maps with string keys, as lists of entries without repeated keys. The order of the list stands
-- for the order in which a `range` loop visits the map, which Go leaves open.
use Prim.Native.String.{String}
use mathlib.Core.Path.{◌≡◌, refl}
use mathlib.Core.Option.{Option, none, some}
use mathlib.Core.List.{List, [], ◌∷◌}
use native.Mathlib.Omega.{arith}
use text.Mathlib.Text.{◌==◌}
use text.Mathlib.TextEquality.{eq_iff}
use cliffhanger.Prelude.Tests.{if◌then◌else◌}

abbrev pub Dict {ℓ} : Type ℓ → Type ℓ
Dict V = List (String × V)

module _ {ℓ} {V : Type ℓ} where
  -- m[key], ok
  unfoldable pub lookup : String → Dict V → Option V
  lookup key [] = none
  lookup key (entry ∷ rest) = if entry.0 == key then some entry.1 else lookup key rest

  -- m[key] = value
  unfoldable pub insert : String → V → Dict V → Dict V
  insert key value [] = (key, value) ∷ []
  insert key value (entry ∷ rest) =
      if entry.0 == key then (key, value) ∷ rest else entry ∷ insert key value rest

  -- delete(m, key)
  unfoldable pub remove : String → Dict V → Dict V
  remove key [] = []
  remove key (entry ∷ m) = let rest = remove key m in if entry.0 == key then rest else entry ∷ rest

  pub lookup-insert :
      (key other : String) (value : V) (m : Dict V)
      → lookup other (insert key value m) ≡ (if key == other then some value else lookup other m)
  unfolding lookup insert
  lookup-insert key other value [] = refl
  lookup-insert key other value (entry ∷ rest) =
      let here = eq_iff entry.0 key in
      let there = eq_iff entry.0 other in
      ground (arith, here, there, lookup-insert key other value rest, eq_iff key other)

  pub lookup-remove :
      (key other : String) (m : Dict V)
      → lookup other (remove key m) ≡ (if key == other then none else lookup other m)
  unfolding lookup remove
  lookup-remove key other [] = ground arith
  lookup-remove key other (entry ∷ rest) =
      let here = eq_iff entry.0 key in
      let there = eq_iff entry.0 other in
      ground (arith, lookup-remove key other rest, here, there, eq_iff key other)

pub ruleset dict_laws = (lookup-insert, lookup-remove)
