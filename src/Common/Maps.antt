-- ===== src/Common/Maps.antt =====
-- A `Map` with text keys as an association list, the latest `set` first.
use Prim.Native.String.{String}
use mathlib.Core.Path.{◌≡◌, refl}
use mathlib.Core.List.{List, [], ◌∷◌}
use mathlib.Core.Option.{Option, none, some}
use native.Mathlib.Omega.{arith}
use text.Mathlib.Text.{◌==◌}
use mathlib.Core.Logic.{◌⊎◌, inl, inr}
use text.Mathlib.TextEquality.{eq_iff}
use text.Mathlib.TextPositions.{eq_refl}
use coachman.Common.Tests.{if◌then◌else◌, Bool-cases}

module _ {ℓ} {V : Type ℓ} where
  -- `map.get(key)`
  unfoldable pub lookup : String → List (String × V) → Option V
  lookup key [] = none
  lookup key ((k, found) ∷ others) = if k == key then some found else lookup key others

  -- `map.set(key, value)`
  abbrev pub insert : String → V → List (String × V) → List (String × V)
  insert key value map = (key, value) ∷ map

  -- `map.delete(key)`
  unfoldable pub remove : String → List (String × V) → List (String × V)
  remove key [] = []
  remove key ((k, found) ∷ others) =
      let rest = remove key others in if k == key then rest else (k, found) ∷ rest

  pub lookup-insert_self :
      (key : String) (value : V) (map : List (String × V))
      → lookup key (insert key value map) ≡ some value
  unfolding lookup
  lookup-insert_self key value map = rw (eq_refl key)

  -- What is found after a `set` is what was set, under its own key, or what was there.
  pub lookup-insert_cases :
      (k j : String) (v : V) (map : List (String × V)) {w : V}
      → lookup j (insert k v map) ≡ some w
      → ((k ≡ j) × (v ≡ w)) ⊎ (lookup j map ≡ some w)
  unfolding lookup
  lookup-insert_cases k j v map {w} h = elim (Bool-cases (k == j)) [
    | inl e ↦ inl ((eq_iff k j).0 e, let q : some v ≡ some w = rw e at h in cc)
    | inr e ↦ inr (rw e at h)
  ]

  pub lookup-remove_self :
      (key : String) (map : List (String × V)) → lookup key (remove key map) ≡ none
  unfolding lookup remove
  lookup-remove_self key [] = refl
  lookup-remove_self key ((k, found) ∷ others) = elim (Bool-cases (k == key)) [
    | inl e ↦ rw (e, remove) (lookup-remove_self key others)
    | inr e ↦ rw (e, remove) (rw (e, lookup) (lookup-remove_self key others))
  ]

  pub lookup-remove :
      (k j : String) (map : List (String × V))
      → lookup j (remove k map) ≡ (if k == j then none else lookup j map)
  unfolding lookup remove
  lookup-remove k j [] = ground arith
  lookup-remove k j ((i, v) ∷ map) =
      ground (arith, lookup-remove k j map, eq_iff i k, eq_iff i j, eq_iff k j)
