-- ===== src/Prelude/Table.antt =====
-- `HashMap<String, V>` as an association list: an insertion replaces the value of a key in place,
-- and no code modelled here depends on the order of iteration.
use mathlib.Core.Path.{◌≡◌, refl}
use mathlib.Core.List.{List, [], ◌∷◌, map}
use mathlib.Core.Option.{Option, none, some}
use native.Mathlib.Omega.{arith}
use ultramem.Prelude.Tests.{if◌then◌else◌}
use ultramem.Prelude.Texts.{Text, same, same_iff}

module _ {ℓ} {V : Type ℓ} where
  -- `get`
  unfoldable pub lookup : Text → List (Text × V) → Option V
  lookup k [] = none
  lookup k ((j, v) ∷ m) = if same j k then some v else lookup k m

  -- `insert`
  unfoldable pub insert : Text → V → List (Text × V) → List (Text × V)
  insert k v [] = (k, v) ∷ []
  insert k v ((j, w) ∷ m) = if same j k then (j, v) ∷ m else (j, w) ∷ insert k v m

  -- `entry(k).or_insert(v)`
  unfoldable pub or_insert : Text → V → List (Text × V) → List (Text × V)
  or_insert k v [] = (k, v) ∷ []
  or_insert k v ((j, w) ∷ m) = if same j k then (j, w) ∷ m else (j, w) ∷ or_insert k v m

  abbrev pub keys : List (Text × V) → List Text
  keys = map (λ e. e.0)

  pub lookup-insert :
      (k j : Text) (v : V) (m : List (Text × V))
      → lookup j (insert k v m) ≡ (if same k j then some v else lookup j m)
  unfolding lookup insert
  lookup-insert k j v [] = refl
  lookup-insert k j v ((i, w) ∷ m) =
      ground (arith, same_iff k j, same_iff i k, same_iff i j, lookup-insert k j v m)

  pub lookup-or_insert :
      (k j : Text) (v : V) (m : List (Text × V))
      → lookup j (or_insert k v m)
        ≡ (elim (lookup j m) [ none ↦ if same k j then some v else none | some w ↦ some w ])
  unfolding lookup or_insert
  lookup-or_insert k j v [] = refl
  lookup-or_insert k j v ((i, w) ∷ m) =
      ground (arith, same_iff k j, same_iff i k, same_iff i j, lookup-or_insert k j v m)
