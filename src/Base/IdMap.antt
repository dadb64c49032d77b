-- ===== src/Base/IdMap.antt =====
-- `BTreeMap<i64, V>` as an association list in which a key stands once. Its laws are stated by
-- lookups; the order of iteration is not modelled.
use mathlib.Core.Path.{◌≡◌, refl}
use mathlib.Core.Option.{Option, none, some}
use mathlib.Core.List.{List, [], ◌∷◌}
use native.Mathlib.Omega.{arith}
use tellm.Base.Tests.{◌==◌, if◌then◌else◌}
use tellm.Base.Words.{I64}

abbrev pub IdMap {ℓ} : Type ℓ → Type ℓ
IdMap V = List (I64 × V)

module _ {ℓ} {V : Type ℓ} where
  unfoldable pub get : I64 → IdMap V → Option V
  get k [] = none
  get k ((j, v) ∷ m) = if j == k then some v else get k m

  unfoldable pub insert : I64 → V → IdMap V → IdMap V
  insert k v [] = (k, v) ∷ []
  insert k v ((j, w) ∷ m) = let rest = insert k v m in if j == k then (k, v) ∷ m else (j, w) ∷ rest

  unfoldable pub remove : I64 → IdMap V → IdMap V
  remove k [] = []
  remove k ((j, v) ∷ m) = let rest = remove k m in if j == k then rest else (j, v) ∷ rest

  pub get-insert :
      (k j : I64) (v : V) (m : IdMap V)
      → get j (insert k v m) ≡ (if k == j then some v else get j m)
  unfolding get insert
  get-insert k j v [] = refl
  get-insert k j v ((i, w) ∷ m) = ground (arith, get-insert k j v m)

  pub get-remove :
      (k j : I64) (m : IdMap V) → get j (remove k m) ≡ (if k == j then none else get j m)
  unfolding get remove
  get-remove k j [] = ground arith
  get-remove k j ((i, w) ∷ m) = ground (arith, get-remove k j m)

module _ {ℓ κ} {V : Type ℓ} {W : Type κ} where
  unfoldable pub map_values : (V → W) → IdMap V → IdMap W
  map_values f [] = []
  map_values f ((k, v) ∷ m) = (k, f v) ∷ map_values f m

  abbrev pub map_option : (V → W) → Option V → Option W
  map_option f none = none
  map_option f (some v) = some (f v)

  pub get-map_values :
      (f : V → W) (k : I64) (m : IdMap V) → get k (map_values f m) ≡ map_option f (get k m)
  unfolding get map_values
  get-map_values f k [] = refl
  get-map_values f k ((j, v) ∷ m) = ground (arith, get-map_values f k m)

pub ruleset map_laws = (get-insert, get-remove, get-map_values)
