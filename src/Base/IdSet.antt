-- ===== src/Base/IdSet.antt =====
-- `BTreeSet<i64>` as a list of ids, in which `insert` keeps each id once.
use mathlib.Core.Path.{◌≡◌, refl}
use mathlib.Core.Bool.{Bool, true, false, not, ◌||◌}
use mathlib.Core.List.{List, [], ◌∷◌}
use native.Mathlib.Omega.{arith}
use tellm.Base.Tests.{◌==◌, if◌then◌else◌}
use tellm.Base.Words.{I64}

abbrev pub IdSet : Type 0
IdSet = List I64

unfoldable pub contains : I64 → IdSet → Bool
contains k [] = false
contains k (j ∷ s) = j == k || contains k s

-- Returns whether the id is new, beside the set.
unfoldable pub insert : I64 → IdSet → Bool × IdSet
insert k s = if contains k s then (false, s) else (true, k ∷ s)

unfoldable pub remove : I64 → IdSet → IdSet
remove k [] = []
remove k (j ∷ s) = let rest = remove k s in if j == k then rest else j ∷ rest

unfoldable pub union : IdSet → IdSet → IdSet
unfolding insert
union [] t = t
union (k ∷ s) t = (insert k (union s t)).1

-- `collect` of an iterator.
unfoldable pub collect : List I64 → IdSet
unfolding insert
collect [] = []
collect (k ∷ ks) = (insert k (collect ks)).1

pub contains-cons : (k : I64) (s : IdSet) → contains k (k ∷ s) ≡ true
unfolding contains
contains-cons k s = ground arith

pub contains-insert : (k j : I64) (s : IdSet) → contains j (insert k s).1 ≡ (k == j || contains j s)
unfolding insert contains
contains-insert k j s = ground arith

pub new-insert : (k : I64) (s : IdSet) → (insert k s).0 ≡ not (contains k s)
unfolding insert
new-insert k s = ground arith

pub contains-remove :
    (k j : I64) (s : IdSet) → contains j (remove k s) ≡ (if k == j then false else contains j s)
unfolding remove contains
contains-remove k j [] = ground arith
contains-remove k j (i ∷ s) = ground (arith, contains-remove k j s)

pub contains-union :
    (j : I64) (s t : IdSet) → contains j (union s t) ≡ (contains j s || contains j t)
unfolding union contains
contains-union j [] t = refl
contains-union j (k ∷ s) t = ground (arith, contains-insert k j (union s t), contains-union j s t)

pub contains-collect : (j : I64) (ks : List I64) → contains j (collect ks) ≡ contains j ks
unfolding collect contains
contains-collect j [] = refl
contains-collect j (k ∷ ks) =
    ground (arith, contains-insert k j (collect ks), contains-collect j ks)

pub ruleset set_laws = (contains-insert, contains-remove, contains-union, new-insert)
