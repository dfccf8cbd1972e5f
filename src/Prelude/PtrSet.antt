-- ===== src/Prelude/PtrSet.antt =====
-- `std::set` of pointers: a list in the order of the pointers.
use Prim.Native.Nat.{ℕ}
use mathlib.Core.Path.{◌≡◌, refl}
use mathlib.Core.Bool.{Bool, false, ◌||◌, ◌&&◌, not}
use mathlib.Core.List.{List, [], ◌∷◌}
use native.Mathlib.Omega.{arith}
use dep_taint.Prelude.Tests.{◌==◌, ltb, if◌then◌else◌}

abbrev pub PtrSet : Type 0
PtrSet = List ℕ

unfoldable pub contains : ℕ → PtrSet → Bool
contains k [] = false
contains k (j ∷ s) = j == k || contains k s

unfoldable pub insert : ℕ → PtrSet → PtrSet
insert k [] = k ∷ []
insert k (j ∷ s) = if j == k then j ∷ s else if ltb k j then k ∷ j ∷ s else j ∷ insert k s

pub contains-insert : (k j : ℕ) (s : PtrSet) → contains j (insert k s) ≡ (k == j || contains j s)
unfolding contains insert
contains-insert k j [] = refl
contains-insert k j (i ∷ s) = ground (arith, contains-insert k j s)

unfoldable pub erase : ℕ → PtrSet → PtrSet
erase k [] = []
erase k (j ∷ s) = let rest = erase k s in if j == k then rest else j ∷ rest

pub contains-erase :
    (k j : ℕ) (s : PtrSet) → contains j (erase k s) ≡ (not (k == j) && contains j s)
unfolding contains erase
contains-erase k j [] = ground arith
contains-erase k j (i ∷ s) = ground (arith, contains-erase k j s)
