-- ===== src/FlowDependence/Across/Measure.antt =====
-- What bounds the rounds of the loop over blocks: the blocks on the stack, and the predecessors of
-- those that are not visited.
use mathlib.Core.List.{Memᴰ}
use mathlib.Core.List.Memᴰ
use dep_taint.Prelude.{
  ℕ, ◌+◌, ◌≤◌, ◌≡◌, inl, inr, true, false, List, [], ◌∷◌, arith, ◌==◌, if◌then◌else◌, Bool-cases,
  length, All,
}
use dep_taint.Prelude.PtrSet
use dep_taint.Prelude.PtrSet.{PtrSet}
use dep_taint.FlowDependence.Across.{push_all}

pub length-push_all : (bs st : List ℕ) → length (push_all bs st) ≡ length bs + length st
unfolding push_all
length-push_all [] st = omega arith
length-push_all (b ∷ bs) st = omega (arith, length-push_all bs (b ∷ st))

pub push_all-old : (p : ℕ) (bs st : List ℕ) → Memᴰ p st → Memᴰ p (push_all bs st)
unfolding push_all
push_all-old p [] st m = m
push_all-old p (b ∷ bs) st m = push_all-old p bs (b ∷ st) (Memᴰ.tail m)

pub push_all-new : (p : ℕ) (bs st : List ℕ) → Memᴰ p bs → Memᴰ p (push_all bs st)
unfolding push_all
push_all-new p [] st m = absurd (Memᴰ.not-nil m)
push_all-new p (b ∷ bs) st m = elim (Memᴰ.cases_cons m) [
  | inl e ↦ push_all-old p bs (b ∷ st) (Memᴰ.head e)
  | inr later ↦ push_all-new p bs (b ∷ st) later
]

pub All-push_all : (P : ℕ → Type 0) (bs st : List ℕ) → All P bs → All P st → All P (push_all bs st)
unfolding push_all
All-push_all P [] st h k = k
All-push_all P (b ∷ bs) st (here, h) k = All-push_all P bs (b ∷ st) h (here, k)

module _ (preds : ℕ → List ℕ) where
  unfoldable pub pending : PtrSet → List ℕ → ℕ
  pending visited [] = 0
  pending visited (b ∷ bs) =
      pending visited bs + (if PtrSet.contains b visited then 0 else length (preds b))

  pending-insert_le :
      (b : ℕ) (visited : PtrSet) (bs : List ℕ)
      → pending (PtrSet.insert b visited) bs ≤ pending visited bs
  unfolding pending
  pending-insert_le b visited [] = omega arith
  pending-insert_le b visited (c ∷ bs) =
      ground (arith, PtrSet.contains-insert b c visited, pending-insert_le b visited bs)

  -- A visit takes the predecessors of its block away.
  pub pending-insert :
      (b : ℕ) (visited : PtrSet) (bs : List ℕ)
      → PtrSet.contains b visited ≡ false
      → PtrSet.contains b bs ≡ true
      → pending (PtrSet.insert b visited) bs + length (preds b) ≤ pending visited bs
  unfolding pending PtrSet.contains
  pending-insert b visited [] new h = cc
  pending-insert b visited (c ∷ bs) new h = elim (Bool-cases (c == b)) [
    | inl same ↦
        let e : c ≡ b = ground (arith, same) in
        rw e
          (ground (arith, new, PtrSet.contains-insert b b visited, pending-insert_le b visited bs))
    | inr other ↦
        ground
          (arith, other, h, PtrSet.contains-insert b c visited, pending-insert b visited bs new)
  ]
