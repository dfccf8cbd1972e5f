-- ===== src/Program/Taint/Ends.antt =====
-- The measure of the worklist: a node enters the queue only when its flag is set.
use dep_taint.Prelude.{
  ℕ, suc, ◌+◌, ◌<◌, ◌≤◌, ◌≡◌, Bool, true, false, not, none, some, List, [], ◌∷◌, arith, length,
  ◌==◌, if◌then◌else◌,
}
use dep_taint.Prelude.PtrMap
use dep_taint.Prelude.PtrMap.{PtrMap}
use dep_taint.Prelude.PtrSet
use dep_taint.Prelude.PtrSet.{PtrSet}
use dep_taint.Wrapper.{Wrapper}
use dep_taint.Program.Taint.{TaintState}

-- The node has a wrapper, and its flag is not set.
unfoldable pub is_new : PtrMap Wrapper → ℕ → Bool
is_new heap p = elim (PtrMap.lookup p heap) [ none ↦ false | some w ↦ not w.flag ]

unfoldable pub pending : PtrMap Wrapper → List ℕ → ℕ
unfolding is_new
pending heap [] = 0
pending heap (p ∷ ps) = let rest = pending heap ps in if is_new heap p then suc rest else rest

-- What bounds the rounds that are left.
unfoldable pub measure : PtrSet → TaintState → ℕ
unfolding pending
measure nodes st = length st.queue + pending st.heap nodes

is_new-flagged :
    (heap : PtrMap Wrapper) (to p : ℕ) (w : Wrapper)
    → is_new (PtrMap.insert to (record w { flag = true }) heap) p
      ≡ (if to == p then false else is_new heap p)
unfolding is_new
is_new-flagged heap to p w =
    ground (arith, PtrMap.lookup-insert to p (record w { flag = true }) heap)

pending-flagged_le :
    (heap : PtrMap Wrapper) (to : ℕ) (w : Wrapper) (ps : List ℕ)
    → pending (PtrMap.insert to (record w { flag = true }) heap) ps ≤ pending heap ps
unfolding pending
pending-flagged_le heap to w [] = omega arith
pending-flagged_le heap to w (p ∷ ps) =
    ground (arith, is_new-flagged heap to p w, pending-flagged_le heap to w ps)

pub pending-flagged :
    (heap : PtrMap Wrapper) (to : ℕ) (w : Wrapper) (ps : List ℕ)
    → is_new heap to ≡ true
    → PtrSet.contains to ps ≡ true
    → pending (PtrMap.insert to (record w { flag = true }) heap) ps < pending heap ps
unfolding pending PtrSet.contains
pending-flagged heap to w [] h m = cc
pending-flagged heap to w (p ∷ ps) h m = ground (
  arith,
  h,
  m,
  is_new-flagged heap to p w,
  pending-flagged_le heap to w ps,
  pending-flagged heap to w ps h,
)
