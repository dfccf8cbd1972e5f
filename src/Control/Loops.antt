-- ===== src/Control/Loops.antt =====
-- The walk up the tree from the target of an edge, against the edge's source. The call that would make
-- a branch depend on itself, in the case L == Edge.first, is commented out in the source.
use dep_taint.Prelude.{ℕ, ◌≡◌, ◌≢◌, sym, ◌∙◌, true, false}
use dep_taint.Control.{Pdt}
use dep_taint.Control.Paths.{Before}

-- Node `m` is on the way up from `n`.
pub data Up (pdt : Pdt) (m : ℕ) : ℕ → Type 0 where
  here : Up pdt m m
  above : {n : ℕ} → Up pdt m (pdt.idom n) → Up pdt m n

-- LLVM's documented relations between the tree, dominates and findNearestCommonDominator.
pub record IsPostDominator (pdt : Pdt) : Type 0 where
  pub dominates_up :
      (m b : ℕ)
      → pdt.node b ≢ 0
      → pdt.block m ≢ 0
      → Up pdt m (pdt.node b)
      → pdt.dominates (pdt.block m) b ≡ true
  pub nearest_of :
      (a b : ℕ) → pdt.dominates a b ≡ true → pdt.dominates b a ≡ false → pdt.nearest a b ≡ a

record Reached (pdt : Pdt) (stop c n : ℕ) : Type 0 where
  at : ℕ
  on_way : Up pdt at n
  is_block : pdt.block at ≡ c
  open_end : pdt.block at ≢ stop

Before-Reached : (pdt : Pdt) (stop c : ℕ) {n : ℕ} → Before pdt stop c n → Reached pdt stop c n
Before-Reached pdt stop c (Before.here {n} _ k e) = record {
  at = n;
  on_way = here;
  is_block = sym e;
  open_end = k;
}
Before-Reached pdt stop c (Before.above _ _ rest) =
    let r = Before-Reached pdt stop c rest in
    record { at = r.at; on_way = above r.on_way; is_block = r.is_block; open_end = r.open_end }

Before-node : (pdt : Pdt) (stop c : ℕ) {n : ℕ} → Before pdt stop c n → n ≢ 0
Before-node pdt stop c (Before.here h _ _) = h
Before-node pdt stop c (Before.above h _ _) = h

-- On the way up from the target of an edge out of block a that the analysis looks at, the walk stops
-- before it comes to a.
pub Before-ne_source :
    (pdt : Pdt) (a b c : ℕ)
    → IsPostDominator pdt
    → a ≢ 0
    → pdt.dominates b a ≡ false
    → Before pdt (pdt.nearest a b) c (pdt.node b)
    → c ≢ a
Before-ne_source pdt a b c law block leaves p e =
    let r = Before-Reached pdt (pdt.nearest a b) c p in
    let source : pdt.block r.at ≡ a = r.is_block ∙ e in
    let over =
      law.dominates_up r.at b (Before-node pdt _ c p) (λ z. block (sym source ∙ z)) r.on_way in
    r.open_end (source ∙ sym (law.nearest_of a b (rw source at over) leaves))
