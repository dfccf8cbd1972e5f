-- ===== src/Control/Paths.antt =====
-- The walks up the post-dominator tree, against the tree's own notion of a path.
use dep_taint.Prelude.{
  ℕ, zero, suc, ◌<◌, ◌≡◌, ◌≢◌, refl, ◌⊎◌, inl, inr, ◌↔◌, true, some, List, [], ◌∷◌, arith, map, All,
  ◌==◌, ==_iff, Bool-cases,
}
use dep_taint.Prelude.Outcome.{done}
use dep_taint.Prelude.PtrMap
use dep_taint.Prelude.PtrSet
use dep_taint.Ir.{Ir}
use dep_taint.Graph.{Graph, add_dependency, depends}
use dep_taint.Graph.Valid.{IsValid}
use dep_taint.Graph.Queries.{add_all, add_all-IsValid, depends-add_all}
use dep_taint.Wrapper.{Statics, inst_wrapper}
use dep_taint.Wrapper.Laws.{IsMapped, wrapper_of}
use dep_taint.Control.{Pdt, depend_all, add_block_dependency, chain_walk}

wrapper_of_mapped :
    (s : Statics) (i w : ℕ)
    → PtrMap.lookup i s.inst_map ≡ some w
    → (inst_wrapper s i ≡ (s, w)) × (wrapper_of s i ≡ w)
unfolding inst_wrapper wrapper_of PtrMap.get_or
wrapper_of_mapped s i w h = (rw (h, inst_wrapper), rw (h, PtrMap.get_or))

pub depend_all_mapped :
    (ir : Ir) (s : Statics) (g : Graph) (from : ℕ) (is : List ℕ) (type : ℕ)
    → All (IsMapped s) is
    → depend_all ir s g from is type ≡ (s, add_all g from (map (wrapper_of s) is) type)
unfolding depend_all add_all
depend_all_mapped ir s g from [] type h = refl
depend_all_mapped ir s g from (i ∷ is) type ((w, at), rest) =
    let (step, known) = wrapper_of_mapped s i w at in
    rw (step, known) (depend_all_mapped ir s (add_dependency g from w type) from is type rest)

-- What the analysis needs of LLVM's tree: the way up ends.
pub record IsTree (pdt : Pdt) : Type 0 where
  pub level : ℕ → ℕ
  pub up : (n : ℕ) → n ≢ 0 → level (pdt.idom n) < level n

-- `b` is the block of a node on the way up from `n`, before the first node whose block is `stop`.
pub data Before (pdt : Pdt) (stop b : ℕ) : ℕ → Type 0 where
  here : {n : ℕ} → n ≢ 0 → pdt.block n ≢ stop → b ≡ pdt.block n → Before pdt stop b n
  above :
      {n : ℕ} → n ≢ 0 → pdt.block n ≢ stop → Before pdt stop b (pdt.idom n) → Before pdt stop b n

-- The way up from `n` meets a node whose block is `stop`, and every node before it has a block.
pub data Meets (pdt : Pdt) (stop : ℕ) : ℕ → Type 0 where
  here : {n : ℕ} → n ≢ 0 → pdt.block n ≡ stop → Meets pdt stop n
  above : {n : ℕ} → n ≢ 0 → pdt.block n ≢ 0 → Meets pdt stop (pdt.idom n) → Meets pdt stop n

-- The instructions of a block, by their wrappers.
abbrev pub wrappers_in : Ir → Statics → ℕ → List ℕ
wrappers_in ir s b = map (wrapper_of s) (ir.insts b)

-- The instructions of the blocks of the tree have wrappers.
abbrev pub AreMapped : Ir → Pdt → Statics → Type 0
AreMapped ir pdt s = (n : ℕ) → n ≢ 0 → pdt.block n ≢ 0 → All (IsMapped s) (ir.insts (pdt.block n))

module _ (ir : Ir) (pdt : Pdt) (s : Statics) (mapped : AreMapped ir pdt s) where
  -- `y` is an instruction of a block before `stop`.
  pub record Controls (stop n y : ℕ) : Type 0 where
    pub block : ℕ
    pub on_way : Before pdt stop block n
    pub inside : PtrSet.contains y (wrappers_in ir s block) ≡ true

  add_block_mapped :
      (g : Graph) (from to type : ℕ)
      → IsMapped s (ir.terminator from)
      → All (IsMapped s) (ir.insts to)
      → add_block_dependency ir s g from to type
        ≡ (s, add_all g (wrapper_of s (ir.terminator from)) (wrappers_in ir s to) type)
  unfolding add_block_dependency
  add_block_mapped g from to type (w, at) present =
      let (step, known) = wrapper_of_mapped s (ir.terminator from) w at in
      let runs = depend_all_mapped ir s g w (ir.insts to) type present in
      rw (step, known)
        (elim (Bool-cases (from == to)) [
          | inl same ↦ let e : from ≡ to = ground (arith, same) in rw (same, e) runs
          | inr other ↦ rw other runs
        ])

  pub Controls-unfold :
      (stop n y : ℕ)
      → n ≢ 0
      → pdt.block n ≢ stop
      → Controls stop n y ↔ (
          (PtrSet.contains y (wrappers_in ir s (pdt.block n)) ≡ true)
          ⊎ Controls stop (pdt.idom n) y)
  Controls-unfold stop n y h k = (
    λ c. split c.block c.on_way c.inside,
    λ e. elim e [
      | inl now ↦ record { block = pdt.block n; on_way = here h k refl; inside = now }
      | inr c ↦ record { block = c.block; on_way = above h k c.on_way; inside = c.inside }
    ],
  )
    where
      split :
          (b : ℕ)
          → Before pdt stop b n
          → PtrSet.contains y (wrappers_in ir s b) ≡ true
          → (PtrSet.contains y (wrappers_in ir s (pdt.block n)) ≡ true)
            ⊎ Controls stop (pdt.idom n) y
      split b (here _ _ e) inside = inl (rw (← e) inside)
      split b (above _ _ rest) inside = inr (record { block = b; on_way = rest; inside = inside })

  pub not-Controls_stop : (stop n y : ℕ) → pdt.block n ≡ stop → ¬ Controls stop n y
  not-Controls_stop stop n y e c = refute c.on_way
    where
      refute : {b : ℕ} → Before pdt stop b n → ⊥
      refute (here _ k _) = k e
      refute (above _ k _) = k e

  module _ (tree : IsTree pdt) (from type stop : ℕ) (ends : IsMapped s (ir.terminator from)) where
    -- The wrapper of the branch on which the blocks depend.
    abbrev source : ℕ
    source = wrapper_of s (ir.terminator from)

    -- What a walk from node `n` adds to the graph.
    pub record Walked (g : Graph) (n : ℕ) : Type 0 where
      pub result : Graph
      pub runs :
          (fuel : ℕ)
          → tree.level n < fuel
          → chain_walk ir pdt fuel s g from type stop n ≡ done (s, result)
      pub valid : IsValid result
      pub exact :
          (x y : ℕ)
          → (depends result x y ≡ true)
            ↔ ((depends g x y ≡ true) ⊎ (x ≡ source) × Controls stop n y)

    stops :
        (g : Graph) (n fuel : ℕ)
        → n ≢ 0
        → pdt.block n ≡ stop
        → tree.level n < fuel
        → chain_walk ir pdt fuel s g from type stop n ≡ done (s, g)
    unfolding chain_walk
    stops g n zero h e enough = absurd (omega arith)
    stops g n (suc fuel) h e enough = ground arith

    chain_walk_stop : (g : Graph) (n : ℕ) → IsValid g → n ≢ 0 → pdt.block n ≡ stop → Walked g n
    chain_walk_stop g n v h e = record {
      result = g;
      runs = λ fuel enough. stops g n fuel h e enough;
      valid = v;
      exact = λ x y. (
        inl,
        λ d. elim d [ inl old ↦ old | inr (_, c) ↦ absurd (not-Controls_stop stop n y e c) ],
      );
    }

    -- The graph after one round, at node `n`.
    abbrev after_round : Graph → ℕ → Graph
    after_round g n = add_all g source (wrappers_in ir s (pdt.block n)) type

    goes_on :
        (g r : Graph) (n fuel : ℕ)
        → n ≢ 0
        → pdt.block n ≢ 0
        → pdt.block n ≢ stop
        → tree.level n < fuel
        → ((fuel' : ℕ)
            → tree.level (pdt.idom n) < fuel'
            → chain_walk ir pdt fuel' s (after_round g n) from type stop (pdt.idom n) ≡ done (s, r))
        → chain_walk ir pdt fuel s g from type stop n ≡ done (s, r)
    unfolding chain_walk
    goes_on g r n zero h k ne enough rest = absurd (omega arith)
    goes_on g r n (suc fuel) h k ne enough rest = ground (
      arith,
      add_block_mapped g from (pdt.block n) type ends (mapped n h k),
      rest fuel (omega (arith, tree.up n h)),
    )

    chain_walk_round :
        (g : Graph) (n : ℕ)
        → n ≢ 0
        → pdt.block n ≢ 0
        → pdt.block n ≢ stop
        → IsValid g
        → Walked (after_round g n) (pdt.idom n)
        → Walked g n
    chain_walk_round g n h k ne v w = record {
      result = w.result;
      runs = λ fuel enough. goes_on g w.result n fuel h k ne enough w.runs;
      valid = w.valid;
      exact = λ x y. ground (
        arith,
        w.exact x y,
        depends-add_all g source (wrappers_in ir s (pdt.block n)) type x y v,
        Controls-unfold stop n y h ne,
      );
    }

    -- From a node whose way up meets `stop`, the walk ends, and it makes exactly the instructions
    -- of the blocks before `stop` depend on the terminator.
    pub chain_walk_lem : (g : Graph) (n : ℕ) → IsValid g → Meets pdt stop n → Walked g n
    chain_walk_lem g n v (here h e) = chain_walk_stop g n v h e
    chain_walk_lem g n v (above h k rest) = elim (Bool-cases (pdt.block n == stop)) [
      | inl same ↦ chain_walk_stop g n v h ((==_iff (pdt.block n) stop).0 same)
      | inr other ↦ chain_walk_round g n h k (ground arith) v (
          chain_walk_lem (after_round g n) (pdt.idom n)
            (add_all-IsValid g source (wrappers_in ir s (pdt.block n)) type v) rest)
    ]
