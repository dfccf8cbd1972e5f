-- ===== src/Control/Correct.antt =====
-- computeDependencies against the definition of control dependence: an instruction depends on the
-- terminator of a block a if it stands in a block that post-dominates a successor of a and that
-- comes before the nearest common post-dominator of a and the successor.
use mathlib.Core.List.{Memᴰ}
use mathlib.Core.List.Memᴰ
use dep_taint.Prelude.{
  ◌==◌, ◌≢◌, ℕ, ◌<◌, ◌≡◌, refl, ◌⊎◌, inl, inr, ◌↔◌, true, false, some, [], ◌∷◌, arith, Bool-cases,
}
use dep_taint.Prelude.Outcome.{done}
use dep_taint.Prelude.PtrMap
use dep_taint.Ir.{Ir, is_branch}
use dep_taint.Graph.{Graph, depends, control_code, true_edge, false_edge, other_edge}
use dep_taint.Graph.Valid.{IsValid}
use dep_taint.Wrapper.{Statics}
use dep_taint.Wrapper.Laws.{IsMapped}
use dep_taint.Function.{FuncMap, FunctionWrapper, set_entry}
use dep_taint.Control.{
  Pdt, edge_set, entry_block, get_dependence_type, add_entry, Computed, compute_dependencies,
}
use dep_taint.Control.Paths.{IsTree, AreMapped, Meets, Controls}
use dep_taint.Control.Entry.{entry_walk_lem}
use dep_taint.Control.Branches.{IsGood, edges_walk_lem}
use dep_taint.Control.Edges.{Branching, BySome-edge_set, All-edge_set}

module _ (addr : ℕ → ℕ) (ir : Ir) (pdt : Pdt) (tree : IsTree pdt) (s : Statics) (f : ℕ)
    (mapped : AreMapped ir pdt (add_entry addr s f)) where
  -- What the analysis needs of an edge that it looks at: a conditional branch has two successors, the
  -- branch has a wrapper, and the way up from the target meets the nearest common post-dominator.
  pub record IsReady (a b : ℕ) : Type 0 where
    pub two :
        is_branch (ir.opcode (ir.terminator a)) ≡ true
        → ir.is_conditional (ir.terminator a) ≡ true
        → (t u : ℕ) × (ir.successors a ≡ t ∷ u ∷ [])
    pub ends : IsMapped (add_entry addr s f) (ir.terminator a)
    pub meets : pdt.node b ≢ 0 → Meets pdt (pdt.nearest a b) (pdt.node b)

  abbrev pub IsFit : Type 0
  IsFit =
      (a b : ℕ)
      → Memᴰ a (ir.blocks f)
      → Memᴰ b (ir.successors a)
      → pdt.dominates b a ≡ false
      → IsReady a b

  -- The assertion in getDependenceType holds.
  edge_type :
      (a b : ℕ)
      → Memᴰ b (ir.successors a)
      → IsReady a b
      → (type : ℕ) × (get_dependence_type ir a b ≡ done type)
  unfolding get_dependence_type
  edge_type a b m r = elim (Bool-cases (is_branch (ir.opcode (ir.terminator a)))) [
    | inr other ↦ (control_code other_edge, rw other refl)
    | inl branch ↦ elim (Bool-cases (ir.is_conditional (ir.terminator a))) [
      | inr always ↦ (control_code other_edge, rw (branch, always) refl)
      | inl conditional ↦
          let (t, u, e) = r.two branch conditional in
          elim (Memᴰ.cases_cons (rw e at m)) [
            | inl first ↦
                let hit : (t == b) ≡ true = ground (arith, first) in
                (control_code true_edge, rw (branch, conditional, e, hit) refl)
            | inr rest ↦ elim (Memᴰ.cases_cons rest) [
              | inl second ↦ elim (Bool-cases (t == b)) [
                | inl hit ↦ (control_code true_edge, rw (branch, conditional, e, hit) refl)
                | inr miss ↦
                    let hit : (u == b) ≡ true = ground (arith, second) in
                    (control_code false_edge, rw (branch, conditional, e, miss, hit) refl)
              ]
              | inr none_left ↦ absurd (Memᴰ.not-nil none_left)
            ]
          ]
    ]
  ]

  ready-IsGood :
      (a b : ℕ)
      → Memᴰ b (ir.successors a)
      → IsReady a b
      → IsGood ir pdt (add_entry addr s f) mapped tree (a, b)
  ready-IsGood a b m r =
      let (type, typed) = edge_type a b m r in
      record { type = type; typed = typed; ends = r.ends; meets = r.meets }

  -- computeDependencies on a function that has an entry in funcMap, with a valid graph and with fuel
  -- for the height of the post-dominator tree, returns. Then its graph has the dependencies it had
  -- before, those of the entry node on the blocks on the way up from the entry block, and exactly
  -- the control dependencies of the flow graph: an instruction depends on the terminator of a block
  -- if it stands on the way up from a successor that does not post-dominate the block, before the
  -- nearest common post-dominator of the two. It is valid, and the function's entry node is set.
  -- This is where the way up the tree ends from every node, the instructions of the tree's blocks
  -- have wrappers and, at an edge whose target does not post-dominate its source, the source's
  -- terminator has one, too, and two successors if it is a conditional branch, and the way up from
  -- the target's node, if there is one, meets the nearest common post-dominator.
  pub compute_dependencies_correct :
      (fuel : ℕ) (g : Graph) (m : FuncMap) (fw : FunctionWrapper)
      → ((n : ℕ) → tree.level n < fuel)
      → IsValid g
      → PtrMap.lookup f m ≡ some fw
      → IsFit
      → (c : Computed) × (compute_dependencies ir pdt addr fuel s g m f ≡ done c)
        × (PtrMap.lookup f c.func_map ≡ some (record fw { entry = some (addr s.allocated) }))
        × IsValid c.graph
        × ((x y : ℕ)
            → (depends c.graph x y ≡ true) ↔ (
                (depends g x y ≡ true)
                ⊎ (x ≡ addr s.allocated)
                  × Controls ir pdt (add_entry addr s f) mapped 0 (pdt.node (entry_block ir f)) y
                ⊎ Branching ir pdt (add_entry addr s f) mapped tree (ir.blocks f) x y))
  unfolding compute_dependencies set_entry
  compute_dependencies_correct fuel g m fw enough v known fit =
      let s1 = add_entry addr s f in
      let n = pdt.node (entry_block ir f) in
      let top = entry_walk_lem ir pdt s1 mapped tree (addr s.allocated) fuel g n (enough n) v in
      let w =
        edges_walk_lem ir pdt s1 mapped tree fuel enough top.result (edge_set ir pdt (ir.blocks f))
          top.valid
          (All-edge_set ir pdt s1 mapped tree (IsGood ir pdt s1 mapped tree) (ir.blocks f)
            (λ a b listed m leaves. ready-IsGood a b m (fit a b listed m leaves))) in
      let entered : FunctionWrapper = record fw { entry = some (addr s.allocated) } in
      (
        record {
          statics = s1;
          graph = w.result;
          func_map = PtrMap.insert f entered m;
          root = addr s.allocated;
        },
        rw (known, set_entry) (rw top.runs (rw w.runs refl)),
        PtrMap.lookup-insert_self f entered m,
        w.valid,
        λ x y. ground (
          arith,
          top.exact x y,
          w.exact x y,
          BySome-edge_set ir pdt s1 mapped tree (ir.blocks f) x y,
        ),
      )
