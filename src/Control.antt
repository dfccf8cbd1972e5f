-- ===== src/Control.antt =====
-- The class ControlDependencyGraph of src/ControlDependencies.cpp. The post-dominator tree is
-- LLVM's, a parameter.
pub mod Paths
pub mod Entry
pub mod Branches
pub mod Edges
pub mod Correct
pub mod Loops
use dep_taint.Prelude.{
  ℕ, zero, suc, ◌<◌, ◌≡◌, ◌≢◌, Bool, true, false, not, Option, none, some, List, [], ◌∷◌, ◌++◌,
  get_elem?, ◌==◌, if◌then◌else◌,
}
use dep_taint.Prelude.Outcome.{Outcome, done, fault, out_of_fuel, ◌>>=◌}
use dep_taint.Ir.{Ir, is_branch}
use dep_taint.Graph.{
  Graph, add_dependency, type_code, control_code, control, true_edge, false_edge, other_edge,
}
use dep_taint.Wrapper.{Statics, InstWrapperType, of_function, inst_wrapper, new_wrapper, register}
use dep_taint.Function.{FuncMap, set_entry}

-- A node of the tree is its address. The root of the tree may be a virtual one, with no block.
pub record Pdt : Type 0 where
  -- getNode of a block, getBlock and getIDom of a node.
  pub node : ℕ → ℕ
  pub block : ℕ → ℕ
  pub idom : ℕ → ℕ
  -- dominates and findNearestCommonDominator of two blocks.
  pub dominates : ℕ → ℕ → Bool
  pub nearest : ℕ → ℕ → ℕ

-- What computeDependencies leaves behind: the static members, the graph, the map of the function
-- wrappers and the dummy entry node.
pub record Computed : Type 0 where
  pub statics : Statics
  pub graph : Graph
  pub func_map : FuncMap
  pub root : ℕ

or_fault : Option FuncMap → Outcome FuncMap
or_fault none = fault
or_fault (some m) = done m

-- The statics with the dummy entry node of the function.
unfoldable pub add_entry : (ℕ → ℕ) → Statics → ℕ → Statics
unfolding new_wrapper register
add_entry addr s f =
    let (s1, root) = new_wrapper addr s (of_function f InstWrapperType.entry) in
    register addr s1 f root

module _ (ir : Ir) where
  -- `fault`: the last assertion fails.
  unfoldable pub get_dependence_type : ℕ → ℕ → Outcome ℕ
  get_dependence_type a b =
      if is_branch (ir.opcode (ir.terminator a))
      then if ir.is_conditional (ir.terminator a)
        then elim (ir.successors a) [
          | t ∷ f ∷ _ ↦
              if t == b
              then done (control_code true_edge)
              else if f == b
              then done (control_code false_edge)
              else fault
          | _ ↦ fault
        ]
        else done (control_code other_edge)
      else done (control_code other_edge)

  -- The loop that both addDependency methods share.
  unfoldable pub depend_all : Statics → Graph → ℕ → List ℕ → ℕ → Statics × Graph
  depend_all s g from [] type = (s, g)
  depend_all s g from (i ∷ is) type =
      let (s1, w) = inst_wrapper s i in depend_all s1 (add_dependency g from w type) from is type

  -- addDependency(InstructionWrapper*, BasicBlock*, int)
  unfoldable pub add_wrapper_dependency : Statics → Graph → ℕ → ℕ → ℕ → Statics × Graph
  unfolding depend_all
  add_wrapper_dependency s g from to type = depend_all s g from (ir.insts to) type

  -- addDependency(BasicBlock*, BasicBlock*, int)
  unfoldable pub add_block_dependency : Statics → Graph → ℕ → ℕ → ℕ → Statics × Graph
  unfolding depend_all
  add_block_dependency s g from to type =
      let (s1, w) = inst_wrapper s (ir.terminator from) in
      if from == to
      then depend_all s1 g w (ir.insts from) type
      else depend_all s1 g w (ir.insts to) type

  -- The entry block is the first one.
  unfoldable pub entry_block : ℕ → ℕ
  entry_block f = elim (ir.blocks f) [ [] ↦ 0 | b ∷ _ ↦ b ]

  module _ (pdt : Pdt) where
    -- The first loop of computeDependencies, from the node of the entry block.
    unfoldable pub entry_walk : ℕ → Statics → Graph → ℕ → ℕ → Outcome (Statics × Graph)
    unfolding add_wrapper_dependency
    entry_walk zero s g root node = out_of_fuel
    entry_walk (suc fuel) s g root node =
        let next = add_wrapper_dependency s g root (pdt.block node) (type_code control) in
        let rest = entry_walk fuel next.0 next.1 root (pdt.idom node) in
        if node == 0 then done (s, g) else if pdt.block node == 0 then done (s, g) else rest

    -- The edges of the flow graph whose target does not post-dominate their source.
    unfoldable pub block_edges : ℕ → List ℕ → List (ℕ × ℕ)
    block_edges b [] = []
    block_edges b (t ∷ ts) =
        let rest = block_edges b ts in if pdt.dominates t b then rest else (b, t) ∷ rest

    unfoldable pub edge_set : List ℕ → List (ℕ × ℕ)
    unfolding block_edges
    edge_set [] = []
    edge_set (b ∷ bs) = block_edges b (ir.successors b) ++ edge_set bs

    -- The inner loop: up the tree from the edge's target, below the block `stop`. It follows a
    -- null pointer past the root, and in addDependency at a node with no block.
    unfoldable pub chain_walk : ℕ → Statics → Graph → ℕ → ℕ → ℕ → ℕ → Outcome (Statics × Graph)
    unfolding add_block_dependency
    chain_walk zero s g from type stop node = out_of_fuel
    chain_walk (suc fuel) s g from type stop node =
        let next = add_block_dependency s g from (pdt.block node) type in
        let rest = chain_walk fuel next.0 next.1 from type stop (pdt.idom node) in
        if node == 0
        then fault
        else if pdt.block node == stop
        then done (s, g)
        else if pdt.block node == 0
        then fault
        else rest

    unfoldable pub edge_walk : ℕ → Statics → Graph → ℕ × ℕ → Outcome (Statics × Graph)
    unfolding chain_walk get_dependence_type
    edge_walk fuel s g (a, b) = do
      type ← get_dependence_type a b
      (if pdt.node b == 0
          then done (s, g)
          else chain_walk fuel s g a type (pdt.nearest a b) (pdt.node b))

    unfoldable pub edges_walk : ℕ → Statics → Graph → List (ℕ × ℕ) → Outcome (Statics × Graph)
    unfolding edge_walk
    edges_walk fuel s g [] = done (s, g)
    edges_walk fuel s g (e ∷ es) = do next ← edge_walk fuel s g e; edges_walk fuel next.0 next.1 es

    unfoldable pub compute_dependencies :
        (ℕ → ℕ) → ℕ → Statics → Graph → FuncMap → ℕ → Outcome Computed
    unfolding entry_walk edges_walk edge_set or_fault entry_block set_entry add_entry
    compute_dependencies addr fuel s g m f =
        let root = addr s.allocated in
        do
          m1 ← or_fault (set_entry m f root)
          walked ← entry_walk fuel (add_entry addr s f) g root (pdt.node (entry_block f))
          final ← edges_walk fuel walked.0 walked.1 (edge_set (ir.blocks f))
          done (record { statics = final.0; graph = final.1; func_map = m1; root = root })
