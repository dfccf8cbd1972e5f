-- ===== src/Program/Taint.antt =====
-- The propagation of taint in runOnModule of src/ProgramDependencies.cpp: the worklist over the
-- program dependency graph. Debugging output is left out, except where it follows a pointer that may
-- be null: there the code has undefined behaviour, a `fault` of the model.
pub mod Frame
pub mod Ends
pub mod Steps
pub mod Rounds
pub mod Faults
pub mod Correct
use Prim.Native.String.{String}
use text.Mathlib.Text.{◌==◌ as str_eq}
use dep_taint.Prelude.{
  ℕ, zero, suc, true, none, some, List, [], ◌∷◌, ◌++◌, ltb, ◌==◌, if◌then◌else◌, get_elem?, any,
}
use dep_taint.Prelude.Outcome.{Outcome, done, fault, out_of_fuel, ◌>>=◌}
use dep_taint.Prelude.PtrMap
use dep_taint.Prelude.PtrMap.{PtrMap}
use dep_taint.Prelude.PtrSet
use dep_taint.Prelude.PtrSet.{PtrSet}
use dep_taint.Ir.{Ir, is_load, is_store, is_branch, is_call, is_alloca}
use dep_taint.Graph.{Graph, Link, get_node_by_data, links, type_code, call}
use dep_taint.Wrapper.{Wrapper, InstWrapperType}
use dep_taint.Function.{FunctionWrapper, FuncMap}

-- A set of names. Its order shows in debugging output only.
abbrev pub Names : Type 0
Names = List String

unfoldable pub insert_name : String → Names → Names
insert_name x ns = if any (λ y. str_eq x y) ns then ns else ns ++ x ∷ []

abbrev pub alloca_max : ℕ
alloca_max = 100000

-- The state of the worklist: the wrappers' flags are in the heap, allocaMap and the mark `visited`
-- in the function wrappers.
pub record TaintState : Type 0 where
  pub heap : PtrMap Wrapper
  pub func_map : FuncMap
  pub graph : Graph
  pub taint_map : PtrMap Names
  pub colored : PtrSet
  pub queue : List ℕ

module _ (ir : Ir) where
  abbrev function_at : ℕ → ℕ
  function_at i = ir.function_of (ir.block_of i)

  -- taintMap[i].insert(x)
  unfoldable pub taint : ℕ → String → PtrMap Names → PtrMap Names
  unfolding insert_name
  taint i x m = PtrMap.insert i (insert_name x (PtrMap.get_or i [] m)) m

  -- For a branch at line `here`: the names of the allocas that were tainted above it.
  unfoldable pub add_tainted : ℕ → ℕ → PtrMap ℕ → PtrMap Names → PtrMap Names
  unfolding taint
  add_tainted i here [] m = m
  add_tainted i here ((p, since) ∷ ps) m =
      add_tainted i here ps (if ltb since here then taint i (ir.name p) m else m)

  -- The function wrapper that holds allocaMap; a missing one is a null pointer.
  unfoldable pub alloca_map_of : FuncMap → ℕ → Outcome FunctionWrapper
  alloca_map_of m f = elim (PtrMap.lookup f m) [ none ↦ fault | some fw ↦ done fw ]

  unfoldable pub put_alloca : TaintState → ℕ → FunctionWrapper → ℕ → ℕ → TaintState
  put_alloca st f fw p since = record st {
    func_map =
        PtrMap.insert f (record fw { alloca_map = PtrMap.insert p since fw.alloca_map })
          st.func_map;
  }

  -- A branch reads taintMap[i] to print it, which adds an entry.
  unfoldable pub reach_branch : TaintState → ℕ → Outcome TaintState
  unfolding add_tainted alloca_map_of
  reach_branch st i = do
    fw ← alloca_map_of st.func_map (function_at i)
    let tainted = add_tainted i (ir.line i) fw.alloca_map st.taint_map
    done (record st { taint_map = PtrMap.insert i (PtrMap.get_or i [] tainted) tainted })

  -- A store into an alloca. `allocaMap[p]` adds 0 for an alloca that is not in the map.
  unfoldable pub reach_store : TaintState → ℕ → ℕ → Outcome TaintState
  unfolding taint alloca_map_of put_alloca
  reach_store st from i =
      let p = ir.pointer_operand i in
      let named = record st { taint_map = taint i (ir.name p) st.taint_map } in
      if is_alloca (ir.opcode p)
      then if PtrSet.contains from st.colored
        then (do
          fw ← alloca_map_of st.func_map (function_at i)
          let since = PtrMap.get_or p 0 fw.alloca_map
          done (
              put_alloca named (function_at i) fw p
                (if since == alloca_max then ir.line i else since)))
        else done named
      else done st

  -- A load from an alloca that is tainted. `source` is the instruction that it was reached from.
  unfoldable pub reach_load : TaintState → ℕ → ℕ → Outcome TaintState
  unfolding taint alloca_map_of put_alloca
  reach_load st source i =
      let p = ir.pointer_operand i in
      if is_alloca (ir.opcode p)
      then (do
        fw ← alloca_map_of st.func_map (function_at i)
        let since = PtrMap.get_or p 0 fw.alloca_map
        let read = put_alloca st (function_at i) fw p since
        let named = record read { taint_map = taint i (ir.name p) st.taint_map }
        (if ltb since alloca_max
            then if source == 0
              then fault
              else if is_store (ir.opcode source)
              then done (put_alloca named (function_at i) fw p (ir.line source))
              else done named
            else done read))
      else done st

  -- Any other instruction: its entry of taintMap is printed, through the iterator that `find` gives.
  unfoldable pub reach_other : TaintState → ℕ → Outcome TaintState
  reach_other st i = elim (PtrMap.lookup i st.taint_map) [ none ↦ fault | some _ ↦ done st ]

  unfoldable pub reach_memory : TaintState → ℕ → ℕ → ℕ → Outcome TaintState
  unfolding reach_store reach_load reach_other
  reach_memory st from source i =
      if is_store (ir.opcode i)
      then reach_store st from i
      else if is_load (ir.opcode i)
      then reach_load st source i
      else reach_other st i

  -- If the predecessor is colored, the adjacent node inherits its taint and its color. The message
  -- follows the predecessor's instruction.
  unfoldable pub inherit : TaintState → Names → ℕ → ℕ → ℕ → ℕ → Outcome TaintState
  inherit st names from source to i =
      if PtrSet.contains from st.colored
      then if source == 0
        then fault
        else done (record st {
          taint_map = PtrMap.insert i names st.taint_map;
          colored = PtrSet.insert to st.colored;
        })
      else done st

  -- The adjacent node is enqueued and its flag set.
  unfoldable pub enqueue : TaintState → ℕ → Wrapper → TaintState
  enqueue st to w = record st {
    heap = PtrMap.insert to (record w { flag = true }) st.heap;
    queue = st.queue ++ to ∷ [];
  }

  -- The body of the test `false == adjacentInstW->getFlag()`.
  unfoldable pub reach_new : TaintState → Names → ℕ → ℕ → ℕ → Wrapper → Outcome TaintState
  unfolding enqueue inherit reach_branch reach_memory
  reach_new st names from source to w = do
    st1 ← inherit (enqueue st to w) names from source to w.instruction
    st2 ← (if is_branch (ir.opcode w.instruction) then reach_branch st1 w.instruction else done st1)
    reach_memory st2 from source w.instruction

  module _ (nodes : PtrSet) where
    -- `*nodes.find(p)`, followed.
    unfoldable pub adjacent : TaintState → ℕ → Outcome Wrapper
    adjacent st p =
        if PtrSet.contains p nodes
        then elim (PtrMap.lookup p st.heap) [ none ↦ fault | some w ↦ done w ]
        else fault

    -- The datum of the node that a link leads to.
    unfoldable pub target : TaintState → Link → ℕ
    target st l = elim (get_elem? st.graph.nodes l.0) [ none ↦ 0 | some n ↦ n.datum ]

    -- The body of the second loop over the links.
    unfoldable pub follow : TaintState → Names → ℕ → ℕ → Link → Outcome TaintState
    unfolding adjacent target reach_new
    follow st names from source l =
        let to = target st l in
        if l.1 == type_code call then done st else if to == 0 then done st else (do
          w ← adjacent st to
          (if w.instruction == 0
              then fault
              else if w.flag
              then done st
              else reach_new st names from source to w))

    unfoldable pub follow_all : TaintState → Names → ℕ → ℕ → List Link → Outcome TaintState
    unfolding follow
    follow_all st names from source [] = done st
    follow_all st names from source (l ∷ ls) = do
      st1 ← follow st names from source l
      follow_all st1 names from source ls

    -- The first loop over the links, which looks for a branch that depends on itself. Its result is
    -- not used, but it follows the instruction of every node that has its flag set.
    unfoldable pub scan_branches : TaintState → List Link → Outcome TaintState
    unfolding adjacent target
    scan_branches st [] = done st
    scan_branches st (l ∷ ls) =
        let rest = scan_branches st ls in
        if target st l == 0 then rest else (do
          w ← adjacent st (target st l)
          (if w.flag then if w.instruction == 0 then fault else rest else rest))

    -- setVisited on the wrapper of the node's function, for a node of type INST.
    unfoldable pub visit_function : TaintState → Wrapper → Outcome TaintState
    visit_function st w = elim w.type [
      | InstWrapperType.inst ↦ elim (PtrMap.lookup w.function st.func_map) [
        | none ↦ fault
        | some fw ↦ done (record st {
          func_map = PtrMap.insert w.function (record fw { visited = true }) st.func_map;
        })
      ]
      | _ ↦ done st
    ]

    -- A node with a value that is no call is colored.
    unfoldable pub color : TaintState → ℕ → Wrapper → TaintState
    color st p w =
        if w.value == 0
        then st
        else if is_call (ir.opcode w.value)
        then st
        else record st { colored = PtrSet.insert p st.colored }

    -- The taint of the node, printed with its instruction's line.
    unfoldable pub taint_of : TaintState → Wrapper → Outcome Names
    taint_of st w = elim (PtrMap.lookup w.instruction st.taint_map) [
      | none ↦ done []
      | some names ↦ if w.instruction == 0 then fault else done names
    ]

    -- One round of the worklist, for the node that left the front of the queue.
    unfoldable pub expand : TaintState → ℕ → Outcome TaintState
    unfolding visit_function color taint_of scan_branches follow_all
    expand st p = elim (PtrMap.lookup p st.heap) [
      | none ↦ fault
      | some w ↦ (do
        st1 ← visit_function st w
        let st2 = color st1 p w
        let found = get_node_by_data st2.graph p
        let st3 = record st2 { graph = found.0 }
        names ← taint_of st3 w
        st4 ← scan_branches st3 (links st3.graph found.1)
        follow_all st4 names p w.instruction (links st4.graph found.1))
    ]

    unfoldable pub propagate : ℕ → TaintState → Outcome TaintState
    unfolding expand
    propagate zero st = out_of_fuel
    propagate (suc fuel) st = elim st.queue [
      | [] ↦ done st
      | p ∷ rest ↦ (do next ← expand (record st { queue = rest }) p; propagate fuel next)
    ]
