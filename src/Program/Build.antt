-- ===== src/Program/Build.antt =====
-- The construction of the program dependency graph in runOnModule of src/ProgramDependencies.cpp,
-- function by function. getAnalysis runs the data dependency pass; the graphs of both passes live as
-- long as the passes and gather the functions of the module.
pub mod Alike
pub mod Drawn
pub mod Nodes
pub mod Visits
pub mod Edges
use dep_taint.Prelude.{ℕ, Bool, true, false, Option, none, some, List, [], ◌∷◌, if◌then◌else◌}
use dep_taint.Prelude.Int.{ℤ}
use dep_taint.Prelude.Outcome.{Outcome, done, fault, ◌>>=◌}
use dep_taint.Prelude.PtrMap
use dep_taint.Prelude.PtrMap.{PtrMap}
use dep_taint.Prelude.PtrSet.{PtrSet}
use dep_taint.Ir.{Ir, Calls}
use dep_taint.Graph.{Graph}
use dep_taint.Wrapper.{Wrapper, Statics, is_entry, deref, construct_inst_map}
use dep_taint.Function.{FunctionWrapper, FuncMap, set_entry}
use dep_taint.Control.{Pdt, Computed, compute_dependencies}
use dep_taint.Data.{Alias, DataState, run_on_function}
use dep_taint.Program.Collect.{collect, order_blocks}
use dep_taint.Program.Connect.{CallState, visit_call}
use dep_taint.Program.Pairs.{link_all}

pub record BuildState : Type 0 where
  pub statics : Statics
  pub func_map : FuncMap
  pub load_loc : PtrMap ℤ
  pub ddg : Graph
  pub cdg : Graph
  pub pdg : Graph
  pub call_map : PtrSet
  pub sensitive_values : List ℕ
  pub bb_order : PtrMap ℕ
  pub bid : ℕ

-- The loop that sets the entries; a function that the map does not have is passed over.
unfoldable pub set_entries : Statics → FuncMap → List ℕ → Outcome FuncMap
unfolding deref set_entry
set_entries s m [] = done m
set_entries s m (p ∷ ps) = do
  w ← deref s p
  let next : FuncMap = elim (set_entry m w.function p) [ none ↦ m | some n ↦ n ]
  set_entries s (if is_entry w.type then next else m) ps

module _ (ir : Ir) (calls : Calls) where
  unfoldable pub call_state : BuildState → CallState
  call_state st = record {
    statics = st.statics;
    graph = st.pdg;
    call_map = st.call_map;
    sensitive_values = st.sensitive_values;
  }

  unfoldable pub after_call : BuildState → CallState → BuildState
  after_call st c = record st {
    statics = c.statics;
    pdg = c.graph;
    call_map = c.call_map;
    sensitive_values = c.sensitive_values;
  }

  -- One node of the outer iteration, with all nodes of the function for the inner one.
  unfoldable pub visit_node : BuildState → List ℕ → ℕ → Outcome BuildState
  unfolding call_state after_call visit_call link_all
  visit_node st all p = do
    w ← deref st.statics p
    called ← visit_call ir calls (call_state st) st.func_map p w
    let st1 = after_call st called.1
    (if called.0
        then (do
          g ← link_all ir st1.ddg st1.cdg st1.statics st1.pdg p w all
          done (record st1 { pdg = g }))
        else done st1)

  unfoldable pub visit_nodes : BuildState → List ℕ → List ℕ → Outcome BuildState
  unfolding visit_node
  visit_nodes st all [] = done st
  visit_nodes st all (p ∷ ps) = do next ← visit_node st all p; visit_nodes next all ps

  module _ (addr : ℕ → ℕ) (alias : Alias) (tree : ℕ → Pdt) (fuel : ℕ) where
    -- Up to the two passes: the wrappers, the lists of the function, the data dependency graph.
    unfoldable pub prepare : BuildState → ℕ → FunctionWrapper → BuildState
    unfolding collect order_blocks run_on_function
    prepare st f fw =
        let order = order_blocks st.bb_order st.bid (ir.blocks f) in
        let data_state : DataState = record {
          statics = construct_inst_map addr ir st.statics f;
          load_loc = st.load_loc;
          graph = st.ddg;
        } in
        let after = run_on_function ir addr alias data_state f in
        record st {
          statics = construct_inst_map addr ir after.statics f;
          func_map = PtrMap.insert f (collect ir fw f) st.func_map;
          load_loc = after.load_loc;
          ddg = after.graph;
          bb_order = order.0;
          bid = order.1;
        }

    -- One function with a body.
    unfoldable pub build_function : BuildState → ℕ → Outcome BuildState
    unfolding prepare set_entries visit_nodes compute_dependencies
    build_function st f = elim (PtrMap.lookup f st.func_map) [
      | none ↦ fault
      | some fw ↦ (do
        let ready = prepare st f fw
        c ← compute_dependencies ir (tree f) addr fuel ready.statics ready.cdg ready.func_map f
        let all = PtrMap.get_or f [] c.statics.func_inst_w_list
        m ← set_entries c.statics c.func_map all
        visit_nodes (record ready { statics = c.statics; func_map = m; cdg = c.graph }) all all)
    ]

    unfoldable pub build : BuildState → List ℕ → Outcome BuildState
    unfolding build_function
    build st [] = done st
    build st (f ∷ fs) =
        if calls.is_declaration f
        then build st fs
        else (do next ← build_function st f; build next fs)
