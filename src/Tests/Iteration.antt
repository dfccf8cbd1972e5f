-- ===== src/Tests/Iteration.antt =====
-- The iteration over three nodes: a store, a load and a call of the function at 7, whose entry node
-- is at 5000.
use dep_taint.Prelude.{ℕ, ◌≡◌, refl, Bool, true, false, List, [], ◌∷◌, arith, All}
use dep_taint.Prelude.Outcome.{Outcome, done}
use dep_taint.Prelude.PtrMap
use dep_taint.Prelude.PtrSet
use dep_taint.Ir.{Calls}
use dep_taint.Graph.{new_graph, add_dependency, get_node_by_data, links, depends}
use dep_taint.Graph.Valid.{new_graph-IsValid}
use dep_taint.Graph.Edges.{has_edge}
use dep_taint.Wrapper.{of_instruction}
use dep_taint.Function.{new_function_wrapper}
use dep_taint.Program.Build.{BuildState, visit_nodes}
use dep_taint.Program.Build.Drawn.{HasEntry}
use dep_taint.Program.Build.Nodes.{Visits, IsReady}
use dep_taint.Program.Build.Edges.{DrawnSome, visit_nodes_edges}
use dep_taint.Tests.Programs.{store_w, load_w, call_w, two_nodes, calling, callee_fw}

abbrev to_defined : Calls
to_defined = record {
  called = λ i. 7;
  is_tail_call = λ i. false;
  is_intrinsic = λ f. false;
  is_declaration = λ f. false;
  is_var_annotation = λ f. false;
  first_operand = λ i. 0;
}

abbrev three : List ℕ
three = 4112 ∷ 4144 ∷ 4160 ∷ []

abbrev before : BuildState
before = record {
  statics = record two_nodes { heap = (4160, call_w) ∷ two_nodes.heap };
  func_map = (7, callee_fw) ∷ [];
  load_loc = [];
  ddg = add_dependency new_graph 4112 4144 4;
  cdg = new_graph;
  pdg = new_graph;
  call_map = [];
  sensitive_values = [];
  bb_order = [];
  bid = 0;
}

callee_entry : HasEntry calling to_defined before.func_map 7
unfolding PtrMap.lookup new_function_wrapper
callee_entry = record { wrapper = callee_fw; entry = 5000; known = refl; at = refl }

three-IsReady : All (IsReady calling to_defined before.statics before.func_map) three
unfolding PtrMap.lookup
three-IsReady = (
  (omega arith, store_w, refl, λ c. callee_entry),
  (
    (omega arith, load_w, refl, λ c. callee_entry),
    ((omega arith, call_w, refl, λ c. callee_entry), tt),
  ),
)

visit_nodes_edges_example :
    Visits before
      (DrawnSome calling to_defined before three three)
      (visit_nodes calling to_defined before three three)
unfolding PtrMap.lookup
visit_nodes_edges_example =
    visit_nodes_edges calling to_defined before three three new_graph-IsValid tt
      ((store_w, refl), ((load_w, refl), tt))
      ((store_w, refl), ((load_w, refl), ((call_w, refl), tt)))
      ((omega arith, (omega arith, tt)), ((omega arith, tt), (tt, tt))) three-IsReady

-- The edge from the store to the load and the edge from the call to the entry node are there.
edge_after : Outcome BuildState → ℕ → ℕ → ℕ → Bool
edge_after (done st) x y t = has_edge st.pdg x y t
edge_after _ x y t = false

visit_nodes_runs :
    (edge_after (visit_nodes calling to_defined before three three) 4112 4144 4 ≡ true)
    × (edge_after (visit_nodes calling to_defined before three three) 4160 5000 2 ≡ true)
    × (edge_after (visit_nodes calling to_defined before three three) 4144 4112 4 ≡ false)
unfolding edge_after visit_nodes has_edge add_dependency new_graph links get_node_by_data depends
    PtrMap.lookup PtrMap.insert PtrSet.insert of_instruction new_function_wrapper
visit_nodes_runs = (refl, refl, refl)
