-- ===== src/Tests/Programs.antt =====
-- The program dependency graph and the taint of two wrappers of the sample: the store at 4112 and
-- the load at 4144.
use dep_taint.Prelude.{
  ℕ, ◌≡◌, ◌≢◌, refl, ◌⊎◌, ◌↔◌, Bool, true, false, some, [], ◌∷◌, arith, ◌==◌, if◌then◌else◌,
}
use dep_taint.Prelude.Outcome.{Outcome, done, fault, out_of_fuel}
use dep_taint.Prelude.PtrMap
use dep_taint.Prelude.PtrSet
use dep_taint.Ir.{Ir, Opcode, is_load}
use dep_taint.Graph.{Graph, new_graph, add_dependency, links, get_node_by_data}
use dep_taint.Graph.Valid.{new_graph-IsValid, add_dependency-IsValid}
use dep_taint.Wrapper.{Statics, Wrapper, InstWrapperType, of_function, of_instruction}
use dep_taint.Function.{FunctionWrapper, new_function_wrapper}
use dep_taint.Program.Taint.{TaintState, expand, propagate}
use dep_taint.Program.Taint.Ends.{measure}
use dep_taint.Program.Taint.Steps.{flagged}
use dep_taint.Graph.Edges.{has_edge}
use dep_taint.Program.Taint.Rounds.{Edge}
use dep_taint.Program.Taint.Faults.{IsNull, expand_faults}
use dep_taint.Program.Taint.Correct.{Reach, propagate_reaches}
use dep_taint.Program.Adds.{Adds}
use dep_taint.Program.Pairs.{link_all}
use dep_taint.Program.Pairs.Correct.{FromRow, link_all_edges}
use dep_taint.Program.Connect.{connect_caller_and_callee}
use dep_taint.Program.Connect.Correct.{ReturnsSome, connect_caller_and_callee_edges}
use dep_taint.Printer.Raw.{IsRawLabel, edge_attributes_raw}
use dep_taint.Tests.Sample.{sample}

abbrev pub store_w : Wrapper
store_w = of_instruction 102 1 InstWrapperType.inst

abbrev pub load_w : Wrapper
load_w = of_instruction 201 1 InstWrapperType.inst

abbrev pub two_nodes : Statics
two_nodes = record {
  heap = (4112, store_w) ∷ (4144, load_w) ∷ [];
  allocated = 2;
  nodes = 4112 ∷ 4144 ∷ [];
  global_list = [];
  inst_map = (102, 4112) ∷ (201, 4144) ∷ [];
  func_inst_w_list = (1, 4112 ∷ 4144 ∷ []) ∷ [];
}

-- The edge DATA_RAW from the store to the load.
abbrev one_edge : Graph
one_edge = add_dependency new_graph 4112 4144 4

abbrev seeded : TaintState
seeded = record {
  heap = two_nodes.heap;
  func_map = (1, new_function_wrapper 1 []) ∷ [];
  graph = one_edge;
  taint_map = [];
  colored = [];
  queue = 4112 ∷ [];
}

seeded_clear : (q : ℕ) → flagged seeded.heap q ≡ false
unfolding flagged PtrMap.lookup of_instruction
seeded_clear q = ground arith

seeded-measure : measure two_nodes.nodes seeded ≡ 3
unfolding measure PtrMap.lookup of_instruction
seeded-measure = refl

propagate_reaches_example :
    (propagate sample two_nodes.nodes 4 seeded ≢ out_of_fuel)
    × ((final : TaintState)
        → propagate sample two_nodes.nodes 4 seeded ≡ done final
        → (q : ℕ) → (flagged final.heap q ≡ true) ↔ Reach one_edge (4112 ∷ []) q)
propagate_reaches_example =
    propagate_reaches sample two_nodes.nodes 4 seeded
      (add_dependency-IsValid new_graph 4112 4144 4 new_graph-IsValid) seeded_clear
      (omega (arith, seeded-measure))

ends_flagged : Outcome TaintState → ℕ → Bool
ends_flagged (done st) p = flagged st.heap p
ends_flagged _ p = false

propagate_runs :
    (ends_flagged (propagate sample two_nodes.nodes 4 seeded) 4144 ≡ true)
    × (ends_flagged (propagate sample two_nodes.nodes 4 seeded) 4112 ≡ false)
unfolding ends_flagged propagate flagged add_dependency new_graph links get_node_by_data
    PtrMap.lookup PtrMap.insert PtrMap.get_or PtrSet.contains PtrSet.insert of_instruction
    new_function_wrapper
propagate_runs = (refl, refl)

link_all_edges_example :
    Adds new_graph
      (FromRow sample two_nodes one_edge new_graph 4112 store_w (4112 ∷ 4144 ∷ []))
      (link_all sample one_edge new_graph two_nodes new_graph 4112 store_w (4112 ∷ 4144 ∷ []))
unfolding PtrMap.lookup
link_all_edges_example =
    link_all_edges sample two_nodes one_edge new_graph new_graph 4112 store_w (4112 ∷ 4144 ∷ [])
      new_graph-IsValid tt ((store_w, refl), ((load_w, refl), tt))

-- A function at 7 whose entry node is at 5000, and a call of it at 5016.
abbrev pub callee_fw : FunctionWrapper
callee_fw = record (new_function_wrapper 7 []) { entry = some 5000; return_insts = 402 ∷ [] }

connect_caller_and_callee_edges_example :
    (h : Graph) × (connect_caller_and_callee sample two_nodes ((7, callee_fw) ∷ []) new_graph 5016 7
      ≡ done (h, 0))
    × Adds new_graph
        (λ x y t.
          (x ≡ 5016) × (y ≡ 5000) × (t ≡ 2)
          ⊎ ReturnsSome sample two_nodes 5016 callee_fw.return_insts x y t)
        (done h)
unfolding PtrMap.lookup new_function_wrapper
connect_caller_and_callee_edges_example =
    connect_caller_and_callee_edges sample two_nodes ((7, callee_fw) ∷ []) new_graph 5016 7 5000
      callee_fw new_graph-IsValid ((store_w, refl), ((load_w, refl), tt)) (omega arith)
      (omega arith) refl refl

-- The sample with a call in place of instruction 202.
abbrev pub calling : Ir
calling = record sample { opcode = λ i. if i == 202 then Opcode.call else sample.opcode i }

abbrev pub call_w : Wrapper
call_w = of_instruction 202 1 InstWrapperType.inst

-- A call at 5016 of the function at 7, as connectCallerAndCallee links it to the entry node at 5000.
abbrev entry_w : Wrapper
entry_w = of_function 7 InstWrapperType.entry

abbrev linked : TaintState
linked = record seeded {
  heap = (5000, entry_w) ∷ (5016, call_w) ∷ [];
  graph = add_dependency new_graph 5016 5000 2;
}

linked-Edge : Edge linked.graph 5016 5000
unfolding has_edge add_dependency new_graph links get_node_by_data PtrMap.lookup PtrMap.insert
linked-Edge = (2, omega arith, omega arith, refl)

linked-IsNull : IsNull sample (5000 ∷ 5016 ∷ []) 5000 linked
unfolding PtrMap.lookup of_function
linked-IsNull = (entry_w, refl, refl)

expand_faults_example : expand sample (5000 ∷ 5016 ∷ []) linked 5016 ≡ fault
expand_faults_example =
    expand_faults sample (5000 ∷ 5016 ∷ []) linked 5016 5000
      (add_dependency-IsValid new_graph 5016 5000 2 new_graph-IsValid) linked-IsNull linked-Edge

edge_attributes_raw_example :
    (h : Graph) × (link_all sample one_edge new_graph two_nodes new_graph 4112 store_w
        (4112 ∷ 4144 ∷ [])
      ≡ done h)
    × ((x y : ℕ) (v : Wrapper)
        → has_edge h x y 4 ≡ true
        → has_edge new_graph x y 4 ≡ false
        → PtrMap.lookup y two_nodes.heap ≡ some v
        → v.instruction ≢ 0
        → (is_load (sample.opcode v.instruction) ≡ true) × IsRawLabel sample v)
unfolding PtrMap.lookup
edge_attributes_raw_example =
    edge_attributes_raw sample two_nodes one_edge new_graph 4112 store_w new_graph
      (4112 ∷ 4144 ∷ []) new_graph-IsValid tt ((store_w, refl), ((load_w, refl), tt))
