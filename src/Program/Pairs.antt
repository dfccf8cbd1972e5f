-- ===== src/Program/Pairs.antt =====
-- The inner loop of runOnModule in src/ProgramDependencies.cpp, which joins the answers of the data
-- dependency graph and of the control dependency graph in the program dependency graph.
pub mod Correct
use dep_taint.Prelude.{ℕ, Bool, true, false, ◌&&◌, not, List, [], ◌∷◌, ◌==◌, if◌then◌else◌}
use dep_taint.Prelude.Outcome.{Outcome, done, fault, ◌>>=◌}
use dep_taint.Ir.{Ir, is_load, is_store}
use dep_taint.Graph.{Graph, add_dependency, depends, type_code, data_raw, data_def_use, control}
use dep_taint.Wrapper.{Wrapper, InstWrapperType, Statics, is_inst, is_entry, deref, wrapper_code}

module _ (ir : Ir) where
  -- The loop over globalList. The type of the edge is an enumerator of InstWrapperType.
  unfoldable pub link_globals : Statics → Graph → Wrapper → ℕ → List ℕ → Outcome Graph
  unfolding deref
  link_globals s g w p [] = done g
  link_globals s g w p (q ∷ qs) = do
    v ← deref s q
    let reads = ir.pointer_operand w.instruction == v.value
    link_globals s
        (if reads then add_dependency g q p (wrapper_code InstWrapperType.global_value) else g) w p
        qs

  -- Only an edge from a store to a load is annotated.
  unfoldable pub data_type : Wrapper → Wrapper → ℕ
  data_type w v =
      if is_inst v.type && is_store (ir.opcode w.instruction) && is_load (ir.opcode v.instruction)
      then type_code data_raw
      else type_code data_def_use

  module _ (ddg : Graph) (cdg : Graph) where
    unfoldable pub link_data : Graph → ℕ → Wrapper → ℕ → Wrapper → Graph
    unfolding data_type
    link_data g p w q v =
        if is_inst w.type && depends ddg p q then add_dependency g p q (data_type w v) else g

    unfoldable pub link_control : Graph → ℕ → Wrapper → ℕ → Wrapper → Graph
    link_control g p w q v =
        if is_inst w.type && not (v.instruction == 0) && depends cdg p q
        then add_dependency g p q (type_code control)
        else g

    unfoldable pub link_entry : Graph → ℕ → Wrapper → ℕ → Wrapper → Graph
    link_entry g p w q v =
        if is_entry w.type && not (v.instruction == 0) && depends cdg p q
        then add_dependency g p q (type_code control)
        else g

    -- The body of the second iteration, for the wrappers `w` at `p` and `v` at `q`.
    unfoldable pub link_pair : Statics → Graph → ℕ → Wrapper → ℕ → Wrapper → Outcome Graph
    unfolding link_globals link_data link_control link_entry
    link_pair s g p w q v = do
      g1 ←
          (if is_inst v.type && is_load (ir.opcode v.instruction)
            then link_globals s g v q s.global_list
            else done g)
      done (link_entry (link_control (link_data g1 p w q v) p w q v) p w q v)

    unfoldable pub link_all : Statics → Graph → ℕ → Wrapper → List ℕ → Outcome Graph
    unfolding link_pair
    link_all s g p w [] = done g
    link_all s g p w (q ∷ qs) = do v ← deref s q; g1 ← link_pair s g p w q v; link_all s g1 p w qs
