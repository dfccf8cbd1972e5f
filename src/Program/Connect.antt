-- ===== src/Program/Connect.antt =====
-- connectCallerAndCallee of src/ProgramDependencies.cpp without the parameter trees, and the
-- handling of a call in runOnModule. connectAllPossibleFunctions only prints.
pub mod Correct
use dep_taint.Prelude.{
  ℕ, Bool, true, false, ◌&&◌, ◌||◌, not, Option, none, some, List, [], ◌∷◌, ◌++◌, ◌==◌,
  if◌then◌else◌,
}
use dep_taint.Prelude.Outcome.{Outcome, done, fault, ◌>>=◌}
use dep_taint.Prelude.PtrMap
use dep_taint.Prelude.PtrSet
use dep_taint.Prelude.PtrSet.{PtrSet}
use dep_taint.Ir.{Ir, Calls, is_call, is_bit_cast}
use dep_taint.Graph.{Graph, add_dependency, type_code, data_general}
use dep_taint.Wrapper.{Wrapper, Statics, is_inst, deref}
use dep_taint.Function.{FunctionWrapper, FuncMap}

-- What the handling of a call changes.
pub record CallState : Type 0 where
  pub statics : Statics
  pub graph : Graph
  pub call_map : PtrSet
  pub sensitive_values : List ℕ

module _ (ir : Ir) where
  -- The loop over the nodes, for one return instruction of the callee.
  unfoldable pub connect_return : Statics → Graph → ℕ → ℕ → List ℕ → Outcome Graph
  unfolding deref
  connect_return s g call ret [] = done g
  connect_return s g call ret (p ∷ ps) = do
    w ← deref s p
    let matches = w.instruction == ret && not (ir.return_value ret == 0)
    connect_return s (if matches then add_dependency g p call (type_code data_general) else g) call
        ret ps

  unfoldable pub connect_returns : Statics → Graph → ℕ → List ℕ → Outcome Graph
  unfolding connect_return
  connect_returns s g call [] = done g
  connect_returns s g call (r ∷ rs) = do
    g1 ← connect_return s g call r s.nodes
    connect_returns s g1 call rs

  -- A callee with no wrapper is a null pointer; its entry is uninitialised until
  -- computeDependencies has run on it. The result's second component is the code's `int`.
  unfoldable pub connect_caller_and_callee : Statics → FuncMap → Graph → ℕ → ℕ → Outcome (Graph × ℕ)
  unfolding connect_returns
  connect_caller_and_callee s m g call callee =
      if call == 0 || callee == 0 then done (g, 1) else elim (PtrMap.lookup callee m) [
        | none ↦ fault
        | some fw ↦ elim fw.entry [
          | none ↦ fault
          | some entry ↦ (do
            g1 ←
                connect_returns s (add_dependency g call entry (type_code data_general)) call
                  fw.return_insts
            done (g1, 0))
        ]
      ]

  -- A call that has not been handled yet.
  unfoldable pub is_new_call : Wrapper → Bool
  is_new_call w =
      not (w.instruction == 0)
      && is_inst w.type
      && is_call (ir.opcode w.instruction)
      && not w.access

  module _ (calls : Calls) where
    -- The values that a var_annotation marks.
    unfoldable pub annotated : ℕ → List ℕ
    annotated i =
        if is_bit_cast (ir.opcode (calls.first_operand i))
        then ir.operands (calls.first_operand i)
        else calls.first_operand i ∷ []

    -- A call of a function with a body, which is no tail call.
    unfoldable pub connect_call : CallState → FuncMap → ℕ → Wrapper → Outcome CallState
    unfolding connect_caller_and_callee
    connect_call st m p w = do
      connected ← connect_caller_and_callee st.statics m st.graph p (calls.called w.instruction)
      let marked = PtrMap.insert p (record w { access = true }) st.statics.heap
      done (record {
        statics = if connected.1 == 0 then record st.statics { heap = marked } else st.statics;
        graph = connected.0;
        call_map = PtrSet.insert w.instruction st.call_map;
        sensitive_values = st.sensitive_values;
      })

    -- `false` in the first component: the loop continues with the next node.
    unfoldable pub visit_call : CallState → FuncMap → ℕ → Wrapper → Outcome (Bool × CallState)
    unfolding connect_call annotated is_new_call
    visit_call st m p w =
        let callee = calls.called w.instruction in
        if is_new_call w
        then if callee == 0
          then done (false, st)
          else if calls.is_intrinsic callee || calls.is_declaration callee
          then done (
            false,
            record st {
              sensitive_values =
                  if calls.is_var_annotation callee
                  then st.sensitive_values ++ annotated w.instruction
                  else st.sensitive_values;
            },
          )
          else if calls.is_tail_call w.instruction
          then done (false, st)
          else (do next ← connect_call st m p w; done (true, next))
        else done (true, st)
