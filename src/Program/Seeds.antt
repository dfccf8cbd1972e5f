-- ===== src/Program/Seeds.antt =====
-- The seeds of the taint analysis in runOnModule of src/ProgramDependencies.cpp. The global values
-- with an annotation "tainted" are a parameter: they are read from LLVM's constants.
use dep_taint.Prelude.{ℕ, ◌&&◌, List, [], ◌∷◌, ◌++◌, ◌==◌, if◌then◌else◌}
use dep_taint.Prelude.Outcome.{Outcome, done, fault, ◌>>=◌}
use dep_taint.Prelude.PtrMap
use dep_taint.Prelude.PtrMap.{PtrMap}
use dep_taint.Prelude.PtrSet
use dep_taint.Prelude.PtrSet.{PtrSet}
use dep_taint.Ir.{Ir}
use dep_taint.Graph.{Graph}
use dep_taint.Wrapper.{Statics, is_global, deref}
use dep_taint.Function.{FuncMap}
use dep_taint.Program.Taint.{Names, TaintState, taint, alloca_map_of, propagate}

-- The inner loop: the node once for each sensitive value that is its instruction.
unfoldable pub matches : ℕ → ℕ → List ℕ → List ℕ
matches p i [] = []
matches p i (v ∷ vs) = let rest = matches p i vs in if v == i then p ∷ rest else rest

-- sensitive_nodes
unfoldable pub sensitive_nodes : Statics → List ℕ → PtrSet → List ℕ → Outcome (List ℕ)
unfolding matches deref
sensitive_nodes s values globals [] = done []
sensitive_nodes s values globals (p ∷ ps) = do
  w ← deref s p
  rest ← sensitive_nodes s values globals ps
  let tainted = is_global w.type && PtrSet.contains w.value globals
  done (matches p w.instruction values ++ (if tainted then p ∷ rest else rest))

-- What the loop over sensitive_values changes; senFuncSet is the last field.
pub record Seeded : Type 0 where
  pub taint_map : PtrMap Names
  pub func_map : FuncMap
  pub sen_funcs : PtrSet

module _ (ir : Ir) where
  -- `dyn_cast` gives a null pointer for a value that is no instruction, which the code follows.
  unfoldable pub seed_value : Seeded → ℕ → Outcome Seeded
  unfolding taint alloca_map_of
  seed_value sd v =
      let f = ir.function_of (ir.block_of v) in
      if ir.is_instruction v
      then (do
        fw ← alloca_map_of ir sd.func_map f
        done (record {
          taint_map = taint ir v (ir.name v) sd.taint_map;
          func_map =
              PtrMap.insert f (record fw { alloca_map = PtrMap.insert v (ir.line v) fw.alloca_map })
                sd.func_map;
          sen_funcs = PtrSet.insert f sd.sen_funcs;
        }))
      else fault

  unfoldable pub seed_values : Seeded → List ℕ → Outcome Seeded
  unfolding seed_value
  seed_values sd [] = done sd
  seed_values sd (v ∷ vs) = do next ← seed_value sd v; seed_values next vs

  -- From the end of the construction to the end of the worklist, with the functions to report.
  unfoldable pub run_taint :
      ℕ → Statics → FuncMap → Graph → List ℕ → PtrSet → Outcome (TaintState × PtrSet)
  unfolding sensitive_nodes seed_values propagate
  run_taint fuel s m g values globals = do
    queue ← sensitive_nodes s values globals s.nodes
    sd ← seed_values (record { taint_map = []; func_map = m; sen_funcs = [] }) values
    final ← propagate ir s.nodes fuel (record {
      heap = s.heap;
      func_map = sd.func_map;
      graph = g;
      taint_map = sd.taint_map;
      colored = [];
      queue = queue;
    })
    done (final, sd.sen_funcs)
