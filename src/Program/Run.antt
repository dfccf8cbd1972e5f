-- ===== src/Program/Run.antt =====
-- runOnModule of src/ProgramDependencies.cpp from end to end, from fresh passes: its result is the
-- report and the static members that it leaves behind.
use dep_taint.Prelude.{ℕ, Bool, List, [], ◌∷◌, map}
use dep_taint.Prelude.Outcome.{Outcome, done, ◌>>=◌}
use dep_taint.Prelude.PtrSet.{PtrSet}
use dep_taint.Ir.{Ir, Calls, instructions}
use dep_taint.Graph.{new_graph}
use dep_taint.Wrapper.{Statics, no_statics}
use dep_taint.Function.{FuncMap, construct_func_map}
use dep_taint.Control.{Pdt}
use dep_taint.Data.{Alias}
use dep_taint.Program.Taint.{Names, alloca_map_of}
use dep_taint.Program.Collect.{wrap_globals}
use dep_taint.Program.Build.{BuildState, build}
use dep_taint.Program.Seeds.{run_taint}
use dep_taint.Program.Report.{print_taint_values}

-- The functions with their arguments, the global variables with the answer whether they hold a
-- pointer, and the global values with an annotation.
pub record ModuleIr : Type 0 where
  pub functions : List (ℕ × List ℕ)
  pub globals : List (ℕ × Bool)
  pub tainted_globals : PtrSet

-- The static members are cleared but for their wrappers, which nothing deletes.
unfoldable pub clear_statics : Statics → Statics
clear_statics s = record s { nodes = []; global_list = []; inst_map = []; func_inst_w_list = [] }

module _ (ir : Ir) (calls : Calls) (addr : ℕ → ℕ) (alias : Alias) (tree : ℕ → Pdt) where
  -- The state before the first function: the wrappers of functions and of global variables.
  unfoldable pub start : ModuleIr → BuildState
  unfolding construct_func_map wrap_globals
  start md = record {
    statics = (wrap_globals addr no_statics [] md.globals).0;
    func_map = construct_func_map [] md.functions;
    load_loc = [];
    ddg = new_graph;
    cdg = new_graph;
    pdg = new_graph;
    call_map = [];
    sensitive_values = [];
    bb_order = [];
    bid = 0;
  }

  unfoldable pub report : FuncMap → List ℕ → Outcome (List (ℕ × List (ℕ × Names)))
  unfolding alloca_map_of print_taint_values
  report m [] = done []
  report m (f ∷ fs) = do
    fw ← alloca_map_of ir m f
    rest ← report m fs
    done ((f, print_taint_values ir fw.alloca_map 0 (instructions ir f)) ∷ rest)

  -- Two amounts of fuel: for the walks up the post-dominator trees, and for the worklist.
  unfoldable pub run_on_module : ℕ → ℕ → ModuleIr → Outcome (List (ℕ × List (ℕ × Names)) × Statics)
  unfolding start build run_taint report clear_statics
  run_on_module fuel rounds md = do
    built ← build ir calls addr alias tree fuel (start md) (map (λ f. f.0) md.functions)
    tainted ←
        run_taint ir rounds built.statics built.func_map built.pdg built.sensitive_values
          md.tainted_globals
    rows ← report tainted.0.func_map tainted.1
    done (rows, clear_statics (record built.statics { heap = tainted.0.heap }))
