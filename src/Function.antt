-- ===== src/Function.antt =====
-- The class FunctionWrapper of include/FunctionWrapper.h, without the parameter trees.
use dep_taint.Prelude.{ℕ, Bool, false, Option, none, some, List, [], ◌∷◌}
use dep_taint.Prelude.PtrMap
use dep_taint.Prelude.PtrMap.{PtrMap}
use dep_taint.Prelude.PtrSet.{PtrSet}

-- `none` is the member that the constructor leaves uninitialised.
pub record FunctionWrapper : Type 0 where
  pub function : ℕ
  pub entry : Option ℕ
  pub store_insts : List ℕ
  pub load_insts : List ℕ
  pub return_insts : List ℕ
  pub call_insts : List ℕ
  pub arguments : List ℕ
  pub ptr_set : PtrSet
  pub alloca_map : PtrMap ℕ
  pub tree_flag : Bool
  pub visited : Bool

-- `arguments` is the argument list of the LLVM function.
unfoldable pub new_function_wrapper : ℕ → List ℕ → FunctionWrapper
new_function_wrapper f arguments = record {
  function = f;
  entry = none;
  store_insts = [];
  load_insts = [];
  return_insts = [];
  call_insts = [];
  arguments = arguments;
  ptr_set = [];
  alloca_map = [];
  tree_flag = false;
  visited = false;
}

abbrev pub FuncMap : Type 0
FuncMap = PtrMap FunctionWrapper

-- The loop of constructFuncMap over the module's functions, each with its arguments.
unfoldable pub construct_func_map : FuncMap → List (ℕ × List ℕ) → FuncMap
unfolding new_function_wrapper
construct_func_map m [] = m
construct_func_map m ((f, arguments) ∷ fs) =
    construct_func_map
      (elim (PtrMap.lookup f m) [
        | none ↦ PtrMap.insert f (new_function_wrapper f arguments) m
        | some _ ↦ m
      ])
      fs

-- `funcMap[f]->setEntry(w)`; `none`: the map has no wrapper for f.
unfoldable pub set_entry : FuncMap → ℕ → ℕ → Option FuncMap
set_entry m f w = elim (PtrMap.lookup f m) [
  | none ↦ none
  | some fw ↦ some (PtrMap.insert f (record fw { entry = some w }) m)
]
