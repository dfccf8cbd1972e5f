-- ===== src/Program/Collect.antt =====
-- The loop of runOnModule in src/ProgramDependencies.cpp that sorts the instructions of a function
-- into its wrapper, the numbers of the blocks, and the wrappers of the global variables.
pub mod Lists
use Prim.Native.Char.{code}
use Prim.Native.String.{String}
use dep_taint.Prelude.{
  ℕ, suc, Bool, true, false, ◌&&◌, ◌||◌, List, [], ◌∷◌, ◌++◌, ◌==◌, if◌then◌else◌,
}
use dep_taint.Prelude.PtrMap
use dep_taint.Prelude.PtrMap.{PtrMap}
use dep_taint.Prelude.PtrSet
use dep_taint.Ir.{Ir, Opcode, instructions}
use dep_taint.Wrapper.{Statics, InstWrapperType, of_value, new_wrapper}
use dep_taint.Function.{FunctionWrapper}
use dep_taint.Program.Taint.{alloca_max}

pub starts_with : String → String → Bool
starts_with String.[] s = true
starts_with (String.◌∷◌ c p) String.[] = false
starts_with (String.◌∷◌ c p) (String.◌∷◌ d s) = code c == code d && starts_with p s

-- `s.find(p) != npos`
pub has_text : String → String → Bool
has_text p String.[] = starts_with p String.[]
has_text p (String.◌∷◌ c s) = starts_with p (String.◌∷◌ c s) || has_text p s

module _ (ir : Ir) where
  -- A store: into storeInstList, its pointer into ptrSet, and its value if it is a pointer.
  unfoldable pub collect_store : FunctionWrapper → ℕ → FunctionWrapper
  collect_store fw i =
      let pointers = PtrSet.insert (ir.pointer_operand i) fw.ptr_set in
      record fw {
        store_insts = fw.store_insts ++ i ∷ [];
        ptr_set =
            if ir.is_pointer_type (ir.value_operand i)
            then PtrSet.insert (ir.value_operand i) pointers
            else pointers;
      }

  -- An alloca: into allocaMap, except the slot of the return value.
  unfoldable pub collect_alloca : FunctionWrapper → ℕ → FunctionWrapper
  collect_alloca fw i =
      if has_text "retval" (ir.name i)
      then fw
      else record fw { alloca_map = PtrMap.insert i alloca_max fw.alloca_map }

  -- The classes that the tests of the loop body tell apart exclude one another.
  unfoldable pub collect_instruction : FunctionWrapper → ℕ → FunctionWrapper
  unfolding collect_store collect_alloca
  collect_instruction fw i = elim (ir.opcode i) [
    | Opcode.store ↦ collect_store fw i
    | Opcode.load ↦ record fw {
      load_insts = fw.load_insts ++ i ∷ [];
      ptr_set = PtrSet.insert (ir.pointer_operand i) fw.ptr_set;
    }
    | Opcode.return ↦ record fw { return_insts = fw.return_insts ++ i ∷ [] }
    | Opcode.call ↦ record fw { call_insts = fw.call_insts ++ i ∷ [] }
    | Opcode.alloca ↦ collect_alloca fw i
    | _ ↦ fw
  ]

  unfoldable pub collect_all : FunctionWrapper → List ℕ → FunctionWrapper
  unfolding collect_instruction
  collect_all fw [] = fw
  collect_all fw (i ∷ is) = collect_all (collect_instruction fw i) is

  unfoldable pub collect : FunctionWrapper → ℕ → FunctionWrapper
  unfolding collect_all
  collect fw f = collect_all fw (instructions ir f)

-- bbOrderMap and bid.
unfoldable pub order_blocks : PtrMap ℕ → ℕ → List ℕ → PtrMap ℕ × ℕ
order_blocks m bid [] = (m, bid)
order_blocks m bid (b ∷ bs) = order_blocks (PtrMap.insert b bid m) (suc bid) bs

-- The loop over the module's global variables, each with the answer whether it holds a pointer.
-- The second component is gp_list.
unfoldable pub wrap_globals : (ℕ → ℕ) → Statics → List ℕ → List (ℕ × Bool) → Statics × List ℕ
unfolding new_wrapper
wrap_globals addr s pointers [] = (s, pointers)
wrap_globals addr s pointers ((v, holds_pointer) ∷ vs) =
    let (s1, w) = new_wrapper addr s (of_value 0 0 v InstWrapperType.global_value) in
    let s2 = record s1 {
      nodes = PtrSet.insert w s1.nodes;
      global_list = PtrSet.insert w s1.global_list;
    } in
    wrap_globals addr s2 (if holds_pointer then pointers ++ w ∷ [] else pointers) vs
