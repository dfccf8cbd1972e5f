-- ===== src/Program/Report.antt =====
-- printTaintValues of src/ProgramDependencies.cpp, as the list of the lines that it writes: a line
-- number and the names that are printed there. `endLabel` is not read.
pub mod Rows
use dep_taint.Prelude.{
  ℕ, Bool, true, false, ◌&&◌, not, List, [], ◌∷◌, leb, ltb, ◌==◌, if◌then◌else◌,
}
use dep_taint.Prelude.PtrMap.{PtrMap}
use dep_taint.Ir.{Ir, is_call}
use dep_taint.Program.Taint.{Names}

module _ (ir : Ir) where
  -- The loop over allocaMap, which has for each variable the line from which on it is tainted, or
  -- 100000.
  unfoldable pub names_at : PtrMap ℕ → ℕ → Names
  names_at [] line = []
  names_at ((p, since) ∷ ps) line =
      let rest = names_at ps line in if leb since line then ir.name p ∷ rest else rest

  -- The loop over the instructions. A call leaves `prev` as it is.
  unfoldable pub print_taint_values : PtrMap ℕ → ℕ → List ℕ → List (ℕ × Names)
  unfolding names_at
  print_taint_values m prev [] = []
  print_taint_values m prev (i ∷ is) =
      let pos = ir.line i in
      let passed = print_taint_values m prev is in
      let printed = (pos, names_at m pos) ∷ print_taint_values m pos is in
      if pos == 0 && not (prev == 0)
      then passed
      else if ltb 0 pos && not (pos == prev)
      then if is_call (ir.opcode i) then passed else printed
      else passed
