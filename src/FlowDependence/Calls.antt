-- ===== src/FlowDependence/Calls.antt =====
-- getCallSiteDependencyFrom of src/FlowDependenceAnalysis.cpp.
use dep_taint.Prelude.{ℕ, ◌-◌, Bool, ◌&&◌, ◌||◌, not, Option, List, [], ◌∷◌, ◌==◌, if◌then◌else◌}
use dep_taint.Prelude.Outcome.{Outcome, done, fault}
use dep_taint.Ir.{Ir, is_call}
use dep_taint.FlowDepResult.{
  FlowDepResult, get_def, get_clobber, get_non_local, get_non_func_local, get_unknown,
}
use dep_taint.FlowDependence.{
  Llvm, has_mod, is_no_mod_ref, block_scan_limit, backwards, is_position, continue, answer, or_else,
}
use dep_taint.FlowDependence.Locate.{no_location, get_location}

module _ (ir : Ir) (llvm : Llvm) where
  -- The answer of a scan that comes to the start of the block.
  unfoldable pub at_start : ℕ → FlowDepResult
  at_start block = elim (ir.blocks (ir.function_of block)) [
    | [] ↦ get_non_local
    | entry ∷ _ ↦ if block == entry then get_non_func_local else get_non_local
  ]

  unfoldable pub is_call_site : ℕ → Bool
  is_call_site i = is_call (ir.opcode i) || llvm.is_invoke i

  -- The body of the loop after the limit.
  unfoldable pub call_site_step : ℕ → Bool → ℕ → Outcome (Option FlowDepResult)
  unfolding get_location no_location is_call_site get_def get_clobber continue answer
  call_site_step cs read_only i =
      let (mr, loc) = get_location ir llvm i (no_location ir llvm) in
      if not (loc.ptr == 0)
      then (if is_no_mod_ref (llvm.mod_ref_info cs loc) then continue else answer (get_clobber i))
      else if is_call_site i
      then (if llvm.is_debug i
          then continue
          else if is_no_mod_ref (llvm.mod_ref_calls cs i)
          then (if read_only && not (has_mod mr) && llvm.is_identical cs i
              then answer (get_def i)
              else continue)
          else answer (get_clobber i))
      else if is_no_mod_ref mr
      then continue
      else answer (get_clobber i)

  -- The loop over the instructions before ScanIt, the nearest first.
  unfoldable pub call_site_scan : ℕ → Bool → FlowDepResult → ℕ → List ℕ → Outcome FlowDepResult
  unfolding call_site_step or_else
  call_site_scan cs read_only end limit [] = done end
  call_site_scan cs read_only end limit (i ∷ is) =
      let rest = call_site_scan cs read_only end (limit - 1) is in
      if limit - 1 == 0 then done get_unknown else or_else (call_site_step cs read_only i) rest

  -- From a position of another block the loop does not meet the start of this one, which is undefined.
  unfoldable pub get_call_site_dependency_from : ℕ → Bool → ℕ → ℕ → Outcome FlowDepResult
  unfolding call_site_scan at_start backwards is_position
  get_call_site_dependency_from cs read_only scan_it block =
      if is_position scan_it (ir.insts block)
      then call_site_scan cs read_only (at_start block) block_scan_limit
          (backwards scan_it [] (ir.insts block))
      else fault
