-- ===== src/FlowDependence/Scan/Call.antt =====
-- The scan for a call site against the reference.
use dep_taint.Prelude.{if◌then◌else◌, ℕ, suc, ◌≡◌, sym, ap, ◌∙◌, Bool, List, [], ◌∷◌}
use dep_taint.Prelude.Outcome.{fault}
use dep_taint.Ir.{Ir}
use dep_taint.FlowDepResult.{FlowDepResult}
use dep_taint.FlowDependence.{Llvm, backwards, is_position}
use dep_taint.FlowDependence.Calls.{
  at_start, call_site_step, call_site_scan, get_call_site_dependency_from,
}
use dep_taint.FlowDependence.Scan.{reference, reference-cons, reference-nil, room}

module _ (ir : Ir) (llvm : Llvm) where
  call_site_scan-reference :
      (cs : ℕ) (read_only : Bool) (end : FlowDepResult) (n : ℕ) (is : List ℕ)
      → call_site_scan ir llvm cs read_only end (suc n) is
        ≡ reference (call_site_step ir llvm cs read_only) end n is
  unfolding call_site_scan
  call_site_scan-reference cs read_only end n [] = sym (reference-nil _ end n)
  call_site_scan-reference cs read_only end n (i ∷ is) =
      room n (call_site_step ir llvm cs read_only i)
        (λ m. call_site_scan ir llvm cs read_only end m is)
        (λ m. reference (call_site_step ir llvm cs read_only) end m is)
        (λ m. call_site_scan-reference cs read_only end m is)
      ∙ reference-cons (call_site_step ir llvm cs read_only) end n i is

  -- getCallSiteDependencyFrom is the answer of the nearest of the 99 instructions before the call that
  -- gives one; without one it is that of the start of the block if there are no more than those 99
  -- instructions, and unknown otherwise. From a position outside the block it is undefined.
  pub call_site_dependency_nearest :
      (cs : ℕ) (read_only : Bool) (scan_it block : ℕ)
      → get_call_site_dependency_from ir llvm cs read_only scan_it block ≡ (
          if is_position scan_it (ir.insts block)
          then reference
              (call_site_step ir llvm cs read_only)
              (at_start ir llvm block)
              99
              (backwards scan_it [] (ir.insts block))
          else fault)
  unfolding get_call_site_dependency_from
  call_site_dependency_nearest cs read_only scan_it block =
      ap (λ m. if is_position scan_it (ir.insts block) then m else fault)
        (call_site_scan-reference cs read_only (at_start ir llvm block) 99
          (backwards scan_it [] (ir.insts block)))
