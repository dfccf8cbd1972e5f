-- ===== src/FlowDependence/Block.antt =====
-- GetNonLocalInfoForBlock of src/FlowDependenceAnalysis.cpp: the answer of a block to a query for a
-- pointer, from the cached entries of the query or by a scan. The entries and the map back are those
-- that the call updates in place.
pub mod Search
pub mod Lookup
pub mod Steps
pub mod Keeps
pub mod Whole
use dep_taint.Prelude.{
  ℕ, Bool, true, false, ◌||◌, not, Option, none, some, List, [], ◌∷◌, ◌==◌, if◌then◌else◌,
}
use dep_taint.Prelude.Outcome.{Outcome, done, fault, ◌>>=◌}
use dep_taint.Prelude.PtrMap.{PtrMap}
use dep_taint.Prelude.PtrSet.{PtrSet}
use dep_taint.Ir.{Ir}
use dep_taint.FlowDepResult.{FlowDepResult, get_inst, is_clobber, is_def}
use dep_taint.FlowDependence.{Location, Llvm}
use dep_taint.FlowDependence.Pointers.{get_pointer_dependency_from}
use dep_taint.FlowDependence.Cache.{add_to_reverse_map}
use dep_taint.FlowDependence.Forget.{Entry, value_is_load}
use dep_taint.FlowDependence.Across.{
  Existing, existing_at, find_entry, is_clean, set_result, start_of,
}

-- The answer, the entries and the map back.
pub record BlockInfo : Type 0 where
  pub answer : FlowDepResult
  pub cache : List Entry
  pub reverse : PtrMap PtrSet

-- The map back, where the answer depends on an instruction, with the assertion that there is one.
unfoldable pub remember : ℕ → FlowDepResult → List Entry → PtrMap PtrSet → Outcome BlockInfo
unfolding is_def is_clobber get_inst add_to_reverse_map
remember key dep cache reverse =
    if not (is_def dep || is_clobber dep)
    then done (record { answer = dep; cache = cache; reverse = reverse })
    else if get_inst dep == 0
    then fault
    else done (record {
      answer = dep;
      cache = cache;
      reverse = add_to_reverse_map reverse (get_inst dep) key;
    })

module _ (ir : Ir) (llvm : Llvm) where
  -- The assertion that an answer's instruction is in the block.
  unfoldable pub in_its_block : ℕ → Existing → Bool
  unfolding get_inst
  in_its_block block none = true
  in_its_block block (some (_, r)) = get_inst r == 0 || ir.block_of (get_inst r) == block

  -- ExistingResult is a place in the cache and its answer.
  unfoldable pub block_info :
      Location → Bool → ℕ → List Entry → PtrMap PtrSet → Existing → Outcome BlockInfo
  unfolding value_is_load in_its_block start_of get_pointer_dependency_from set_result remember
  block_info loc load block cache reverse existing =
      let key = value_is_load loc.ptr load in
      if not (in_its_block block existing)
      then fault
      else start_of key reverse existing >>= λ (pos, reverse).
          get_pointer_dependency_from ir llvm loc load pos block 0 >>= λ dep.
          remember key dep (set_result cache block existing dep) reverse

  unfoldable pub clean_or_scan :
      Location → Bool → ℕ → List Entry → PtrMap PtrSet → Existing → Outcome BlockInfo
  unfolding is_clean block_info
  clean_or_scan loc load block cache reverse none = block_info loc load block cache reverse none
  clean_or_scan loc load block cache reverse (some (i, r)) =
      if is_clean (some (i, r))
      then done (record { answer = r; cache = cache; reverse = reverse })
      else block_info loc load block cache reverse (some (i, r))

  -- GetNonLocalInfoForBlock
  unfoldable pub get_non_local_info_for_block :
      Location → Bool → ℕ → List Entry → ℕ → PtrMap PtrSet → Outcome BlockInfo
  unfolding find_entry existing_at clean_or_scan
  get_non_local_info_for_block loc load block cache sorted reverse =
      clean_or_scan loc load block cache reverse (existing_at cache (find_entry cache sorted block))
