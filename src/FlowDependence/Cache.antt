-- ===== src/FlowDependence/Cache.antt =====
-- getDependency, RemoveFromReverseMap and releaseMemory of src/FlowDependenceAnalysis.cpp: the
-- answers that are kept for instructions, and the map back from the instructions they name.
pub mod Total
pub mod Synced
pub mod Queries
pub mod Transparent
use dep_taint.Prelude.{
  ℕ, Bool, true, false, ◌&&◌, ◌||◌, not, Option, none, some, List, [], ◌∷◌, ◌==◌, if◌then◌else◌,
}
use dep_taint.Prelude.Outcome.{Outcome, done, fault, ◌>>=◌}
use dep_taint.Prelude.PtrMap
use dep_taint.Prelude.PtrMap.{PtrMap}
use dep_taint.Prelude.PtrSet
use dep_taint.Prelude.PtrSet.{PtrSet}
use dep_taint.Ir.{Ir, is_call}
use dep_taint.FlowDepResult.{FlowDepResult, no_result, is_dirty, get_inst, get_unknown}
use dep_taint.FlowDependence.{Llvm, has_mod}
use dep_taint.FlowDependence.Locate.{get_location, no_location}
use dep_taint.FlowDependence.Calls.{at_start, is_call_site, get_call_site_dependency_from}
use dep_taint.FlowDependence.Pointers.{is_lifetime_start, get_pointer_dependency_from}

-- LocalDeps and ReverseLocalDeps.
pub record LocalCache : Type 0 where
  pub local_deps : PtrMap FlowDepResult
  pub reverse_local_deps : PtrMap PtrSet

-- releaseMemory, on these two maps.
unfoldable pub release_memory : LocalCache → LocalCache
release_memory c = record { local_deps = []; reverse_local_deps = [] }

-- What is left of a set stays; the entry of an empty one is erased.
unfoldable pub put_or_erase : PtrMap PtrSet → ℕ → PtrSet → PtrMap PtrSet
put_or_erase m inst [] = PtrMap.erase inst m
put_or_erase m inst (k ∷ ks) = PtrMap.insert inst (k ∷ ks) m

unfoldable pub remove_from : PtrMap PtrSet → ℕ → ℕ → Option PtrSet → Outcome (PtrMap PtrSet)
unfolding PtrSet.contains put_or_erase
remove_from m inst val none = fault
remove_from m inst val (some s) =
    if PtrSet.contains val s then done (put_or_erase m inst (PtrSet.erase val s)) else fault

-- RemoveFromReverseMap, with the assertions that the entry is there and that it holds the value.
unfoldable pub remove_from_reverse_map : PtrMap PtrSet → ℕ → ℕ → Outcome (PtrMap PtrSet)
unfolding PtrMap.lookup remove_from
remove_from_reverse_map m inst val = remove_from m inst val (PtrMap.lookup inst m)

-- `m[inst].insert(val)`
unfoldable pub add_to_reverse_map : PtrMap PtrSet → ℕ → ℕ → PtrMap PtrSet
unfolding PtrMap.get_or
add_to_reverse_map m inst val = PtrMap.insert inst (PtrSet.insert val (PtrMap.get_or inst [] m)) m

-- The dirty entry's instruction is where the scan starts, if there is one; the reverse map forgets
-- it.
unfoldable pub scan_position : LocalCache → FlowDepResult → ℕ → Outcome (ℕ × PtrMap PtrSet)
unfolding remove_from_reverse_map get_inst
scan_position c dirty query =
    if get_inst dirty == 0
    then done (query, c.reverse_local_deps)
    else remove_from_reverse_map c.reverse_local_deps (get_inst dirty) query >>= λ m.
        done (get_inst dirty, m)

-- The last two steps: the entry, and the reverse map if the answer has an instruction.
unfoldable pub remember : LocalCache → ℕ → FlowDepResult → LocalCache
unfolding add_to_reverse_map get_inst
remember c query r = record {
  local_deps = PtrMap.insert query r c.local_deps;
  reverse_local_deps =
      if get_inst r == 0
      then c.reverse_local_deps
      else add_to_reverse_map c.reverse_local_deps (get_inst r) query;
}

module _ (ir : Ir) (llvm : Llvm) where
  -- The scan that answers a query, from `scan_pos` on.
  unfoldable pub scan_for : ℕ → ℕ → Outcome FlowDepResult
  unfolding get_location no_location is_lifetime_start is_call_site
  scan_for query scan_pos =
      let block = ir.block_of query in
      let (mr, loc) = get_location ir llvm query (no_location ir llvm) in
      if not (loc.ptr == 0)
      then get_pointer_dependency_from ir llvm loc
          (not (has_mod mr) || is_lifetime_start ir llvm query) scan_pos block query
      else if is_call_site ir llvm query
      then get_call_site_dependency_from ir llvm query (llvm.only_reads_memory query) scan_pos block
      else done get_unknown

  unfoldable pub is_first : ℕ → Bool
  is_first query = elim (ir.insts (ir.block_of query)) [ [] ↦ false | i ∷ _ ↦ i == query ]

  -- The answer to a query that has none in the cache.
  unfoldable pub fresh_answer : ℕ → ℕ → Outcome FlowDepResult
  unfolding scan_for is_first at_start
  fresh_answer query scan_pos =
      if is_first query
      then done (at_start ir llvm (ir.block_of query))
      else scan_for query scan_pos

  unfoldable pub get_dependency : LocalCache → ℕ → Outcome (LocalCache × FlowDepResult)
  unfolding PtrMap.get_or no_result is_dirty scan_position fresh_answer remember
  get_dependency c query =
      let cached = PtrMap.get_or query no_result c.local_deps in
      if not (is_dirty cached)
      then done (c, cached)
      else scan_position c cached query >>= λ (scan_pos, reverse).
          fresh_answer query scan_pos >>= λ r.
          done (remember (record c { reverse_local_deps = reverse }) query r, r)
