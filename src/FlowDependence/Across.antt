-- ===== src/FlowDependence/Across.antt =====
-- getNonLocalCallDependency of src/FlowDependenceAnalysis.cpp: the dependences of a call over the
-- blocks before its own. The predecessors of a block, which LLVM's PredIteratorCache gives, are a
-- parameter.
pub mod Measure
pub mod Rounds
pub mod Reached
pub mod Exact
use dep_taint.Prelude.{
  ℕ, zero, suc, ◌-◌, Bool, true, false, ◌&&◌, ◌||◌, not, Option, none, some, List, [], ◌∷◌, ◌++◌,
  ◌==◌, if◌then◌else◌, length, get_elem?, set, take,
}
use dep_taint.Prelude.Outcome.{Outcome, done, fault, out_of_fuel, ◌>>=◌}
use dep_taint.Prelude.PtrMap
use dep_taint.Prelude.PtrMap.{PtrMap}
use dep_taint.Prelude.PtrSet
use dep_taint.Prelude.PtrSet.{PtrSet}
use dep_taint.Ir.{Ir}
use dep_taint.FlowDepResult.{FlowDepResult, no_result, get_inst, is_dirty, is_non_local}
use dep_taint.FlowDependence.{Llvm}
use dep_taint.FlowDependence.Calls.{at_start, get_call_site_dependency_from}
use dep_taint.FlowDependence.Cache.{remove_from_reverse_map, add_to_reverse_map, get_dependency}
use dep_taint.FlowDependence.Forget.{Entry}
use dep_taint.FlowDependence.Order.{upper_bound, sort}
use dep_taint.FlowDependence.Store.{CallInfo, no_call_info, Store}

-- `end()` of a block, which is no instruction's address.
abbrev pub end_position : ℕ
end_position = 0

-- The variables of the loop; the last of DirtyBlocks stands first.
pub record Walk : Type 0 where
  pub dirty_blocks : List ℕ
  pub visited : PtrSet
  pub cache : List Entry
  pub reverse : PtrMap PtrSet

-- push_back of each.
unfoldable pub push_all : List ℕ → List ℕ → List ℕ
push_all [] stack = stack
push_all (b ∷ bs) stack = push_all bs (b ∷ stack)

-- The blocks of the dirty entries.
unfoldable pub dirty_of : List Entry → List ℕ
unfolding is_dirty
dirty_of [] = []
dirty_of (e ∷ es) = let rest = dirty_of es in if is_dirty e.1 then e.0 ∷ rest else rest

unfoldable pub is_block_at : List Entry → ℕ → ℕ → Bool
is_block_at cache i block = elim (get_elem? cache i) [ none ↦ false | some e ↦ e.0 == block ]

-- The binary search for a block among the first entries of the cache, which are sorted.
unfoldable pub find_entry : List Entry → ℕ → ℕ → Option ℕ
unfolding upper_bound is_block_at no_result
find_entry cache sorted block =
    let bound = upper_bound (block, no_result) (take sorted cache) in
    let entry =
      if not (bound == 0) && is_block_at cache (bound - 1) block then bound - 1 else bound in
    if not (entry == sorted) && is_block_at cache entry block then some entry else none

-- ExistingResult: its place in the cache and its answer.
abbrev pub Existing : Type 0
Existing = Option (ℕ × FlowDepResult)

unfoldable pub existing_at : List Entry → Option ℕ → Existing
existing_at cache none = none
existing_at cache (some i) = elim (get_elem? cache i) [ none ↦ none | some e ↦ some (i, e.1) ]

-- `ExistingResult->setResult(Dep)`, or a new entry.
unfoldable pub set_result : List Entry → ℕ → Existing → FlowDepResult → List Entry
set_result cache block none dep = cache ++ (block, dep) ∷ []
set_result cache block (some (i, _)) dep = set cache i (block, dep)

-- ScanPos, and the reverse map without the query under it.
unfoldable pub start_of : ℕ → PtrMap PtrSet → Existing → Outcome (ℕ × PtrMap PtrSet)
unfolding get_inst remove_from_reverse_map
start_of query reverse none = done (end_position, reverse)
start_of query reverse (some (_, r)) =
    if get_inst r == 0
    then done (end_position, reverse)
    else remove_from_reverse_map reverse (get_inst r) query >>= λ m. done (get_inst r, m)

unfoldable pub is_clean : Existing → Bool
unfolding is_dirty
is_clean none = false
is_clean (some (_, r)) = not (is_dirty r)

module _ (ir : Ir) (llvm : Llvm) (preds : ℕ → List ℕ) where
  -- `ScanPos == DirtyBB->begin()`
  unfoldable pub is_begin : ℕ → ℕ → Bool
  is_begin block pos = elim (ir.insts block) [ [] ↦ pos == end_position | i ∷ _ ↦ pos == i ]

  unfoldable pub block_dependency : ℕ → ℕ → ℕ → Outcome FlowDepResult
  unfolding is_begin at_start get_call_site_dependency_from
  block_dependency query block pos =
      if not (is_begin block pos)
      then get_call_site_dependency_from ir llvm query (llvm.only_reads_memory query) pos block
      else done (at_start ir llvm block)

  -- What a new answer of a block adds to the reverse map or to the blocks to visit.
  unfoldable pub associate : ℕ → ℕ → FlowDepResult → Walk → Walk
  unfolding is_non_local get_inst add_to_reverse_map push_all
  associate query block dep w =
      if not (is_non_local dep)
      then (if get_inst dep == 0
          then w
          else record w { reverse = add_to_reverse_map w.reverse (get_inst dep) query })
      else record w { dirty_blocks = push_all (preds block) w.dirty_blocks }

  -- A block that was not visited before, with its entry.
  unfoldable pub visit_block : ℕ → ℕ → Existing → Walk → Outcome Walk
  unfolding is_clean start_of block_dependency set_result associate
  visit_block query block existing w =
      if is_clean existing
      then done w
      else start_of query w.reverse existing >>= λ (pos, reverse).
          block_dependency query block pos >>= λ dep. done (
            associate query block dep
              (record w { cache = set_result w.cache block existing dep; reverse = reverse }))

  -- The body of the loop, for the last of DirtyBlocks.
  unfoldable pub walk_step : ℕ → ℕ → ℕ → Walk → Outcome Walk
  unfolding PtrSet.contains PtrSet.insert visit_block existing_at find_entry
  walk_step query sorted block w =
      if PtrSet.contains block w.visited
      then done w
      else visit_block query block (existing_at w.cache (find_entry w.cache sorted block))
          (record w { visited = PtrSet.insert block w.visited })

  unfoldable pub walk : ℕ → ℕ → ℕ → Walk → Outcome Walk
  unfolding walk_step
  walk zero query sorted w = out_of_fuel
  walk (suc fuel) query sorted w = elim w.dirty_blocks [
    | [] ↦ done w
    | block ∷ rest ↦
        walk_step query sorted block (record w { dirty_blocks = rest }) >>= walk fuel query sorted
  ]

  -- The blocks to start from and the cache, in order.
  unfoldable pub seeds : ℕ → List Entry → List ℕ × List Entry
  unfolding push_all dirty_of sort
  seeds query [] = (push_all (preds (ir.block_of query)) [], [])
  seeds query (e ∷ es) = (push_all (dirty_of (e ∷ es)) [], sort (e ∷ es))

  unfoldable pub has_entries : List Entry → Bool
  has_entries [] = false
  has_entries (_ ∷ _) = true

  -- The query after the assertion, with the entry of the call; the flag `dirty` is never cleared.
  unfoldable pub call_query : ℕ → Store → ℕ → CallInfo → Outcome (Store × List Entry)
  unfolding seeds has_entries
  call_query fuel s query info =
      if has_entries info.entries && not info.dirty
      then done (s, info.entries)
      else let (stack, cache) = seeds query info.entries in
        walk fuel query (length cache) (record {
          dirty_blocks = stack;
          visited = [];
          cache = cache;
          reverse = s.calls.reverse_non_local_deps;
        })
        >>= λ w. done (
          record s {
            calls = record {
              non_local_deps =
                  PtrMap.insert query (record info { entries = w.cache }) s.calls.non_local_deps;
              reverse_non_local_deps = w.reverse;
            };
          },
          w.cache,
        )

  -- getNonLocalCallDependency, with its assertion on the dependence within the block; `operator[]`
  -- adds an entry for the query.
  unfoldable pub get_non_local_call_dependency : ℕ → Store → ℕ → Outcome (Store × List Entry)
  unfolding PtrMap.get_or
  get_non_local_call_dependency fuel s query =
      get_dependency ir llvm s.local query >>= λ (local, r).
      if not (is_non_local r)
      then fault
      else let info = PtrMap.get_or query no_call_info s.calls.non_local_deps in
        call_query fuel
          (record {
            local = local;
            calls = record s.calls {
              non_local_deps = PtrMap.insert query info s.calls.non_local_deps;
            };
            pointers = s.pointers;
          })
          query info
