-- ===== src/Tests/Removes.antt =====
-- The store 301 is removed, on which an answer of each cache depends.
use dep_taint.Prelude.{ℕ, ◌≡◌, ◌≢◌, refl, subst, Bool, true, false, some, List, [], ◌∷◌, arith}
use mathlib.Core.List.{Perm}
use dep_taint.Prelude.Outcome.{done}
use dep_taint.Prelude.PtrMap
use dep_taint.Prelude.PtrMap.{PtrMap}
use dep_taint.Prelude.PtrSet
use dep_taint.Prelude.PtrSet.{PtrSet}
use dep_taint.FlowDepResult.{FlowDepResult, DepType, is_dirty, no_result, get_inst}
use dep_taint.FlowDependence.Cache.Synced.{in_reverse, points_to, IsSynced}
use dep_taint.FlowDependence.Forget.{Entry, PointerInfo, no_pair, value_is_load}
use dep_taint.FlowDependence.Order.{
  before, assert_sorted, upper_bound, insert_at, pop_back, insert_last, settle_last,
  insert_before_last, settle_two, sort, sort_non_local_dep_info_cache,
}
use dep_taint.FlowDependence.Order.Sorted.{sort_cache_sorts}
use dep_taint.FlowDependence.Store.{Store}
use dep_taint.FlowDependence.Remove.{remove_instruction, after, insts_of, is_empty_set}
use dep_taint.FlowDependence.Remove.Values.{names_in}
use dep_taint.FlowDependence.Remove.Drops.{AreSets, IsUsedSet}
use dep_taint.FlowDependence.Remove.Stages.{IsCoherent, IsFollowed}
use dep_taint.FlowDependence.Remove.Dirtied.{dirty_from}
use dep_taint.FlowDependence.Remove.Dirty.{
  IsNext, LocalForgotten, CallsForgotten, PointersForgotten, PointersSorted,
  remove_instruction_forgets,
}
use dep_taint.FlowDependence.Remove.StoreMaps.{AreMaps}
use dep_taint.FlowDependence.Verify.{verify_removed}
use dep_taint.FlowDependence.Verify.Passes.{removed_verifies}
use dep_taint.Tests.Forgets.{high}
use dep_taint.Tests.Scans.{block_llvm}

abbrev of_301 : FlowDepResult
of_301 = record { pointer = 301; tag = DepType.def }

abbrev entry_301 : List Entry
entry_301 = (30, of_301) ∷ []

abbrev full : Store
full = record {
  local = record { local_deps = (302, of_301) ∷ []; reverse_local_deps = (301, 302 ∷ []) ∷ [] };
  calls = record {
    non_local_deps = (401, record { entries = entry_301; dirty = false }) ∷ [];
    reverse_non_local_deps = (301, 401 ∷ []) ∷ [];
  };
  pointers = record {
    non_local_pointer_deps =
        (203, record { pair = no_pair; non_local_deps = entry_301; size = 4; tag = 0 }) ∷ [];
    reverse_non_local_ptr_deps = (301, 203 ∷ []) ∷ [];
  };
}

one_set : (k : ℕ) → AreSets ((301, k ∷ []) ∷ [])
unfolding PtrMap.lookup is_empty_set PtrSet.contains
one_set k i s at = let e : k ∷ [] ≡ s = ground (arith, at) in subst IsUsedSet e (refl, (refl, tt))

full-IsCoherent : IsCoherent block_llvm.unknown_size full
unfolding PtrMap.lookup PtrMap.get_or PtrSet.contains in_reverse points_to names_in insts_of
    get_inst no_result
full-IsCoherent = record {
  synced = λ i q. ground arith;
  call_linked = λ i q. ground arith;
  pointer_linked = λ i q. ground arith;
  local_sets = one_set 302;
  call_sets = one_set 401;
  pointer_sets = one_set 203;
}

full-IsFollowed : IsFollowed high block_llvm 301 full.local
unfolding after block_llvm
full-IsFollowed = record {
  real = omega arith;
  follower = λ inner. (302, refl, omega arith, omega arith);
  at_end = λ last. cc;
}

no_answer :
    (load : Bool) (info : PointerInfo)
    → PtrMap.lookup (value_is_load 301 load) full.pointers.non_local_pointer_deps ≢ some info
unfolding PtrMap.lookup value_is_load
no_answer false info at = cc
no_answer true info at = cc

remove_instruction_forgets_example :
    (t : Store) × (n : ℕ) × (remove_instruction high block_llvm full 301 ≡ done t)
    × IsNext high block_llvm 301 n
    × (is_dirty (dirty_from n) ≡ true)
    × IsSynced t.local
    × LocalForgotten block_llvm.unknown_size n 301 full.local t.local
    × CallsForgotten block_llvm.unknown_size n 301 full.calls t.calls
    × PointersForgotten block_llvm.unknown_size n 301 full.pointers t.pointers
    × PointersSorted block_llvm.unknown_size n 301 full.pointers t.pointers
unfolding PtrMap.lookup value_is_load
remove_instruction_forgets_example =
    remove_instruction_forgets high block_llvm full 301 full-IsCoherent full-IsFollowed
      (λ info at. cc) (λ load info at. absurd (no_answer load info at))

full-AreMaps : AreMaps full
unfolding PtrMap.lookup
full-AreMaps = record {
  local = ((tt, tt), (tt, tt));
  calls = ((tt, tt), (tt, tt));
  pointers = ((tt, tt), (tt, tt));
}

removed_verifies_example :
    (t : Store) × (remove_instruction high block_llvm full 301 ≡ done t)
    × AreMaps t
    × (verify_removed 301 t ≡ true)
unfolding PtrMap.lookup value_is_load
removed_verifies_example =
    removed_verifies high block_llvm full 301 full-IsCoherent full-IsFollowed (λ info at. cc)
      (λ load info at. absurd (no_answer load info at)) full-AreMaps

-- Two sorted entries and two new ones.
abbrev at_block : ℕ → Entry
at_block b = (b, of_301)

abbrev grown : List Entry
grown = at_block 20 ∷ at_block 40 ∷ at_block 30 ∷ at_block 10 ∷ []

grown_sorted :
    sort_non_local_dep_info_cache grown 2
    ≡ at_block 10 ∷ at_block 20 ∷ at_block 30 ∷ at_block 40 ∷ []
unfolding sort_non_local_dep_info_cache sort settle_two settle_last insert_last insert_before_last
    insert_at upper_bound before pop_back
grown_sorted = refl

sort_cache_sorts_example :
    (assert_sorted (sort_non_local_dep_info_cache grown 2) ≡ true)
    × Perm (sort_non_local_dep_info_cache grown 2) grown
unfolding assert_sorted
sort_cache_sorts_example = sort_cache_sorts grown 2 (omega arith) (omega arith) refl
