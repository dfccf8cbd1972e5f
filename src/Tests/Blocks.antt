-- ===== src/Tests/Blocks.antt =====
-- A query for the location that 301 writes, with a dirty answer for the block of 301.
use dep_taint.Prelude.{◌≡◌, refl, inl, inr, true, List, [], ◌∷◌, arith, ◌==◌, Bool-cases}
use dep_taint.Prelude.Outcome.{done}
use dep_taint.Prelude.PtrMap
use dep_taint.Prelude.PtrMap.{PtrMap}
use dep_taint.Prelude.PtrSet
use dep_taint.Prelude.PtrSet.{PtrSet}
use dep_taint.FlowDepResult.{DepType, get_inst}
use dep_taint.FlowDependence.Cache.Synced.{in_reverse}
use dep_taint.FlowDependence.{is_position, Location}
use dep_taint.FlowDependence.Forget.{Entry, PointerInfo, PointerCache, no_pair, value_is_load}
use dep_taint.FlowDependence.Remove.{insts_of}
use dep_taint.FlowDependence.Reconcile.{reconcile}
use dep_taint.FlowDependence.Reconcile.Tags.{AreUnder}
use dep_taint.FlowDependence.Reconcile.Agreed.{IsReconciled, reconcile_ends}
use dep_taint.FlowDependence.Order.{assert_sorted}
use dep_taint.FlowDependence.Block.{BlockInfo, get_non_local_info_for_block}
use dep_taint.FlowDependence.Block.Keeps.{IsTracked}
use dep_taint.FlowDependence.Block.Whole.{IsBlockInfo, block_info_keeps}
use dep_taint.Tests.Scans.{block_ir, block_llvm, whole_x, block-IsSized, block_next}

abbrev dirty_301 : List Entry
dirty_301 = (10, record { pointer = 301; tag = DepType.invalid }) ∷ []

abbrev under_301 : PtrMap PtrSet
under_301 = (301, 203 ∷ []) ∷ []

-- The scan goes on from 301 and finds 201, under which the map back has the query now.
block_scans :
    get_non_local_info_for_block block_ir block_llvm whole_x true 10 dirty_301 1 under_301
    ≡ done (record {
      answer = record { pointer = 201; tag = DepType.def };
      cache = (10, record { pointer = 201; tag = DepType.def }) ∷ [];
      reverse = (201, 203 ∷ []) ∷ [];
    })
unfolding get_non_local_info_for_block block_llvm PtrMap.insert PtrSet.erase PtrMap.erase
    PtrSet.insert
block_scans = refl

dirty_301-IsTracked : IsTracked block_ir (value_is_load whole_x.ptr true) dirty_301 under_301
unfolding PtrMap.lookup PtrSet.contains in_reverse value_is_load is_position
dirty_301-IsTracked = record {
  single = (refl, tt);
  home = λ b r at named inst. elim (Bool-cases (b == 10)) [
    | inl here ↦
        let e : 10 ≡ b = ground (arith, here) in
        let p : 301 ≡ r.pointer = ground (arith, at, here) in (e, rw (← e, ← p) refl)
    | inr other ↦ absurd (ground (arith, at, other))
  ];
  linked = λ i inst. ground arith;
}

block_info_keeps_example :
    (t : BlockInfo) × (get_non_local_info_for_block block_ir block_llvm whole_x true 10 dirty_301 1
        under_301
      ≡ done t)
    × IsBlockInfo block_ir block_llvm whole_x true 10 dirty_301 under_301 t
unfolding assert_sorted
block_info_keeps_example =
    block_info_keeps block_ir block_llvm whole_x true 10 dirty_301 1 under_301 block_next
      (block-IsSized 10) (refl, (refl, (refl, (refl, (refl, (refl, tt)))))) refl refl
      dirty_301-IsTracked

-- A query of 8 bytes with the tag 7, of which the entries of one of 4 bytes with the tag 5 are cached.
abbrev wider : Location
wider = record { ptr = 101; size = 8; tag = 7 }

abbrev narrow : PointerInfo
narrow = record {
  pair = no_pair;
  non_local_deps = (10, record { pointer = 301; tag = DepType.def }) ∷ [];
  size = 4;
  tag = 5;
}

abbrev of_narrow : PointerCache
of_narrow = record {
  non_local_pointer_deps = (203, narrow) ∷ [];
  reverse_non_local_ptr_deps = under_301;
}

narrow-AreUnder : AreUnder 203 narrow under_301
unfolding insts_of get_inst in_reverse PtrMap.lookup PtrSet.contains
narrow-AreUnder = (λ i h. ground arith, ((λ real. refl), tt))

reconcile_ends_example :
    (t : PointerCache) × (l : Location) × (reconcile 3 203 of_narrow wider ≡ done (t, l))
    × IsReconciled 203 of_narrow narrow under_301 wider t l
unfolding PtrMap.lookup
reconcile_ends_example = reconcile_ends 203 of_narrow narrow wider refl narrow-AreUnder
