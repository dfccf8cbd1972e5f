-- ===== src/Tests/Forgets.antt =====
-- The pointer 101 with cached answers: the store 301 in block 30, and none in block 20.
use mathlib.Core.List.Memᴰ
use dep_taint.Prelude.{
  ℕ, ◌≡◌, ◌≢◌, refl, inl, inr, ◌&&◌, not, none, List, [], ◌∷◌, arith, ◌==◌, any,
}
use dep_taint.Prelude.Outcome.{done, fault}
use dep_taint.Prelude.PtrMap
use dep_taint.Prelude.PtrSet
use dep_taint.Ir.{Ir}
use dep_taint.FlowDepResult.{
  DepType, get_non_local, get_inst, is_non_local, is_non_func_local, is_unknown,
}
use dep_taint.FlowDependence.Cache.Synced.{in_reverse}
use dep_taint.FlowDependence.Forget.{Entry, PointerInfo, no_pair, PointerCache, remove_cached}
use dep_taint.FlowDependence.Forget.Entries.{
  names_target, remove_cached_faults, remove_cached_forgets,
}
use dep_taint.Tests.Sample.{sample}

-- No instruction at a small address.
abbrev pub high : Ir
high = record sample { is_instruction = λ v. v == 301 }

abbrev answers : List Entry
answers =
    (30, record { pointer = 301; tag = DepType.def })
    ∷ (20, record { pointer = 0; tag = DepType.invalid })
    ∷ []

abbrev for_load_info : PointerInfo
for_load_info = record { pair = no_pair; non_local_deps = answers; size = 4; tag = 0 }

abbrev for_load : PointerCache
for_load = record {
  non_local_pointer_deps = (203, for_load_info) ∷ [];
  reverse_non_local_ptr_deps = (301, 203 ∷ []) ∷ [];
}

remove_cached_forgets_example :
    (d : PointerCache) × (remove_cached high for_load 203 ≡ done d)
    × (PtrMap.lookup 203 d.non_local_pointer_deps ≡ none)
    × ((k : ℕ)
        → 203 ≢ k
        → PtrMap.lookup k d.non_local_pointer_deps
          ≡ PtrMap.lookup k for_load.non_local_pointer_deps)
    × ((i k : ℕ)
        → in_reverse d.reverse_non_local_ptr_deps i k ≡ (
            not (203 == k && any (names_target high i) answers)
            && in_reverse for_load.reverse_non_local_ptr_deps i k))
unfolding PtrMap.lookup PtrSet.contains in_reverse get_inst
remove_cached_forgets_example =
    remove_cached_forgets high for_load 203 for_load_info refl
      (inr (omega arith, refl, refl, refl), (inl refl, tt)) (((λ h. omega arith), tt), (tt, tt))

-- The pointer with an answer NonLocal.
abbrev non_local_info : PointerInfo
non_local_info = record for_load_info { non_local_deps = (20, get_non_local) ∷ [] }

abbrev with_non_local : PointerCache
with_non_local = record for_load { non_local_pointer_deps = (203, non_local_info) ∷ [] }

remove_cached_faults_example : remove_cached high with_non_local 203 ≡ fault
unfolding PtrMap.lookup get_non_local is_non_local is_non_func_local is_unknown
remove_cached_faults_example =
    remove_cached_faults high with_non_local 203 non_local_info (20, get_non_local) refl
      (Memᴰ.head refl) refl refl refl refl
