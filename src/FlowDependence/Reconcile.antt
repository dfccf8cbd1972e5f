-- ===== src/FlowDependence/Reconcile.antt =====
-- The first part of getNonLocalPointerDepFromBB of src/FlowDependenceAnalysis.cpp, which makes the
-- size and the tag of a query agree with those that its cached entries are for. The call of the
-- function by itself is a call of this part, for the location that it is called with.
pub mod Tags
pub mod Agreed
use dep_taint.Prelude.{ℕ, zero, suc, Bool, Option, none, some, List, [], ◌==◌, ltb, if◌then◌else◌}
use dep_taint.Prelude.Outcome.{Outcome, done, out_of_fuel, ◌>>=◌}
use dep_taint.Prelude.PtrMap
use dep_taint.Prelude.PtrMap.{PtrMap}
use dep_taint.Prelude.PtrSet.{PtrSet}
use dep_taint.FlowDependence.{Location}
use dep_taint.FlowDependence.Forget.{PointerInfo, PointerCache, no_pair}
use dep_taint.FlowDependence.Remove.{insts_of, unlink}

-- An update of CacheInfo, which points to the value in the map, and of the map back.
unfoldable pub put_info : ℕ → PointerCache → PointerInfo → PtrMap PtrSet → PointerCache
put_info key c info reverse = record {
  non_local_pointer_deps = PtrMap.insert key info c.non_local_pointer_deps;
  reverse_non_local_ptr_deps = reverse;
}

-- InitialNLPI
unfoldable pub initial_info : Location → PointerInfo
initial_info loc = record { pair = no_pair; non_local_deps = []; size = loc.size; tag = loc.tag }

-- The cached entries are thrown out, for an entry of another size and tag.
unfoldable pub throw_out :
    ℕ → PointerInfo → ℕ → ℕ → PtrMap PtrSet → Outcome (PointerInfo × PtrMap PtrSet)
unfolding unlink insts_of
throw_out key info size tag reverse = unlink key (insts_of info.non_local_deps) reverse >>= λ m.
    done (record { pair = no_pair; non_local_deps = []; size = size; tag = tag }, m)

-- An inconsistent tag, if there is one in the cache.
unfoldable pub throw_tag : ℕ → PointerInfo → PtrMap PtrSet → Outcome (PointerInfo × PtrMap PtrSet)
unfolding throw_out
throw_tag key info reverse =
    if info.tag == 0 then done (info, reverse) else throw_out key info info.size 0 reverse

module _ (key : ℕ) (c : PointerCache) (loc : Location) where
  -- The comparison of the tags; `again` is the call with another location.
  unfoldable pub agree_tag :
      (PointerCache → Location → Outcome (PointerCache × Location))
      → PointerInfo
      → PtrMap PtrSet
      → Outcome (PointerCache × Location)
  unfolding throw_tag put_info
  agree_tag again info reverse =
      if info.tag == loc.tag
      then done (put_info key c info reverse, loc)
      else throw_tag key info reverse >>= λ r.
          if loc.tag == 0
          then done (put_info key c r.0 r.1, loc)
          else again (put_info key c r.0 r.1) (record loc { tag = 0 })

  unfoldable pub agree_size :
      (PointerCache → Location → Outcome (PointerCache × Location))
      → PointerInfo
      → Outcome (PointerCache × Location)
  unfolding throw_out agree_tag
  agree_size again info =
      if ltb info.size loc.size
      then (throw_out key info loc.size info.tag c.reverse_non_local_ptr_deps >>= λ r.
          agree_tag again r.0 r.1)
      else if ltb loc.size info.size
      then again c (record loc { size = info.size })
      else agree_tag again info c.reverse_non_local_ptr_deps

-- The cache and the location that the rest of the function goes on with.
unfoldable pub reconcile : ℕ → ℕ → PointerCache → Location → Outcome (PointerCache × Location)
unfolding agree_size put_info initial_info
reconcile zero key c loc = out_of_fuel
reconcile (suc fuel) key c loc = elim (PtrMap.lookup key c.non_local_pointer_deps) [
  | none ↦ done (put_info key c (initial_info loc) c.reverse_non_local_ptr_deps, loc)
  | some info ↦ agree_size key c loc (reconcile fuel key) info
]
