-- ===== src/FlowDependence/Forget.antt =====
-- RemoveCachedNonLocalPointerDependencies and invalidateCachedPointerInfo of
-- src/FlowDependenceAnalysis.cpp: the cached answers of queries for a pointer over several blocks.
pub mod Entries
use dep_taint.Prelude.{
  ℕ, ◌+◌, ◌*◌, Bool, true, false, not, Option, none, some, List, [], ◌∷◌, ◌==◌, if◌then◌else◌,
}
use dep_taint.Prelude.Outcome.{Outcome, done, fault, ◌>>=◌}
use dep_taint.Prelude.PtrMap
use dep_taint.Prelude.PtrMap.{PtrMap}
use dep_taint.Prelude.PtrSet.{PtrSet}
use dep_taint.Ir.{Ir}
use dep_taint.FlowDepResult.{FlowDepResult, get_inst}
use dep_taint.FlowDependence.Cache.{remove_from_reverse_map}

-- ValueIsLoadPair: LLVM keeps the flag in the lowest bit of the pointer.
unfoldable pub value_is_load : ℕ → Bool → ℕ
value_is_load p load = p * 2 + (if load then 1 else 0)

-- An entry of NonLocalDepInfo: a block and its answer.
abbrev pub Entry : Type 0
Entry = ℕ × FlowDepResult

-- BBSkipFirstBlockPair, and its default: a null pointer.
abbrev pub SkipPair : Type 0
SkipPair = ℕ × Bool

abbrev pub no_pair : SkipPair
no_pair = (0, false)

-- NonLocalPointerInfo
pub record PointerInfo : Type 0 where
  pub pair : SkipPair
  pub non_local_deps : List Entry
  pub size : ℕ
  pub tag : ℕ

-- NonLocalPointerDeps and ReverseNonLocalPtrDeps.
pub record PointerCache : Type 0 where
  pub non_local_pointer_deps : PtrMap PointerInfo
  pub reverse_non_local_ptr_deps : PtrMap PtrSet

module _ (ir : Ir) where
  -- The loop over the entries. `Target->getParent()` follows the pointer, which is undefined unless it
  -- is an instruction; then the assertion compares its block.
  unfoldable pub forget_entries : ℕ → List Entry → PtrMap PtrSet → Outcome (PtrMap PtrSet)
  unfolding get_inst remove_from_reverse_map
  forget_entries key [] m = done m
  forget_entries key (e ∷ es) m =
      let target = get_inst e.1 in
      if target == 0
      then forget_entries key es m
      else if not (ir.is_instruction target)
      then fault
      else if not (ir.block_of target == e.0)
      then fault
      else remove_from_reverse_map m target key >>= forget_entries key es

  unfoldable pub remove_found : PointerCache → ℕ → Option PointerInfo → Outcome PointerCache
  unfolding forget_entries
  remove_found c key none = done c
  remove_found c key (some info) =
      forget_entries key info.non_local_deps c.reverse_non_local_ptr_deps >>= λ m. done (record {
        non_local_pointer_deps = PtrMap.erase key c.non_local_pointer_deps;
        reverse_non_local_ptr_deps = m;
      })

  -- RemoveCachedNonLocalPointerDependencies
  unfoldable pub remove_cached : PointerCache → ℕ → Outcome PointerCache
  unfolding remove_found PtrMap.lookup
  remove_cached c key = remove_found c key (PtrMap.lookup key c.non_local_pointer_deps)

  unfoldable pub invalidate_cached_pointer_info : PointerCache → ℕ → Outcome PointerCache
  unfolding remove_cached value_is_load
  invalidate_cached_pointer_info c p =
      if not (ir.is_pointer_type p)
      then done c
      else remove_cached c (value_is_load p false) >>= λ d. remove_cached d (value_is_load p true)
