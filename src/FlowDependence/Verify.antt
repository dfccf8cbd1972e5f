-- ===== src/FlowDependence/Verify.antt =====
-- verifyRemoved of src/FlowDependenceAnalysis.cpp: the assertions that an instruction is in none of
-- the maps.
pub mod Passes
use dep_taint.Prelude.{ℕ, Bool, true, false, ◌&&◌, not, List, [], ◌∷◌, ◌==◌}
use dep_taint.Prelude.PtrMap.{PtrMap}
use dep_taint.Prelude.PtrSet.{PtrSet}
use dep_taint.FlowDepResult.{FlowDepResult, get_inst}
use dep_taint.FlowDependence.Forget.{Entry, PointerInfo, value_is_load}
use dep_taint.FlowDependence.Store.{CallInfo, Store}
use dep_taint.FlowDependence.Remove.{key_pointer}

-- A loop of assertions.
unfoldable pub all {ℓ} : {A : Type ℓ} → (A → Bool) → List A → Bool
all p [] = true
all p (x ∷ xs) = p x && all p xs

module _ (d : ℕ) where
  unfoldable pub other_inst : FlowDepResult → Bool
  unfolding get_inst
  other_inst r = not (get_inst r == d)

  unfoldable pub other_entries : List Entry → Bool
  unfolding all other_inst
  other_entries = all (λ e. other_inst e.1)

  unfoldable pub not_in_local : PtrMap FlowDepResult → Bool
  unfolding all other_inst
  not_in_local = all (λ e. not (e.0 == d) && other_inst e.1)

  unfoldable pub not_in_pointers : PtrMap PointerInfo → Bool
  unfolding all other_entries key_pointer
  not_in_pointers = all (λ e. not (key_pointer e.0 == d) && other_entries e.1.non_local_deps)

  unfoldable pub not_in_non_local : PtrMap CallInfo → Bool
  unfolding all other_entries
  not_in_non_local = all (λ e. not (e.0 == d) && other_entries e.1.entries)

  -- The loop over a reverse map, and over each of its sets.
  unfoldable pub not_in_reverse : PtrMap PtrSet → Bool
  unfolding all
  not_in_reverse = all (λ e. not (e.0 == d) && all (λ k. not (k == d)) e.1)

  unfoldable pub not_in_reverse_pointers : PtrMap PtrSet → Bool
  unfolding all value_is_load
  not_in_reverse_pointers = all (λ e.
      not (e.0 == d)
      && all (λ k. not (k == value_is_load d false) && not (k == value_is_load d true)) e.1)

  -- verifyRemoved: whether no assertion fails.
  unfoldable pub verify_removed : Store → Bool
  unfolding not_in_local not_in_pointers not_in_non_local not_in_reverse not_in_reverse_pointers
  verify_removed s =
      not_in_local s.local.local_deps
      && not_in_pointers s.pointers.non_local_pointer_deps
      && not_in_non_local s.calls.non_local_deps
      && not_in_reverse s.local.reverse_local_deps
      && not_in_reverse s.calls.reverse_non_local_deps
      && not_in_reverse_pointers s.pointers.reverse_non_local_ptr_deps
