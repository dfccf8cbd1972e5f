-- ===== src/FlowDependence/Remove/Whole.antt =====
-- removeInstruction from end to end.
use dep_taint.Prelude.{ℕ, ◌≡◌, refl, Bool, true, false, none, some, arith, ◌==◌, ==_refl}
use dep_taint.Prelude.Outcome.{done}
use dep_taint.Prelude.PtrMap
use dep_taint.Ir.{Ir}
use dep_taint.FlowDepResult.{FlowDepResult, no_result}
use dep_taint.FlowDependence.{Llvm}
use dep_taint.FlowDependence.Cache.{LocalCache}
use dep_taint.FlowDependence.Cache.Synced.{IsSynced}
use dep_taint.FlowDependence.Forget.{PointerInfo, PointerCache, value_is_load}
use dep_taint.FlowDependence.Store.{CallInfo, no_call_info, no_pointer_info, CallCache, Store}
use dep_taint.FlowDependence.Remove.{
  insts_of, renew_local, renew_call, renew_pointer, new_dirty_val, remove_instruction, not_in_calls,
  key_pointer,
}
use dep_taint.FlowDependence.Remove.Linked.{AreApart}
use dep_taint.FlowDependence.Remove.Values.{answer_names, call_names, pointer_names}
use dep_taint.FlowDependence.Remove.Forgotten.{
  IsForgotten, drop_renew-IsForgotten, drop_call-lem, drop_local-lem, its_own, call-blank,
  answer-blank,
}
use dep_taint.FlowDependence.Remove.Pointers.{ArePlaced, keys_of, drop_pointer-lem, pointer-blank}
use dep_taint.FlowDependence.Remove.Stages.{
  IsCoherent, IsFollowed, synced→linked, linked→synced, new_dirty_val-lem, forbidden_local,
  renew_locals-lem, renew_calls-lem, renew_pointers-lem,
}

pub keys_of-key_pointer : (p q : ℕ) → keys_of p q ≡ false → (key_pointer q == p) ≡ false
unfolding keys_of value_is_load key_pointer
keys_of-key_pointer p q h = ground arith

not_in_calls-lem :
    (rem : ℕ) (c : CallCache)
    → PtrMap.lookup rem c.non_local_deps ≡ none
    → not_in_calls rem c ≡ done c
unfolding not_in_calls
not_in_calls-lem rem c absent = ground (arith, absent)

-- The three caches before and after, where `new` replaces the answers that named the instruction.
module _ (unknown : ℕ) (new : FlowDepResult) (rem : ℕ) where
  abbrev pub LocalForgotten : LocalCache → LocalCache → Type 0
  LocalForgotten c d =
      IsForgotten answer_names no_result (λ q r. (renew_local new q r).0) rem (its_own rem)
        c.local_deps d.local_deps c.reverse_local_deps d.reverse_local_deps

  abbrev pub CallsForgotten : CallCache → CallCache → Type 0
  CallsForgotten c d =
      IsForgotten call_names no_call_info (λ q v. (renew_call rem new q v).0) rem (its_own rem)
        c.non_local_deps d.non_local_deps c.reverse_non_local_deps d.reverse_non_local_deps

  abbrev pub PointersForgotten : PointerCache → PointerCache → Type 0
  PointersForgotten c d =
      IsForgotten pointer_names (no_pointer_info unknown) (λ q v. (renew_pointer rem new q v).0) rem
        (keys_of rem) c.non_local_pointer_deps d.non_local_pointer_deps c.reverse_non_local_ptr_deps
        d.reverse_non_local_ptr_deps

-- The run of removeInstruction, with the values that it makes.
pub remove_instruction-lem :
    (ir : Ir) (llvm : Llvm) (s : Store) (rem : ℕ)
    → IsCoherent llvm.unknown_size s
    → IsFollowed ir llvm rem s.local
    → ((info : CallInfo)
        → PtrMap.lookup rem s.calls.non_local_deps ≡ some info
        → AreApart (insts_of info.entries))
    → ((load : Bool) (info : PointerInfo)
        → PtrMap.lookup (value_is_load rem load) s.pointers.non_local_pointer_deps ≡ some info
        → (ir.is_pointer_type rem ≡ true) × ArePlaced ir llvm.unknown_size info.non_local_deps)
    → (t : Store) × (new : FlowDepResult) × (remove_instruction ir llvm s rem ≡ done t)
      × (new_dirty_val ir llvm rem ≡ done new)
      × IsSynced t.local
      × LocalForgotten llvm.unknown_size new rem s.local t.local
      × CallsForgotten llvm.unknown_size new rem s.calls t.calls
      × PointersForgotten llvm.unknown_size new rem s.pointers t.pointers
unfolding remove_instruction
remove_instruction-lem ir llvm s rem ok followed apart placed =
    let (calls, drops_calls, no_calls) =
      drop_call-lem rem s.calls ok.call_linked ok.call_sets apart in
    let (local, drops_local, no_local) =
      drop_local-lem rem s.local (synced→linked s.local ok.synced) ok.local_sets in
    let (pointers, drops_pointers, no_pointers) =
      drop_pointer-lem ir llvm.unknown_size s.pointers rem ok.pointer_linked ok.pointer_sets
        placed in
    let (new, dirties, differ, real_next) = new_dirty_val-lem ir llvm rem s.local followed in
    let (local', renews_local, new_local) =
      renew_locals-lem ir llvm rem new followed.real differ local no_local.linked no_local.sets
        (λ q h. ground (arith, no_local.fewer rem q, h)) real_next
        (λ last q. ground (arith, no_local.fewer rem q, followed.at_end last q)) in
    let (calls', renews_calls, new_calls) =
      renew_calls-lem ir llvm rem new followed.real differ calls no_calls.linked no_calls.sets
        (λ q h. ground (arith, no_calls.fewer rem q, h)) in
    let (pointers', renews_pointers, new_pointers) =
      renew_pointers-lem ir llvm rem new followed.real differ pointers no_pointers.linked
        no_pointers.sets
        (λ q h. keys_of-key_pointer rem q (ground (arith, no_pointers.fewer rem q, h))) in
    let calls_forgotten =
      drop_renew-IsForgotten call_names no_call_info call-blank (λ k. k == rem) (renew_call rem new)
        rem new.pointer (its_own rem) no_calls new_calls in
    let checks = not_in_calls-lem rem calls' (calls_forgotten.no_key rem (==_refl rem)) in
    (
      record { local = local'; calls = calls'; pointers = pointers' },
      new,
      rw
          (
            drops_calls, drops_local, drops_pointers, dirties, renews_local, renews_calls,
            renews_pointers, checks,
          )
          refl,
      dirties,
      linked→synced local' new_local.0,
      drop_renew-IsForgotten answer_names no_result answer-blank
          (forbidden_local ir llvm rem new followed.real differ) (renew_local new) rem new.pointer
          (its_own rem) no_local new_local,
      calls_forgotten,
      drop_renew-IsForgotten pointer_names (no_pointer_info llvm.unknown_size)
          (pointer-blank llvm.unknown_size) (λ k. key_pointer k == rem) (renew_pointer rem new) rem
          new.pointer (keys_of rem) no_pointers new_pointers,
    )
