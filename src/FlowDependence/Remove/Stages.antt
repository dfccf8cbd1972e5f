-- ===== src/FlowDependence/Remove/Stages.antt =====
-- The stages of removeInstruction, with each of the three caches.
use dep_taint.Prelude.{
  ℕ, ◌≡◌, ◌≢◌, refl, sym, ap, ◌∙◌, inl, inr, Bool, true, false, ◌||◌, none, some, arith, ◌==◌,
  Bool-cases, Option-cases, if_false,
}
use dep_taint.Prelude.Outcome.{Outcome, done, ◌>>=◌}
use dep_taint.Prelude.PtrMap
use dep_taint.Prelude.PtrMap.{PtrMap}
use dep_taint.Prelude.PtrSet.{PtrSet}
use dep_taint.Ir.{Ir}
use dep_taint.FlowDepResult.{FlowDepResult, no_result, get_inst, get_dirty}
use dep_taint.FlowDependence.{Llvm}
use dep_taint.FlowDependence.Cache.{LocalCache}
use dep_taint.FlowDependence.Cache.Synced.{in_reverse, IsSynced}
use dep_taint.FlowDependence.Cache.Queries.{cached, points_to-cached}
use dep_taint.FlowDependence.Forget.{PointerCache}
use dep_taint.FlowDependence.Store.{no_call_info, no_pointer_info, CallCache, Store}
use dep_taint.FlowDependence.Remove.{
  renew_dependents, renew_local, renew_call, renew_pointer, renew_locals, renew_calls,
  renew_pointers, new_dirty_val, after, is_empty_set, key_pointer,
}
use dep_taint.FlowDependence.Remove.Linked.{IsLinked, in_reverse-none}
use dep_taint.FlowDependence.Remove.Renewed.{Renewed, renew_dependents-lem}
use dep_taint.FlowDependence.Remove.Values.{
  answer_names, call_names, pointer_names, renew_local-Renews, renew_call-Renews,
  renew_pointer-Renews,
}
use dep_taint.FlowDependence.Remove.Drops.{AreSets, no_key-no_entry}

-- The maps back agree with the caches, and their sets are such.
pub record IsCoherent (unknown : ℕ) (s : Store) : Type 0 where
  pub synced : IsSynced s.local
  pub call_linked :
      IsLinked call_names no_call_info s.calls.non_local_deps s.calls.reverse_non_local_deps
  pub pointer_linked :
      IsLinked pointer_names
        (no_pointer_info unknown)
        s.pointers.non_local_pointer_deps
        s.pointers.reverse_non_local_ptr_deps
  pub local_sets : AreSets s.local.reverse_local_deps
  pub call_sets : AreSets s.calls.reverse_non_local_deps
  pub pointer_sets : AreSets s.pointers.reverse_non_local_ptr_deps

pub synced→linked :
    (c : LocalCache)
    → IsSynced c
    → IsLinked answer_names no_result c.local_deps c.reverse_local_deps
unfolding cached
synced→linked c synced i q = synced i q ∙ points_to-cached c i q

pub linked→synced :
    (c : LocalCache)
    → IsLinked answer_names no_result c.local_deps c.reverse_local_deps
    → IsSynced c
unfolding cached
linked→synced c linked i q = linked i q ∙ sym (points_to-cached c i q)

some-ne-none {ℓ} : {A : Type ℓ} (a : A) → some a ≢ none
some-ne-none a h = cc

module _ (ir : Ir) (llvm : Llvm) (rem : ℕ) where
  -- What comes after the instruction in its block, if it does not end the block.
  pub record IsFollowed (c : LocalCache) : Type 0 where
    pub real : rem ≢ 0
    pub follower :
        llvm.is_terminator rem ≡ false
        → (n : ℕ) × (after rem (ir.insts (ir.block_of rem)) ≡ some n) × (n ≢ 0) × (rem ≢ n)
    -- Nothing in a block depends on the block's end.
    pub at_end :
        llvm.is_terminator rem ≡ true → (q : ℕ) → in_reverse c.reverse_local_deps rem q ≡ false

  pub new_dirty_val-lem :
      (c : LocalCache)
      → IsFollowed c
      → (new : FlowDepResult) × (new_dirty_val ir llvm rem ≡ done new)
        × (rem ≢ new.pointer)
        × (llvm.is_terminator rem ≡ false → new.pointer ≢ 0)
  unfolding new_dirty_val no_result get_dirty
  new_dirty_val-lem c f = elim (Bool-cases (llvm.is_terminator rem)) [
    | inl last ↦ rw last (no_result, refl, f.real, λ h. cc)
    | inr inner ↦
        let (n, follows, real_next, differ) = f.follower inner in
        rw (inner, follows) (get_dirty n, refl, differ, λ _. real_next)
  ]

  module _ (new : FlowDepResult) (real : rem ≢ 0) (differ : rem ≢ new.pointer) where
    abbrev pub forbidden_local : ℕ → Bool
    forbidden_local k = k == rem || new.pointer == 0

    pub renew_locals-lem :
        (c : LocalCache)
        → IsLinked answer_names no_result c.local_deps c.reverse_local_deps
        → AreSets c.reverse_local_deps
        → ((q : ℕ) → in_reverse c.reverse_local_deps rem q ≡ true → rem ≢ q)
        → (llvm.is_terminator rem ≡ false → new.pointer ≢ 0)
        → (llvm.is_terminator rem ≡ true → (q : ℕ) → in_reverse c.reverse_local_deps rem q ≡ false)
        → (d : LocalCache) × (renew_locals ir llvm rem new c
              (PtrMap.lookup rem c.reverse_local_deps)
            ≡ done d)
          × Renewed answer_names no_result forbidden_local
              (renew_local new)
              rem
              new.pointer
              c.local_deps
              d.local_deps
              c.reverse_local_deps
              d.reverse_local_deps
    unfolding renew_locals get_inst
    renew_locals-lem c linked sets apart real_next at_end =
        elim (Option-cases (PtrMap.lookup rem c.reverse_local_deps)) [
          | inl absent ↦
              let unheld = λ (q : ℕ). in_reverse-none c.reverse_local_deps rem q absent in
              (
                c,
                ap (renew_locals ir llvm rem new c) absent,
                (linked, λ q. sym (if_false _ _ _ (unheld q)), unheld, absent),
              )
          | inr (ks, at) ↦ elim (Bool-cases (llvm.is_terminator rem)) [
            | inl last ↦ absurd (
                some-ne-none ks
                  (sym at ∙ no_key-no_entry c.reverse_local_deps rem sets (at_end last)))
            | inr inner ↦
                let law = renew_local-Renews rem new real forbidden_local (real_next inner) in
                let (n, r, runs, renewed) =
                  renew_dependents-lem answer_names no_result forbidden_local (renew_local new) rem
                    new.pointer law differ c.local_deps c.reverse_local_deps linked
                    (λ s h. (sets rem s h).1) (λ k h. ground (arith, apart k h, real_next inner)) in
                let run =
                  renew_dependents forbidden_local (renew_local new) no_result rem c.local_deps
                    c.reverse_local_deps in
                let wrap : PtrMap FlowDepResult × PtrMap PtrSet → Outcome LocalCache =
                  λ e. done (record { local_deps = e.0; reverse_local_deps = e.1 }) in
                let guard : (is_empty_set ks || llvm.is_terminator rem) ≡ false =
                  ground (arith, (sets rem ks at).0, inner) in
                (
                  record { local_deps = n; reverse_local_deps = r },
                  ap (renew_locals ir llvm rem new c) at
                      ∙ if_false _ _ _ guard
                      ∙ ap (λ o. run o >>= wrap) (sym at)
                      ∙ ap (λ o. o >>= wrap) runs,
                  renewed,
                )
          ]
        ]

    pub renew_calls-lem :
        (c : CallCache)
        → IsLinked call_names no_call_info c.non_local_deps c.reverse_non_local_deps
        → AreSets c.reverse_non_local_deps
        → ((q : ℕ) → in_reverse c.reverse_non_local_deps rem q ≡ true → rem ≢ q)
        → (d : CallCache) × (renew_calls ir llvm rem new c ≡ done d)
          × Renewed call_names no_call_info
              (λ k. k == rem)
              (renew_call rem new)
              rem
              new.pointer
              c.non_local_deps
              d.non_local_deps
              c.reverse_non_local_deps
              d.reverse_non_local_deps
    unfolding renew_calls
    renew_calls-lem c linked sets apart =
        let (n, r, runs, renewed) =
          renew_dependents-lem call_names no_call_info (λ k. k == rem) (renew_call rem new) rem
            new.pointer (renew_call-Renews rem new real (λ k. k == rem)) differ c.non_local_deps
            c.reverse_non_local_deps linked (λ s at. (sets rem s at).1)
            (λ k h. ground (arith, apart k h)) in
        (record { non_local_deps = n; reverse_non_local_deps = r }, rw runs refl, renewed)

    pub renew_pointers-lem :
        (c : PointerCache)
        → IsLinked pointer_names
            (no_pointer_info llvm.unknown_size)
            c.non_local_pointer_deps
            c.reverse_non_local_ptr_deps
        → AreSets c.reverse_non_local_ptr_deps
        → ((q : ℕ)
            → in_reverse c.reverse_non_local_ptr_deps rem q ≡ true
            → (key_pointer q == rem) ≡ false)
        → (d : PointerCache) × (renew_pointers ir llvm rem new c ≡ done d)
          × Renewed pointer_names
              (no_pointer_info llvm.unknown_size)
              (λ k. key_pointer k == rem)
              (renew_pointer rem new)
              rem
              new.pointer
              c.non_local_pointer_deps
              d.non_local_pointer_deps
              c.reverse_non_local_ptr_deps
              d.reverse_non_local_ptr_deps
    unfolding renew_pointers
    renew_pointers-lem c linked sets apart =
        let (n, r, runs, renewed) =
          renew_dependents-lem pointer_names (no_pointer_info llvm.unknown_size)
            (λ k. key_pointer k == rem) (renew_pointer rem new) rem new.pointer
            (renew_pointer-Renews rem new real llvm.unknown_size (λ k. key_pointer k == rem)) differ
            c.non_local_pointer_deps c.reverse_non_local_ptr_deps linked (λ s at. (sets rem s at).1)
            apart in
        (
          record { non_local_pointer_deps = n; reverse_non_local_ptr_deps = r },
          rw runs refl,
          renewed,
        )
