-- ===== src/FlowDependence/Remove/Dirty.antt =====
-- What becomes of the answers that named the instruction that removeInstruction removes.
use mathlib.Core.List.{Perm}
use dep_taint.Prelude.{
  ℕ, ◌≡◌, ◌≢◌, refl, sym, ap, ◌∙◌, subst, ◌⊎◌, inl, inr, Bool, true, false, some, List, [], ◌∷◌,
  ◌++◌, any, arith, ◌==◌, if◌then◌else◌, Bool-cases, Option-cases, if_true,
}
use dep_taint.Prelude.Outcome.{done, fault}
use dep_taint.Prelude.PtrMap
use dep_taint.Prelude.PtrMap.{PtrMap}
use dep_taint.Prelude.PtrSet.{PtrSet}
use dep_taint.Ir.{Ir}
use dep_taint.FlowDepResult.{FlowDepResult, no_result, get_dirty, is_dirty}
use dep_taint.FlowDependence.{Llvm}
use dep_taint.FlowDependence.Cache.{LocalCache}
use dep_taint.FlowDependence.Cache.Synced.{IsSynced, in_reverse}
use dep_taint.FlowDependence.Forget.{PointerInfo, PointerCache, value_is_load}
use dep_taint.FlowDependence.Order.{assert_sorted}
use dep_taint.FlowDependence.Order.Sorted.{sort-perm, sort-assert_sorted}
use dep_taint.FlowDependence.Store.{CallInfo, no_call_info, no_pointer_info, CallCache, Store}
use dep_taint.FlowDependence.Remove.{
  insts_of, renew_call, renew_pointer, after, new_dirty_val, remove_instruction,
}
use dep_taint.FlowDependence.Remove.Linked.{AreApart}
use dep_taint.FlowDependence.Remove.Values.{answer_names, call_names, pointer_names}
use dep_taint.FlowDependence.Remove.Forgotten.{IsForgotten, its_own}
use dep_taint.FlowDependence.Remove.Pointers.{ArePlaced, keys_of}
use dep_taint.FlowDependence.Remove.Stages.{IsCoherent, IsFollowed}
use dep_taint.FlowDependence.Remove.Whole.{remove_instruction-lem}
use dep_taint.FlowDependence.Remove.Dirtied.{
  dirty_from, dirtied, dirty_call, dirty_pointer, call-same, pointer-same, local-is,
}

done-same {ℓ} : {A : Type ℓ} (a b : A) → done a ≡ done b → a ≡ b
done-same a b h = cc

some-same {ℓ} : {A : Type ℓ} (a b : A) → some a ≡ some b → a ≡ b
some-same a b h = cc

fault-ne-done {ℓ} : {A : Type ℓ} (a : A) → fault ≢ done a
fault-ne-done a h = cc

-- The same values by another name.
IsForgotten-same :
    {V : Type 0} (names : ℕ → V → Bool) (default : V) (f g : ℕ → V → V) (rem : ℕ) (gone : ℕ → Bool)
    (m n : PtrMap V) (reverse r : PtrMap PtrSet)
    → ((q : ℕ) (v : V) → f q v ≡ g q v)
    → IsForgotten names default f rem gone m n reverse r
    → IsForgotten names default g rem gone m n reverse r
IsForgotten-same names default f g rem gone m n reverse r same k = record {
  linked = k.linked;
  unnamed = k.unnamed;
  no_set = k.no_set;
  no_key = k.no_key;
  no_member = k.no_member;
  others = λ q kept.
      k.others q kept
      ∙ ap (λ v. if in_reverse reverse rem q then some v else PtrMap.lookup q m)
          (same q (PtrMap.get_or q default m));
}

module _ (ir : Ir) (llvm : Llvm) (rem : ℕ) where
  -- The instruction after the removed one in its block, or 0 for one that ends its block.
  abbrev pub IsNext : ℕ → Type 0
  IsNext n =
      (llvm.is_terminator rem ≡ true) × (n ≡ 0)
      ⊎ (llvm.is_terminator rem ≡ false)
        × (before : List ℕ) × (rest : List ℕ) × (ir.insts (ir.block_of rem)
            ≡ before ++ rem ∷ n ∷ rest)
        × (any (λ i. i == rem) before ≡ false)

  after-split :
      (is : List ℕ) (n : ℕ)
      → after rem is ≡ some n
      → (before : List ℕ) × (rest : List ℕ) × (is ≡ before ++ rem ∷ n ∷ rest)
        × (any (λ i. i == rem) before ≡ false)
  unfolding after
  after-split [] n h = cc
  after-split (j ∷ []) n h = cc
  after-split (j ∷ k ∷ is) n h = elim (Bool-cases (j == rem)) [
    | inl here ↦
        let j_is : j ≡ rem = ground (arith, here) in
        let k_is : k ≡ n = ground (arith, h, here) in ([], is, rw (j_is, k_is) refl, refl)
    | inr later ↦
        let (before, rest, split, free) = after-split (k ∷ is) n (ground (arith, h, later)) in
        (j ∷ before, rest, ap (λ l. j ∷ l) split, ground (arith, later, free))
  ]

  new_dirty_val-IsNext :
      (new : FlowDepResult)
      → new_dirty_val ir llvm rem ≡ done new
      → IsNext new.pointer × (new ≡ dirty_from new.pointer)
  unfolding new_dirty_val get_dirty no_result
  new_dirty_val-IsNext new h =
      let Good = λ (r : FlowDepResult). IsNext r.pointer × (r ≡ dirty_from r.pointer) in
      elim (Bool-cases (llvm.is_terminator rem)) [
        | inl last ↦
            let e : dirty_from 0 ≡ new = done-same _ _ (sym (if_true _ _ _ last) ∙ h) in
            subst Good e (inl (last, refl), refl)
        | inr inner ↦ elim (Option-cases (after rem (ir.insts (ir.block_of rem)))) [
          | inl absent ↦ absurd (fault-ne-done new (rw (inner, absent) at h))
          | inr (n, at) ↦
              let e : dirty_from n ≡ new = done-same _ _ (rw (inner, at) at h) in
              let (before, rest, split, free) = after-split (ir.insts (ir.block_of rem)) n at in
              subst Good e (inr (inner, before, rest, split, free), refl)
        ]
      ]

-- The caches before and after: an answer that named the instruction is dirty, and the search for
-- a new one starts from `n`.
module _ (unknown n rem : ℕ) where
  abbrev pub LocalForgotten : LocalCache → LocalCache → Type 0
  LocalForgotten c d =
      IsForgotten answer_names no_result (λ q r. dirty_from n) rem (its_own rem) c.local_deps
        d.local_deps c.reverse_local_deps d.reverse_local_deps

  abbrev pub CallsForgotten : CallCache → CallCache → Type 0
  CallsForgotten c d =
      IsForgotten call_names no_call_info (λ q v. dirty_call rem n v) rem (its_own rem)
        c.non_local_deps d.non_local_deps c.reverse_non_local_deps d.reverse_non_local_deps

  abbrev pub PointersForgotten : PointerCache → PointerCache → Type 0
  PointersForgotten c d =
      IsForgotten pointer_names (no_pointer_info unknown) (λ q v. dirty_pointer rem n v) rem
        (keys_of rem) c.non_local_pointer_deps d.non_local_pointer_deps c.reverse_non_local_ptr_deps
        d.reverse_non_local_ptr_deps

  -- The entries of a pointer of which one named the instruction are in order, and the same but for
  -- the dirty ones.
  abbrev pub PointersSorted : PointerCache → PointerCache → Type 0
  PointersSorted c d =
      (q : ℕ) (info : PointerInfo)
      → keys_of rem q ≡ false
      → in_reverse c.reverse_non_local_ptr_deps rem q ≡ true
      → PtrMap.lookup q d.non_local_pointer_deps ≡ some info
      → (assert_sorted info.non_local_deps ≡ true)
        × Perm info.non_local_deps (
            dirtied rem n
              (PtrMap.get_or q (no_pointer_info unknown) c.non_local_pointer_deps).non_local_deps)

  forgotten-PointersSorted : (c d : PointerCache) → PointersForgotten c d → PointersSorted c d
  forgotten-PointersSorted c d k q info kept named found =
      let old = PtrMap.get_or q (no_pointer_info unknown) c.non_local_pointer_deps in
      let new : PtrMap.lookup q d.non_local_pointer_deps ≡ some (dirty_pointer rem n old) =
        k.others q kept ∙ if_true _ _ _ named in
      let same : dirty_pointer rem n old ≡ info = some-same _ _ (sym new ∙ found) in
      subst
        (λ i.
          (assert_sorted i.non_local_deps ≡ true)
          × Perm i.non_local_deps (dirtied rem n old.non_local_deps))
        same
        (
          sort-assert_sorted (dirtied rem n old.non_local_deps),
          sort-perm (dirtied rem n old.non_local_deps),
        )

-- Where the maps back agree with the caches, removeInstruction returns: no assertion fails. Each
-- cache is then without an answer for the instruction, no answer names it, and its map back agrees
-- with it again and has the instruction neither as a key nor in a set. An answer of another
-- instruction, call or pointer is what it was unless it named the instruction. Then what it named
-- is dirty, with the next instruction of the block, if there is one, as the place to start from; the
-- entries of a call are marked dirty, too, and those of a pointer are put in order, none of them lost,
-- and belong to no block. This is for an instruction that ends its block and on which no cached answer within the
-- block depends, or that has another after it, where the cached answers for it over several blocks
-- name different instructions, and those for it as a pointer, which it has only if it is one,
-- stand in their blocks.
pub remove_instruction_forgets :
    (ir : Ir) (llvm : Llvm) (s : Store) (rem : ℕ)
    → IsCoherent llvm.unknown_size s
    → IsFollowed ir llvm rem s.local
    → ((info : CallInfo)
        → PtrMap.lookup rem s.calls.non_local_deps ≡ some info
        → AreApart (insts_of info.entries))
    → ((load : Bool) (info : PointerInfo)
        → PtrMap.lookup (value_is_load rem load) s.pointers.non_local_pointer_deps ≡ some info
        → (ir.is_pointer_type rem ≡ true) × ArePlaced ir llvm.unknown_size info.non_local_deps)
    → (t : Store) × (n : ℕ) × (remove_instruction ir llvm s rem ≡ done t)
      × IsNext ir llvm rem n
      × (is_dirty (dirty_from n) ≡ true)
      × IsSynced t.local
      × LocalForgotten llvm.unknown_size n rem s.local t.local
      × CallsForgotten llvm.unknown_size n rem s.calls t.calls
      × PointersForgotten llvm.unknown_size n rem s.pointers t.pointers
      × PointersSorted llvm.unknown_size n rem s.pointers t.pointers
unfolding is_dirty
remove_instruction_forgets ir llvm s rem ok followed apart placed =
    let (t, new, runs, dirties, synced, local, calls, pointers) =
      remove_instruction-lem ir llvm s rem ok followed apart placed in
    let (next, is_new) = new_dirty_val-IsNext ir llvm rem new dirties in
    let n = new.pointer in
    let pointers' : PointersForgotten llvm.unknown_size n rem s.pointers t.pointers =
      IsForgotten-same _ _ _ _ rem _ _ _ _ _
        (λ q v. ap (λ d. (renew_pointer rem d q v).0) is_new ∙ pointer-same rem n q v) pointers in
    (
      t,
      n,
      runs,
      next,
      refl,
      synced,
      IsForgotten-same _ _ _ _ rem _ _ _ _ _ (λ q r. local-is q r new ∙ is_new) local,
      IsForgotten-same _ _ _ _ rem _ _ _ _ _
          (λ q v. ap (λ d. (renew_call rem d q v).0) is_new ∙ call-same rem n q v) calls,
      pointers',
      forgotten-PointersSorted llvm.unknown_size n rem s.pointers t.pointers pointers',
    )
