-- ===== src/FlowDependence/Verify/Passes.antt =====
-- What removeInstruction leaves passes verifyRemoved.
use dep_taint.Prelude.{
  ℕ, ◌≡◌, ◌≢◌, refl, sym, ap, ◌∙◌, inl, inr, Bool, true, false, ◌&&◌, not, none, some, List, [],
  ◌∷◌, arith, ◌==◌, ==_refl, Bool-cases, All, All-mono,
}
use dep_taint.Prelude.Outcome.{done}
use dep_taint.Prelude.PtrMap
use dep_taint.Prelude.PtrMap.{PtrMap}
use dep_taint.Prelude.PtrSet
use dep_taint.Prelude.PtrSet.{PtrSet}
use dep_taint.Ir.{Ir}
use dep_taint.FlowDepResult.{FlowDepResult, get_inst}
use dep_taint.FlowDependence.{Llvm}
use dep_taint.FlowDependence.Cache.Synced.{in_reverse}
use dep_taint.FlowDependence.Forget.{Entry, PointerInfo, value_is_load}
use dep_taint.FlowDependence.Store.{CallInfo, Store}
use dep_taint.FlowDependence.Remove.{insts_of, remove_instruction}
use dep_taint.FlowDependence.Remove.Linked.{AreApart, get_or-some}
use dep_taint.FlowDependence.Remove.Values.{names_in}
use dep_taint.FlowDependence.Remove.Forgotten.{IsForgotten}
use dep_taint.FlowDependence.Remove.Pointers.{ArePlaced, keys_of}
use dep_taint.FlowDependence.Remove.Stages.{IsCoherent, IsFollowed}
use dep_taint.FlowDependence.Remove.Whole.{
  LocalForgotten, CallsForgotten, PointersForgotten, keys_of-key_pointer, remove_instruction-lem,
}
use dep_taint.FlowDependence.Remove.StoreMaps.{
  LocalMaps, CallMaps, PointerMaps, AreMaps, remove_instruction-AreMaps,
}
use dep_taint.FlowDependence.Verify.{
  all, other_inst, other_entries, not_in_local, not_in_pointers, not_in_non_local, not_in_reverse,
  not_in_reverse_pointers, verify_removed,
}

some-ne-none {ℓ} : {A : Type ℓ} (a : A) → some a ≢ none
some-ne-none a h = cc

all_of_All {ℓ} :
    {A : Type ℓ} (p : A → Bool) (xs : List A) → All (λ x. p x ≡ true) xs → all p xs ≡ true
unfolding all
all_of_All p [] h = refl
all_of_All p (x ∷ xs) h = ground (arith, h.0, all_of_All p xs h.1)

not-contains-all :
    (q : ℕ) (s : PtrSet) → PtrSet.contains q s ≡ false → all (λ k. not (k == q)) s ≡ true
unfolding all PtrSet.contains
not-contains-all q [] h = refl
not-contains-all q (k ∷ s) h = ground (arith, h, not-contains-all q s)

all-and {ℓ} :
    {A : Type ℓ} (p q : A → Bool) (xs : List A)
    → all p xs ≡ true
    → all q xs ≡ true
    → all (λ x. p x && q x) xs ≡ true
unfolding all
all-and p q [] h k = refl
all-and p q (x ∷ xs) h k = ground (arith, h, k, all-and p q xs)

not-names_in : (d : ℕ) (es : List Entry) → d ≢ 0 → names_in d es ≡ false → other_entries d es ≡ true
unfolding names_in insts_of other_entries all other_inst get_inst
not-names_in d [] real h = refl
not-names_in d (e ∷ es) real h = ground (arith, h, real, not-names_in d es)

-- A table without a key and of which no value names the instruction.
module _ {V : Type 0} (names : ℕ → V → Bool) (default : V) (renew : ℕ → V → V) (rem : ℕ)
    (gone : ℕ → Bool) {m n : PtrMap V} {reverse r : PtrMap PtrSet}
    (f : IsForgotten names default renew rem gone m n reverse r) where
  entries-pass :
      (p : ℕ × V → Bool)
      → PtrMap.IsMap n
      → ((e : ℕ × V) → gone e.0 ≡ false → names rem e.1 ≡ false → p e ≡ true)
      → all p n ≡ true
  entries-pass p maps pass = all_of_All p n (
      All-mono _ _
        (λ e at.
          pass e
            (elim (Bool-cases (gone e.0)) [
              | inl lost ↦ absurd (some-ne-none e.1 (sym at ∙ f.no_key e.0 lost))
              | inr kept ↦ kept
            ])
            (sym (ap (names rem) (get_or-some n e.0 default e.1 at)) ∙ f.unnamed e.0))
        n (PtrMap.lookup-entries n maps))

  sets-pass :
      (p : ℕ × PtrSet → Bool)
      → PtrMap.IsMap r
      → ((e : ℕ × PtrSet)
          → (e.0 == rem) ≡ false
          → ((q : ℕ) → gone q ≡ true → PtrSet.contains q e.1 ≡ false)
          → p e ≡ true)
      → all p r ≡ true
  unfolding in_reverse
  sets-pass p maps pass = all_of_All p r (
      All-mono _ _
        (λ e at.
          pass e
            (elim (Bool-cases (e.0 == rem)) [
              | inl same ↦
                  let k : e.0 ≡ rem = ground (arith, same) in
                  absurd (some-ne-none e.1 (sym at ∙ ap (λ i. PtrMap.lookup i r) k ∙ f.no_set))
              | inr other ↦ other
            ])
            (λ q lost. ground (arith, at, f.no_member e.0 q lost)))
        r (PtrMap.lookup-entries r maps))

keys_of-own : (p : ℕ) (load : Bool) → keys_of p (value_is_load p load) ≡ true
unfolding keys_of value_is_load
keys_of-own p false = ground arith
keys_of-own p true = ground arith

module _ (llvm : Llvm) (new : FlowDepResult) (rem : ℕ) (real : rem ≢ 0) (s t : Store) where
  local-passes :
      LocalForgotten llvm.unknown_size new rem s.local t.local
      → LocalMaps t.local
      → (not_in_local rem t.local.local_deps ≡ true)
        × (not_in_reverse rem t.local.reverse_local_deps ≡ true)
  unfolding not_in_local other_inst not_in_reverse get_inst
  local-passes f maps = (
    entries-pass _ _ _ _ _ f _ maps.0 (λ e kept clear. ground (arith, kept, clear, real)),
    sets-pass _ _ _ _ _ f _ maps.1 (λ e other clear.
        ground (arith, other, not-contains-all rem e.1 (clear rem (==_refl rem)))),
  )

  calls-pass :
      CallsForgotten llvm.unknown_size new rem s.calls t.calls
      → CallMaps t.calls
      → (not_in_non_local rem t.calls.non_local_deps ≡ true)
        × (not_in_reverse rem t.calls.reverse_non_local_deps ≡ true)
  unfolding not_in_non_local not_in_reverse
  calls-pass f maps = (
    entries-pass _ _ _ _ _ f _ maps.0
        (λ e kept clear. ground (arith, kept, not-names_in rem e.1.entries real clear)),
    sets-pass _ _ _ _ _ f _ maps.1 (λ e other clear.
        ground (arith, other, not-contains-all rem e.1 (clear rem (==_refl rem)))),
  )

  pointers-pass :
      PointersForgotten llvm.unknown_size new rem s.pointers t.pointers
      → PointerMaps t.pointers
      → (not_in_pointers rem t.pointers.non_local_pointer_deps ≡ true)
        × (not_in_reverse_pointers rem t.pointers.reverse_non_local_ptr_deps ≡ true)
  unfolding not_in_pointers not_in_reverse_pointers
  pointers-pass f maps = (
    entries-pass _ _ _ _ _ f _ maps.0 (λ e kept clear.
        ground (
          arith,
          keys_of-key_pointer rem e.0 kept,
          not-names_in rem e.1.non_local_deps real clear,
        )),
    sets-pass _ _ _ _ _ f _ maps.1 (λ e other clear.
        let free = λ (load : Bool).
          let k = value_is_load rem load in
          not-contains-all k e.1 (clear k (keys_of-own rem load)) in
        ground (arith, other, all-and _ _ e.1 (free false) (free true))),
  )

-- Where the maps back agree with the caches and no map has a key twice, removeInstruction returns, no
-- map of what it returns has a key twice, and no assertion of verifyRemoved fails of it. This is for
-- an instruction that ends its block and on which no cached answer within the block depends, or that
-- has another after it, where the cached answers for it over several blocks name different
-- instructions, and those for it as a pointer, which it has only if it is one, stand in their
-- blocks.
pub removed_verifies :
    (ir : Ir) (llvm : Llvm) (s : Store) (rem : ℕ)
    → IsCoherent llvm.unknown_size s
    → IsFollowed ir llvm rem s.local
    → ((info : CallInfo)
        → PtrMap.lookup rem s.calls.non_local_deps ≡ some info
        → AreApart (insts_of info.entries))
    → ((load : Bool) (info : PointerInfo)
        → PtrMap.lookup (value_is_load rem load) s.pointers.non_local_pointer_deps ≡ some info
        → (ir.is_pointer_type rem ≡ true) × ArePlaced ir llvm.unknown_size info.non_local_deps)
    → AreMaps s
    → (t : Store) × (remove_instruction ir llvm s rem ≡ done t)
      × AreMaps t
      × (verify_removed rem t ≡ true)
unfolding verify_removed
removed_verifies ir llvm s rem ok followed apart placed maps =
    let (t, new, runs, _, _, local, calls, pointers) =
      remove_instruction-lem ir llvm s rem ok followed apart placed in
    let kept = remove_instruction-AreMaps ir llvm s t rem runs maps in
    let in_local = local-passes llvm new rem followed.real s t local kept.local in
    let in_calls = calls-pass llvm new rem followed.real s t calls kept.calls in
    let in_pointers = pointers-pass llvm new rem followed.real s t pointers kept.pointers in
    (
      t,
      runs,
      kept,
      rw (in_local.0, in_local.1, in_calls.0, in_calls.1, in_pointers.0, in_pointers.1) refl,
    )
