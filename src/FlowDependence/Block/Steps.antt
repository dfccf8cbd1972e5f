-- ===== src/FlowDependence/Block/Steps.antt =====
-- The steps of GetNonLocalInfoForBlock: where the scan starts, the scan, the map back.
use mathlib.Core.List.{Memᴰ}
use mathlib.Core.List.Memᴰ
use dep_taint.Prelude.{
  any, All-intro, ℕ, ◌≡◌, ◌≢◌, refl, sym, subst, inl, inr, Bool, true, false, ◌&&◌, ◌||◌, not,
  Option, none, some, List, [], ◌∷◌, arith, ◌==◌, Bool-cases, All, All-mono, All-both, All-before,
  All-keep_if,
}
use dep_taint.Prelude.Outcome.{done}
use dep_taint.Prelude.PtrMap.{PtrMap}
use dep_taint.Prelude.PtrSet.{PtrSet}
use dep_taint.Ir.{Ir}
use dep_taint.FlowDepResult.{
  FlowDepResult, DepType, is_other, is_dirty, is_def, is_clobber, get_inst, get_unknown,
  get_non_local, get_non_func_local,
}
use dep_taint.FlowDependence.{Location, Llvm, is_position}
use dep_taint.FlowDependence.Calls.{at_start}
use dep_taint.FlowDependence.Widen.Bounds.{IsNextPower}
use dep_taint.FlowDependence.Pointers.{get_pointer_dependency_from}
use dep_taint.FlowDependence.Scan.Steps.{IsSized}
use dep_taint.FlowDependence.Scan.Safety.{pointer_dependency_safe}
use dep_taint.FlowDependence.Cache.{add_to_reverse_map}
use dep_taint.FlowDependence.Cache.Synced.{in_reverse, in_reverse-add, remove-lem}
use dep_taint.FlowDependence.Cache.Total.{All-backwards, at_start-clean}
use dep_taint.FlowDependence.Forget.{Entry}
use dep_taint.FlowDependence.Across.{Existing, start_of}
use dep_taint.FlowDependence.Block.{remember}
use dep_taint.FlowDependence.Block.Lookup.{answer_of}

real_tags :
    (p : ℕ) (t : DepType)
    → is_dirty (record { pointer = p; tag = t }) ≡ false
    → (is_def (record { pointer = p; tag = t }) || is_clobber (record { pointer = p; tag = t }))
      ≡ not (is_other t)
unfolding is_dirty is_def is_clobber
real_tags p DepType.invalid h = cc
real_tags p DepType.clobber h = refl
real_tags p DepType.def h = refl
real_tags p DepType.other h = refl

names_inst-real :
    (r : FlowDepResult) → is_dirty r ≡ false → (is_def r || is_clobber r) ≡ not (is_other r.tag)
names_inst-real r h = real_tags r.pointer r.tag h

pub dirty_tags :
    (p : ℕ) (t : DepType) → is_dirty (record { pointer = p; tag = t }) ≡ true → is_other t ≡ false
unfolding is_dirty
dirty_tags p DepType.invalid h = refl
dirty_tags p DepType.clobber h = refl
dirty_tags p DepType.def h = refl
dirty_tags p DepType.other h = cc

at_start-other_of :
    (ir : Ir) (llvm : Llvm) (block : ℕ) (bs : List ℕ)
    → ir.blocks (ir.function_of block) ≡ bs
    → is_other (at_start ir llvm block).tag ≡ true
unfolding at_start get_non_local get_non_func_local
at_start-other_of ir llvm block [] e = rw (e, at_start) refl
at_start-other_of ir llvm block (entry ∷ bs) e =
    rw (e, at_start)
      (elim (Bool-cases (block == entry)) [ inl first ↦ rw first refl | inr other ↦ rw other refl ])

at_start-other : (ir : Ir) (llvm : Llvm) (block : ℕ) → is_other (at_start ir llvm block).tag ≡ true
at_start-other ir llvm block =
    at_start-other_of ir llvm block (ir.blocks (ir.function_of block)) refl

-- The position where the scan starts.
abbrev pub resume : Option FlowDepResult → ℕ
resume none = 0
resume (some r) = r.pointer

pub some-same {ℓ} : {A : Type ℓ} (a b : A) → some a ≡ some b → a ≡ b
some-same a b h = cc

module _ (key : ℕ) where
  pub remember-lem :
      (dep : FlowDepResult) (cache : List Entry) (reverse : PtrMap PtrSet)
      → is_dirty dep ≡ false
      → (is_other dep.tag ≡ false → dep.pointer ≢ 0)
      → (m : PtrMap PtrSet) × (remember key dep cache reverse
          ≡ done (record { answer = dep; cache = cache; reverse = m }))
        × ((i k : ℕ)
            → in_reverse m i k ≡ (
                (not (is_other dep.tag) && dep.pointer == i && key == k) || in_reverse reverse i k))
  unfolding remember get_inst
  remember-lem dep cache reverse clean real = elim (Bool-cases (is_other dep.tag)) [
    | inl other ↦
        (reverse, rw (names_inst-real dep clean, other) refl, λ i k. ground (arith, other))
    | inr inst ↦
        let there : (dep.pointer == 0) ≡ false = ground (arith, real inst) in
        (
          add_to_reverse_map reverse dep.pointer key,
          rw (names_inst-real dep clean, inst, there) refl,
          λ i k. ground (arith, inst, in_reverse-add reverse dep.pointer key i k),
        )
  ]

  pub start-lem :
      (reverse : PtrMap PtrSet) (o : Existing)
      → ((r : FlowDepResult)
          → answer_of o ≡ some r
          → r.pointer ≢ 0
          → in_reverse reverse r.pointer key ≡ true)
      → (m : PtrMap PtrSet) × (start_of key reverse o ≡ done (resume (answer_of o), m))
        × ((i k : ℕ)
            → i ≢ 0
            → in_reverse m i k
              ≡ (not (resume (answer_of o) == i && key == k) && in_reverse reverse i k))
  unfolding start_of get_inst
  start-lem reverse none there = (reverse, refl, λ i k real. ground (arith, real))
  start-lem reverse (some (j, r)) there = elim (Bool-cases (r.pointer == 0)) [
    | inl nothing ↦
        let e : r.pointer ≡ 0 = ground (arith, nothing) in
        (reverse, rw (nothing, e) refl, λ i k real. ground (arith, real, e))
    | inr inst ↦
        let (m, runs, left) =
          remove-lem reverse r.pointer key (there r refl (ground (arith, inst))) in
        (m, rw (inst, runs) refl, λ i k real. left i k)
  ]

mem-any : (i : ℕ) (is : List ℕ) → Memᴰ i is → any (λ j. j == i) is ≡ true
mem-any i [] m = absurd (Memᴰ.not-nil m)
mem-any i (j ∷ is) m = elim (Memᴰ.cases_cons m) [
  | inl e ↦ ground (arith, e)
  | inr later ↦ ground (arith, mem-any i is later)
]

-- The instructions of a block are positions of it.
All-is_position : (is : List ℕ) → All (λ i. is_position i is ≡ true) is
unfolding is_position
All-is_position is = All-intro _ is (λ i m. let here = mem-any i is m in ground (arith, here))

module _ (ir : Ir) (llvm : Llvm) (loc : Location) (load : Bool) (block : ℕ) where
  -- An answer that is not dirty, and an instruction that it names is in the block.
  abbrev pub IsHere : FlowDepResult → Type 0
  IsHere dep =
      (is_dirty dep ≡ false)
      × (is_other dep.tag ≡ false
          → (dep.pointer ≢ 0)
            × (ir.block_of dep.pointer ≡ block)
            × (is_position dep.pointer (ir.insts block) ≡ true))

  pub scan-lem :
      (pos : ℕ)
      → IsNextPower llvm.next_power_of_2
      → is_position pos (ir.insts block) ≡ true
      → All (IsSized ir llvm) (ir.insts block)
      → All (λ i. ir.block_of i ≡ block) (ir.insts block)
      → (dep : FlowDepResult) × (get_pointer_dependency_from ir llvm loc load pos block 0
          ≡ done dep)
        × IsHere dep
  unfolding get_unknown is_dirty
  scan-lem pos next within sized inside =
      let Here = λ (i : ℕ). (ir.block_of i ≡ block) × (is_position i (ir.insts block) ≡ true) in
      let P = λ (i : ℕ). IsSized ir llvm i × Here i in
      let there = All-backwards P pos [] (ir.insts block) tt (
        All-both (IsSized ir llvm) Here (ir.insts block) sized
          (All-both _ _ (ir.insts block) inside (All-is_position (ir.insts block)))) in
      let (dep, returns, cases) =
        pointer_dependency_safe ir llvm loc load pos block 0 next within
          (All-mono _ _ (λ i p. p.0) _ there) in
      let here : IsHere dep = elim cases [
        | inl (_, _, e) ↦ subst IsHere (sym e) (
          at_start-clean ir llvm block,
          λ real. let other = at_start-other ir llvm block in absurd (ground (arith, real, other)),
        )
        | inr (inl (_, e)) ↦ subst IsHere (sym e) (refl, λ real. cc)
        | inr (inr found) ↦ (
          found.is_answer,
          λ real.
              let (_, at) =
                All-before P found.passed dep.pointer found.after
                  (subst (λ l. All P l) found.split (All-keep_if P _ _ there)) in
              (at.0.0, at.1.0, at.1.1),
        )
      ] in
      (dep, returns, here)
