-- ===== src/FlowDependence/Block/Keeps.antt =====
-- The map back of a query after GetNonLocalInfoForBlock.
use dep_taint.Prelude.{
  subst, ℕ, ◌≡◌, ◌≢◌, refl, sym, ap, ◌∙◌, inl, inr, Bool, true, false, ◌&&◌, ◌||◌, not, Option,
  none, some, List, arith, ◌==◌, ==_refl, if◌then◌else◌, Bool-cases, if_true, if_false, All,
}
use dep_taint.Prelude.Outcome.{done}
use dep_taint.Prelude.PtrMap
use dep_taint.Prelude.PtrMap.{PtrMap}
use dep_taint.Prelude.PtrSet.{PtrSet}
use dep_taint.Ir.{Ir}
use dep_taint.FlowDepResult.{FlowDepResult, is_other, is_dirty, get_inst}
use dep_taint.FlowDependence.{Location, Llvm, is_position}
use dep_taint.FlowDependence.Widen.Bounds.{IsNextPower}
use dep_taint.FlowDependence.Pointers.{get_pointer_dependency_from}
use dep_taint.FlowDependence.Scan.Steps.{IsSized}
use dep_taint.FlowDependence.Cache.Synced.{in_reverse}
use dep_taint.FlowDependence.Forget.{Entry, value_is_load}
use dep_taint.FlowDependence.Order.Single.{IsSingle}
use dep_taint.FlowDependence.Across.{Existing, set_result}
use dep_taint.FlowDependence.Block.{BlockInfo, in_its_block, block_info}
use dep_taint.FlowDependence.Block.Lookup.{
  IsExisting, answer_of, lookup-existing, lookup-set_result, set_result-IsSingle,
}
use dep_taint.FlowDependence.Block.Steps.{
  resume, some-same, dirty_tags, remember-lem, start-lem, scan-lem, IsHere,
}

-- Whether an answer depends on an instruction; a dirty one does on where the scan goes on.
abbrev pub rests_on : ℕ → Option FlowDepResult → Bool
rests_on i none = false
rests_on i (some r) = not (is_other r.tag) && r.pointer == i

-- The entries of a query, one for a block, name instructions that stand in their blocks, and the map back has
-- the query under exactly these.
pub record IsTracked (ir : Ir) (key : ℕ) (cache : List Entry) (reverse : PtrMap PtrSet)
    : Type 0 where
  pub single : IsSingle cache
  pub home :
      (b : ℕ) (r : FlowDepResult)
      → PtrMap.lookup b cache ≡ some r
      → is_other r.tag ≡ false
      → r.pointer ≢ 0
      → (ir.block_of r.pointer ≡ b) × (is_position r.pointer (ir.insts b) ≡ true)
  pub linked :
      (i : ℕ) → i ≢ 0 → in_reverse reverse i key ≡ rests_on i (PtrMap.lookup (ir.block_of i) cache)

gone : (o : Option FlowDepResult) (i : ℕ) → (not (resume o == i) && rests_on i o) ≡ false
gone none i = ground arith
gone (some r) i = ground arith

self : (r : FlowDepResult) → is_other r.tag ≡ false → rests_on r.pointer (some r) ≡ true
self r real = ground (arith, real)

module _ (ir : Ir) (llvm : Llvm) (loc : Location) (load : Bool) (block : ℕ) where
  asserted_of :
      (o : Existing)
      → ((r : FlowDepResult) → answer_of o ≡ some r → r.pointer ≢ 0 → ir.block_of r.pointer ≡ block)
      → in_its_block ir llvm block o ≡ true
  unfolding in_its_block get_inst
  asserted_of none home = refl
  asserted_of (some (i, r)) home = elim (Bool-cases (r.pointer == 0)) [
    | inl nothing ↦ ground (arith, nothing)
    | inr inst ↦ let at = home r refl (ground (arith, inst)) in ground (arith, at)
  ]

  -- Where no clean answer is cached.
  module _ (cache : List Entry) (reverse : PtrMap PtrSet) (o : Existing)
      (existing : IsExisting cache block o)
      (tracked : IsTracked ir (value_is_load loc.ptr load) cache reverse)
      (dirty : (r : FlowDepResult) → answer_of o ≡ some r → is_dirty r ≡ true) where
    abbrev key : ℕ
    key = value_is_load loc.ptr load

    cached : PtrMap.lookup block cache ≡ answer_of o
    cached = lookup-existing cache block o tracked.single existing

    real : (r : FlowDepResult) → answer_of o ≡ some r → is_other r.tag ≡ false
    real r at = dirty_tags r.pointer r.tag (dirty r at)

    home :
        (r : FlowDepResult) → answer_of o ≡ some r → r.pointer ≢ 0 → ir.block_of r.pointer ≡ block
    home r at inst = (tracked.home block r (cached ∙ at) (real r at) inst).0

    within_of :
        (a : Option FlowDepResult)
        → answer_of o ≡ a
        → is_position (resume a) (ir.insts block) ≡ true
    unfolding is_position
    within_of none e = ground arith
    within_of (some r) e = elim (Bool-cases (r.pointer == 0)) [
      | inl nothing ↦ ground (arith, nothing)
      | inr inst ↦ (tracked.home block r (cached ∙ e) (real r e) (ground (arith, inst))).1
    ]

    under :
        (r : FlowDepResult)
        → answer_of o ≡ some r
        → r.pointer ≢ 0
        → in_reverse reverse r.pointer key ≡ true
    under r at inst =
        tracked.linked r.pointer inst
        ∙ ap (λ b. rests_on r.pointer (PtrMap.lookup b cache)) (home r at inst)
        ∙ ap (rests_on r.pointer) (cached ∙ at)
        ∙ self r (real r at)

    asserted : in_its_block ir llvm block o ≡ true
    asserted = asserted_of o home

    not_new :
        (dep : FlowDepResult) (i : ℕ)
        → IsHere ir llvm loc load block dep
        → ir.block_of i ≢ block
        → (not (is_other dep.tag) && dep.pointer == i) ≡ false
    not_new dep i here apart = elim (Bool-cases (is_other dep.tag)) [
      | inl other ↦ rw other refl
      | inr named ↦
          let away : dep.pointer ≢ i = λ e. apart (sym (ap ir.block_of e) ∙ (here.1 named).1) in
          ground (arith, away)
    ]

    not_old_of :
        (a : Option FlowDepResult) (i : ℕ)
        → answer_of o ≡ a
        → i ≢ 0
        → ir.block_of i ≢ block
        → (resume a == i) ≡ false
    not_old_of none i e inst apart = ground (arith, inst)
    not_old_of (some r) i e inst apart =
        let away : r.pointer ≢ i =
          λ same. apart (sym (ap ir.block_of same) ∙ home r e (λ zero. inst (sym same ∙ zero))) in
        ground (arith, away)

    not_old : (i : ℕ) → i ≢ 0 → ir.block_of i ≢ block → (resume (answer_of o) == i) ≡ false
    not_old i inst apart = not_old_of (answer_of o) i refl inst apart

    -- What the map back is to hold after the scan.
    linked_after :
        (dep : FlowDepResult) (m n : PtrMap PtrSet) (i : ℕ)
        → IsHere ir llvm loc load block dep
        → i ≢ 0
        → in_reverse m i key
          ≡ (not (resume (answer_of o) == i && key == key) && in_reverse reverse i key)
        → in_reverse n i key
          ≡ ((not (is_other dep.tag) && dep.pointer == i && key == key) || in_reverse m i key)
        → in_reverse n i key
          ≡ rests_on i (PtrMap.lookup (ir.block_of i) (set_result cache block o dep))
    linked_after dep m n i here inst left added =
        let found = lookup-set_result cache block (ir.block_of i) o dep tracked.single existing in
        let before = tracked.linked i inst in
        elim (Bool-cases (ir.block_of i == block)) [
          | inl same ↦
              let at : ir.block_of i ≡ block = ground (arith, same) in
              let old : in_reverse reverse i key ≡ rests_on i (answer_of o) =
                before ∙ ap (λ b. rests_on i (PtrMap.lookup b cache)) at ∙ ap (rests_on i) cached in
              let now = found ∙ if_true _ _ _ same in
              rw now (ground (arith, added, left, old, gone (answer_of o) i, ==_refl key))
          | inr other ↦
              let apart : ir.block_of i ≢ block = ground (arith, other) in
              let now = found ∙ if_false _ _ _ other in
              let fresh = not_new dep i here apart in
              let kept = not_old i inst apart in
              rw now (ground (arith, added, left, before, fresh, kept))
        ]

    pub renewed :
        IsNextPower llvm.next_power_of_2
        → All (IsSized ir llvm) (ir.insts block)
        → All (λ i. ir.block_of i ≡ block) (ir.insts block)
        → (t : BlockInfo) × (block_info ir llvm loc load block cache reverse o ≡ done t)
          × (is_dirty t.answer ≡ false)
          × (get_pointer_dependency_from ir llvm loc load (resume (answer_of o)) block 0
              ≡ done t.answer)
          × ((c : ℕ)
              → PtrMap.lookup c t.cache
                ≡ (if c == block then some t.answer else PtrMap.lookup c cache))
          × IsTracked ir key t.cache t.reverse
          × ((i k : ℕ) → i ≢ 0 → k ≢ key → in_reverse t.reverse i k ≡ in_reverse reverse i k)
    unfolding block_info
    renewed next sized inside =
        let (m, starts, left) = start-lem key reverse o under in
        let (dep, returns, here) =
          scan-lem ir llvm loc load block (resume (answer_of o)) next (within_of (answer_of o) refl)
            sized inside in
        let after = set_result cache block o dep in
        let (n, remembers, added) = remember-lem key dep after m here.0 (λ inst. (here.1 inst).0) in
        let found : (c : ℕ)
            → PtrMap.lookup c after ≡ (if c == block then some dep else PtrMap.lookup c cache) =
          λ c. lookup-set_result cache block c o dep tracked.single existing in
        (
          record { answer = dep; cache = after; reverse = n },
          rw (asserted, starts, returns, remembers) refl,
          here.0,
          returns,
          found,
          record {
            single = set_result-IsSingle cache block o dep tracked.single existing;
            home = λ b r at named inst. elim (Bool-cases (b == block)) [
              | inl same ↦
                  let e : dep ≡ r = some-same dep r (sym (found b ∙ if_true _ _ _ same) ∙ at) in
                  let k : b ≡ block = ground (arith, same) in
                  let (_, at_block, in_block) = here.1 (ap (λ d. is_other d.tag) e ∙ named) in
                  (
                    ap (λ d. ir.block_of d.pointer) (sym e) ∙ at_block ∙ sym k,
                    subst (λ c. is_position r.pointer (ir.insts c) ≡ true) (sym k)
                        (subst (λ d. is_position d.pointer (ir.insts block) ≡ true) e in_block),
                  )
              | inr other ↦ tracked.home b r (sym (found b ∙ if_false _ _ _ other) ∙ at) named inst
            ];
            linked = λ i inst. linked_after dep m n i here inst (left i key inst) (added i key);
          },
          λ i k inst other. ground (arith, other, left i k inst, added i k),
        )
