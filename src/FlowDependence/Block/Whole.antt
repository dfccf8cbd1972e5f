-- ===== src/FlowDependence/Block/Whole.antt =====
-- GetNonLocalInfoForBlock from end to end.
use dep_taint.Prelude.{
  ℕ, ◌≡◌, ◌≢◌, refl, sym, ap, ◌∙◌, subst, ◌⊎◌, inl, inr, Bool, true, false, Option, none, some,
  List, arith, ◌==◌, if◌then◌else◌, Bool-cases, All, take,
}
use dep_taint.Prelude.Outcome.{done}
use dep_taint.Prelude.PtrMap
use dep_taint.Prelude.PtrMap.{PtrMap}
use dep_taint.Prelude.PtrSet.{PtrSet}
use dep_taint.Ir.{Ir}
use dep_taint.FlowDepResult.{FlowDepResult, is_dirty}
use dep_taint.FlowDependence.{Location, Llvm}
use dep_taint.FlowDependence.Widen.Bounds.{IsNextPower}
use dep_taint.FlowDependence.Pointers.{get_pointer_dependency_from}
use dep_taint.FlowDependence.Scan.Steps.{IsSized}
use dep_taint.FlowDependence.Cache.Synced.{in_reverse}
use dep_taint.FlowDependence.Forget.{Entry, value_is_load}
use dep_taint.FlowDependence.Order.{assert_sorted}
use dep_taint.FlowDependence.Order.Single.{has_block}
use dep_taint.FlowDependence.Across.{Existing, existing_at, find_entry, is_clean, end_position}
use dep_taint.FlowDependence.Block.{
  BlockInfo, block_info, clean_or_scan, get_non_local_info_for_block,
}
use dep_taint.FlowDependence.Block.Lookup.{
  IsExisting, existing_at-IsExisting, answer_of, lookup-existing,
}
use dep_taint.FlowDependence.Block.Steps.{some-same, resume}
use dep_taint.FlowDependence.Block.Keeps.{IsTracked, renewed}

module _ (ir : Ir) (llvm : Llvm) (loc : Location) (load : Bool) (block : ℕ) where
  -- Where the answer is from, by what the cache has of the block: it is the clean answer there, or a
  -- scan from the instruction of the dirty one, or from the end of the block.
  abbrev pub IsAnswered : List Entry → PtrMap PtrSet → Option FlowDepResult → BlockInfo → Type 0
  IsAnswered cache reverse none t =
      get_pointer_dependency_from ir llvm loc load end_position block 0 ≡ done t.answer
  IsAnswered cache reverse (some r) t =
      ((is_dirty r ≡ true)
        × (get_pointer_dependency_from ir llvm loc load r.pointer block 0 ≡ done t.answer))
      ⊎ ((is_dirty r ≡ false) × (t ≡ record { answer = r; cache = cache; reverse = reverse }))

  IsAnswered-scan :
      (cache : List Entry) (reverse : PtrMap PtrSet) (known : Option FlowDepResult) (t : BlockInfo)
      → ((r : FlowDepResult) → known ≡ some r → is_dirty r ≡ true)
      → get_pointer_dependency_from ir llvm loc load (resume known) block 0 ≡ done t.answer
      → IsAnswered cache reverse known t
  IsAnswered-scan cache reverse none t dirty scans = scans
  IsAnswered-scan cache reverse (some r) t dirty scans = inl (dirty r refl, scans)

  -- What the call makes of the entries and the map back.
  abbrev pub IsBlockInfo : List Entry → PtrMap PtrSet → BlockInfo → Type 0
  IsBlockInfo cache reverse t =
      (is_dirty t.answer ≡ false)
      × IsAnswered cache reverse (PtrMap.lookup block cache) t
      × ((c : ℕ)
          → PtrMap.lookup c t.cache ≡ (if c == block then some t.answer else PtrMap.lookup c cache))
      × IsTracked ir (value_is_load loc.ptr load) t.cache t.reverse
      × ((i k : ℕ)
          → i ≢ 0
          → k ≢ value_is_load loc.ptr load
          → in_reverse t.reverse i k ≡ in_reverse reverse i k)

  unchanged :
      (cache : List Entry) (r : FlowDepResult)
      → PtrMap.lookup block cache ≡ some r
      → (c : ℕ) → PtrMap.lookup c cache ≡ (if c == block then some r else PtrMap.lookup c cache)
  unchanged cache r known c = elim (Bool-cases (c == block)) [
    | inl same ↦
        let at : c ≡ block = ground (arith, same) in
        rw same (ap (λ b. PtrMap.lookup b cache) at ∙ known)
    | inr other ↦ rw other refl
  ]

  module _ (cache : List Entry) (reverse : PtrMap PtrSet)
      (tracked : IsTracked ir (value_is_load loc.ptr load) cache reverse)
      (next : IsNextPower llvm.next_power_of_2) (sized : All (IsSized ir llvm) (ir.insts block))
      (inside : All (λ i. ir.block_of i ≡ block) (ir.insts block)) where
    by_scan :
        (o : Existing)
        → IsExisting cache block o
        → ((r : FlowDepResult) → answer_of o ≡ some r → is_dirty r ≡ true)
        → clean_or_scan ir llvm loc load block cache reverse o
          ≡ block_info ir llvm loc load block cache reverse o
        → (t : BlockInfo) × (clean_or_scan ir llvm loc load block cache reverse o ≡ done t)
          × IsBlockInfo cache reverse t
    by_scan o existing dirty e =
        let known = lookup-existing cache block o tracked.single existing in
        let (t, runs, clean, scans, found, kept, others) =
          renewed ir llvm loc load block cache reverse o existing tracked dirty next sized inside in
        (
          t,
          e ∙ runs,
          (
            clean,
            subst (λ a. IsAnswered cache reverse a t) (sym known)
                (IsAnswered-scan cache reverse (answer_of o) t dirty scans),
            found,
            kept,
            others,
          ),
        )

    clean_or_scan-lem :
        (o : Existing)
        → IsExisting cache block o
        → (t : BlockInfo) × (clean_or_scan ir llvm loc load block cache reverse o ≡ done t)
          × IsBlockInfo cache reverse t
    unfolding clean_or_scan is_clean
    clean_or_scan-lem none existing = by_scan none existing (λ r at. cc) refl
    clean_or_scan-lem (some (i, r)) existing = elim (Bool-cases (is_dirty r)) [
      | inl dirty ↦
          by_scan (some (i, r)) existing
            (λ s at. subst (λ a. is_dirty a ≡ true) (some-same r s at) dirty) (rw dirty refl)
      | inr clean ↦
          let known = lookup-existing cache block (some (i, r)) tracked.single existing in
          let t : BlockInfo = record { answer = r; cache = cache; reverse = reverse } in
          (
            t,
            rw clean refl,
            (
              clean,
              subst (λ a. IsAnswered cache reverse a t) (sym known) (inr (clean, refl)),
              unchanged cache r known,
              tracked,
              λ i k _ _. refl,
            ),
          )
    ]

  -- GetNonLocalInfoForBlock, where the first `sorted` entries of a query are in order and have the
  -- block if any entry has it, no two entries are of the same block, an instruction that an entry
  -- names is in its block, and the map back has the query under exactly these: it returns, so that
  -- no assertion fails, with an answer that is not dirty. A clean answer of the block is returned,
  -- and nothing changes. Otherwise the answer is that of a scan of the block, from the instruction
  -- that a dirty answer names or else from the end, and it becomes the only entry of the block. The
  -- entries of other blocks stay, those conditions but the order hold again, and the map back
  -- keeps what it had of other queries. This is for instructions of a size below 2 ^ 32 bits and an
  -- alignment below 2 ^ 31.
  pub block_info_keeps :
      (cache : List Entry) (sorted : ℕ) (reverse : PtrMap PtrSet)
      → IsNextPower llvm.next_power_of_2
      → All (IsSized ir llvm) (ir.insts block)
      → All (λ i. ir.block_of i ≡ block) (ir.insts block)
      → assert_sorted (take sorted cache) ≡ true
      → has_block block (take sorted cache) ≡ has_block block cache
      → IsTracked ir (value_is_load loc.ptr load) cache reverse
      → (t : BlockInfo) × (get_non_local_info_for_block ir llvm loc load block cache sorted reverse
          ≡ done t)
        × IsBlockInfo cache reverse t
  unfolding get_non_local_info_for_block
  block_info_keeps cache sorted reverse next sized inside order old tracked =
      clean_or_scan-lem cache reverse tracked next sized inside
        (existing_at cache (find_entry cache sorted block))
        (existing_at-IsExisting cache sorted block order old)
