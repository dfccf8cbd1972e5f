-- ===== src/FlowDependence/Pointers.antt =====
-- getPointerDependencyFrom of src/FlowDependenceAnalysis.cpp.
use dep_taint.Prelude.{
  ℕ, ◌-◌, ◌*◌, ◌%◌, Bool, true, false, ◌&&◌, ◌||◌, not, Option, none, some, List, [], ◌∷◌, ◌==◌,
  ltb, if◌then◌else◌,
}
use dep_taint.Prelude.Int.{ℤ, pos}
use dep_taint.Prelude.Outcome.{Outcome, done, fault, ◌>>=◌}
use dep_taint.Ir.{Ir, is_load, is_store, is_alloca}
use dep_taint.Data.{AliasResult}
use dep_taint.FlowDepResult.{FlowDepResult, get_def, get_clobber, get_unknown}
use dep_taint.FlowDependence.{
  ModRef, Location, Intrinsic, Llvm, is_no_mod_ref, block_scan_limit, backwards, is_position,
  continue, answer, or_else,
}
use dep_taint.FlowDependence.Locate.{whole}
use dep_taint.FlowDependence.Calls.{at_start}
use dep_taint.FlowDependence.Widen.{is_load_load_clobber_if_extended_to_full_width}

-- MemLoc, isLoad and isInvariantLoad, which stay as they are throughout a scan.
pub record Query : Type 0 where
  pub loc : Location
  pub is_load : Bool
  pub is_invariant_load : Bool

-- MemLocBase and MemLocOffset.
abbrev pub Base : Type 0
Base = ℕ × ℤ

abbrev pub no_base : Base
no_base = (0, pos 0)

module _ (ir : Ir) (llvm : Llvm) where
  unfoldable pub is_lifetime_start : ℕ → Bool
  is_lifetime_start i = elim (llvm.intrinsic i) [
    | some Intrinsic.lifetime_start ↦ true
    | some _ ↦ false
    | none ↦ false
  ]

  -- A query for a load that meets a load which does not touch its location.
  unfoldable pub apart_step : Query → Base → ℕ → Base × Outcome (Option FlowDepResult)
  unfolding is_load_load_clobber_if_extended_to_full_width continue answer get_clobber
  apart_step q base i =
      let (known, wider) = is_load_load_clobber_if_extended_to_full_width ir llvm q.loc base i in
      if llvm.is_integer i && ltb (llvm.bits i) (llvm.alignment i * 8 % 4294967296)
      then (known, wider >>= λ w. if w then answer (get_clobber i) else continue)
      else (base, continue)

  unfoldable pub load_step : Query → Base → ℕ → Base × Outcome (Option FlowDepResult)
  unfolding apart_step continue answer get_clobber get_def
  load_step q base i =
      if not (llvm.is_unordered i)
      then (base, answer (get_clobber i))
      else if q.is_load
      then elim (llvm.alias (llvm.location i) q.loc) [
        | AliasResult.no_alias ↦ apart_step q base i
        | AliasResult.must_alias ↦ (base, answer (get_def i))
        | AliasResult.may_alias ↦ (base, continue)
        | AliasResult.partial_alias ↦ (base, continue)
      ]
      else elim (llvm.alias (llvm.location i) q.loc) [
        | AliasResult.no_alias ↦ (base, continue)
        | _ ↦
            if llvm.is_constant_memory (llvm.location i)
            then (base, continue)
            else (base, answer (get_def i))
      ]

  unfoldable pub store_step : Query → ℕ → Outcome (Option FlowDepResult)
  unfolding continue answer get_clobber get_def
  store_step q i =
      if not (llvm.is_unordered i)
      then answer (get_clobber i)
      else if is_no_mod_ref (llvm.mod_ref_info i q.loc)
      then continue
      else elim (llvm.alias (llvm.location i) q.loc) [
        | AliasResult.no_alias ↦ continue
        | AliasResult.must_alias ↦ answer (get_def i)
        | AliasResult.may_alias ↦ if q.is_invariant_load then continue else answer (get_clobber i)
        | AliasResult.partial_alias ↦
            if q.is_invariant_load then continue else answer (get_clobber i)
      ]

  -- The switch at the end of the loop's body.
  unfoldable pub effect : Query → ℕ → ModRef
  effect q i = elim (llvm.mod_ref_info i q.loc) [
    | ModRef.mod_ref ↦ llvm.captures_before i q.loc
    | ModRef.no_mod_ref ↦ ModRef.no_mod_ref
    | ModRef.ref_only ↦ ModRef.ref_only
    | ModRef.mod_only ↦ ModRef.mod_only
  ]

  unfoldable pub other_step : Query → ℕ → Outcome (Option FlowDepResult)
  unfolding effect continue answer get_clobber
  other_step q i = elim (effect q i) [
    | ModRef.no_mod_ref ↦ continue
    | ModRef.mod_only ↦ answer (get_clobber i)
    | ModRef.ref_only ↦ if q.is_load then continue else answer (get_clobber i)
    | ModRef.mod_ref ↦ answer (get_clobber i)
  ]

  -- An allocation.
  unfoldable pub allocation_step : Query → ℕ → Outcome (Option FlowDepResult)
  unfolding other_step continue answer get_clobber get_def
  allocation_step q i =
      let access = llvm.underlying_object q.loc.ptr in
      if access == i || llvm.is_must_alias_values i access
      then answer (get_def i)
      else elim (llvm.alias_values i access) [
        | AliasResult.no_alias ↦
            if is_alloca (ir.opcode i) || llvm.is_malloc_like i || llvm.is_calloc_like i
            then continue
            else other_step q i
        | _ ↦ answer (get_clobber i)
      ]

  -- The body of the loop after the limit.
  unfoldable pub pointer_step : Query → Base → ℕ → Base × Outcome (Option FlowDepResult)
  unfolding is_lifetime_start load_step store_step allocation_step other_step whole continue answer
      get_def
  pointer_step q base i =
      if is_lifetime_start i
      then (
        base,
        if llvm.is_must_alias (whole ir llvm (llvm.argument i 1)) q.loc
            then answer (get_def i)
            else continue,
      )
      else if is_load (ir.opcode i)
      then load_step q base i
      else if is_store (ir.opcode i)
      then (base, store_step q i)
      else if is_alloca (ir.opcode i) || llvm.is_no_alias_fn i
      then (base, allocation_step q i)
      else (base, other_step q i)

  -- The loop over the instructions before ScanIt, the nearest first. Debug intrinsics do not count
  -- against the limit.
  unfoldable pub pointer_scan : Query → FlowDepResult → Base → ℕ → List ℕ → Outcome FlowDepResult
  unfolding pointer_step or_else
  pointer_scan q end base limit [] = done end
  pointer_scan q end base limit (i ∷ is) =
      let (known, found) = pointer_step q base i in
      let skipped = pointer_scan q end base limit is in
      let rest = pointer_scan q end known (limit - 1) is in
      if llvm.is_debug i
      then skipped
      else if limit - 1 == 0
      then done get_unknown
      else or_else found rest

  -- `query` is the null pointer where the caller passes no instruction.
  unfoldable pub is_invariant_query : Bool → ℕ → Bool
  is_invariant_query load query =
      load && not (query == 0) && is_load (ir.opcode query) && llvm.is_invariant_load query

  -- From a position of another block the loop does not meet the start of this one, which is undefined.
  unfoldable pub get_pointer_dependency_from : Location → Bool → ℕ → ℕ → ℕ → Outcome FlowDepResult
  unfolding pointer_scan at_start is_invariant_query backwards is_position
  get_pointer_dependency_from loc load scan_it block query =
      if is_position scan_it (ir.insts block)
      then pointer_scan
          (record { loc = loc; is_load = load; is_invariant_load = is_invariant_query load query })
          (at_start ir llvm block) no_base block_scan_limit (backwards scan_it [] (ir.insts block))
      else fault
