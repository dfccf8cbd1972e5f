-- ===== src/FlowDependence/Locate.antt =====
-- GetLocation of src/FlowDependenceAnalysis.cpp.
use dep_taint.Prelude.{ℕ, none, some, if◌then◌else◌}
use dep_taint.Ir.{Ir, is_load, is_store}
use dep_taint.FlowDependence.{ModRef, Location, Intrinsic, Llvm}

module _ (ir : Ir) (llvm : Llvm) where
  -- AliasAnalysis::Location()
  unfoldable pub no_location : Location
  no_location = record { ptr = 0; size = llvm.unknown_size; tag = 0 }

  -- AliasAnalysis::Location(P)
  unfoldable pub whole : ℕ → Location
  whole p = record { ptr = p; size = llvm.unknown_size; tag = 0 }

  -- The location that an intrinsic names: its pointer and its constant size are arguments.
  unfoldable pub named_by : ℕ → ℕ → ℕ → Location
  named_by i p s = record {
    ptr = llvm.argument i p;
    size = llvm.constant (llvm.argument i s);
    tag = llvm.tbaa i;
  }

  unfoldable pub coarse : ℕ → ModRef
  coarse i =
      if llvm.may_write i
      then ModRef.mod_ref
      else if llvm.may_read i
      then ModRef.ref_only
      else ModRef.no_mod_ref

  -- The switch on the intrinsics; `loc` is what `Loc` was before the call.
  unfoldable pub get_location_intrinsic : Location → ℕ → ModRef × Location
  unfolding named_by coarse
  get_location_intrinsic loc i = elim (llvm.intrinsic i) [
    | some Intrinsic.lifetime_start ↦ (ModRef.mod_only, named_by i 1 0)
    | some Intrinsic.lifetime_end ↦ (ModRef.mod_only, named_by i 1 0)
    | some Intrinsic.invariant_start ↦ (ModRef.mod_only, named_by i 1 0)
    | some Intrinsic.invariant_end ↦ (ModRef.mod_only, named_by i 2 1)
    | some Intrinsic.other ↦ (coarse i, loc)
    | none ↦ (coarse i, loc)
  ]

  -- A load or a store, with what an unordered one may do.
  unfoldable pub get_location_access : ModRef → ℕ → ModRef × Location
  unfolding no_location
  get_location_access plain i =
      if llvm.is_unordered i
      then (plain, llvm.location i)
      else if llvm.is_monotonic i
      then (ModRef.mod_ref, llvm.location i)
      else (ModRef.mod_ref, no_location)

  -- GetLocation, which leaves `Loc` as it was where it finds no location.
  unfoldable pub get_location : ℕ → Location → ModRef × Location
  unfolding get_location_access get_location_intrinsic whole
  get_location i loc =
      if is_load (ir.opcode i)
      then get_location_access ModRef.ref_only i
      else if is_store (ir.opcode i)
      then get_location_access ModRef.mod_only i
      else if llvm.is_va_arg i
      then (ModRef.mod_ref, llvm.location i)
      else if llvm.is_free_call i
      then (ModRef.mod_only, whole (llvm.argument i 0))
      else get_location_intrinsic loc i
