-- ===== src/FlowDependence/Widen.antt =====
-- getLoadLoadClobberFullWidthSize and isLoadLoadClobberIfExtendedToFullWidth of
-- src/FlowDependenceAnalysis.cpp. An `unsigned` wraps at 2 ^ 32; offsets are integers, since the
-- source has no defined behaviour where a sum of them leaves `int64_t`.
pub mod Bounds
use dep_taint.Prelude.{
  ℕ, zero, suc, ◌*◌, ◌/◌, ◌%◌, Bool, true, false, ◌&&◌, ◌||◌, not, ltb, ◌==◌, if◌then◌else◌,
}
use dep_taint.Prelude.Int.{ℤ, pos, ltℤ, ◌+ℤ◌}
use dep_taint.Prelude.Outcome.{Outcome, done, out_of_fuel, ◌>>=◌}
use dep_taint.Ir.{Ir}
use dep_taint.FlowDependence.{Location, Llvm}

-- The size doubles up to an alignment below 2 ^ 32.
abbrev pub widen_fuel : ℕ
widen_fuel = 33

-- The loop of getLoadLoadClobberFullWidthSize: `offset` is LIOffs, `end` is MemLocEnd and `guarded`
-- whether the function has the attribute SanitizeAddress.
unfoldable pub widen : (ℕ → Bool) → ℤ → ℕ → ℤ → Bool → ℕ → ℕ → Outcome ℕ
widen fits offset align end guarded zero size = out_of_fuel
widen fits offset align end guarded (suc fuel) size =
    let rest = widen fits offset align end guarded fuel (size * 2 % 4294967296) in
    if ltb align size || not (fits (size * 8 % 4294967296))
    then done 0
    else if ltℤ end (offset +ℤ pos size) && guarded
    then done 0
    else if not (ltℤ (offset +ℤ pos size) end)
    then done size
    else rest

module _ (ir : Ir) (llvm : Llvm) where
  -- The first size that the loop tries.
  unfoldable pub first_size : ℕ → ℕ
  first_size li = llvm.next_power_of_2 (llvm.bits li / 8) % 4294967296

  unfoldable pub get_load_load_clobber_full_width_size : ℕ → ℤ → ℕ → ℕ → Outcome ℕ
  unfolding widen first_size
  get_load_load_clobber_full_width_size base offs size li =
      let function = ir.function_of (ir.block_of li) in
      let (li_base, li_offs) = llvm.base_with_offset (ir.pointer_operand li) in
      let align = llvm.alignment li in
      let end = offs +ℤ pos size in
      if not (llvm.is_integer li) || not (llvm.is_simple li)
      then done 0
      else if llvm.sanitize_thread function
      then done 0
      else if not (li_base == base)
      then done 0
      else if ltℤ offs li_offs
      then done 0
      else if ltℤ (li_offs +ℤ pos align) end
      then done 0
      else widen llvm.fits_in_legal_integer li_offs align end (llvm.sanitize_address function)
          widen_fuel (first_size li)

  -- MemLocBase and MemLocOffs after they are needed: computed where the base is null.
  unfoldable pub memoize : ℕ → ℕ × ℤ → ℕ × ℤ
  memoize ptr base = if base.0 == 0 then llvm.base_with_offset ptr else base

  -- The base and offset that it leaves, and its result; the size is passed as an `unsigned`.
  unfoldable pub is_load_load_clobber_if_extended_to_full_width :
      Location → ℕ × ℤ → ℕ → (ℕ × ℤ) × Outcome Bool
  unfolding memoize get_load_load_clobber_full_width_size
  is_load_load_clobber_if_extended_to_full_width loc base li =
      if not llvm.has_data_layout
      then (base, done false)
      else (let known = memoize loc.ptr base in
          (
            known,
            get_load_load_clobber_full_width_size known.0 known.1 (loc.size % 4294967296) li
                >>= λ size. done (not (size == 0)),
          ))
