-- ===== src/FlowDependence/Widen/Bounds.antt =====
-- What getLoadLoadClobberFullWidthSize returns, and that its loop ends.
use dep_taint.Prelude.{
  ℕ, zero, suc, ◌*◌, ◌/◌, ◌%◌, ◌≤◌, ◌<◌, ◌≡◌, refl, ◌⊎◌, inl, inr, Bool, true, false, ◌&&◌, ◌||◌,
  not, ltb, ◌==◌, if◌then◌else◌, arith, Bool-cases,
}
use dep_taint.Prelude.Int.{ℤ, pos, ltℤ, ◌+ℤ◌}
use dep_taint.Prelude.Outcome.{Outcome, done}
use dep_taint.Ir.{Ir}
use dep_taint.FlowDependence.{Llvm}
use dep_taint.FlowDependence.Widen.{widen, first_size, get_load_load_clobber_full_width_size}

-- `s` doubled `n` times.
unfoldable pub doubled : ℕ → ℕ → ℕ
doubled zero s = s
doubled (suc n) s = doubled n (s * 2)

pub le-doubled : (n s : ℕ) → s ≤ doubled n s
unfolding doubled
le-doubled zero s = omega arith
le-doubled (suc n) s = omega (arith, le-doubled n (s * 2))

doubled_mono : (n s t : ℕ) → s ≤ t → doubled n s ≤ doubled n t
unfolding doubled
doubled_mono zero s t h = h
doubled_mono (suc n) s t h = doubled_mono n (s * 2) (t * 2) (omega arith)

-- A size that the loop may return: it is the first size doubled, an integer of that size is legal
-- and no larger than the alignment, and the load of that size covers the location; in a function
-- with SanitizeAddress it does not reach past the location.
pub record IsWide (fits : ℕ → Bool) (offset : ℤ) (align : ℕ) (end : ℤ) (guarded : Bool)
    (first r : ℕ) : Type 0 where
  pub times : ℕ
  pub by_doubling : r ≡ doubled times first
  pub at_most_aligned : r ≤ align
  pub legal : fits (r * 8 % 4294967296) ≡ true
  pub covers : ltℤ (offset +ℤ pos r) end ≡ false
  pub guards : guarded ≡ true → ltℤ end (offset +ℤ pos r) ≡ false

-- The code returns 0 or a size with the property.
abbrev Returns : (ℕ → Type 0) → Outcome ℕ → Type 0
Returns P m = (r : ℕ) × (m ≡ done r) × ((r ≡ 0) ⊎ P r)

Returns-guard :
    (P : ℕ → Type 0) (b : Bool) (m : Outcome ℕ)
    → (b ≡ false → Returns P m)
    → Returns P (if b then done 0 else m)
Returns-guard P true m h = (0, refl, inl refl)
Returns-guard P false m h = h refl

Returns-map : (P Q : ℕ → Type 0) (m : Outcome ℕ) → Returns P m → ((r : ℕ) → P r → Q r) → Returns Q m
Returns-map P Q m (r, e, inl z) f = (r, e, inl z)
Returns-map P Q m (r, e, inr h) f = (r, e, inr (f r h))

abbrev Ends : (ℕ → Bool) → ℤ → ℕ → ℤ → Bool → ℕ → Outcome ℕ → Type 0
Ends fits offset align end guarded first = Returns (IsWide fits offset align end guarded first)

module _ (fits : ℕ → Bool) (offset : ℤ) (align : ℕ) (end : ℤ) (guarded : Bool) where
  Ends-doubled :
      (first : ℕ) (m : Outcome ℕ)
      → Ends fits offset align end guarded (first * 2) m
      → Ends fits offset align end guarded first m
  unfolding doubled
  Ends-doubled first m h = Returns-map _ _ m h (λ r w. record {
    times = suc w.times;
    by_doubling = w.by_doubling;
    at_most_aligned = w.at_most_aligned;
    legal = w.legal;
    covers = w.covers;
    guards = w.guards;
  })

  -- One round: the loop returns, or goes on with the double of the size.
  Ends-step :
      (s : ℕ) (rest : Outcome ℕ)
      → (s ≤ align → Ends fits offset align end guarded s rest)
      → Ends fits offset align end guarded s (
          if ltb align s || not (fits (s * 8 % 4294967296))
          then done 0
          else if ltℤ end (offset +ℤ pos s) && guarded
          then done 0
          else if not (ltℤ (offset +ℤ pos s) end)
          then done s
          else rest)
  unfolding doubled
  Ends-step s rest h = Returns-guard _ (ltb align s || not (fits (s * 8 % 4294967296))) _ (λ fine.
      Returns-guard _ (ltℤ end (offset +ℤ pos s) && guarded) _ (λ within.
        elim (Bool-cases (ltℤ (offset +ℤ pos s) end)) [
          | inl short ↦ rw short (h (ground (arith, fine)))
          | inr long ↦ rw long (
            s,
            refl,
            inr (record {
              times = 0;
              by_doubling = refl;
              at_most_aligned = ground (arith, fine);
              legal = ground (arith, fine);
              covers = long;
              guards = λ g. ground (arith, within, g);
            }),
          )
        ]))

  widen-Ends :
      (n s : ℕ)
      → align < 2147483648
      → 1 ≤ s
      → align < doubled n s
      → Ends fits offset align end guarded s (widen fits offset align end guarded (suc n) s)
  unfolding widen doubled
  widen-Ends zero s h one k = Ends-step s _ (λ small. absurd (omega arith))
  widen-Ends (suc n) s h one k = Ends-step s _ (λ small.
      let whole : s * 2 % 4294967296 ≡ s * 2 = omega arith in
      rw whole (Ends-doubled s _ (widen-Ends n (s * 2) h (omega arith) k)))

-- LLVM's NextPowerOf2 on arguments that it has room for: a larger power of two.
abbrev pub IsNextPower : (ℕ → ℕ) → Type 0
IsNextPower next = (n : ℕ) → n < 2147483648 → (n < next n) × (next n ≤ 2147483648)

first_size-bounds :
    (ir : Ir) (llvm : Llvm) (li : ℕ)
    → IsNextPower llvm.next_power_of_2
    → llvm.bits li < 4294967296
    → llvm.bits li / 8 < first_size ir llvm li
unfolding first_size
first_size-bounds ir llvm li next small =
    let (above, room) = next (llvm.bits li / 8) (omega arith) in omega arith

-- What a size other than 0 says of the load and of the location.
abbrev pub Serves : Ir → Llvm → ℕ → ℤ → ℕ → ℕ → ℕ → Type 0
Serves ir llvm base offs size li r =
    let (li_base, li_offs) = llvm.base_with_offset (ir.pointer_operand li) in
    (llvm.bits li / 8 < r)
    × (li_base ≡ base)
    × (ltℤ offs li_offs ≡ false)
    × IsWide llvm.fits_in_legal_integer li_offs (llvm.alignment li) (offs +ℤ pos size)
        (llvm.sanitize_address (ir.function_of (ir.block_of li))) (first_size ir llvm li) r

-- With an alignment below 2 ^ 31, getLoadLoadClobberFullWidthSize returns: its loop ends. It returns
-- 0, or a size in bytes that is greater than that of the load, at most the alignment and that of a
-- legal integer, and the load of that size covers the queried location, in a function with
-- SanitizeAddress without reaching past it; then the load and the location have the same base and
-- the location does not start before the load.
pub full_width_size_bounds :
    (ir : Ir) (llvm : Llvm) (base : ℕ) (offs : ℤ) (size li : ℕ)
    → IsNextPower llvm.next_power_of_2
    → llvm.bits li < 4294967296
    → llvm.alignment li < 2147483648
    → (r : ℕ) × (get_load_load_clobber_full_width_size ir llvm base offs size li ≡ done r)
      × ((r ≡ 0) ⊎ Serves ir llvm base offs size li r)
unfolding get_load_load_clobber_full_width_size doubled
full_width_size_bounds ir llvm base offs size li next bits aligned =
    let start = first_size-bounds ir llvm li next bits in
    let first = first_size ir llvm li in
    let enough : llvm.alignment li < doubled 32 first =
      omega (arith, doubled_mono 32 1 first (omega arith)) in
    let (li_base, li_offs) = llvm.base_with_offset (ir.pointer_operand li) in
    let P = Serves ir llvm base offs size li in
    let guarded = llvm.sanitize_address (ir.function_of (ir.block_of li)) in
    let fits = llvm.fits_in_legal_integer in
    let end = offs +ℤ pos size in
    Returns-guard P (not (llvm.is_integer li) || not (llvm.is_simple li)) _ (λ fine.
      Returns-guard P (llvm.sanitize_thread (ir.function_of (ir.block_of li))) _ (λ no_threads.
        Returns-guard P (not (li_base == base)) _ (λ same.
          Returns-guard P (ltℤ offs li_offs) _ (λ not_before.
            Returns-guard P (ltℤ (li_offs +ℤ pos (llvm.alignment li)) end) _ (λ room.
              Returns-map (IsWide fits li_offs (llvm.alignment li) end guarded first) P _
                (widen-Ends fits li_offs (llvm.alignment li) end guarded 32 first aligned
                  (omega arith) enough)
                (λ r w.
                  let grown : r ≡ doubled w.times first = w.by_doubling in
                  (
                    omega (arith, le-doubled w.times first),
                    ground (arith, same),
                    not_before,
                    w,
                  )))))))
