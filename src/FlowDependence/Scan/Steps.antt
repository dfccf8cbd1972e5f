-- ===== src/FlowDependence/Scan/Steps.antt =====
-- What the body of the loop of a scan for a location comes to: it gives an answer that names the
-- instruction, or passes over it, and then it may not write to the location.
use dep_taint.Prelude.{
  ℕ, ◌<◌, ◌≡◌, ◌≢◌, refl, ap, inl, inr, Bool, true, false, not, arith, ◌==◌, if◌then◌else◌,
  Bool-cases, ltb, ◌*◌, ◌%◌, ◌&&◌, ◌||◌,
}
use dep_taint.Prelude.Outcome.{done}
use dep_taint.Ir.{Ir, is_load, is_store, is_alloca}
use dep_taint.Data.{may_touch}
use dep_taint.FlowDepResult.{get_def}
use dep_taint.FlowDependence.{Llvm, Location, has_mod, is_no_mod_ref, answer, continue}
use dep_taint.FlowDependence.Widen.{is_load_load_clobber_if_extended_to_full_width, memoize}
use dep_taint.FlowDependence.Widen.Bounds.{IsNextPower, full_width_size_bounds}
use dep_taint.FlowDependence.Locate.{whole}
use dep_taint.FlowDependence.Pointers.{
  Query, Base, is_lifetime_start, apart_step, load_step, store_step, effect, other_step,
  allocation_step, pointer_step,
}
use dep_taint.FlowDependence.Scan.Pointer.{decide}
use dep_taint.FlowDependence.Scan.Verdict.{
  Verdict, Verdict-if, Verdict-continue, Verdict-clobber, Verdict-def, Verdict-alias,
  Verdict-mod_ref, Verdict-if_snd, Verdict-alias_snd,
}

module _ (ir : Ir) (llvm : Llvm) where
  abbrev pub only_allocates : ℕ → Bool
  only_allocates i = is_alloca (ir.opcode i) || llvm.is_malloc_like i || llvm.is_calloc_like i

  -- Whether the alias analysis leaves it open that an instruction writes to the location of a query. A
  -- store does unless it has no effect on the location or does not alias it. An allocation does if
  -- what it allocates may alias the accessed object; one that is no alloca, malloc or calloc does by
  -- its effect, too, as any other instruction does.
  abbrev pub may_write_to : Query → ℕ → Bool
  may_write_to q i =
      if is_lifetime_start ir llvm i
      then false
      else if is_load (ir.opcode i)
      then false
      else if is_store (ir.opcode i)
      then not (is_no_mod_ref (llvm.mod_ref_info i q.loc))
        && may_touch (llvm.alias (llvm.location i) q.loc)
      else if is_alloca (ir.opcode i) || llvm.is_no_alias_fn i
      then may_touch (llvm.alias_values i (llvm.underlying_object q.loc.ptr))
        || not (only_allocates i) && has_mod (effect ir llvm q i)
      else has_mod (effect ir llvm q i)

  abbrev pub Passes : Query → ℕ → Type 0
  Passes q i = q.is_invariant_load ≡ false → may_write_to q i ≡ false

  abbrev pub IsSized : ℕ → Type 0
  IsSized i = (i ≢ 0) × (llvm.bits i < 4294967296) × (llvm.alignment i < 2147483648)

  store_step-Verdict :
      (P : Type 0) (q : Query) (i : ℕ)
      → i ≢ 0
      → (not (is_no_mod_ref (llvm.mod_ref_info i q.loc))
              && may_touch (llvm.alias (llvm.location i) q.loc)
            ≡ false
          → P)
      → (q.is_invariant_load ≡ true → P)
      → Verdict P i (store_step ir llvm q i)
  unfolding store_step
  store_step-Verdict P q i h p v =
      let unless =
        Verdict-if P i q.is_invariant_load _ _ (λ e. Verdict-continue P i (v e))
          (λ _. Verdict-clobber P i h) in
      Verdict-if P i (not (llvm.is_unordered i)) _ _ (λ _. Verdict-clobber P i h)
        (λ _.
          Verdict-if P i (is_no_mod_ref (llvm.mod_ref_info i q.loc)) _ _
            (λ e. Verdict-continue P i (p (ground (arith, e))))
            (λ _.
              Verdict-alias P i (llvm.alias (llvm.location i) q.loc) _ _ _ _
                (λ e. Verdict-continue P i (p (rw e (ground arith)))) (Verdict-def P i h) unless
                unless))

  other_step-Verdict :
      (P : Type 0) (q : Query) (i : ℕ)
      → i ≢ 0
      → (has_mod (effect ir llvm q i) ≡ false → P)
      → Verdict P i (other_step ir llvm q i)
  unfolding other_step
  other_step-Verdict P q i h p =
      Verdict-mod_ref P i (effect ir llvm q i) _ _ _ _
        (λ e. Verdict-continue P i (p (ap has_mod e))) (Verdict-clobber P i h)
        (λ e.
          Verdict-if P i q.is_load _ _ (λ _. Verdict-continue P i (p (ap has_mod e)))
            (λ _. Verdict-clobber P i h))
        (Verdict-clobber P i h)

  allocation_step-Verdict :
      (P : Type 0) (q : Query) (i : ℕ)
      → i ≢ 0
      → (may_touch (llvm.alias_values i (llvm.underlying_object q.loc.ptr))
              || not (only_allocates i) && has_mod (effect ir llvm q i)
            ≡ false
          → P)
      → Verdict P i (allocation_step ir llvm q i)
  unfolding allocation_step
  allocation_step-Verdict P q i h p =
      let access = llvm.underlying_object q.loc.ptr in
      Verdict-if P i (access == i || llvm.is_must_alias_values i access) _ _
        (λ _. Verdict-def P i h)
        (λ _.
          Verdict-alias P i (llvm.alias_values i access) _ _ _ _
            (λ e.
              Verdict-if P i
                (is_alloca (ir.opcode i) || llvm.is_malloc_like i || llvm.is_calloc_like i) _ _
                (λ only.
                  Verdict-continue P i
                    (p (let apart = ap may_touch e in ground (arith, apart, only))))
                (λ more.
                  other_step-Verdict P q i h (λ clean.
                    p (let apart = ap may_touch e in ground (arith, apart, more, clean)))))
            (Verdict-clobber P i h) (Verdict-clobber P i h) (Verdict-clobber P i h))

  extended-done :
      (loc : Location) (base : Base) (i : ℕ)
      → IsNextPower llvm.next_power_of_2
      → IsSized i
      → (w : Bool) × ((is_load_load_clobber_if_extended_to_full_width ir llvm loc base i).1
          ≡ done w)
  unfolding is_load_load_clobber_if_extended_to_full_width
  extended-done loc base i next (some_inst, bits, aligned) =
      elim (Bool-cases llvm.has_data_layout) [
        | inl layout ↦
            let known = memoize ir llvm loc.ptr base in
            let (r, e, cases) =
              full_width_size_bounds ir llvm known.0 known.1 (loc.size % 4294967296) i next bits
                aligned in
            rw (layout, e) (not (r == 0), refl)
        | inr no_layout ↦ rw no_layout (false, refl)
      ]

  apart_step-Verdict :
      (P : Type 0) (q : Query) (base : Base) (i : ℕ)
      → IsNextPower llvm.next_power_of_2
      → IsSized i
      → P
      → Verdict P i (apart_step ir llvm q base i).1
  unfolding apart_step
  apart_step-Verdict P q base i next sized p =
      elim (Bool-cases
        (llvm.is_integer i && ltb (llvm.bits i) (llvm.alignment i * 8 % 4294967296))) [
          | inl narrow ↦
              let (w, e) = extended-done q.loc base i next sized in
              rw (narrow, e)
                (Verdict-if P i w _ _ (λ _. Verdict-clobber P i sized.0)
                  (λ _. Verdict-continue P i p))
          | inr full ↦ rw full (Verdict-continue P i p)
        ]

  load_step-Verdict :
      (P : Type 0) (q : Query) (base : Base) (i : ℕ)
      → IsNextPower llvm.next_power_of_2
      → IsSized i
      → P
      → Verdict P i (load_step ir llvm q base i).1
  unfolding load_step
  load_step-Verdict P q base i next sized p =
      let passes = Verdict-continue P i p in
      let defines = Verdict-def P i sized.0 in
      let unless =
        Verdict-if_snd P i (llvm.is_constant_memory (llvm.location i)) (base, continue)
          (base, answer (get_def i)) (λ _. passes) (λ _. defines) in
      Verdict-if_snd P i (not (llvm.is_unordered i)) _ _ (λ _. Verdict-clobber P i sized.0)
        (λ _.
          Verdict-if_snd P i q.is_load _ _
            (λ _.
              Verdict-alias_snd P i (llvm.alias (llvm.location i) q.loc) _ _ _
                (apart_step-Verdict P q base i next sized p) defines passes)
            (λ _.
              Verdict-alias_snd P i (llvm.alias (llvm.location i) q.loc) _ _ _ passes unless
                unless))

  -- Under the bounds of IsSized an instruction gives a verdict without a fault.
  pub decide-Verdict :
      (q : Query) (i : ℕ)
      → IsNextPower llvm.next_power_of_2
      → IsSized i
      → Verdict (Passes q i) i (decide ir llvm q i)
  unfolding decide pointer_step
  decide-Verdict q i next sized =
      let P = Passes q i in
      Verdict-if_snd P i (is_lifetime_start ir llvm i) _ _
        (λ start.
          Verdict-if P i (llvm.is_must_alias (whole ir llvm (llvm.argument i 1)) q.loc) _ _
            (λ _. Verdict-def P i sized.0) (λ _. Verdict-continue P i (λ v. rw start refl)))
        (λ no_start.
          Verdict-if_snd P i (is_load (ir.opcode i)) _ _
            (λ load. load_step-Verdict P q _ i next sized (λ v. rw (no_start, load) refl))
            (λ no_load.
              Verdict-if_snd P i (is_store (ir.opcode i)) _ _
                (λ store.
                  store_step-Verdict P q i sized.0 (λ apart v. rw (no_start, no_load, store) apart)
                    (λ w v. cc))
                (λ no_store.
                  Verdict-if_snd P i (is_alloca (ir.opcode i) || llvm.is_no_alias_fn i) _ _
                    (λ new.
                      allocation_step-Verdict P q i sized.0
                        (λ apart v. rw (no_start, no_load, no_store, new) apart))
                    (λ old.
                      other_step-Verdict P q i sized.0
                        (λ apart v. rw (no_start, no_load, no_store, old) apart)))))
