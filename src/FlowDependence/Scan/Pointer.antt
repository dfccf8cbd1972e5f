-- ===== src/FlowDependence/Scan/Pointer.antt =====
-- The scan for a location against the reference.
use dep_taint.Prelude.{
  ℕ, suc, ◌≡◌, refl, sym, ap, ◌∙◌, ◌⊎◌, inl, inr, Bool, true, false, not, List, [], ◌∷◌, arith,
  if◌then◌else◌, keep_if, Bool-cases, ltb, ◌*◌, ◌%◌, ◌&&◌, ◌||◌,
}
use dep_taint.Prelude.Outcome.{◌>>=◌, fault}
use dep_taint.Ir.{Ir, is_load, is_store, is_alloca}
use dep_taint.Data.{AliasResult}
use dep_taint.FlowDepResult.{FlowDepResult, get_clobber}
use dep_taint.FlowDependence.{Llvm, Location, backwards, is_position, answer, continue}
use dep_taint.FlowDependence.Calls.{at_start}
use dep_taint.FlowDependence.Widen.{memoize, is_load_load_clobber_if_extended_to_full_width}
use dep_taint.FlowDependence.Pointers.{
  Query, Base, is_lifetime_start, no_base, apart_step, load_step, pointer_step, pointer_scan,
  get_pointer_dependency_from, is_invariant_query,
}
use dep_taint.FlowDependence.Scan.{Decide, reference, reference-cons, reference-nil, room}

module _ (ir : Ir) (llvm : Llvm) where
  -- The base is not computed yet, or it is that of the queried location.
  abbrev IsKnown : Query → Base → Type 0
  IsKnown q base = (base ≡ no_base) ⊎ (base ≡ llvm.base_with_offset q.loc.ptr)

  memoize-known :
      (q : Query) (base : Base)
      → IsKnown q base
      → memoize ir llvm q.loc.ptr base ≡ llvm.base_with_offset q.loc.ptr
  unfolding memoize
  memoize-known q base (inl e) = rw e refl
  memoize-known q base (inr e) = rw e (ground arith)

  -- What an instruction decides, with the base computed anew.
  unfoldable pub decide : Query → Decide
  unfolding pointer_step
  decide q i = (pointer_step ir llvm q (llvm.base_with_offset q.loc.ptr) i).1

  Agrees : {A : Type 0} → Query → (Base → Base × A) → Base → Type 0
  Agrees q f base = IsKnown q (f base).0 × ((f base).1 ≡ (f (llvm.base_with_offset q.loc.ptr)).1)

  Agrees-pass :
      {A : Type 0} (q : Query) (base : Base) (a : A) → IsKnown q base → Agrees q (λ b. (b, a)) base
  unfolding Agrees
  Agrees-pass q base a k = (k, refl)

  extended-Agrees :
      (q : Query) (base : Base) (i : ℕ)
      → IsKnown q base
      → Agrees q (λ b. is_load_load_clobber_if_extended_to_full_width ir llvm q.loc b i) base
  unfolding Agrees is_load_load_clobber_if_extended_to_full_width
  extended-Agrees q base i k = elim (Bool-cases llvm.has_data_layout) [
    | inl layout ↦
        rw
          (
            layout,
            memoize-known q base k,
            memoize-known q (llvm.base_with_offset q.loc.ptr) (inr refl),
          )
          (inr refl, refl)
    | inr no_layout ↦ rw no_layout (k, refl)
  ]

  apart_step-Agrees :
      (q : Query) (base : Base) (i : ℕ)
      → IsKnown q base
      → Agrees q (λ b. apart_step ir llvm q b i) base
  unfolding Agrees apart_step
  apart_step-Agrees q base i k =
      let (known, same) = extended-Agrees q base i k in
      elim (Bool-cases
        (llvm.is_integer i && ltb (llvm.bits i) (llvm.alignment i * 8 % 4294967296))) [
          | inl wide ↦
              rw wide
                (known, ap (λ w. w >>= λ b. if b then answer (get_clobber i) else continue) same)
          | inr narrow ↦ rw narrow (k, refl)
        ]

  Agrees-if :
      {A : Type 0} (q : Query) (base : Base) (c : Bool) (f g : Base → Base × A)
      → Agrees q f base
      → Agrees q g base
      → Agrees q (λ b. if c then f b else g b) base
  unfolding Agrees
  Agrees-if q base true f g h k = h
  Agrees-if q base false f g h k = k

  Agrees-alias :
      {A : Type 0} (q : Query) (base : Base) (r : AliasResult) (f g h : Base → Base × A)
      → Agrees q f base
      → Agrees q g base
      → Agrees q h base
      → Agrees {A = A} q
          (λ b. elim r [
            | AliasResult.no_alias ↦ f b
            | AliasResult.must_alias ↦ g b
            | AliasResult.may_alias ↦ h b
            | AliasResult.partial_alias ↦ h b
          ])
          base
  unfolding Agrees
  Agrees-alias q base AliasResult.no_alias f g h p r s = p
  Agrees-alias q base AliasResult.must_alias f g h p r s = r
  Agrees-alias q base AliasResult.may_alias f g h p r s = s
  Agrees-alias q base AliasResult.partial_alias f g h p r s = s

  load_step-Agrees :
      (q : Query) (base : Base) (i : ℕ)
      → IsKnown q base
      → Agrees q (λ b. load_step ir llvm q b i) base
  unfolding load_step
  load_step-Agrees q base i k =
      Agrees-if q base (not (llvm.is_unordered i)) _ _ (Agrees-pass q base _ k) (
        Agrees-if q base q.is_load _ _
          (Agrees-alias q base (llvm.alias (llvm.location i) q.loc) _ _ _
            (apart_step-Agrees q base i k) (Agrees-pass q base _ k) (Agrees-pass q base _ k))
          (Agrees-alias q base (llvm.alias (llvm.location i) q.loc) _ _ _ (Agrees-pass q base _ k)
            (Agrees-if q base (llvm.is_constant_memory (llvm.location i)) _ _
              (Agrees-pass q base _ k) (Agrees-pass q base _ k))
            (Agrees-if q base (llvm.is_constant_memory (llvm.location i)) _ _
              (Agrees-pass q base _ k) (Agrees-pass q base _ k))))

  pointer_step-Agrees :
      (q : Query) (base : Base) (i : ℕ)
      → IsKnown q base
      → Agrees q (λ b. pointer_step ir llvm q b i) base
  unfolding pointer_step
  pointer_step-Agrees q base i k =
      Agrees-if q base (is_lifetime_start ir llvm i) _ _ (Agrees-pass q base _ k) (
        Agrees-if q base (is_load (ir.opcode i)) _ _ (load_step-Agrees q base i k) (
          Agrees-if q base (is_store (ir.opcode i)) _ _ (Agrees-pass q base _ k) (
            Agrees-if q base (is_alloca (ir.opcode i) || llvm.is_no_alias_fn i) _ _
              (Agrees-pass q base _ k) (Agrees-pass q base _ k))))

  pointer_scan-reference :
      (q : Query) (end : FlowDepResult) (base : Base) (n : ℕ) (is : List ℕ)
      → IsKnown q base
      → pointer_scan ir llvm q end base (suc n) is
        ≡ reference (decide q) end n (keep_if (λ i. not (llvm.is_debug i)) is)
  unfolding pointer_scan decide Agrees keep_if
  pointer_scan-reference q end base n [] k = sym (reference-nil _ end n)
  pointer_scan-reference q end base n (i ∷ is) k = elim (Bool-cases (llvm.is_debug i)) [
    | inl debug ↦ rw debug (pointer_scan-reference q end base n is k)
    | inr counted ↦
        let (known, same) = pointer_step-Agrees q base i k in
        rw (counted, same)
          (room n (decide q i)
              (λ m. pointer_scan ir llvm q end (pointer_step ir llvm q base i).0 m is)
              (λ m. reference (decide q) end m (keep_if (λ j. not (llvm.is_debug j)) is))
              (λ m. pointer_scan-reference q end (pointer_step ir llvm q base i).0 m is known)
            ∙ reference-cons (decide q) end n i (keep_if (λ j. not (llvm.is_debug j)) is))
  ]

  -- The query of a call, and the instructions before it but for debug intrinsics.
  abbrev pub query_of : Location → Bool → ℕ → Query
  query_of loc load query = record {
    loc = loc;
    is_load = load;
    is_invariant_load = is_invariant_query ir llvm load query;
  }

  abbrev pub considered : ℕ → ℕ → List ℕ
  considered scan_it block =
      keep_if (λ i. not (llvm.is_debug i)) (backwards scan_it [] (ir.insts block))

  -- getPointerDependencyFrom is the answer of the nearest of the 99 instructions before the query that
  -- gives one, where debug intrinsics do not count and the base of the location is computed at once;
  -- without one it is that of the start of the block if there are no more than those 99, and
  -- unknown otherwise. From a position outside the block it is undefined.
  pub pointer_dependency_nearest :
      (loc : Location) (load : Bool) (scan_it block query : ℕ)
      → get_pointer_dependency_from ir llvm loc load scan_it block query ≡ (
          if is_position scan_it (ir.insts block)
          then reference
              (decide (query_of loc load query))
              (at_start ir llvm block)
              99
              (considered scan_it block)
          else fault)
  unfolding get_pointer_dependency_from
  pointer_dependency_nearest loc load scan_it block query =
      ap (λ m. if is_position scan_it (ir.insts block) then m else fault)
        (pointer_scan-reference _ (at_start ir llvm block) no_base 99
          (backwards scan_it [] (ir.insts block)) (inl refl))
