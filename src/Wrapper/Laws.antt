-- ===== src/Wrapper/Laws.antt =====
-- constructInstMap: every instruction of a function gets one wrapper of its own, once.
use dep_taint.Prelude.{
  ℕ, ◌<◌, ◌≡◌, ◌≢◌, refl, inl, inr, true, some, List, [], ◌∷◌, arith, All, ◌==◌, ==_iff,
  if◌then◌else◌, Bool-cases, Option-cases,
}
use dep_taint.Prelude.PtrMap
use dep_taint.Prelude.PtrSet
use dep_taint.Ir.{Ir, instructions}
use dep_taint.Wrapper.{
  Wrapper, InstWrapperType, Statics, IsAllocator, no_statics, inst_wrapper, of_instruction,
  wrap_instruction, visit_instruction, wrap_all, construct_inst_map,
}

-- `w` is the address of a wrapper of instruction `i` that the set of nodes holds.
pub record Wraps (addr : ℕ → ℕ) (s : Statics) (i w : ℕ) : Type 0 where
  pub number : ℕ
  pub older : number < s.allocated
  pub address : addr number ≡ w
  pub wrapper : Wrapper
  pub stored : PtrMap.lookup w s.heap ≡ some wrapper
  pub of : wrapper.instruction ≡ i
  pub kind : wrapper.type ≡ InstWrapperType.inst
  pub known : PtrSet.contains w s.nodes ≡ true

-- Every entry of instMap for an instruction leads to a wrapper of that instruction.
abbrev pub IsValid : (ℕ → ℕ) → Statics → Type 0
IsValid addr s = (i w : ℕ) → i ≢ 0 → PtrMap.lookup i s.inst_map ≡ some w → Wraps addr s i w

-- The wrapper of an instruction; the null pointer where instMap has no entry.
unfoldable pub wrapper_of : Statics → ℕ → ℕ
wrapper_of s i = PtrMap.get_or i 0 s.inst_map

pub inst_wrapper-eq : (s : Statics) (i : ℕ) → (inst_wrapper s i).1 ≡ wrapper_of s i
unfolding inst_wrapper wrapper_of PtrMap.get_or
inst_wrapper-eq s i = ground arith

-- A read of instMap may add an entry, and no later read gives another result for it.
pub wrapper_of-inst_wrapper :
    (s : Statics) (i j : ℕ) → wrapper_of (inst_wrapper s i).0 j ≡ wrapper_of s j
unfolding inst_wrapper wrapper_of PtrMap.get_or
wrapper_of-inst_wrapper s i j = ground (arith, PtrMap.lookup-insert i j 0 s.inst_map)

abbrev pub IsMapped : Statics → ℕ → Type 0
IsMapped s i = (w : ℕ) × (PtrMap.lookup i s.inst_map ≡ some w)

pub no_statics-IsValid : (addr : ℕ → ℕ) → IsValid addr no_statics
unfolding no_statics PtrMap.lookup
no_statics-IsValid addr i w h e = cc

module _ (addr : ℕ → ℕ) (alloc : IsAllocator addr) where
  wrap_instruction-Wraps :
      (s : Statics) (f i j w : ℕ) → Wraps addr s j w → Wraps addr (wrap_instruction addr s f i) j w
  unfolding wrap_instruction
  wrap_instruction-Wraps s f i j w p = record {
    number = p.number;
    older = omega (arith, p.older);
    address = p.address;
    wrapper = p.wrapper;
    stored = ground (
      arith,
      PtrMap.lookup-insert (addr s.allocated) w (of_instruction i f InstWrapperType.inst) s.heap,
      alloc.distinct p.number s.allocated,
      p.stored,
    );
    of = p.of;
    kind = p.kind;
    known = ground (arith, PtrSet.contains-insert (addr s.allocated) w s.nodes, p.known);
  }

  wrap_instruction-new :
      (s : Statics) (f i : ℕ) → Wraps addr (wrap_instruction addr s f i) i (addr s.allocated)
  unfolding wrap_instruction of_instruction
  wrap_instruction-new s f i = record {
    number = s.allocated;
    older = omega arith;
    address = refl;
    wrapper = of_instruction i f InstWrapperType.inst;
    stored = PtrMap.lookup-insert_self (addr s.allocated) _ s.heap;
    of = refl;
    kind = refl;
    known = ground (arith, PtrSet.contains-insert (addr s.allocated) (addr s.allocated) s.nodes);
  }

  inst_map-wrap_instruction :
      (s : Statics) (f i j : ℕ)
      → PtrMap.lookup j (wrap_instruction addr s f i).inst_map
        ≡ (if i == j then some (addr s.allocated) else PtrMap.lookup j s.inst_map)
  unfolding wrap_instruction
  inst_map-wrap_instruction s f i j = PtrMap.lookup-insert i j (addr s.allocated) s.inst_map

  wrap_instruction-IsValid :
      (s : Statics) (f i : ℕ) → IsValid addr s → IsValid addr (wrap_instruction addr s f i)
  wrap_instruction-IsValid s f i v j w h e = elim (Bool-cases (i == j)) [
    | inl same ↦
        let here : addr s.allocated ≡ w = ground (arith, inst_map-wrap_instruction s f i j) in
        rw (← (==_iff i j).0 same, ← here) (wrap_instruction-new s f i)
    | inr other ↦
        wrap_instruction-Wraps s f i j w
          (v j w h (ground (arith, inst_map-wrap_instruction s f i j)))
  ]

  visit_instruction-IsValid :
      (s : Statics) (f i : ℕ) → IsValid addr s → IsValid addr (visit_instruction addr s f i)
  unfolding visit_instruction
  visit_instruction-IsValid s f i v = elim (Option-cases (PtrMap.lookup i s.inst_map)) [
    | inl new ↦ rw (new, visit_instruction) (wrap_instruction-IsValid s f i v)
    | inr (w, old) ↦ rw (old, visit_instruction) v
  ]

  wrap_all-IsValid :
      (s : Statics) (f : ℕ) (is : List ℕ) → IsValid addr s → IsValid addr (wrap_all addr s f is)
  unfolding wrap_all
  wrap_all-IsValid s f [] v = v
  wrap_all-IsValid s f (i ∷ is) v =
      wrap_all-IsValid (visit_instruction addr s f i) f is (visit_instruction-IsValid s f i v)

  -- constructInstMap keeps this: an entry of instMap under an instruction leads to a wrapper of that
  -- instruction, of type INST, that the allocator made and that the set of nodes holds.
  pub construct_inst_map-IsValid :
      (ir : Ir) (s : Statics) (f : ℕ)
      → IsValid addr s
      → IsValid addr (construct_inst_map addr ir s f)
  unfolding construct_inst_map
  construct_inst_map-IsValid ir s f v = wrap_all-IsValid s f (instructions ir f) v

module _ (addr : ℕ → ℕ) where
  visit_instruction-keeps :
      (s : Statics) (f i j w : ℕ)
      → PtrMap.lookup j s.inst_map ≡ some w
      → PtrMap.lookup j (visit_instruction addr s f i).inst_map ≡ some w
  unfolding visit_instruction wrap_instruction
  visit_instruction-keeps s f i j w h =
      ground (arith, PtrMap.lookup-insert i j (addr s.allocated) s.inst_map)

  visit_instruction-IsMapped : (s : Statics) (f i : ℕ) → IsMapped (visit_instruction addr s f i) i
  unfolding visit_instruction wrap_instruction
  visit_instruction-IsMapped s f i = elim (Option-cases (PtrMap.lookup i s.inst_map)) [
    | inl new ↦ (
      addr s.allocated,
      rw (new, visit_instruction) (PtrMap.lookup-insert_self i (addr s.allocated) s.inst_map),
    )
    | inr (w, old) ↦ (w, rw (old, visit_instruction) old)
  ]

  wrap_all-keeps :
      (s : Statics) (f : ℕ) (is : List ℕ) (j w : ℕ)
      → PtrMap.lookup j s.inst_map ≡ some w
      → PtrMap.lookup j (wrap_all addr s f is).inst_map ≡ some w
  unfolding wrap_all
  wrap_all-keeps s f [] j w h = h
  wrap_all-keeps s f (i ∷ is) j w h =
      wrap_all-keeps (visit_instruction addr s f i) f is j w (visit_instruction-keeps s f i j w h)

  wrap_all-IsMapped : (s : Statics) (f : ℕ) (is : List ℕ) → All (IsMapped (wrap_all addr s f is)) is
  unfolding wrap_all
  wrap_all-IsMapped s f [] = tt
  wrap_all-IsMapped s f (i ∷ is) =
      let s1 = visit_instruction addr s f i in
      let (w, here) = visit_instruction-IsMapped s f i in
      ((w, wrap_all-keeps s1 f is i w here), wrap_all-IsMapped s1 f is)

  wrap_all_mapped :
      (s : Statics) (f : ℕ) (is : List ℕ) → All (IsMapped s) is → wrap_all addr s f is ≡ s
  unfolding wrap_all visit_instruction
  wrap_all_mapped s f [] h = refl
  wrap_all_mapped s f (i ∷ is) ((w, here), rest) =
      rw (here, visit_instruction) (wrap_all_mapped s f is rest)

  -- After constructInstMap every instruction of the function has an entry in instMap, and the
  -- entries that were there before are unchanged.
  pub construct_inst_map_total :
      (ir : Ir) (s : Statics) (f : ℕ)
      → All (IsMapped (construct_inst_map addr ir s f)) (instructions ir f)
        × ((j w : ℕ)
            → PtrMap.lookup j s.inst_map ≡ some w
            → PtrMap.lookup j (construct_inst_map addr ir s f).inst_map ≡ some w)
  unfolding construct_inst_map
  construct_inst_map_total ir s f =
      (wrap_all-IsMapped s f (instructions ir f), wrap_all-keeps s f (instructions ir f))

  -- The three passes each call constructInstMap on a function: the second and later calls change
  -- nothing.
  pub construct_inst_map_idem :
      (ir : Ir) (s : Statics) (f : ℕ)
      → construct_inst_map addr ir (construct_inst_map addr ir s f) f
        ≡ construct_inst_map addr ir s f
  unfolding construct_inst_map
  construct_inst_map_idem ir s f =
      wrap_all_mapped (wrap_all addr s f (instructions ir f)) f (instructions ir f)
        (wrap_all-IsMapped s f (instructions ir f))
