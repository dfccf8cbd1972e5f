-- ===== src/FlowDependence/Forget/Entries.antt =====
-- What becomes of the entries of a pointer, and of those without an instruction.
use mathlib.Core.List.{Memᴰ}
use mathlib.Core.List.Memᴰ
use dep_taint.Prelude.{
  if_false, ℕ, ◌≡◌, ◌≢◌, refl, ap, subst, ◌∙◌, ◌⊎◌, inl, inr, Bool, true, false, ◌&&◌, ◌||◌, not,
  Option, none, some, List, [], ◌∷◌, arith, ◌==◌, if◌then◌else◌, Bool-cases, any, All, All-mono,
}
use dep_taint.Prelude.Outcome.{Outcome, done, fault, ◌>>=◌}
use dep_taint.Prelude.PtrMap
use dep_taint.Prelude.PtrMap.{PtrMap}
use dep_taint.Prelude.PtrSet
use dep_taint.Prelude.PtrSet.{PtrSet}
use dep_taint.Ir.{Ir}
use dep_taint.FlowDepResult.{get_inst, is_non_local, is_non_func_local, is_unknown}
use dep_taint.FlowDependence.Cache.{remove_from, remove_from_reverse_map}
use dep_taint.FlowDependence.Cache.Synced.{in_reverse, remove-lem}
use dep_taint.FlowDependence.Forget.{
  Entry, PointerInfo, PointerCache, forget_entries, remove_found, remove_cached,
}

remove_from-cases :
    (m : PtrMap PtrSet) (inst val : ℕ) (o : Option PtrSet)
    → (remove_from m inst val o ≡ fault)
      ⊎ ((n : PtrMap PtrSet) × (remove_from m inst val o ≡ done n))
unfolding remove_from
remove_from-cases m inst val none = inl refl
remove_from-cases m inst val (some s) = elim (Bool-cases (PtrSet.contains val s)) [
  | inl has ↦ rw has (inr (_, refl))
  | inr lacks ↦ rw lacks (inl refl)
]

bind_fault :
    {A B : Type 0} (m : Outcome A) (f : A → Outcome B)
    → ((m ≡ fault) ⊎ ((a : A) × (m ≡ done a)))
    → ((a : A) → f a ≡ fault)
    → (m >>= f) ≡ fault
bind_fault m f (inl e) h = rw e refl
bind_fault m f (inr (a, e)) h = rw e (h a)

fault_bind : {A B : Type 0} (m : Outcome A) (f : A → Outcome B) → m ≡ fault → (m >>= f) ≡ fault
fault_bind m f e = rw e refl

if_fault :
    {A : Type 0} (c : Bool) (m n : Outcome A)
    → (c ≡ true → m ≡ fault)
    → (c ≡ false → n ≡ fault)
    → (if c then m else n) ≡ fault
if_fault true m n h k = h refl
if_fault false m n h k = k refl

module _ (ir : Ir) where
  -- The code follows the pointer of an entry, and it is no instruction's.
  abbrev IsStray : Entry → Type 0
  IsStray e = (get_inst e.1 ≢ 0) × (ir.is_instruction (get_inst e.1) ≡ false)

  forget_entries-fault :
      (key : ℕ) (es : List Entry) (e : Entry) (m : PtrMap PtrSet)
      → Memᴰ e es
      → IsStray e
      → forget_entries ir key es m ≡ fault
  unfolding forget_entries remove_from_reverse_map
  forget_entries-fault key [] e m i stray = absurd (Memᴰ.not-nil i)
  forget_entries-fault key (d ∷ es) e m i stray = elim (Memᴰ.cases_cons i) [
    | inl same ↦
        let (real, wild) = subst (λ k. IsStray k) same stray in
        if_fault (get_inst d.1 == 0) _ _ (λ z. absurd (ground (arith, real, z)))
          (λ _.
            if_fault (not (ir.is_instruction (get_inst d.1))) _ _ (λ _. refl)
              (λ z. absurd (ground (arith, wild, z))))
    | inr later ↦
        let rest : (n : PtrMap PtrSet) → forget_entries ir key es n ≡ fault =
          λ n. forget_entries-fault key es e n later stray in
        if_fault (get_inst d.1 == 0) _ _ (λ _. rest m)
          (λ _.
            if_fault (not (ir.is_instruction (get_inst d.1))) _ _ (λ _. refl)
              (λ _.
                if_fault (not (ir.block_of (get_inst d.1) == d.0)) _ _ (λ _. refl)
                  (λ _.
                    bind_fault (remove_from_reverse_map m (get_inst d.1) key)
                      (forget_entries ir key es)
                      (remove_from-cases m (get_inst d.1) key (PtrMap.lookup (get_inst d.1) m))
                      rest)))
  ]

  other-IsStray :
      (e : Entry)
      → (is_non_local e.1 || is_non_func_local e.1 || is_unknown e.1) ≡ true
      → ir.is_instruction 4 ≡ false
      → ir.is_instruction 8 ≡ false
      → ir.is_instruction 12 ≡ false
      → IsStray e
  unfolding is_non_local is_non_func_local is_unknown get_inst
  other-IsStray e other h4 h8 h12 = elim (Bool-cases (e.1.pointer == 4)) [
    | inl four ↦
        let at : e.1.pointer ≡ 4 = ground (arith, four) in
        (omega arith, ap ir.is_instruction at ∙ h4)
    | inr no_four ↦ elim (Bool-cases (e.1.pointer == 8)) [
      | inl eight ↦
          let at : e.1.pointer ≡ 8 = ground (arith, eight) in
          (omega arith, ap ir.is_instruction at ∙ h8)
      | inr no_eight ↦
          let at : e.1.pointer ≡ 12 = ground (arith, other, no_four, no_eight) in
          (omega arith, ap ir.is_instruction at ∙ h12)
    ]
  ]

  -- Where no instruction has the address 4, 8 or 12, the code has undefined behaviour on a pointer
  -- with a cached answer NonLocal, NonFuncLocal or Unknown: RemoveCachedNonLocalPointerDependencies
  -- is a fault in the model, whatever the other entries and the reverse map.
  pub remove_cached_faults :
      (c : PointerCache) (key : ℕ) (info : PointerInfo) (e : Entry)
      → PtrMap.lookup key c.non_local_pointer_deps ≡ some info
      → Memᴰ e info.non_local_deps
      → (is_non_local e.1 || is_non_func_local e.1 || is_unknown e.1) ≡ true
      → ir.is_instruction 4 ≡ false
      → ir.is_instruction 8 ≡ false
      → ir.is_instruction 12 ≡ false
      → remove_cached ir c key ≡ fault
  unfolding remove_cached remove_found
  remove_cached_faults c key info e at i other h4 h8 h12 =
      let stray = other-IsStray e other h4 h8 h12 in
      ap (remove_found ir c key) at
      ∙ fault_bind (forget_entries ir key info.non_local_deps c.reverse_non_local_ptr_deps) _
          (forget_entries-fault key info.non_local_deps e c.reverse_non_local_ptr_deps i stray)

  -- An entry without an instruction, or one whose instruction stands in its block and is in the
  -- reverse map under the key.
  abbrev pub IsRegistered : PtrMap PtrSet → ℕ → Entry → Type 0
  IsRegistered m key e =
      (get_inst e.1 ≡ 0)
      ⊎ ((get_inst e.1 ≢ 0)
          × (ir.is_instruction (get_inst e.1) ≡ true)
          × (ir.block_of (get_inst e.1) ≡ e.0)
          × (in_reverse m (get_inst e.1) key ≡ true))

  -- No two entries name the same instruction.
  abbrev pub IsApart : List Entry → Type 0
  IsApart [] = Unit
  IsApart (d ∷ es) = All (λ e. (get_inst d.1 ≢ 0) → get_inst d.1 ≢ get_inst e.1) es × IsApart es

  abbrev pub names_target : ℕ → Entry → Bool
  names_target i e = not (i == 0) && get_inst e.1 == i

  IsRegistered-rest :
      (m n : PtrMap PtrSet) (key t : ℕ) (es : List Entry)
      → ((i k : ℕ) → in_reverse n i k ≡ (not (t == i && key == k) && in_reverse m i k))
      → All (λ e. t ≢ get_inst e.1) es
      → All (IsRegistered m key) es
      → All (IsRegistered n key) es
  IsRegistered-rest m n key t [] exact far h = tt
  IsRegistered-rest m n key t (e ∷ es) exact (other, far) (inl none_there, h) =
      (inl none_there, IsRegistered-rest m n key t es exact far h)
  IsRegistered-rest m n key t (e ∷ es) exact (other, far) (inr (real, inst, block, held), h) = (
    inr (real, inst, block, ground (arith, exact (get_inst e.1) key, other, held)),
    IsRegistered-rest m n key t es exact far h,
  )

  forget_entries-lem :
      (key : ℕ) (es : List Entry) (m : PtrMap PtrSet)
      → All (IsRegistered m key) es
      → IsApart es
      → (n : PtrMap PtrSet) × (forget_entries ir key es m ≡ done n)
        × ((i k : ℕ)
            → in_reverse n i k ≡ (not (key == k && any (names_target i) es) && in_reverse m i k))
  unfolding forget_entries
  forget_entries-lem key [] m h apart = (m, refl, λ i k. ground arith)
  forget_entries-lem key (e ∷ es) m (inl nothing, h) (far, apart) =
      let (n, runs, exact) = forget_entries-lem key es m h apart in
      let zero_there : (get_inst e.1 == 0) ≡ true = ground (arith, nothing) in
      (n, rw zero_there runs, λ i k. ground (arith, exact i k, nothing))
  forget_entries-lem key (e ∷ es) m (inr (real, inst, block, held), h) (far, apart) =
      let (n, removes, less) = remove-lem m (get_inst e.1) key held in
      let (q, runs, exact) =
        forget_entries-lem key es n
          (IsRegistered-rest m n key (get_inst e.1) es less (All-mono _ _ (λ d f. f real) es far) h)
          apart in
      let some_there : (get_inst e.1 == 0) ≡ false = ground (arith, real) in
      let in_block : (ir.block_of (get_inst e.1) == e.0) ≡ true = ground (arith, block) in
      (
        q,
        if_false _ _ _ some_there
            ∙ if_false _ _ _ (ap not inst)
            ∙ if_false _ _ _ (ap not in_block)
            ∙ ap (λ o. o >>= forget_entries ir key es) removes
            ∙ runs,
        λ i k. ground (arith, exact i k, less i k, real),
      )

  -- Where each cached answer of a pointer has no instruction, or one that stands in the answer's block
  -- and under which the reverse map has the pointer, and no two answers have the same one,
  -- RemoveCachedNonLocalPointerDependencies returns: no assertion fails. The pointer has no cached
  -- answers then, other pointers keep theirs, and the reverse map forgets the pointer under the
  -- instructions of its answers and nothing else.
  pub remove_cached_forgets :
      (c : PointerCache) (key : ℕ) (info : PointerInfo)
      → PtrMap.lookup key c.non_local_pointer_deps ≡ some info
      → All (IsRegistered c.reverse_non_local_ptr_deps key) info.non_local_deps
      → IsApart info.non_local_deps
      → (d : PointerCache) × (remove_cached ir c key ≡ done d)
        × (PtrMap.lookup key d.non_local_pointer_deps ≡ none)
        × ((k : ℕ)
            → key ≢ k
            → PtrMap.lookup k d.non_local_pointer_deps ≡ PtrMap.lookup k c.non_local_pointer_deps)
        × ((i k : ℕ)
            → in_reverse d.reverse_non_local_ptr_deps i k ≡ (
                not (key == k && any (names_target i) info.non_local_deps)
                && in_reverse c.reverse_non_local_ptr_deps i k))
  unfolding remove_cached remove_found
  remove_cached_forgets c key info at h apart =
      let (n, runs, exact) =
        forget_entries-lem key info.non_local_deps c.reverse_non_local_ptr_deps h apart in
      let m = c.non_local_pointer_deps in
      let after : PtrMap PtrSet → Outcome PointerCache = λ q.
        done (record {
          non_local_pointer_deps = PtrMap.erase key m;
          reverse_non_local_ptr_deps = q;
        }) in
      (
        record { non_local_pointer_deps = PtrMap.erase key m; reverse_non_local_ptr_deps = n },
        ap (remove_found ir c key) at ∙ ap (λ o. o >>= after) runs,
        ground (arith, PtrMap.lookup-erase key key m),
        λ k other. ground (arith, PtrMap.lookup-erase key k m, other),
        exact,
      )
