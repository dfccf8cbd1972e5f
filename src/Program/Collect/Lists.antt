-- ===== src/Program/Collect/Lists.antt =====
-- The lists and sets that a function's wrapper has after the loop, by independent descriptions.
use dep_taint.Prelude.{
  ℕ, ◌≡◌, refl, sym, ap, ◌∙◌, inl, inr, Bool, false, ◌&&◌, ◌||◌, not, none, some, List, [], ◌∷◌,
  ◌++◌, arith, ◌==◌, if◌then◌else◌, any, keep_if, Bool-cases,
}
use mathlib.Core.List.{append-nil, append_assoc}
use dep_taint.Prelude.PtrMap
use dep_taint.Prelude.PtrSet
use dep_taint.Ir.{Ir, Opcode, instructions, is_load, is_store, is_return, is_call, is_alloca}
use dep_taint.Function.{FunctionWrapper, new_function_wrapper}
use dep_taint.Program.Taint.{alloca_max}
use dep_taint.Program.Collect.{
  has_text, collect_store, collect_alloca, collect_instruction, collect_all, collect,
}

module _ (ir : Ir) where
  abbrev pub of_class : (Opcode → Bool) → List ℕ → List ℕ
  of_class p = keep_if (λ i. p (ir.opcode i))

  -- Instruction `i` puts the pointer `v` into the set.
  unfoldable pub gives_pointer : ℕ → ℕ → Bool
  gives_pointer v i = elim (ir.opcode i) [
    | Opcode.store ↦
        ir.pointer_operand i == v
        || ir.is_pointer_type (ir.value_operand i) && ir.value_operand i == v
    | Opcode.load ↦ ir.pointer_operand i == v
    | _ ↦ false
  ]

  -- An alloca that the map takes.
  unfoldable pub is_tracked : ℕ → Bool
  is_tracked i = is_alloca (ir.opcode i) && not (has_text "retval" (ir.name i))

  -- One instruction, with the list that it adds to.
  abbrev taken : (Opcode → Bool) → ℕ → List ℕ
  taken p i = if p (ir.opcode i) then i ∷ [] else []

  collect_instruction-lists :
      (fw : FunctionWrapper) (i : ℕ)
      → ((collect_instruction ir fw i).store_insts ≡ fw.store_insts ++ taken is_store i)
        × ((collect_instruction ir fw i).load_insts ≡ fw.load_insts ++ taken is_load i)
        × ((collect_instruction ir fw i).return_insts ≡ fw.return_insts ++ taken is_return i)
        × ((collect_instruction ir fw i).call_insts ≡ fw.call_insts ++ taken is_call i)
  unfolding collect_instruction collect_store collect_alloca
  collect_instruction-lists fw i = ground (
    arith,
    append-nil fw.store_insts,
    append-nil fw.load_insts,
    append-nil fw.return_insts,
    append-nil fw.call_insts,
  )

  taken-of_class :
      (p : Opcode → Bool) (xs : List ℕ) (i : ℕ) (is : List ℕ)
      → (xs ++ taken p i) ++ of_class p is ≡ xs ++ of_class p (i ∷ is)
  unfolding keep_if
  taken-of_class p xs i is = elim (Bool-cases (p (ir.opcode i))) [
    | inl yes_class ↦ rw yes_class (append_assoc xs (i ∷ []) (of_class p is))
    | inr other ↦ rw (other, append-nil) refl
  ]

  collect_all-lists :
      (fw : FunctionWrapper) (is : List ℕ)
      → ((collect_all ir fw is).store_insts ≡ fw.store_insts ++ of_class is_store is)
        × ((collect_all ir fw is).load_insts ≡ fw.load_insts ++ of_class is_load is)
        × ((collect_all ir fw is).return_insts ≡ fw.return_insts ++ of_class is_return is)
        × ((collect_all ir fw is).call_insts ≡ fw.call_insts ++ of_class is_call is)
  unfolding collect_all keep_if
  collect_all-lists fw [] = (
    sym (append-nil fw.store_insts),
    sym (append-nil fw.load_insts),
    sym (append-nil fw.return_insts),
    sym (append-nil fw.call_insts),
  )
  collect_all-lists fw (i ∷ is) =
      let (s, l, r, c) = collect_instruction-lists fw i in
      let (hs, hl, hr, hc) = collect_all-lists (collect_instruction ir fw i) is in
      (
        hs ∙ ap (λ xs. xs ++ of_class is_store is) s ∙ taken-of_class is_store fw.store_insts i is,
        hl ∙ ap (λ xs. xs ++ of_class is_load is) l ∙ taken-of_class is_load fw.load_insts i is,
        hr
            ∙ ap (λ xs. xs ++ of_class is_return is) r
            ∙ taken-of_class is_return fw.return_insts i is,
        hc ∙ ap (λ xs. xs ++ of_class is_call is) c ∙ taken-of_class is_call fw.call_insts i is,
      )

  collect_instruction-maps :
      (fw : FunctionWrapper) (i v : ℕ)
      → (PtrSet.contains v (collect_instruction ir fw i).ptr_set
          ≡ (PtrSet.contains v fw.ptr_set || gives_pointer v i))
        × (PtrMap.lookup v (collect_instruction ir fw i).alloca_map
            ≡ (if i == v && is_tracked i then some alloca_max else PtrMap.lookup v fw.alloca_map))
  unfolding collect_instruction collect_store collect_alloca gives_pointer is_tracked
  collect_instruction-maps fw i v = ground (
    arith,
    PtrSet.contains-insert (ir.pointer_operand i) v fw.ptr_set,
    PtrSet.contains-insert (ir.value_operand i) v (PtrSet.insert (ir.pointer_operand i) fw.ptr_set),
    PtrMap.lookup-insert i v alloca_max fw.alloca_map,
  )

  collect_all-maps :
      (fw : FunctionWrapper) (is : List ℕ) (v : ℕ)
      → (PtrSet.contains v (collect_all ir fw is).ptr_set
          ≡ (PtrSet.contains v fw.ptr_set || any (gives_pointer v) is))
        × (PtrMap.lookup v (collect_all ir fw is).alloca_map ≡ (
            if is_tracked v && any (λ i. i == v) is
            then some alloca_max
            else PtrMap.lookup v fw.alloca_map))
  unfolding collect_all
  collect_all-maps fw [] v = ground arith
  collect_all-maps fw (i ∷ is) v =
      ground (
        arith,
        collect_instruction-maps fw i v,
        collect_all-maps (collect_instruction ir fw i) is v,
      )

-- The wrapper of a function after the loop.
unfoldable pub collected : Ir → ℕ → List ℕ → FunctionWrapper
unfolding collect new_function_wrapper
collected ir f arguments = collect ir (new_function_wrapper f arguments) f

-- The loop leaves a fresh function wrapper with the stores, loads, returns and calls of the function,
-- each in the order of the function; ptrSet has exactly the pointers that loads and stores go
-- through and the pointers that are stored; and allocaMap has an entry, allocaMAX, for exactly the
-- allocas of the function whose name does not contain "retval".
pub collect_exact :
    (ir : Ir) (f : ℕ) (arguments : List ℕ)
    → ((collected ir f arguments).store_insts ≡ of_class ir is_store (instructions ir f))
      × ((collected ir f arguments).load_insts ≡ of_class ir is_load (instructions ir f))
      × ((collected ir f arguments).return_insts ≡ of_class ir is_return (instructions ir f))
      × ((collected ir f arguments).call_insts ≡ of_class ir is_call (instructions ir f))
      × ((v : ℕ)
          → PtrSet.contains v (collected ir f arguments).ptr_set
            ≡ any (gives_pointer ir v) (instructions ir f))
      × ((v : ℕ)
          → PtrMap.lookup v (collected ir f arguments).alloca_map ≡ (
              if is_tracked ir v && any (λ i. i == v) (instructions ir f)
              then some alloca_max
              else none))
unfolding collected collect new_function_wrapper PtrSet.contains PtrMap.lookup
collect_exact ir f arguments =
    let fw = new_function_wrapper f arguments in
    let is = instructions ir f in
    let (s, l, r, c) = collect_all-lists ir fw is in
    (s, l, r, c, λ v. (collect_all-maps ir fw is v).0, λ v. (collect_all-maps ir fw is v).1)
