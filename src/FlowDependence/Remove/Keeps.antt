-- ===== src/FlowDependence/Remove/Keeps.antt =====
-- What RemoveFromReverseMap keeps, the loops over a key's targets keep.
use dep_taint.Prelude.{
  ℕ, ◌≡◌, sym, ◌∙◌, subst, inl, inr, not, List, [], ◌∷◌, arith, ◌==◌, Bool-cases, if_true, if_false,
}
use dep_taint.Prelude.Outcome.{done, >>=-eq-done}
use dep_taint.Prelude.PtrMap.{PtrMap}
use dep_taint.Prelude.PtrSet.{PtrSet}
use dep_taint.Ir.{Ir}
use dep_taint.FlowDepResult.{get_inst}
use dep_taint.FlowDependence.Cache.{remove_from_reverse_map}
use dep_taint.FlowDependence.Forget.{Entry, forget_entries}
use dep_taint.FlowDependence.Remove.{unlink}

module _ (P : PtrMap PtrSet → Type 0)
    (keep : (m n : PtrMap PtrSet) (inst val : ℕ)
      → remove_from_reverse_map m inst val ≡ done n
      → P m
      → P n) where
  pub unlink-keeps :
      (key : ℕ) (is : List ℕ) (m n : PtrMap PtrSet) → unlink key is m ≡ done n → P m → P n
  unfolding unlink
  unlink-keeps key [] m n h sets = let e : m ≡ n = cc in subst P e sets
  unlink-keeps key (i ∷ is) m n h sets = elim (Bool-cases (i == 0)) [
    | inl nothing ↦ unlink-keeps key is m n (sym (if_true _ _ _ nothing) ∙ h) sets
    | inr real ↦
        let (l, first, then_rest) =
          >>=-eq-done (remove_from_reverse_map m i key) (unlink key is)
            (sym (if_false _ _ _ real) ∙ h) in
        unlink-keeps key is l n then_rest (keep m l i key first sets)
  ]

  pub forget_entries-keeps :
      (ir : Ir) (key : ℕ) (es : List Entry) (m n : PtrMap PtrSet)
      → forget_entries ir key es m ≡ done n
      → P m
      → P n
  unfolding forget_entries
  forget_entries-keeps ir key [] m n h sets = let e : m ≡ n = cc in subst P e sets
  forget_entries-keeps ir key (e ∷ es) m n h sets = elim (Bool-cases (get_inst e.1 == 0)) [
    | inl nothing ↦ forget_entries-keeps ir key es m n (sym (if_true _ _ _ nothing) ∙ h) sets
    | inr real ↦ elim (Bool-cases (not (ir.is_instruction (get_inst e.1)))) [
      | inl wild ↦ absurd (ground (arith, h, real, wild))
      | inr inst ↦ elim (Bool-cases (not (ir.block_of (get_inst e.1) == e.0))) [
        | inl away ↦ absurd (ground (arith, h, real, inst, away))
        | inr home ↦
            let (l, first, then_rest) =
              >>=-eq-done (remove_from_reverse_map m (get_inst e.1) key) (forget_entries ir key es)
                (sym (if_false _ _ _ real ∙ if_false _ _ _ inst ∙ if_false _ _ _ home) ∙ h) in
            forget_entries-keeps ir key es l n then_rest (keep m l (get_inst e.1) key first sets)
      ]
    ]
  ]
