-- ===== src/FlowDependence/Remove/Values.antt =====
-- The values of the three caches, and what the loops of removeInstruction make of them.
use dep_taint.Prelude.{
  ℕ, ◌≡◌, ◌≢◌, refl, ◌∙◌, inl, inr, Bool, ◌&&◌, ◌||◌, not, List, [], ◌∷◌, arith, ◌==◌, Bool-cases,
  any,
}
use dep_taint.Ir.{Ir}
use dep_taint.FlowDepResult.{FlowDepResult, no_result, get_inst}
use dep_taint.FlowDependence.Forget.{Entry, PointerInfo}
use dep_taint.FlowDependence.Forget.Entries.{names_target}
use dep_taint.FlowDependence.Order.{before, upper_bound, insert_at, sort}
use dep_taint.FlowDependence.Order.Sorted.{place}
use dep_taint.FlowDependence.Store.{CallInfo, no_call_info, no_pointer_info}
use dep_taint.FlowDependence.Remove.{
  insts_of, renew_local, renew_entries, renew_call, renew_pointer,
}
use dep_taint.FlowDependence.Remove.Linked.{has_add, targets}
use dep_taint.FlowDependence.Remove.Renewed.{Renews}

-- Whether a value names an instruction.
abbrev pub answer_names : ℕ → FlowDepResult → Bool
answer_names i r = not (i == 0) && r.pointer == i

unfoldable pub names_in : ℕ → List Entry → Bool
unfolding insts_of
names_in i es = targets i (insts_of es)

abbrev pub call_names : ℕ → CallInfo → Bool
call_names i info = names_in i info.entries

abbrev pub pointer_names : ℕ → PointerInfo → Bool
pointer_names i info = names_in i info.non_local_deps

pub any-names_target :
    (ir : Ir) (i : ℕ) (es : List Entry) → any (names_target ir i) es ≡ names_in i es
unfolding names_in insts_of get_inst
any-names_target ir i [] = ground arith
any-names_target ir i (e ∷ es) = ground (arith, any-names_target ir i es)

names_in-place :
    (i : ℕ) (v : Entry) (es : List Entry)
    → names_in i (place v es) ≡ ((not (i == 0) && get_inst v.1 == i) || names_in i es)
unfolding names_in insts_of insert_at upper_bound
names_in-place i v [] = ground arith
names_in-place i v (e ∷ es) = elim (Bool-cases (before v e)) [
  | inl first ↦ rw first (ground arith)
  | inr later ↦ rw later (ground (arith, names_in-place i v es))
]

pub names_in-sort : (i : ℕ) (es : List Entry) → names_in i (sort es) ≡ names_in i es
unfolding sort names_in insts_of
names_in-sort i [] = refl
names_in-sort i (e ∷ es) = ground (arith, names_in-place i e (sort es), names_in-sort i es)

module _ (rem : ℕ) (new : FlowDepResult) (real : rem ≢ 0) where
  renew_entries-names :
      (k i : ℕ) (es : List Entry)
      → names_in i (renew_entries rem new k es).0 ≡ (
          (not (rem == i) && names_in i es)
          || (not (i == 0) && new.pointer == i && names_in rem es))
  unfolding renew_entries names_in insts_of get_inst
  renew_entries-names k i [] = ground arith
  renew_entries-names k i (e ∷ es) = elim (Bool-cases (e.1.pointer == rem)) [
    | inl hit ↦ rw hit (ground (arith, renew_entries-names k i es, hit))
    | inr miss ↦ rw miss (ground (arith, renew_entries-names k i es, miss))
  ]

  renew_entries-adds :
      (k i q : ℕ) (es : List Entry)
      → has_add i q (renew_entries rem new k es).1
        ≡ (k == q && not (i == 0) && new.pointer == i && names_in rem es)
  unfolding renew_entries names_in insts_of get_inst
  renew_entries-adds k i q [] = ground arith
  renew_entries-adds k i q (e ∷ es) = elim (Bool-cases (e.1.pointer == rem)) [
    | inl hit ↦ rw hit (ground (arith, renew_entries-adds k i q es, hit))
    | inr miss ↦ rw miss (ground (arith, renew_entries-adds k i q es, miss))
  ]

  pub renew_local-Renews :
      (forbidden : ℕ → Bool)
      → new.pointer ≢ 0
      → Renews answer_names no_result forbidden (renew_local new) rem new.pointer
  unfolding renew_local get_inst
  renew_local-Renews forbidden some_next = record {
    renamed = λ k v named i. ground arith;
    added = λ k v named i q. ground arith;
  }

  pub renew_call-Renews :
      (forbidden : ℕ → Bool)
      → Renews call_names no_call_info forbidden (renew_call rem new) rem new.pointer
  unfolding renew_call
  renew_call-Renews forbidden = record {
    renamed = λ k v named i. ground (arith, renew_entries-names k i v.entries, named);
    added = λ k v named i q. ground (arith, renew_entries-adds k i q v.entries, named);
  }

  pub renew_pointer-Renews :
      (unknown : ℕ) (forbidden : ℕ → Bool)
      → Renews pointer_names
          (no_pointer_info unknown)
          forbidden
          (renew_pointer rem new)
          rem
          new.pointer
  unfolding renew_pointer
  renew_pointer-Renews unknown forbidden = record {
    renamed = λ k v named i.
        names_in-sort i (renew_entries rem new k v.non_local_deps).0
        ∙ ground (arith, renew_entries-names k i v.non_local_deps, named);
    added = λ k v named i q. ground (arith, renew_entries-adds k i q v.non_local_deps, named);
  }
