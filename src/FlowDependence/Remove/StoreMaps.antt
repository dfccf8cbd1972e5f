-- ===== src/FlowDependence/Remove/StoreMaps.antt =====
-- removeInstruction keeps the order of all six maps.
use dep_taint.Prelude.{
  ℕ, ◌≡◌, ◌≢◌, sym, ◌∙◌, subst, inl, inr, true, false, ◌||◌, Option, none, some, [], ◌∷◌, arith,
  ◌==◌, Bool-cases, Option-cases, if_true, if_false,
}
use dep_taint.Prelude.Outcome.{Outcome, done, fault, >>=-eq-done}
use dep_taint.Prelude.PtrMap
use dep_taint.Prelude.PtrMap.{PtrMap}
use dep_taint.Prelude.PtrSet.{PtrSet}
use dep_taint.Ir.{Ir}
use dep_taint.FlowDepResult.{FlowDepResult, no_result, get_inst}
use dep_taint.FlowDependence.{Llvm}
use dep_taint.FlowDependence.Cache.{LocalCache}
use dep_taint.FlowDependence.Forget.{
  PointerInfo, PointerCache, value_is_load, forget_entries, remove_found, remove_cached,
}
use dep_taint.FlowDependence.Store.{CallInfo, no_call_info, no_pointer_info, CallCache, Store}
use dep_taint.FlowDependence.Remove.{
  renew_local, renew_call, renew_pointer, key_pointer, unlink, insts_of, drop_call, drop_local,
  drop_pointer, renew_dependents, renew_locals, renew_calls, renew_pointers, new_dirty_val,
  not_in_calls, remove_instruction, is_empty_set,
}
use dep_taint.FlowDependence.Remove.Keeps.{unlink-keeps, forget_entries-keeps}
use dep_taint.FlowDependence.Remove.Maps.{BothMaps, remove-IsMap, renew_dependents-IsMap}

abbrev pub LocalMaps : LocalCache → Type 0
LocalMaps c = BothMaps c.local_deps c.reverse_local_deps

abbrev pub CallMaps : CallCache → Type 0
CallMaps c = BothMaps c.non_local_deps c.reverse_non_local_deps

abbrev pub PointerMaps : PointerCache → Type 0
PointerMaps c = BothMaps c.non_local_pointer_deps c.reverse_non_local_ptr_deps

-- In none of the maps is a key twice.
pub record AreMaps (s : Store) : Type 0 where
  pub local : LocalMaps s.local
  pub calls : CallMaps s.calls
  pub pointers : PointerMaps s.pointers

done-same {ℓ} : {A : Type ℓ} (a b : A) → done a ≡ done b → a ≡ b
done-same a b h = cc

fault-ne-done {ℓ} : {A : Type ℓ} (a : A) → fault ≢ done a
fault-ne-done a h = cc

drop_call-Maps :
    (rem : ℕ) (c d : CallCache) (o : Option CallInfo)
    → drop_call rem c o ≡ done d
    → CallMaps c
    → CallMaps d
unfolding drop_call
drop_call-Maps rem c d none h k = let e : c ≡ d = cc in subst CallMaps e k
drop_call-Maps rem c d (some info) h k =
    let (m, first, rest) =
      >>=-eq-done (unlink rem (insts_of info.entries) c.reverse_non_local_deps) _ h in
    subst CallMaps (done-same _ d rest) (
      PtrMap.erase-IsMap rem c.non_local_deps k.0,
      unlink-keeps PtrMap.IsMap remove-IsMap rem (insts_of info.entries) _ m first k.1,
    )

drop_local-Maps :
    (rem : ℕ) (c d : LocalCache) (o : Option FlowDepResult)
    → drop_local rem c o ≡ done d
    → LocalMaps c
    → LocalMaps d
unfolding drop_local
drop_local-Maps rem c d none h k = let e : c ≡ d = cc in subst LocalMaps e k
drop_local-Maps rem c d (some r) h k =
    let (m, first, rest) = >>=-eq-done (unlink rem (get_inst r ∷ []) c.reverse_local_deps) _ h in
    subst LocalMaps (done-same _ d rest) (
      PtrMap.erase-IsMap rem c.local_deps k.0,
      unlink-keeps PtrMap.IsMap remove-IsMap rem (get_inst r ∷ []) _ m first k.1,
    )

module _ (ir : Ir) where
  remove_found-Maps :
      (c d : PointerCache) (key : ℕ) (o : Option PointerInfo)
      → remove_found ir c key o ≡ done d
      → PointerMaps c
      → PointerMaps d
  unfolding remove_found
  remove_found-Maps c d key none h k = let e : c ≡ d = cc in subst PointerMaps e k
  remove_found-Maps c d key (some info) h k =
      let (m, first, rest) =
        >>=-eq-done (forget_entries ir key info.non_local_deps c.reverse_non_local_ptr_deps) _ h in
      subst PointerMaps (done-same _ d rest) (
        PtrMap.erase-IsMap key c.non_local_pointer_deps k.0,
        forget_entries-keeps PtrMap.IsMap remove-IsMap ir key info.non_local_deps _ m first k.1,
      )

  remove_cached-Maps :
      (c d : PointerCache) (key : ℕ)
      → remove_cached ir c key ≡ done d
      → PointerMaps c
      → PointerMaps d
  unfolding remove_cached
  remove_cached-Maps c d key h k =
      remove_found-Maps c d key (PtrMap.lookup key c.non_local_pointer_deps) h k

  drop_pointer-Maps :
      (rem : ℕ) (c d : PointerCache)
      → drop_pointer ir rem c ≡ done d
      → PointerMaps c
      → PointerMaps d
  unfolding drop_pointer
  drop_pointer-Maps rem c d h k = elim (Bool-cases (ir.is_pointer_type rem)) [
    | inl pointer ↦
        let (e, first, rest) =
          >>=-eq-done (remove_cached ir c (value_is_load rem false)) _
            (sym (if_true _ _ _ pointer) ∙ h) in
        remove_cached-Maps e d (value_is_load rem true) rest
          (remove_cached-Maps c e (value_is_load rem false) first k)
    | inr value ↦ subst PointerMaps (done-same c d (sym (if_false _ _ _ value) ∙ h)) k
  ]

  module _ (llvm : Llvm) (rem : ℕ) (new : FlowDepResult) where
    renew_locals-Maps :
        (c d : LocalCache) (o : Option PtrSet)
        → renew_locals ir llvm rem new c o ≡ done d
        → LocalMaps c
        → LocalMaps d
    unfolding renew_locals
    renew_locals-Maps c d none h k = let e : c ≡ d = cc in subst LocalMaps e k
    renew_locals-Maps c d (some ks) h k =
        elim (Bool-cases (is_empty_set ks || llvm.is_terminator rem)) [
          | inl bad ↦ absurd (fault-ne-done d (sym (if_true _ _ _ bad) ∙ h))
          | inr good ↦
              let forbidden = λ (j : ℕ). j == rem || get_inst new == 0 in
              let wrap : PtrMap FlowDepResult × PtrMap PtrSet → Outcome LocalCache =
                λ r. done (record { local_deps = r.0; reverse_local_deps = r.1 }) in
              let (r, first, rest) =
                >>=-eq-done
                  (renew_dependents forbidden (renew_local new) no_result rem c.local_deps
                    c.reverse_local_deps (some ks))
                  wrap (sym (if_false _ _ _ good) ∙ h) in
              subst LocalMaps (done-same _ d rest) (
                renew_dependents-IsMap forbidden (renew_local new) no_result rem _ r.0 _ r.1
                  (some ks) first k)
        ]

    renew_calls-Maps :
        (c d : CallCache) → renew_calls ir llvm rem new c ≡ done d → CallMaps c → CallMaps d
    unfolding renew_calls
    renew_calls-Maps c d h k =
        let forbidden = λ (j : ℕ). j == rem in
        let dependents = PtrMap.lookup rem c.reverse_non_local_deps in
        let (r, first, rest) =
          >>=-eq-done
            (renew_dependents forbidden (renew_call rem new) no_call_info rem c.non_local_deps
              c.reverse_non_local_deps dependents)
            _ h in
        subst CallMaps (done-same _ d rest) (
          renew_dependents-IsMap forbidden (renew_call rem new) no_call_info rem _ r.0 _ r.1
            dependents first k)

    renew_pointers-Maps :
        (c d : PointerCache)
        → renew_pointers ir llvm rem new c ≡ done d
        → PointerMaps c
        → PointerMaps d
    unfolding renew_pointers
    renew_pointers-Maps c d h k =
        let forbidden = λ (j : ℕ). key_pointer j == rem in
        let default = no_pointer_info llvm.unknown_size in
        let dependents = PtrMap.lookup rem c.reverse_non_local_ptr_deps in
        let (r, first, rest) =
          >>=-eq-done
            (renew_dependents forbidden (renew_pointer rem new) default rem c.non_local_pointer_deps
              c.reverse_non_local_ptr_deps dependents)
            _ h in
        subst PointerMaps (done-same _ d rest) (
          renew_dependents-IsMap forbidden (renew_pointer rem new) default rem _ r.0 _ r.1
            dependents first k)

not_in_calls-same : (rem : ℕ) (c d : CallCache) → not_in_calls rem c ≡ done d → c ≡ d
unfolding not_in_calls
not_in_calls-same rem c d h = elim (Option-cases (PtrMap.lookup rem c.non_local_deps)) [
  | inl absent ↦ ground (arith, h, absent)
  | inr (info, at) ↦ absurd (ground (arith, h, at))
]

pub remove_instruction-AreMaps :
    (ir : Ir) (llvm : Llvm) (s t : Store) (rem : ℕ)
    → remove_instruction ir llvm s rem ≡ done t
    → AreMaps s
    → AreMaps t
unfolding remove_instruction
remove_instruction-AreMaps ir llvm s t rem h k =
    let own_calls = PtrMap.lookup rem s.calls.non_local_deps in
    let own_local = PtrMap.lookup rem s.local.local_deps in
    let (c, dc, h1) = >>=-eq-done (drop_call rem s.calls own_calls) _ h in
    let (l, dl, h2) = >>=-eq-done (drop_local rem s.local own_local) _ h1 in
    let (p, dp, h3) = >>=-eq-done (drop_pointer ir rem s.pointers) _ h2 in
    let (new, _, h4) = >>=-eq-done (new_dirty_val ir llvm rem) _ h3 in
    let dependents = PtrMap.lookup rem l.reverse_local_deps in
    let (l', rl, h5) = >>=-eq-done (renew_locals ir llvm rem new l dependents) _ h4 in
    let (c', rc, h6) = >>=-eq-done (renew_calls ir llvm rem new c) _ h5 in
    let (p', rp, h7) = >>=-eq-done (renew_pointers ir llvm rem new p) _ h6 in
    let (c'', nc, h8) = >>=-eq-done (not_in_calls rem c') _ h7 in
    subst AreMaps (done-same _ t h8) (record {
      local =
          renew_locals-Maps ir llvm rem new l l' dependents rl
            (drop_local-Maps rem s.local l own_local dl k.local);
      calls = subst CallMaps (not_in_calls-same rem c' c'' nc) (
          renew_calls-Maps ir llvm rem new c c' rc
            (drop_call-Maps rem s.calls c own_calls dc k.calls));
      pointers =
          renew_pointers-Maps ir llvm rem new p p' rp
            (drop_pointer-Maps ir rem s.pointers p dp k.pointers);
    })
