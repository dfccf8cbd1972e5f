-- ===== src/FlowDependence/Remove/Pointers.antt =====
-- The answers for a removed instruction as a pointer leave the cache.
use dep_taint.Prelude.{
  ℕ, ◌≡◌, ◌≢◌, refl, sym, ap, ◌∙◌, subst, ◌⊎◌, inl, inr, Bool, true, false, ◌||◌, none, some, List,
  [], ◌∷◌, arith, ◌==◌, Bool-cases, Option-cases, any, All,
}
use dep_taint.Prelude.Outcome.{done, >>=-eq-done}
use dep_taint.Prelude.PtrMap
use dep_taint.Prelude.PtrMap.{PtrMap}
use dep_taint.Prelude.PtrSet.{PtrSet}
use dep_taint.Ir.{Ir}
use dep_taint.FlowDepResult.{get_inst}
use dep_taint.FlowDependence.Cache.Synced.{in_reverse}
use dep_taint.FlowDependence.Forget.{
  Entry, PointerInfo, PointerCache, value_is_load, forget_entries, remove_found, remove_cached,
}
use dep_taint.FlowDependence.Forget.Entries.{
  names_target, IsRegistered, IsApart, remove_cached_forgets,
}
use dep_taint.FlowDependence.Store.{no_pointer_info}
use dep_taint.FlowDependence.Remove.{insts_of, drop_pointer}
use dep_taint.FlowDependence.Remove.Linked.{get_or-some, IsLinked}
use dep_taint.FlowDependence.Remove.Values.{names_in, pointer_names, any-names_target}
use dep_taint.FlowDependence.Remove.Drops.{
  AreSets, forget_entries-AreSets, Dropped, absent-Dropped, erased-Dropped, both-Dropped,
}

-- The keys of a pointer.
unfoldable pub keys_of : ℕ → ℕ → Bool
unfolding value_is_load
keys_of p q = value_is_load p false == q || value_is_load p true == q

pub pointer-blank : (unknown i : ℕ) → pointer_names i (no_pointer_info unknown) ≡ false
unfolding names_in insts_of
pointer-blank unknown i = ground arith

module _ (ir : Ir) (unknown : ℕ) where
  -- An entry without an instruction, or one whose instruction stands in its block.
  abbrev pub IsPlaced : Entry → Type 0
  IsPlaced e =
      (get_inst e.1 ≡ 0)
      ⊎ ((get_inst e.1 ≢ 0)
          × (ir.is_instruction (get_inst e.1) ≡ true)
          × (ir.block_of (get_inst e.1) ≡ e.0))

  abbrev pub ArePlaced : List Entry → Type 0
  ArePlaced es = All IsPlaced es × IsApart ir es

  placed→registered :
      (m : PtrMap PtrSet) (key : ℕ) (es : List Entry)
      → ((i : ℕ) → any (names_target ir i) es ≡ true → in_reverse m i key ≡ true)
      → All IsPlaced es
      → All (IsRegistered ir m key) es
  placed→registered m key [] h placed = tt
  placed→registered m key (e ∷ es) h (inl nothing, placed) =
      (inl nothing, placed→registered m key es (λ i f. h i (ground (arith, f))) placed)
  placed→registered m key (e ∷ es) h (inr (real, inst, home), placed) = (
    inr (real, inst, home, h (get_inst e.1) (ground (arith, real))),
    placed→registered m key es (λ i f. h i (ground (arith, f))) placed,
  )

  abbrev LinkedPointers : PtrMap PointerInfo → PtrMap PtrSet → Type 0
  LinkedPointers = IsLinked pointer_names (no_pointer_info unknown)

  abbrev DroppedPointers : (ℕ → Bool) → PointerCache → PointerCache → Type 0
  DroppedPointers gone c d =
      Dropped pointer_names (no_pointer_info unknown) gone c.non_local_pointer_deps
        d.non_local_pointer_deps c.reverse_non_local_ptr_deps d.reverse_non_local_ptr_deps

  remove_cached-AreSets :
      (c d : PointerCache) (key : ℕ) (info : PointerInfo)
      → PtrMap.lookup key c.non_local_pointer_deps ≡ some info
      → remove_cached ir c key ≡ done d
      → AreSets c.reverse_non_local_ptr_deps
      → AreSets d.reverse_non_local_ptr_deps
  unfolding remove_cached remove_found
  remove_cached-AreSets c d key info at runs sets =
      let (m, loop, rest) =
        >>=-eq-done (forget_entries ir key info.non_local_deps c.reverse_non_local_ptr_deps) _
          (sym (ap (remove_found ir c key) at) ∙ runs) in
      let same : m ≡ d.reverse_non_local_ptr_deps = cc in
      subst AreSets same
        (forget_entries-AreSets ir key info.non_local_deps c.reverse_non_local_ptr_deps m loop sets)

  remove_cached-Dropped :
      (c : PointerCache) (key : ℕ)
      → LinkedPointers c.non_local_pointer_deps c.reverse_non_local_ptr_deps
      → AreSets c.reverse_non_local_ptr_deps
      → ((info : PointerInfo)
          → PtrMap.lookup key c.non_local_pointer_deps ≡ some info
          → ArePlaced info.non_local_deps)
      → (d : PointerCache) × (remove_cached ir c key ≡ done d) × DroppedPointers (λ q. key == q) c d
  remove_cached-Dropped c key linked sets placed =
      elim (Option-cases (PtrMap.lookup key c.non_local_pointer_deps)) [
        | inl absent ↦ (
          c,
          unfold remove_cached remove_found in ap (remove_found ir c key) absent,
          absent-Dropped pointer_names (no_pointer_info unknown) (pointer-blank unknown) key
              c.non_local_pointer_deps c.reverse_non_local_ptr_deps linked sets absent,
        )
        | inr (info, at) ↦
            let (here, apart) = placed info at in
            let m = c.non_local_pointer_deps in
            let named : (i : ℕ)
                → in_reverse c.reverse_non_local_ptr_deps i key ≡ names_in i info.non_local_deps =
              λ i.
                linked i key
                ∙ ap (pointer_names i) (get_or-some m key (no_pointer_info unknown) info at) in
            let (d, runs, none_left, others, exact) =
              remove_cached_forgets ir c key info at
                (placed→registered c.reverse_non_local_ptr_deps key info.non_local_deps
                  (λ i f. named i ∙ sym (any-names_target ir i info.non_local_deps) ∙ f) here)
                apart in
            (
              d,
              runs,
              erased-Dropped pointer_names (no_pointer_info unknown) (pointer-blank unknown) key m
                  c.reverse_non_local_ptr_deps info d.non_local_pointer_deps
                  d.reverse_non_local_ptr_deps linked at
                  (remove_cached-AreSets c d key info at runs sets)
                  (λ q. elim (Bool-cases (key == q)) [
                    | inl same ↦
                        let e : q ≡ key = ground (arith, same) in
                        rw same (ap (λ k. PtrMap.lookup k d.non_local_pointer_deps) e ∙ none_left)
                    | inr other ↦ rw other (others q (ground (arith, other)))
                  ])
                  (λ i q. ground (arith, exact i q, any-names_target ir i info.non_local_deps)),
            )
      ]

  pub drop_pointer-lem :
      (c : PointerCache) (rem : ℕ)
      → LinkedPointers c.non_local_pointer_deps c.reverse_non_local_ptr_deps
      → AreSets c.reverse_non_local_ptr_deps
      → ((load : Bool) (info : PointerInfo)
          → PtrMap.lookup (value_is_load rem load) c.non_local_pointer_deps ≡ some info
          → (ir.is_pointer_type rem ≡ true) × ArePlaced info.non_local_deps)
      → (d : PointerCache) × (drop_pointer ir rem c ≡ done d) × DroppedPointers (keys_of rem) c d
  unfolding drop_pointer keys_of
  drop_pointer-lem c rem linked sets placed = elim (Bool-cases (ir.is_pointer_type rem)) [
    | inl pointer ↦
        let (d, runs, dropped) =
          remove_cached-Dropped c (value_is_load rem false) linked sets
            (λ info at. (placed false info at).1) in
        let k = value_is_load rem true in
        let (e, runs', dropped') =
          remove_cached-Dropped d k dropped.linked dropped.sets
            (λ info at. (placed true info (ground (arith, at, dropped.kept k))).1) in
        (e, rw (pointer, runs) runs', both-Dropped _ _ _ _ dropped dropped')
    | inr value ↦
        let absent : (load : Bool)
            → PtrMap.lookup (value_is_load rem load) c.non_local_pointer_deps ≡ none =
          λ load.
            elim (Option-cases (PtrMap.lookup (value_is_load rem load) c.non_local_pointer_deps)) [
              | inl absent ↦ absent
              | inr (info, at) ↦ absurd (ground (arith, (placed load info at).0, value))
            ] in
        let gone = λ (load : Bool).
          absent-Dropped pointer_names (no_pointer_info unknown) (pointer-blank unknown)
            (value_is_load rem load) c.non_local_pointer_deps c.reverse_non_local_ptr_deps linked
            sets (absent load) in
        (c, rw value refl, both-Dropped _ _ _ _ (gone false) (gone true))
  ]
