-- ===== src/FlowDependence/Reconcile/Agreed.antt =====
-- What the first part of getNonLocalPointerDepFromBB leaves.
use dep_taint.Prelude.{
  ℕ, ◌≡◌, refl, sym, ap, ◌∙◌, inl, inr, Bool, true, false, ◌&&◌, ◌||◌, not, some, [], arith, ◌==◌,
  ltb, if◌then◌else◌, Bool-cases, if_true, if_false,
}
use dep_taint.Prelude.Outcome.{done}
use dep_taint.Prelude.PtrMap
use dep_taint.Prelude.PtrMap.{PtrMap}
use dep_taint.Prelude.PtrSet.{PtrSet}
use dep_taint.FlowDependence.{Location}
use dep_taint.FlowDependence.Cache.Synced.{in_reverse}
use dep_taint.FlowDependence.Forget.{PointerInfo, PointerCache, no_pair}
use dep_taint.FlowDependence.Remove.{insts_of}
use dep_taint.FlowDependence.Remove.Linked.{targets}
use dep_taint.FlowDependence.Reconcile.{agree_size, reconcile}
use dep_taint.FlowDependence.Reconcile.Tags.{
  AreUnder, throw_out-lem, opens, settled, agree_tag-lem, tag_kept, IsTagged,
}

-- The greater size, and the tag if the cached one is the same.
abbrev pub agreed : PointerInfo → Location → Location
agreed info loc = record {
  ptr = loc.ptr;
  size = if ltb info.size loc.size then loc.size else info.size;
  tag = if info.tag == loc.tag then loc.tag else 0;
}

-- Whether the cached entries serve the query.
abbrev pub serves : PointerInfo → Location → Bool
serves info loc = not (ltb info.size loc.size) && (info.tag == loc.tag || info.tag == 0)

abbrev pub info_for : PointerInfo → Location → PointerInfo
info_for info loc = if serves info loc then info else record {
  pair = no_pair;
  non_local_deps = [];
  size = (agreed info loc).size;
  tag = (agreed info loc).tag;
}

module _ (key : ℕ) where
  -- The entry of the query alone is another, and the map back is without the query where the entries
  -- are gone.
  pub record IsReconciled (c : PointerCache) (info : PointerInfo) (m : PtrMap PtrSet)
      (loc : Location) (t : PointerCache) (l : Location) : Type 0 where
    pub location : l ≡ agreed info loc
    pub infos :
        (q : ℕ)
        → PtrMap.lookup q t.non_local_pointer_deps ≡ (
            if key == q then some (info_for info loc) else PtrMap.lookup q c.non_local_pointer_deps)
    pub reverse :
        (i k : ℕ)
        → in_reverse t.reverse_non_local_ptr_deps i k ≡ (
            not (key == k && not (serves info loc) && targets i (insts_of info.non_local_deps))
            && in_reverse m i k)

  same_info :
      (info : PointerInfo) (loc : Location)
      → ltb info.size loc.size ≡ false
      → (if tag_kept key info loc
          then info
          else record { pair = no_pair; non_local_deps = []; size = info.size; tag = 0 })
        ≡ info_for info loc
  same_info info loc enough = elim (Bool-cases (info.tag == loc.tag)) [
    | inl same ↦ rw (enough, same) refl
    | inr other ↦ rw (enough, other) refl
  ]

  same_size :
      (c : PointerCache) (info : PointerInfo) (loc : Location) (m : PtrMap PtrSet) (s : ℕ)
      (t : PointerCache) (l : Location)
      → ltb info.size loc.size ≡ false
      → info.size ≡ s
      → IsTagged key c info m (record loc { size = s }) t l
      → IsReconciled c info m loc t l
  same_size c info loc m s t l enough sizes f =
      let tag = if info.tag == loc.tag then loc.tag else 0 in
      record {
        location =
            f.location
            ∙ rw enough (ap (λ n. record { ptr = loc.ptr; size = n; tag = tag }) (sym sizes));
        infos = λ q.
            f.infos q
            ∙ ap (λ v. if key == q then some v else PtrMap.lookup q c.non_local_pointer_deps)
                (same_info info loc enough);
        reverse = λ i k. ground (arith, enough, f.reverse i k);
      }

  abbrev emptied : PointerInfo → Location → PointerInfo
  emptied info loc = record { pair = no_pair; non_local_deps = []; size = loc.size; tag = info.tag }

  emptied-AreUnder :
      (info : PointerInfo) (loc : Location) (m : PtrMap PtrSet) → AreUnder key (emptied info loc) m
  unfolding insts_of
  emptied-AreUnder info loc m = (λ i h. absurd (ground (arith, h)), tt)

  emptied_info :
      (info : PointerInfo) (loc : Location)
      → ltb info.size loc.size ≡ true
      → (if tag_kept key info loc
          then emptied info loc
          else record { pair = no_pair; non_local_deps = []; size = loc.size; tag = 0 })
        ≡ info_for info loc
  emptied_info info loc smaller =
      let of_tag : ℕ → PointerInfo =
        λ n. record { pair = no_pair; non_local_deps = []; size = loc.size; tag = n } in
      elim (Bool-cases (info.tag == loc.tag)) [
        | inl same ↦
            let e : info.tag ≡ loc.tag = ground (arith, same) in rw (smaller, same) (ap of_tag e)
        | inr other ↦ elim (Bool-cases (info.tag == 0)) [
          | inl bare ↦
              let e : info.tag ≡ 0 = ground (arith, bare) in rw (smaller, other, bare) (ap of_tag e)
          | inr tagged ↦ rw (smaller, other, tagged) refl
        ]
      ]

  smaller_size :
      (c : PointerCache) (info : PointerInfo) (loc : Location) (m n : PtrMap PtrSet)
      (t : PointerCache) (l : Location)
      → ltb info.size loc.size ≡ true
      → ((i k : ℕ)
          → in_reverse n i k
            ≡ (not (key == k && targets i (insts_of info.non_local_deps)) && in_reverse m i k))
      → IsTagged key c (emptied info loc) n loc t l
      → IsReconciled c info m loc t l
  unfolding insts_of
  smaller_size c info loc m n t l smaller left f = record {
    location = f.location ∙ rw smaller refl;
    infos = λ q.
        f.infos q
        ∙ ap (λ v. if key == q then some v else PtrMap.lookup q c.non_local_pointer_deps)
            (emptied_info info loc smaller);
    reverse = λ i k. ground (arith, smaller, left i k, f.reverse i k);
  }

  -- The first part of getNonLocalPointerDepFromBB, for a query that has cached entries, which name
  -- different instructions, under each of which the map back has the query: within three calls it
  -- comes to an end without a fault. The query goes on with the greater of the two sizes and with
  -- its tag if that is the cached one, or else with none. The cached entries stay as they are if
  -- they are for that size and the cached tag is that of the query or null, and are thrown out
  -- otherwise, for that size and tag. The map back loses the query under the instructions of
  -- the entries that are thrown out, and nothing else, and the entries of other queries stay.
  pub reconcile_ends :
      (c : PointerCache) (info : PointerInfo) (loc : Location)
      → PtrMap.lookup key c.non_local_pointer_deps ≡ some info
      → AreUnder key info c.reverse_non_local_ptr_deps
      → (t : PointerCache) × (l : Location) × (reconcile 3 key c loc ≡ done (t, l))
        × IsReconciled c info c.reverse_non_local_ptr_deps loc t l
  unfolding agree_size
  reconcile_ends c info loc at under =
      let m = c.reverse_non_local_ptr_deps in
      elim (Bool-cases (ltb info.size loc.size)) [
        | inl smaller ↦
            let (n, throws, left) =
              throw_out-lem key info loc.size info.tag c.reverse_non_local_ptr_deps under in
            let next = emptied info loc in
            let none_under = emptied-AreUnder info loc n in
            let (t, l, runs, f) = agree_tag-lem key 1 c next loc n none_under refl in
            (
              t,
              l,
              opens key 2 c info loc at ∙ rw (smaller, throws) runs,
              smaller_size c info loc m n t l smaller left f,
            )
        | inr not_smaller ↦ elim (Bool-cases (ltb loc.size info.size)) [
          | inl greater ↦
              let wide = record loc { size = info.size } in
              let (t, l, runs, f) =
                agree_tag-lem key 0 c info wide c.reverse_non_local_ptr_deps under refl in
              (
                t,
                l,
                opens key 2 c info loc at
                    ∙ if_false _ _ _ not_smaller
                    ∙ if_true _ _ _ greater
                    ∙ settled key 1 c info wide at refl
                    ∙ runs,
                same_size c info loc m info.size t l not_smaller refl f,
              )
          | inr equal ↦
              let sizes : info.size ≡ loc.size = ground (arith, not_smaller, equal) in
              let (t, l, runs, f) =
                agree_tag-lem key 1 c info loc c.reverse_non_local_ptr_deps under sizes in
              (
                t,
                l,
                settled key 2 c info loc at sizes ∙ runs,
                same_size c info loc m loc.size t l not_smaller sizes f,
              )
        ]
      ]
