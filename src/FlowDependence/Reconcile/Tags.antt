-- ===== src/FlowDependence/Reconcile/Tags.antt =====
-- The sizes agree: what the comparison of the tags makes of a query and its cached entries.
use dep_taint.Prelude.{
  ℕ, suc, ◌≡◌, refl, ap, ◌∙◌, inl, inr, Bool, true, false, ◌&&◌, ◌||◌, not, some, [], arith, ◌==◌,
  ltb, if◌then◌else◌, Bool-cases, if_true, if_false,
}
use dep_taint.Prelude.Outcome.{Outcome, done}
use dep_taint.Prelude.PtrMap
use dep_taint.Prelude.PtrMap.{PtrMap}
use dep_taint.Prelude.PtrSet.{PtrSet}
use dep_taint.FlowDependence.{Location}
use dep_taint.FlowDependence.Cache.Synced.{in_reverse}
use dep_taint.FlowDependence.Forget.{PointerInfo, PointerCache, no_pair}
use dep_taint.FlowDependence.Remove.{insts_of}
use dep_taint.FlowDependence.Remove.Linked.{AreApart, targets, unlink-lem}
use dep_taint.FlowDependence.Reconcile.{
  put_info, throw_out, throw_tag, agree_tag, agree_size, reconcile,
}

module _ (key : ℕ) where
  -- The map back has the query under the instructions of its entries, each of which is named once.
  abbrev pub AreUnder : PointerInfo → PtrMap PtrSet → Type 0
  AreUnder info m =
      ((i : ℕ) → targets i (insts_of info.non_local_deps) ≡ true → in_reverse m i key ≡ true)
      × AreApart (insts_of info.non_local_deps)

  pub throw_out-lem :
      (info : PointerInfo) (size tag : ℕ) (m : PtrMap PtrSet)
      → AreUnder info m
      → (n : PtrMap PtrSet) × (throw_out key info size tag m
          ≡ done (record { pair = no_pair; non_local_deps = []; size = size; tag = tag }, n))
        × ((i k : ℕ)
            → in_reverse n i k
              ≡ (not (key == k && targets i (insts_of info.non_local_deps)) && in_reverse m i k))
  unfolding throw_out
  throw_out-lem info size tag m (under, apart) =
      let (n, runs, left) = unlink-lem key (insts_of info.non_local_deps) m under apart in
      (n, rw runs refl, left)

  pub opens :
      (fuel : ℕ) (c : PointerCache) (info : PointerInfo) (loc : Location)
      → PtrMap.lookup key c.non_local_pointer_deps ≡ some info
      → reconcile (suc fuel) key c loc ≡ agree_size key c loc (reconcile fuel key) info
  unfolding reconcile
  opens fuel c info loc at = rw (at, reconcile) refl

  pub settled :
      (fuel : ℕ) (c : PointerCache) (info : PointerInfo) (loc : Location)
      → PtrMap.lookup key c.non_local_pointer_deps ≡ some info
      → info.size ≡ loc.size
      → reconcile (suc fuel) key c loc
        ≡ agree_tag key c loc (reconcile fuel key) info c.reverse_non_local_ptr_deps
  unfolding agree_size
  settled fuel c info loc at same =
      let above : ltb info.size loc.size ≡ false = ground (arith, same) in
      let below : ltb loc.size info.size ≡ false = ground (arith, same) in
      opens fuel c info loc at ∙ if_false _ _ _ above ∙ if_false _ _ _ below

  same_tag :
      (again : PointerCache → Location → Outcome (PointerCache × Location)) (c : PointerCache)
      (info : PointerInfo) (loc : Location) (m : PtrMap PtrSet)
      → (info.tag == loc.tag) ≡ true
      → agree_tag key c loc again info m ≡ done (put_info key c info m, loc)
  unfolding agree_tag
  same_tag again c info loc m same = if_true _ _ _ same

  -- The call without a tag, after the cached one is gone.
  untagged :
      (fuel : ℕ) (c : PointerCache) (info : PointerInfo) (loc : Location) (m : PtrMap PtrSet)
      → info.size ≡ loc.size
      → info.tag ≡ 0
      → reconcile (suc fuel) key (put_info key c info m) (record loc { tag = 0 })
        ≡ done (put_info key (put_info key c info m) info m, record loc { tag = 0 })
  unfolding put_info
  untagged fuel c info loc m sizes bare =
      let tagless = record loc { tag = 0 } in
      settled fuel (put_info key c info m) info tagless
        (PtrMap.lookup-insert_self key info c.non_local_pointer_deps) sizes
      ∙ same_tag (reconcile fuel key) (put_info key c info m) info tagless m (ground (arith, bare))

  twice :
      (c : PointerCache) (info : PointerInfo) (m : PtrMap PtrSet) (q : ℕ)
      → PtrMap.lookup q (put_info key (put_info key c info m) info m).non_local_pointer_deps
        ≡ (if key == q then some info else PtrMap.lookup q c.non_local_pointer_deps)
  unfolding put_info
  twice c info m q =
      let outer =
        PtrMap.lookup-insert key q info (PtrMap.insert key info c.non_local_pointer_deps) in
      let inner = PtrMap.lookup-insert key q info c.non_local_pointer_deps in
      ground (arith, outer, inner)

  once :
      (c : PointerCache) (info : PointerInfo) (m : PtrMap PtrSet) (q : ℕ)
      → PtrMap.lookup q (put_info key c info m).non_local_pointer_deps
        ≡ (if key == q then some info else PtrMap.lookup q c.non_local_pointer_deps)
  unfolding put_info
  once c info m q = PtrMap.lookup-insert key q info c.non_local_pointer_deps

  -- What the comparison of the tags makes of an entry of the query's size.
  abbrev pub tag_kept : PointerInfo → Location → Bool
  tag_kept info loc = info.tag == loc.tag || info.tag == 0

  pub record IsTagged (c : PointerCache) (info : PointerInfo) (m : PtrMap PtrSet) (loc : Location)
      (t : PointerCache) (l : Location) : Type 0 where
    pub location : l ≡ record loc { tag = if info.tag == loc.tag then loc.tag else 0 }
    pub infos :
        (q : ℕ)
        → PtrMap.lookup q t.non_local_pointer_deps ≡ (
            if key == q
            then some (
                if tag_kept info loc
                then info
                else record { pair = no_pair; non_local_deps = []; size = info.size; tag = 0 })
            else PtrMap.lookup q c.non_local_pointer_deps)
    pub reverse :
        (i k : ℕ)
        → in_reverse t.reverse_non_local_ptr_deps i k ≡ (
            not (key == k && not (tag_kept info loc) && targets i (insts_of info.non_local_deps))
            && in_reverse m i k)

  abbrev without_tag : PointerInfo → PointerInfo
  without_tag info =
      if info.tag == 0
      then info
      else record { pair = no_pair; non_local_deps = []; size = info.size; tag = 0 }

  bare_size : (info : PointerInfo) → (without_tag info).size ≡ info.size
  bare_size info = elim (Bool-cases (info.tag == 0)) [
    | inl bare ↦ rw bare refl
    | inr tagged ↦ rw tagged refl
  ]

  bare_tag : (info : PointerInfo) → (without_tag info).tag ≡ 0
  bare_tag info = elim (Bool-cases (info.tag == 0)) [
    | inl bare ↦ let zero_tag : info.tag ≡ 0 = ground (arith, bare) in rw bare zero_tag
    | inr tagged ↦ rw tagged refl
  ]

  throw_tag-lem :
      (info : PointerInfo) (m : PtrMap PtrSet)
      → AreUnder info m
      → (n : PtrMap PtrSet) × (throw_tag key info m ≡ done (without_tag info, n))
        × ((i k : ℕ)
            → in_reverse n i k ≡ (
                not (key == k && not (info.tag == 0) && targets i (insts_of info.non_local_deps))
                && in_reverse m i k))
  unfolding throw_tag
  throw_tag-lem info m under = elim (Bool-cases (info.tag == 0)) [
    | inl bare ↦ (m, rw bare refl, λ i k. ground (arith, bare))
    | inr tagged ↦
        let (n, runs, left) = throw_out-lem info info.size 0 m under in
        (n, rw tagged runs, λ i k. ground (arith, tagged, left i k))
  ]

  pub agree_tag-lem :
      (fuel : ℕ) (c : PointerCache) (info : PointerInfo) (loc : Location) (m : PtrMap PtrSet)
      → AreUnder info m
      → info.size ≡ loc.size
      → (t : PointerCache) × (l : Location) × (agree_tag key c loc (reconcile (suc fuel) key) info m
          ≡ done (t, l))
        × IsTagged c info m loc t l
  unfolding agree_tag put_info
  agree_tag-lem fuel c info loc m under sizes = elim (Bool-cases (info.tag == loc.tag)) [
    | inl same ↦ (
      put_info key c info m,
      loc,
      same_tag (reconcile (suc fuel) key) c info loc m same,
      record {
        location = rw same refl;
        infos = λ q. rw same (once c info m q);
        reverse = λ i k. ground (arith, same);
      },
    )
    | inr other ↦
        let (n, throws, left) = throw_tag-lem info m under in
        let next = without_tag info in
        elim (Bool-cases (loc.tag == 0)) [
          | inl bare ↦ (
            put_info key c next n,
            loc,
            rw (other, throws, bare) refl,
            record {
              location =
                  let zero_tag : loc.tag ≡ 0 = ground (arith, bare) in
                  rw other (ap (λ n. record loc { tag = n }) zero_tag);
              infos = λ q. rw other (once c next n q);
              reverse = λ i k. ground (arith, other, left i k);
            },
          )
          | inr tagged ↦ (
            put_info key (put_info key c next n) next n,
            record loc { tag = 0 },
            rw (other, throws, tagged)
                (untagged fuel c next loc n (bare_size info ∙ sizes) (bare_tag info)),
            record {
              location = rw other refl;
              infos = λ q. rw other (twice c next n q);
              reverse = λ i k. ground (arith, other, left i k);
            },
          )
        ]
  ]
