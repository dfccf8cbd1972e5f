-- ===== src/FlowDependence/Remove/Renewed.antt =====
-- The loops over the keys that depend on a removed instruction, for any kind of value.
use dep_taint.Prelude.{
  ℕ, ◌≡◌, ◌≢◌, refl, sym, ap, ◌∙◌, inl, inr, Bool, true, false, ◌&&◌, ◌||◌, not, Option, none, some,
  [], ◌∷◌, ◌++◌, arith, ◌==◌, if◌then◌else◌, Bool-cases, Option-cases, ==_refl, if_true, if_false,
}
use dep_taint.Prelude.Outcome.{Outcome, done, ◌>>=◌}
use dep_taint.Prelude.PtrMap
use dep_taint.Prelude.PtrMap.{PtrMap}
use dep_taint.Prelude.PtrSet
use dep_taint.Prelude.PtrSet.{PtrSet}
use dep_taint.FlowDependence.Cache.Synced.{in_reverse}
use dep_taint.FlowDependence.Remove.{Adds, add_back, renew_all, renew_dependents}
use dep_taint.FlowDependence.Remove.Linked.{
  has_add, has_add-append, in_reverse-add_back, in_reverse-erase, get_or-lookup, get_or-some,
  lookup-add_back, IsDistinct, IsLinked,
}

module _ {V : Type 0} (names : ℕ → V → Bool) (default : V) (forbidden : ℕ → Bool)
    (renew : ℕ → V → V × Adds) (rem next : ℕ) where
  -- A value that named the instruction names what follows it instead, and that is added.
  pub record Renews : Type 0 where
    pub renamed :
        (k : ℕ) (v : V)
        → names rem v ≡ true
        → (i : ℕ)
        → names i (renew k v).0 ≡ ((not (rem == i) && names i v) || (not (i == 0) && next == i))
    pub added :
        (k : ℕ) (v : V)
        → names rem v ≡ true
        → (i q : ℕ) → has_add i q (renew k v).1 ≡ (k == q && not (i == 0) && next == i)

  -- The value of a key after the loop.
  abbrev pub value_after : PtrMap V → Bool → ℕ → Option V
  value_after m changed q =
      if changed then some (renew q (PtrMap.get_or q default m)).0 else PtrMap.lookup q m

  renew_all-lem :
      Renews
      → (ks : PtrSet) (m : PtrMap V) → IsDistinct ks
      → ((k : ℕ)
          → PtrSet.contains k ks ≡ true
          → (names rem (PtrMap.get_or k default m) ≡ true) × (forbidden k ≡ false))
      → (n : PtrMap V) × (adds : Adds) × (renew_all forbidden renew default ks m ≡ done (n, adds))
        × ((q : ℕ) → PtrMap.lookup q n ≡ value_after m (PtrSet.contains q ks) q)
        × ((i q : ℕ) → has_add i q adds ≡ (PtrSet.contains q ks && not (i == 0) && next == i))
  unfolding renew_all PtrSet.contains
  renew_all-lem law [] m d h = (m, [], refl, λ q. refl, λ i q. refl)
  renew_all-lem law (k ∷ ks) m (new, d) h =
      let step = renew k (PtrMap.get_or k default m) in
      let changed = PtrMap.insert k step.0 m in
      let (named, allowed) = h k (ground arith) in
      let other : (q : ℕ)
          → PtrSet.contains q ks ≡ true
          → PtrMap.lookup q changed ≡ PtrMap.lookup q m =
        λ q f. ground (arith, PtrMap.lookup-insert k q step.0 m, new, f) in
      let (n, adds, runs, values, has) = renew_all-lem law ks changed d (λ q f.
        let (named', allowed') = h q (ground (arith, f)) in
        (ap (names rem) (get_or-lookup changed m q default (other q f)) ∙ named', allowed')) in
      (
        n,
        step.1 ++ adds,
        rw (allowed, runs) refl,
        λ q. elim (Bool-cases (k == q)) [
          | inl same ↦
              let e : q ≡ k = ground (arith, same) in
              rw (e, ==_refl k)
                (values k ∙ if_false _ _ _ new ∙ PtrMap.lookup-insert_self k step.0 m)
          | inr differ ↦
              let keeps = PtrMap.lookup-insert k q step.0 m ∙ if_false _ _ _ differ in
              rw differ (
                values q
                ∙ ap
                    (λ (o : Option V × V).
                      if PtrSet.contains q ks then some (renew q o.1).0 else o.0)
                    (λ i. (keeps i, get_or-lookup changed m q default keeps i)))
        ],
        λ i q. ground (
          arith,
          has_add-append i q step.1 adds,
          has i q,
          law.added k (PtrMap.get_or k default m) named i q,
        ),
      )

  -- What is left of a map and of its inverse once the instruction is gone from both.
  abbrev pub Renewed : (m n : PtrMap V) (reverse r : PtrMap PtrSet) → Type 0
  Renewed m n reverse r =
      IsLinked names default n r
      × ((q : ℕ) → PtrMap.lookup q n ≡ value_after m (in_reverse reverse rem q) q)
      × ((q : ℕ) → in_reverse r rem q ≡ false)
      × (PtrMap.lookup rem r ≡ none)

  pub renew_dependents-lem :
      Renews
      → rem ≢ next
      → (m : PtrMap V) (reverse : PtrMap PtrSet) → IsLinked names default m reverse
      → ((s : PtrSet) → PtrMap.lookup rem reverse ≡ some s → IsDistinct s)
      → ((k : ℕ) → in_reverse reverse rem k ≡ true → forbidden k ≡ false)
      → (n : PtrMap V) × (r : PtrMap PtrSet) × (renew_dependents forbidden renew default rem m
            reverse
            (PtrMap.lookup rem reverse)
          ≡ done (n, r))
        × Renewed m n reverse r
  unfolding renew_dependents in_reverse
  renew_dependents-lem law differ m reverse linked distinct allowed =
      elim (Option-cases (PtrMap.lookup rem reverse)) [
        | inl absent ↦
            rw absent (m, reverse, refl, (linked, λ q. refl, λ q. ground (arith, absent), absent))
        | inr (s, at) ↦
            let here : (q : ℕ) → in_reverse reverse rem q ≡ PtrSet.contains q s =
              λ q. ground (arith, at) in
            let (n, adds, runs, values, has) =
              renew_all-lem law s m (distinct s at)
                (λ k f. (sym (linked rem k) ∙ here k ∙ f, allowed k (here k ∙ f))) in
            let r = add_back adds (PtrMap.erase rem reverse) in
            let member : (i q : ℕ)
                → in_reverse r i q ≡ (
                    (PtrSet.contains q s && not (i == 0) && next == i)
                    || (not (rem == i) && in_reverse reverse i q)) =
              λ i q. ground (
                arith,
                in_reverse-add_back adds (PtrMap.erase rem reverse) i q,
                has i q,
                in_reverse-erase reverse rem i q,
              ) in
            let v = λ (q : ℕ). PtrMap.get_or q default m in
            let finish : PtrMap V × Adds → Outcome (PtrMap V × PtrMap PtrSet) =
              λ e. done (e.0, add_back e.1 (PtrMap.erase rem reverse)) in
            (
              n,
              r,
              ap (renew_dependents forbidden renew default rem m reverse) at
                  ∙ ap (λ o. o >>= finish) runs,
              (
                λ i q. elim (Bool-cases (PtrSet.contains q s)) [
                  | inl changed ↦
                      let named = sym (linked rem q) ∙ here q ∙ changed in
                      let now =
                        get_or-some n q default (renew q (v q)).0
                          (values q ∙ if_true _ _ _ changed) in
                      ground (
                        arith,
                        member i q,
                        changed,
                        linked i q,
                        ap (names i) now,
                        law.renamed q (v q) named i,
                      )
                  | inr kept ↦
                      let now = get_or-lookup n m q default (values q ∙ if_false _ _ _ kept) in
                      elim (Bool-cases (rem == i)) [
                        | inl same ↦
                            let e : i ≡ rem = ground (arith, same) in
                            let unnamed = sym (linked rem q) ∙ here q ∙ kept in
                            ground (
                              arith,
                              member i q,
                              kept,
                              same,
                              ap (names i) now,
                              ap (λ k. names k (v q)) e,
                              unnamed,
                            )
                        | inr other ↦
                            ground (arith, member i q, kept, other, linked i q, ap (names i) now)
                      ]
                ],
                λ q. values q ∙ ap (λ b. value_after m b q) (sym (here q)),
                λ q. ground (arith, member rem q, differ),
                lookup-add_back rem adds (PtrMap.erase rem reverse)
                      (λ q. ground (arith, has rem q, differ))
                    ∙ ground (arith, PtrMap.lookup-erase rem rem reverse),
              ),
            )
      ]
