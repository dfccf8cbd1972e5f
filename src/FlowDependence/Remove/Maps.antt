-- ===== src/FlowDependence/Remove/Maps.antt =====
-- removeInstruction keeps the order of the maps: no key is there twice.
use dep_taint.Prelude.{
  ℕ, ◌≡◌, sym, ◌∙◌, subst, inl, inr, Bool, Option, none, some, [], ◌∷◌, arith, Bool-cases, if_false,
}
use dep_taint.Prelude.Outcome.{done, >>=-eq-done}
use dep_taint.Prelude.PtrMap
use dep_taint.Prelude.PtrMap.{PtrMap}
use dep_taint.Prelude.PtrSet
use dep_taint.Prelude.PtrSet.{PtrSet}
use dep_taint.FlowDependence.Cache.{
  put_or_erase, remove_from, remove_from_reverse_map, add_to_reverse_map,
}
use dep_taint.FlowDependence.Remove.{Adds, add_back, renew_all, renew_dependents}

abbrev IsReverse : PtrMap PtrSet → Type 0
IsReverse = PtrMap.IsMap

put_or_erase-IsMap :
    (m : PtrMap PtrSet) (inst : ℕ) (t : PtrSet) → IsReverse m → IsReverse (put_or_erase m inst t)
unfolding put_or_erase
put_or_erase-IsMap m inst [] k = PtrMap.erase-IsMap inst m k
put_or_erase-IsMap m inst (j ∷ js) k = PtrMap.insert-IsMap inst (j ∷ js) m k

remove_from-IsMap :
    (m n : PtrMap PtrSet) (inst val : ℕ) (o : Option PtrSet)
    → remove_from m inst val o ≡ done n
    → IsReverse m
    → IsReverse n
unfolding remove_from
remove_from-IsMap m n inst val none h k = cc
remove_from-IsMap m n inst val (some s) h k = elim (Bool-cases (PtrSet.contains val s)) [
  | inl has ↦
      let e : put_or_erase m inst (PtrSet.erase val s) ≡ n = ground (arith, h, has) in
      subst IsReverse e (put_or_erase-IsMap m inst (PtrSet.erase val s) k)
  | inr lacks ↦ absurd (ground (arith, h, lacks))
]

pub remove-IsMap :
    (m n : PtrMap PtrSet) (inst val : ℕ)
    → remove_from_reverse_map m inst val ≡ done n
    → IsReverse m
    → IsReverse n
unfolding remove_from_reverse_map
remove-IsMap m n inst val h k = remove_from-IsMap m n inst val (PtrMap.lookup inst m) h k

add_back-IsMap : (adds : Adds) (m : PtrMap PtrSet) → IsReverse m → IsReverse (add_back adds m)
unfolding add_back add_to_reverse_map
add_back-IsMap [] m k = k
add_back-IsMap (a ∷ adds) m k = PtrMap.insert-IsMap a.0 _ _ (add_back-IsMap adds m k)

-- A map and the map back from it.
abbrev pub BothMaps : {V : Type 0} → PtrMap V → PtrMap PtrSet → Type 0
BothMaps m reverse = PtrMap.IsMap m × PtrMap.IsMap reverse

module _ {V : Type 0} (forbidden : ℕ → Bool) (renew : ℕ → V → V × Adds) (default : V) where
  renew_all-IsMap :
      (ks : PtrSet) (m n : PtrMap V) (adds : Adds)
      → renew_all forbidden renew default ks m ≡ done (n, adds)
      → PtrMap.IsMap m
      → PtrMap.IsMap n
  unfolding renew_all
  renew_all-IsMap [] m n adds h k = let e : m ≡ n = cc in subst PtrMap.IsMap e k
  renew_all-IsMap (j ∷ js) m n adds h k = elim (Bool-cases (forbidden j)) [
    | inl bad ↦ absurd (ground (arith, h, bad))
    | inr good ↦
        let changed = PtrMap.insert j (renew j (PtrMap.get_or j default m)).0 m in
        let (r, first, then_rest) =
          >>=-eq-done (renew_all forbidden renew default js changed) _
            (sym (if_false _ _ _ good) ∙ h) in
        let e : r.0 ≡ n = cc in
        subst PtrMap.IsMap e
          (renew_all-IsMap js changed r.0 r.1 first (PtrMap.insert-IsMap j _ m k))
  ]

  pub renew_dependents-IsMap :
      (rem : ℕ) (m n : PtrMap V) (reverse r : PtrMap PtrSet) (o : Option PtrSet)
      → renew_dependents forbidden renew default rem m reverse o ≡ done (n, r)
      → BothMaps m reverse
      → BothMaps n r
  unfolding renew_dependents
  renew_dependents-IsMap rem m n reverse r none h (k, l) =
      let e : m ≡ n = cc in
      let f : reverse ≡ r = cc in (subst PtrMap.IsMap e k, subst PtrMap.IsMap f l)
  renew_dependents-IsMap rem m n reverse r (some ks) h (k, l) =
      let (q, first, then_rest) = >>=-eq-done (renew_all forbidden renew default ks m) _ h in
      let e : q.0 ≡ n = cc in
      let f : add_back q.1 (PtrMap.erase rem reverse) ≡ r = cc in
      (
        subst PtrMap.IsMap e (renew_all-IsMap ks m q.0 q.1 first k),
        subst PtrMap.IsMap f (add_back-IsMap q.1 _ (PtrMap.erase-IsMap rem reverse l)),
      )
