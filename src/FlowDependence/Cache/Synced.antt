-- ===== src/FlowDependence/Cache/Synced.antt =====
-- The map back from instructions agrees with the cached answers, and what getDependency does to both.
use dep_taint.Prelude.{
  ℕ, ◌≡◌, refl, ap, inl, inr, Bool, true, false, not, ◌&&◌, ◌||◌, [], ◌∷◌, arith, Option, none,
  some, ◌==◌, if◌then◌else◌, Bool-cases, Option-cases,
}
use dep_taint.Prelude.Outcome.{done}
use dep_taint.Prelude.PtrMap
use dep_taint.Prelude.PtrMap.{PtrMap}
use dep_taint.Prelude.PtrSet
use dep_taint.Prelude.PtrSet.{PtrSet}
use dep_taint.FlowDepResult.{FlowDepResult}
use dep_taint.FlowDependence.Cache.{
  LocalCache, put_or_erase, remove_from, remove_from_reverse_map, add_to_reverse_map,
}

abbrev pub holds : ℕ → Option PtrSet → Bool
holds q none = false
holds q (some s) = PtrSet.contains q s

-- Whether the set of `i` holds `q`.
unfoldable pub in_reverse : PtrMap PtrSet → ℕ → ℕ → Bool
in_reverse m i q = holds q (PtrMap.lookup i m)

abbrev pub names : ℕ → Option FlowDepResult → Bool
names i none = false
names i (some r) = not (i == 0) && r.pointer == i

-- Whether the answer kept for `q` has `i` in the place of its instruction.
unfoldable pub points_to : PtrMap FlowDepResult → ℕ → ℕ → Bool
points_to m i q = names i (PtrMap.lookup q m)

-- ReverseLocalDeps is the inverse of LocalDeps.
abbrev pub IsSynced : LocalCache → Type 0
IsSynced c = (i q : ℕ) → in_reverse c.reverse_local_deps i q ≡ points_to c.local_deps i q

-- The default of `m[inst]` is the empty set.
holds-get_or :
    (m : PtrMap PtrSet) (inst q : ℕ)
    → PtrSet.contains q (PtrMap.get_or inst [] m) ≡ in_reverse m inst q
unfolding in_reverse PtrMap.get_or PtrSet.contains
holds-get_or m inst q = elim (Option-cases (PtrMap.lookup inst m)) [
  | inl absent ↦ ground (arith, absent)
  | inr (s, at) ↦ ground (arith, at)
]

in_reverse-insert :
    (m : PtrMap PtrSet) (inst : ℕ) (t : PtrSet) (i q : ℕ)
    → in_reverse (PtrMap.insert inst t m) i q
      ≡ (if inst == i then PtrSet.contains q t else in_reverse m i q)
unfolding in_reverse
in_reverse-insert m inst t i q =
    rw (PtrMap.lookup-insert inst i t m)
      (elim (Bool-cases (inst == i)) [ inl same ↦ rw same refl | inr other ↦ rw other refl ])

in_reverse-put :
    (m : PtrMap PtrSet) (inst : ℕ) (t : PtrSet) (i q : ℕ)
    → in_reverse (put_or_erase m inst t) i q
      ≡ (if inst == i then PtrSet.contains q t else in_reverse m i q)
unfolding put_or_erase in_reverse PtrSet.contains
in_reverse-put m inst (k ∷ ks) i q = in_reverse-insert m inst (k ∷ ks) i q
in_reverse-put m inst [] i q =
    rw (PtrMap.lookup-erase inst i m)
      (elim (Bool-cases (inst == i)) [ inl same ↦ rw same refl | inr other ↦ rw other refl ])

pub in_reverse-add :
    (m : PtrMap PtrSet) (inst val i q : ℕ)
    → in_reverse (add_to_reverse_map m inst val) i q ≡ ((inst == i && val == q) || in_reverse m i q)
unfolding add_to_reverse_map
in_reverse-add m inst val i q = elim (Bool-cases (inst == i)) [
  | inl same ↦
      let e : i ≡ inst = ground (arith, same) in
      ground (
        arith,
        same,
        ap (λ k. in_reverse m k q) e,
        in_reverse-insert m inst (PtrSet.insert val (PtrMap.get_or inst [] m)) i q,
        PtrSet.contains-insert val q (PtrMap.get_or inst [] m),
        holds-get_or m inst q,
      )
  | inr other ↦
      ground
        (arith, other, in_reverse-insert m inst (PtrSet.insert val (PtrMap.get_or inst [] m)) i q)
]

pub points_to-insert :
    (m : PtrMap FlowDepResult) (val : ℕ) (r : FlowDepResult) (i q : ℕ)
    → points_to (PtrMap.insert val r m) i q
      ≡ (if val == q then not (i == 0) && r.pointer == i else points_to m i q)
unfolding points_to
points_to-insert m val r i q =
    rw (PtrMap.lookup-insert val q r m)
      (elim (Bool-cases (val == q)) [ inl same ↦ rw same refl | inr other ↦ rw other refl ])

-- RemoveFromReverseMap, where the set holds the value: it returns, and forgets the value alone.
pub remove-lem :
    (m : PtrMap PtrSet) (inst val : ℕ)
    → in_reverse m inst val ≡ true
    → (m' : PtrMap PtrSet) × (remove_from_reverse_map m inst val ≡ done m')
      × ((i q : ℕ) → in_reverse m' i q ≡ (not (inst == i && val == q) && in_reverse m i q))
unfolding in_reverse remove_from_reverse_map remove_from
remove-lem m inst val h = elim (Option-cases (PtrMap.lookup inst m)) [
  | inl absent ↦ absurd (ground (arith, h, absent))
  | inr (s, at) ↦
      let has : PtrSet.contains val s ≡ true = ground (arith, h, at) in
      (
        put_or_erase m inst (PtrSet.erase val s),
        rw (at, has) refl,
        λ i q. elim (Bool-cases (inst == i)) [
          | inl same ↦
              let e : i ≡ inst = ground (arith, same) in
              let here : in_reverse m i q ≡ PtrSet.contains q s = rw (e, at) refl in
              ground (
                arith,
                same,
                here,
                in_reverse-put m inst (PtrSet.erase val s) i q,
                PtrSet.contains-erase val q s,
              )
          | inr other ↦ ground (arith, other, in_reverse-put m inst (PtrSet.erase val s) i q)
        ],
      )
]
