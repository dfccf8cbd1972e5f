-- ===== src/FlowDependence/Remove/Drops.antt =====
-- The answers of the removed instruction itself: it leaves the maps as a key.
use dep_taint.Prelude.{
  ℕ, ◌≡◌, refl, ap, ◌∙◌, subst, inl, inr, Bool, false, ◌&&◌, ◌||◌, not, Option, none, some, List,
  [], ◌∷◌, arith, ◌==◌, if◌then◌else◌, Bool-cases, Option-cases, if_true, if_false,
}
use dep_taint.Prelude.Outcome.{done}
use dep_taint.Prelude.PtrMap
use dep_taint.Prelude.PtrMap.{PtrMap}
use dep_taint.Prelude.PtrSet
use dep_taint.Prelude.PtrSet.{PtrSet}
use dep_taint.Ir.{Ir}
use dep_taint.FlowDependence.Cache.{put_or_erase, remove_from, remove_from_reverse_map}
use dep_taint.FlowDependence.Cache.Synced.{in_reverse}
use dep_taint.FlowDependence.Forget.{Entry, forget_entries}
use dep_taint.FlowDependence.Remove.{unlink, is_empty_set}
use dep_taint.FlowDependence.Remove.Keeps.{unlink-keeps, forget_entries-keeps}
use dep_taint.FlowDependence.Remove.Linked.{
  get_or-lookup, get_or-some, get_or-none, IsDistinct, AreApart, targets, unlink-lem, IsLinked,
}

-- The sets of a reverse map have an element, and none twice.
abbrev pub IsUsedSet : PtrSet → Type 0
IsUsedSet s = (is_empty_set s ≡ false) × IsDistinct s

abbrev pub AreSets : PtrMap PtrSet → Type 0
AreSets m = (i : ℕ) (s : PtrSet) → PtrMap.lookup i m ≡ some s → IsUsedSet s

erase-IsDistinct : (k : ℕ) (s : PtrSet) → IsDistinct s → IsDistinct (PtrSet.erase k s)
unfolding PtrSet.erase
erase-IsDistinct k [] d = tt
erase-IsDistinct k (j ∷ s) (new, d) = elim (Bool-cases (j == k)) [
  | inl same ↦ rw same (erase-IsDistinct k s d)
  | inr other ↦ rw other (ground (arith, PtrSet.contains-erase k j s, new), erase-IsDistinct k s d)
]

put_or_erase-AreSets :
    (m : PtrMap PtrSet) (inst : ℕ) (t : PtrSet)
    → AreSets m
    → IsDistinct t
    → AreSets (put_or_erase m inst t)
unfolding put_or_erase is_empty_set
put_or_erase-AreSets m inst [] sets d i s at =
    sets i s (ground (arith, at, PtrMap.lookup-erase inst i m))
put_or_erase-AreSets m inst (k ∷ ks) sets d i s at = elim (Bool-cases (inst == i)) [
  | inl same ↦
      let e : k ∷ ks ≡ s = ground (arith, at, same, PtrMap.lookup-insert inst i (k ∷ ks) m) in
      subst IsUsedSet e (refl, d)
  | inr other ↦ sets i s (ground (arith, at, other, PtrMap.lookup-insert inst i (k ∷ ks) m))
]

remove_from-AreSets :
    (m n : PtrMap PtrSet) (inst val : ℕ) (o : Option PtrSet)
    → PtrMap.lookup inst m ≡ o
    → remove_from m inst val o ≡ done n
    → AreSets m
    → AreSets n
unfolding remove_from
remove_from-AreSets m n inst val none at h sets = cc
remove_from-AreSets m n inst val (some s) at h sets = elim (Bool-cases (PtrSet.contains val s)) [
  | inl has ↦
      let e : put_or_erase m inst (PtrSet.erase val s) ≡ n = ground (arith, h, has) in
      subst AreSets e (
        put_or_erase-AreSets m inst (PtrSet.erase val s) sets
          (erase-IsDistinct val s (sets inst s at).1))
  | inr lacks ↦ absurd (ground (arith, h, lacks))
]

remove-AreSets :
    (m n : PtrMap PtrSet) (inst val : ℕ)
    → remove_from_reverse_map m inst val ≡ done n
    → AreSets m
    → AreSets n
unfolding remove_from_reverse_map
remove-AreSets m n inst val h sets =
    remove_from-AreSets m n inst val (PtrMap.lookup inst m) refl h sets

unlink-AreSets :
    (key : ℕ) (is : List ℕ) (m n : PtrMap PtrSet) → unlink key is m ≡ done n → AreSets m → AreSets n
unlink-AreSets = unlink-keeps AreSets remove-AreSets

pub forget_entries-AreSets :
    (ir : Ir) (key : ℕ) (es : List Entry) (m n : PtrMap PtrSet)
    → forget_entries ir key es m ≡ done n
    → AreSets m
    → AreSets n
forget_entries-AreSets = forget_entries-keeps AreSets remove-AreSets

-- Where no key is under an instruction, it has no entry.
pub no_key-no_entry :
    (m : PtrMap PtrSet) (i : ℕ)
    → AreSets m
    → ((q : ℕ) → in_reverse m i q ≡ false)
    → PtrMap.lookup i m ≡ none
unfolding in_reverse is_empty_set PtrSet.contains
no_key-no_entry m i sets h = elim (Option-cases (PtrMap.lookup i m)) [
  | inl absent ↦ absent
  | inr ([], at) ↦ absurd (ground (arith, (sets i [] at).0))
  | inr (k ∷ ks, at) ↦ absurd (ground (arith, h k, at))
]

module _ {V : Type 0} (names : ℕ → V → Bool) (default : V) where
  -- The maps without some keys.
  pub record Dropped (gone : ℕ → Bool) (m n : PtrMap V) (reverse r : PtrMap PtrSet) : Type 0 where
    pub linked : IsLinked names default n r
    pub sets : AreSets r
    pub kept : (q : ℕ) → PtrMap.lookup q n ≡ (if gone q then none else PtrMap.lookup q m)
    pub fewer : (i q : ℕ) → in_reverse r i q ≡ (not (gone q) && in_reverse reverse i q)

  pub both-Dropped :
      (g h : ℕ → Bool) {m n o : PtrMap V} {reverse r s : PtrMap PtrSet}
      → Dropped g m n reverse r
      → Dropped h n o r s
      → Dropped (λ q. g q || h q) m o reverse s
  both-Dropped g h first second = record {
    linked = second.linked;
    sets = second.sets;
    kept = λ q. ground (arith, first.kept q, second.kept q);
    fewer = λ i q. ground (arith, first.fewer i q, second.fewer i q);
  }

module _ {V : Type 0} (names : ℕ → V → Bool) (default : V)
    (blank : (i : ℕ) → names i default ≡ false) (key : ℕ) (m : PtrMap V)
    (reverse : PtrMap PtrSet) where
  pub absent-Dropped :
      IsLinked names default m reverse
      → AreSets reverse
      → PtrMap.lookup key m ≡ none
      → Dropped names default (λ q. key == q) m m reverse reverse
  absent-Dropped linked' sets' absent = record {
    linked = linked';
    sets = sets';
    kept = λ q. elim (Bool-cases (key == q)) [
      | inl same ↦
          let e : q ≡ key = ground (arith, same) in rw same (ap (λ k. PtrMap.lookup k m) e ∙ absent)
      | inr other ↦ rw other refl
    ];
    fewer = λ i q. elim (Bool-cases (key == q)) [
      | inl same ↦
          let e : q ≡ key = ground (arith, same) in
          rw same (
            ap (in_reverse reverse i) e
            ∙ linked' i key
            ∙ ap (names i) (get_or-none m key default absent)
            ∙ blank i)
      | inr other ↦ rw other refl
    ];
  }

  -- A key leaves the map, and the reverse map forgets it under what its value names.
  pub erased-Dropped :
      (v : V) (n : PtrMap V) (r : PtrMap PtrSet)
      → IsLinked names default m reverse
      → PtrMap.lookup key m ≡ some v
      → AreSets r
      → ((q : ℕ) → PtrMap.lookup q n ≡ (if key == q then none else PtrMap.lookup q m))
      → ((i q : ℕ) → in_reverse r i q ≡ (not (key == q && names i v) && in_reverse reverse i q))
      → Dropped names default (λ q. key == q) m n reverse r
  erased-Dropped v n r linked' at sets' kept' exact =
      let fewer' : (i q : ℕ) → in_reverse r i q ≡ (not (key == q) && in_reverse reverse i q) =
        λ i q. elim (Bool-cases (key == q)) [
          | inl same ↦
              let e : q ≡ key = ground (arith, same) in
              let named = linked' i key ∙ ap (names i) (get_or-some m key default v at) in
              ground (arith, exact i q, same, ap (in_reverse reverse i) e, named)
          | inr other ↦ ground (arith, exact i q, other)
        ] in
      record {
        linked = λ i q. elim (Bool-cases (key == q)) [
          | inl same ↦
              let gone = get_or-none n q default (kept' q ∙ if_true _ _ _ same) in
              ground (arith, fewer' i q, same, ap (names i) gone, blank i)
          | inr other ↦
              let same_value = get_or-lookup n m q default (kept' q ∙ if_false _ _ _ other) in
              ground (arith, fewer' i q, other, ap (names i) same_value, linked' i q)
        ];
        sets = sets';
        kept = kept';
        fewer = fewer';
      }

  module _ (targets_of : V → List ℕ)
      (reads : (i : ℕ) (v : V) → names i v ≡ targets i (targets_of v)) where
    pub unlink-Dropped :
        (v : V)
        → IsLinked names default m reverse
        → AreSets reverse
        → PtrMap.lookup key m ≡ some v
        → AreApart (targets_of v)
        → (r : PtrMap PtrSet) × (unlink key (targets_of v) reverse ≡ done r)
          × Dropped names default (λ q. key == q) m (PtrMap.erase key m) reverse r
    unlink-Dropped v linked' sets' at apart =
        let named : (i : ℕ) → in_reverse reverse i key ≡ targets i (targets_of v) =
          λ i. linked' i key ∙ ap (names i) (get_or-some m key default v at) ∙ reads i v in
        let (r, runs, exact) = unlink-lem key (targets_of v) reverse (λ i f. named i ∙ f) apart in
        (
          r,
          runs,
          erased-Dropped v (PtrMap.erase key m) r linked' at
              (unlink-AreSets key (targets_of v) reverse r runs sets')
              (λ q. PtrMap.lookup-erase key q m) (λ i q. ground (arith, exact i q, reads i v)),
        )
