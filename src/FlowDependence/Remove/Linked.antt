-- ===== src/FlowDependence/Remove/Linked.antt =====
-- A reverse map against the map that it inverts, whatever the values of that map are.
use dep_taint.Prelude.{
  ℕ, ◌≡◌, ◌≢◌, refl, ◌∙◌, inl, inr, Bool, true, false, ◌&&◌, ◌||◌, not, none, some, List, [], ◌∷◌,
  ◌++◌, arith, ◌==◌, Bool-cases, if_false, any,
}
use dep_taint.Prelude.Outcome.{done}
use dep_taint.Prelude.PtrMap
use dep_taint.Prelude.PtrMap.{PtrMap}
use dep_taint.Prelude.PtrSet
use dep_taint.Prelude.PtrSet.{PtrSet}
use dep_taint.FlowDependence.Cache.{add_to_reverse_map}
use dep_taint.FlowDependence.Cache.Synced.{in_reverse, in_reverse-add, remove-lem}
use dep_taint.FlowDependence.Remove.{unlink, Adds, add_back}

-- Whether the pair of `i` and `q` is to be added.
abbrev pub has_add : ℕ → ℕ → Adds → Bool
has_add i q = any (λ a. a.0 == i && a.1 == q)

pub has_add-append :
    (i q : ℕ) (bs cs : Adds) → has_add i q (bs ++ cs) ≡ (has_add i q bs || has_add i q cs)
has_add-append i q [] cs = refl
has_add-append i q (a ∷ bs) cs = ground (arith, has_add-append i q bs cs)

pub in_reverse-add_back :
    (adds : Adds) (m : PtrMap PtrSet) (i q : ℕ)
    → in_reverse (add_back adds m) i q ≡ (has_add i q adds || in_reverse m i q)
unfolding add_back
in_reverse-add_back [] m i q = refl
in_reverse-add_back (a ∷ adds) m i q =
    ground (arith, in_reverse-add (add_back adds m) a.0 a.1 i q, in_reverse-add_back adds m i q)

pub lookup-add_back :
    (i : ℕ) (adds : Adds) (m : PtrMap PtrSet)
    → ((q : ℕ) → has_add i q adds ≡ false)
    → PtrMap.lookup i (add_back adds m) ≡ PtrMap.lookup i m
unfolding add_back add_to_reverse_map
lookup-add_back i [] m h = refl
lookup-add_back i (a ∷ adds) m h =
    let before = add_back adds m in
    let set = PtrSet.insert a.1 (PtrMap.get_or a.0 [] before) in
    let other : (a.0 == i) ≡ false = ground (arith, h a.1) in
    PtrMap.lookup-insert a.0 i set before
    ∙ if_false _ _ _ other
    ∙ lookup-add_back i adds m (λ q. ground (arith, h q))

pub in_reverse-erase :
    (m : PtrMap PtrSet) (rem i q : ℕ)
    → in_reverse (PtrMap.erase rem m) i q ≡ (not (rem == i) && in_reverse m i q)
unfolding in_reverse
in_reverse-erase m rem i q =
    rw (PtrMap.lookup-erase rem i m)
      (elim (Bool-cases (rem == i)) [ inl same ↦ rw same refl | inr other ↦ rw other refl ])

pub in_reverse-none :
    (m : PtrMap PtrSet) (i q : ℕ) → PtrMap.lookup i m ≡ none → in_reverse m i q ≡ false
unfolding in_reverse
in_reverse-none m i q absent = ground (arith, absent)

pub get_or-lookup {ℓ} :
    {V : Type ℓ} (m n : PtrMap V) (k : ℕ) (d : V)
    → PtrMap.lookup k m ≡ PtrMap.lookup k n
    → PtrMap.get_or k d m ≡ PtrMap.get_or k d n
unfolding PtrMap.get_or
get_or-lookup m n k d e = ground (arith, e)

pub get_or-some {ℓ} :
    {V : Type ℓ} (m : PtrMap V) (k : ℕ) (d v : V)
    → PtrMap.lookup k m ≡ some v
    → PtrMap.get_or k d m ≡ v
unfolding PtrMap.get_or
get_or-some m k d v e = ground (arith, e)

pub get_or-none {ℓ} :
    {V : Type ℓ} (m : PtrMap V) (k : ℕ) (d : V) → PtrMap.lookup k m ≡ none → PtrMap.get_or k d m ≡ d
unfolding PtrMap.get_or
get_or-none m k d e = ground (arith, e)

-- No key twice, as in a set.
abbrev pub IsDistinct : PtrSet → Type 0
IsDistinct [] = Unit
IsDistinct (k ∷ ks) = (PtrSet.contains k ks ≡ false) × IsDistinct ks

-- The targets that are instructions are different.
abbrev pub AreApart : List ℕ → Type 0
AreApart [] = Unit
AreApart (i ∷ is) = (i ≢ 0 → any (λ j. j == i) is ≡ false) × AreApart is

abbrev pub targets : ℕ → List ℕ → Bool
targets i is = not (i == 0) && any (λ j. j == i) is

-- If the reverse map has the key under each target, unlink returns and takes the key from these.
pub unlink-lem :
    (key : ℕ) (is : List ℕ) (m : PtrMap PtrSet)
    → ((i : ℕ) → targets i is ≡ true → in_reverse m i key ≡ true)
    → AreApart is
    → (n : PtrMap PtrSet) × (unlink key is m ≡ done n)
      × ((i k : ℕ) → in_reverse n i k ≡ (not (key == k && targets i is) && in_reverse m i k))
unfolding unlink
unlink-lem key [] m h apart = (m, refl, λ i k. ground arith)
unlink-lem key (t ∷ is) m h (far, apart) = elim (Bool-cases (t == 0)) [
  | inl nothing ↦
      let (n, runs, exact) = unlink-lem key is m (λ i f. h i (ground (arith, f, nothing))) apart in
      (n, rw nothing runs, λ i k. ground (arith, exact i k, nothing))
  | inr real ↦
      let (l, removes, less) = remove-lem m t key (h t (ground (arith, real))) in
      let lone = far (ground (arith, real)) in
      let (n, runs, exact) =
        unlink-lem key is l (λ i f. ground (arith, less i key, h i (ground (arith, f)), f, lone))
          apart in
      (n, rw (real, removes) runs, λ i k. ground (arith, exact i k, less i k, real))
]

module _ {V : Type 0} (names : ℕ → V → Bool) (default : V) where
  -- The reverse map has a key under an instruction exactly if the key's value names it.
  abbrev pub IsLinked : PtrMap V → PtrMap PtrSet → Type 0
  IsLinked m reverse = (i k : ℕ) → in_reverse reverse i k ≡ names i (PtrMap.get_or k default m)
