-- ===== src/FlowDependence/Block/Lookup.antt =====
-- The cached entries of a query as a map from blocks to answers, which the binary search reads.
use dep_taint.Prelude.{
  ℕ, zero, suc, ◌≡◌, refl, sym, ap, ◌∙◌, subst, inl, inr, true, false, Option, none, some, List, [],
  ◌∷◌, ◌++◌, arith, ◌==◌, if◌then◌else◌, Option-cases, get_elem?, set, take,
}
use dep_taint.Prelude.PtrMap
use dep_taint.FlowDepResult.{FlowDepResult}
use dep_taint.FlowDependence.Forget.{Entry}
use dep_taint.FlowDependence.Order.{assert_sorted}
use dep_taint.FlowDependence.Across.{Existing, find_entry, existing_at, set_result}
use dep_taint.FlowDependence.Order.Single.{has_block, IsSingle, IsSingle-concat}
use dep_taint.FlowDependence.Block.Search.{find_entry-none, find_entry-some, is_block_at-get}

same_entry : (e : Entry) (b : ℕ) (r : FlowDepResult) → some e ≡ some (b, r) → (e.0 ≡ b) × (e.1 ≡ r)
same_entry e b r h = let same : e ≡ (b, r) = cc in (ap (λ d. d.0) same, ap (λ d. d.1) same)

has_block-get :
    (es : List Entry) (i b : ℕ) (r : FlowDepResult)
    → get_elem? es i ≡ some (b, r)
    → has_block b es ≡ true
has_block-get [] i b r h = cc
has_block-get (e ∷ es) zero b r h = ground (arith, (same_entry e b r h).0)
has_block-get (e ∷ es) (suc i) b r h = ground (arith, has_block-get es i b r h)

lookup-absent : (es : List Entry) (b : ℕ) → has_block b es ≡ false → PtrMap.lookup b es ≡ none
unfolding PtrMap.lookup
lookup-absent [] b h = refl
lookup-absent (e ∷ es) b h = ground (arith, h, lookup-absent es b)

lookup-concat :
    (es : List Entry) (b c : ℕ) (r : FlowDepResult)
    → has_block b es ≡ false
    → PtrMap.lookup c (es ++ (b, r) ∷ []) ≡ (if c == b then some r else PtrMap.lookup c es)
unfolding PtrMap.lookup
lookup-concat [] b c r h = refl
lookup-concat (e ∷ es) b c r h = ground (arith, h, lookup-concat es b c r)

lookup-get :
    (es : List Entry) (i b : ℕ) (r : FlowDepResult)
    → IsSingle es
    → get_elem? es i ≡ some (b, r)
    → PtrMap.lookup b es ≡ some r
unfolding PtrMap.lookup
lookup-get [] i b r one h = cc
lookup-get (e ∷ es) zero b r one h =
    let (at, same) = same_entry e b r h in rw (at, same) (ground arith)
lookup-get (e ∷ es) (suc i) b r one h =
    let there = has_block-get es i b r h in ground (arith, one, there, lookup-get es i b r one.1 h)

lookup-set :
    (es : List Entry) (i b c : ℕ) (r d : FlowDepResult)
    → IsSingle es
    → get_elem? es i ≡ some (b, r)
    → PtrMap.lookup c (set es i (b, d)) ≡ (if c == b then some d else PtrMap.lookup c es)
unfolding PtrMap.lookup
lookup-set [] i b c r d one h = cc
lookup-set (e ∷ es) zero b c r d one h = let at = (same_entry e b r h).0 in ground (arith, at)
lookup-set (e ∷ es) (suc i) b c r d one h =
    let there = has_block-get es i b r h in
    ground (arith, one, there, lookup-set es i b c r d one.1 h)

has_block-set :
    (es : List Entry) (i b c : ℕ) (r d : FlowDepResult)
    → get_elem? es i ≡ some (b, r)
    → has_block c (set es i (b, d)) ≡ has_block c es
has_block-set [] i b c r d h = cc
has_block-set (e ∷ es) zero b c r d h = let at = (same_entry e b r h).0 in ground (arith, at)
has_block-set (e ∷ es) (suc i) b c r d h = ground (arith, has_block-set es i b c r d h)

IsSingle-set :
    (es : List Entry) (i b : ℕ) (r d : FlowDepResult)
    → IsSingle es
    → get_elem? es i ≡ some (b, r)
    → IsSingle (set es i (b, d))
IsSingle-set [] i b r d one h = cc
IsSingle-set (e ∷ es) zero b r d one h =
    (subst (λ k. has_block k es ≡ false) (same_entry e b r h).0 one.0, one.1)
IsSingle-set (e ∷ es) (suc i) b r d one h =
    (ground (arith, one.0, has_block-set es i b e.0 r d h), IsSingle-set es i b r d one.1 h)

-- What the search and the cache have of a block.
abbrev pub IsExisting : List Entry → ℕ → Existing → Type 0
IsExisting es b none = has_block b es ≡ false
IsExisting es b (some (i, r)) = get_elem? es i ≡ some (b, r)

pub existing_at-IsExisting :
    (es : List Entry) (n b : ℕ)
    → assert_sorted (take n es) ≡ true
    → has_block b (take n es) ≡ has_block b es
    → IsExisting es b (existing_at es (find_entry es n b))
unfolding existing_at
existing_at-IsExisting es n b s old = elim (Option-cases (find_entry es n b)) [
  | inl absent ↦ rw absent (sym old ∙ find_entry-none es n b s absent)
  | inr (i, found) ↦
      let (r, at) = is_block_at-get es i b (find_entry-some es n b i found) in
      let same : existing_at es (find_entry es n b) ≡ some (i, r) =
        rw (found, existing_at, at) refl in
      subst (IsExisting es b) (sym same) at
]

abbrev pub answer_of : Existing → Option FlowDepResult
answer_of none = none
answer_of (some (i, r)) = some r

pub lookup-existing :
    (es : List Entry) (b : ℕ) (o : Existing)
    → IsSingle es
    → IsExisting es b o
    → PtrMap.lookup b es ≡ answer_of o
lookup-existing es b none one x = lookup-absent es b x
lookup-existing es b (some (i, r)) one x = lookup-get es i b r one x

pub lookup-set_result :
    (es : List Entry) (b c : ℕ) (o : Existing) (d : FlowDepResult)
    → IsSingle es
    → IsExisting es b o
    → PtrMap.lookup c (set_result es b o d) ≡ (if c == b then some d else PtrMap.lookup c es)
unfolding set_result
lookup-set_result es b c none d one x = lookup-concat es b c d x
lookup-set_result es b c (some (i, r)) d one x = lookup-set es i b c r d one x

pub set_result-IsSingle :
    (es : List Entry) (b : ℕ) (o : Existing) (d : FlowDepResult)
    → IsSingle es
    → IsExisting es b o
    → IsSingle (set_result es b o d)
unfolding set_result
set_result-IsSingle es b none d one x = IsSingle-concat (b, d) es x one
set_result-IsSingle es b (some (i, r)) d one x = IsSingle-set es i b r d one x
