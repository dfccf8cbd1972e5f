-- ===== src/FlowDependence/Block/Search.antt =====
-- The binary search among cached entries in order.
use dep_taint.Prelude.{
  ℕ, zero, suc, ◌<◌, ◌≤◌, ◌≡◌, refl, ap, inl, inr, true, false, none, some, List, [], ◌∷◌, arith,
  ltb, Bool-cases, get_elem?, take,
}
use dep_taint.FlowDepResult.{FlowDepResult, no_result}
use dep_taint.FlowDependence.Forget.{Entry}
use dep_taint.FlowDependence.Order.{before, sorted_after, assert_sorted, upper_bound}
use dep_taint.FlowDependence.Across.{is_block_at, find_entry}
use dep_taint.FlowDependence.Order.Single.{has_block}

is_block_at-take :
    (es : List Entry) (n i b : ℕ) → is_block_at (take n es) i b ≡ true → is_block_at es i b ≡ true
unfolding is_block_at
is_block_at-take [] n i b h = h
is_block_at-take (e ∷ es) zero i b h = cc
is_block_at-take (e ∷ es) (suc n) zero b h = h
is_block_at-take (e ∷ es) (suc n) (suc i) b h = is_block_at-take es n i b h

sorted_after-above :
    (d : Entry) (es : List Entry) (b : ℕ)
    → sorted_after d es ≡ true
    → b < d.0
    → has_block b es ≡ false
unfolding sorted_after before
sorted_after-above d [] b s lt = refl
sorted_after-above d (e ∷ es) b s lt =
    let le : d.0 ≤ e.0 = ground (arith, s) in
    ground (arith, sorted_after-above e es b (ground (arith, s)) (omega arith))

sorted_after-assert_sorted :
    (d : Entry) (es : List Entry) → sorted_after d es ≡ true → assert_sorted es ≡ true
unfolding sorted_after assert_sorted
sorted_after-assert_sorted d [] s = refl
sorted_after-assert_sorted d (e ∷ es) s = ground (arith, s)

upper_bound-above :
    (d : Entry) (es : List Entry) (b : ℕ)
    → sorted_after d es ≡ true
    → b ≤ d.0
    → has_block b es ≡ false
    → upper_bound (b, no_result) es ≡ 0
unfolding sorted_after before upper_bound
upper_bound-above d [] b s le h = refl
upper_bound-above d (e ∷ es) b s le h = ground (arith, s, h)

upper_bound-le : (v : Entry) (n : ℕ) (es : List Entry) → upper_bound v (take n es) ≤ n
unfolding upper_bound
upper_bound-le v n [] = omega arith
upper_bound-le v zero (e ∷ es) = omega arith
upper_bound-le v (suc n) (e ∷ es) = ground (arith, upper_bound-le v n es)

-- In a sorted list that has a block, the last entry that does not come after the block is of it.
upper_bound-finds :
    (es : List Entry) (b : ℕ)
    → assert_sorted es ≡ true
    → has_block b es ≡ true
    → (n : ℕ) × (upper_bound (b, no_result) es ≡ suc n) × (is_block_at es n b ≡ true)
unfolding assert_sorted upper_bound before is_block_at
upper_bound-finds [] b s h = cc
upper_bound-finds (e ∷ es) b s h = elim (Bool-cases (has_block b es)) [
  | inl later ↦
      let (n, bound, at) = upper_bound-finds es b (sorted_after-assert_sorted e es s) later in
      (
        suc n,
        elim (Bool-cases (ltb b e.0)) [
          | inl above ↦
              let absent = sorted_after-above e es b s (ground (arith, above)) in
              absurd (ground (arith, later, absent))
          | inr not_above ↦ ground (arith, not_above, bound)
        ],
        at,
      )
  | inr here ↦
      let same : e.0 ≡ b = ground (arith, h, here) in
      let bound = upper_bound-above e es b s (omega (arith, same)) here in
      (0, ground (arith, same, bound), ground (arith, same))
]

-- The binary search finds an entry of the block among the first ones, if there is one.
pub find_entry-none :
    (es : List Entry) (n b : ℕ)
    → assert_sorted (take n es) ≡ true
    → find_entry es n b ≡ none
    → has_block b (take n es) ≡ false
unfolding find_entry
find_entry-none es n b s h = elim (Bool-cases (has_block b (take n es))) [
  | inr absent ↦ absent
  | inl there ↦
      let (i, bound, at) = upper_bound-finds (take n es) b s there in
      let here = is_block_at-take es n i b at in
      let short = upper_bound-le (b, no_result) n es in
      absurd (ground (arith, h, here, short, bound))
]

pub find_entry-some :
    (es : List Entry) (n b i : ℕ) → find_entry es n b ≡ some i → is_block_at es i b ≡ true
unfolding find_entry
find_entry-some es n b i h = ground (arith, h)

pub is_block_at-get :
    (es : List Entry) (i b : ℕ)
    → is_block_at es i b ≡ true
    → (r : FlowDepResult) × (get_elem? es i ≡ some (b, r))
unfolding is_block_at
is_block_at-get [] i b h = cc
is_block_at-get (e ∷ es) zero b h = (e.1, ap (λ k. some (k, e.1)) (ground (arith, h)))
is_block_at-get (e ∷ es) (suc i) b h = is_block_at-get es i b h
