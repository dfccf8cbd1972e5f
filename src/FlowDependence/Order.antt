-- ===== src/FlowDependence/Order.antt =====
-- The order of NonLocalDepInfo: SortNonLocalDepInfoCache and AssertSorted of
-- src/FlowDependenceAnalysis.cpp, and what they use of the standard library. An entry is before
-- another if its block has the smaller address.
pub mod Single
pub mod Sorted
use dep_taint.Prelude.{
  ℕ, zero, suc, ◌+◌, ◌-◌, ◌%◌, Bool, true, ◌&&◌, not, Option, none, some, List, [], ◌∷◌, ◌++◌, ◌==◌,
  ltb, if◌then◌else◌, length, take,
}
use dep_taint.FlowDepResult.{FlowDepResult}
use dep_taint.FlowDependence.Forget.{Entry}

-- operator<
unfoldable pub before : Entry → Entry → Bool
before d e = ltb d.0 e.0

-- The loop of AssertSorted: no entry is before the one that it follows.
unfoldable pub sorted_after : Entry → List Entry → Bool
unfolding before
sorted_after d [] = true
sorted_after d (e ∷ es) = not (before e d) && sorted_after e es

unfoldable pub assert_sorted : List Entry → Bool
unfolding sorted_after
assert_sorted [] = true
assert_sorted (e ∷ es) = sorted_after e es

-- std::upper_bound: how many entries stand before the first that comes after `v`.
unfoldable pub upper_bound : Entry → List Entry → ℕ
unfolding before
upper_bound v [] = 0
upper_bound v (e ∷ es) = let further = suc (upper_bound v es) in if before v e then 0 else further

-- std::vector::insert
unfoldable pub insert_at : ℕ → Entry → List Entry → List Entry
insert_at zero v es = v ∷ es
insert_at (suc n) v [] = v ∷ []
insert_at (suc n) v (e ∷ es) = e ∷ insert_at n v es

-- std::sort, by insertion. Where two entries have the same block, the standard leaves their order
-- open.
unfoldable pub sort : List Entry → List Entry
unfolding insert_at upper_bound
sort [] = []
sort (e ∷ es) = let rest = sort es in insert_at (upper_bound e rest) e rest

-- back and pop_back
unfoldable pub pop_back : Entry → List Entry → List Entry × Entry
pop_back e [] = ([], e)
pop_back e (d ∷ es) = let (front, last) = pop_back d es in (e ∷ front, last)

unfoldable pub insert_last : List Entry × Entry → List Entry
unfolding insert_at upper_bound
insert_last (front, last) = insert_at (upper_bound last front) last front

-- Case 1: the last entry goes to its place among the others.
unfoldable pub settle_last : List Entry → List Entry
unfolding insert_last pop_back
settle_last [] = []
settle_last (e ∷ []) = e ∷ []
settle_last (e ∷ d ∷ es) = insert_last (pop_back e (d ∷ es))

-- `Cache.end()-1`: the place is sought among all but the last entry.
unfoldable pub insert_before_last : List Entry × Entry → List Entry
unfolding insert_at upper_bound
insert_before_last (front, last) =
    insert_at (upper_bound last (take (length front - 1) front)) last front

-- Case 2, and then case 1.
unfoldable pub settle_two : List Entry → List Entry
unfolding insert_before_last pop_back settle_last
settle_two [] = []
settle_two (e ∷ es) = settle_last (insert_before_last (pop_back e es))

-- SortNonLocalDepInfoCache: the subtraction is one of 64 bits.
unfoldable pub sort_non_local_dep_info_cache : List Entry → ℕ → List Entry
unfolding sort settle_last settle_two
sort_non_local_dep_info_cache cache sorted =
    let added = (length cache + 18446744073709551616 - sorted) % 18446744073709551616 in
    if added == 0
    then cache
    else if added == 2
    then settle_two cache
    else if added == 1
    then settle_last cache
    else sort cache
