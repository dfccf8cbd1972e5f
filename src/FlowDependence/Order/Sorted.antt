-- ===== src/FlowDependence/Order/Sorted.antt =====
-- SortNonLocalDepInfoCache sorts.
use mathlib.Core.List.{Perm, perm_append_singleton}
use mathlib.Core.List.Perm
use dep_taint.Prelude.{
  ℕ, zero, suc, ◌+◌, ◌-◌, ◌%◌, ◌<◌, ◌≤◌, ◌≡◌, refl, sym, ap, ◌∙◌, subst, inl, inr, Bool, true,
  false, List, [], ◌∷◌, ◌++◌, arith, ◌==◌, if◌then◌else◌, Bool-cases, length, length-append, take,
}
use dep_taint.FlowDependence.Forget.{Entry}
use dep_taint.FlowDependence.Order.{
  before, sorted_after, assert_sorted, upper_bound, insert_at, sort, pop_back, insert_last,
  settle_last, insert_before_last, settle_two, sort_non_local_dep_info_cache,
}

-- An entry at its place.
abbrev pub place : Entry → List Entry → List Entry
place v es = insert_at (upper_bound v es) v es

place-perm : (v : Entry) (es : List Entry) → Perm (place v es) (v ∷ es)
unfolding insert_at upper_bound
place-perm v [] = Perm.rfl
place-perm v (e ∷ es) = elim (Bool-cases (before v e)) [
  | inl first ↦ rw first Perm.rfl
  | inr later ↦ rw later (Perm.trans (Perm.cons e (place-perm v es)) (Perm.swap v e es))
]

place-sorted_after :
    (d v : Entry) (es : List Entry)
    → before v d ≡ false
    → sorted_after d es ≡ true
    → sorted_after d (place v es) ≡ true
unfolding insert_at upper_bound sorted_after before
place-sorted_after d v [] h s = ground arith
place-sorted_after d v (e ∷ es) h s = elim (Bool-cases (before v e)) [
  | inl first ↦ rw first (ground (arith, h, s, first))
  | inr later ↦ rw later (ground (arith, s, place-sorted_after e v es later (ground (arith, s))))
]

pub place-assert_sorted :
    (v : Entry) (es : List Entry) → assert_sorted es ≡ true → assert_sorted (place v es) ≡ true
unfolding insert_at upper_bound assert_sorted sorted_after before
place-assert_sorted v [] s = refl
place-assert_sorted v (e ∷ es) s = elim (Bool-cases (before v e)) [
  | inl first ↦ rw first (ground (arith, s, first))
  | inr later ↦ rw later (place-sorted_after e v es later s)
]

pub sort-perm : (es : List Entry) → Perm (sort es) es
unfolding sort
sort-perm [] = Perm.rfl
sort-perm (e ∷ es) = Perm.trans (place-perm e (sort es)) (Perm.cons e (sort-perm es))

pub sort-assert_sorted : (es : List Entry) → assert_sorted (sort es) ≡ true
unfolding sort assert_sorted
sort-assert_sorted [] = refl
sort-assert_sorted (e ∷ es) = place-assert_sorted e (sort es) (sort-assert_sorted es)

pop_back-concat :
    (e : Entry) (es : List Entry) (a : Entry) → pop_back e (es ++ a ∷ []) ≡ (e ∷ es, a)
unfolding pop_back
pop_back-concat e [] a = refl
pop_back-concat e (d ∷ es) a = rw (pop_back-concat d es a) refl

settle_last-concat : (es : List Entry) (a : Entry) → settle_last (es ++ a ∷ []) ≡ place a es
unfolding settle_last insert_last
settle_last-concat [] a = refl
settle_last-concat (e ∷ []) a = ap insert_last (pop_back-concat e [] a)
settle_last-concat (e ∷ d ∷ es) a = ap insert_last (pop_back-concat e (d ∷ es) a)

take-concat : (es : List Entry) (a : Entry) → take (length es) (es ++ a ∷ []) ≡ es
take-concat [] a = refl
take-concat (e ∷ es) a = ap (◌∷◌ e) (take-concat es a)

insert_at-concat :
    (v : Entry) (es : List Entry) (a : Entry)
    → insert_at (upper_bound v es) v (es ++ a ∷ []) ≡ place v es ++ a ∷ []
unfolding insert_at upper_bound
insert_at-concat v [] a = refl
insert_at-concat v (e ∷ es) a = elim (Bool-cases (before v e)) [
  | inl first ↦ rw first refl
  | inr later ↦ rw later (ap (◌∷◌ e) (insert_at-concat v es a))
]

length-concat : (es : List Entry) (a : Entry) → length (es ++ a ∷ []) - 1 ≡ length es
length-concat es a = omega (arith, length-append es (a ∷ []))

insert_before_last-concat :
    (es : List Entry) (a b : Entry) → insert_before_last (es ++ a ∷ [], b) ≡ place b es ++ a ∷ []
unfolding insert_before_last
insert_before_last-concat es a b =
    ap (λ k. insert_at (upper_bound b (take k (es ++ a ∷ []))) b (es ++ a ∷ []))
      (length-concat es a)
    ∙ ap (λ k. insert_at (upper_bound b k) b (es ++ a ∷ [])) (take-concat es a)
    ∙ insert_at-concat b es a

pop_back_two :
    (es : List Entry) (a b : Entry)
    → settle_two ((es ++ a ∷ []) ++ b ∷ []) ≡ settle_last (insert_before_last (es ++ a ∷ [], b))
unfolding settle_two
pop_back_two [] a b = ap (λ k. settle_last (insert_before_last k)) (pop_back-concat a [] b)
pop_back_two (e ∷ es) a b =
    ap (λ k. settle_last (insert_before_last k)) (pop_back-concat e (es ++ a ∷ []) b)

settle_two-concat :
    (es : List Entry) (a b : Entry) → settle_two ((es ++ a ∷ []) ++ b ∷ []) ≡ place a (place b es)
settle_two-concat es a b =
    pop_back_two es a b
    ∙ ap settle_last (insert_before_last-concat es a b)
    ∙ settle_last-concat (place b es) a

-- A list is its front and its last entry.
split_last :
    (n : ℕ) (es : List Entry)
    → length es ≡ suc n
    → (a : Entry) × (es ≡ take n es ++ a ∷ []) × (length (take n es) ≡ n)
split_last n [] h = absurd (omega arith)
split_last zero (e ∷ []) h = (e, refl, refl)
split_last zero (e ∷ d ∷ es) h = absurd (omega arith)
split_last (suc n) (e ∷ es) h =
    let (a, is, len) = split_last n es (omega arith) in (a, ap (◌∷◌ e) is, ap suc len)

take-take : (n : ℕ) (es : List Entry) → take n (take (suc n) es) ≡ take n es
take-take zero [] = refl
take-take zero (e ∷ es) = refl
take-take (suc n) [] = refl
take-take (suc n) (e ∷ es) = ap (◌∷◌ e) (take-take n es)

take_all : (es : List Entry) → take (length es) es ≡ es
take_all [] = refl
take_all (e ∷ es) = ap (◌∷◌ e) (take_all es)

-- Sorted, with the entries of another list.
abbrev pub Sorts : List Entry → List Entry → Type 0
Sorts out es = (assert_sorted out ≡ true) × Perm out es

settle_last-Sorts :
    (n : ℕ) (es : List Entry)
    → length es ≡ suc n
    → assert_sorted (take n es) ≡ true
    → Sorts (settle_last es) es
settle_last-Sorts n es h s =
    let (a, is, len) = split_last n es h in
    let front = take n es in
    let to = ap settle_last is ∙ settle_last-concat front a in
    (
      ap assert_sorted to ∙ place-assert_sorted a front s,
      subst (λ k. Perm k es) (sym to)
          (subst (λ k. Perm (place a front) k) (sym is)
            (Perm.trans (place-perm a front) (Perm.symm (perm_append_singleton a front)))),
    )

settle_two-Sorts :
    (n : ℕ) (es : List Entry)
    → length es ≡ suc (suc n)
    → assert_sorted (take n es) ≡ true
    → Sorts (settle_two es) es
settle_two-Sorts n es h s =
    let (b, whole, len) = split_last (suc n) es h in
    let (a, part, _) = split_last n (take (suc n) es) len in
    let front = take n (take (suc n) es) in
    let is = whole ∙ ap (λ k. k ++ b ∷ []) part in
    let to = ap settle_two is ∙ settle_two-concat front a b in
    let ordered = ap assert_sorted (take-take n es) ∙ s in
    let in_place = Perm.trans (place-perm a (place b front)) (Perm.cons a (place-perm b front)) in
    let appended =
      Perm.trans (perm_append_singleton b (front ++ a ∷ []))
        (Perm.trans (Perm.cons b (perm_append_singleton a front)) (Perm.swap a b front)) in
    (
      ap assert_sorted to
          ∙ place-assert_sorted a (place b front) (place-assert_sorted b front ordered),
      subst (λ k. Perm k es) (sym to)
          (subst (λ k. Perm (place a (place b front)) k) (sym is)
            (Perm.trans in_place (Perm.symm appended))),
    )

Sorts-if :
    (c : Bool) (out other es : List Entry)
    → (c ≡ true → Sorts out es)
    → (c ≡ false → Sorts other es)
    → Sorts (if c then out else other) es
Sorts-if true out other es h k = h refl
Sorts-if false out other es h k = k refl

-- If the first `sorted` entries of the cache are in order, SortNonLocalDepInfoCache leaves it in
-- order, so that AssertSorted holds of it, and with the entries that it had; this is for a cache of
-- less than 2 ^ 64 entries.
pub sort_cache_sorts :
    (cache : List Entry) (sorted : ℕ)
    → sorted ≤ length cache
    → length cache < 18446744073709551616
    → assert_sorted (take sorted cache) ≡ true
    → (assert_sorted (sort_non_local_dep_info_cache cache sorted) ≡ true)
      × Perm (sort_non_local_dep_info_cache cache sorted) cache
unfolding sort_non_local_dep_info_cache
sort_cache_sorts cache sorted h small s =
    let added = (length cache + 18446744073709551616 - sorted) % 18446744073709551616 in
    let new : added ≡ length cache - sorted = omega arith in
    Sorts-if (added == 0) _ _ cache
      (λ nothing.
        let same : sorted ≡ length cache = ground (arith, nothing, new) in
        (
          subst (λ k. assert_sorted k ≡ true) (ap (λ k. take k cache) same ∙ take_all cache) s,
          Perm.rfl,
        ))
      (λ _.
        Sorts-if (added == 2) _ _ cache
          (λ two. settle_two-Sorts sorted cache (ground (arith, two, new)) s)
          (λ _.
            Sorts-if (added == 1) _ _ cache
              (λ one. settle_last-Sorts sorted cache (ground (arith, one, new)) s)
              (λ _. (sort-assert_sorted cache, sort-perm cache))))
