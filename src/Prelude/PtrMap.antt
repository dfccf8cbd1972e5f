-- ===== src/Prelude/PtrMap.antt =====
-- `std::map` with a pointer for its key: an association list in the order of the keys.
use Prim.Native.Nat.{ℕ, ◌<◌}
use mathlib.Core.Path.{◌≡◌}
use mathlib.Core.Logic.{inl, inr}
use mathlib.Core.Option.{Option, none, some}
use mathlib.Core.List.{List, [], ◌∷◌}
use native.Mathlib.Omega.{arith}
use dep_taint.Prelude.Tests.{◌==◌, ltb, if◌then◌else◌, Bool-cases}
use dep_taint.Prelude.Lists.{All, All-mono, All-both}

abbrev pub PtrMap {ℓ} : Type ℓ → Type ℓ
PtrMap V = List (ℕ × V)

module _ {ℓ} {V : Type ℓ} where
  -- `find`, and the value that it leads to.
  unfoldable pub lookup : (key : ℕ) (entries : PtrMap V) → Option V
  lookup p [] = none
  lookup p ((q, x) ∷ rest) = if p == q then some x else lookup p rest

  -- `m[p] = x`
  unfoldable pub insert : ℕ → V → PtrMap V → PtrMap V
  insert p x [] = (p, x) ∷ []
  insert p x (e ∷ rest) =
      let after = e ∷ insert p x rest in
      if ltb p e.0 then (p, x) ∷ e ∷ rest else if p == e.0 then (p, x) ∷ rest else after

  -- The value of `m[p]` as an expression: a missing key is added with the default.
  unfoldable pub get_or : ℕ → V → PtrMap V → V
  unfolding lookup
  get_or p d m = elim (lookup p m) [ none ↦ d | some x ↦ x ]

  -- `erase`, with a key that may be missing.
  unfoldable pub erase : ℕ → PtrMap V → PtrMap V
  erase p [] = []
  erase p (e ∷ rest) = let kept = erase p rest in if p == e.0 then kept else e ∷ kept

  -- Insertion changes the entry of its own key alone.
  pub lookup-insert :
      (p q : ℕ) (x : V) (m : PtrMap V)
      → lookup q (insert p x m) ≡ (if p == q then some x else lookup q m)
  unfolding lookup insert
  lookup-insert p q x [] = ground arith
  lookup-insert p q x (e ∷ rest) = let ih = lookup-insert p q x rest in ground (arith, ih)

  pub lookup-insert_self : (p : ℕ) (x : V) (m : PtrMap V) → lookup p (insert p x m) ≡ some x
  lookup-insert_self p x m = ground (arith, lookup-insert p p x m)

  pub lookup-erase :
      (p q : ℕ) (m : PtrMap V) → lookup q (erase p m) ≡ (if p == q then none else lookup q m)
  unfolding lookup erase
  lookup-erase p q [] = ground arith
  lookup-erase p q (e ∷ rest) = let ih = lookup-erase p q rest in ground (arith, ih)

  -- The keys ascend.
  abbrev pub IsMap : PtrMap V → Type 0
  IsMap [] = Unit
  IsMap (e ∷ rest) = All (λ d. e.0 < d.0) rest × IsMap rest

  pub All-insert :
      (P : ℕ × V → Type 0) (p : ℕ) (x : V) (m : PtrMap V)
      → P (p, x)
      → All P m
      → All P (insert p x m)
  unfolding insert
  All-insert P p x [] h k = (h, tt)
  All-insert P p x (e ∷ rest) h k = elim (Bool-cases (ltb p e.0)) [
    | inl below ↦ rw below (h, k)
    | inr above ↦ elim (Bool-cases (p == e.0)) [
      | inl same ↦ rw (above, same) (h, k.1)
      | inr other ↦ rw (above, other) (k.0, All-insert P p x rest h k.1)
    ]
  ]

  pub All-erase : (P : ℕ × V → Type 0) (p : ℕ) (m : PtrMap V) → All P m → All P (erase p m)
  unfolding erase
  All-erase P p [] k = tt
  All-erase P p (e ∷ rest) k = elim (Bool-cases (p == e.0)) [
    | inl same ↦ rw same (All-erase P p rest k.1)
    | inr other ↦ rw other (k.0, All-erase P p rest k.1)
  ]

  pub insert-IsMap : (p : ℕ) (x : V) (m : PtrMap V) → IsMap m → IsMap (insert p x m)
  unfolding insert
  insert-IsMap p x [] k = (tt, tt)
  insert-IsMap p x (e ∷ rest) (above, k) = elim (Bool-cases (ltb p e.0)) [
    | inl below ↦
        let lt : p < e.0 = ground (arith, below) in
        rw below ((lt, All-mono _ _ (λ d h. omega arith) rest above), (above, k))
    | inr not_below ↦ elim (Bool-cases (p == e.0)) [
      | inl same ↦
          let e' : p ≡ e.0 = ground (arith, same) in
          rw (not_below, same) (All-mono _ _ (λ d h. omega arith) rest above, k)
      | inr other ↦
          let gt : e.0 < p = ground (arith, not_below, other) in
          rw (not_below, other)
            (All-insert (λ d. e.0 < d.0) p x rest gt above, insert-IsMap p x rest k)
    ]
  ]

  pub erase-IsMap : (p : ℕ) (m : PtrMap V) → IsMap m → IsMap (erase p m)
  unfolding erase
  erase-IsMap p [] k = tt
  erase-IsMap p (e ∷ rest) (above, k) = elim (Bool-cases (p == e.0)) [
    | inl same ↦ rw same (erase-IsMap p rest k)
    | inr other ↦ rw other (All-erase _ p rest above, erase-IsMap p rest k)
  ]

  -- Every entry is found under its key.
  pub lookup-entries : (m : PtrMap V) → IsMap m → All (λ e. lookup e.0 m ≡ some e.1) m
  unfolding lookup
  lookup-entries [] k = tt
  lookup-entries (e ∷ rest) (above, k) = (
    ground arith,
    All-mono _ _ (λ d h. ground (arith, h.0, h.1)) rest
        (All-both _ _ rest (lookup-entries rest k) above),
  )
