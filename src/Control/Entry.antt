-- ===== src/Control/Entry.antt =====
-- The first loop of computeDependencies: what the dummy entry node comes to control.
use dep_taint.Prelude.{
  ℕ, zero, suc, ◌<◌, ◌≡◌, ◌≢◌, ◌⊎◌, inl, inr, ◌↔◌, true, arith, ◌==◌, ==_iff, Bool-cases,
}
use dep_taint.Prelude.Outcome.{done}
use dep_taint.Ir.{Ir}
use dep_taint.Graph.{Graph, depends, type_code, control}
use dep_taint.Graph.Valid.{IsValid}
use dep_taint.Graph.Queries.{add_all, add_all-IsValid, depends-add_all}
use dep_taint.Wrapper.{Statics}
use dep_taint.Control.{Pdt, add_wrapper_dependency, entry_walk}
use dep_taint.Control.Paths.{
  IsTree, AreMapped, Before, Controls, Controls-unfold, not-Controls_stop, wrappers_in,
  depend_all_mapped,
}

pub not-Controls_null :
    (ir : Ir) (pdt : Pdt) (s : Statics) (mapped : AreMapped ir pdt s) (stop n y : ℕ)
    → n ≡ 0
    → ¬ Controls ir pdt s mapped stop n y
not-Controls_null ir pdt s mapped stop n y e c = refute c.on_way
  where
    refute : {b : ℕ} → Before pdt stop b n → ⊥
    refute (Before.here h _ _) = h e
    refute (Before.above h _ _) = h e

module _ (ir : Ir) (pdt : Pdt) (s : Statics) (mapped : AreMapped ir pdt s) (tree : IsTree pdt)
    (root : ℕ) where
  pub record EntryWalked (fuel : ℕ) (g : Graph) (n : ℕ) : Type 0 where
    pub result : Graph
    pub runs : entry_walk ir pdt fuel s g root n ≡ done (s, result)
    pub valid : IsValid result
    pub exact :
        (x y : ℕ)
        → (depends result x y ≡ true)
          ↔ ((depends g x y ≡ true) ⊎ (x ≡ root) × Controls ir pdt s mapped 0 n y)

  abbrev after_round : Graph → ℕ → Graph
  after_round g n = add_all g root (wrappers_in ir s (pdt.block n)) (type_code control)

  entry_walk_null : (fuel : ℕ) (g : Graph) (n : ℕ) → IsValid g → n ≡ 0 → EntryWalked (suc fuel) g n
  unfolding entry_walk
  entry_walk_null fuel g n v e = record {
    result = g;
    runs = ground arith;
    valid = v;
    exact = λ x y. (
      inl,
      λ d. elim d [
        | inl old ↦ old
        | inr (_, c) ↦ absurd (not-Controls_null ir pdt s mapped 0 n y e c)
      ],
    );
  }

  entry_walk_virtual :
      (fuel : ℕ) (g : Graph) (n : ℕ) → IsValid g → pdt.block n ≡ 0 → EntryWalked (suc fuel) g n
  unfolding entry_walk
  entry_walk_virtual fuel g n v e = record {
    result = g;
    runs = ground arith;
    valid = v;
    exact = λ x y. (
      inl,
      λ d. elim d [
        | inl old ↦ old
        | inr (_, c) ↦ absurd (not-Controls_stop ir pdt s mapped 0 n y e c)
      ],
    );
  }

  entry_walk_round :
      (fuel : ℕ) (g : Graph) (n : ℕ)
      → n ≢ 0
      → pdt.block n ≢ 0
      → IsValid g
      → EntryWalked fuel (after_round g n) (pdt.idom n)
      → EntryWalked (suc fuel) g n
  unfolding entry_walk add_wrapper_dependency
  entry_walk_round fuel g n h k v w = record {
    result = w.result;
    runs = ground (
      arith,
      depend_all_mapped ir s g root (ir.insts (pdt.block n)) (type_code control) (mapped n h k),
      w.runs,
    );
    valid = w.valid;
    exact = λ x y. ground (
      arith,
      w.exact x y,
      depends-add_all g root (wrappers_in ir s (pdt.block n)) (type_code control) x y v,
      Controls-unfold ir pdt s mapped 0 n y h k,
    );
  }

  -- The walk ends, and the entry node comes to control the instructions of the blocks that it meets.
  pub entry_walk_lem :
      (fuel : ℕ) (g : Graph) (n : ℕ) → tree.level n < fuel → IsValid g → EntryWalked fuel g n
  entry_walk_lem zero g n enough v = absurd (omega arith)
  entry_walk_lem (suc fuel) g n enough v = elim (Bool-cases (n == 0)) [
    | inl null ↦ entry_walk_null fuel g n v ((==_iff n 0).0 null)
    | inr node ↦ elim (Bool-cases (pdt.block n == 0)) [
      | inl virtual ↦ entry_walk_virtual fuel g n v ((==_iff (pdt.block n) 0).0 virtual)
      | inr block ↦
          let h : n ≢ 0 = ground arith in
          entry_walk_round fuel g n h (ground arith) v (
            entry_walk_lem fuel (after_round g n) (pdt.idom n) (omega (arith, tree.up n h))
              (add_all-IsValid g root (wrappers_in ir s (pdt.block n)) (type_code control) v))
    ]
  ]
