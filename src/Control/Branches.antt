-- ===== src/Control/Branches.antt =====
-- The second loop of computeDependencies: what the terminators come to control.
use dep_taint.Prelude.{
  ℕ, ◌<◌, ◌≡◌, ◌≢◌, refl, ◌⊎◌, inl, inr, ◌↔◌, true, List, [], ◌∷◌, arith, All, ◌==◌, ==_iff,
  Bool-cases,
}
use dep_taint.Prelude.Outcome.{done}
use dep_taint.Ir.{Ir}
use dep_taint.Graph.{Graph, depends}
use dep_taint.Graph.Valid.{IsValid}
use dep_taint.Wrapper.{Statics}
use dep_taint.Wrapper.Laws.{IsMapped, wrapper_of}
use dep_taint.Control.{Pdt, get_dependence_type, edge_walk, edges_walk}
use dep_taint.Control.Paths.{IsTree, AreMapped, Meets, Controls, chain_walk_lem}
use dep_taint.Control.Entry.{not-Controls_null}

module _ (ir : Ir) (pdt : Pdt) (s : Statics) (mapped : AreMapped ir pdt s) (tree : IsTree pdt) where
  -- What the loop needs of an edge of the flow graph.
  pub record IsGood (e : ℕ × ℕ) : Type 0 where
    pub type : ℕ
    pub typed : get_dependence_type ir e.0 e.1 ≡ done type
    pub ends : IsMapped s (ir.terminator e.0)
    pub meets : pdt.node e.1 ≢ 0 → Meets pdt (pdt.nearest e.0 e.1) (pdt.node e.1)

  -- `x` is the wrapper of the terminator of the edge's source, and `y` an instruction of a block
  -- on the way up from its target, before the nearest common post-dominator.
  abbrev pub ByEdge : ℕ × ℕ → ℕ → ℕ → Type 0
  ByEdge e x y =
      (x ≡ wrapper_of s (ir.terminator e.0))
      × Controls ir pdt s mapped (pdt.nearest e.0 e.1) (pdt.node e.1) y

  abbrev pub BySome : List (ℕ × ℕ) → ℕ → ℕ → Type 0
  BySome [] x y = ⊥
  BySome (e ∷ es) x y = ByEdge e x y ⊎ BySome es x y

  record EdgeWalked (fuel : ℕ) (g : Graph) (e : ℕ × ℕ) : Type 0 where
    result : Graph
    runs : edge_walk ir pdt fuel s g e ≡ done (s, result)
    valid : IsValid result
    exact : (x y : ℕ) → (depends result x y ≡ true) ↔ ((depends g x y ≡ true) ⊎ ByEdge e x y)

  pub record EdgesWalked (fuel : ℕ) (g : Graph) (es : List (ℕ × ℕ)) : Type 0 where
    pub result : Graph
    pub runs : edges_walk ir pdt fuel s g es ≡ done (s, result)
    pub valid : IsValid result
    pub exact : (x y : ℕ) → (depends result x y ≡ true) ↔ ((depends g x y ≡ true) ⊎ BySome es x y)

  module _ (fuel : ℕ) (enough : (n : ℕ) → tree.level n < fuel) where
    edge_walk_lem : (g : Graph) (e : ℕ × ℕ) → IsValid g → IsGood e → EdgeWalked fuel g e
    unfolding edge_walk
    edge_walk_lem g (a, b) v good = elim (Bool-cases (pdt.node b == 0)) [
      | inl null ↦ record {
        result = g;
        runs = rw good.typed (rw null refl);
        valid = v;
        exact = λ x y. (
          inl,
          λ d. elim d [
            | inl old ↦ old
            | inr (_, c) ↦
                absurd (not-Controls_null ir pdt s mapped _ (pdt.node b) y ((==_iff _ 0).0 null) c)
          ],
        );
      }
      | inr node ↦
          let w =
            chain_walk_lem ir pdt s mapped tree a good.type (pdt.nearest a b) good.ends g
              (pdt.node b) v (good.meets (ground arith)) in
          record {
            result = w.result;
            runs = rw good.typed (rw node (w.runs fuel (enough (pdt.node b))));
            valid = w.valid;
            exact = w.exact;
          }
    ]

    -- The loop ends, and each terminator comes to control what some edge out of its block makes it
    -- control.
    pub edges_walk_lem :
        (g : Graph) (es : List (ℕ × ℕ)) → IsValid g → All IsGood es → EdgesWalked fuel g es
    unfolding edges_walk
    edges_walk_lem g [] v good = record {
      result = g;
      runs = refl;
      valid = v;
      exact = λ x y. (inl, λ d. elim d [ inl old ↦ old | inr c ↦ absurd c ]);
    }
    edges_walk_lem g (e ∷ es) v (good, rest) =
        let first = edge_walk_lem g e v good in
        let w = edges_walk_lem first.result es first.valid rest in
        record {
          result = w.result;
          runs = rw first.runs w.runs;
          valid = w.valid;
          exact = λ x y. ground (arith, first.exact x y, w.exact x y);
        }
