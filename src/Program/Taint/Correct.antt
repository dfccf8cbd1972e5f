-- ===== src/Program/Taint/Correct.antt =====
-- The worklist of runOnModule against reachability in the program dependency graph.
use dep_taint.Prelude.{
  ℕ, zero, suc, ◌<◌, ◌≡◌, ◌≢◌, refl, sym, ◌∙◌, ◌⊎◌, inl, inr, ◌↔◌, true, false, List, [], ◌∷◌,
  arith, ==_iff, Bool-cases,
}
use dep_taint.Prelude.Outcome.{
  done, Yields, out_of_fuel, Yields-bind, Yields-ne_out_of_fuel, Yields-done,
}
use dep_taint.Prelude.PtrSet
use dep_taint.Prelude.PtrSet.{PtrSet}
use dep_taint.Ir.{Ir}
use dep_taint.Graph.{Graph}
use dep_taint.Graph.Valid.{IsValid}
use dep_taint.Graph.Edges.{has_edge}
use dep_taint.Program.Taint.{TaintState, expand, propagate}
use dep_taint.Program.Taint.Ends.{measure}
use dep_taint.Program.Taint.Steps.{flagged}
use dep_taint.Program.Taint.Rounds.{Edge, Round, expand-Round}

-- A node to which one or more edges lead from a node of the list.
pub data Reach (g : Graph) (seeds : List ℕ) : ℕ → Type 0 where
  first : (p : ℕ) {q : ℕ} → PtrSet.contains p seeds ≡ true → Edge g p q → Reach g seeds q
  onward : (p : ℕ) {q : ℕ} → Reach g seeds p → Edge g p q → Reach g seeds q

record Inv (g : Graph) (seeds : List ℕ) (st : TaintState) : Type 0 where
  valid : IsValid st.graph
  edges : (x y t : ℕ) → has_edge st.graph x y t ≡ has_edge g x y t
  sound : (q : ℕ) → flagged st.heap q ≡ true → Reach g seeds q
  queued :
      (q : ℕ)
      → PtrSet.contains q st.queue ≡ true
      → (PtrSet.contains q seeds ≡ true) ⊎ (flagged st.heap q ≡ true)
  closed :
      (p q : ℕ)
      → (PtrSet.contains p seeds ≡ true) ⊎ (flagged st.heap p ≡ true)
      → Edge g p q
      → (PtrSet.contains p st.queue ≡ true) ⊎ (flagged st.heap q ≡ true)

Edge-same :
    (g h : Graph) (p q : ℕ)
    → ((x y t : ℕ) → has_edge h x y t ≡ has_edge g x y t)
    → Edge h p q ↔ Edge g p q
Edge-same g h p q same = (
  λ (t, ht, hq, e). (t, ht, hq, sym (same p q t) ∙ e),
  λ (t, ht, hq, e). (t, ht, hq, same p q t ∙ e),
)

contains-front :
    (p q : ℕ) (rest : List ℕ)
    → (PtrSet.contains q (p ∷ rest) ≡ true) ↔ ((p ≡ q) ⊎ (PtrSet.contains q rest ≡ true))
unfolding PtrSet.contains
contains-front p q rest = ground (arith, ==_iff p q)

List-cases : (xs : List ℕ) → (xs ≡ []) ⊎ ((x : ℕ) × (rest : List ℕ) × (xs ≡ x ∷ rest))
List-cases [] = inl refl
List-cases (x ∷ xs) = inr (x, xs, refl)

measure-pop :
    (nodes : PtrSet) (st : TaintState) (p : ℕ) (rest : List ℕ)
    → st.queue ≡ p ∷ rest
    → measure nodes st ≡ suc (measure nodes (record st { queue = rest }))
unfolding measure
measure-pop nodes st p rest front = rw front (omega arith)

module _ (ir : Ir) (nodes : PtrSet) (g : Graph) (seeds : List ℕ) where
  Inv-Round :
      (st next : TaintState) (p : ℕ) (rest : List ℕ)
      → st.queue ≡ p ∷ rest
      → Inv g seeds st
      → Round ir nodes p (record st { queue = rest }) next
      → Inv g seeds next
  Inv-Round st next p rest front h r = record {
    valid = r.valid;
    edges = λ x y t. r.edges x y t ∙ h.edges x y t;
    sound = λ q f. elim ((r.flags q).0 f) [
      | inl old ↦ h.sound q old
      | inr n ↦ elim (h.queued p (waiting p (inl refl))) [
        | inl seed ↦ first p seed ((e p q).0 n)
        | inr f ↦ onward p (h.sound p f) ((e p q).0 n)
      ]
    ];
    queued = λ q m. elim ((r.queued q).0 m) [
      | inl old ↦ elim (h.queued q (waiting q (inr old))) [
        | inl seed ↦ inl seed
        | inr f ↦ inr ((r.flags q).1 (inl f))
      ]
      | inr (n, _) ↦ inr ((r.flags q).1 (inr n))
    ];
    closed = λ a b from edge. elim from [
      | inl seed ↦ goes_on a b edge (h.closed a b (inl seed) edge)
      | inr f ↦ elim ((r.flags a).0 f) [
        | inl old ↦ goes_on a b edge (h.closed a b (inr old) edge)
        | inr n ↦ elim (Bool-cases (flagged st.heap a)) [
          | inl old ↦ goes_on a b edge (h.closed a b (inr old) edge)
          | inr fresh ↦ inl ((r.queued a).1 (inr (n, fresh)))
        ]
      ]
    ];
  }
    where
      e : (x y : ℕ) → Edge st.graph x y ↔ Edge g x y
      e x y = Edge-same g st.graph x y h.edges

      waiting :
          (q : ℕ) → (p ≡ q) ⊎ (PtrSet.contains q rest ≡ true) → PtrSet.contains q st.queue ≡ true
      waiting q m = rw front ((contains-front p q rest).1 m)

      goes_on :
          (a b : ℕ)
          → Edge g a b
          → (PtrSet.contains a st.queue ≡ true) ⊎ (flagged st.heap b ≡ true)
          → (PtrSet.contains a next.queue ≡ true) ⊎ (flagged next.heap b ≡ true)
      goes_on a b edge c = elim c [
        | inl m ↦ elim ((contains-front p a rest).0 (rw front at m)) [
          | inl same ↦ inr ((r.flags b).1 (inr ((e p b).1 (rw (← same) at edge))))
          | inr later ↦ inl ((r.queued a).1 (inl later))
        ]
        | inr f ↦ inr ((r.flags b).1 (inl f))
      ]

  reached-flagged :
      (st : TaintState)
      → st.queue ≡ []
      → Inv g seeds st
      → (q : ℕ) → Reach g seeds q
      → flagged st.heap q ≡ true
  unfolding PtrSet.contains
  reached-flagged st empty h q (first p seed edge) = elim (h.closed p q (inl seed) edge) [
    | inl m ↦ absurd (ground (arith, empty, m))
    | inr f ↦ f
  ]
  reached-flagged st empty h q (onward p r edge) =
      elim (h.closed p q (inr (reached-flagged st empty h p r)) edge) [
        | inl m ↦ absurd (ground (arith, empty, m))
        | inr f ↦ f
      ]

  abbrev Reached : TaintState → Type 0
  Reached final = (q : ℕ) → (flagged final.heap q ≡ true) ↔ Reach g seeds q

  propagate_lem :
      (fuel : ℕ) (st : TaintState)
      → measure nodes st < fuel
      → Inv g seeds st
      → Yields Reached (propagate ir nodes fuel st)
  unfolding propagate Yields
  propagate_lem zero st enough h = absurd (omega (arith, enough))
  propagate_lem (suc fuel) st enough h = elim (List-cases st.queue) [
    | inl empty ↦ rw (empty, propagate, Yields) (λ q. (h.sound q, reached-flagged st empty h q))
    | inr (p, rest, front) ↦
        let start = record st { queue = rest } in
        rw (front, propagate)
          (Yields-bind (Round ir nodes p start) Reached (expand ir nodes start p)
            (λ nxt. propagate ir nodes fuel nxt) (expand-Round ir nodes start p h.valid)
            (λ nxt r.
              propagate_lem fuel nxt
                (omega (arith, r.less, enough, measure-pop nodes st p rest front))
                (Inv-Round st nxt p rest front h r)))
  ]

-- With more fuel than the queue has nodes and the module has wrappers without a flag, on a valid
-- graph and with no flag set, the worklist does not run out of fuel. If no null pointer stops it,
-- then in the end exactly those nodes have their flag set to which a path of one or more edges, none
-- of type CALL and none to the null wrapper, leads from a node of the queue.
pub propagate_reaches :
    (ir : Ir) (nodes : PtrSet) (fuel : ℕ) (st : TaintState)
    → IsValid st.graph
    → ((q : ℕ) → flagged st.heap q ≡ false)
    → measure nodes st < fuel
    → (propagate ir nodes fuel st ≢ out_of_fuel)
      × ((final : TaintState)
          → propagate ir nodes fuel st ≡ done final
          → (q : ℕ) → (flagged final.heap q ≡ true) ↔ Reach st.graph st.queue q)
propagate_reaches ir nodes fuel st v clear enough =
    let start : Inv st.graph st.queue st = record {
      valid = v;
      edges = λ x y t. refl;
      sound = λ q f. absurd (ground (arith, f, clear q));
      queued = λ q m. inl m;
      closed = λ p q from edge. elim from [
        | inl m ↦ inl m
        | inr f ↦ absurd (ground (arith, f, clear p))
      ];
    } in
    let run = propagate_lem ir nodes st.graph st.queue fuel st enough start in
    (
      Yields-ne_out_of_fuel _ _ run,
      λ final e. Yields-done (Reached ir nodes st.graph st.queue) _ final run e,
    )
