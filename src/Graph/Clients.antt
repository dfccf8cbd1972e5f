-- ===== src/Graph/Clients.antt =====
-- What a client sees of a graph over any sequence of calls: the set of the edges that were added.
use mathlib.Core.List.{Memᴰ}
use mathlib.Core.List.Memᴰ
use dep_taint.Prelude.{
  ℕ, ◌≡◌, refl, ap, ◌⊎◌, inl, inr, ◌↔◌, Bool, true, false, ◌&&◌, List, [], ◌∷◌, arith, ◌==◌, any,
  Bool-cases, Option-cases,
}
use dep_taint.Prelude.PtrMap
use dep_taint.Graph.{Graph, Link, links, new_graph, get_node_by_data, add_dependency, depends}
use dep_taint.Graph.Valid.{
  IsValid, new_graph-IsValid, add_dependency-IsValid, get_node_by_data-IsValid,
}
use dep_taint.Graph.Edges.{has_edge, leads_to, related, related-get_node_by_data}
use dep_taint.Graph.Queries.{has_edge-add_dependency, depends-related}

-- The calls of the passes that may change a graph: addDependency and getNodeByData.
pub data Op : Type 0 where
  add : ℕ → ℕ → ℕ → Op
  touch : ℕ → Op

unfoldable pub run : List Op → Graph → Graph
run [] g = g
run (add a b type ∷ ops) g = run ops (add_dependency g a b type)
run (touch d ∷ ops) g = run ops (get_node_by_data g d).0

any_some :
    (j : ℕ) (ls : List Link)
    → (any (leads_to j (λ _. true)) ls ≡ true)
      ↔ ((t : ℕ) × (any (leads_to j (λ s. t == s)) ls ≡ true))
any_some j [] = (λ e. absurd (ground (arith, e)), λ (t, e). e)
any_some j (l ∷ ls) = (
  λ e. elim (Bool-cases (j == l.0)) [
    | inl here ↦ (l.1, ground (arith, here))
    | inr other ↦
        let (t, h) = (any_some j ls).0 (ground (arith, e, other)) in (t, ground (arith, h))
  ],
  λ (t, e). elim (Bool-cases (j == l.0)) [
    | inl here ↦ ground (arith, here)
    | inr other ↦ ground (arith, other, (any_some j ls).1 (t, ground (arith, e, other)))
  ],
)

related_some :
    (g : Graph) (x y : ℕ)
    → (related g (λ _. true) x y ≡ true) ↔ ((t : ℕ) × (has_edge g x y t ≡ true))
unfolding related has_edge
related_some g x y = elim (Option-cases (PtrMap.lookup x g.data_to_node)) [
  | inl absent ↦
      (λ e. absurd (ground (arith, e, absent)), λ (t, e). absurd (ground (arith, e, absent)))
  | inr (i, at) ↦ elim (Option-cases (PtrMap.lookup y g.data_to_node)) [
    | inl absent ↦ (
      λ e. absurd (ground (arith, e, at, absent)),
      λ (t, e). absurd (ground (arith, e, at, absent)),
    )
    | inr (j, at') ↦ rw (at, at', related, has_edge) (any_some j (links g i))
  ]
]

-- The abstract view: a graph is a set of typed edges, and depends forgets their types.
pub depends_iff :
    (g : Graph) (x y : ℕ) → (depends g x y ≡ true) ↔ ((t : ℕ) × (has_edge g x y t ≡ true))
depends_iff g x y = rw (depends-related g x y) (related_some g x y)

abbrev ends : Op → ℕ × ℕ × ℕ
ends (add a b type) = (a, b, type)
ends (touch d) = (d, d, d)

add_cases :
    (a b type x y t : ℕ) (ops : List Op)
    → Memᴰ (add x y t) (add a b type ∷ ops)
      ↔ (((a == x && b == y && t == type) ≡ true) ⊎ Memᴰ (add x y t) ops)
add_cases a b type x y t ops = (
  λ m. elim (Memᴰ.cases_cons m) [
    | inl e ↦
        inl (ground (arith, ap (λ o. (ends o).0) e, ap (λ o. (ends o).1) e, ap (λ o. (ends o).2) e))
    | inr rest ↦ inr rest
  ],
  λ e. elim e [
    | inl h ↦
        let hx : x ≡ a = ground (arith, h) in
        let hy : y ≡ b = ground (arith, h) in
        let ht : t ≡ type = ground (arith, h) in Memᴰ.head (rw (hx, hy, ht) refl)
    | inr rest ↦ Memᴰ.tail rest
  ],
)

is_touch : Op → Bool
is_touch (add a b type) = false
is_touch (touch d) = true

touch_cases :
    (d x y t : ℕ) (ops : List Op) → Memᴰ (add x y t) (touch d ∷ ops) → Memᴰ (add x y t) ops
unfolding is_touch
touch_cases d x y t ops m = elim (Memᴰ.cases_cons m) [
  | inl e ↦ absurd (ground (arith, ap is_touch e))
  | inr rest ↦ rest
]

pub has_edge-get_node_by_data :
    (g : Graph) (d x y t : ℕ)
    → IsValid g
    → has_edge (get_node_by_data g d).0 x y t ≡ has_edge g x y t
unfolding has_edge
has_edge-get_node_by_data g d x y t v = related-get_node_by_data g (λ s. t == s) d x y v

has_edge-new_graph : (x y t : ℕ) → has_edge new_graph x y t ≡ false
unfolding has_edge related new_graph PtrMap.lookup
has_edge-new_graph x y t = refl

run_lem :
    (ops : List Op) (g : Graph)
    → IsValid g
    → IsValid (run ops g)
      × ((x y t : ℕ)
          → (has_edge (run ops g) x y t ≡ true)
            ↔ ((has_edge g x y t ≡ true) ⊎ Memᴰ (add x y t) ops))
unfolding run
run_lem [] g v = (v, λ x y t. (inl, λ e. elim e [ inl h ↦ h | inr m ↦ absurd (Memᴰ.not-nil m) ]))
run_lem (add a b type ∷ ops) g v =
    let (valid, exact) =
      run_lem ops (add_dependency g a b type) (add_dependency-IsValid g a b type v) in
    (
      valid,
      λ x y t. ground (
        arith,
        exact x y t,
        has_edge-add_dependency g a b type x y t v,
        add_cases a b type x y t ops,
      ),
    )
run_lem (touch d ∷ ops) g v =
    let (valid, exact) = run_lem ops (get_node_by_data g d).0 (get_node_by_data-IsValid g v d) in
    (
      valid,
      λ x y t. ground (
        arith,
        exact x y t,
        has_edge-get_node_by_data g d x y t v,
        touch_cases d x y t ops,
        λ (m : Memᴰ (add x y t) ops). Memᴰ.tail {x = touch d} m,
      ),
    )

-- Whatever sequence of calls of addDependency and getNodeByData builds a graph, it is valid, its
-- edges are exactly the triples that were added, and depends holds exactly of the pairs that were
-- added with some type: order and repetition of the calls do not show.
pub run_refines :
    (ops : List Op)
    → IsValid (run ops new_graph)
      × ((x y t : ℕ) → (has_edge (run ops new_graph) x y t ≡ true) ↔ Memᴰ (add x y t) ops)
      × ((x y : ℕ) → (depends (run ops new_graph) x y ≡ true) ↔ ((t : ℕ) × Memᴰ (add x y t) ops))
run_refines ops =
    let (valid, exact) = run_lem ops new_graph new_graph-IsValid in
    let added : (x y t : ℕ) → (has_edge (run ops new_graph) x y t ≡ true) ↔ Memᴰ (add x y t) ops =
      λ x y t. ground (arith, exact x y t, has_edge-new_graph x y t) in
    (
      valid,
      added,
      λ x y. (
        λ e. let (t, h) = (depends_iff (run ops new_graph) x y).0 e in (t, (added x y t).0 h),
        λ (t, m). (depends_iff (run ops new_graph) x y).1 (t, (added x y t).1 m),
      ),
    )
