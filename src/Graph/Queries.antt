-- ===== src/Graph/Queries.antt =====
-- What addDependency does to the answers of depends, and what a run of calls adds.
use dep_taint.Prelude.{
  ℕ, ◌≡◌, refl, ◌∙◌, inl, inr, Bool, true, false, ◌&&◌, ◌||◌, List, [], ◌∷◌, arith, get_elem?, any,
  ◌==◌, Option-cases,
}
use dep_taint.Prelude.PtrMap
use dep_taint.Prelude.PtrSet
use dep_taint.Graph.{Graph, Link, add_dependency, links, depends}
use dep_taint.Graph.Valid.{IsValid, add_dependency-IsValid}
use dep_taint.Graph.Edges.{leads_to, related, has_edge, related-add_dependency}

-- After addDependency(a, b, type) the edges of the graph are the edges it had and the edge from a
-- to b of that type, whatever nodes had to be created, provided the graph was valid.
pub has_edge-add_dependency :
    (g : Graph) (a b type x y t : ℕ)
    → IsValid g
    → has_edge (add_dependency g a b type) x y t
      ≡ ((a == x && b == y && t == type) || has_edge g x y t)
unfolding has_edge
has_edge-add_dependency g a b type x y t v = related-add_dependency g (λ s. t == s) a b type x y v

any_leads : (j : ℕ) (ls : List Link) → any (λ l. j == l.0) ls ≡ any (leads_to j (λ _. true)) ls
any_leads j [] = refl
any_leads j (l ∷ ls) = ground (arith, any_leads j ls)

pub depends-related : (g : Graph) (x y : ℕ) → depends g x y ≡ related g (λ _. true) x y
unfolding depends related links
depends-related g x y = elim (Option-cases (PtrMap.lookup x g.data_to_node)) [
  | inl absent ↦ ground (arith, absent)
  | inr (i, at) ↦ elim (Option-cases (PtrMap.lookup y g.data_to_node)) [
    | inl absent ↦ ground (arith, at, absent)
    | inr (j, at') ↦ elim (Option-cases (get_elem? g.nodes i)) [
      | inl absent ↦ ground (arith, at, at', absent)
      | inr (n, here) ↦ ground (arith, at, at', here, any_leads j n.dependencies)
    ]
  ]
]

and-true : (a b : Bool) → (a && b && true) ≡ (a && b)
and-true true true = refl
and-true true false = refl
and-true false b = refl

-- After addDependency(a, b, type), `depends` holds of a and b and of the pairs of which it held
-- before, and of no other pair, provided the graph was valid.
pub depends-add_dependency :
    (g : Graph) (a b type x y : ℕ)
    → IsValid g
    → depends (add_dependency g a b type) x y ≡ ((a == x && b == y) || depends g x y)
depends-add_dependency g a b type x y v =
    depends-related (add_dependency g a b type) x y
    ∙ related-add_dependency g (λ _. true) a b type x y v
    ∙ ground (arith, and-true (a == x) (b == y), depends-related g x y)

-- One dependent and many dependencies.
unfoldable pub add_all : Graph → ℕ → List ℕ → ℕ → Graph
add_all g a [] type = g
add_all g a (b ∷ bs) type = add_all (add_dependency g a b type) a bs type

pub add_all-IsValid :
    (g : Graph) (a : ℕ) (bs : List ℕ) (type : ℕ) → IsValid g → IsValid (add_all g a bs type)
unfolding add_all
add_all-IsValid g a [] type v = v
add_all-IsValid g a (b ∷ bs) type v =
    add_all-IsValid (add_dependency g a b type) a bs type (add_dependency-IsValid g a b type v)

pub depends-add_all :
    (g : Graph) (a : ℕ) (bs : List ℕ) (type x y : ℕ)
    → IsValid g
    → depends (add_all g a bs type) x y ≡ ((a == x && PtrSet.contains y bs) || depends g x y)
unfolding add_all PtrSet.contains
depends-add_all g a [] type x y v = ground arith
depends-add_all g a (b ∷ bs) type x y v =
    depends-add_all (add_dependency g a b type) a bs type x y (add_dependency-IsValid g a b type v)
    ∙ ground (arith, depends-add_dependency g a b type x y v)
