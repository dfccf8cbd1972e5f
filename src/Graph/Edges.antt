-- ===== src/Graph/Edges.antt =====
-- A dependency graph as the relation that its clients see: addDependency adds one edge, and the
-- queries depends and getControlType read the relation.
use dep_taint.Prelude.{
  ℕ, zero, suc, ◌<◌, ◌≡◌, refl, ap, ◌∙◌, inl, inr, Bool, true, false, ◌&&◌, ◌||◌, none, some, List,
  [], ◌∷◌, arith, length, get_elem?, any, any-concat, get_elem?-lt, get_elem?-append_left,
  get_elem?-concat_cases, get_elem?-set_self, get_elem?-set_ne, ◌==◌, if◌then◌else◌, Bool-cases,
  Option-cases,
}
use dep_taint.Prelude.PtrMap
use dep_taint.Graph.{
  Graph, Node, Link, link_eq, new_node, create_node, get_node_by_data, add_dependency_to,
  link_nodes, add_dependency, links,
}
use dep_taint.Graph.Valid.{
  IsValid, Within, lookup-injective, lookup-lt, get_node_by_data-IsValid, get_node_by_data-lookup,
  lookup-get_node_by_data,
}

abbrev pub leads_to : ℕ → (ℕ → Bool) → Link → Bool
leads_to j q l = j == l.0 && q l.1

-- Some link from `d` to `e` has a type that passes the test.
unfoldable pub related : Graph → (ℕ → Bool) → ℕ → ℕ → Bool
related g q d e = elim (PtrMap.lookup d g.data_to_node) [
  | none ↦ false
  | some i ↦ elim (PtrMap.lookup e g.data_to_node) [
    | none ↦ false
    | some j ↦ any (leads_to j q) (links g i)
  ]
]

unfoldable pub has_edge : Graph → ℕ → ℕ → ℕ → Bool
unfolding related
has_edge g d e type = related g (λ t. type == t) d e

any_fresh : (n : ℕ) (q : ℕ → Bool) (ls : List Link) → Within n ls → any (leads_to n q) ls ≡ false
any_fresh n q [] w = refl
any_fresh n q (l ∷ ls) w = ground (arith, any_fresh n q ls w.1)

link_eq→eq : (p q : Link) → link_eq p q ≡ true → p ≡ q
link_eq→eq (a, b) (c, d) h = ground arith

any_of_found :
    (p : Link → Bool) (l : Link) (ls : List Link)
    → any (link_eq l) ls ≡ true
    → p l ≡ true
    → any p ls ≡ true
any_of_found p l [] h e = cc
any_of_found p l (k ∷ ls) h e = elim (Bool-cases (link_eq l k)) [
  | inl same ↦ let hit : p k ≡ true = rw (← link_eq→eq l k same) e in ground arith
  | inr other ↦ ground (arith, any_of_found p l ls)
]

any-add_dependency_to :
    (p : Link → Bool) (n : Node) (to type : ℕ)
    → any p (add_dependency_to n to type).dependencies ≡ (p (to, type) || any p n.dependencies)
unfolding add_dependency_to
any-add_dependency_to p n to type =
    ground (arith, any-concat p n.dependencies (to, type), any_of_found p (to, type) n.dependencies)

links-create_node : (g : Graph) (d k : ℕ) → links (create_node g d) k ≡ links g k
unfolding links create_node new_node
links-create_node g d k = elim (Option-cases (get_elem? g.nodes k)) [
  | inl absent ↦ elim (Option-cases (get_elem? (create_node g d).nodes k)) [
    | inl nothing ↦ ground arith
    | inr (n, at) ↦ ground (arith, get_elem?-concat_cases g.nodes (new_node d) k n at)
  ]
  | inr (n, old) ↦ ground (arith, get_elem?-append_left g.nodes (new_node d ∷ []) k old)
]

links_unused : (g : Graph) → links g (length g.nodes) ≡ []
unfolding links
links_unused g = elim (Option-cases (get_elem? g.nodes (length g.nodes))) [
  | inl absent ↦ ground arith
  | inr (n, at) ↦ absurd (omega (arith, get_elem?-lt g.nodes (length g.nodes) at))
]

links-Within : (g : Graph) (i : ℕ) → IsValid g → Within (length g.nodes) (links g i)
unfolding links
links-Within g i v = elim (Option-cases (get_elem? g.nodes i)) [
  | inl absent ↦ rw (absent, links) tt
  | inr (n, at) ↦ rw (at, links) (v.linked i n at).0
]

related-create_node :
    (g : Graph) (q : ℕ → Bool) (d x y : ℕ)
    → IsValid g
    → PtrMap.lookup d g.data_to_node ≡ none
    → related (create_node g d) q x y ≡ related g q x y
unfolding related create_node
related-create_node g q d x y v fresh = elim (Option-cases (PtrMap.lookup x g.data_to_node)) [
  | inl absent ↦
      ground (arith, found x, found y, links-create_node g d (length g.nodes), links_unused g)
  | inr (i, at) ↦ ground (
    arith,
    found x,
    found y,
    links-create_node g d i,
    any_fresh (length g.nodes) q (links g i) (links-Within g i v),
  )
]
  where
    found :
        (e : ℕ)
        → PtrMap.lookup e (PtrMap.insert d (length g.nodes) g.data_to_node)
          ≡ (if d == e then some (length g.nodes) else PtrMap.lookup e g.data_to_node)
    found e = PtrMap.lookup-insert d e (length g.nodes) g.data_to_node

at_lt : (ns : List Node) (i : ℕ) → i < length ns → ¬ (get_elem? ns i ≡ none)
at_lt [] i h e = elim h [ ]
at_lt (n ∷ ns) zero h e = cc
at_lt (n ∷ ns) (suc i) h e = at_lt ns i (omega arith) e

links-link_nodes :
    (g : Graph) (p : Link → Bool) (from to type k : ℕ)
    → from < length g.nodes
    → any p (links (link_nodes g from to type) k)
      ≡ ((from == k && p (to, type)) || any p (links g k))
unfolding link_nodes links
links-link_nodes g p from to type k h = elim (Option-cases (get_elem? g.nodes from)) [
  | inl absent ↦ absurd (at_lt g.nodes from h absent)
  | inr (n, at) ↦ ground (
    arith,
    get_elem?-set_self g.nodes from (add_dependency_to n to type) h,
    get_elem?-set_ne g.nodes from k (add_dependency_to n to type),
    any-add_dependency_to p n to type,
  )
]

data_to_node-link_nodes :
    (g : Graph) (from to type : ℕ) → (link_nodes g from to type).data_to_node ≡ g.data_to_node
unfolding link_nodes
data_to_node-link_nodes g from to type = ground arith

related-link_nodes :
    (g : Graph) (q : ℕ → Bool) (a b i j type x y : ℕ)
    → IsValid g
    → PtrMap.lookup a g.data_to_node ≡ some i
    → PtrMap.lookup b g.data_to_node ≡ some j
    → related (link_nodes g i j type) q x y ≡ ((a == x && b == y && q type) || related g q x y)
unfolding related
related-link_nodes g q a b i j type x y v ha hb =
    elim (Option-cases (PtrMap.lookup x g.data_to_node)) [
      | inl absent ↦ ground (arith, same_map, ha, hb, absent)
      | inr (k, at) ↦ elim (Option-cases (PtrMap.lookup y g.data_to_node)) [
        | inl absent ↦ ground (arith, same_map, ha, hb, absent, at)
        | inr (m, at') ↦ ground (
          arith,
          same_map,
          links-link_nodes g (leads_to m q) i j type k (lookup-lt g v a i ha),
          lookup-injective g v a x i ha,
          lookup-injective g v b y j hb,
        )
      ]
    ]
  where
    same_map : (link_nodes g i j type).data_to_node ≡ g.data_to_node
    same_map = data_to_node-link_nodes g i j type

pub related-get_node_by_data :
    (g : Graph) (q : ℕ → Bool) (d x y : ℕ)
    → IsValid g
    → related (get_node_by_data g d).0 q x y ≡ related g q x y
unfolding get_node_by_data
related-get_node_by_data g q d x y v = elim (Option-cases (PtrMap.lookup d g.data_to_node)) [
  | inl fresh ↦ rw (fresh, get_node_by_data) (related-create_node g q d x y v fresh)
  | inr (i, old) ↦ rw (old, get_node_by_data) refl
]

-- addDependency adds the edge it is given, and every other edge is there as before.
pub related-add_dependency :
    (g : Graph) (q : ℕ → Bool) (a b type x y : ℕ)
    → IsValid g
    → related (add_dependency g a b type) q x y ≡ ((a == x && b == y && q type) || related g q x y)
unfolding add_dependency
related-add_dependency g q a b type x y v =
    let g1 = (get_node_by_data g a).0 in
    let v1 = get_node_by_data-IsValid g v a in
    let v2 = get_node_by_data-IsValid g1 v1 b in
    let at = lookup-get_node_by_data g1 v1 b a _ (get_node_by_data-lookup g v a) in
    let at' = get_node_by_data-lookup g1 v1 b in
    related-link_nodes _ q a b _ _ type x y v2 at at'
    ∙ ap (λ r. (a == x && b == y && q type) || r)
        (related-get_node_by_data g1 q b x y v1 ∙ related-get_node_by_data g q a x y v)
