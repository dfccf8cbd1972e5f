-- ===== src/Graph/Valid.antt =====
-- The invariant of a dependency graph: the map and the node list agree, links lead to nodes of the
-- graph, and no node has a link twice.
use dep_taint.Prelude.{
  ℕ, ◌+◌, ◌≤◌, ◌<◌, ◌≡◌, refl, ◌∙◌, ◌⊎◌, inl, inr, false, none, some, List, [], ◌∷◌, ◌++◌, arith,
  length, get_elem?, set, any, All, All-concat, any-concat, length-append, length-set, get_elem?-lt,
  get_elem?-append_left, get_elem?-concat, get_elem?-concat_cases, get_elem?-set_cases,
  get_elem?-set_self, get_elem?-set_ne, ◌==◌, ==_iff, if◌then◌else◌, Bool-cases, Option-cases,
}
use dep_taint.Prelude.PtrMap
use dep_taint.Graph.{
  Graph, Node, Link, link_eq, new_graph, new_node, create_node, get_node_by_data, add_dependency_to,
  link_nodes, add_dependency,
}

abbrev pub Unique : List Link → Type 0
Unique [] = Unit
Unique (l ∷ ls) = (any (link_eq l) ls ≡ false) × Unique ls

abbrev pub Within : ℕ → List Link → Type 0
Within n = All (λ (l : Link). l.0 < n)

pub record IsValid (g : Graph) : Type 0 where
  pub mapped :
      (d i : ℕ)
      → PtrMap.lookup d g.data_to_node ≡ some i
      → (n : Node) × (get_elem? g.nodes i ≡ some n) × (n.datum ≡ d)
  pub indexed :
      (i : ℕ) (n : Node)
      → get_elem? g.nodes i ≡ some n
      → PtrMap.lookup n.datum g.data_to_node ≡ some i
  pub linked :
      (i : ℕ) (n : Node)
      → get_elem? g.nodes i ≡ some n
      → Within (length g.nodes) n.dependencies × Unique n.dependencies
  pub rooted : (g.root_node ≡ none) × (g.nodes ≡ []) ⊎ (g.root_node ≡ some 0) × (0 < length g.nodes)

pub new_graph-IsValid : IsValid new_graph
unfolding new_graph PtrMap.lookup
new_graph-IsValid = record {
  mapped = λ d i h. cc;
  indexed = λ i n h. cc;
  linked = λ i n h. cc;
  rooted = inl (refl, refl);
}

link_eq_sym : (p q : Link) → link_eq p q ≡ link_eq q p
link_eq_sym p q = ground arith

Unique-concat :
    (ls : List Link) (l : Link) → Unique ls → any (link_eq l) ls ≡ false → Unique (ls ++ l ∷ [])
Unique-concat [] l u h = (refl, tt)
Unique-concat (k ∷ ls) l u h = (
  any-concat (link_eq k) ls l ∙ ground (arith, link_eq_sym k l, u.0),
  Unique-concat ls l u.1 (ground arith),
)

Within-mono : {m n : ℕ} (ls : List Link) → m ≤ n → Within m ls → Within n ls
Within-mono [] h w = tt
Within-mono (l ∷ ls) h w = (omega arith, Within-mono ls h w.1)

module _ (g : Graph) (v : IsValid g) where
  pub create_node-IsValid :
      (d : ℕ) → PtrMap.lookup d g.data_to_node ≡ none → IsValid (create_node g d)
  unfolding create_node new_node
  create_node-IsValid d fresh = record {
    mapped = λ e i h. elim (Bool-cases (d == e)) [
      | inl same ↦
          let at : length g.nodes ≡ i = ground (arith, found e) in
          (new_node d, rw (← at) (get_elem?-concat g.nodes (new_node d)), (==_iff d e).0 same)
      | inr other ↦
          let (n, at, same) = v.mapped e i (ground (arith, found e)) in
          (n, get_elem?-append_left g.nodes _ i at, same)
    ];
    indexed = λ i n h. elim (get_elem?-concat_cases g.nodes (new_node d) i n h) [
      | inl old ↦ ground (arith, found n.datum, v.indexed i n old)
      | inr (e, f) ↦ ground (arith, found n.datum, e, f)
    ];
    linked = λ i n h. elim (get_elem?-concat_cases g.nodes (new_node d) i n h) [
      | inl old ↦ (
        Within-mono n.dependencies (omega (arith, longer)) (v.linked i n old).0,
        (v.linked i n old).1,
      )
      | inr (e, f) ↦ rw (← f) (tt, tt)
    ];
    rooted = inr (ground (arith, v.rooted), omega (arith, longer));
  }
    where
      longer : length (g.nodes ++ new_node d ∷ []) ≡ length g.nodes + 1
      longer = length-append g.nodes (new_node d ∷ [])

      found :
          (e : ℕ)
          → PtrMap.lookup e (PtrMap.insert d (length g.nodes) g.data_to_node)
            ≡ (if d == e then some (length g.nodes) else PtrMap.lookup e g.data_to_node)
      found e = PtrMap.lookup-insert d e (length g.nodes) g.data_to_node

  pub get_node_by_data-IsValid : (d : ℕ) → IsValid (get_node_by_data g d).0
  unfolding get_node_by_data
  get_node_by_data-IsValid d = elim (Option-cases (PtrMap.lookup d g.data_to_node)) [
    | inl fresh ↦ rw (fresh, get_node_by_data) (create_node-IsValid d fresh)
    | inr (i, old) ↦ rw (old, get_node_by_data) v
  ]

  add_dependency_to-Unique :
      (n : Node) (to type : ℕ)
      → Unique n.dependencies
      → Unique (add_dependency_to n to type).dependencies
  unfolding add_dependency_to
  add_dependency_to-Unique n to type u = ground (arith, Unique-concat n.dependencies (to, type) u)

  add_dependency_to-Within :
      (n : Node) (to type k : ℕ)
      → to < k
      → Within k n.dependencies
      → Within k (add_dependency_to n to type).dependencies
  unfolding add_dependency_to
  add_dependency_to-Within n to type k h w =
      ground (arith, All-concat (λ (l : Link). l.0 < k) n.dependencies (to, type) w h)

  add_dependency_to-datum : (n : Node) (to type : ℕ) → (add_dependency_to n to type).datum ≡ n.datum
  unfolding add_dependency_to
  add_dependency_to-datum n to type = ground arith

  module _ (from to type : ℕ) (n : Node) (at : get_elem? g.nodes from ≡ some n) where
    linked_node : Node
    linked_node = add_dependency_to n to type

    linked_graph : Graph
    unfolding linked_node
    linked_graph = record g { nodes = set g.nodes from (add_dependency_to n to type) }

    linked_graph-IsValid : to < length g.nodes → IsValid linked_graph
    unfolding linked_graph linked_node
    linked_graph-IsValid h = record {
      mapped = λ d i e.
          let (m, old, same) = v.mapped d i e in
          elim (Bool-cases (from == i)) [
            | inl here ↦ (
              linked_node,
              rw (← (==_iff from i).0 here) (get_elem?-set_self g.nodes from linked_node bound),
              add_dependency_to-datum n to type ∙ ground (arith, at, old, same),
            )
            | inr other ↦
                (m, get_elem?-set_ne g.nodes from i linked_node (ground arith) ∙ old, same)
          ];
      indexed = λ i m e. elim (get_elem?-set_cases g.nodes from linked_node i m e) [
        | inl (here, same) ↦
            rw (here, ← same, add_dependency_to-datum n to type) (v.indexed from n at)
        | inr old ↦ v.indexed i m old
      ];
      linked = λ i m e.
          rw (length-set g.nodes from linked_node)
            (elim (get_elem?-set_cases g.nodes from linked_node i m e) [
              | inl (here, same) ↦ rw (← same) (
                add_dependency_to-Within n to type (length g.nodes) h (v.linked from n at).0,
                add_dependency_to-Unique n to type (v.linked from n at).1,
              )
              | inr old ↦ v.linked i m old
            ]);
      rooted = inr (ground (arith, v.rooted), omega (arith, length-set g.nodes from linked_node));
    }
      where
        bound : from < length g.nodes
        bound = get_elem?-lt g.nodes from at

  pub link_nodes-IsValid :
      (from to type : ℕ) → to < length g.nodes → IsValid (link_nodes g from to type)
  unfolding link_nodes
  link_nodes-IsValid from to type h = elim (Option-cases (get_elem? g.nodes from)) [
    | inl absent ↦ rw (absent, link_nodes) v
    | inr (n, at) ↦
        rw (at, link_nodes)
          (unfold linked_graph linked_node in linked_graph-IsValid from to type n at h)
  ]

  pub get_node_by_data-lookup :
      (d : ℕ)
      → PtrMap.lookup d (get_node_by_data g d).0.data_to_node ≡ some (get_node_by_data g d).1
  unfolding get_node_by_data create_node
  get_node_by_data-lookup d =
      ground (arith, PtrMap.lookup-insert_self d (length g.nodes) g.data_to_node)

  pub lookup-get_node_by_data :
      (d e i : ℕ)
      → PtrMap.lookup e g.data_to_node ≡ some i
      → PtrMap.lookup e (get_node_by_data g d).0.data_to_node ≡ some i
  unfolding get_node_by_data create_node
  lookup-get_node_by_data d e i h =
      ground (arith, PtrMap.lookup-insert d e (length g.nodes) g.data_to_node)

pub lookup-lt :
    (g : Graph) (v : IsValid g) (d i : ℕ)
    → PtrMap.lookup d g.data_to_node ≡ some i
    → i < length g.nodes
lookup-lt g v d i h = let (n, at, _) = v.mapped d i h in get_elem?-lt g.nodes i at

pub lookup-injective :
    (g : Graph) (v : IsValid g) (d e i : ℕ)
    → PtrMap.lookup d g.data_to_node ≡ some i
    → PtrMap.lookup e g.data_to_node ≡ some i
    → d ≡ e
lookup-injective g v d e i h k =
    let (n, at, same) = v.mapped d i h in let (m, at', same') = v.mapped e i k in ground arith

-- addDependency keeps the map and the node list in agreement, its links inside the graph, and
-- every list of links free of repetitions.
pub add_dependency-IsValid :
    (g : Graph) (dependent depency type : ℕ)
    → IsValid g
    → IsValid (add_dependency g dependent depency type)
unfolding add_dependency
add_dependency-IsValid g dependent depency type v =
    let g1 = (get_node_by_data g dependent).0 in
    let v1 = get_node_by_data-IsValid g v dependent in
    let v2 = get_node_by_data-IsValid g1 v1 depency in
    link_nodes-IsValid _ v2 _ _ type
      (lookup-lt _ v2 depency _ (get_node_by_data-lookup g1 v1 depency))
