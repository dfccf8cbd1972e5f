-- ===== src/Graph.antt =====
-- The class templates DependencyNode, DependencyLinkIterator and DependencyGraph of
-- include/DependencyGraph.h. A graph owns its nodes and never deletes one before its destructor, so
-- a node's address is its position in mNodes; the null pointer is `none`. A datum is a pointer, and
-- 0 is the null one. The class has no constructor: `new DepGraph()` zero-initialises the fields.
pub mod Valid
pub mod Edges
pub mod Queries
pub mod Clients
use dep_taint.Prelude.{
  ℕ, zero, suc, ◌+◌, Bool, true, false, ◌&&◌, ◌||◌, Option, none, some, List, [], ◌∷◌, ◌++◌, length,
  get_elem?, set, any, ◌==◌, if◌then◌else◌,
}
use dep_taint.Prelude.Int.{ℤ, pos, negsuc}
use dep_taint.Prelude.PtrMap
use dep_taint.Prelude.PtrMap.{PtrMap}

pub data DependencyType : Type 0 where
  call control data_general data_def_use data_raw parameter : DependencyType

-- The enumerators' values: `int` holds the type of a link.
abbrev pub type_code : DependencyType → ℕ
type_code call = 0
type_code control = 1
type_code data_general = 2
type_code data_def_use = 3
type_code data_raw = 4
type_code parameter = 5

pub data ControlType : Type 0 where
  true_edge false_edge other_edge : ControlType

abbrev pub control_code : ControlType → ℕ
control_code true_edge = 4
control_code false_edge = 8
control_code other_edge = 12

-- A node's address and the type of the dependency.
abbrev pub Link : Type 0
Link = ℕ × ℕ

abbrev pub link_eq : Link → Link → Bool
link_eq p q = p.0 == q.0 && p.1 == q.1

pub record Node : Type 0 where
  pub datum : ℕ
  pub dependencies : List Link

unfoldable pub new_node : ℕ → Node
new_node d = record { datum = d; dependencies = [] }

-- `std::find` guards against a double link.
unfoldable pub add_dependency_to : Node → ℕ → ℕ → Node
add_dependency_to n to type =
    if any (link_eq (to, type)) n.dependencies
    then n
    else record n { dependencies = n.dependencies ++ (to, type) ∷ [] }

unfoldable pub depends_from : Node → Option ℕ → Bool
depends_from n none = false
depends_from n (some p) = any (λ l. p == l.0) n.dependencies

unfoldable pub first_type : List Link → ℕ → ℤ
first_type [] p = negsuc 0
first_type (l ∷ ls) p = if p == l.0 then pos l.1 else first_type ls p

-- No link holds the null pointer.
unfoldable pub node_control_type : Node → Option ℕ → ℤ
unfolding first_type
node_control_type n none = negsuc 0
node_control_type n (some p) = first_type n.dependencies p

pub record Graph : Type 0 where
  pub root_node : Option ℕ
  pub nodes : List Node
  pub data_to_node : PtrMap ℕ

unfoldable pub new_graph : Graph
new_graph = record { root_node = none; nodes = []; data_to_node = [] }

abbrev pub or_else : Option ℕ → ℕ → Option ℕ
or_else none i = some i
or_else (some r) i = some r

unfoldable pub create_node : Graph → ℕ → Graph
unfolding new_node
create_node g d = record {
  root_node = or_else g.root_node (length g.nodes);
  nodes = g.nodes ++ new_node d ∷ [];
  data_to_node = PtrMap.insert d (length g.nodes) g.data_to_node;
}

-- getNodeByData of a graph that may change.
unfoldable pub get_node_by_data : Graph → ℕ → Graph × ℕ
unfolding create_node
get_node_by_data g d = elim (PtrMap.lookup d g.data_to_node) [
  | some i ↦ (g, i)
  | none ↦ (create_node g d, length g.nodes)
]

-- getNodeByData of a `const` graph.
unfoldable pub find_node_by_data : Graph → ℕ → Option ℕ
find_node_by_data g d = PtrMap.lookup d g.data_to_node

-- `pFrom->addDependencyTo(pTo, type)`
unfoldable pub link_nodes : Graph → ℕ → ℕ → ℕ → Graph
unfolding add_dependency_to
link_nodes g from to type = elim (get_elem? g.nodes from) [
  | none ↦ g
  | some n ↦ record g { nodes = set g.nodes from (add_dependency_to n to type) }
]

unfoldable pub add_dependency : Graph → ℕ → ℕ → ℕ → Graph
unfolding get_node_by_data link_nodes
add_dependency g dependent depency type =
    let (g1, from) = get_node_by_data g dependent in
    let (g2, to) = get_node_by_data g1 depency in link_nodes g2 from to type

-- The links of a node; an address that the graph never gave out has none.
unfoldable pub links : Graph → ℕ → List Link
links g i = elim (get_elem? g.nodes i) [ none ↦ [] | some n ↦ n.dependencies ]

unfoldable pub depends : Graph → ℕ → ℕ → Bool
unfolding find_node_by_data depends_from
depends g d e = elim (find_node_by_data g d) [
  | none ↦ false
  | some from ↦ elim (find_node_by_data g e) [
    | none ↦ false
    | some to ↦ elim (get_elem? g.nodes from) [ none ↦ false | some n ↦ depends_from n (some to) ]
  ]
]

-- `none`: the first node is missing, and the code calls a method on a null pointer.
unfoldable pub get_control_type : Graph → ℕ → ℕ → Option ℤ
unfolding find_node_by_data node_control_type
get_control_type g d e = elim (find_node_by_data g d) [
  | none ↦ none
  | some from ↦ elim (get_elem? g.nodes from) [
    | none ↦ none
    | some n ↦ some (node_control_type n (find_node_by_data g e))
  ]
]
