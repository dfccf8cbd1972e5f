-- ===== src/Tests/Graphs.antt =====
-- Dependency graphs.
use mathlib.Core.List.{Memᴰ}
use dep_taint.Prelude.{ℕ, ◌↔◌, List, [], ◌∷◌, ◌≡◌, refl, true, false, ◌||◌, some}
use dep_taint.Prelude.Int.{pos, negsuc}
use dep_taint.Prelude.PtrMap
use dep_taint.Graph.{Graph, new_graph, add_dependency, depends, get_control_type}
use dep_taint.Graph.Valid.{IsValid, new_graph-IsValid, add_dependency-IsValid}
use dep_taint.Graph.Edges.{has_edge}
use dep_taint.Graph.Clients.{Op, add, touch, run, run_refines}
use dep_taint.Graph.Queries.{has_edge-add_dependency, depends-add_dependency}

-- 7 depends on 9 and on itself.
abbrev small : Graph
small = add_dependency (add_dependency new_graph 7 9 4) 7 7 1

small-IsValid : IsValid small
small-IsValid =
    add_dependency-IsValid (add_dependency new_graph 7 9 4) 7 7 1
      (add_dependency-IsValid new_graph 7 9 4 new_graph-IsValid)

small_runs :
    (depends small 7 9 ≡ true)
    × (depends small 9 7 ≡ false)
    × (get_control_type small 7 7 ≡ some (pos 1))
    × (get_control_type small 7 8 ≡ some (negsuc 0))
unfolding add_dependency new_graph depends get_control_type PtrMap.insert PtrMap.lookup
small_runs = (refl, refl, refl, refl)

add_dependency-IsValid_example : IsValid (add_dependency small 9 5 2)
add_dependency-IsValid_example = add_dependency-IsValid small 9 5 2 small-IsValid

has_edge-add_dependency_example :
    has_edge (add_dependency small 7 9 1) 7 9 1 ≡ (true || has_edge small 7 9 1)
has_edge-add_dependency_example = has_edge-add_dependency small 7 9 1 7 9 1 small-IsValid

depends-add_dependency_example :
    depends (add_dependency small 9 5 2) 9 5 ≡ (true || depends small 9 5)
depends-add_dependency_example = depends-add_dependency small 9 5 2 9 5 small-IsValid

-- Three calls, of which one repeats another.
abbrev calls : List Op
calls = add 7 9 4 ∷ touch 3 ∷ add 7 9 4 ∷ []

run_refines_example :
    IsValid (run calls new_graph)
    × ((x y t : ℕ) → (has_edge (run calls new_graph) x y t ≡ true) ↔ Memᴰ (add x y t) calls)
    × ((x y : ℕ) → (depends (run calls new_graph) x y ≡ true) ↔ ((t : ℕ) × Memᴰ (add x y t) calls))
run_refines_example = run_refines calls
