-- ===== src/Tests/Datas.antt =====
-- The data dependencies of the sample.
use dep_taint.Prelude.{ℕ, ◌≤◌, ◌<◌, ◌≡◌, refl, ◌⊎◌, ◌↔◌, true, [], ◌∷◌, arith, All}
use dep_taint.Prelude.Int.{pos}
use dep_taint.Prelude.PtrMap
use dep_taint.Prelude.PtrSet
use dep_taint.Ir.{instructions}
use dep_taint.Graph.{new_graph, add_dependency, links}
use dep_taint.Graph.Valid.{new_graph-IsValid}
use dep_taint.Graph.Edges.{has_edge}
use dep_taint.Wrapper.{no_statics, construct_inst_map, inst_wrapper}
use dep_taint.Wrapper.Laws.{wrapper_of}
use dep_taint.Data.{
  Alias, AliasResult, DataState, get_dependency_in_function, nearest_store, max_loc_num,
  run_on_function,
}
use dep_taint.Data.Nearest.{nearest_store_picks, IsNearest, distance}
use dep_taint.Data.Correct.{run_on_function_edges, BroughtBy}
use dep_taint.Tests.Sample.{sample, sample_addr}

abbrev all_may : Alias
all_may = λ a b. AliasResult.may_alias

abbrev fresh : DataState
fresh = record { statics = no_statics; load_loc = []; graph = new_graph }

stores_run : get_dependency_in_function sample all_may 1 401 ≡ 102 ∷ 301 ∷ []
unfolding get_dependency_in_function instructions
stores_run = refl

nearest_runs :
    (nearest_store sample 201 max_loc_num 0 (102 ∷ 301 ∷ []) ≡ (pos 1, 102))
    × (nearest_store sample 401 max_loc_num 0 (102 ∷ 301 ∷ []) ≡ (pos 2, 301))
unfolding nearest_store
nearest_runs = (refl, refl)

nearest_store_picks_example :
    (All (λ st. 100000 ≤ distance sample st 401) (102 ∷ 301 ∷ [])
      × (nearest_store sample 401 max_loc_num 0 (102 ∷ 301 ∷ []) ≡ (max_loc_num, 0)))
    ⊎ ((c : ℕ) × IsNearest sample 401 (102 ∷ 301 ∷ []) c
        × (distance sample c 401 < 100000)
        × (nearest_store sample 401 max_loc_num 0 (102 ∷ 301 ∷ [])
            ≡ (pos (distance sample c 401), c)))
nearest_store_picks_example =
    nearest_store_picks sample 401 (102 ∷ 301 ∷ []) (omega arith) (omega arith)

run_on_function_edges_example :
    (has_edge (run_on_function sample sample_addr all_may fresh 1).graph 4112 4144 4 ≡ true) ↔ (
      (has_edge new_graph 4112 4144 4 ≡ true)
      ⊎ BroughtBy
          (wrapper_of (construct_inst_map sample_addr sample no_statics 1))
          sample
          all_may
          1
          (instructions sample 1)
          4112
          4144
          4)
unfolding instructions
run_on_function_edges_example =
    run_on_function_edges sample_addr sample all_may fresh 1 4112 4144 4 new_graph-IsValid
      (omega arith)

edges_run :
    (has_edge (run_on_function sample sample_addr all_may fresh 1).graph 4112 4144 4 ≡ true)
    × (has_edge (run_on_function sample sample_addr all_may fresh 1).graph 4144 4160 3 ≡ true)
unfolding run_on_function instructions construct_inst_map no_statics new_graph has_edge
    PtrMap.lookup PtrMap.insert PtrMap.get_or PtrSet.insert add_dependency inst_wrapper
    get_dependency_in_function links
edges_run = (refl, refl)
