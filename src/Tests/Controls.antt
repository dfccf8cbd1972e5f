-- ===== src/Tests/Controls.antt =====
-- The control dependencies of the sample: the body of the loop depends on the branch of its
-- condition, and the condition on nothing but the entry.
use mathlib.Core.List.{Memᴰ}
use dep_taint.Prelude.{ℕ, ◌≡◌, refl, ◌⊎◌, ◌↔◌, true, false, some, [], ◌∷◌, arith, All, All-get}
use dep_taint.Prelude.Outcome.{done}
use dep_taint.Prelude.PtrMap
use dep_taint.Prelude.PtrSet
use dep_taint.Ir.{instructions}
use dep_taint.Graph.{new_graph, depends}
use dep_taint.Graph.Valid.{IsValid, new_graph-IsValid}
use dep_taint.Wrapper.{Statics, no_statics, construct_inst_map}
use dep_taint.Wrapper.Laws.{IsMapped}
use dep_taint.Function.{FuncMap, FunctionWrapper, new_function_wrapper, construct_func_map}
use dep_taint.Control.{Computed, add_entry, entry_block, compute_dependencies}
use dep_taint.Control.Paths.{AreMapped, Meets, Controls}
use dep_taint.Control.Edges.{Branching}
use dep_taint.Control.Correct.{IsReady, IsFit, compute_dependencies_correct}
use dep_taint.Tests.Sample.{table_all, sample, sample_blocks, sample_pdt, sample_tree, sample_addr}

abbrev before_pass : Statics
before_pass = construct_inst_map sample_addr sample no_statics 1

abbrev entered : Statics
entered = add_entry sample_addr before_pass 1

all_mapped : (b : ℕ) → All (IsMapped entered) (sample.insts b)
unfolding add_entry construct_inst_map instructions no_statics PtrMap.lookup PtrMap.insert
    PtrMap.get_or PtrSet.insert
all_mapped = table_all (All (IsMapped entered)) [] sample_blocks tt (
  ((4096, refl), ((4112, refl), ((4128, refl), tt))),
  (
    ((4144, refl), ((4160, refl), ((4176, refl), tt))),
    (((4192, refl), ((4208, refl), tt)), (((4224, refl), ((4240, refl), tt)), tt)),
  ),
)

entered_mapped : AreMapped sample sample_pdt entered
entered_mapped n real there = all_mapped (sample_pdt.block n)

fit_body : IsReady sample_addr sample sample_pdt sample_tree before_pass 1 entered_mapped 20 30
unfolding add_entry construct_inst_map instructions no_statics PtrMap.lookup PtrMap.insert
    PtrMap.get_or PtrSet.insert
fit_body = record {
  two = λ branch conditional. (30, 40, refl);
  ends = (4176, refl);
  meets = λ h. Meets.above (omega arith) (omega arith) (Meets.here (omega arith) refl);
}

fit : IsFit sample_addr sample sample_pdt sample_tree before_pass 1 entered_mapped
fit a b m n leaves =
    All-get Fit a (10 ∷ 20 ∷ 30 ∷ 40 ∷ [])
      (
        (λ c k. All-get (To 10) c (20 ∷ []) ((λ l. cc), tt) k),
        (
          (λ c k. All-get (To 20) c (30 ∷ 40 ∷ []) ((λ l. fit_body), ((λ l. cc), tt)) k),
          (
            (λ c k. All-get (To 30) c (20 ∷ []) ((λ l. cc), tt) k),
            ((λ c k. All-get (To 40) c [] tt k), tt),
          ),
        ),
      )
      m b n leaves
  where
    To : ℕ → ℕ → Type 0
    To x c =
        sample_pdt.dominates c x ≡ false
        → IsReady sample_addr sample sample_pdt sample_tree before_pass 1 entered_mapped x c

    Fit : ℕ → Type 0
    Fit x = (c : ℕ) → Memᴰ c (sample.successors x) → To x c

abbrev wrapper_one : FunctionWrapper
wrapper_one = new_function_wrapper 1 []

abbrev functions : FuncMap
functions = construct_func_map [] ((1, []) ∷ [])

known : PtrMap.lookup 1 functions ≡ some wrapper_one
unfolding construct_func_map new_function_wrapper PtrMap.lookup PtrMap.insert
known = refl

compute_dependencies_correct_example :
    (c : Computed) × (compute_dependencies sample sample_pdt sample_addr 5 before_pass new_graph
        functions 1
      ≡ done c)
    × (PtrMap.lookup 1 c.func_map
        ≡ some (record wrapper_one { entry = some (sample_addr before_pass.allocated) }))
    × IsValid c.graph
    × ((x y : ℕ)
        → (depends c.graph x y ≡ true) ↔ (
            (depends new_graph x y ≡ true)
            ⊎ (x ≡ sample_addr before_pass.allocated)
              × Controls sample sample_pdt entered entered_mapped 0
                  (sample_pdt.node (entry_block sample 1))
                  y
            ⊎ Branching sample sample_pdt entered entered_mapped sample_tree (sample.blocks 1) x y))
compute_dependencies_correct_example =
    compute_dependencies_correct sample_addr sample sample_pdt sample_tree before_pass 1
      entered_mapped 5 new_graph functions wrapper_one (λ n. ground arith) new_graph-IsValid known
      fit
