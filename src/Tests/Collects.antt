-- ===== src/Tests/Collects.antt =====
-- The lists of a function's instructions.
use dep_taint.Prelude.{ℕ, ◌≡◌, ◌&&◌, none, some, [], ◌==◌, if◌then◌else◌, any}
use dep_taint.Prelude.PtrMap
use dep_taint.Prelude.PtrSet
use dep_taint.Ir.{instructions, is_load, is_store, is_return, is_call}
use dep_taint.Program.Taint.{alloca_max}
use dep_taint.Program.Collect.Lists.{of_class, gives_pointer, is_tracked, collected, collect_exact}
use dep_taint.Tests.Sample.{sample}

collect_exact_example :
    ((collected sample 1 []).store_insts ≡ of_class sample is_store (instructions sample 1))
    × ((collected sample 1 []).load_insts ≡ of_class sample is_load (instructions sample 1))
    × ((collected sample 1 []).return_insts ≡ of_class sample is_return (instructions sample 1))
    × ((collected sample 1 []).call_insts ≡ of_class sample is_call (instructions sample 1))
    × ((v : ℕ)
        → PtrSet.contains v (collected sample 1 []).ptr_set
          ≡ any (gives_pointer sample v) (instructions sample 1))
    × ((v : ℕ)
        → PtrMap.lookup v (collected sample 1 []).alloca_map ≡ (
            if is_tracked sample v && any (λ i. i == v) (instructions sample 1)
            then some alloca_max
            else none))
collect_exact_example = collect_exact sample 1 []
