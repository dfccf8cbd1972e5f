-- ===== src/Tests/Wrappers.antt =====
-- constructInstMap on the sample.
use dep_taint.Prelude.{ℕ, ◌≡◌, refl, some, All}
use dep_taint.Prelude.PtrMap
use dep_taint.Prelude.PtrSet
use dep_taint.Ir.{instructions}
use dep_taint.Wrapper.{Statics, no_statics, construct_inst_map}
use dep_taint.Wrapper.Laws.{
  IsValid, IsMapped, no_statics-IsValid, construct_inst_map-IsValid, construct_inst_map_total,
  construct_inst_map_idem,
}
use dep_taint.Tests.Sample.{sample, sample_addr, sample_alloc}

wrapped : Statics
wrapped = construct_inst_map sample_addr sample no_statics 1

wrapped_runs :
    (PtrMap.lookup 101 wrapped.inst_map ≡ some 4096)
    × (PtrMap.lookup 102 wrapped.inst_map ≡ some 4112)
    × (wrapped.allocated ≡ 10)
unfolding wrapped construct_inst_map instructions no_statics PtrMap.lookup PtrMap.insert
    PtrMap.get_or PtrSet.insert
wrapped_runs = (refl, refl, refl)

wrapped-IsValid : IsValid sample_addr wrapped
unfolding wrapped
wrapped-IsValid =
    construct_inst_map-IsValid sample_addr sample_alloc sample no_statics 1
      (no_statics-IsValid sample_addr)

construct_inst_map-IsValid_example :
    IsValid sample_addr (construct_inst_map sample_addr sample wrapped 1)
construct_inst_map-IsValid_example =
    construct_inst_map-IsValid sample_addr sample_alloc sample wrapped 1 wrapped-IsValid

construct_inst_map_total_example :
    All (IsMapped (construct_inst_map sample_addr sample no_statics 1)) (instructions sample 1)
    × ((j w : ℕ)
        → PtrMap.lookup j no_statics.inst_map ≡ some w
        → PtrMap.lookup j (construct_inst_map sample_addr sample no_statics 1).inst_map ≡ some w)
construct_inst_map_total_example = construct_inst_map_total sample_addr sample no_statics 1

construct_inst_map_idem_example : construct_inst_map sample_addr sample wrapped 1 ≡ wrapped
unfolding wrapped
construct_inst_map_idem_example = construct_inst_map_idem sample_addr sample no_statics 1
