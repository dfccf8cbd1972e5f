-- ===== src/FlowDependence/Cache/Transparent.antt =====
-- The cache does not show in the answers of getDependency.
use dep_taint.Prelude.{
  ℕ, ◌≡◌, refl, true, inl, inr, false, List, [], ◌∷◌, arith, some, All, ◌==◌, Bool-cases,
  Option-cases,
}
use dep_taint.Prelude.Outcome.{Outcome, done, ◌>>=◌}
use dep_taint.Prelude.PtrMap
use dep_taint.Prelude.PtrMap.{PtrMap}
use dep_taint.Ir.{Ir}
use dep_taint.FlowDepResult.{FlowDepResult, no_result, is_dirty, get_inst}
use dep_taint.FlowDependence.{Llvm, is_position}
use dep_taint.FlowDependence.Widen.Bounds.{IsNextPower}
use dep_taint.FlowDependence.Scan.Steps.{IsSized}
use dep_taint.FlowDependence.Cache.{
  LocalCache, release_memory, scan_position, remember, get_dependency, fresh_answer,
}
use dep_taint.FlowDependence.Cache.Total.{fresh_answer-Clean}
use dep_taint.FlowDependence.Cache.Queries.{InItsBlock, cached, cached-none, get_dependency-cached}

module _ (ir : Ir) (llvm : Llvm) where
  -- A sequence of queries.
  unfoldable pub run_queries : List ℕ → LocalCache → Outcome LocalCache
  run_queries [] c = done c
  run_queries (q ∷ qs) c = get_dependency ir llvm c q >>= λ (c', r). run_queries qs c'

  -- Every entry is the answer of an uncached query.
  abbrev IsTransparent : LocalCache → Type 0
  IsTransparent c =
      (k : ℕ) (r : FlowDepResult)
      → PtrMap.lookup k c.local_deps ≡ some r
      → (fresh_answer ir llvm k k ≡ done r) × (is_dirty r ≡ false)

  module _ (next : IsNextPower llvm.next_power_of_2)
      (sized : (b : ℕ) → All (IsSized ir llvm) (ir.insts b)) where
    query-IsTransparent :
        (c : LocalCache) (q : ℕ)
        → InItsBlock ir q
        → IsTransparent c
        → (c' : LocalCache) × (r : FlowDepResult) × (get_dependency ir llvm c q ≡ done (c', r))
          × (fresh_answer ir llvm q q ≡ done r)
          × IsTransparent c'
    unfolding get_dependency cached remember scan_position get_inst is_dirty no_result is_position
    query-IsTransparent c q here t = elim (Option-cases (PtrMap.lookup q c.local_deps)) [
      | inl absent ↦
          let inside : is_position q (ir.insts (ir.block_of q)) ≡ true = ground (arith, here) in
          let (r, returns, clean) =
            fresh_answer-Clean ir llvm q q next inside (sized (ir.block_of q)) in
          (
            remember c q r,
            r,
            rw (cached-none c q absent, returns) refl,
            returns,
            λ k s at. elim (Bool-cases (q == k)) [
              | inl same ↦
                  let e : k ≡ q = ground (arith, same) in
                  let found : r ≡ s =
                    ground (arith, PtrMap.lookup-insert q k r c.local_deps, at, same) in
                  rw (e, ← found) (returns, clean)
              | inr other ↦
                  t k s (ground (arith, PtrMap.lookup-insert q k r c.local_deps, at, other))
            ],
          )
      | inr (r, at) ↦
          let (fresh, clean) = t q r at in
          (c, r, get_dependency-cached ir llvm c q r at clean, fresh, t)
    ]

    run_queries-IsTransparent :
        (qs : List ℕ) (c : LocalCache)
        → All (InItsBlock ir) qs
        → IsTransparent c
        → (c' : LocalCache) × (run_queries qs c ≡ done c') × IsTransparent c'
    unfolding run_queries
    run_queries-IsTransparent [] c here t = (c, refl, t)
    run_queries-IsTransparent (q ∷ qs) c (here, others) t =
        let (c', r, returns, fresh, t') = query-IsTransparent c q here t in
        rw returns (run_queries-IsTransparent qs c' others t')

  -- After releaseMemory and any sequence of queries, getDependency answers what the scan from the
  -- query on answers without a cache, and every query of the sequence returns. This is for queries
  -- that stand in their blocks, and instructions with an address other than 0, a size below 2 ^ 32
  -- bits and an alignment below 2 ^ 31.
  pub get_dependency_refines :
      (c : LocalCache) (qs : List ℕ) (q : ℕ)
      → IsNextPower llvm.next_power_of_2
      → ((b : ℕ) → All (IsSized ir llvm) (ir.insts b))
      → All (InItsBlock ir) qs
      → InItsBlock ir q
      → (c1 c2 : LocalCache) × (r : FlowDepResult) × (run_queries qs (release_memory c) ≡ done c1)
        × (get_dependency ir llvm c1 q ≡ done (c2, r))
        × (fresh_answer ir llvm q q ≡ done r)
  unfolding release_memory PtrMap.lookup
  get_dependency_refines c qs q next sized before here =
      let (c1, returns, t) =
        run_queries-IsTransparent next sized qs (release_memory c) before (λ k r at. cc) in
      let (c2, r, answers, fresh, t') = query-IsTransparent next sized c1 q here t in
      (c1, c2, r, returns, answers, fresh)
