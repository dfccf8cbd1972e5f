-- ===== src/FlowDependence/Across/Exact.antt =====
-- getNonLocalCallDependency from end to end, for a call without cached answers.
use mathlib.Core.List.{Memᴰ}
use dep_taint.Prelude.{
  ℕ, ◌+◌, ◌<◌, ◌≡◌, ◌≢◌, ◌↔◌, refl, ◌∙◌, inr, true, false, ◌&&◌, ◌||◌, none, some, List, [], arith,
  ◌==◌, if_false, length, All, All-get, All-intro, any,
}
use dep_taint.Prelude.Outcome.{done}
use dep_taint.Prelude.PtrMap
use dep_taint.Prelude.PtrSet
use dep_taint.Ir.{Ir}
use dep_taint.FlowDepResult.{FlowDepResult, is_non_local}
use dep_taint.FlowDependence.{Llvm}
use dep_taint.FlowDependence.Cache.{LocalCache, get_dependency}
use dep_taint.FlowDependence.Cache.Synced.{in_reverse}
use dep_taint.FlowDependence.Forget.{Entry}
use dep_taint.FlowDependence.Store.{no_call_info, Store}
use dep_taint.FlowDependence.Remove.Linked.{get_or-none}
use dep_taint.FlowDependence.Across.{
  Walk, push_all, walk, call_query, get_non_local_call_dependency,
}
use dep_taint.FlowDependence.Across.Measure.{length-push_all, push_all-new, All-push_all, pending}
use dep_taint.FlowDependence.Order.Single.{IsSingle}
use dep_taint.FlowDependence.Across.Rounds.{Scanned, Reach, depends_on, IsFresh}
use dep_taint.FlowDependence.Across.Reached.{walk_ends, exact_entries}

module _ (ir : Ir) (llvm : Llvm) (preds : ℕ → List ℕ) (query : ℕ) where
  abbrev pub own_blocks : List ℕ
  own_blocks = ir.blocks (ir.function_of (ir.block_of query))

  -- The predecessors of the function's blocks are such blocks.
  abbrev pub PredsInside : Type 0
  PredsInside =
      (c : ℕ)
      → PtrSet.contains c own_blocks ≡ true
      → All (λ p. PtrSet.contains p own_blocks ≡ true) (preds c)

  Reach-inside :
      (b : ℕ)
      → PredsInside
      → PtrSet.contains (ir.block_of query) own_blocks ≡ true
      → Reach ir llvm preds query b
      → PtrSet.contains b own_blocks ≡ true
  Reach-inside b inside home (Reach.first m) = All-get _ b _ (inside (ir.block_of query) home) m
  Reach-inside b inside home (Reach.further {b = c} reached scan away m) =
      All-get _ b _ (inside c (Reach-inside c inside home reached)) m

  start : Store → Walk
  start s = record {
    dirty_blocks = push_all (preds (ir.block_of query)) [];
    visited = [];
    cache = [];
    reverse = s.calls.reverse_non_local_deps;
  }

  start-IsFresh : (s : Store) → IsFresh ir llvm preds query s.calls.reverse_non_local_deps (start s)
  unfolding start PtrSet.contains
  start-IsFresh s = record {
    sound = tt;
    stack = All-push_all _ (preds (ir.block_of query)) [] (All-intro _ _ (λ p m. Reach.first m)) tt;
    marked = λ b. refl;
    closed = tt;
    seeded = λ p m. inr (push_all-new p (preds (ir.block_of query)) [] m);
    single = tt;
    linked = λ i k. ground arith;
  }

  -- The store once the entry of the query is there.
  abbrev opened : Store → LocalCache → Store
  opened s local = record s {
    local = local;
    calls = record s.calls {
      non_local_deps = PtrMap.insert query no_call_info s.calls.non_local_deps;
    };
  }

  opens :
      (s : Store) (local : LocalCache) (r : FlowDepResult) (fuel : ℕ)
      → get_dependency ir llvm s.local query ≡ done (local, r)
      → is_non_local r ≡ true
      → PtrMap.lookup query s.calls.non_local_deps ≡ none
      → get_non_local_call_dependency ir llvm preds fuel s query
        ≡ call_query ir llvm preds fuel (opened s local) query no_call_info
  unfolding get_non_local_call_dependency
  opens s local r fuel answers away absent =
      rw (answers, away, get_or-none s.calls.non_local_deps query no_call_info absent) refl

  -- The store that the loop leaves.
  abbrev closed : Store → LocalCache → Walk → Store
  closed s local w = record (opened s local) {
    calls = record {
      non_local_deps =
          PtrMap.insert query (record { entries = w.cache; dirty = false })
            (opened s local).calls.non_local_deps;
      reverse_non_local_deps = w.reverse;
    };
  }

  closes :
      (s : Store) (local : LocalCache) (fuel : ℕ) (w : Walk)
      → walk ir llvm preds fuel query 0 (start s) ≡ done w
      → call_query ir llvm preds fuel (opened s local) query no_call_info
        ≡ done (closed s local w, w.cache)
  unfolding call_query start
  closes s local fuel w runs = rw runs refl

  -- getNonLocalCallDependency, for a call whose dependence within its block is NonLocal and of which
  -- nothing is cached, with more fuel than there are predecessors of the call's block and of all
  -- blocks of the function together: it returns. Its entries are exactly the blocks from which the
  -- call's block is reached through blocks with the answer NonLocal, each once and with what the scan
  -- of the block from its end answers. They are cached as clean, the cached answers of other calls
  -- stay, and the reverse map has the call under the instructions of the entries that are not
  -- NonLocal, and what it had. This is where no instruction has the address 0 and predecessors of
  -- the function's blocks, of which the call's is one, are such blocks.
  pub call_dependency_exact :
      (s : Store) (local : LocalCache) (r : FlowDepResult) (fuel : ℕ)
      → get_dependency ir llvm s.local query ≡ done (local, r)
      → is_non_local r ≡ true
      → PtrMap.lookup query s.calls.non_local_deps ≡ none
      → ((c : ℕ) → All (λ i. i ≢ 0) (ir.insts c))
      → PredsInside
      → PtrSet.contains (ir.block_of query) own_blocks ≡ true
      → length (preds (ir.block_of query)) + pending preds [] own_blocks < fuel
      → (t : Store) × (entries : List Entry) × (get_non_local_call_dependency ir llvm preds fuel s
            query
          ≡ done (t, entries))
        × ((b : ℕ) (a : FlowDepResult)
            → Memᴰ (b, a) entries ↔ (Reach ir llvm preds query b × Scanned ir llvm preds query b a))
        × IsSingle entries
        × (PtrMap.lookup query t.calls.non_local_deps
            ≡ some (record { entries = entries; dirty = false }))
        × ((k : ℕ)
            → query ≢ k
            → PtrMap.lookup k t.calls.non_local_deps ≡ PtrMap.lookup k s.calls.non_local_deps)
        × ((i k : ℕ)
            → in_reverse t.calls.reverse_non_local_deps i k ≡ (
                (query == k && any (depends_on ir llvm preds query i) entries)
                || in_reverse s.calls.reverse_non_local_deps i k))
  unfolding start
  call_dependency_exact s local r fuel answers away absent real inside home enough =
      let (w, runs, fresh, empty) =
        walk_ends ir llvm preds query s.calls.reverse_non_local_deps own_blocks
          (λ c reached. Reach-inside c inside home reached) real fuel (start s)
          (omega (arith, enough, length-push_all (preds (ir.block_of query)) []))
          (start-IsFresh s) in
      (
        closed s local w,
        w.cache,
        opens s local r fuel answers away absent ∙ closes s local fuel w runs,
        λ b a. exact_entries ir llvm preds query s.calls.reverse_non_local_deps w b a fresh empty,
        fresh.single,
        PtrMap.lookup-insert_self query _ _,
        λ k other.
            let apart : (query == k) ≡ false = ground (arith, other) in
            PtrMap.lookup-insert query k _ _
            ∙ if_false _ _ _ apart
            ∙ PtrMap.lookup-insert query k no_call_info s.calls.non_local_deps
            ∙ if_false _ _ _ apart,
        fresh.linked,
      )
