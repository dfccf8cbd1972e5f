-- ===== src/Tests/Rounds.antt =====
-- The blocks before a call: 401 in the exit block, behind a loop without a dependence.
use mathlib.Core.List.{Memᴰ}
use dep_taint.Prelude.{
  ℕ, ◌≡◌, ◌≢◌, ◌↔◌, refl, true, false, ◌&&◌, ◌||◌, Option, none, some, List, [], ◌∷◌, arith, ◌==◌,
  if◌then◌else◌, All, any,
}
use dep_taint.Prelude.Outcome.{Outcome, done, fault, out_of_fuel}
use dep_taint.Prelude.PtrMap
use dep_taint.Prelude.PtrSet
use dep_taint.Ir.{Ir, Opcode}
use dep_taint.FlowDepResult.{FlowDepResult, DepType, get_non_local, is_non_local}
use dep_taint.FlowDependence.{ModRef, Llvm}
use dep_taint.FlowDependence.Cache.{LocalCache, get_dependency}
use dep_taint.FlowDependence.Cache.Synced.{in_reverse}
use dep_taint.FlowDependence.Forget.{Entry}
use dep_taint.FlowDependence.Order.{upper_bound}
use dep_taint.FlowDependence.Store.{Store}
use dep_taint.FlowDependence.Across.{
  get_non_local_call_dependency, call_query, walk, block_dependency,
}
use dep_taint.FlowDependence.Across.Measure.{pending}
use dep_taint.FlowDependence.Order.Single.{IsSingle}
use dep_taint.FlowDependence.Across.Rounds.{Scanned, Reach, depends_on}
use dep_taint.FlowDependence.Across.Exact.{PredsInside, call_dependency_exact}
use dep_taint.Tests.Sample.{sample, table, table_all, sample_blocks}
use dep_taint.Tests.Scans.{block_llvm}

-- 401 is a call.
abbrev calling : Ir
calling = record sample { opcode = λ i. if i == 401 then Opcode.call else sample.opcode i }

-- Each access has a place of its own, and the call writes to that of the store 102.
unfoldable apart_llvm : Llvm
unfolding block_llvm
apart_llvm = record block_llvm {
  location = λ i. record { ptr = i; size = 4; tag = 0 };
  mod_ref_info = λ i l. if l.ptr == 102 then ModRef.mod_only else ModRef.no_mod_ref;
}

abbrev before : ℕ → List ℕ
before = table [] ((20, 10 ∷ 30 ∷ []) ∷ (30, 20 ∷ []) ∷ (40, 20 ∷ []) ∷ [])

-- The entries that a run returns.
abbrev entries_of : Outcome (Store × List Entry) → Option (List Entry)
entries_of (done (_, entries)) = some entries
entries_of fault = none
entries_of out_of_fuel = none

abbrev empty_store : Store
empty_store = record {
  local = record { local_deps = []; reverse_local_deps = [] };
  calls = record { non_local_deps = []; reverse_non_local_deps = [] };
  pointers = record { non_local_pointer_deps = []; reverse_non_local_ptr_deps = [] };
}

real_instructions : (c : ℕ) → All (λ i. i ≢ 0) (calling.insts c)
real_instructions c = table_all (All (λ i. i ≢ 0)) [] sample_blocks tt (omega arith) c

before-inside : PredsInside calling apart_llvm before 401
unfolding PtrSet.contains
before-inside c h =
    table_all (All (λ p. PtrSet.contains p (10 ∷ 20 ∷ 30 ∷ 40 ∷ []) ≡ true)) []
      ((20, 10 ∷ 30 ∷ []) ∷ (30, 20 ∷ []) ∷ (40, 20 ∷ []) ∷ []) tt
      ((refl, (refl, tt)), ((refl, tt), ((refl, tt), tt))) c

-- The call comes first in its block.
abbrev own_answer : LocalCache
own_answer = record {
  local_deps = (401, get_non_local) ∷ [];
  reverse_local_deps = (4, 401 ∷ []) ∷ [];
}

own_answer_found :
    get_dependency calling apart_llvm empty_store.local 401 ≡ done (own_answer, get_non_local)
unfolding get_dependency apart_llvm PtrMap.lookup PtrMap.insert PtrSet.insert get_non_local
own_answer_found = refl

-- The store 102 is behind the blocks 20 and 30.
rounds_found :
    entries_of (get_non_local_call_dependency calling apart_llvm before 9 empty_store 401)
    ≡ some (
        (20, get_non_local)
        ∷ (30, get_non_local)
        ∷ (10, record { pointer = 102; tag = DepType.clobber })
        ∷ [])
unfolding get_non_local_call_dependency call_query walk get_dependency apart_llvm PtrMap.lookup
    PtrMap.insert PtrSet.insert PtrSet.contains get_non_local is_non_local block_dependency
    upper_bound
rounds_found = refl

call_dependency_exact_example :
    (t : Store) × (entries : List Entry) × (get_non_local_call_dependency calling apart_llvm before
        9 empty_store 401
      ≡ done (t, entries))
    × ((b : ℕ) (a : FlowDepResult)
        → Memᴰ (b, a) entries
          ↔ (Reach calling apart_llvm before 401 b × Scanned calling apart_llvm before 401 b a))
    × IsSingle entries
    × (PtrMap.lookup 401 t.calls.non_local_deps
        ≡ some (record { entries = entries; dirty = false }))
    × ((k : ℕ)
        → 401 ≢ k
        → PtrMap.lookup k t.calls.non_local_deps ≡ PtrMap.lookup k empty_store.calls.non_local_deps)
    × ((i k : ℕ)
        → in_reverse t.calls.reverse_non_local_deps i k ≡ (
            (401 == k && any (depends_on calling apart_llvm before 401 i) entries)
            || in_reverse empty_store.calls.reverse_non_local_deps i k))
unfolding PtrMap.lookup PtrSet.contains is_non_local get_non_local pending
call_dependency_exact_example =
    call_dependency_exact calling apart_llvm before 401 empty_store own_answer get_non_local 9
      own_answer_found refl refl real_instructions before-inside refl (omega arith)
