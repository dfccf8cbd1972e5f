-- ===== src/Tests/Scans.antt =====
-- Queries for dependences in a block: an alloca, a store, a load, a store, a load and a return.
use dep_taint.Prelude.{
  ap, ℕ, zero, suc, ◌*◌, ◌<◌, ◌≤◌, ◌≡◌, ◌≢◌, refl, ◌⊎◌, inl, inr, true, false, [], ◌∷◌, arith, All,
  ◌==◌, if◌then◌else◌, Bool-cases, ltb, none, some,
}
use dep_taint.Prelude.Int.{pos}
use dep_taint.Prelude.Outcome.{done, fault}
use dep_taint.Prelude.PtrMap
use dep_taint.Prelude.PtrSet
use dep_taint.Ir.{Ir}
use dep_taint.Data.{AliasResult}
use dep_taint.FlowDepResult.{FlowDepResult, DepType, is_dirty}
use dep_taint.FlowDependence.{is_position, ModRef, Location, Llvm, backwards}
use dep_taint.FlowDependence.Calls.{at_start, call_site_step, get_call_site_dependency_from}
use dep_taint.FlowDependence.Widen.{get_load_load_clobber_full_width_size}
use dep_taint.FlowDependence.Widen.Bounds.{
  IsNextPower, doubled, le-doubled, Serves, full_width_size_bounds,
}
use dep_taint.FlowDependence.Pointers.{get_pointer_dependency_from}
use dep_taint.FlowDependence.Scan.{reference}
use dep_taint.FlowDependence.Scan.Call.{call_site_dependency_nearest}
use dep_taint.FlowDependence.Scan.Pointer.{decide, query_of, considered, pointer_dependency_nearest}
use dep_taint.FlowDependence.Scan.Steps.{IsSized}
use dep_taint.FlowDependence.Cache.{LocalCache, release_memory, get_dependency, fresh_answer}
use dep_taint.FlowDependence.Cache.Synced.{IsSynced, in_reverse, points_to}
use dep_taint.FlowDependence.Cache.Queries.{get_dependency_keeps}
use dep_taint.FlowDependence.Cache.Transparent.{run_queries, get_dependency_refines}
use dep_taint.Tests.Sample.{sample}

-- The next power of two, from `p` on.
next_from : ℕ → ℕ → ℕ → ℕ
next_from zero p n = p
next_from (suc k) p n = let later = next_from k (p * 2) n in if ltb n p then p else later

next_from-bounds :
    (k p n : ℕ)
    → n < doubled k p
    → doubled k p ≤ 2147483648
    → (n < next_from k p n) × (next_from k p n ≤ 2147483648)
unfolding next_from doubled
next_from-bounds zero p n h room = (h, room)
next_from-bounds (suc k) p n h room = elim (Bool-cases (ltb n p)) [
  | inl below ↦ rw below (ground (arith, below), omega (arith, le-doubled k (p * 2)))
  | inr above ↦ rw above (next_from-bounds k (p * 2) n h room)
]

next_power : ℕ → ℕ
next_power n = next_from 31 1 n

next_power-IsNextPower : IsNextPower next_power
unfolding next_power doubled
next_power-IsNextPower n h = next_from-bounds 31 1 n h (omega arith)

abbrev pub block_ir : Ir
block_ir = record sample {
  insts = λ b. if b == 10 then 101 ∷ 102 ∷ 201 ∷ 301 ∷ 401 ∷ 402 ∷ [] else [];
  block_of = λ i. 10;
}

abbrev pub whole_x : Location
whole_x = record { ptr = 101; size = 4; tag = 0 }

unfoldable pub block_llvm : Llvm
unfolding next_power next_from
block_llvm = record {
  is_va_arg = λ i. false;
  is_invoke = λ i. false;
  is_terminator = λ i. i == 402;
  intrinsic = λ i. none;
  is_debug = λ i. false;
  is_free_call = λ i. false;
  is_no_alias_fn = λ i. false;
  is_malloc_like = λ i. false;
  is_calloc_like = λ i. false;
  is_unordered = λ i. true;
  is_monotonic = λ i. false;
  is_simple = λ i. true;
  is_invariant_load = λ i. false;
  is_integer = λ i. true;
  bits = λ i. 16;
  alignment = λ i. 4;
  argument = λ i k. 0;
  constant = λ v. 0;
  tbaa = λ i. 0;
  may_write = λ i. false;
  may_read = λ i. false;
  is_identical = λ i j. i == j;
  unknown_size = 18446744073709551615;
  location = λ i. whole_x;
  mod_ref_info = λ i l. ModRef.mod_only;
  mod_ref_calls = λ i j. ModRef.no_mod_ref;
  captures_before = λ i l. ModRef.mod_ref;
  alias = λ l k. AliasResult.must_alias;
  alias_values = λ i v. AliasResult.no_alias;
  is_must_alias = λ l k. true;
  is_must_alias_values = λ i v. false;
  is_constant_memory = λ l. false;
  only_reads_memory = λ i. false;
  underlying_object = λ p. p;
  has_data_layout = true;
  base_with_offset = λ p. (p, pos 0);
  fits_in_legal_integer = λ n. ltb n 65;
  next_power_of_2 = next_power;
  sanitize_thread = λ f. false;
  sanitize_address = λ f. false;
}

pub block-IsSized : (b : ℕ) → All (IsSized block_ir block_llvm) (block_ir.insts b)
unfolding block_llvm
block-IsSized b = elim (Bool-cases (b == 10)) [
  | inl here ↦ rw here (ground arith)
  | inr other ↦ rw other tt
]

pub block_next : IsNextPower (block_llvm.next_power_of_2)
unfolding block_llvm
block_next = next_power-IsNextPower

abbrev no_cache : LocalCache
no_cache = record { local_deps = []; reverse_local_deps = [] }

no_cache-IsSynced : IsSynced no_cache
unfolding in_reverse points_to PtrMap.lookup
no_cache-IsSynced i q = refl

-- The load depends on the store before it, and a second query finds the answer in the cache.
block_runs :
    get_dependency block_ir block_llvm no_cache 401
    ≡ done (
      record {
        local_deps = (401, record { pointer = 301; tag = DepType.def }) ∷ [];
        reverse_local_deps = (301, 401 ∷ []) ∷ [];
      },
      record { pointer = 301; tag = DepType.def },
    )
unfolding get_dependency block_llvm get_pointer_dependency_from PtrMap.insert PtrSet.insert
block_runs = refl

full_width_size_bounds_example :
    (r : ℕ) × (get_load_load_clobber_full_width_size block_ir block_llvm 101 (pos 2) 2 201 ≡ done r)
    × ((r ≡ 0) ⊎ Serves block_ir block_llvm 101 (pos 2) 2 201 r)
unfolding block_llvm
full_width_size_bounds_example =
    full_width_size_bounds block_ir block_llvm 101 (pos 2) 2 201 block_next (omega arith)
      (omega arith)

pointer_dependency_nearest_example :
    get_pointer_dependency_from block_ir block_llvm whole_x true 401 10 401 ≡ (
      if is_position 401 (block_ir.insts 10)
      then reference
          (decide block_ir block_llvm (query_of block_ir block_llvm whole_x true 401))
          (at_start block_ir block_llvm 10)
          99
          (considered block_ir block_llvm 401 10)
      else fault)
pointer_dependency_nearest_example =
    pointer_dependency_nearest block_ir block_llvm whole_x true 401 10 401

call_site_dependency_nearest_example :
    get_call_site_dependency_from block_ir block_llvm 402 true 402 10 ≡ (
      if is_position 402 (block_ir.insts 10)
      then reference
          (call_site_step block_ir block_llvm 402 true)
          (at_start block_ir block_llvm 10)
          99
          (backwards 402 [] (block_ir.insts 10))
      else fault)
call_site_dependency_nearest_example =
    call_site_dependency_nearest block_ir block_llvm 402 true 402 10

-- The answer for 401 is to be looked for again from 301 on.
abbrev dirty_cache : LocalCache
dirty_cache = record {
  local_deps = (401, record { pointer = 301; tag = DepType.invalid }) ∷ [];
  reverse_local_deps = (301, 401 ∷ []) ∷ [];
}

dirty_cache-IsSynced : IsSynced dirty_cache
unfolding in_reverse points_to PtrMap.lookup PtrSet.contains
dirty_cache-IsSynced i q = ground arith

dirty_cache-inside :
    (r : FlowDepResult)
    → PtrMap.lookup 401 dirty_cache.local_deps ≡ some r
    → is_dirty r ≡ true
    → is_position r.pointer (block_ir.insts 10) ≡ true
unfolding PtrMap.lookup is_position
dirty_cache-inside r at dirty =
    let e : 301 ≡ r.pointer = ap (λ o. elim o [ none ↦ 0 | some a ↦ a.pointer ]) at in rw (← e) refl

get_dependency_keeps_example :
    (c' : LocalCache) × (r : FlowDepResult) × (get_dependency block_ir block_llvm dirty_cache 401
      ≡ done (c', r))
    × (is_dirty r ≡ false)
    × (PtrMap.lookup 401 c'.local_deps ≡ some r)
    × ((k : ℕ) → 401 ≢ k → PtrMap.lookup k c'.local_deps ≡ PtrMap.lookup k dirty_cache.local_deps)
    × IsSynced c'
    × (get_dependency block_ir block_llvm c' 401 ≡ done (c', r))
get_dependency_keeps_example =
    get_dependency_keeps block_ir block_llvm dirty_cache 401 block_next (block-IsSized 10) refl
      dirty_cache-inside dirty_cache-IsSynced

get_dependency_refines_example :
    (c1 c2 : LocalCache) × (r : FlowDepResult) × (run_queries block_ir block_llvm
        (401 ∷ 201 ∷ [])
        (release_memory no_cache)
      ≡ done c1)
    × (get_dependency block_ir block_llvm c1 301 ≡ done (c2, r))
    × (fresh_answer block_ir block_llvm 301 301 ≡ done r)
get_dependency_refines_example =
    get_dependency_refines block_ir block_llvm no_cache (401 ∷ 201 ∷ []) 301 block_next
      block-IsSized (refl, (refl, tt)) refl
