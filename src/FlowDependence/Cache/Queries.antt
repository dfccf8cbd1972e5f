-- ===== src/FlowDependence/Cache/Queries.antt =====
-- What getDependency answers, and what it does to the cache.
use dep_taint.Prelude.{
  ℕ, ◌≡◌, ◌≢◌, refl, sym, ap, ◌∙◌, inl, inr, true, false, not, ◌&&◌, arith, none, some, All, ◌==◌,
  any, if◌then◌else◌, Bool-cases, Option-cases,
}
use dep_taint.Prelude.Outcome.{done}
use dep_taint.Prelude.PtrMap
use dep_taint.Prelude.PtrMap.{PtrMap}
use dep_taint.Prelude.PtrSet.{PtrSet}
use dep_taint.Ir.{Ir}
use dep_taint.FlowDepResult.{FlowDepResult, no_result, is_dirty, get_inst}
use dep_taint.FlowDependence.{Llvm, is_position}
use dep_taint.FlowDependence.Widen.Bounds.{IsNextPower}
use dep_taint.FlowDependence.Scan.Steps.{IsSized}
use dep_taint.FlowDependence.Cache.{LocalCache, scan_position, remember, get_dependency}
use dep_taint.FlowDependence.Cache.Total.{fresh_answer-Clean}
use dep_taint.FlowDependence.Cache.Synced.{
  in_reverse, points_to, IsSynced, in_reverse-add, points_to-insert, remove-lem,
}

-- The entry of a query, or the dirty default.
unfoldable pub cached : LocalCache → ℕ → FlowDepResult
cached c q = PtrMap.get_or q no_result c.local_deps

pub cached-none :
    (c : LocalCache) (q : ℕ) → PtrMap.lookup q c.local_deps ≡ none → cached c q ≡ no_result
unfolding cached PtrMap.get_or
cached-none c q h = ground (arith, h)

cached-some :
    (c : LocalCache) (q : ℕ) (r : FlowDepResult)
    → PtrMap.lookup q c.local_deps ≡ some r
    → cached c q ≡ r
unfolding cached PtrMap.get_or
cached-some c q r h = ground (arith, h)

clean-lookup :
    (c : LocalCache) (q : ℕ)
    → is_dirty (cached c q) ≡ false
    → PtrMap.lookup q c.local_deps ≡ some (cached c q)
unfolding is_dirty no_result
clean-lookup c q h = elim (Option-cases (PtrMap.lookup q c.local_deps)) [
  | inl absent ↦ absurd (ground (arith, h, ap is_dirty (cached-none c q absent)))
  | inr (r, at) ↦ at ∙ ap some (sym (cached-some c q r at))
]

pub points_to-cached :
    (c : LocalCache) (i q : ℕ)
    → points_to c.local_deps i q ≡ (not (i == 0) && (cached c q).pointer == i)
unfolding points_to no_result
points_to-cached c i q = elim (Option-cases (PtrMap.lookup q c.local_deps)) [
  | inl absent ↦ rw (absent, cached-none c q absent) (ground arith)
  | inr (r, at) ↦ rw (at, cached-some c q r at) refl
]

-- The reverse map without the value.
abbrev Forgets : LocalCache → ℕ → PtrMap PtrSet → Type 0
Forgets c q m = (i k : ℕ) → in_reverse m i k ≡ (not (q == k) && points_to c.local_deps i k)

-- Where the scan for a query starts, the instruction of a dirty entry or the query itself.
abbrev start_of : LocalCache → ℕ → ℕ
start_of c q = if (cached c q).pointer == 0 then q else (cached c q).pointer

scan_position-lem :
    (c : LocalCache) (q : ℕ)
    → IsSynced c
    → (m : PtrMap PtrSet) × (scan_position c (cached c q) q ≡ done (start_of c q, m))
      × Forgets c q m
unfolding scan_position get_inst
scan_position-lem c q s = elim (Bool-cases ((cached c q).pointer == 0)) [
  | inl nowhere ↦ rw nowhere (
    c.reverse_local_deps,
    refl,
    λ i k. elim (Bool-cases (q == k)) [
      | inl same ↦
          let e : k ≡ q = ground (arith, same) in
          rw (e, s i q) (ground (arith, nowhere, points_to-cached c i q))
      | inr other ↦ ground (arith, other, s i k)
    ],
  )
  | inr somewhere ↦
      let at = (cached c q).pointer in
      let there : in_reverse c.reverse_local_deps at q ≡ true =
        ground (arith, s at q, points_to-cached c at q, somewhere) in
      let (m, removes, exact) = remove-lem c.reverse_local_deps at q there in
      rw (somewhere, removes)
        (
          m,
          refl,
          λ i k. elim (Bool-cases (q == k)) [
            | inl same ↦
                let e : k ≡ q = ground (arith, same) in
                rw e (ground (arith, exact i q, s i q, points_to-cached c i q))
            | inr other ↦ ground (arith, other, exact i k, s i k)
          ],
        )
]

remember-IsSynced :
    (c : LocalCache) (q : ℕ) (m : PtrMap PtrSet) (r : FlowDepResult)
    → Forgets c q m
    → IsSynced (remember (record c { reverse_local_deps = m }) q r)
unfolding remember get_inst
remember-IsSynced c q m r f i k = elim (Bool-cases (r.pointer == 0)) [
  | inl nowhere ↦ rw nowhere (ground (arith, nowhere, f i k, points_to-insert c.local_deps q r i k))
  | inr somewhere ↦ rw somewhere (
      ground (
        arith,
        somewhere,
        f i k,
        points_to-insert c.local_deps q r i k,
        in_reverse-add m r.pointer q i k,
      ))
]

pub get_dependency-cached :
    (ir : Ir) (llvm : Llvm) (c : LocalCache) (q : ℕ) (r : FlowDepResult)
    → PtrMap.lookup q c.local_deps ≡ some r
    → is_dirty r ≡ false
    → get_dependency ir llvm c q ≡ done (c, r)
unfolding get_dependency cached
get_dependency-cached ir llvm c q r at clean = rw (cached-some c q r at, clean) refl

-- The query stands in its block.
abbrev pub InItsBlock : Ir → ℕ → Type 0
InItsBlock ir q = any (λ i. i == q) (ir.insts (ir.block_of q)) ≡ true

start-is_position :
    (ir : Ir) (c : LocalCache) (q : ℕ)
    → InItsBlock ir q
    → ((r : FlowDepResult)
        → PtrMap.lookup q c.local_deps ≡ some r
        → is_dirty r ≡ true
        → is_position r.pointer (ir.insts (ir.block_of q)) ≡ true)
    → is_dirty (cached c q) ≡ true
    → is_position (start_of c q) (ir.insts (ir.block_of q)) ≡ true
unfolding is_position no_result
start-is_position ir c q here home dirty = elim (Bool-cases ((cached c q).pointer == 0)) [
  | inl nowhere ↦ rw nowhere (ground (arith, here))
  | inr somewhere ↦ rw somewhere (elim (Option-cases (PtrMap.lookup q c.local_deps)) [
    | inl absent ↦
        let none_named = ap (λ r. r.pointer) (cached-none c q absent) in
        absurd (ground (arith, somewhere, none_named))
    | inr (r, at) ↦
        let e : cached c q ≡ r = cached-some c q r at in
        rw e (home r at (sym (ap is_dirty e) ∙ dirty))
  ])
]

-- getDependency, for a query that stands in its block, while ReverseLocalDeps is the inverse of
-- LocalDeps and a dirty entry of the query names an instruction of that block, if any: it returns,
-- so that no assertion of RemoveFromReverseMap fails and no scan leaves the block; its answer is not
-- dirty and is the entry of the query; the entries of other queries stay; the maps are inverse to
-- each other again; and the same query once more gives the same answer and changes nothing. This is
-- for instructions with an address other than 0, a size below 2 ^ 32 bits and an alignment below
-- 2 ^ 31.
pub get_dependency_keeps :
    (ir : Ir) (llvm : Llvm) (c : LocalCache) (q : ℕ)
    → IsNextPower llvm.next_power_of_2
    → All (IsSized ir llvm) (ir.insts (ir.block_of q))
    → InItsBlock ir q
    → ((r : FlowDepResult)
        → PtrMap.lookup q c.local_deps ≡ some r
        → is_dirty r ≡ true
        → is_position r.pointer (ir.insts (ir.block_of q)) ≡ true)
    → IsSynced c
    → (c' : LocalCache) × (r : FlowDepResult) × (get_dependency ir llvm c q ≡ done (c', r))
      × (is_dirty r ≡ false)
      × (PtrMap.lookup q c'.local_deps ≡ some r)
      × ((k : ℕ) → q ≢ k → PtrMap.lookup k c'.local_deps ≡ PtrMap.lookup k c.local_deps)
      × IsSynced c'
      × (get_dependency ir llvm c' q ≡ done (c', r))
unfolding get_dependency cached remember
get_dependency_keeps ir llvm c q next sized here home s =
    elim (Bool-cases (is_dirty (cached c q))) [
      | inl dirty ↦
          let (m, from, forgets) = scan_position-lem c q s in
          let inside = start-is_position ir c q here home dirty in
          let (r, returns, clean) = fresh_answer-Clean ir llvm q (start_of c q) next inside sized in
          let c' = remember (record c { reverse_local_deps = m }) q r in
          let kept = PtrMap.lookup-insert_self q r c.local_deps in
          (
            c',
            r,
            rw (dirty, from, returns) refl,
            clean,
            kept,
            λ k other. ground (arith, PtrMap.lookup-insert q k r c.local_deps, other),
            remember-IsSynced c q m r forgets,
            get_dependency-cached ir llvm c' q r kept clean,
          )
      | inr clean ↦
          let at = clean-lookup c q clean in
          (
            c,
            cached c q,
            rw clean refl,
            clean,
            at,
            λ k other. refl,
            s,
            get_dependency-cached ir llvm c q (cached c q) at clean,
          )
    ]
