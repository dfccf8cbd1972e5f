-- ===== src/FlowDependence/Remove.antt =====
-- removeInstruction of src/FlowDependenceAnalysis.cpp.
pub mod Linked
pub mod Keeps
pub mod Renewed
pub mod Values
pub mod Drops
pub mod Forgotten
pub mod Pointers
pub mod Stages
pub mod Whole
pub mod Dirtied
pub mod Dirty
pub mod Maps
pub mod StoreMaps
use dep_taint.Prelude.{
  ℕ, ◌/◌, Bool, true, false, ◌||◌, not, Option, none, some, List, [], ◌∷◌, ◌++◌, map, ◌==◌,
  if◌then◌else◌,
}
use dep_taint.Prelude.Outcome.{Outcome, done, fault, ◌>>=◌}
use dep_taint.Prelude.PtrMap
use dep_taint.Prelude.PtrMap.{PtrMap}
use dep_taint.Prelude.PtrSet.{PtrSet}
use dep_taint.Ir.{Ir}
use dep_taint.FlowDepResult.{FlowDepResult, no_result, get_inst, get_dirty}
use dep_taint.FlowDependence.{Llvm}
use dep_taint.FlowDependence.Cache.{LocalCache, remove_from_reverse_map, add_to_reverse_map}
use dep_taint.FlowDependence.Forget.{
  Entry, PointerInfo, PointerCache, no_pair, value_is_load, remove_cached,
}
use dep_taint.FlowDependence.Order.{sort}
use dep_taint.FlowDependence.Store.{CallInfo, no_call_info, no_pointer_info, CallCache, Store}

-- Each of the instructions, if it is one, forgets the key.
unfoldable pub unlink : ℕ → List ℕ → PtrMap PtrSet → Outcome (PtrMap PtrSet)
unfolding remove_from_reverse_map
unlink key [] m = done m
unlink key (i ∷ is) m =
    if i == 0 then unlink key is m else remove_from_reverse_map m i key >>= unlink key is

unfoldable pub insts_of : List Entry → List ℕ
unfolding get_inst
insts_of [] = []
insts_of (e ∷ es) = get_inst e.1 ∷ insts_of es

-- The first part: the instruction's own answers over several blocks.
unfoldable pub drop_call : ℕ → CallCache → Option CallInfo → Outcome CallCache
unfolding unlink insts_of
drop_call rem c none = done c
drop_call rem c (some info) = unlink rem (insts_of info.entries) c.reverse_non_local_deps >>= λ m.
    done (record { non_local_deps = PtrMap.erase rem c.non_local_deps; reverse_non_local_deps = m })

-- The second part: its own answer within the block.
unfoldable pub drop_local : ℕ → LocalCache → Option FlowDepResult → Outcome LocalCache
unfolding unlink get_inst
drop_local rem c none = done c
drop_local rem c (some r) = unlink rem (get_inst r ∷ []) c.reverse_local_deps >>= λ m.
    done (record { local_deps = PtrMap.erase rem c.local_deps; reverse_local_deps = m })

-- The pairs of an instruction and a key that are to be added to a reverse map.
abbrev pub Adds : Type 0
Adds = List (ℕ × ℕ)

-- The last pair first, as `back` and `pop_back` take them.
unfoldable pub add_back : Adds → PtrMap PtrSet → PtrMap PtrSet
unfolding add_to_reverse_map
add_back [] m = m
add_back (a ∷ adds) m = add_to_reverse_map (add_back adds m) a.0 a.1

-- The loops over the keys that depend on the instruction: an assertion, the new value, the pairs to
-- add. `default` is the value of a missing key.
module _ {V : Type 0} (forbidden : ℕ → Bool) (renew : ℕ → V → V × Adds) (default : V) where
  unfoldable pub renew_all : PtrSet → PtrMap V → Outcome (PtrMap V × Adds)
  unfolding PtrMap.get_or
  renew_all [] m = done (m, [])
  renew_all (k ∷ ks) m =
      let next = renew k (PtrMap.get_or k default m) in
      let rest = renew_all ks (PtrMap.insert k next.0 m) in
      if forbidden k then fault else rest >>= λ r. done (r.0, next.1 ++ r.1)

  -- The loop, the end of the instruction's entry in the reverse map, and the pairs.
  unfoldable pub renew_dependents :
      ℕ → PtrMap V → PtrMap PtrSet → Option PtrSet → Outcome (PtrMap V × PtrMap PtrSet)
  unfolding renew_all add_back
  renew_dependents rem m reverse none = done (m, reverse)
  renew_dependents rem m reverse (some ks) =
      renew_all ks m >>= λ r. done (r.0, add_back r.1 (PtrMap.erase rem reverse))

-- `LocalDeps[InstDependingOnRemInst] = NewDirtyVal`
unfoldable pub renew_local : FlowDepResult → ℕ → FlowDepResult → FlowDepResult × Adds
unfolding get_inst
renew_local new k r = (new, (get_inst new, k) ∷ [])

-- The loop over the entries of a key.
unfoldable pub renew_entries : ℕ → FlowDepResult → ℕ → List Entry → List Entry × Adds
unfolding get_inst
renew_entries rem new k [] = ([], [])
renew_entries rem new k (e ∷ es) =
    let rest = renew_entries rem new k es in
    if not (get_inst e.1 == rem)
    then (e ∷ rest.0, rest.1)
    else ((e.0, new) ∷ rest.0, if get_inst new == 0 then rest.1 else (get_inst new, k) ∷ rest.1)

unfoldable pub renew_call : ℕ → FlowDepResult → ℕ → CallInfo → CallInfo × Adds
unfolding renew_entries
renew_call rem new k info =
    let r = renew_entries rem new k info.entries in (record { entries = r.0; dirty = true }, r.1)

unfoldable pub renew_pointer : ℕ → FlowDepResult → ℕ → PointerInfo → PointerInfo × Adds
unfolding renew_entries sort
renew_pointer rem new k info =
    let r = renew_entries rem new k info.non_local_deps in
    (record info { pair = no_pair; non_local_deps = sort r.0 }, r.1)

unfoldable pub is_empty_set : PtrSet → Bool
is_empty_set [] = true
is_empty_set (_ ∷ _) = false

-- getPointer of a ValueIsLoadPair.
unfoldable pub key_pointer : ℕ → ℕ
key_pointer key = key / 2

-- `++BasicBlock::iterator(RemInst)`, if it is not the end.
unfoldable pub after : ℕ → List ℕ → Option ℕ
after i [] = none
after i (j ∷ []) = none
after i (j ∷ k ∷ is) = if j == i then some k else after i (k ∷ is)

-- The third part: the answers for the instruction as a pointer.
unfoldable pub drop_pointer : Ir → ℕ → PointerCache → Outcome PointerCache
unfolding remove_cached value_is_load
drop_pointer ir rem c =
    if ir.is_pointer_type rem
    then (remove_cached ir c (value_is_load rem false) >>= λ d.
        remove_cached ir d (value_is_load rem true))
    else done c

unfoldable pub not_in_calls : ℕ → CallCache → Outcome CallCache
unfolding PtrMap.lookup
not_in_calls rem c = elim (PtrMap.lookup rem c.non_local_deps) [ none ↦ done c | some _ ↦ fault ]

module _ (ir : Ir) (llvm : Llvm) where
  -- NewDirtyVal; the conversion of the end of the block to an instruction is undefined.
  unfoldable pub new_dirty_val : ℕ → Outcome FlowDepResult
  unfolding after get_dirty no_result
  new_dirty_val rem =
      if llvm.is_terminator rem
      then done no_result
      else elim (after rem (ir.insts (ir.block_of rem))) [
        | none ↦ fault
        | some i ↦ done (get_dirty i)
      ]

  -- The answers within the block; the assertions on the set stand before the loop.
  unfoldable pub renew_locals : ℕ → FlowDepResult → LocalCache → Option PtrSet → Outcome LocalCache
  unfolding renew_dependents renew_local is_empty_set get_inst
  renew_locals rem new c none = done c
  renew_locals rem new c (some ks) =
      if is_empty_set ks || llvm.is_terminator rem
      then fault
      else renew_dependents (λ k. k == rem || get_inst new == 0) (renew_local new) no_result rem
          c.local_deps c.reverse_local_deps (some ks)
        >>= λ r. done (record { local_deps = r.0; reverse_local_deps = r.1 })

  unfoldable pub renew_calls : ℕ → FlowDepResult → CallCache → Outcome CallCache
  unfolding renew_dependents renew_call PtrMap.lookup
  renew_calls rem new c =
      renew_dependents (λ k. k == rem) (renew_call rem new) no_call_info rem c.non_local_deps
        c.reverse_non_local_deps (PtrMap.lookup rem c.reverse_non_local_deps)
      >>= λ r. done (record { non_local_deps = r.0; reverse_non_local_deps = r.1 })

  unfoldable pub renew_pointers : ℕ → FlowDepResult → PointerCache → Outcome PointerCache
  unfolding renew_dependents renew_pointer key_pointer PtrMap.lookup
  renew_pointers rem new c =
      renew_dependents (λ k. key_pointer k == rem) (renew_pointer rem new)
        (no_pointer_info llvm.unknown_size) rem c.non_local_pointer_deps
        c.reverse_non_local_ptr_deps (PtrMap.lookup rem c.reverse_non_local_ptr_deps)
      >>= λ r. done (record { non_local_pointer_deps = r.0; reverse_non_local_ptr_deps = r.1 })

  -- removeInstruction
  unfoldable pub remove_instruction : Store → ℕ → Outcome Store
  unfolding PtrMap.lookup drop_call drop_local drop_pointer new_dirty_val renew_locals renew_calls
      renew_pointers not_in_calls
  remove_instruction s rem = do
    calls ← drop_call rem s.calls (PtrMap.lookup rem s.calls.non_local_deps)
    local ← drop_local rem s.local (PtrMap.lookup rem s.local.local_deps)
    pointers ← drop_pointer ir rem s.pointers
    new ← new_dirty_val rem
    local' ← renew_locals rem new local (PtrMap.lookup rem local.reverse_local_deps)
    calls' ← renew_calls rem new calls
    pointers' ← renew_pointers rem new pointers
    checked ← not_in_calls rem calls'
    done (record { local = local'; calls = checked; pointers = pointers' })
