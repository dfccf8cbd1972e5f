-- ===== src/FlowDependence/Remove/Dirtied.antt =====
-- The answers of removeInstruction that are to be looked for again.
use dep_taint.Prelude.{
  ℕ, ◌≡◌, refl, ap, inl, inr, true, false, List, [], ◌∷◌, map, ◌==◌, if◌then◌else◌, Bool-cases,
}
use dep_taint.FlowDepResult.{FlowDepResult, DepType, get_inst}
use dep_taint.FlowDependence.Forget.{Entry, PointerInfo}
use dep_taint.FlowDependence.Order.{sort}
use dep_taint.FlowDependence.Store.{CallInfo}
use dep_taint.FlowDependence.Remove.{renew_entries, renew_local, renew_call, renew_pointer}

-- A dirty answer: where the search for a new one starts.
abbrev pub dirty_from : ℕ → FlowDepResult
dirty_from n = record { pointer = n; tag = DepType.invalid }

module _ (rem : ℕ) (n : ℕ) where
  -- The entries of a key, with the answers dirty that named the instruction.
  abbrev pub dirtied : List Entry → List Entry
  dirtied es = map (λ e. if e.1.pointer == rem then (e.0, dirty_from n) else e) es

  renew_entries-dirtied :
      (k : ℕ) (es : List Entry) → (renew_entries rem (dirty_from n) k es).0 ≡ dirtied es
  unfolding renew_entries get_inst
  renew_entries-dirtied k [] = refl
  renew_entries-dirtied k (e ∷ es) = elim (Bool-cases (e.1.pointer == rem)) [
    | inl hit ↦ rw hit (ap (λ l. (e.0, dirty_from n) ∷ l) (renew_entries-dirtied k es))
    | inr miss ↦ rw miss (ap (λ l. e ∷ l) (renew_entries-dirtied k es))
  ]

  abbrev pub dirty_call : CallInfo → CallInfo
  dirty_call v = record { entries = dirtied v.entries; dirty = true }

  -- In order again, and not to be taken for the complete answer of any block.
  abbrev pub dirty_pointer : PointerInfo → PointerInfo
  dirty_pointer v = record v { pair = (0, false); non_local_deps = sort (dirtied v.non_local_deps) }

  pub call-same : (q : ℕ) (v : CallInfo) → (renew_call rem (dirty_from n) q v).0 ≡ dirty_call v
  unfolding renew_call
  call-same q v =
      ap (λ es. record { entries = es; dirty = true }) (renew_entries-dirtied q v.entries)

  pub pointer-same :
      (q : ℕ) (v : PointerInfo) → (renew_pointer rem (dirty_from n) q v).0 ≡ dirty_pointer v
  unfolding renew_pointer
  pointer-same q v =
      ap (λ es. record v { pair = (0, false); non_local_deps = sort es })
        (renew_entries-dirtied q v.non_local_deps)

pub local-is : (q : ℕ) (r new : FlowDepResult) → (renew_local new q r).0 ≡ new
unfolding renew_local
local-is q r new = refl
