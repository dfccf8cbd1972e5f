-- ===== src/Program/Connect/Correct.antt =====
-- Which edges connectCallerAndCallee adds to the program dependency graph.
use mathlib.Core.List.{Memᴰ}
use mathlib.Core.List.Memᴰ
use dep_taint.Prelude.{
  ℕ, ◌≡◌, ◌≢◌, refl, ◌⊎◌, inl, inr, ◌↔◌, true, false, ◌&&◌, ◌||◌, not, some, List, [], ◌∷◌, arith,
  All, ◌==◌, if◌then◌else◌,
}
use dep_taint.Prelude.Outcome.{done}
use dep_taint.Prelude.PtrMap
use dep_taint.Ir.{Ir}
use dep_taint.Graph.{Graph, add_dependency}
use dep_taint.Graph.Valid.{IsValid}
use dep_taint.Wrapper.{Wrapper, Statics, deref}
use dep_taint.Function.{FunctionWrapper, FuncMap}
use dep_taint.Program.Adds.{Adds, Single, IsPresent, Adds-none, Adds-if, Adds-then}
use dep_taint.Program.Connect.{connect_return, connect_returns, connect_caller_and_callee}

module _ (ir : Ir) (s : Statics) where
  -- The node `x` wraps the return instruction `ret`, which returns a value to the call `y`.
  pub record Returns (call ret : ℕ) (nodes : List ℕ) (x y t : ℕ) : Type 0 where
    pub listed : Memᴰ x nodes
    pub wrapper : Wrapper
    pub stored : PtrMap.lookup x s.heap ≡ some wrapper
    pub wraps : wrapper.instruction ≡ ret
    pub has_value : ir.return_value ret ≢ 0
    pub to_call : y ≡ call
    pub general : t ≡ 2

  -- For one of the return instructions.
  abbrev pub ReturnsSome : ℕ → List ℕ → ℕ → ℕ → ℕ → Type 0
  ReturnsSome call rets x y t = (ret : ℕ) × Memᴰ ret rets × Returns call ret s.nodes x y t

  return_cases :
      (call ret p : ℕ) (w : Wrapper) (ps : List ℕ) (x y t : ℕ)
      → PtrMap.lookup p s.heap ≡ some w
      → Returns call ret (p ∷ ps) x y t ↔ (
          Single p call 2 (w.instruction == ret && not (ir.return_value ret == 0)) x y t
          ⊎ Returns call ret ps x y t)
  return_cases call ret p w ps x y t at = (
    λ r. elim (Memᴰ.cases_cons r.listed) [
      | inl e ↦
          let same : r.wrapper ≡ w = ground (arith, r.stored, at, e) in
          let wraps : w.instruction ≡ ret = rw same at r.wraps in
          inl (e, r.to_call, r.general, ground (arith, wraps, r.has_value))
      | inr rest ↦ inr (record {
        listed = rest;
        wrapper = r.wrapper;
        stored = r.stored;
        wraps = r.wraps;
        has_value = r.has_value;
        to_call = r.to_call;
        general = r.general;
      })
    ],
    λ e. elim e [
      | inl (hx, hy, ht, h) ↦ record {
        listed = Memᴰ.head hx;
        wrapper = w;
        stored = rw hx at;
        wraps = ground (arith, h);
        has_value = ground (arith, h);
        to_call = hy;
        general = ht;
      }
      | inr r ↦ record {
        listed = Memᴰ.tail r.listed;
        wrapper = r.wrapper;
        stored = r.stored;
        wraps = r.wraps;
        has_value = r.has_value;
        to_call = r.to_call;
        general = r.general;
      }
    ],
  )

  connect_return_lem :
      (g : Graph) (call ret : ℕ) (ps : List ℕ)
      → IsValid g
      → All (IsPresent s) ps
      → Adds g (Returns call ret ps) (connect_return ir s g call ret ps)
  unfolding connect_return deref
  connect_return_lem g call ret [] ok h = Adds-none g _ ok (λ x y t r. Memᴰ.not-nil r.listed)
  connect_return_lem g call ret (p ∷ ps) ok ((w, at), rest) =
      let c = w.instruction == ret && not (ir.return_value ret == 0) in
      rw (at, deref)
        (Adds-then g (Single p call 2 c) (Returns call ret ps) _
          (done (if c then add_dependency g p call 2 else g))
          (λ h. connect_return ir s h call ret ps) (λ x y t. return_cases call ret p w ps x y t at)
          (Adds-if g c p call 2 ok) (λ h fine. connect_return_lem h call ret ps fine rest))

  Returns-cases :
      (call r : ℕ) (rs : List ℕ) (x y t : ℕ)
      → ReturnsSome call (r ∷ rs) x y t ↔ (Returns call r s.nodes x y t ⊎ ReturnsSome call rs x y t)
  Returns-cases call r rs x y t = (
    λ (q, m, h). elim (Memᴰ.cases_cons m) [
      | inl e ↦ inl (rw (← e) h)
      | inr rest ↦ inr (q, rest, h)
    ],
    λ e. elim e [ inl h ↦ (r, Memᴰ.head refl, h) | inr (q, m, h) ↦ (q, Memᴰ.tail m, h) ],
  )

  connect_returns_lem :
      (g : Graph) (call : ℕ) (rs : List ℕ)
      → IsValid g
      → All (IsPresent s) s.nodes
      → Adds g (ReturnsSome call rs) (connect_returns ir s g call rs)
  unfolding connect_returns
  connect_returns_lem g call [] ok h = Adds-none g _ ok (λ x y t n. Memᴰ.not-nil n.1)
  connect_returns_lem g call (r ∷ rs) ok h =
      Adds-then g (Returns call r s.nodes) (ReturnsSome call rs) _
        (connect_return ir s g call r s.nodes) (λ k. connect_returns ir s k call rs)
        (Returns-cases call r rs) (connect_return_lem g call r s.nodes ok h)
        (λ k fine. connect_returns_lem k call rs fine h)

  -- For a callee whose entry node is set, connectCallerAndCallee returns 0 and adds to a valid graph
  -- exactly the edge of type DATA_GENERAL from the call to the entry node, and one of that type from
  -- every node of a return instruction of the callee that returns a value to the call, provided
  -- every node has a wrapper.
  pub connect_caller_and_callee_edges :
      (m : FuncMap) (g : Graph) (call callee entry : ℕ) (fw : FunctionWrapper)
      → IsValid g
      → All (IsPresent s) s.nodes
      → call ≢ 0
      → callee ≢ 0
      → PtrMap.lookup callee m ≡ some fw
      → fw.entry ≡ some entry
      → (h : Graph) × (connect_caller_and_callee ir s m g call callee ≡ done (h, 0))
        × Adds g
            (λ x y t. (x ≡ call) × (y ≡ entry) × (t ≡ 2) ⊎ ReturnsSome call fw.return_insts x y t)
            (done h)
  unfolding connect_caller_and_callee
  connect_caller_and_callee_edges m g call callee entry fw ok nodes hc hf known at =
      let rets = fw.return_insts in
      let r =
        Adds-then g (Single call entry 2 true) (ReturnsSome call rets)
          (λ x y t. (x ≡ call) × (y ≡ entry) × (t ≡ 2) ⊎ ReturnsSome call rets x y t)
          (done (add_dependency g call entry 2)) (λ k. connect_returns ir s k call rets)
          (λ x y t. (
            λ e. elim e [ inl (a, b, c) ↦ inl (a, b, c, refl) | inr n ↦ inr n ],
            λ e. elim e [ inl (a, b, c, _) ↦ inl (a, b, c) | inr n ↦ inr n ],
          ))
          (Adds-if g true call entry 2 ok) (λ k fine. connect_returns_lem k call rets fine nodes) in
      let present : (call == 0 || callee == 0) ≡ false = ground (arith, hc, hf) in
      (
        r.result,
        rw (present, known, at, r.ran, connect_caller_and_callee) refl,
        record { result = r.result; ran = refl; valid = r.valid; exact = r.exact },
      )
