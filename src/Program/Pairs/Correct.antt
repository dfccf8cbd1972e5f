-- ===== src/Program/Pairs/Correct.antt =====
-- Which edges the inner loop of runOnModule adds to the program dependency graph.
use mathlib.Core.List.{Memᴰ}
use mathlib.Core.List.Memᴰ
use dep_taint.Prelude.{
  ℕ, ◌≡◌, ◌≢◌, refl, ◌⊎◌, inl, inr, ◌↔◌, true, ◌&&◌, not, some, List, [], ◌∷◌, arith, All, ◌==◌,
  if◌then◌else◌, Bool-cases,
}
use dep_taint.Prelude.Outcome.{done}
use dep_taint.Prelude.PtrMap
use dep_taint.Ir.{Ir, is_load}
use dep_taint.Graph.{Graph, add_dependency, depends}
use dep_taint.Graph.Valid.{IsValid}
use dep_taint.Program.Adds.{Adds, Single, IsPresent, Adds-none, Adds-if, Adds-then}
use dep_taint.Wrapper.{Wrapper, Statics, is_inst, is_entry, deref}
use dep_taint.Program.Pairs.{
  link_globals, data_type, link_data, link_control, link_entry, link_pair, link_all,
}

module _ (ir : Ir) (s : Statics) where
  -- `x` is a global variable of the list, from which the load `v` at `q` reads.
  abbrev pub FromGlobal : List ℕ → ℕ → Wrapper → ℕ → ℕ → ℕ → Type 0
  FromGlobal globals q v x y t =
      (y ≡ q)
      × (t ≡ 9)
      × Memᴰ x globals
      × (u : Wrapper) × (PtrMap.lookup x s.heap ≡ some u)
      × ((ir.pointer_operand v.instruction == u.value) ≡ true)

  -- The data dependency graph has the pair.
  abbrev pub FromData : Graph → ℕ → Wrapper → ℕ → Wrapper → ℕ → ℕ → ℕ → Type 0
  FromData ddg p w q v x y t =
      (x ≡ p)
      × (y ≡ q)
      × (t ≡ data_type ir w v)
      × (is_inst w.type ≡ true)
      × (depends ddg p q ≡ true)

  -- The control dependency graph has the pair, and the second node is an instruction.
  abbrev pub FromControl : Graph → ℕ → Wrapper → ℕ → Wrapper → ℕ → ℕ → ℕ → Type 0
  FromControl cdg p w q v x y t =
      (x ≡ p)
      × (y ≡ q)
      × (t ≡ 1)
      × ((is_inst w.type ≡ true) ⊎ (is_entry w.type ≡ true))
      × (v.instruction ≢ 0)
      × (depends cdg p q ≡ true)

  global_cases :
      (q : ℕ) (qs : List ℕ) (p : ℕ) (v w : Wrapper) (x y t : ℕ)
      → PtrMap.lookup q s.heap ≡ some w
      → FromGlobal (q ∷ qs) p v x y t ↔ (
          (x ≡ q) × (y ≡ p) × (t ≡ 9) × ((ir.pointer_operand v.instruction == w.value) ≡ true)
          ⊎ FromGlobal qs p v x y t)
  global_cases q qs p v w x y t at = (
    λ (hy, ht, m, u, here, reads). elim (Memᴰ.cases_cons m) [
      | inl e ↦ let same : u ≡ w = ground (arith, here, at, e) in inl (e, hy, ht, rw same at reads)
      | inr rest ↦ inr (hy, ht, rest, u, here, reads)
    ],
    λ e. elim e [
      | inl (hx, hy, ht, reads) ↦ (hy, ht, Memᴰ.head hx, w, rw hx at, reads)
      | inr (hy, ht, rest, u, here, reads) ↦ (hy, ht, Memᴰ.tail rest, u, here, reads)
    ],
  )

  link_globals_lem :
      (g : Graph) (v : Wrapper) (p : ℕ) (qs : List ℕ)
      → IsValid g
      → All (IsPresent s) qs
      → Adds g (FromGlobal qs p v) (link_globals ir s g v p qs)
  unfolding link_globals deref
  link_globals_lem g v p [] ok h = Adds-none g _ ok (λ x y t n. Memᴰ.not-nil n.2)
  link_globals_lem g v p (q ∷ qs) ok ((w, at), rest) =
      rw (at, deref)
        (let c = ir.pointer_operand v.instruction == w.value in
          Adds-then g (λ x y t. (x ≡ q) × (y ≡ p) × (t ≡ 9) × (c ≡ true)) (FromGlobal qs p v) _
            (done (if c then add_dependency g q p 9 else g)) (λ h. link_globals ir s h v p qs)
            (λ x y t. global_cases q qs p v w x y t at) (Adds-if g c q p 9 ok)
            (λ h fine. link_globals_lem h v p qs fine rest))

  module _ (ddg : Graph) (cdg : Graph) where
    -- What the code draws from the node `w` at `p` to the node `v` at `q`.
    abbrev pub FromPair : ℕ → Wrapper → ℕ → Wrapper → ℕ → ℕ → ℕ → Type 0
    FromPair p w q v x y t =
        (is_inst v.type ≡ true)
          × (is_load (ir.opcode v.instruction) ≡ true)
          × FromGlobal s.global_list q v x y t
        ⊎ FromData ddg p w q v x y t
        ⊎ FromControl cdg p w q v x y t

    globals_lem :
        (g : Graph) (q : ℕ) (v : Wrapper)
        → IsValid g
        → All (IsPresent s) s.global_list
        → Adds g
            (λ x y t.
              (is_inst v.type ≡ true)
              × (is_load (ir.opcode v.instruction) ≡ true)
              × FromGlobal s.global_list q v x y t)
            (if is_inst v.type && is_load (ir.opcode v.instruction)
              then link_globals ir s g v q s.global_list
              else done g)
    globals_lem g q v ok h =
        elim (Bool-cases (is_inst v.type && is_load (ir.opcode v.instruction))) [
          | inl load ↦ rw load (
              let r = link_globals_lem g v q s.global_list ok h in
              record {
                result = r.result;
                ran = r.ran;
                valid = r.valid;
                exact = λ x y t. ground (arith, load, r.exact x y t);
              })
          | inr other ↦ rw other (Adds-none g _ ok (λ x y t n. ground (arith, other, n.0, n.1)))
        ]

    pair_cases :
        (p : ℕ) (w : Wrapper) (q : ℕ) (v : Wrapper) (x y t : ℕ)
        → (Single p q (data_type ir w v) (is_inst w.type && depends ddg p q) x y t
            ⊎ Single p q 1 (is_inst w.type && not (v.instruction == 0) && depends cdg p q) x y t
            ⊎ Single p q 1 (is_entry w.type && not (v.instruction == 0) && depends cdg p q) x y t)
          ↔ (FromData ddg p w q v x y t ⊎ FromControl cdg p w q v x y t)
    pair_cases p w q v x y t = ground arith

    link_pair_lem :
        (g : Graph) (p : ℕ) (w : Wrapper) (q : ℕ) (v : Wrapper)
        → IsValid g
        → All (IsPresent s) s.global_list
        → Adds g (FromPair p w q v) (link_pair ir ddg cdg s g p w q v)
    unfolding link_pair link_data link_control link_entry
    link_pair_lem g p w q v ok h =
        let c0 = is_inst w.type && depends ddg p q in
        let c1 = is_inst w.type && not (v.instruction == 0) && depends cdg p q in
        let c2 = is_entry w.type && not (v.instruction == 0) && depends cdg p q in
        Adds-then g _ (λ x y t. FromData ddg p w q v x y t ⊎ FromControl cdg p w q v x y t) _ _
          (λ h. done (
            link_entry ir ddg cdg (link_control ir ddg cdg (link_data ir ddg cdg h p w q v) p w q v)
              p w q v))
          (λ x y t. (λ e. e, λ e. e)) (globals_lem g q v ok h)
          (λ k fine.
            Adds-then k (Single p q (data_type ir w v) c0)
              (λ x y t. Single p q 1 c1 x y t ⊎ Single p q 1 c2 x y t) _
              (done (link_data ir ddg cdg k p w q v))
              (λ l. done (link_entry ir ddg cdg (link_control ir ddg cdg l p w q v) p w q v))
              (λ x y t. ((pair_cases p w q v x y t).1, (pair_cases p w q v x y t).0))
              (Adds-if k c0 p q (data_type ir w v) fine)
              (λ l good.
                Adds-then l (Single p q 1 c1) (Single p q 1 c2) _
                  (done (link_control ir ddg cdg l p w q v))
                  (λ n. done (link_entry ir ddg cdg n p w q v)) (λ x y t. (λ e. e, λ e. e))
                  (Adds-if l c1 p q 1 good) (λ n last. Adds-if n c2 p q 1 last)))

    -- What the code draws from `w` to the nodes of a list.
    pub record FromRow (p : ℕ) (w : Wrapper) (qs : List ℕ) (x y t : ℕ) : Type 0 where
      pub to : ℕ
      pub wrapper : Wrapper
      pub listed : Memᴰ to qs
      pub stored : PtrMap.lookup to s.heap ≡ some wrapper
      pub drawn : FromPair p w to wrapper x y t

    row_cases :
        (p : ℕ) (w : Wrapper) (q : ℕ) (v : Wrapper) (qs : List ℕ) (x y t : ℕ)
        → PtrMap.lookup q s.heap ≡ some v
        → FromRow p w (q ∷ qs) x y t ↔ (FromPair p w q v x y t ⊎ FromRow p w qs x y t)
    row_cases p w q v qs x y t at = (
      λ r. elim (Memᴰ.cases_cons r.listed) [
        | inl e ↦
            let same : r.wrapper ≡ v = ground (arith, r.stored, at, e) in
            inl (rw (← e, ← same) r.drawn)
        | inr rest ↦ inr (record {
          to = r.to;
          wrapper = r.wrapper;
          listed = rest;
          stored = r.stored;
          drawn = r.drawn;
        })
      ],
      λ e. elim e [
        | inl now ↦ record {
          to = q;
          wrapper = v;
          listed = Memᴰ.head refl;
          stored = at;
          drawn = now;
        }
        | inr r ↦ record {
          to = r.to;
          wrapper = r.wrapper;
          listed = Memᴰ.tail r.listed;
          stored = r.stored;
          drawn = r.drawn;
        }
      ],
    )

    -- If the nodes and the global variables have wrappers, the inner loop returns, and adds to a
    -- valid graph exactly these edges from the node `w`: of type GLOBAL_VALUE from a global variable
    -- to a load that reads it, of DATA_RAW or DATA_DEF_USE where the data dependency graph has the
    -- pair, and of CONTROL where the control dependency graph has it and its second node is an
    -- instruction.
    pub link_all_edges :
        (g : Graph) (p : ℕ) (w : Wrapper) (qs : List ℕ)
        → IsValid g
        → All (IsPresent s) s.global_list
        → All (IsPresent s) qs
        → Adds g (FromRow p w qs) (link_all ir ddg cdg s g p w qs)
    unfolding link_all deref
    link_all_edges g p w [] ok globals h = Adds-none g _ ok (λ x y t r. Memᴰ.not-nil r.listed)
    link_all_edges g p w (q ∷ qs) ok globals ((v, at), rest) =
        rw (at, deref)
          (Adds-then g (FromPair p w q v) (FromRow p w qs) _ (link_pair ir ddg cdg s g p w q v)
            (λ h. link_all ir ddg cdg s h p w qs) (λ x y t. row_cases p w q v qs x y t at)
            (link_pair_lem g p w q v ok globals)
            (λ h fine. link_all_edges h p w qs fine globals rest))
