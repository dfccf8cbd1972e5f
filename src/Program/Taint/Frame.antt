-- ===== src/Program/Taint/Frame.antt =====
-- What the steps for one adjacent node leave alone.
use dep_taint.Prelude.{ℕ, ◌≡◌, refl, ◌∙◌, arith, if◌then◌else◌, Bool-cases, inl, inr}
use dep_taint.Prelude.Outcome.{Outcome, done, ◌>>=◌, Yields, Yields-bind, Yields-weaken}
use dep_taint.Prelude.PtrSet.{PtrSet}
use dep_taint.Ir.{Ir, is_load, is_store, is_branch}
use dep_taint.Wrapper.{Wrapper}
use dep_taint.Program.Taint.{
  Names, TaintState, alloca_map_of, reach_branch, reach_store, reach_load, reach_other,
  reach_memory, inherit, enqueue, reach_new, visit_function, color, put_alloca,
}

-- The flags, the graph and the queue are those of `st`.
pub record IsSame (st next : TaintState) : Type 0 where
  pub heap : next.heap ≡ st.heap
  pub graph : next.graph ≡ st.graph
  pub queue : next.queue ≡ st.queue

abbrev pub Keeps : TaintState → Outcome TaintState → Type 0
Keeps st m = Yields (IsSame st) m

pub done-Keeps : (st : TaintState) → Keeps st (done st)
unfolding Yields
done-Keeps st = record { heap = refl; graph = refl; queue = refl }

pub IsSame-trans : (a b c : TaintState) → IsSame a b → IsSame b c → IsSame a c
IsSame-trans a b c h k = record {
  heap = k.heap ∙ h.heap;
  graph = k.graph ∙ h.graph;
  queue = k.queue ∙ h.queue;
}

module _ (ir : Ir) where
  reach_branch-Keeps : (st : TaintState) (i : ℕ) → Keeps st (reach_branch ir st i)
  unfolding Yields reach_branch alloca_map_of
  reach_branch-Keeps st i = ground arith

  reach_store-Keeps : (st : TaintState) (from i : ℕ) → Keeps st (reach_store ir st from i)
  unfolding Yields reach_store alloca_map_of put_alloca
  reach_store-Keeps st from i = ground arith

  reach_load-Keeps : (st : TaintState) (source i : ℕ) → Keeps st (reach_load ir st source i)
  unfolding Yields reach_load alloca_map_of put_alloca
  reach_load-Keeps st source i = ground arith

  reach_other-Keeps : (st : TaintState) (i : ℕ) → Keeps st (reach_other ir st i)
  unfolding Yields reach_other
  reach_other-Keeps st i = ground arith

  reach_memory-Keeps :
      (st : TaintState) (from source i : ℕ) → Keeps st (reach_memory ir st from source i)
  unfolding reach_memory
  reach_memory-Keeps st from source i = elim (Bool-cases (is_store (ir.opcode i))) [
    | inl store ↦ rw store (reach_store-Keeps st from i)
    | inr other ↦ rw other (elim (Bool-cases (is_load (ir.opcode i))) [
      | inl load ↦ rw load (reach_load-Keeps st source i)
      | inr neither ↦ rw neither (reach_other-Keeps st i)
    ])
  ]

  inherit-Keeps :
      (st : TaintState) (names : Names) (from source to i : ℕ)
      → Keeps st (inherit ir st names from source to i)
  unfolding Yields inherit
  inherit-Keeps st names from source to i = ground arith

  pub visit_function-Keeps :
      (nodes : PtrSet) (st : TaintState) (w : Wrapper) → Keeps st (visit_function ir nodes st w)
  unfolding Yields visit_function
  visit_function-Keeps nodes st w = ground arith

  pub color-IsSame :
      (nodes : PtrSet) (st : TaintState) (p : ℕ) (w : Wrapper) → IsSame st (color ir nodes st p w)
  unfolding color
  color-IsSame nodes st p w = ground arith

  branch-Keeps :
      (st : TaintState) (i : ℕ)
      → Keeps st (if is_branch (ir.opcode i) then reach_branch ir st i else done st)
  branch-Keeps st i = elim (Bool-cases (is_branch (ir.opcode i))) [
    | inl branch ↦ rw branch (reach_branch-Keeps st i)
    | inr other ↦ rw other (done-Keeps st)
  ]

  Keeps-bind :
      (st : TaintState) (m : Outcome TaintState) (k : TaintState → Outcome TaintState)
      → Keeps st m
      → ((next : TaintState) → Keeps next (k next))
      → Keeps st (m >>= k)
  Keeps-bind st m k h g = Yields-bind (IsSame st) (IsSame st) m k h (λ a same.
      Yields-weaken (IsSame a) (IsSame st) (k a) (g a) (λ b later. IsSame-trans st a b same later))

  -- A node that is reached for the first time gets its flag and goes to the end of the queue, and
  -- nothing else happens to flags, graph and queue.
  pub reach_new-Keeps :
      (st : TaintState) (names : Names) (from source to : ℕ) (w : Wrapper)
      → Keeps (enqueue ir st to w) (reach_new ir st names from source to w)
  unfolding reach_new
  reach_new-Keeps st names from source to w =
      let e = enqueue ir st to w in
      let i = w.instruction in
      Keeps-bind e (inherit ir e names from source to i) _ (inherit-Keeps e names from source to i)
        (λ a.
          Keeps-bind a (if is_branch (ir.opcode i) then reach_branch ir a i else done a)
            (λ b. reach_memory ir b from source i) (branch-Keeps a i)
            (λ b. reach_memory-Keeps b from source i))
