-- ===== src/Program/Build/Nodes.antt =====
-- The edges of the program dependency graph after the iteration over the nodes of a function.
use dep_taint.Prelude.{
  ℕ, ◌≡◌, ◌≢◌, refl, ap, ◌∙◌, ◌⊎◌, inl, inr, ◌↔◌, true, false, some, List, arith, All,
}
use dep_taint.Prelude.Outcome.{Outcome, done}
use dep_taint.Prelude.PtrMap
use dep_taint.Ir.{Ir, Calls}
use dep_taint.Graph.{Graph}
use dep_taint.Graph.Valid.{IsValid}
use dep_taint.Graph.Edges.{has_edge}
use dep_taint.Wrapper.{Wrapper, Statics, deref}
use dep_taint.Function.{FuncMap}
use dep_taint.Program.Adds.{IsPresent}
use dep_taint.Program.Connect.{is_new_call, visit_call}
use dep_taint.Program.Connect.Correct.{ReturnsSome}
use dep_taint.Program.Pairs.Correct.{FromRow, link_all_edges}
use dep_taint.Program.Build.{BuildState, visit_node, call_state, after_call}
use dep_taint.Program.Build.Alike.{IsAlike, IsAlike-refl}
use dep_taint.Program.Build.Drawn.{is_skipped, is_connected, HasEntry, Drawn}

-- A run of the iteration: the edges that it adds, and what it leaves as it is.
pub record Visits (st : BuildState) (new : ℕ → ℕ → ℕ → Type 0) (m : Outcome BuildState)
    : Type 0 where
  pub result : BuildState
  pub ran : m ≡ done result
  pub valid : IsValid result.pdg
  pub exact :
      (x y t : ℕ)
      → (has_edge result.pdg x y t ≡ true) ↔ ((has_edge st.pdg x y t ≡ true) ⊎ new x y t)
  pub same_ddg : result.ddg ≡ st.ddg
  pub same_cdg : result.cdg ≡ st.cdg
  pub same_func_map : result.func_map ≡ st.func_map
  pub forth : IsAlike st.statics result.statics
  pub back : IsAlike result.statics st.statics

module _ (ir : Ir) (calls : Calls) where
  -- What the handling of the node `p` needs.
  abbrev pub IsReady : Statics → FuncMap → ℕ → Type 0
  IsReady s m p =
      (p ≢ 0)
      × (w : Wrapper) × (PtrMap.lookup p s.heap ≡ some w)
      × (is_connected ir calls w ≡ true → HasEntry ir calls m (calls.called w.instruction))

  abbrev pub NodeVisit : BuildState → List ℕ → ℕ → Type 0
  NodeVisit st all p =
      (v : Visits st (Drawn ir calls st.statics st.ddg st.cdg st.func_map all p)
        (visit_node ir calls st all p))
      × ((k : ℕ) → p ≢ k → PtrMap.lookup k v.result.statics.heap ≡ PtrMap.lookup k st.statics.heap)

  module _ (s : Statics) (ddg cdg : Graph) (m : FuncMap) (all : List ℕ) (p : ℕ) (w : Wrapper)
      (at : PtrMap.lookup p s.heap ≡ some w) where
    the_wrapper : (v : Wrapper) → PtrMap.lookup p s.heap ≡ some v → v ≡ w
    the_wrapper v h = ground (arith, h, at)

    pub Drawn-none :
        (x y t : ℕ) → is_skipped ir calls w ≡ true → ¬ Drawn ir calls s ddg cdg m all p x y t
    Drawn-none x y t skip (v, h, inl (drawn, row)) =
        let drawn' : is_skipped ir calls w ≡ false = rw (the_wrapper v h) at drawn in cc
    Drawn-none x y t skip (v, h, inr (call, e, edge)) =
        let call' : is_connected ir calls w ≡ true = rw (the_wrapper v h) at call in
        absurd (ground (arith, skip, call'))

    row_of :
        (x y t : ℕ)
        → is_connected ir calls w ≡ false
        → Drawn ir calls s ddg cdg m all p x y t
        → FromRow ir s ddg cdg p w all x y t
    row_of x y t plain (v, h, inl (_, row)) = rw (the_wrapper v h) at row
    row_of x y t plain (v, h, inr (call, e, edge)) =
        let call' : is_connected ir calls w ≡ true = rw (the_wrapper v h) at call in cc

    Drawn-row :
        (x y t : ℕ)
        → is_skipped ir calls w ≡ false
        → is_connected ir calls w ≡ false
        → Drawn ir calls s ddg cdg m all p x y t ↔ FromRow ir s ddg cdg p w all x y t
    Drawn-row x y t drawn plain = (λ d. row_of x y t plain d, λ row. (w, at, inl (drawn, row)))

    -- The edges of a call, once its callee's entry is known.
    abbrev pub ToEntry : HasEntry ir calls m (calls.called w.instruction) → ℕ → ℕ → ℕ → Type 0
    ToEntry e x y t =
        (x ≡ p) × (y ≡ e.entry) × (t ≡ 2) ⊎ ReturnsSome ir s p e.wrapper.return_insts x y t

    known_entry :
        (v : Wrapper) (e : HasEntry ir calls m (calls.called w.instruction))
        (e' : HasEntry ir calls m (calls.called v.instruction))
        → v ≡ w
        → (e'.wrapper ≡ e.wrapper) × (e'.entry ≡ e.entry)
    known_entry v e e' same =
        let callee : calls.called v.instruction ≡ calls.called w.instruction =
          ap (λ u. calls.called u.instruction) same in
        let wrapper : e'.wrapper ≡ e.wrapper = ground (arith, e.known, e'.known, callee) in
        let entries : e'.wrapper.entry ≡ e.wrapper.entry = ap (λ f. f.entry) wrapper in
        (wrapper, ground (arith, e.at, e'.at, entries))

    call_of :
        (x y t : ℕ) (e : HasEntry ir calls m (calls.called w.instruction))
        → Drawn ir calls s ddg cdg m all p x y t
        → ToEntry e x y t ⊎ FromRow ir s ddg cdg p w all x y t
    call_of x y t e (v, h, inl (_, row)) = inr (rw (the_wrapper v h) at row)
    call_of x y t e (v, h, inr (_, e', inl (hx, hy, ht))) =
        inl (inl (hx, hy ∙ (known_entry v e e' (the_wrapper v h)).1, ht))
    call_of x y t e (v, h, inr (_, e', inr ret)) =
        inl (inr (rw (known_entry v e e' (the_wrapper v h)).0 at ret))

    pub Drawn-call :
        (x y t : ℕ) (e : HasEntry ir calls m (calls.called w.instruction))
        → is_skipped ir calls w ≡ false
        → is_connected ir calls w ≡ true
        → Drawn ir calls s ddg cdg m all p x y t
          ↔ (ToEntry e x y t ⊎ FromRow ir s ddg cdg p w all x y t)
    Drawn-call x y t e drawn call = (
      call_of x y t e,
      λ d. elim d [ inl edge ↦ (w, at, inr (call, e, edge)) | inr row ↦ (w, at, inl (drawn, row)) ],
    )

  pub plain_node :
      (st : BuildState) (all : List ℕ) (p : ℕ) (w : Wrapper)
      → IsValid st.pdg
      → All (IsPresent st.statics) st.statics.global_list
      → All (IsPresent st.statics) all
      → PtrMap.lookup p st.statics.heap ≡ some w
      → is_new_call ir w ≡ false
      → NodeVisit st all p
  unfolding visit_node visit_call deref after_call call_state
  plain_node st all p w ok globals present at old =
      let r = link_all_edges ir st.statics st.ddg st.cdg st.pdg p w all ok globals present in
      (
        record {
          result = record st { pdg = r.result };
          ran = rw (at, deref, old, r.ran) refl;
          valid = r.valid;
          exact = λ x y t. ground (
            arith,
            r.exact x y t,
            Drawn-row st.statics st.ddg st.cdg st.func_map all p w at x y t (ground (arith, old))
                (ground (arith, old)),
          );
          same_ddg = refl;
          same_cdg = refl;
          same_func_map = refl;
          forth = IsAlike-refl st.statics;
          back = IsAlike-refl st.statics;
        },
        λ k other. refl,
      )
