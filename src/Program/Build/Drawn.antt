-- ===== src/Program/Build/Drawn.antt =====
-- What runOnModule draws from one node of a function, and that the access flags, which it sets while
-- it goes over the nodes, do not show in it.
use dep_taint.Prelude.{
  ℕ, ◌≡◌, refl, sym, ◌∙◌, ◌⊎◌, inl, inr, Bool, true, false, ◌&&◌, ◌||◌, not, some, List, ◌==◌,
}
use dep_taint.Prelude.PtrMap
use dep_taint.Ir.{Ir, Calls}
use dep_taint.Graph.{Graph}
use dep_taint.Wrapper.{Wrapper, Statics}
use dep_taint.Function.{FunctionWrapper, FuncMap}
use dep_taint.Program.Build.Alike.{IsAlike}
use dep_taint.Program.Connect.{is_new_call}
use dep_taint.Program.Connect.Correct.{ReturnsSome}
use dep_taint.Program.Pairs.{data_type}
use dep_taint.Program.Pairs.Correct.{FromGlobal, FromPair, FromRow}

module _ (ir : Ir) (s r : Statics) (alike : IsAlike s r) where
  data_type-alike :
      (w v v' : Wrapper)
      → v'.type ≡ v.type
      → v'.instruction ≡ v.instruction
      → data_type ir w v' ≡ data_type ir w v
  unfolding data_type
  data_type-alike w v v' et ei = rw (et, ei) refl

  FromGlobal-alike :
      (q : ℕ) (v v' : Wrapper) (x y t : ℕ)
      → v'.instruction ≡ v.instruction
      → FromGlobal ir s s.global_list q v x y t
      → FromGlobal ir r r.global_list q v' x y t
  FromGlobal-alike q v v' x y t e (hy, ht, m, u, at, reads) =
      let (u', at', ty, inst, value) = alike.kept x u at in
      (hy, ht, rw (← alike.same_globals) m, u', at', rw (e, value) reads)

  FromPair-alike :
      (ddg cdg : Graph) (p : ℕ) (w : Wrapper) (q : ℕ) (v v' : Wrapper) (x y t : ℕ)
      → v'.type ≡ v.type
      → v'.instruction ≡ v.instruction
      → FromPair ir s ddg cdg p w q v x y t
      → FromPair ir r ddg cdg p w q v' x y t
  FromPair-alike ddg cdg p w q v v' x y t et ei (inl (h, load, g)) =
      inl (rw et h, rw ei load, FromGlobal-alike q v v' x y t ei g)
  FromPair-alike ddg cdg p w q v v' x y t et ei (inr (inl (hx, hy, ht, k, d))) =
      inr (inl (hx, hy, ht ∙ sym (data_type-alike w v v' et ei), k, d))
  FromPair-alike ddg cdg p w q v v' x y t et ei (inr (inr c)) = inr (inr (rw ei c))

  pub FromRow-alike :
      (ddg cdg : Graph) (p : ℕ) (w : Wrapper) (qs : List ℕ) (x y t : ℕ)
      → FromRow ir s ddg cdg p w qs x y t
      → FromRow ir r ddg cdg p w qs x y t
  FromRow-alike ddg cdg p w qs x y t h =
      let (v, at, ty, inst, value) = alike.kept h.to h.wrapper h.stored in
      record {
        to = h.to;
        wrapper = v;
        listed = h.listed;
        stored = at;
        drawn = FromPair-alike ddg cdg p w h.to h.wrapper v x y t ty inst h.drawn;
      }

  pub ReturnsSome-alike :
      (call : ℕ) (rets : List ℕ) (x y t : ℕ)
      → ReturnsSome ir s call rets x y t
      → ReturnsSome ir r call rets x y t
  ReturnsSome-alike call rets x y t (ret, m, h) =
      let (v, at, ty, inst, value) = alike.kept x h.wrapper h.stored in
      (
        ret,
        m,
        record {
          listed = rw (← alike.same_nodes) h.listed;
          wrapper = v;
          stored = at;
          wraps = inst ∙ h.wraps;
          has_value = h.has_value;
          to_call = h.to_call;
          general = h.general;
        },
      )

module _ (ir : Ir) (calls : Calls) where
  -- A call over which the iteration goes on: indirect, of an intrinsic or of a function without a
  -- body, or a tail call.
  abbrev pub is_skipped : Wrapper → Bool
  is_skipped w =
      is_new_call ir w
      && (calls.called w.instruction == 0
          || calls.is_intrinsic (calls.called w.instruction)
          || calls.is_declaration (calls.called w.instruction)
          || calls.is_tail_call w.instruction)

  abbrev pub is_connected : Wrapper → Bool
  is_connected w =
      is_new_call ir w
      && not (
          calls.called w.instruction == 0
          || calls.is_intrinsic (calls.called w.instruction)
          || calls.is_declaration (calls.called w.instruction)
          || calls.is_tail_call w.instruction)

  -- The callee is known, with its entry node.
  pub record HasEntry (m : FuncMap) (callee : ℕ) : Type 0 where
    pub wrapper : FunctionWrapper
    pub entry : ℕ
    pub known : PtrMap.lookup callee m ≡ some wrapper
    pub at : wrapper.entry ≡ some entry

  -- The edges of connectCallerAndCallee.
  abbrev pub FromCall : Statics → FuncMap → ℕ → Wrapper → ℕ → ℕ → ℕ → Type 0
  FromCall s m p w x y t =
      (is_connected w ≡ true)
      × (e : HasEntry m (calls.called w.instruction)) × ((x ≡ p) × (y ≡ e.entry) × (t ≡ 2)
          ⊎ ReturnsSome ir s p e.wrapper.return_insts x y t)

  -- All edges for one node, from the wrappers as they are at first.
  abbrev pub Drawn : Statics → Graph → Graph → FuncMap → List ℕ → ℕ → ℕ → ℕ → ℕ → Type 0
  Drawn s ddg cdg m all p x y t =
      (w : Wrapper) × (PtrMap.lookup p s.heap ≡ some w)
      × ((is_skipped w ≡ false) × FromRow ir s ddg cdg p w all x y t ⊎ FromCall s m p w x y t)

  pub Drawn-alike :
      (s r : Statics) (ddg cdg : Graph) (m : FuncMap) (all : List ℕ) (p x y t : ℕ)
      → IsAlike s r
      → PtrMap.lookup p r.heap ≡ PtrMap.lookup p s.heap
      → Drawn s ddg cdg m all p x y t
      → Drawn r ddg cdg m all p x y t
  Drawn-alike s r ddg cdg m all p x y t alike same (w, at, inl (drawn, row)) =
      (w, same ∙ at, inl (drawn, FromRow-alike ir s r alike ddg cdg p w all x y t row))
  Drawn-alike s r ddg cdg m all p x y t alike same (w, at, inr (call, e, inl entry)) =
      (w, same ∙ at, inr (call, e, inl entry))
  Drawn-alike s r ddg cdg m all p x y t alike same (w, at, inr (call, e, inr ret)) = (
    w,
    same ∙ at,
    inr (call, e, inr (ReturnsSome-alike ir s r alike p e.wrapper.return_insts x y t ret)),
  )
