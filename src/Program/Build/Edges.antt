-- ===== src/Program/Build/Edges.antt =====
-- The iteration over the nodes of a function, from end to end.
use mathlib.Core.List.{Memᴰ}
use mathlib.Core.List.Memᴰ
use dep_taint.Prelude.{
  ℕ, ◌≡◌, ◌≢◌, refl, sym, subst, ◌∙◌, ◌⊎◌, inl, inr, ◌↔◌, List, [], ◌∷◌, arith, All, All-mono,
  All-get,
}
use dep_taint.Prelude.PtrMap
use dep_taint.Ir.{Ir, Calls}
use dep_taint.Graph.Valid.{IsValid}
use dep_taint.Wrapper.{Statics}
use dep_taint.Function.{FuncMap}
use dep_taint.Program.Adds.{IsPresent}
use dep_taint.Program.Build.{BuildState, visit_nodes}
use dep_taint.Program.Build.Alike.{IsAlike, IsAlike-refl, IsAlike-trans, IsPresent-alike}
use dep_taint.Program.Build.Drawn.{Drawn, Drawn-alike}
use dep_taint.Program.Build.Nodes.{Visits, IsReady}
use dep_taint.Program.Build.Visits.{node_edges}

module _ (ir : Ir) (calls : Calls) where
  -- No node is listed twice.
  abbrev pub Distinct : List ℕ → Type 0
  Distinct [] = Unit
  Distinct (p ∷ ps) = All (λ k. p ≢ k) ps × Distinct ps

  -- The edges for some of the nodes.
  abbrev pub DrawnSome : BuildState → List ℕ → List ℕ → ℕ → ℕ → ℕ → Type 0
  DrawnSome st all ps x y t =
      (p : ℕ) × Memᴰ p ps × Drawn ir calls st.statics st.ddg st.cdg st.func_map all p x y t

  IsReady-alike :
      (s r : Statics) (m : FuncMap) (k : ℕ)
      → PtrMap.lookup k r.heap ≡ PtrMap.lookup k s.heap
      → IsReady ir calls s m k
      → IsReady ir calls r m k
  IsReady-alike s r m k same (real, w, at, entry) = (real, w, same ∙ at, entry)

  IsReady-later :
      (s r : Statics) (m : FuncMap) (p : ℕ) (ps : List ℕ)
      → ((k : ℕ) → p ≢ k → PtrMap.lookup k r.heap ≡ PtrMap.lookup k s.heap)
      → All (λ k. p ≢ k) ps
      → All (IsReady ir calls s m) ps
      → All (IsReady ir calls r m) ps
  IsReady-later s r m p [] same others h = tt
  IsReady-later s r m p (k ∷ ks) same (other, others) (h, hs) =
      (IsReady-alike s r m k (same k other) h, IsReady-later s r m p ks same others hs)

  Drawn-later :
      (st next : BuildState) (all : List ℕ) (k x y t : ℕ)
      → next.ddg ≡ st.ddg
      → next.cdg ≡ st.cdg
      → next.func_map ≡ st.func_map
      → IsAlike st.statics next.statics
      → IsAlike next.statics st.statics
      → PtrMap.lookup k next.statics.heap ≡ PtrMap.lookup k st.statics.heap
      → Drawn ir calls next.statics next.ddg next.cdg next.func_map all k x y t
        ↔ Drawn ir calls st.statics st.ddg st.cdg st.func_map all k x y t
  Drawn-later st next all k x y t d c m forth back same =
      rw (d, c, m)
        (
          Drawn-alike ir calls next.statics st.statics st.ddg st.cdg st.func_map all k x y t back
              (sym same),
          Drawn-alike ir calls st.statics next.statics st.ddg st.cdg st.func_map all k x y t forth
              same,
        )

  some_cases :
      (st next : BuildState) (all : List ℕ) (p : ℕ) (ps : List ℕ) (x y t : ℕ)
      → next.ddg ≡ st.ddg
      → next.cdg ≡ st.cdg
      → next.func_map ≡ st.func_map
      → IsAlike st.statics next.statics
      → IsAlike next.statics st.statics
      → ((k : ℕ) → p ≢ k → PtrMap.lookup k next.statics.heap ≡ PtrMap.lookup k st.statics.heap)
      → All (λ k. p ≢ k) ps
      → DrawnSome st all (p ∷ ps) x y t ↔ (
          Drawn ir calls st.statics st.ddg st.cdg st.func_map all p x y t
          ⊎ DrawnSome next all ps x y t)
  some_cases st next all p ps x y t d c m forth back same other =
      let later : (k : ℕ)
          → Memᴰ k ps
          → Drawn ir calls next.statics next.ddg next.cdg next.func_map all k x y t
            ↔ Drawn ir calls st.statics st.ddg st.cdg st.func_map all k x y t =
        λ k i.
          Drawn-later st next all k x y t d c m forth back
            (same k (All-get (λ j. p ≢ j) k ps other i)) in
      (
        λ (k, i, edge). elim (Memᴰ.cases_cons i) [
          | inl e ↦
              inl (
                subst (λ j. Drawn ir calls st.statics st.ddg st.cdg st.func_map all j x y t) e edge)
          | inr rest ↦ inr (k, rest, (later k rest).1 edge)
        ],
        λ e. elim e [
          | inl edge ↦ (p, Memᴰ.head refl, edge)
          | inr (k, i, edge) ↦ (k, Memᴰ.tail i, (later k i).0 edge)
        ],
      )

  -- Where no node is listed twice, the nodes, the global variables and all nodes of the module have
  -- wrappers, and every callee that is to be connected has a wrapper with an entry node, the iteration
  -- over the nodes of a function returns. It adds to a valid graph exactly these edges: from each
  -- node that is not a call passed over (indirect, of an intrinsic or of a function without a body,
  -- or a tail call) those of the inner loop; and from each call that is connected those of
  -- connectCallerAndCallee. The graphs of both passes, the map of function wrappers and, but for
  -- their access flags, the wrappers stay as they are.
  pub visit_nodes_edges :
      (st : BuildState) (all ps : List ℕ)
      → IsValid st.pdg
      → All (IsPresent st.statics) st.statics.global_list
      → All (IsPresent st.statics) st.statics.nodes
      → All (IsPresent st.statics) all
      → Distinct ps
      → All (IsReady ir calls st.statics st.func_map) ps
      → Visits st (DrawnSome st all ps) (visit_nodes ir calls st all ps)
  unfolding visit_nodes
  visit_nodes_edges st all [] ok globals nodes present distinct ready = record {
    result = st;
    ran = refl;
    valid = ok;
    exact = λ x y t. (inl, λ e. elim e [ inl old ↦ old | inr (p, m, d) ↦ absurd (Memᴰ.not-nil m) ]);
    same_ddg = refl;
    same_cdg = refl;
    same_func_map = refl;
    forth = IsAlike-refl st.statics;
    back = IsAlike-refl st.statics;
  }
  visit_nodes_edges st all (p ∷ ps) ok globals nodes present (other, distinct) (here, ready) =
      let (v, same) = node_edges ir calls st all p ok globals nodes present here in
      let next = v.result in
      let to : (qs : List ℕ) → All (IsPresent st.statics) qs → All (IsPresent next.statics) qs =
        All-mono _ _ (λ k. IsPresent-alike st.statics next.statics k v.forth) in
      let rest =
        visit_nodes_edges next all ps v.valid
          (subst (λ l. All (IsPresent next.statics) l) v.forth.same_globals
            (to st.statics.global_list globals))
          (subst (λ l. All (IsPresent next.statics) l) v.forth.same_nodes
            (to st.statics.nodes nodes))
          (to all present) distinct
          (subst (λ m. All (IsReady ir calls next.statics m) ps) (sym v.same_func_map)
            (IsReady-later st.statics next.statics st.func_map p ps same other ready)) in
      record {
        result = rest.result;
        ran = rw v.ran rest.ran;
        valid = rest.valid;
        exact = λ x y t. ground (
          arith,
          v.exact x y t,
          rest.exact x y t,
          some_cases st next all p ps x y t v.same_ddg v.same_cdg v.same_func_map v.forth v.back
              same other,
        );
        same_ddg = rest.same_ddg ∙ v.same_ddg;
        same_cdg = rest.same_cdg ∙ v.same_cdg;
        same_func_map = rest.same_func_map ∙ v.same_func_map;
        forth = IsAlike-trans st.statics next.statics rest.result.statics v.forth rest.forth;
        back = IsAlike-trans rest.result.statics next.statics st.statics rest.back v.back;
      }
