-- ===== src/Program/Build/Visits.antt =====
-- One node of a function: a call that is passed over, a call that is connected, or another node.
use dep_taint.Prelude.{
  if_true, if_false, ℕ, ◌≡◌, ◌≢◌, refl, ap, ◌∙◌, inl, inr, Bool, true, false, ◌||◌, some, List,
  ◌++◌, arith, All, All-mono, ◌==◌, if◌then◌else◌, Bool-cases,
}
use dep_taint.Prelude.Outcome.{Outcome, done, ◌>>=◌}
use dep_taint.Prelude.PtrMap
use dep_taint.Prelude.PtrSet
use dep_taint.Ir.{Ir, Calls}
use dep_taint.Graph.{Graph}
use dep_taint.Graph.Valid.{IsValid}
use dep_taint.Wrapper.{Wrapper, deref}
use dep_taint.Function.{FuncMap}
use dep_taint.Program.Adds.{IsPresent}
use dep_taint.Program.Connect.{
  CallState, is_new_call, visit_call, connect_call, annotated, connect_caller_and_callee,
}
use dep_taint.Program.Connect.Correct.{connect_caller_and_callee_edges}
use dep_taint.Program.Pairs.Correct.{link_all_edges}
use dep_taint.Program.Build.{BuildState, visit_node, call_state, after_call}
use dep_taint.Program.Build.Alike.{
  IsAlike-refl, IsAlike-marked, IsAlike-unmarked, marked, IsPresent-alike,
}
use dep_taint.Program.Build.Drawn.{is_skipped, is_connected, HasEntry, FromRow-alike}
use dep_taint.Program.Build.Nodes.{IsReady, NodeVisit, Drawn-none, Drawn-call, plain_node}

module _ (ir : Ir) (calls : Calls) where
  skipped_node :
      (st : BuildState) (all : List ℕ) (p : ℕ) (w : Wrapper) (values : List ℕ)
      → IsValid st.pdg
      → PtrMap.lookup p st.statics.heap ≡ some w
      → is_skipped ir calls w ≡ true
      → visit_call ir calls (call_state ir calls st) st.func_map p w
        ≡ done (false, record (call_state ir calls st) { sensitive_values = values })
      → NodeVisit ir calls st all p
  unfolding visit_node deref after_call call_state
  skipped_node st all p w values ok at skip runs = (
    record {
      result = record st { sensitive_values = values };
      ran = rw (at, deref, runs) refl;
      valid = ok;
      exact = λ x y t. (
        inl,
        λ e. elim e [
          | inl old ↦ old
          | inr new ↦
              absurd
                (Drawn-none ir calls st.statics st.ddg st.cdg st.func_map all p w at x y t skip new)
        ],
      );
      same_ddg = refl;
      same_cdg = refl;
      same_func_map = refl;
      forth = IsAlike-refl st.statics;
      back = IsAlike-refl st.statics;
    },
    λ k other. refl,
  )

  -- What the handling of a call leaves, where connectCallerAndCallee returns 0.
  connected_call :
      (c : CallState) (m : FuncMap) (p : ℕ) (w : Wrapper) (g : Graph)
      → is_connected ir calls w ≡ true
      → connect_caller_and_callee ir c.statics m c.graph p (calls.called w.instruction)
        ≡ done (g, 0)
      → visit_call ir calls c m p w
        ≡ done (
          true,
          record {
            statics = marked c.statics p w;
            graph = g;
            call_map = PtrSet.insert w.instruction c.call_map;
            sensitive_values = c.sensitive_values;
          },
        )
  unfolding visit_call connect_call
  connected_call c m p w g call connects =
      let callee = calls.called w.instruction in
      let new : is_new_call ir w ≡ true = ground (arith, call) in
      let direct : (callee == 0) ≡ false = ground (arith, call) in
      let body : (calls.is_intrinsic callee || calls.is_declaration callee) ≡ false =
        ground (arith, call) in
      let no_tail : calls.is_tail_call w.instruction ≡ false = ground (arith, call) in
      let after : Graph × ℕ → CallState = λ connected. record {
        statics = if connected.1 == 0 then marked c.statics p w else c.statics;
        graph = connected.0;
        call_map = PtrSet.insert w.instruction c.call_map;
        sensitive_values = c.sensitive_values;
      } in
      let finish : CallState → Outcome (Bool × CallState) = λ n. done (true, n) in
      if_true _ _ _ new
      ∙ if_false _ _ _ direct
      ∙ if_false _ _ _ body
      ∙ if_false _ _ _ no_tail
      ∙ ap (λ o. (o >>= λ k. done (after k)) >>= finish) connects

  connected_node :
      (st : BuildState) (all : List ℕ) (p : ℕ) (w : Wrapper)
      → IsValid st.pdg
      → All (IsPresent st.statics) st.statics.global_list
      → All (IsPresent st.statics) st.statics.nodes
      → All (IsPresent st.statics) all
      → p ≢ 0
      → PtrMap.lookup p st.statics.heap ≡ some w
      → is_skipped ir calls w ≡ false
      → is_connected ir calls w ≡ true
      → HasEntry ir calls st.func_map (calls.called w.instruction)
      → NodeVisit ir calls st all p
  unfolding visit_node deref after_call call_state
  connected_node st all p w ok globals nodes present real at drawn call e =
      let callee = calls.called w.instruction in
      let defined : callee ≢ 0 = λ z. absurd (ground (arith, call, z)) in
      let (h, connects, adds) =
        connect_caller_and_callee_edges ir st.statics st.func_map st.pdg p callee e.entry e.wrapper
          ok nodes real defined e.known e.at in
      let g = adds.result in
      let same : h ≡ g = cc in
      let s1 = marked st.statics p w in
      let forth = IsAlike-marked st.statics p w at in
      let back = IsAlike-unmarked st.statics p w at in
      let r =
        link_all_edges ir s1 st.ddg st.cdg g p w all adds.valid
          (All-mono _ _ (λ k. IsPresent-alike st.statics s1 k forth) st.statics.global_list globals)
          (All-mono _ _ (λ k. IsPresent-alike st.statics s1 k forth) all present) in
      let visits =
        connected_call (call_state ir calls st) st.func_map p w g call
          (connects ∙ ap (λ k. done (k, 0)) same) in
      (
        record {
          result = record st {
            statics = s1;
            pdg = r.result;
            call_map = PtrSet.insert w.instruction st.call_map;
          };
          ran = rw (at, deref, visits, r.ran) refl;
          valid = r.valid;
          exact = λ x y t. ground (
            arith,
            r.exact x y t,
            adds.exact x y t,
            Drawn-call ir calls st.statics st.ddg st.cdg st.func_map all p w at x y t e drawn call,
            FromRow-alike ir st.statics s1 forth st.ddg st.cdg p w all x y t,
            FromRow-alike ir s1 st.statics back st.ddg st.cdg p w all x y t,
          );
          same_ddg = refl;
          same_cdg = refl;
          same_func_map = refl;
          forth = forth;
          back = back;
        },
        λ k other.
            ground
              (arith, PtrMap.lookup-insert p k (record w { access = true }) st.statics.heap, other),
      )

  -- One node, whatever it is.
  pub node_edges :
      (st : BuildState) (all : List ℕ) (p : ℕ)
      → IsValid st.pdg
      → All (IsPresent st.statics) st.statics.global_list
      → All (IsPresent st.statics) st.statics.nodes
      → All (IsPresent st.statics) all
      → IsReady ir calls st.statics st.func_map p
      → NodeVisit ir calls st all p
  unfolding visit_call call_state
  node_edges st all p ok globals nodes present (real, w, at, entry) =
      let callee = calls.called w.instruction in
      let values = st.sensitive_values in
      elim (Bool-cases (is_new_call ir w)) [
        | inr old ↦ plain_node ir calls st all p w ok globals present at old
        | inl new ↦ elim (Bool-cases (callee == 0)) [
          | inl indirect ↦
              skipped_node st all p w values ok at (ground (arith, new, indirect))
                (rw (new, indirect) refl)
          | inr direct ↦
              elim (Bool-cases (calls.is_intrinsic callee || calls.is_declaration callee)) [
                | inl external ↦
                    skipped_node st all p w
                      (if calls.is_var_annotation callee
                        then values ++ annotated ir calls w.instruction
                        else values)
                      ok at (ground (arith, new, external)) (rw (new, direct, external) refl)
                | inr body ↦ elim (Bool-cases (calls.is_tail_call w.instruction)) [
                  | inl tail ↦
                      skipped_node st all p w values ok at (ground (arith, new, tail))
                        (rw (new, direct, body, tail) refl)
                  | inr no_tail ↦
                      let call : is_connected ir calls w ≡ true =
                        ground (arith, new, direct, body, no_tail) in
                      connected_node st all p w ok globals nodes present real at
                        (ground (arith, call)) call (entry call)
                ]
              ]
        ]
      ]
