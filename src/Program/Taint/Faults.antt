-- ===== src/Program/Taint/Faults.antt =====
-- Where the worklist follows a null pointer: at an edge to a node without an instruction, such as
-- the entry node of a function that connectCallerAndCallee links a call to.
use mathlib.Core.List.Memᴰ
use dep_taint.Prelude.{
  ℕ, ◌≡◌, ◌≢◌, refl, inl, inr, true, false, some, List, [], ◌∷◌, arith, ◌==◌, if◌then◌else◌,
  Bool-cases, Option-cases,
}
use dep_taint.Prelude.Outcome.{
  done, fault, ◌>>=◌, Yields, Yields-bind, Yields-weaken, Yields-if, Yields-fault,
}
use dep_taint.Prelude.PtrMap
use dep_taint.Prelude.PtrSet
use dep_taint.Prelude.PtrSet.{PtrSet}
use dep_taint.Ir.{Ir}
use dep_taint.Graph.{Link, links, get_node_by_data}
use dep_taint.Graph.Valid.{IsValid, get_node_by_data-IsValid, get_node_by_data-lookup}
use dep_taint.Wrapper.{Wrapper}
use dep_taint.Program.Taint.{
  Names, TaintState, enqueue, reach_new, adjacent, target, follow, follow_all, scan_branches,
  visit_function, color, taint_of, expand,
}
use dep_taint.Program.Taint.Frame.{
  IsSame, IsSame-trans, visit_function-Keeps, color-IsSame, reach_new-Keeps,
}
use dep_taint.Program.Taint.Steps.{Follows, FollowsSome, Follows-cases}
use dep_taint.Program.Taint.Rounds.{
  Edge, Edge-get_node_by_data, edge→follows, taint_of-Yields, scan_branches-Yields,
}

module _ (ir : Ir) (nodes : PtrSet) (q : ℕ) where
  -- The wrapper at `q` has no instruction.
  abbrev pub IsNull : TaintState → Type 0
  IsNull st = (w : Wrapper) × (PtrMap.lookup q st.heap ≡ some w) × (w.instruction ≡ 0)

  -- A link was followed, and it did not lead to `q`.
  abbrev Passed : TaintState → Link → TaintState → Type 0
  Passed st l next = IsNull next × (next.graph ≡ st.graph) × (¬ Follows ir nodes st l q)

  IsNull-enqueue :
      (st : TaintState) (to : ℕ) (w : Wrapper)
      → PtrMap.lookup to st.heap ≡ some w
      → (w.instruction == 0) ≡ false
      → IsNull st
      → (q ≢ to) × IsNull (enqueue ir st to w)
  unfolding enqueue
  IsNull-enqueue st to w at present (u, here, null) =
      let apart : q ≢ to = λ e. ground (arith, at, here, null, present, e) in
      (
        apart,
        (
          u,
          ground (arith, PtrMap.lookup-insert to q (record w { flag = true }) st.heap, here, apart),
          null,
        ),
      )

  adjacent-Passed :
      (st : TaintState) (names : Names) (from source to : ℕ) (w : Wrapper)
      → PtrMap.lookup to st.heap ≡ some w
      → IsNull st
      → Yields
          (λ next. IsNull next × (next.graph ≡ st.graph) × (q ≢ to))
          (if w.instruction == 0
            then fault
            else if w.flag
            then done st
            else reach_new ir st names from source to w)
  unfolding Yields enqueue
  adjacent-Passed st names from source to w at h = elim (Bool-cases (w.instruction == 0)) [
    | inl null ↦ rw null tt
    | inr present ↦
        let (apart, kept) = IsNull-enqueue st to w at present h in
        rw present (
          Yields-if _ w.flag (done st) (reach_new ir st names from source to w)
            (λ _. (h, refl, apart))
            (λ _.
              Yields-weaken (IsSame (enqueue ir st to w)) _ _
                (reach_new-Keeps ir st names from source to w)
                (λ next same. ((kept.0, rw same.heap kept.1, kept.2), same.graph, apart))))
  ]

  follow-Passed :
      (st : TaintState) (names : Names) (from source : ℕ) (l : Link)
      → IsNull st
      → Yields (Passed st l) (follow ir nodes st names from source l)
  unfolding follow adjacent Yields
  follow-Passed st names from source l h =
      let to = target ir nodes st l in
      elim (Bool-cases (l.1 == 0)) [
        | inl call ↦ rw call (h, refl, λ n. ground (arith, call, n))
        | inr other ↦ elim (Bool-cases (to == 0)) [
          | inl null ↦ rw (other, null) (h, refl, λ n. ground (arith, null, n))
          | inr present ↦ elim (Bool-cases (PtrSet.contains to nodes)) [
            | inr unknown ↦ rw (other, present, unknown) tt
            | inl known ↦ elim (Option-cases (PtrMap.lookup to st.heap)) [
              | inl absent ↦ rw (other, present, known, absent) tt
              | inr (w, at) ↦
                  rw (other, present, known, at)
                    (Yields-weaken _ (Passed st l) _
                      (adjacent-Passed st names from source to w at h)
                      (λ next (k, same, apart). (k, same, λ n. apart n.0)))
            ]
          ]
        ]
      ]

  follow_all-faults :
      (st : TaintState) (names : Names) (from source : ℕ) (ls : List Link)
      → IsNull st
      → FollowsSome ir nodes st ls q
      → Yields (λ _. ⊥) (follow_all ir nodes st names from source ls)
  unfolding follow_all
  follow_all-faults st names from source [] h n = absurd (Memᴰ.not-nil n.1)
  follow_all-faults st names from source (l ∷ ls) h n =
      Yields-bind (Passed st l) (λ _. ⊥) (follow ir nodes st names from source l)
        (λ mid. follow_all ir nodes mid names from source ls)
        (follow-Passed st names from source l h)
        (λ mid (k, same, apart). elim ((Follows-cases ir nodes st mid l ls q same).0 n) [
          | inl now ↦ absurd (apart now)
          | inr later ↦ follow_all-faults mid names from source ls k later
        ])

  links-faults :
      (p : ℕ) (w : Wrapper) (st : TaintState)
      → IsValid st.graph
      → IsNull st
      → Edge st.graph p q
      → Yields
          (λ _. ⊥)
          (taint_of ir nodes (record st { graph = (get_node_by_data st.graph p).0 }) w >>= (λ names.
            scan_branches ir nodes
              (record st { graph = (get_node_by_data st.graph p).0 })
              (links (get_node_by_data st.graph p).0 (get_node_by_data st.graph p).1)
            >>= (λ mid.
                follow_all ir nodes mid names p w.instruction
                  (links mid.graph (get_node_by_data st.graph p).1))))
  links-faults p w st v h edge =
      let g = (get_node_by_data st.graph p).0 in
      let i = (get_node_by_data st.graph p).1 in
      let start = record st { graph = g } in
      let some_link =
        edge→follows ir nodes start p q i (get_node_by_data-IsValid st.graph v p)
          (get_node_by_data-lookup st.graph v p)
          ((Edge-get_node_by_data ir nodes st.graph p p q v).1 edge) in
      Yields-bind (λ _. Unit) (λ _. ⊥) (taint_of ir nodes start w) _
        (taint_of-Yields ir nodes start w)
        (λ names _.
          Yields-bind (λ n. n ≡ start) (λ _. ⊥) (scan_branches ir nodes start (links g i)) _
            (scan_branches-Yields ir nodes start (links g i))
            (λ mid same.
              rw same (follow_all-faults start names p w.instruction (links g i) h some_link)))

-- The code has undefined behaviour in a round for a node with an edge, not of type CALL, to a node
-- without an instruction: the round of the model is a fault, on a valid graph, whatever the flags.
pub expand_faults :
    (ir : Ir) (nodes : PtrSet) (st : TaintState) (p q : ℕ)
    → IsValid st.graph
    → IsNull ir nodes q st
    → Edge st.graph p q
    → expand ir nodes st p ≡ fault
unfolding expand Yields
expand_faults ir nodes st p q v h edge =
    Yields-fault _ (elim (Option-cases (PtrMap.lookup p st.heap)) [
      | inl absent ↦ rw (absent, expand, Yields) tt
      | inr (w, at) ↦
          rw (at, expand)
            (Yields-bind (IsSame st) (λ _. ⊥) (visit_function ir nodes st w) _
              (visit_function-Keeps ir nodes st w)
              (λ st1 same.
                let st2 = color ir nodes st1 p w in
                let both = IsSame-trans st st1 st2 same (color-IsSame ir nodes st1 p w) in
                links-faults ir nodes q p w st2 (rw both.graph v) (h.0, rw both.heap h.1, h.2)
                  (rw both.graph edge)))
    ])
