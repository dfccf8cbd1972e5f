-- ===== src/Program/Taint/Rounds.antt =====
-- One round of the worklist, in terms of the edges of the graph.
use mathlib.Core.List.{Memᴰ}
use mathlib.Core.List.Memᴰ
use dep_taint.Prelude.{
  ℕ, ◌≤◌, ◌≡◌, ◌≢◌, refl, sym, ap, ◌∙◌, ◌⊎◌, inl, inr, ◌↔◌, Bool, true, false, some, List, [], ◌∷◌,
  arith, any, get_elem?, ◌==◌, Bool-cases, Option-cases,
}
use dep_taint.Prelude.Outcome.{◌>>=◌, Yields, Yields-bind, Yields-weaken}
use dep_taint.Prelude.PtrMap
use dep_taint.Prelude.PtrSet
use dep_taint.Prelude.PtrSet.{PtrSet}
use dep_taint.Ir.{Ir}
use dep_taint.Graph.{Graph, Node, Link, links, get_node_by_data}
use dep_taint.Graph.Valid.{IsValid, get_node_by_data-IsValid, get_node_by_data-lookup}
use dep_taint.Graph.Edges.{has_edge, leads_to, related, related-get_node_by_data}
use dep_taint.Wrapper.{Wrapper}
use dep_taint.Program.Taint.{
  TaintState, target, follow_all, adjacent, scan_branches, visit_function, color, taint_of, expand,
}
use dep_taint.Program.Taint.Frame.{IsSame, IsSame-trans, visit_function-Keeps, color-IsSame}
use dep_taint.Program.Taint.Ends.{measure}
use dep_taint.Program.Taint.Steps.{flagged, Step, FollowsSome, follow_all-Step}

-- An edge that the taint follows: of a type other than CALL, and not to the null wrapper.
abbrev pub Edge : Graph → ℕ → ℕ → Type 0
Edge g p q = (t : ℕ) × (t ≢ 0) × (q ≢ 0) × (has_edge g p q t ≡ true)

has_edge-found :
    (g : Graph) (p q t i j : ℕ)
    → PtrMap.lookup p g.data_to_node ≡ some i
    → PtrMap.lookup q g.data_to_node ≡ some j
    → has_edge g p q t ≡ any (leads_to j (λ s. t == s)) (links g i)
unfolding has_edge related
has_edge-found g p q t i j at back = ground (arith, at, back)

any-mem : (p : Link → Bool) (l : Link) (ls : List Link) → Memᴰ l ls → p l ≡ true → any p ls ≡ true
any-mem p l [] m h = absurd (Memᴰ.not-nil m)
any-mem p l (k ∷ ls) m h = elim (Memᴰ.cases_cons m) [
  | inl e ↦ let here : p k ≡ true = rw (← e) h in ground arith
  | inr rest ↦ ground (arith, any-mem p l ls rest h)
]

any-find :
    (p : Link → Bool) (ls : List Link) → any p ls ≡ true → (l : Link) × Memᴰ l ls × (p l ≡ true)
any-find p [] h = cc
any-find p (k ∷ ls) h = elim (Bool-cases (p k)) [
  | inl here ↦ (k, Memᴰ.head refl, here)
  | inr other ↦ let (l, m, e) = any-find p ls (ground (arith, h, other)) in (l, Memᴰ.tail m, e)
]

module _ (ir : Ir) (nodes : PtrSet) where
  target-at :
      (st : TaintState) (l : Link) (n : Node)
      → get_elem? st.graph.nodes l.0 ≡ some n
      → target ir nodes st l ≡ n.datum
  unfolding target
  target-at st l n h = ground (arith, h)

  follows→edge :
      (st : TaintState) (p q i : ℕ)
      → IsValid st.graph
      → PtrMap.lookup p st.graph.data_to_node ≡ some i
      → FollowsSome ir nodes st (links st.graph i) q
      → Edge st.graph p q
  unfolding target has_edge related
  follows→edge st p q i v at (l, m, (hq, ht, present)) =
      elim (Option-cases (get_elem? st.graph.nodes l.0)) [
        | inl absent ↦ absurd (ground (arith, hq, absent, present))
        | inr (n, here) ↦
            let datum : n.datum ≡ q = ground (arith, hq, here) in
            let back : PtrMap.lookup q st.graph.data_to_node ≡ some l.0 =
              rw datum at (v.indexed l.0 n here) in
            (
              l.1,
              ht,
              present,
              has_edge-found st.graph p q l.1 i l.0 at back
                  ∙ any-mem (leads_to l.0 (λ s. l.1 == s)) l (links st.graph i) m (ground arith),
            )
      ]

  pub edge→follows :
      (st : TaintState) (p q i : ℕ)
      → IsValid st.graph
      → PtrMap.lookup p st.graph.data_to_node ≡ some i
      → Edge st.graph p q
      → FollowsSome ir nodes st (links st.graph i) q
  unfolding target has_edge related
  edge→follows st p q i v at (t, ht, present, e) =
      elim (Option-cases (PtrMap.lookup q st.graph.data_to_node)) [
        | inl absent ↦ absurd (ground (arith, e, at, absent))
        | inr (j, back) ↦
            let (l, m, hit) =
              any-find (leads_to j (λ s. t == s)) (links st.graph i)
                (sym (has_edge-found st.graph p q t i j at back) ∙ e) in
            let (n, here, datum) = v.mapped q j back in
            let same : l.0 ≡ j = ground (arith, hit) in
            let reached : q ≡ target ir nodes st l =
              sym datum
              ∙ sym (target-at st l n (ap (λ k. get_elem? st.graph.nodes k) same ∙ here)) in
            (l, m, (reached, ground (arith, hit, ht), present))
      ]

  pub taint_of-Yields :
      (st : TaintState) (w : Wrapper) → Yields (λ _. Unit) (taint_of ir nodes st w)
  unfolding Yields taint_of
  taint_of-Yields st w = ground arith

  pub scan_branches-Yields :
      (st : TaintState) (ls : List Link) → Yields (λ n. n ≡ st) (scan_branches ir nodes st ls)
  unfolding Yields scan_branches adjacent
  scan_branches-Yields st [] = refl
  scan_branches-Yields st (l ∷ ls) = ground (arith, scan_branches-Yields st ls)

  -- What a round does for the node `p`.
  pub record Round (p : ℕ) (st next : TaintState) : Type 0 where
    pub valid : IsValid next.graph
    pub edges : (x y t : ℕ) → has_edge next.graph x y t ≡ has_edge st.graph x y t
    pub less : measure nodes next ≤ measure nodes st
    pub flags :
        (q : ℕ) → (flagged next.heap q ≡ true) ↔ ((flagged st.heap q ≡ true) ⊎ Edge st.graph p q)
    pub queued :
        (q : ℕ)
        → (PtrSet.contains q next.queue ≡ true)
          ↔ ((PtrSet.contains q st.queue ≡ true) ⊎ Edge st.graph p q × (flagged st.heap q ≡ false))

  pub Edge-get_node_by_data :
      (g : Graph) (d p q : ℕ) → IsValid g → Edge (get_node_by_data g d).0 p q ↔ Edge g p q
  unfolding has_edge
  Edge-get_node_by_data g d p q v = (
    λ (t, ht, hq, e). (t, ht, hq, sym (related-get_node_by_data g (λ s. t == s) d p q v) ∙ e),
    λ (t, ht, hq, e). (t, ht, hq, related-get_node_by_data g (λ s. t == s) d p q v ∙ e),
  )

  Step-Round :
      (p : ℕ) (st next : TaintState)
      → IsValid st.graph
      → Step nodes
          (FollowsSome ir nodes
            (record st { graph = (get_node_by_data st.graph p).0 })
            (links (get_node_by_data st.graph p).0 (get_node_by_data st.graph p).1))
          (record st { graph = (get_node_by_data st.graph p).0 })
          next
      → Round p st next
  unfolding measure has_edge
  Step-Round p st next v h =
      let g = (get_node_by_data st.graph p).0 in
      let i = (get_node_by_data st.graph p).1 in
      let mid = record st { graph = g } in
      let v1 = get_node_by_data-IsValid st.graph v p in
      let at = get_node_by_data-lookup st.graph v p in
      record {
        valid = rw h.graph v1;
        edges = λ x y t. rw h.graph (related-get_node_by_data st.graph (λ s. t == s) p x y v);
        less = h.less;
        flags = λ q. ground (
          arith,
          h.flags q,
          follows→edge mid p q i v1 at,
          edge→follows mid p q i v1 at,
          Edge-get_node_by_data st.graph p p q v,
        );
        queued = λ q. ground (
          arith,
          h.queued q,
          follows→edge mid p q i v1 at,
          edge→follows mid p q i v1 at,
          Edge-get_node_by_data st.graph p p q v,
        );
      }

  Round-IsSame :
      (p : ℕ) (st mid next : TaintState) → IsSame st mid → Round p mid next → Round p st next
  unfolding measure
  Round-IsSame p st mid next same h = record {
    valid = h.valid;
    edges = λ x y t. rw (← same.graph) (h.edges x y t);
    less = rw (← same.queue, ← same.heap) h.less;
    flags = λ q. rw (← same.heap, ← same.graph) (h.flags q);
    queued = λ q. rw (← same.heap, ← same.graph, ← same.queue) (h.queued q);
  }

  links-Round :
      (p : ℕ) (w : Wrapper) (st : TaintState)
      → IsValid st.graph
      → Yields (Round p st) (
          taint_of ir nodes (record st { graph = (get_node_by_data st.graph p).0 }) w >>= (λ names.
            scan_branches ir nodes
              (record st { graph = (get_node_by_data st.graph p).0 })
              (links (get_node_by_data st.graph p).0 (get_node_by_data st.graph p).1)
            >>= (λ mid.
                follow_all ir nodes mid names p w.instruction
                  (links mid.graph (get_node_by_data st.graph p).1))))
  links-Round p w st v =
      let g = (get_node_by_data st.graph p).0 in
      let i = (get_node_by_data st.graph p).1 in
      let start = record st { graph = g } in
      Yields-bind (λ _. Unit) (Round p st) (taint_of ir nodes start w) _ (taint_of-Yields start w)
        (λ names _.
          Yields-bind (λ n. n ≡ start) (Round p st) (scan_branches ir nodes start (links g i)) _
            (scan_branches-Yields start (links g i))
            (λ mid same. rw same (
              Yields-weaken (Step nodes (FollowsSome ir nodes start (links g i)) start) (Round p st)
                _ (follow_all-Step ir nodes start names p w.instruction (links g i))
                (λ next h. Step-Round p st next v h))))

  -- One round follows the edges out of its node.
  pub expand-Round :
      (st : TaintState) (p : ℕ) → IsValid st.graph → Yields (Round p st) (expand ir nodes st p)
  unfolding expand Yields
  expand-Round st p v = elim (Option-cases (PtrMap.lookup p st.heap)) [
    | inl absent ↦ rw (absent, expand, Yields) tt
    | inr (w, at) ↦
        rw (at, expand)
          (Yields-bind (IsSame st) (Round p st) (visit_function ir nodes st w) _
            (visit_function-Keeps ir nodes st w)
            (λ st1 same.
              let st2 = color ir nodes st1 p w in
              let both = IsSame-trans st st1 st2 same (color-IsSame ir nodes st1 p w) in
              Yields-weaken (Round p st2) (Round p st) _ (links-Round p w st2 (rw both.graph v))
                (λ next h. Round-IsSame p st st2 next both h)))
  ]
