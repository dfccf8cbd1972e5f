-- ===== src/Program/Taint/Steps.antt =====
-- One round of the worklist: which flags it sets and which nodes it enqueues.
use mathlib.Core.List.{Memᴰ}
use mathlib.Core.List.Memᴰ
use dep_taint.Prelude.{
  ℕ, ◌≤◌, ◌≡◌, ◌≢◌, refl, ◌∙◌, ◌⊎◌, inl, inr, ◌↔◌, Bool, true, false, none, some, List, [], ◌∷◌,
  ◌++◌, ◌||◌, arith, length-append, ◌==◌, if◌then◌else◌, Bool-cases, Option-cases,
}
use dep_taint.Prelude.Outcome.{done, fault, Yields, Yields-bind, Yields-weaken, Yields-if}
use dep_taint.Prelude.PtrMap
use dep_taint.Prelude.PtrMap.{PtrMap}
use dep_taint.Prelude.PtrSet
use dep_taint.Prelude.PtrSet.{PtrSet}
use dep_taint.Ir.{Ir}
use dep_taint.Graph.{Link}
use dep_taint.Wrapper.{Wrapper}
use dep_taint.Program.Taint.{
  Names, TaintState, enqueue, reach_new, adjacent, target, follow, follow_all,
}
use dep_taint.Program.Taint.Frame.{IsSame, reach_new-Keeps}
use dep_taint.Program.Taint.Ends.{is_new, pending-flagged, measure}

-- The flag of the node's wrapper.
unfoldable pub flagged : PtrMap Wrapper → ℕ → Bool
flagged heap p = elim (PtrMap.lookup p heap) [ none ↦ false | some w ↦ w.flag ]

-- A step that reaches the nodes of `new`.
pub record Step (nodes : PtrSet) (new : ℕ → Type 0) (st next : TaintState) : Type 0 where
  pub graph : next.graph ≡ st.graph
  pub less : measure nodes next ≤ measure nodes st
  pub flags : (q : ℕ) → (flagged next.heap q ≡ true) ↔ ((flagged st.heap q ≡ true) ⊎ new q)
  pub queued :
      (q : ℕ)
      → (PtrSet.contains q next.queue ≡ true)
        ↔ ((PtrSet.contains q st.queue ≡ true) ⊎ new q × (flagged st.heap q ≡ false))

pub Step-none :
    (nodes : PtrSet) (new : ℕ → Type 0) (st : TaintState)
    → ((q : ℕ) → new q → flagged st.heap q ≡ true)
    → Step nodes new st st
Step-none nodes new st known = record {
  graph = refl;
  less = omega arith;
  flags = λ q. (inl, λ e. elim e [ inl old ↦ old | inr n ↦ known q n ]);
  queued = λ q.
      (inl, λ e. elim e [ inl old ↦ old | inr (n, f) ↦ absurd (ground (arith, known q n, f)) ]);
}

pub Step-trans :
    (nodes : PtrSet) (p q new : ℕ → Type 0) (a b c : TaintState)
    → ((x : ℕ) → new x ↔ (p x ⊎ q x))
    → Step nodes p a b
    → Step nodes q b c
    → Step nodes new a c
Step-trans nodes p q new a b c split h k = record {
  graph = k.graph ∙ h.graph;
  less = omega (arith, h.less, k.less);
  flags = λ x. ground (arith, split x, h.flags x, k.flags x);
  queued = λ x.
      ground (arith, split x, h.flags x, h.queued x, k.queued x, Bool-cases (flagged b.heap x));
}

module _ (ir : Ir) (nodes : PtrSet) where
  -- The link leads to `q`, and is not of type CALL.
  abbrev pub Follows : TaintState → Link → ℕ → Type 0
  Follows st l q = (q ≡ target ir nodes st l) × (l.1 ≢ 0) × (q ≢ 0)

  flagged-enqueue :
      (st : TaintState) (to q : ℕ) (w : Wrapper)
      → flagged (enqueue ir st to w).heap q ≡ (if to == q then true else flagged st.heap q)
  unfolding flagged enqueue
  flagged-enqueue st to q w =
      ground (arith, PtrMap.lookup-insert to q (record w { flag = true }) st.heap)

  contains-concat :
      (q to : ℕ) (ps : List ℕ)
      → PtrSet.contains q (ps ++ to ∷ []) ≡ (PtrSet.contains q ps || to == q)
  unfolding PtrSet.contains
  contains-concat q to [] = ground arith
  contains-concat q to (p ∷ ps) = ground (arith, contains-concat q to ps)

  enqueue-Step :
      (st : TaintState) (to : ℕ) (w : Wrapper)
      → PtrMap.lookup to st.heap ≡ some w
      → w.flag ≡ false
      → PtrSet.contains to nodes ≡ true
      → Step nodes (λ q. q ≡ to) st (enqueue ir st to w)
  unfolding enqueue measure flagged
  enqueue-Step st to w at fresh known =
      let new : is_new st.heap to ≡ true = rw (is_new, at, fresh) refl in
      let old : flagged st.heap to ≡ false = rw (flagged, at) fresh in
      record {
        graph = refl;
        less =
            omega (
              arith,
              length-append st.queue (to ∷ []),
              pending-flagged st.heap to w nodes new known,
            );
        flags = λ q. ground (arith, flagged-enqueue st to q w);
        queued = λ q. ground (arith, contains-concat q to st.queue, old);
      }

  -- The same, with what follows it.
  reach_new-Step :
      (st : TaintState) (names : Names) (from source to : ℕ) (w : Wrapper)
      → PtrMap.lookup to st.heap ≡ some w
      → w.flag ≡ false
      → PtrSet.contains to nodes ≡ true
      → Yields (Step nodes (λ q. q ≡ to) st) (reach_new ir st names from source to w)
  unfolding measure
  reach_new-Step st names from source to w at fresh known =
      let e = enqueue ir st to w in
      let h = enqueue-Step st to w at fresh known in
      Yields-weaken (IsSame e) (Step nodes (λ q. q ≡ to) st) _
        (reach_new-Keeps ir st names from source to w)
        (λ next same. record {
          graph = same.graph ∙ h.graph;
          less = rw (same.queue, same.heap) h.less;
          flags = λ q. rw same.heap (h.flags q);
          queued = λ q. rw same.queue (h.queued q);
        })

  Step-same :
      (p new : ℕ → Type 0) (st next : TaintState)
      → ((q : ℕ) → new q ↔ p q)
      → Step nodes p st next
      → Step nodes new st next
  Step-same p new st next same h = record {
    graph = h.graph;
    less = h.less;
    flags = λ q. ground (arith, same q, h.flags q);
    queued = λ q. ground (arith, same q, h.queued q);
  }

  reach_adjacent-Step :
      (st : TaintState) (names : Names) (from source to : ℕ) (w : Wrapper)
      → PtrMap.lookup to st.heap ≡ some w
      → PtrSet.contains to nodes ≡ true
      → Yields (Step nodes (λ q. q ≡ to) st) (
          if w.instruction == 0
          then fault
          else if w.flag
          then done st
          else reach_new ir st names from source to w)
  unfolding Yields flagged
  reach_adjacent-Step st names from source to w at known = elim (Bool-cases (w.instruction == 0)) [
    | inl null ↦ rw null tt
    | inr present ↦ rw present (
        Yields-if (Step nodes (λ q. q ≡ to) st) w.flag (done st)
          (reach_new ir st names from source to w)
          (λ old.
            let set : flagged st.heap to ≡ true = rw (flagged, at) old in
            Step-none nodes (λ q. q ≡ to) st (λ q e. rw e set))
          (λ fresh. reach_new-Step st names from source to w at fresh known))
  ]

  follow-Step :
      (st : TaintState) (names : Names) (from source : ℕ) (l : Link)
      → Yields (Step nodes (Follows st l) st) (follow ir nodes st names from source l)
  unfolding follow adjacent Yields
  follow-Step st names from source l =
      let to = target ir nodes st l in
      elim (Bool-cases (l.1 == 0)) [
        | inl call ↦ rw call (Step-none nodes (Follows st l) st (λ q n. ground (arith, call, n)))
        | inr other ↦ elim (Bool-cases (to == 0)) [
          | inl null ↦
              rw (other, null) (Step-none nodes (Follows st l) st (λ q n. ground (arith, null, n)))
          | inr present ↦ elim (Bool-cases (PtrSet.contains to nodes)) [
            | inr unknown ↦ rw (other, present, unknown) tt
            | inl known ↦ elim (Option-cases (PtrMap.lookup to st.heap)) [
              | inl absent ↦ rw (other, present, known, absent) tt
              | inr (w, at) ↦
                  rw (other, present, known, at)
                    (Yields-weaken (Step nodes (λ q. q ≡ to) st) (Step nodes (Follows st l) st) _
                      (reach_adjacent-Step st names from source to w at known)
                      (λ next.
                        Step-same (λ q. q ≡ to) (Follows st l) st next
                          (λ q. ground (arith, other, present))))
            ]
          ]
        ]
      ]

  -- Some link of the list leads to `q`.
  abbrev pub FollowsSome : TaintState → List Link → ℕ → Type 0
  FollowsSome st ls q = (l : Link) × Memᴰ l ls × Follows st l q

  pub Follows-cases :
      (st mid : TaintState) (l : Link) (ls : List Link) (q : ℕ)
      → mid.graph ≡ st.graph
      → FollowsSome st (l ∷ ls) q ↔ (Follows st l q ⊎ FollowsSome mid ls q)
  unfolding target
  Follows-cases st mid l ls q same = (
    λ (k, m, f). elim (Memᴰ.cases_cons m) [
      | inl e ↦ inl (rw (← e) f)
      | inr rest ↦ inr (k, rest, rw same f)
    ],
    λ e. elim e [
      | inl f ↦ (l, Memᴰ.head refl, f)
      | inr (k, rest, f) ↦ (k, Memᴰ.tail rest, rw same at f)
    ],
  )

  pub follow_all-Step :
      (st : TaintState) (names : Names) (from source : ℕ) (ls : List Link)
      → Yields (Step nodes (FollowsSome st ls) st) (follow_all ir nodes st names from source ls)
  unfolding follow_all Yields
  follow_all-Step st names from source [] =
      Step-none nodes (FollowsSome st []) st (λ q n. absurd (Memᴰ.not-nil n.1))
  follow_all-Step st names from source (l ∷ ls) =
      Yields-bind (Step nodes (Follows st l) st) (Step nodes (FollowsSome st (l ∷ ls)) st)
        (follow ir nodes st names from source l)
        (λ mid. follow_all ir nodes mid names from source ls) (follow-Step st names from source l)
        (λ mid h.
          Yields-weaken (Step nodes (FollowsSome mid ls) mid) _ _
            (follow_all-Step mid names from source ls)
            (λ next k.
              Step-trans nodes (Follows st l) (FollowsSome mid ls) (FollowsSome st (l ∷ ls)) st mid
                next (λ q. Follows-cases st mid l ls q h.graph) h k))
