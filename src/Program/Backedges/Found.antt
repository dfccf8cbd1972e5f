-- ===== src/Program/Backedges/Found.antt =====
-- The search ends, and every edge that it reports closes a cycle.
use mathlib.Core.List.{Memᴰ}
use mathlib.Core.List.Memᴰ
use dep_taint.Prelude.{
  ℕ, zero, suc, ◌+◌, ◌*◌, ◌<◌, ◌≤◌, ◌≡◌, refl, sym, ap, subst, ◌∙◌, ◌⊎◌, inl, inr, true, Option,
  none, some, List, [], ◌∷◌, arith, All, length, ◌==◌, Bool-cases,
}
use dep_taint.Prelude.Outcome.{Outcome, done, ◌>>=◌}
use dep_taint.Prelude.PtrSet
use dep_taint.Prelude.PtrSet.{PtrSet}
use dep_taint.Ir.{Ir}
use dep_taint.Program.Backedges.{
  Search, next_child, move, advance, search, start_search, find_from, find_function_backedges,
}
use dep_taint.Program.Backedges.Cycles.{
  IsBackedge, IsChain, IsChain-tail, IsChain-left, IsChain-push, IsChain-one, OnStack, Walk-to_top,
  next_child-lem, unseen_at_most, unseen, unseen_less,
}

List-cases : {A : Type 0} (l : List A) → (l ≡ []) ⊎ ((e : A) × (r : List A) × (l ≡ e ∷ r))
List-cases [] = inl refl
List-cases (e ∷ r) = inr (e, r, refl)

pick_cons :
    {A B : Type 0} (l : List A) (x y : B) (e : A) (r : List A)
    → l ≡ e ∷ r
    → (elim l as (λ _. B) [ [] ↦ x | _ ∷ _ ↦ y ]) ≡ y
pick_cons l x y e r h = rw h refl

pick_nil :
    {A B : Type 0} (l : List A) (x y : B) → l ≡ [] → (elim l as (λ _. B) [ [] ↦ x | _ ∷ _ ↦ y ]) ≡ x
pick_nil l x y h = rw h refl

module _ (ir : Ir) (blocks : List ℕ) where
  -- Successors of blocks of the function are blocks of the function.
  abbrev pub IsClosed : Type 0
  IsClosed = (b c : ℕ) → Memᴰ b blocks → Memᴰ c (ir.successors b) → Memᴰ c blocks

  record IsSound (st : Search) : Type 0 where
    chain : IsChain ir st.stack
    on_stack : (k : ℕ) → PtrSet.contains k st.in_stack ≡ true → OnStack ir k st.stack
    good : All (IsBackedge ir) st.result
    blocks_of : All (λ e. Memᴰ e.0 blocks) st.stack

  measure : Search → ℕ
  measure st = 2 * unseen ir st.visited blocks + length st.stack

  move_up :
      (st : Search) (parent : ℕ) (below : List (ℕ × List ℕ))
      (r : Option (ℕ × List ℕ) × List (ℕ × ℕ))
      → r.0 ≡ none
      → move ir st parent below r ≡ record {
        visited = st.visited;
        stack = below;
        in_stack = PtrSet.erase parent st.in_stack;
        result = r.1;
      }
  unfolding move
  move_up st parent below (none, edges) h = refl
  move_up st parent below (some c, edges) h = cc

  move_down :
      (st : Search) (parent : ℕ) (below : List (ℕ × List ℕ))
      (r : Option (ℕ × List ℕ) × List (ℕ × ℕ)) (b : ℕ) (bs : List ℕ)
      → r.0 ≡ some (b, bs)
      → move ir st parent below r ≡ record {
        visited = PtrSet.insert b st.visited;
        stack = (b, ir.successors b) ∷ (parent, bs) ∷ below;
        in_stack = PtrSet.insert b st.in_stack;
        result = r.1;
      }
  unfolding move
  move_down st parent below (none, edges) b bs h = cc
  move_down st parent below (some (c, cs), edges) b bs h =
      let eb : c ≡ b = ground (arith, h) in let es : cs ≡ bs = cc in rw (eb, es) refl

  Moves : Search → Search → Type 0
  Moves st next = IsSound next × (measure next < measure st)

  move-IsSound :
      (closed : IsClosed) (st : Search) (parent : ℕ) (bs : List ℕ) (below : List (ℕ × List ℕ))
      → IsSound st
      → st.stack ≡ (parent, bs) ∷ below
      → Moves st (move ir st parent below (next_child st.visited st.in_stack parent bs st.result))
  unfolding Moves measure
  move-IsSound closed st parent bs below s top =
      let r = next_child st.visited st.in_stack parent bs st.result in
      let chain : IsChain ir ((parent, bs) ∷ below) = subst (λ l. IsChain ir l) top s.chain in
      let inside : All (λ e. Memᴰ e.0 blocks) ((parent, bs) ∷ below) =
        subst (λ l. All (λ e. Memᴰ e.0 blocks) l) top s.blocks_of in
      let on : (k : ℕ)
          → PtrSet.contains k st.in_stack ≡ true
          → OnStack ir k ((parent, bs) ∷ below) =
        λ k h. subst (λ l. OnStack ir k l) top (s.on_stack k h) in
      let (good, cases) =
        next_child-lem ir st.visited st.in_stack parent bs st.result
          (λ c h. Walk-to_top ir c (parent, bs) below chain (on c h))
          (IsChain-left ir (parent, bs) below chain) s.good in
      elim cases [
        | inl up ↦
            subst (λ n. Moves st n) (sym (move_up st parent below r up))
              (
                record {
                  chain = IsChain-tail ir (parent, bs) below chain;
                  on_stack = λ k h.
                      elim (Memᴰ.cases_cons
                        (on k (ground (arith, h, PtrSet.contains-erase parent k st.in_stack)))) [
                          | inl e ↦
                              absurd
                                (ground (arith, h, e, PtrSet.contains-erase parent k st.in_stack))
                          | inr rest ↦ rest
                        ];
                  good = good;
                  blocks_of = inside.1;
                },
                rw top (omega arith),
              )
        | inr c ↦
            subst (λ n. Moves st n) (sym (move_down st parent below r c.child c.left c.found))
              (let fresh : Memᴰ c.child blocks = closed parent c.child inside.0 c.is_next in
                (
                  record {
                    chain =
                        IsChain-push ir c.child parent bs c.left below chain c.all_next c.is_next;
                    on_stack = λ k h. elim (Bool-cases (c.child == k)) [
                      | inl same ↦ Memᴰ.head (ground (arith, same))
                      | inr other ↦ Memᴰ.tail (
                          on k (
                            ground (arith, h, other, PtrSet.contains-insert c.child k st.in_stack)))
                    ];
                    good = good;
                    blocks_of = (fresh, inside);
                  },
                  rw top (omega (arith, unseen_less ir c.child st.visited blocks fresh c.is_new)),
                ))
      ]

  search-lem :
      (closed : IsClosed) (fuel : ℕ) (st : Search) (e : ℕ × List ℕ) (below : List (ℕ × List ℕ))
      → IsSound st
      → st.stack ≡ e ∷ below
      → measure st ≤ fuel
      → (es : List (ℕ × ℕ)) × (search ir fuel st ≡ done es) × All (IsBackedge ir) es
  unfolding search advance measure Moves
  search-lem closed zero st e below s top enough =
      let size : length st.stack ≡ suc (length below) = rw top refl in absurd (omega arith)
  search-lem closed (suc fuel) st (parent, bs) below s top enough =
      let next = move ir st parent below (next_child st.visited st.in_stack parent bs st.result) in
      let (sound, less) = move-IsSound closed st parent bs below s top in
      let moved : advance ir st st.stack ≡ done next = rw top refl in
      let onward : Search → Outcome (List (ℕ × ℕ)) = λ n.
        elim n.stack as (λ _. Outcome (List (ℕ × ℕ))) [
          | [] ↦ done n.result
          | _ ∷ _ ↦ search ir fuel n
        ] in
      let round = ap (λ m. m >>= onward) moved in
      elim (List-cases next.stack) [
        | inl empty ↦ (
          next.result,
          round ∙ pick_nil next.stack (done next.result) (search ir fuel next) empty,
          sound.good,
        )
        | inr (e, rest, more) ↦
            let (es, runs, good) = search-lem closed fuel next e rest sound more (omega arith) in
            (
              es,
              round
                  ∙ pick_cons next.stack (done next.result) (search ir fuel next) e rest more
                  ∙ runs,
              good,
            )
      ]

  start-lem :
      (closed : IsClosed) (fuel entry : ℕ)
      → Memᴰ entry blocks
      → 2 * length blocks < fuel
      → (es : List (ℕ × ℕ)) × (search ir fuel (start_search ir entry []) ≡ done es)
        × All (IsBackedge ir) es
  unfolding start_search measure PtrSet.contains
  start-lem closed fuel entry m enough =
      search-lem closed fuel (start_search ir entry []) (entry, ir.successors entry) []
        (record {
          chain = IsChain-one ir entry;
          on_stack = λ k h. Memᴰ.head (ground (arith, h));
          good = tt;
          blocks_of = (m, tt);
        })
        refl (omega (arith, unseen_at_most ir (entry ∷ []) blocks))

-- Where the successors of the blocks of a function are blocks of the function, FindFunctionBackedges
-- returns with more fuel than twice their number; each pair that it adds to the result is an edge of
-- the flow graph from whose target a path leads back to its source.
pub find_function_backedges_cycles :
    (ir : Ir) (fuel f entry : ℕ) (bs : List ℕ)
    → ir.blocks f ≡ entry ∷ bs
    → IsClosed ir (ir.blocks f)
    → 2 * length (ir.blocks f) < fuel
    → (es : List (ℕ × ℕ)) × (find_function_backedges ir fuel f [] ≡ done es)
      × All (IsBackedge ir) es
unfolding find_function_backedges find_from
find_function_backedges_cycles ir fuel f entry bs first closed enough =
    let here : Memᴰ entry (ir.blocks f) = rw first (Memᴰ.head refl) in
    let (es, runs, good) = start-lem ir (ir.blocks f) closed fuel entry here enough in
    let from : find_function_backedges ir fuel f [] ≡ find_from ir fuel [] (entry ∷ bs) =
      ap (λ l. find_from ir fuel [] l) first in
    let again = search ir fuel (start_search ir entry []) in
    elim (List-cases (ir.successors entry)) [
      | inl leaf ↦ ([], from ∙ pick_nil (ir.successors entry) (done []) again leaf, tt)
      | inr (d, ds, more) ↦
          (es, from ∙ pick_cons (ir.successors entry) (done []) again d ds more ∙ runs, good)
    ]
