-- ===== src/Program/Backedges/Cycles.antt =====
-- The search only reports edges that close a cycle, and it ends.
use mathlib.Core.List.{Memᴰ}
use mathlib.Core.List.Memᴰ
use dep_taint.Prelude.{
  ℕ, suc, ◌<◌, ◌≤◌, ◌≡◌, refl, subst, ◌⊎◌, inl, inr, true, false, not, Option, none, some, List, [],
  ◌∷◌, ◌++◌, arith, All, All-concat, length, keep_if, if◌then◌else◌, Bool-cases, map,
}
use dep_taint.Prelude.PtrSet
use dep_taint.Prelude.PtrSet.{PtrSet}
use dep_taint.Ir.{Ir}
use dep_taint.Program.Backedges.{next_child}

module _ (ir : Ir) where
  -- A path of the flow graph.
  pub data Walk (a : ℕ) : ℕ → Type 0 where
    stay : Walk a a
    onward : {b c : ℕ} → Walk a b → Memᴰ c (ir.successors b) → Walk a c

  -- The edge closes a cycle.
  pub record IsBackedge (e : ℕ × ℕ) : Type 0 where
    pub is_edge : Memᴰ e.1 (ir.successors e.0)
    pub back : Walk e.1 e.0

  -- An entry of the stack above others: its block is a successor of the block below.
  unfoldable pub IsChain : List (ℕ × List ℕ) → Type 0
  IsChain [] = Unit
  IsChain (e ∷ []) = All (λ c. Memᴰ c (ir.successors e.0)) e.1
  IsChain (e ∷ d ∷ rest) =
      All (λ c. Memᴰ c (ir.successors e.0)) e.1 × Memᴰ e.0 (ir.successors d.0) × IsChain (d ∷ rest)

  pub IsChain-tail : (e : ℕ × List ℕ) (rest : List (ℕ × List ℕ)) → IsChain (e ∷ rest) → IsChain rest
  unfolding IsChain
  IsChain-tail e [] h = tt
  IsChain-tail e (d ∷ rest) (r, m, h) = h

  pub IsChain-left :
      (e : ℕ × List ℕ) (rest : List (ℕ × List ℕ))
      → IsChain (e ∷ rest)
      → All (λ c. Memᴰ c (ir.successors e.0)) e.1
  unfolding IsChain
  IsChain-left e [] h = h
  IsChain-left e (d ∷ rest) (r, m, h) = r

  IsChain-fewer :
      (b : ℕ) (cs ds : List ℕ) (rest : List (ℕ × List ℕ))
      → IsChain ((b, cs) ∷ rest)
      → All (λ c. Memᴰ c (ir.successors b)) ds
      → IsChain ((b, ds) ∷ rest)
  unfolding IsChain
  IsChain-fewer b cs ds [] h k = k
  IsChain-fewer b cs ds (d ∷ rest) (r, m, h) k = (k, m, h)

  members_all : (bs cs : List ℕ) → ((c : ℕ) → Memᴰ c cs → Memᴰ c bs) → All (λ c. Memᴰ c bs) cs
  members_all bs [] h = tt
  members_all bs (c ∷ cs) h = (h c (Memᴰ.head refl), members_all bs cs (λ d m. h d (Memᴰ.tail m)))

  pub IsChain-push :
      (b parent : ℕ) (cs ds : List ℕ) (rest : List (ℕ × List ℕ))
      → IsChain ((parent, cs) ∷ rest)
      → All (λ c. Memᴰ c (ir.successors parent)) ds
      → Memᴰ b (ir.successors parent)
      → IsChain ((b, ir.successors b) ∷ (parent, ds) ∷ rest)
  unfolding IsChain
  IsChain-push b parent cs ds rest h k m = (
    members_all (ir.successors b) (ir.successors b) (λ c i. i),
    m,
    IsChain-fewer parent cs ds rest h k,
  )

  pub IsChain-one : (b : ℕ) → IsChain ((b, ir.successors b) ∷ [])
  unfolding IsChain
  IsChain-one b = members_all (ir.successors b) (ir.successors b) (λ c i. i)

  -- A block of the stack, with a path to its top.
  abbrev pub OnStack : ℕ → List (ℕ × List ℕ) → Type 0
  OnStack k st = Memᴰ k (map (λ e. e.0) st)

  pub Walk-to_top :
      (k : ℕ) (e : ℕ × List ℕ) (rest : List (ℕ × List ℕ))
      → IsChain (e ∷ rest)
      → OnStack k (e ∷ rest)
      → Walk k e.0
  unfolding IsChain
  Walk-to_top k e [] h m = elim (Memᴰ.cases_cons m) [
    | inl same ↦ subst (λ j. Walk k j) same Walk.stay
    | inr later ↦ absurd (Memᴰ.not-nil later)
  ]
  Walk-to_top k e (d ∷ rest) (left, edge, h) m = elim (Memᴰ.cases_cons m) [
    | inl same ↦ subst (λ j. Walk k j) same Walk.stay
    | inr later ↦ Walk.onward (Walk-to_top k d rest h later) edge
  ]

  -- A new successor that the inner loop stops at, with those that are left.
  pub record IsChild (visited : PtrSet) (parent : ℕ) (o : Option (ℕ × List ℕ)) : Type 0 where
    pub child : ℕ
    pub left : List ℕ
    pub found : o ≡ some (child, left)
    pub is_new : PtrSet.contains child visited ≡ false
    pub is_next : Memᴰ child (ir.successors parent)
    pub all_next : All (λ c. Memᴰ c (ir.successors parent)) left

  pub next_child-lem :
      (visited in_stack : PtrSet) (parent : ℕ) (bs : List ℕ) (edges : List (ℕ × ℕ))
      → ((c : ℕ) → PtrSet.contains c in_stack ≡ true → Walk c parent)
      → All (λ c. Memᴰ c (ir.successors parent)) bs
      → All IsBackedge edges
      → All IsBackedge (next_child visited in_stack parent bs edges).1
        × (((next_child visited in_stack parent bs edges).0 ≡ none)
            ⊎ IsChild visited parent (next_child visited in_stack parent bs edges).0)
  unfolding next_child
  next_child-lem visited in_stack parent [] edges walks next good = (good, inl refl)
  next_child-lem visited in_stack parent (b ∷ bs) edges walks (here, next) good =
      elim (Bool-cases (PtrSet.contains b visited)) [
        | inl old ↦
            let reported =
              if PtrSet.contains b in_stack then edges ++ (parent, b) ∷ [] else edges in
            let fine : All IsBackedge reported = elim (Bool-cases (PtrSet.contains b in_stack)) [
              | inl up ↦ rw up (
                  All-concat IsBackedge edges (parent, b) good
                    (record { is_edge = here; back = walks b up }))
              | inr aside ↦ rw aside good
            ] in
            rw old (next_child-lem visited in_stack parent bs reported walks next fine)
        | inr new ↦ rw new (
          good,
          inr (record {
            child = b;
            left = bs;
            found = refl;
            is_new = new;
            is_next = here;
            all_next = next;
          }),
        )
      ]

  -- The blocks that the search has not come to.
  unfoldable pub unseen : PtrSet → List ℕ → ℕ
  unfolding keep_if
  unseen visited bs = length (keep_if (λ b. not (PtrSet.contains b visited)) bs)

  unseen-cons :
      (visited : PtrSet) (b : ℕ) (bs : List ℕ)
      → unseen visited (b ∷ bs)
        ≡ (if PtrSet.contains b visited then unseen visited bs else suc (unseen visited bs))
  unfolding unseen
  unseen-cons visited b bs = elim (Bool-cases (PtrSet.contains b visited)) [
    | inl old ↦ rw old refl
    | inr new ↦ rw new refl
  ]

  unseen_mono :
      (v : ℕ) (visited : PtrSet) (bs : List ℕ)
      → unseen (PtrSet.insert v visited) bs ≤ unseen visited bs
  unfolding unseen
  unseen_mono v visited [] = omega arith
  unseen_mono v visited (b ∷ bs) = ground (
    arith,
    unseen_mono v visited bs,
    unseen-cons visited b bs,
    unseen-cons (PtrSet.insert v visited) b bs,
    PtrSet.contains-insert v b visited,
  )

  pub unseen_less :
      (v : ℕ) (visited : PtrSet) (bs : List ℕ)
      → Memᴰ v bs
      → PtrSet.contains v visited ≡ false
      → unseen (PtrSet.insert v visited) bs < unseen visited bs
  unseen_less v visited [] m new = absurd (Memᴰ.not-nil m)
  unseen_less v visited (b ∷ bs) m new = elim (Memᴰ.cases_cons m) [
    | inl e ↦
        let now : PtrSet.contains b (PtrSet.insert v visited) ≡ true =
          ground (arith, PtrSet.contains-insert v b visited, e) in
        let then_new : PtrSet.contains b visited ≡ false = rw e at new in
        ground (
          arith,
          unseen_mono v visited bs,
          unseen-cons visited b bs,
          unseen-cons (PtrSet.insert v visited) b bs,
          now,
          then_new,
        )
    | inr later ↦ ground (
      arith,
      unseen_less v visited bs later new,
      unseen-cons visited b bs,
      unseen-cons (PtrSet.insert v visited) b bs,
      PtrSet.contains-insert v b visited,
    )
  ]

  pub unseen_at_most : (visited : PtrSet) (bs : List ℕ) → unseen visited bs ≤ length bs
  unfolding unseen
  unseen_at_most visited [] = omega arith
  unseen_at_most visited (b ∷ bs) =
      ground (arith, unseen_at_most visited bs, unseen-cons visited b bs)
