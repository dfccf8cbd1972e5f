-- ===== src/Control/Edges.antt =====
-- The edges of the flow graph that computeDependencies looks at: those of its edge set, the pairs of
-- a block and a successor that does not post-dominate it.
use mathlib.Core.List.{Memᴰ}
use mathlib.Core.List.Memᴰ
use dep_taint.Prelude.{
  ℕ, ◌≡◌, refl, ◌⊎◌, inl, inr, ◌↔◌, false, List, [], ◌∷◌, ◌++◌, arith, All, Bool-cases,
}
use dep_taint.Ir.{Ir}
use dep_taint.Wrapper.{Statics}
use dep_taint.Control.{Pdt, block_edges, edge_set}
use dep_taint.Control.Paths.{IsTree, AreMapped}
use dep_taint.Control.Branches.{ByEdge, BySome}

module _ (ir : Ir) (pdt : Pdt) (s : Statics) (mapped : AreMapped ir pdt s) (tree : IsTree pdt) where
  -- `y` depends on `x`, the terminator of a block of the list, by an edge whose target does not
  -- post-dominate its source.
  pub record Branching (bs : List ℕ) (x y : ℕ) : Type 0 where
    pub from : ℕ
    pub to : ℕ
    pub listed : Memᴰ from bs
    pub is_edge : Memᴰ to (ir.successors from)
    pub leaves : pdt.dominates to from ≡ false
    pub controls : ByEdge ir pdt s mapped tree (from, to) x y

  record Leaving (a : ℕ) (ts : List ℕ) (x y : ℕ) : Type 0 where
    to : ℕ
    is_edge : Memᴰ to ts
    leaves : pdt.dominates to a ≡ false
    controls : ByEdge ir pdt s mapped tree (a, to) x y

  BySome-append :
      (es fs : List (ℕ × ℕ)) (x y : ℕ)
      → BySome ir pdt s mapped tree (es ++ fs) x y
        ↔ (BySome ir pdt s mapped tree es x y ⊎ BySome ir pdt s mapped tree fs x y)
  BySome-append [] fs x y = (inr, λ e. elim e [ inl c ↦ absurd c | inr c ↦ c ])
  BySome-append (e ∷ es) fs x y = ground (arith, BySome-append es fs x y)

  Leaving-later : (a t : ℕ) (ts : List ℕ) (x y : ℕ) → Leaving a ts x y → Leaving a (t ∷ ts) x y
  Leaving-later a t ts x y l = record {
    to = l.to;
    is_edge = Memᴰ.tail l.is_edge;
    leaves = l.leaves;
    controls = l.controls;
  }

  block_edges_cases :
      (a t : ℕ) (ts : List ℕ) (x y : ℕ)
      → BySome ir pdt s mapped tree (block_edges ir pdt a ts) x y ↔ Leaving a ts x y
      → BySome ir pdt s mapped tree (block_edges ir pdt a (t ∷ ts)) x y ↔ Leaving a (t ∷ ts) x y
  unfolding block_edges
  block_edges_cases a t ts x y ih = elim (Bool-cases (pdt.dominates t a)) [
    | inl dominated ↦ rw dominated (
      λ c. Leaving-later a t ts x y (ih.0 c),
      λ l. elim (Memᴰ.cases_cons l.is_edge) [
        | inl e ↦ let leaves : pdt.dominates t a ≡ false = rw (← e) l.leaves in cc
        | inr rest ↦
            ih.1 (record { to = l.to; is_edge = rest; leaves = l.leaves; controls = l.controls })
      ],
    )
    | inr leaving ↦ rw leaving (
      λ c. elim c [
        | inl now ↦ record { to = t; is_edge = Memᴰ.head refl; leaves = leaving; controls = now }
        | inr rest ↦ Leaving-later a t ts x y (ih.0 rest)
      ],
      λ l. elim (Memᴰ.cases_cons l.is_edge) [
        | inl e ↦ inl (rw (← e) l.controls)
        | inr rest ↦
            inr (
              ih.1 (record { to = l.to; is_edge = rest; leaves = l.leaves; controls = l.controls }))
      ],
    )
  ]

  BySome-block_edges :
      (a : ℕ) (ts : List ℕ) (x y : ℕ)
      → BySome ir pdt s mapped tree (block_edges ir pdt a ts) x y ↔ Leaving a ts x y
  unfolding block_edges
  BySome-block_edges a [] x y = (λ c. absurd c, λ l. absurd (Memᴰ.not-nil l.is_edge))
  BySome-block_edges a (t ∷ ts) x y = block_edges_cases a t ts x y (BySome-block_edges a ts x y)

  pub BySome-edge_set :
      (bs : List ℕ) (x y : ℕ)
      → BySome ir pdt s mapped tree (edge_set ir pdt bs) x y ↔ Branching bs x y
  unfolding edge_set
  BySome-edge_set [] x y = (λ c. absurd c, λ l. absurd (Memᴰ.not-nil l.listed))
  BySome-edge_set (b ∷ bs) x y = (
    λ c. elim ((BySome-append (block_edges ir pdt b (ir.successors b)) _ x y).0 c) [
      | inl now ↦
          let l = (BySome-block_edges b (ir.successors b) x y).0 now in
          record {
            from = b;
            to = l.to;
            listed = Memᴰ.head refl;
            is_edge = l.is_edge;
            leaves = l.leaves;
            controls = l.controls;
          }
      | inr rest ↦
          let l = (BySome-edge_set bs x y).0 rest in
          record {
            from = l.from;
            to = l.to;
            listed = Memᴰ.tail l.listed;
            is_edge = l.is_edge;
            leaves = l.leaves;
            controls = l.controls;
          }
    ],
    λ l.
        (BySome-append (block_edges ir pdt b (ir.successors b)) _ x y).1
          (elim (Memᴰ.cases_cons l.listed) [
            | inl e ↦ inl (
                (BySome-block_edges b (ir.successors b) x y).1 (record {
                  to = l.to;
                  is_edge = rw e at l.is_edge;
                  leaves = rw e at l.leaves;
                  controls = rw e at l.controls;
                }))
            | inr rest ↦ inr (
                (BySome-edge_set bs x y).1 (record {
                  from = l.from;
                  to = l.to;
                  listed = rest;
                  is_edge = l.is_edge;
                  leaves = l.leaves;
                  controls = l.controls;
                }))
          ]),
  )

  All-block_edges :
      (P : ℕ × ℕ → Type 0) (a : ℕ) (ts : List ℕ)
      → ((t : ℕ) → Memᴰ t ts → pdt.dominates t a ≡ false → P (a, t))
      → All P (block_edges ir pdt a ts)
  unfolding block_edges
  All-block_edges P a [] h = tt
  All-block_edges P a (t ∷ ts) h =
      let rest = All-block_edges P a ts (λ u m. h u (Memᴰ.tail m)) in
      elim (Bool-cases (pdt.dominates t a)) [
        | inl dominated ↦ rw dominated rest
        | inr leaving ↦ rw leaving (h t (Memᴰ.head refl) leaving, rest)
      ]

  All-append {ℓ} :
      {A : Type 0} (P : A → Type ℓ) (xs ys : List A) → All P xs → All P ys → All P (xs ++ ys)
  All-append P [] ys hx hy = hy
  All-append P (x ∷ xs) ys hx hy = (hx.0, All-append P xs ys hx.1 hy)

  pub All-edge_set :
      (P : ℕ × ℕ → Type 0) (bs : List ℕ)
      → ((a t : ℕ) → Memᴰ a bs → Memᴰ t (ir.successors a) → pdt.dominates t a ≡ false → P (a, t))
      → All P (edge_set ir pdt bs)
  unfolding edge_set
  All-edge_set P [] h = tt
  All-edge_set P (b ∷ bs) h =
      All-append P (block_edges ir pdt b (ir.successors b)) (edge_set ir pdt bs)
        (All-block_edges P b (ir.successors b) (λ t m d. h b t (Memᴰ.head refl) m d))
        (All-edge_set P bs (λ a t m. h a t (Memᴰ.tail m)))
