-- ===== src/Data/Correct.antt =====
-- The whole pass on a function.
use mathlib.Core.List.{Memᴰ}
use mathlib.Core.List.Memᴰ
use dep_taint.Prelude.{
  ℕ, ◌≡◌, ◌≢◌, refl, ◌∙◌, ◌⊎◌, inl, inr, ◌↔◌, true, some, List, [], ◌∷◌, arith, All, if◌then◌else◌,
}
use dep_taint.Prelude.PtrMap
use dep_taint.Prelude.PtrMap.{PtrMap}
use dep_taint.Prelude.Int.{ℤ}
use dep_taint.Ir.{Ir, is_load, instructions}
use dep_taint.Graph.Valid.{IsValid}
use dep_taint.Graph.Edges.{has_edge}
use dep_taint.Wrapper.{construct_inst_map}
use dep_taint.Wrapper.Laws.{wrapper_of}
use dep_taint.Data.{Alias, DataState, max_loc_num, init_load_loc, visit, visit_all, run_on_function}
use dep_taint.Data.Edges.{IsInv, Brings, IsReady, visit-Grows}

-- No instruction stands twice in the list.
abbrev pub Distinct : List ℕ → Type 0
Distinct [] = Unit
Distinct (i ∷ is) = All (λ j. i ≢ j) is × Distinct is

module _ (w : ℕ → ℕ) (ir : Ir) (alias : Alias) (f : ℕ) where
  -- Some instruction of the list brings the edge.
  abbrev pub BroughtBy : List ℕ → ℕ → ℕ → ℕ → Type 0
  BroughtBy is x y t = (i : ℕ) × Memᴰ i is × Brings w ir alias f i x y t

  BroughtBy-cons :
      (i : ℕ) (is : List ℕ) (x y t : ℕ)
      → (Brings w ir alias f i x y t ⊎ BroughtBy is x y t) ↔ BroughtBy (i ∷ is) x y t
  BroughtBy-cons i is x y t = (
    λ c. elim c [ inl e ↦ (i, Memᴰ.head refl, e) | inr (j, m, e) ↦ (j, Memᴰ.tail m, e) ],
    λ (j, m, e). elim (Memᴰ.cases_cons m) [
      | inl same ↦ inl (rw (← same) e)
      | inr later ↦ inr (j, later, e)
    ],
  )

  still-IsReady :
      (i : ℕ) (is : List ℕ) (d e : DataState)
      → ((j : ℕ) → i ≢ j → PtrMap.lookup j e.load_loc ≡ PtrMap.lookup j d.load_loc)
      → All (λ j. i ≢ j) is
      → All (IsReady w ir alias f d) is
      → All (IsReady w ir alias f e) is
  still-IsReady i [] d e locs ne ready = tt
  still-IsReady i (j ∷ is) d e locs ne ready =
      (λ load. locs j ne.0 ∙ ready.0 load, still-IsReady i is d e locs ne.1 ready.1)

  visit_all_lem :
      (d : DataState) (is : List ℕ)
      → IsInv w d
      → Distinct is
      → All (IsReady w ir alias f d) is
      → IsInv w (visit_all ir alias f d is)
        × ((x y t : ℕ)
            → (has_edge (visit_all ir alias f d is).graph x y t ≡ true)
              ↔ ((has_edge d.graph x y t ≡ true) ⊎ BroughtBy is x y t))
  unfolding visit_all
  visit_all_lem d [] h distinct ready =
      (h, λ x y t. (inl, λ e. elim e [ inl old ↦ old | inr c ↦ absurd (Memᴰ.not-nil c.1) ]))
  visit_all_lem d (i ∷ is) h distinct ready =
      let g = visit-Grows w ir alias f d i h ready.0 in
      let d1 = visit ir alias f d i in
      let (inv, rest) =
        visit_all_lem d1 is g.inv distinct.1 (still-IsReady i is d d1 g.locs distinct.0 ready.1) in
      (inv, λ x y t. ground (arith, g.exact x y t, rest x y t, BroughtBy-cons i is x y t))

module _ (ir : Ir) where
  init_load_loc-keeps :
      (m : PtrMap ℤ) (is : List ℕ) (i : ℕ)
      → PtrMap.lookup i m ≡ some max_loc_num
      → PtrMap.lookup i (init_load_loc ir m is) ≡ some max_loc_num
  unfolding init_load_loc
  init_load_loc-keeps m [] i h = h
  init_load_loc-keeps m (j ∷ is) i h =
      init_load_loc-keeps (if is_load (ir.opcode j) then PtrMap.insert j max_loc_num m else m) is i
        (ground (arith, PtrMap.lookup-insert j i max_loc_num m))

  init_load_loc-All :
      (m : PtrMap ℤ) (is : List ℕ)
      → All
          (λ i.
            is_load (ir.opcode i) ≡ true
            → PtrMap.lookup i (init_load_loc ir m is) ≡ some max_loc_num)
          is
  unfolding init_load_loc
  init_load_loc-All m [] = tt
  init_load_loc-All m (i ∷ is) = (
    λ load.
        init_load_loc-keeps (if is_load (ir.opcode i) then PtrMap.insert i max_loc_num m else m) is
          i (rw load (PtrMap.lookup-insert_self i max_loc_num m)),
    init_load_loc-All (if is_load (ir.opcode i) then PtrMap.insert i max_loc_num m else m) is,
  )

-- The pass adds to a valid graph exactly these edges: for each load a DATA_RAW edge from the store
-- that it picks, or from the null wrapper where it picks none, and for each operand that is an
-- instruction a DATA_DEF_USE edge from it to its user.
pub run_on_function_edges :
    (addr : ℕ → ℕ) (ir : Ir) (alias : Alias) (d : DataState) (f x y t : ℕ)
    → IsValid d.graph
    → Distinct (instructions ir f)
    → (has_edge (run_on_function ir addr alias d f).graph x y t ≡ true) ↔ (
        (has_edge d.graph x y t ≡ true)
        ⊎ BroughtBy
            (wrapper_of (construct_inst_map addr ir d.statics f))
            ir
            alias
            f
            (instructions ir f)
            x
            y
            t)
unfolding run_on_function
run_on_function_edges addr ir alias d f x y t v distinct =
    (visit_all_lem (wrapper_of (construct_inst_map addr ir d.statics f)) ir alias f
        (record d {
          statics = construct_inst_map addr ir d.statics f;
          load_loc = init_load_loc ir d.load_loc (instructions ir f);
        })
        (instructions ir f) (record { valid = v; known = λ j. refl }) distinct
        (init_load_loc-All ir d.load_loc (instructions ir f))).1
      x y t
