-- ===== src/Data/Edges.antt =====
-- The edges of the data dependency graph.
use mathlib.Core.List.{Memᴰ}
use mathlib.Core.List.Memᴰ
use dep_taint.Prelude.{
  ℕ, ◌≡◌, ◌≢◌, refl, ◌∙◌, ◌⊎◌, inl, inr, ◌↔◌, true, some, List, [], ◌∷◌, arith, if◌then◌else◌,
  Bool-cases,
}
use dep_taint.Prelude.PtrMap
use dep_taint.Prelude.PtrMap.{PtrMap}
use dep_taint.Ir.{Ir, is_load}
use dep_taint.Graph.{get_node_by_data}
use dep_taint.Graph.Valid.{IsValid, add_dependency-IsValid, get_node_by_data-IsValid}
use dep_taint.Graph.Edges.{has_edge, related-get_node_by_data}
use dep_taint.Graph.Queries.{has_edge-add_dependency}
use dep_taint.Wrapper.{Statics, inst_wrapper}
use dep_taint.Wrapper.Laws.{wrapper_of, inst_wrapper-eq, wrapper_of-inst_wrapper}
use dep_taint.Data.{
  Alias, DataState, max_loc_num, get_dependency_in_function, nearest_store, connect, pick,
  visit_load, def_use, visit,
}

pub record IsInv (w : ℕ → ℕ) (d : DataState) : Type 0 where
  pub valid : IsValid d.graph
  pub known : (j : ℕ) → wrapper_of d.statics j ≡ w j

-- From `d` to `e` the graph grows by the edges of `P`, and only instruction `i` has its entry of
-- loadLocMap changed.
pub record Grows (w : ℕ → ℕ) (i : ℕ) (P : ℕ → ℕ → ℕ → Type 0) (d e : DataState) : Type 0 where
  pub inv : IsInv w e
  pub exact :
      (x y t : ℕ) → (has_edge e.graph x y t ≡ true) ↔ ((has_edge d.graph x y t ≡ true) ⊎ P x y t)
  pub locs : (j : ℕ) → i ≢ j → PtrMap.lookup j e.load_loc ≡ PtrMap.lookup j d.load_loc

Grows-trans :
    (w : ℕ → ℕ) (i : ℕ) (P Q : ℕ → ℕ → ℕ → Type 0) (d e f : DataState)
    → Grows w i P d e
    → Grows w i Q e f
    → Grows w i (λ x y t. P x y t ⊎ Q x y t) d f
Grows-trans w i P Q d e f g h = record {
  inv = h.inv;
  exact = λ x y t. ground (arith, g.exact x y t, h.exact x y t);
  locs = λ j ne. h.locs j ne ∙ g.locs j ne;
}

module _ (w : ℕ → ℕ) where
  connect-Grows :
      (d : DataState) (i a b type : ℕ)
      → IsInv w d
      → Grows w i (λ x y t. (x ≡ w a) × (y ≡ w b) × (t ≡ type)) d (connect d a b type)
  unfolding connect
  connect-Grows d i a b type v = record {
    inv = record {
      valid = add_dependency-IsValid d.graph _ _ type v.valid;
      known =
          λ j. wrapper_of-inst_wrapper s1 b j ∙ wrapper_of-inst_wrapper d.statics a j ∙ v.known j;
    };
    exact = λ x y t. ground (
      arith,
      has_edge-add_dependency d.graph (inst_wrapper d.statics a).1 (inst_wrapper s1 b).1 type x y t
          v.valid,
      inst_wrapper-eq d.statics a ∙ v.known a,
      inst_wrapper-eq s1 b ∙ wrapper_of-inst_wrapper d.statics a b ∙ v.known b,
    );
    locs = λ j ne. refl;
  }
    where
      s1 : Statics
      s1 = (inst_wrapper d.statics a).0

  skip-Grows :
      (i : ℕ) (P : ℕ → ℕ → ℕ → Type 0) (d : DataState)
      → IsInv w d
      → ((x y t : ℕ) → ¬ P x y t)
      → Grows w i P d d
  skip-Grows i P d v refuse = record {
    inv = v;
    exact = λ x y t. (inl, λ e. elim e [ inl old ↦ old | inr p ↦ absurd (refuse x y t p) ]);
    locs = λ j ne. refl;
  }

  Grows-iff :
      (i : ℕ) (P Q : ℕ → ℕ → ℕ → Type 0) (d e : DataState)
      → ((x y t : ℕ) → P x y t ↔ Q x y t)
      → Grows w i P d e
      → Grows w i Q d e
  Grows-iff i P Q d e same g = record {
    inv = g.inv;
    exact = λ x y t. ground (arith, g.exact x y t, same x y t);
    locs = g.locs;
  }

  module _ (ir : Ir) where
    -- The edge from the definition of `v` to its user.
    abbrev pub Uses : ℕ → ℕ → ℕ → ℕ → ℕ → Type 0
    Uses user v x y t = (ir.is_instruction v ≡ true) × (x ≡ w v) × (y ≡ w user) × (t ≡ 3)

    -- The edges from the definitions of a list of operands to their user.
    abbrev pub DefUse : ℕ → List ℕ → ℕ → ℕ → ℕ → Type 0
    DefUse user vs x y t = (v : ℕ) × Memᴰ v vs × Uses user v x y t

    DefUse-cons :
        (user v : ℕ) (vs : List ℕ) (x y t : ℕ)
        → (Uses user v x y t ⊎ DefUse user vs x y t) ↔ DefUse user (v ∷ vs) x y t
    DefUse-cons user v vs x y t = (
      λ c. elim c [ inl e ↦ (v, Memᴰ.head refl, e) | inr (u, m, e) ↦ (u, Memᴰ.tail m, e) ],
      λ (u, m, e). elim (Memᴰ.cases_cons m) [
        | inl same ↦ inl (rw (← same) e)
        | inr later ↦ inr (u, later, e)
      ],
    )

    use_one :
        (d : DataState) (user v : ℕ)
        → IsInv w d
        → Grows w user (Uses user v) d (if ir.is_instruction v then connect d v user 3 else d)
    use_one d user v h = elim (Bool-cases (ir.is_instruction v)) [
      | inl register ↦ rw register (
          Grows-iff user _ _ d (connect d v user 3)
            (λ x y t. (λ e. (register, e.0, e.1, e.2), λ e. (e.1, e.2, e.3)))
            (connect-Grows d user v user 3 h))
      | inr constant ↦ rw constant (skip-Grows user _ d h (λ x y t e. cc))
    ]

    def_use-Grows :
        (d : DataState) (user : ℕ) (vs : List ℕ)
        → IsInv w d
        → Grows w user (DefUse user vs) d (def_use ir d user vs)
    unfolding def_use
    def_use-Grows d user [] h = skip-Grows user _ d h (λ x y t e. Memᴰ.not-nil e.1)
    def_use-Grows d user (v ∷ vs) h =
        let first = use_one d user v h in
        Grows-iff user _ _ d _ (DefUse-cons user v vs) (
          Grows-trans w user _ _ d _ _ first (
            def_use-Grows (if ir.is_instruction v then connect d v user 3 else d) user vs
              first.inv))

    module _ (alias : Alias) (f : ℕ) where
      -- The store that the pass picks for a load, or null.
      pub candidate : ℕ → ℕ
      candidate load =
          (nearest_store ir load max_loc_num 0 (get_dependency_in_function ir alias f load)).1

      abbrev pub Raw : ℕ → ℕ → ℕ → ℕ → Type 0
      Raw load x y t =
          (is_load (ir.opcode load) ≡ true) × (x ≡ w (candidate load)) × (y ≡ w load) × (t ≡ 4)

      abbrev pub IsReady : DataState → ℕ → Type 0
      IsReady d i = is_load (ir.opcode i) ≡ true → PtrMap.lookup i d.load_loc ≡ some max_loc_num

      pick-IsReady :
          (d : DataState) (load : ℕ)
          → PtrMap.lookup load d.load_loc ≡ some max_loc_num
          → (pick ir alias f d load).1 ≡ candidate load
      unfolding pick candidate PtrMap.get_or
      pick-IsReady d load h = rw (h, PtrMap.get_or) refl

      visit_load-Grows :
          (d : DataState) (load : ℕ)
          → is_load (ir.opcode load) ≡ true
          → IsInv w d
          → IsReady d load
          → Grows w load (Raw load) d (visit_load ir alias f d load)
      unfolding visit_load
      visit_load-Grows d load is h ready = record {
        inv = c.inv;
        exact = λ x y t. ground (arith, c.exact x y t, pick-IsReady d load (ready is));
        locs = λ j ne.
            ground (arith, PtrMap.lookup-insert load j (pick ir alias f d load).0 d.load_loc);
      }
        where
          marked : DataState
          marked = record d { load_loc = PtrMap.insert load (pick ir alias f d load).0 d.load_loc }

          c :
              Grows w load
                (λ x y t. (x ≡ w (pick ir alias f d load).1) × (y ≡ w load) × (t ≡ 4))
                marked
                (connect marked (pick ir alias f d load).1 load 4)
          c =
              connect-Grows marked load (pick ir alias f d load).1 load 4
                (record { valid = h.valid; known = h.known })

      -- The edges that one instruction brings.
      abbrev pub Brings : ℕ → ℕ → ℕ → ℕ → Type 0
      Brings i x y t = Raw i x y t ⊎ DefUse i (ir.operands i) x y t

      touch : DataState → ℕ → DataState
      touch d i = record d {
        statics = (inst_wrapper d.statics i).0;
        graph = (get_node_by_data d.graph (inst_wrapper d.statics i).1).0;
      }

      touch-IsInv : (d : DataState) (i : ℕ) → IsInv w d → IsInv w (touch d i)
      unfolding touch
      touch-IsInv d i h = record {
        valid = get_node_by_data-IsValid d.graph h.valid (inst_wrapper d.statics i).1;
        known = λ j. wrapper_of-inst_wrapper d.statics i j ∙ h.known j;
      }

      touch_edges :
          (d : DataState) (i x y t : ℕ)
          → IsValid d.graph
          → has_edge (touch d i).graph x y t ≡ has_edge d.graph x y t
      unfolding touch has_edge
      touch_edges d i x y t v =
          related-get_node_by_data d.graph _ (inst_wrapper d.statics i).1 x y v

      load_step :
          (d : DataState) (i : ℕ)
          → IsInv w d
          → IsReady d i
          → Grows w i (Raw i) d (if is_load (ir.opcode i) then visit_load ir alias f d i else d)
      load_step d i h ready = elim (Bool-cases (is_load (ir.opcode i))) [
        | inl load ↦ rw load (visit_load-Grows d i load h ready)
        | inr other ↦ rw other (skip-Grows i (Raw i) d h (λ x y t e. cc))
      ]

      pub visit-Grows :
          (d : DataState) (i : ℕ)
          → IsInv w d
          → IsReady d i
          → Grows w i (Brings i) d (visit ir alias f d i)
      unfolding visit touch
      visit-Grows d i h ready = record {
        inv = g.inv;
        exact = λ x y t. ground (arith, g.exact x y t, same x y t);
        locs = g.locs;
      }
        where
          first :
              Grows w i
                (Raw i)
                (touch d i)
                (if is_load (ir.opcode i) then visit_load ir alias f (touch d i) i else touch d i)
          first = load_step (touch d i) i (touch-IsInv d i h) ready

          g : Grows w i (Brings i) (touch d i) (visit ir alias f d i)
          g =
              Grows-trans w i (Raw i) _ (touch d i) _ _ first
                (def_use-Grows _ i (ir.operands i) first.inv)

          same : (x y t : ℕ) → has_edge (touch d i).graph x y t ≡ has_edge d.graph x y t
          same x y t = touch_edges d i x y t h.valid
