-- ===== src/FlowDependence/Across/Rounds.antt =====
-- One round of the loop over blocks, from an empty cache.
use mathlib.Core.List.{Memᴰ}
use mathlib.Core.List.Memᴰ
use dep_taint.Prelude.{
  ℕ, ◌≡◌, refl, sym, ap, ◌∙◌, subst, ◌⊎◌, inl, inr, Bool, true, false, ◌&&◌, ◌||◌, not, none, List,
  [], ◌∷◌, ◌++◌, arith, ◌==◌, if_false, All, All-concat, All-mono, any, any-concat,
}
use dep_taint.Prelude.Outcome.{done}
use dep_taint.Prelude.PtrMap.{PtrMap}
use dep_taint.Prelude.PtrSet
use dep_taint.Prelude.PtrSet.{PtrSet}
use dep_taint.Ir.{Ir}
use dep_taint.FlowDepResult.{FlowDepResult, get_inst, is_non_local}
use dep_taint.FlowDependence.{Llvm}
use dep_taint.FlowDependence.Cache.Synced.{in_reverse}
use dep_taint.FlowDependence.Forget.{Entry}
use dep_taint.FlowDependence.Order.{upper_bound}
use dep_taint.FlowDependence.Order.Single.{has_block, IsSingle, has_block-concat, IsSingle-concat}
use dep_taint.FlowDependence.Across.{
  Walk, end_position, find_entry, existing_at, is_clean, set_result, start_of, block_dependency,
  associate, visit_block, walk_step,
}

module _ (ir : Ir) (llvm : Llvm) (preds : ℕ → List ℕ) (query : ℕ) where
  -- What the scan of a whole block answers.
  abbrev pub Scanned : ℕ → FlowDepResult → Type 0
  Scanned b r = block_dependency ir llvm preds query b end_position ≡ done r

  -- The blocks from which the query's block is reached through blocks without a dependence.
  pub data Reach : ℕ → Type 0 where
    first : {b : ℕ} → Memᴰ b (preds (ir.block_of query)) → Reach b
    further :
        {b p : ℕ} {r : FlowDepResult}
        → Reach b
        → Scanned b r
        → is_non_local r ≡ true
        → Memᴰ p (preds b)
        → Reach p

  -- Visited, or on the stack.
  abbrev pub Covered : Walk → ℕ → Type 0
  Covered w p = (PtrSet.contains p w.visited ≡ true) ⊎ Memᴰ p w.dirty_blocks

  abbrev pub CoversAll : Walk → List ℕ → Type 0
  CoversAll w bs = (p : ℕ) → Memᴰ p bs → Covered w p

  -- Whether an entry is to be in the reverse map under an instruction.
  unfoldable pub depends_on : ℕ → Entry → Bool
  unfolding is_non_local get_inst
  depends_on i e = not (is_non_local e.1) && not (get_inst e.1 == 0) && get_inst e.1 == i

  pub record IsFresh (reverse : PtrMap PtrSet) (w : Walk) : Type 0 where
    pub sound : All (λ e. Reach e.0 × Scanned e.0 e.1) w.cache
    pub stack : All Reach w.dirty_blocks
    pub marked : (b : ℕ) → PtrSet.contains b w.visited ≡ has_block b w.cache
    pub closed : All (λ e. is_non_local e.1 ≡ true → CoversAll w (preds e.0)) w.cache
    pub seeded : CoversAll w (preds (ir.block_of query))
    pub single : IsSingle w.cache
    pub linked :
        (i k : ℕ)
        → in_reverse w.reverse i k
          ≡ ((query == k && any (depends_on i) w.cache) || in_reverse reverse i k)

  find_entry-zero : (cache : List Entry) (b : ℕ) → find_entry cache 0 b ≡ none
  unfolding find_entry upper_bound
  find_entry-zero [] b = refl
  find_entry-zero (e ∷ es) b = refl

  -- The state after a block without an entry is scanned.
  abbrev pub scanned : ℕ → FlowDepResult → Walk → Walk
  scanned b r w =
      associate ir llvm preds query b r
        (record w { visited = PtrSet.insert b w.visited; cache = w.cache ++ (b, r) ∷ [] })

  pub walk_step-new :
      (b : ℕ) (r : FlowDepResult) (w : Walk)
      → PtrSet.contains b w.visited ≡ false
      → Scanned b r
      → walk_step ir llvm preds query 0 b w ≡ done (scanned b r w)
  unfolding walk_step visit_block start_of is_clean set_result existing_at
  walk_step-new b r w new scan =
      if_false _ _ _ new
      ∙ ap
          (λ o.
            visit_block ir llvm preds query b (existing_at w.cache o)
              (record w { visited = PtrSet.insert b w.visited }))
          (find_entry-zero w.cache b)
      ∙ rw scan refl

  moved :
      (reverse : PtrMap PtrSet) (w v : Walk)
      → ((p : ℕ) → Covered w p → Covered v p)
      → All (λ e. is_non_local e.1 ≡ true → CoversAll w (preds e.0)) w.cache
      → All (λ e. is_non_local e.1 ≡ true → CoversAll v (preds e.0)) w.cache
  moved reverse w v move closed =
      All-mono _ _ (λ e h open_block p m. move p (h open_block p m)) w.cache closed

  -- The block on top is visited already.
  pub round_visited :
      (reverse : PtrMap PtrSet) (w : Walk) (b : ℕ) (rest : List ℕ)
      → w.dirty_blocks ≡ b ∷ rest
      → PtrSet.contains b w.visited ≡ true
      → IsFresh reverse w
      → IsFresh reverse (record w { dirty_blocks = rest })
  round_visited reverse w b rest top seen f =
      let v = record w { dirty_blocks = rest } in
      let move : (p : ℕ) → Covered w p → Covered v p = λ p c. elim c [
        | inl visited ↦ inl visited
        | inr m ↦ elim (Memᴰ.cases_cons (subst (λ l. Memᴰ p l) top m)) [
          | inl e ↦ inl (subst (λ k. PtrSet.contains k w.visited ≡ true) (sym e) seen)
          | inr later ↦ inr later
        ]
      ] in
      record {
        sound = f.sound;
        stack = (subst (All Reach) top f.stack).1;
        marked = f.marked;
        closed = moved reverse w v move f.closed;
        seeded = λ p m. move p (f.seeded p m);
        single = f.single;
        linked = f.linked;
      }

  module _ (reverse : PtrMap PtrSet) (w : Walk) (b : ℕ) (rest : List ℕ) (r : FlowDepResult)
      (top : w.dirty_blocks ≡ b ∷ rest) (new : PtrSet.contains b w.visited ≡ false)
      (scan : Scanned b r) (f : IsFresh reverse w) where
    -- The state with a stack and a reverse map after the block.
    abbrev pub left : List ℕ → PtrMap PtrSet → Walk
    left stack back = record {
      dirty_blocks = stack;
      visited = PtrSet.insert b w.visited;
      cache = w.cache ++ (b, r) ∷ [];
      reverse = back;
    }

    pub left-IsFresh :
        (stack : List ℕ) (back : PtrMap PtrSet)
        → ((p : ℕ) → Memᴰ p rest → Memᴰ p stack)
        → All Reach stack
        → (is_non_local r ≡ true → (p : ℕ) → Memᴰ p (preds b) → Memᴰ p stack)
        → ((i k : ℕ)
            → in_reverse back i k
              ≡ ((query == k && depends_on i (b, r)) || in_reverse w.reverse i k))
        → IsFresh reverse (left stack back)
    left-IsFresh stack back keeps reached pushes linked' =
        let v = left stack back in
        let old : (p : ℕ)
            → PtrSet.contains p w.visited ≡ true
            → PtrSet.contains p v.visited ≡ true =
          λ p h. ground (arith, h, PtrSet.contains-insert b p w.visited) in
        let here : PtrSet.contains b v.visited ≡ true =
          ground (arith, PtrSet.contains-insert b b w.visited) in
        let move : (p : ℕ) → Covered w p → Covered v p = λ p c. elim c [
          | inl visited ↦ inl (old p visited)
          | inr m ↦ elim (Memᴰ.cases_cons (subst (λ l. Memᴰ p l) top m)) [
            | inl e ↦ inl (subst (λ k. PtrSet.contains k v.visited ≡ true) (sym e) here)
            | inr later ↦ inr (keeps p later)
          ]
        ] in
        record {
          sound = All-concat _ w.cache (b, r) f.sound ((subst (All Reach) top f.stack).0, scan);
          stack = reached;
          marked = λ c. ground (
            arith,
            PtrSet.contains-insert b c w.visited,
            has_block-concat c (b, r) w.cache,
            f.marked c,
          );
          closed =
              All-concat _ w.cache (b, r) (moved reverse w v move f.closed)
                (λ open_block p m. inr (pushes open_block p m));
          seeded = λ p m. move p (f.seeded p m);
          single = IsSingle-concat (b, r) w.cache (sym (f.marked b) ∙ new) f.single;
          linked = λ i k.
              ground (arith, linked' i k, f.linked i k, any-concat (depends_on i) w.cache (b, r));
        }
