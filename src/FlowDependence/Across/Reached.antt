-- ===== src/FlowDependence/Across/Reached.antt =====
-- getNonLocalCallDependency for a call without cached answers.
use mathlib.Core.List.{Memᴰ}
use mathlib.Core.List.Memᴰ
use dep_taint.Prelude.{
  ℕ, zero, suc, ◌+◌, ◌≤◌, ◌<◌, ◌≡◌, ◌≢◌, ◌↔◌, refl, sym, ap, ◌∙◌, subst, inl, inr, true, false,
  ◌&&◌, ◌||◌, not, List, [], ◌∷◌, arith, ◌==◌, if◌then◌else◌, Bool-cases, if_true, if_false, length,
  All, All-get, All-intro, List-cases,
}
use dep_taint.Prelude.Outcome.{done, ◌>>=◌}
use dep_taint.Prelude.PtrMap.{PtrMap}
use dep_taint.Prelude.PtrSet
use dep_taint.Prelude.PtrSet.{PtrSet}
use dep_taint.Ir.{Ir}
use dep_taint.FlowDepResult.{FlowDepResult, get_inst, is_non_local}
use dep_taint.FlowDependence.{Llvm}
use dep_taint.FlowDependence.Calls.{at_start}
use dep_taint.FlowDependence.Cache.{add_to_reverse_map}
use dep_taint.FlowDependence.Cache.Synced.{in_reverse, in_reverse-add}
use dep_taint.FlowDependence.Cache.Total.{call_site-Clean}
use dep_taint.FlowDependence.Forget.{Entry}
use dep_taint.FlowDependence.Across.{
  Walk, end_position, is_begin, push_all, block_dependency, associate, walk_step, walk,
}
use dep_taint.FlowDependence.Across.Measure.{
  length-push_all, push_all-old, push_all-new, All-push_all, pending, pending-insert,
}
use dep_taint.FlowDependence.Order.Single.{has_block}
use dep_taint.FlowDependence.Across.Rounds.{
  Scanned, Reach, Covered, depends_on, IsFresh, walk_step-new, round_visited, left, left-IsFresh,
}

done-inj {ℓ} : {A : Type ℓ} {a b : A} → done a ≡ done b → a ≡ b
done-inj h = cc

module _ (ir : Ir) (llvm : Llvm) (preds : ℕ → List ℕ) (query : ℕ) where
  block_dependency-total :
      (b : ℕ)
      → All (λ i. i ≢ 0) (ir.insts b)
      → (r : FlowDepResult) × Scanned ir llvm preds query b r
  unfolding block_dependency
  block_dependency-total b real =
      let (r, scans, _) =
        call_site-Clean ir llvm query (llvm.only_reads_memory query) end_position b (ground arith)
          real in
      elim (Bool-cases (not (is_begin ir llvm preds b end_position))) [
        | inl body ↦ (r, if_true _ _ _ body ∙ scans)
        | inr nothing ↦ (at_start ir llvm b, if_false _ _ _ nothing)
      ]

  -- What is left of the work of the loop.
  abbrev work : List ℕ → Walk → ℕ
  work universe w = length w.dirty_blocks + pending preds w.visited universe

  associate-local :
      (b : ℕ) (r : FlowDepResult) (w : Walk)
      → is_non_local r ≡ false
      → associate ir llvm preds query b r w ≡ record w {
        reverse =
            if get_inst r == 0 then w.reverse else add_to_reverse_map w.reverse (get_inst r) query;
      }
  unfolding associate
  associate-local b r w here = elim (Bool-cases (get_inst r == 0)) [
    | inl nothing ↦ rw (here, nothing) refl
    | inr inst ↦ rw (here, inst) refl
  ]

  associate-non_local :
      (b : ℕ) (r : FlowDepResult) (w : Walk)
      → is_non_local r ≡ true
      → associate ir llvm preds query b r w
        ≡ record w { dirty_blocks = push_all (preds b) w.dirty_blocks }
  unfolding associate
  associate-non_local b r w away = rw away refl

  in_reverse-local :
      (b i k : ℕ) (r : FlowDepResult) (m : PtrMap PtrSet)
      → is_non_local r ≡ false
      → in_reverse (if get_inst r == 0 then m else add_to_reverse_map m (get_inst r) query) i k
        ≡ ((query == k && depends_on ir llvm preds query i (b, r)) || in_reverse m i k)
  unfolding depends_on
  in_reverse-local b i k r m here = elim (Bool-cases (get_inst r == 0)) [
    | inl nothing ↦ rw nothing (ground (arith, here, nothing))
    | inr inst ↦ rw inst (ground (arith, here, inst, in_reverse-add m (get_inst r) query i k))
  ]

  in_reverse-non_local :
      (b i k : ℕ) (r : FlowDepResult) (m : PtrMap PtrSet)
      → is_non_local r ≡ true
      → in_reverse m i k
        ≡ ((query == k && depends_on ir llvm preds query i (b, r)) || in_reverse m i k)
  unfolding depends_on
  in_reverse-non_local b i k r m away = ground (arith, away)

  -- A round keeps the invariant, and less work is left.
  round :
      (reverse : PtrMap PtrSet) (universe : List ℕ) (w : Walk) (b : ℕ) (rest : List ℕ)
      → ((c : ℕ) → Reach ir llvm preds query c → PtrSet.contains c universe ≡ true)
      → ((c : ℕ) → All (λ i. i ≢ 0) (ir.insts c))
      → w.dirty_blocks ≡ b ∷ rest
      → IsFresh ir llvm preds query reverse w
      → (v : Walk) × (walk_step ir llvm preds query 0 b (record w { dirty_blocks = rest }) ≡ done v)
        × IsFresh ir llvm preds query reverse v
        × (suc (work universe v) ≤ work universe w)
  round reverse universe w b rest inside real top f =
      elim (Bool-cases (PtrSet.contains b w.visited)) [
        | inl seen ↦ (
          record w { dirty_blocks = rest },
          unfold walk_step in if_true _ _ _ seen,
          round_visited ir llvm preds query reverse w b rest top seen f,
          omega (arith, ap length top),
        )
        | inr new ↦
            let (r, scan) = block_dependency-total b (real b) in
            let reached = subst (All (Reach ir llvm preds query)) top f.stack in
            let shrinks = pending-insert preds b w.visited universe new (inside b reached.0) in
            let runs =
              walk_step-new ir llvm preds query b r (record w { dirty_blocks = rest }) new scan in
            let fresh = left-IsFresh ir llvm preds query reverse w b rest r top new scan f in
            elim (Bool-cases (is_non_local r)) [
              | inl away ↦ (
                left ir llvm preds query reverse w b rest r top new scan f (push_all (preds b) rest)
                    w.reverse,
                runs ∙ ap done (associate-non_local b r _ away),
                fresh (push_all (preds b) rest) w.reverse (λ p m. push_all-old p (preds b) rest m)
                    (All-push_all _ (preds b) rest
                      (All-intro _ (preds b) (λ p m. Reach.further reached.0 scan away m))
                      reached.1)
                    (λ _ p m. push_all-new p (preds b) rest m)
                    (λ i k. in_reverse-non_local b i k r w.reverse away),
                omega (arith, ap length top, length-push_all (preds b) rest, shrinks),
              )
              | inr here ↦ (
                left ir llvm preds query reverse w b rest r top new scan f rest _,
                runs ∙ ap done (associate-local b r _ here),
                fresh rest _ (λ p m. m) reached.1 (λ away. absurd (ground (arith, away, here)))
                    (λ i k. in_reverse-local b i k r w.reverse here),
                omega (arith, ap length top, shrinks),
              )
            ]
      ]

  walk_nil :
      (fuel : ℕ) (w : Walk) → w.dirty_blocks ≡ [] → walk ir llvm preds (suc fuel) query 0 w ≡ done w
  unfolding walk
  walk_nil fuel w empty = ground (arith, empty)

  walk_cons :
      (fuel : ℕ) (w : Walk) (b : ℕ) (rest : List ℕ)
      → w.dirty_blocks ≡ b ∷ rest
      → walk ir llvm preds (suc fuel) query 0 w ≡ (
          walk_step ir llvm preds query 0 b (record w { dirty_blocks = rest })
          >>= walk ir llvm preds fuel query 0)
  unfolding walk
  walk_cons fuel w b rest top = ground (arith, top)

  pub walk_ends :
      (reverse : PtrMap PtrSet) (universe : List ℕ)
      → ((c : ℕ) → Reach ir llvm preds query c → PtrSet.contains c universe ≡ true)
      → ((c : ℕ) → All (λ i. i ≢ 0) (ir.insts c))
      → (fuel : ℕ) (w : Walk) → work universe w < fuel
      → IsFresh ir llvm preds query reverse w
      → (v : Walk) × (walk ir llvm preds fuel query 0 w ≡ done v)
        × IsFresh ir llvm preds query reverse v
        × (v.dirty_blocks ≡ [])
  unfolding walk
  walk_ends reverse universe inside real zero w h f = absurd (omega arith)
  walk_ends reverse universe inside real (suc fuel) w h f = elim (List-cases w.dirty_blocks) [
    | inl empty ↦ (w, walk_nil fuel w empty, f, empty)
    | inr (b, rest, top) ↦
        let (u, steps, g, less) = round reverse universe w b rest inside real top f in
        let (v, runs, k, empty) = walk_ends reverse universe inside real fuel u (omega arith) g in
        (
          v,
          walk_cons fuel w b rest top
              ∙ ap (λ o. o >>= walk ir llvm preds fuel query 0) steps
              ∙ runs,
          k,
          empty,
        )
  ]

  has_block-mem :
      (b : ℕ) (es : List Entry) → has_block b es ≡ true → (r : FlowDepResult) × Memᴰ (b, r) es
  has_block-mem b [] h = absurd (ground arith)
  has_block-mem b (e ∷ es) h = elim (Bool-cases (e.0 == b)) [
    | inl here ↦
        let same : b ≡ e.0 = ground (arith, here) in (e.1, Memᴰ.head (ap (λ k. (k, e.1)) same))
    | inr later ↦ let (r, m) = has_block-mem b es (ground (arith, h, later)) in (r, Memᴰ.tail m)
  ]

  covered_has_entry :
      (reverse : PtrMap PtrSet) (w : Walk) (b : ℕ)
      → IsFresh ir llvm preds query reverse w
      → w.dirty_blocks ≡ []
      → Covered ir llvm preds query w b
      → (r : FlowDepResult) × Memᴰ (b, r) w.cache
  covered_has_entry reverse w b f empty (inl visited) =
      has_block-mem b w.cache (sym (f.marked b) ∙ visited)
  covered_has_entry reverse w b f empty (inr m) =
      absurd (Memᴰ.not-nil (subst (λ l. Memᴰ b l) empty m))

  -- A walk without blocks left has an entry for each block that is reached.
  reached_has_entry :
      (reverse : PtrMap PtrSet) (w : Walk) (b : ℕ)
      → IsFresh ir llvm preds query reverse w
      → w.dirty_blocks ≡ []
      → Reach ir llvm preds query b
      → (r : FlowDepResult) × Memᴰ (b, r) w.cache
  reached_has_entry reverse w b f empty (Reach.first m) =
      covered_has_entry reverse w b f empty (f.seeded b m)
  reached_has_entry reverse w b f empty (Reach.further {b = c} {r = r} reached scan away m) =
      let (s, at) = reached_has_entry reverse w c f empty reached in
      let (_, again) = All-get _ (c, s) w.cache f.sound at in
      let same : r ≡ s = done-inj (sym scan ∙ again) in
      covered_has_entry reverse w b f empty
        (All-get _ (c, s) w.cache f.closed at (ap is_non_local (sym same) ∙ away) b m)

  -- The entries of the cache are those of the reached blocks, with what their scans answer.
  pub exact_entries :
      (reverse : PtrMap PtrSet) (w : Walk) (b : ℕ) (r : FlowDepResult)
      → IsFresh ir llvm preds query reverse w
      → w.dirty_blocks ≡ []
      → Memᴰ (b, r) w.cache ↔ (Reach ir llvm preds query b × Scanned ir llvm preds query b r)
  exact_entries reverse w b r f empty = (
    λ m. All-get _ (b, r) w.cache f.sound m,
    λ h.
        let (s, at) = reached_has_entry reverse w b f empty h.0 in
        let (_, again) = All-get _ (b, s) w.cache f.sound at in
        let same : r ≡ s = done-inj (sym h.1 ∙ again) in
        subst (λ k. Memᴰ (b, k) w.cache) (sym same) at,
  )
