-- ===== src/FlowDependence/Cache/Total.antt =====
-- The scan that answers a query returns, with an answer that is not dirty.
use dep_taint.Prelude.{
  ℕ, ◌≡◌, ◌≢◌, refl, subst, ◌∙◌, inl, inr, Bool, true, false, not, ◌&&◌, ◌||◌, List, [], ◌∷◌,
  Option, none, some, All, All-mono, All-before, ◌==◌, if◌then◌else◌, Bool-cases, if_true,
}
use dep_taint.Prelude.Outcome.{Outcome, done}
use dep_taint.Ir.{Ir}
use dep_taint.FlowDepResult.{
  FlowDepResult, get_unknown, get_non_local, get_non_func_local, is_dirty,
}
use dep_taint.FlowDependence.{Llvm, Location, backwards, is_position, has_mod, is_no_mod_ref}
use dep_taint.FlowDependence.Locate.{get_location, no_location}
use dep_taint.FlowDependence.Calls.{
  at_start, is_call_site, call_site_step, get_call_site_dependency_from,
}
use dep_taint.FlowDependence.Widen.Bounds.{IsNextPower}
use dep_taint.FlowDependence.Pointers.{get_pointer_dependency_from, is_lifetime_start}
use dep_taint.FlowDependence.Scan.{Decide, Answers, reference-Answers}
use dep_taint.FlowDependence.Scan.Call.{call_site_dependency_nearest}
use dep_taint.FlowDependence.Scan.Safety.{pointer_dependency_safe}
use dep_taint.FlowDependence.Scan.Steps.{IsSized}
use dep_taint.FlowDependence.Scan.Verdict.{
  Verdict, Verdict-if, Verdict-continue, Verdict-clobber, Verdict-def, Verdict-names,
}
use dep_taint.FlowDependence.Cache.{scan_for, is_first, fresh_answer}

pub All-backwards :
    (P : ℕ → Type 0) (i : ℕ) (acc js : List ℕ) → All P acc → All P js → All P (backwards i acc js)
unfolding backwards
All-backwards P i acc [] h k = h
All-backwards P i acc (j ∷ js) h k = elim (Bool-cases (j == i)) [
  | inl here ↦ rw here h
  | inr later ↦ rw later (All-backwards P i (j ∷ acc) js (k.0, h) k.1)
]

-- The code returns an answer that is not dirty.
abbrev pub Clean : Outcome FlowDepResult → Type 0
Clean m = (r : FlowDepResult) × (m ≡ done r) × (is_dirty r ≡ false)

pub Clean-if :
    (c : Bool) (m n : Outcome FlowDepResult)
    → (c ≡ true → Clean m)
    → (c ≡ false → Clean n)
    → Clean (if c then m else n)
Clean-if true m n h k = h refl
Clean-if false m n h k = k refl

module _ (ir : Ir) (llvm : Llvm) where
  at_start-clean_of :
      (block : ℕ) (bs : List ℕ)
      → ir.blocks (ir.function_of block) ≡ bs
      → is_dirty (at_start ir llvm block) ≡ false
  unfolding at_start is_dirty get_non_local get_non_func_local
  at_start-clean_of block [] e = rw (e, is_dirty, at_start) refl
  at_start-clean_of block (entry ∷ bs) e =
      rw (e, is_dirty, at_start)
        (elim (Bool-cases (block == entry)) [
          | inl first ↦ rw first refl
          | inr other ↦ rw other refl
        ])

  pub at_start-clean : (block : ℕ) → is_dirty (at_start ir llvm block) ≡ false
  at_start-clean block = at_start-clean_of block (ir.blocks (ir.function_of block)) refl

  call_site_step-Verdict :
      (cs : ℕ) (read_only : Bool) (i : ℕ)
      → i ≢ 0
      → Verdict Unit i (call_site_step ir llvm cs read_only i)
  unfolding call_site_step
  call_site_step-Verdict cs read_only i h =
      let (mr, loc) = get_location ir llvm i (no_location ir llvm) in
      let go = Verdict-continue Unit i tt in
      let clobber = Verdict-clobber Unit i h in
      Verdict-if Unit i (not (loc.ptr == 0)) _ _
        (λ _.
          Verdict-if Unit i (is_no_mod_ref (llvm.mod_ref_info cs loc)) _ _ (λ _. go) (λ _. clobber))
        (λ _.
          Verdict-if Unit i (is_call_site ir llvm i) _ _
            (λ _.
              Verdict-if Unit i (llvm.is_debug i) _ _ (λ _. go)
                (λ _.
                  Verdict-if Unit i (is_no_mod_ref (llvm.mod_ref_calls cs i)) _ _
                    (λ _.
                      Verdict-if Unit i (read_only && not (has_mod mr) && llvm.is_identical cs i) _
                        _ (λ _. Verdict-def Unit i h) (λ _. go))
                    (λ _. clobber)))
            (λ _. Verdict-if Unit i (is_no_mod_ref mr) _ _ (λ _. go) (λ _. clobber)))

  abbrev AnswersClean : Decide → ℕ → Type 0
  AnswersClean decide i = (r : FlowDepResult) → decide i ≡ done (some r) → is_dirty r ≡ false

  Answers-clean :
      (decide : Decide) (end : FlowDepResult) (n : ℕ) (is : List ℕ) (r : FlowDepResult)
      → is_dirty end ≡ false
      → All (AnswersClean decide) is
      → Answers decide end n is r
      → is_dirty r ≡ false
  unfolding get_unknown is_dirty
  Answers-clean decide end n is r e h (inl (pass, short, same)) = rw same e
  Answers-clean decide end n is r e h (inr (inl (long, same))) = rw same refl
  Answers-clean decide end n is r e h (inr (inr d)) =
      let (before, here) =
        All-before (AnswersClean decide) d.passed d.decider d.after
          (subst (λ l. All (AnswersClean decide) l) d.split h) in
      here r d.decision

  -- Under the bounds of IsSized a Verdict gives what an instruction decides.
  Verdict-done :
      (i : ℕ) (m : Outcome (Option FlowDepResult))
      → Verdict Unit i m
      → (o : Option FlowDepResult) × (m ≡ done o)
  Verdict-done i m (inl (e, p)) = (none, e)
  Verdict-done i m (inr (r, e, at, clean)) = (some r, e)

  pub call_site-Clean :
      (cs : ℕ) (read_only : Bool) (scan_it block : ℕ)
      → is_position scan_it (ir.insts block) ≡ true
      → All (λ i. i ≢ 0) (ir.insts block)
      → Clean (get_call_site_dependency_from ir llvm cs read_only scan_it block)
  call_site-Clean cs read_only scan_it block inside h =
      let step = call_site_step ir llvm cs read_only in
      let is = backwards scan_it [] (ir.insts block) in
      let there = All-backwards (λ i. i ≢ 0) scan_it [] (ir.insts block) tt h in
      let verdict = call_site_step-Verdict cs read_only in
      let (r, returns, cases) =
        reference-Answers step (at_start ir llvm block) 99 is
          (All-mono _ _ (λ i h. Verdict-done i (step i) (verdict i h)) is there) in
      (
        r,
        call_site_dependency_nearest ir llvm cs read_only scan_it block
            ∙ if_true _ _ _ inside
            ∙ returns,
        Answers-clean step (at_start ir llvm block) 99 is r (at_start-clean block)
            (All-mono _ _ (λ i h r e. (Verdict-names Unit i (step i) r (verdict i h) e).1) is there)
            cases,
      )

  pointer-Clean :
      (loc : Location) (load : Bool) (scan_it block query : ℕ)
      → IsNextPower llvm.next_power_of_2
      → is_position scan_it (ir.insts block) ≡ true
      → All (IsSized ir llvm) (ir.insts block)
      → Clean (get_pointer_dependency_from ir llvm loc load scan_it block query)
  unfolding get_unknown is_dirty
  pointer-Clean loc load scan_it block query next inside h =
      let (r, returns, cases) =
        pointer_dependency_safe ir llvm loc load scan_it block query next inside
          (All-backwards (IsSized ir llvm) scan_it [] (ir.insts block) tt h) in
      (
        r,
        returns,
        elim cases [
          | inl (pass, short, e) ↦ rw e (at_start-clean block)
          | inr (inl (long, e)) ↦ rw e refl
          | inr (inr found) ↦ found.is_answer
        ],
      )

  -- The answer to a query that has none in the cache is found, and it is not dirty.
  pub fresh_answer-Clean :
      (query scan_pos : ℕ)
      → IsNextPower llvm.next_power_of_2
      → is_position scan_pos (ir.insts (ir.block_of query)) ≡ true
      → All (IsSized ir llvm) (ir.insts (ir.block_of query))
      → Clean (fresh_answer ir llvm query scan_pos)
  unfolding fresh_answer scan_for get_unknown is_dirty
  fresh_answer-Clean query scan_pos next inside h =
      let (mr, loc) = get_location ir llvm query (no_location ir llvm) in
      let block = ir.block_of query in
      Clean-if (is_first ir llvm query) _ _
        (λ _. (at_start ir llvm block, refl, at_start-clean block))
        (λ _.
          Clean-if (not (loc.ptr == 0)) _ _
            (λ _.
              pointer-Clean loc (not (has_mod mr) || is_lifetime_start ir llvm query) scan_pos block
                query next inside h)
            (λ _.
              Clean-if (is_call_site ir llvm query) _ _
                (λ _.
                  call_site-Clean query (llvm.only_reads_memory query) scan_pos block inside
                    (All-mono _ _ (λ i sized. sized.0) _ h))
                (λ _. (get_unknown, refl, refl))))
