-- ===== src/FlowDependence/Scan/Safety.antt =====
-- A scan for a location returns, and passes over nothing that may write to the location.
use dep_taint.Prelude.{
  ℕ, ◌≤◌, ◌<◌, ◌≡◌, ◌∙◌, subst, ◌⊎◌, inl, inr, Bool, true, false, if_true, List, [], ◌∷◌, ◌++◌,
  length, Option, none, some, All, All-mono, All-keep_if, All-before,
}
use dep_taint.Prelude.Outcome.{done}
use dep_taint.Ir.{Ir}
use dep_taint.FlowDepResult.{FlowDepResult, get_unknown, is_dirty}
use dep_taint.FlowDependence.{Llvm, Location, backwards, is_position}
use dep_taint.FlowDependence.Calls.{at_start}
use dep_taint.FlowDependence.Widen.Bounds.{IsNextPower}
use dep_taint.FlowDependence.Pointers.{Query, get_pointer_dependency_from}
use dep_taint.FlowDependence.Scan.{reference-Answers, IsDecided}
use dep_taint.FlowDependence.Scan.Pointer.{decide, query_of, considered, pointer_dependency_nearest}
use dep_taint.FlowDependence.Scan.Steps.{Passes, IsSized, decide-Verdict}
use dep_taint.FlowDependence.Scan.Verdict.{Verdict-passes, Verdict-names}

module _ (ir : Ir) (llvm : Llvm) where
  -- The answer names an instruction, the nearest that is not passed over.
  pub record IsNamed (q : Query) (is : List ℕ) (r : FlowDepResult) : Type 0 where
    pub passed : List ℕ
    pub after : List ℕ
    pub split : is ≡ passed ++ r.pointer ∷ after
    pub no_writes : All (Passes ir llvm q) passed
    pub is_answer : is_dirty r ≡ false
    pub within : length passed < 99

  module _ (next : IsNextPower llvm.next_power_of_2) where
    Passes-all :
        (q : Query) (is : List ℕ)
        → All (IsSized ir llvm) is
        → All (λ i. decide ir llvm q i ≡ done none) is
        → All (Passes ir llvm q) is
    Passes-all q [] h k = tt
    Passes-all q (i ∷ is) (h, hs) (k, ks) =
        (Verdict-passes _ i _ (decide-Verdict ir llvm q i next h) k, Passes-all q is hs ks)

    decided :
        (q : Query) (i : ℕ)
        → IsSized ir llvm i
        → (o : Option FlowDepResult) × (decide ir llvm q i ≡ done o)
    decided q i h = elim (decide-Verdict ir llvm q i next h) [
      | inl (e, p) ↦ (none, e)
      | inr (r, e, at, clean) ↦ (some r, e)
    ]

    named :
        (q : Query) (end r : FlowDepResult) (is : List ℕ)
        → All (IsSized ir llvm) is
        → IsDecided (decide ir llvm q) end 99 is r
        → IsNamed q is r
    named q end r is h d =
        let (sized, here) =
          All-before (IsSized ir llvm) d.passed d.decider d.after
            (subst (λ l. All (IsSized ir llvm) l) d.split h) in
        let (at, clean) =
          Verdict-names _ d.decider _ r (decide-Verdict ir llvm q d.decider next here) d.decision in
        record {
          passed = d.passed;
          after = d.after;
          split = rw (← at) d.split;
          no_writes = Passes-all q d.passed sized d.undecided;
          is_answer = clean;
          within = d.within;
        }

  pub pointer_dependency_safe :
      (loc : Location) (load : Bool) (scan_it block query : ℕ)
      → IsNextPower llvm.next_power_of_2
      → is_position scan_it (ir.insts block) ≡ true
      → All (IsSized ir llvm) (backwards scan_it [] (ir.insts block))
      → (r : FlowDepResult) × (get_pointer_dependency_from ir llvm loc load scan_it block query
          ≡ done r)
        × ((All
                (Passes ir llvm (query_of ir llvm loc load query))
                (considered ir llvm scan_it block)
              × (length (considered ir llvm scan_it block) ≤ 99)
              × (r ≡ at_start ir llvm block))
            ⊎ ((99 < length (considered ir llvm scan_it block)) × (r ≡ get_unknown))
            ⊎ IsNamed (query_of ir llvm loc load query) (considered ir llvm scan_it block) r)
  pointer_dependency_safe loc load scan_it block query next inside sized =
      let q = query_of ir llvm loc load query in
      let is = considered ir llvm scan_it block in
      let all_sized : All (IsSized ir llvm) is = All-keep_if (IsSized ir llvm) _ _ sized in
      let (r, returns, cases) =
        reference-Answers (decide ir llvm q) (at_start ir llvm block) 99 is
          (All-mono _ _ (decided next q) is all_sized) in
      (
        r,
        pointer_dependency_nearest ir llvm loc load scan_it block query
            ∙ if_true _ _ _ inside
            ∙ returns,
        elim cases [
          | inl (pass, short, e) ↦ inl (Passes-all next q is all_sized pass, short, e)
          | inr (inl unknown) ↦ inr (inl unknown)
          | inr (inr found) ↦ inr (inr (named next q (at_start ir llvm block) r is all_sized found))
        ],
      )
