-- ===== src/FlowDependence/Remove/Forgotten.antt =====
-- removeInstruction as a whole: the caches forget the instruction.
use dep_taint.Prelude.{
  ℕ, ◌≡◌, refl, sym, ap, ◌∙◌, inl, inr, Bool, true, false, Option, none, some, List, [], ◌∷◌, arith,
  ◌==◌, if◌then◌else◌, Option-cases, if_true, if_false,
}
use dep_taint.Prelude.Outcome.{Outcome, done, ◌>>=◌}
use dep_taint.Prelude.PtrMap
use dep_taint.Prelude.PtrMap.{PtrMap}
use dep_taint.Prelude.PtrSet.{PtrSet}
use dep_taint.FlowDepResult.{FlowDepResult, no_result, get_inst}
use dep_taint.FlowDependence.Cache.{LocalCache}
use dep_taint.FlowDependence.Cache.Synced.{in_reverse}
use dep_taint.FlowDependence.Store.{CallInfo, no_call_info, CallCache}
use dep_taint.FlowDependence.Remove.{Adds, insts_of, drop_call, drop_local}
use dep_taint.FlowDependence.Remove.Linked.{get_or-lookup, get_or-none, AreApart, targets, IsLinked}
use dep_taint.FlowDependence.Remove.Renewed.{Renewed}
use dep_taint.FlowDependence.Remove.Values.{answer_names, names_in, call_names}
use dep_taint.FlowDependence.Remove.Drops.{AreSets, Dropped, absent-Dropped, unlink-Dropped}

-- An answer names at most its own instruction.
abbrev inst_of : FlowDepResult → List ℕ
inst_of r = r.pointer ∷ []

answer-reads : (i : ℕ) (r : FlowDepResult) → answer_names i r ≡ targets i (inst_of r)
answer-reads i r = ground arith

pub answer-blank : (i : ℕ) → answer_names i no_result ≡ false
unfolding no_result
answer-blank i = ground arith

call-reads : (i : ℕ) (v : CallInfo) → call_names i v ≡ targets i (insts_of v.entries)
unfolding names_in
call-reads i v = refl

pub call-blank : (i : ℕ) → call_names i no_call_info ≡ false
unfolding names_in insts_of
call-blank i = ground arith

-- A map and its inverse from which keys are gone and in which no value names an instruction; a value
-- that named it is what `renew` makes of it, any other is as it was.
module _ {V : Type 0} (names : ℕ → V → Bool) (default : V) (renew : ℕ → V → V) (rem : ℕ)
    (gone : ℕ → Bool) where
  pub record IsForgotten (m n : PtrMap V) (reverse r : PtrMap PtrSet) : Type 0 where
    pub linked : IsLinked names default n r
    pub unnamed : (q : ℕ) → names rem (PtrMap.get_or q default n) ≡ false
    pub no_set : PtrMap.lookup rem r ≡ none
    pub no_key : (q : ℕ) → gone q ≡ true → PtrMap.lookup q n ≡ none
    pub no_member : (i q : ℕ) → gone q ≡ true → in_reverse r i q ≡ false
    pub others :
        (q : ℕ)
        → gone q ≡ false
        → PtrMap.lookup q n ≡ (
            if in_reverse reverse rem q
            then some (renew q (PtrMap.get_or q default m))
            else PtrMap.lookup q m)

module _ {V : Type 0} (names : ℕ → V → Bool) (default : V)
    (blank : (i : ℕ) → names i default ≡ false) (forbidden : ℕ → Bool) (renew : ℕ → V → V × Adds)
    (rem next : ℕ) (gone : ℕ → Bool) where
  pub drop_renew-IsForgotten :
      {m n o : PtrMap V} {reverse r s : PtrMap PtrSet}
      → Dropped names default gone m n reverse r
      → Renewed names default forbidden renew rem next n o r s
      → IsForgotten names default (λ q v. (renew q v).0) rem gone m o reverse s
  drop_renew-IsForgotten {m} {n} {o} {reverse} {r} {s} dropped (linked', values, unheld, no_set') =
      let missing : (q : ℕ) → gone q ≡ true → PtrMap.lookup q o ≡ none = λ q g.
        let off : in_reverse r rem q ≡ false = ground (arith, dropped.fewer rem q, g) in
        values q ∙ if_false _ _ _ off ∙ dropped.kept q ∙ if_true _ _ _ g in
      record {
        linked = linked';
        unnamed = λ q. sym (linked' rem q) ∙ unheld q;
        no_set = no_set';
        no_key = missing;
        no_member =
            λ i q g. linked' i q ∙ ap (names i) (get_or-none o q default (missing q g)) ∙ blank i;
        others = λ q g.
            let same = dropped.kept q ∙ if_false _ _ _ g in
            let held : in_reverse r rem q ≡ in_reverse reverse rem q =
              ground (arith, dropped.fewer rem q, g) in
            values q
            ∙ ap (λ (k : Bool × V × Option V). if k.0 then some (renew q k.1).0 else k.2)
                (λ i. (held i, get_or-lookup n m q default same i, same i));
      }

module _ (rem : ℕ) where
  abbrev pub its_own : ℕ → Bool
  its_own q = rem == q

  pub drop_call-lem :
      (c : CallCache)
      → IsLinked call_names no_call_info c.non_local_deps c.reverse_non_local_deps
      → AreSets c.reverse_non_local_deps
      → ((info : CallInfo)
          → PtrMap.lookup rem c.non_local_deps ≡ some info
          → AreApart (insts_of info.entries))
      → (d : CallCache) × (drop_call rem c (PtrMap.lookup rem c.non_local_deps) ≡ done d)
        × Dropped call_names no_call_info its_own c.non_local_deps d.non_local_deps
            c.reverse_non_local_deps d.reverse_non_local_deps
  unfolding drop_call
  drop_call-lem c linked sets apart = elim (Option-cases (PtrMap.lookup rem c.non_local_deps)) [
    | inl absent ↦ (
      c,
      ap (drop_call rem c) absent,
      absent-Dropped call_names no_call_info call-blank rem c.non_local_deps
          c.reverse_non_local_deps linked sets absent,
    )
    | inr (info, at) ↦
        let (r, runs, dropped) =
          unlink-Dropped call_names no_call_info call-blank rem c.non_local_deps
            c.reverse_non_local_deps (λ v. insts_of v.entries) call-reads info linked sets at
            (apart info at) in
        let after_unlink : PtrMap PtrSet → Outcome CallCache = λ m. done (record {
          non_local_deps = PtrMap.erase rem c.non_local_deps;
          reverse_non_local_deps = m;
        }) in
        (_, ap (drop_call rem c) at ∙ ap (λ o. o >>= after_unlink) runs, dropped)
  ]

  pub drop_local-lem :
      (c : LocalCache)
      → IsLinked answer_names no_result c.local_deps c.reverse_local_deps
      → AreSets c.reverse_local_deps
      → (d : LocalCache) × (drop_local rem c (PtrMap.lookup rem c.local_deps) ≡ done d)
        × Dropped answer_names no_result its_own c.local_deps d.local_deps c.reverse_local_deps
            d.reverse_local_deps
  unfolding drop_local get_inst
  drop_local-lem c linked sets = elim (Option-cases (PtrMap.lookup rem c.local_deps)) [
    | inl absent ↦ (
      c,
      ap (drop_local rem c) absent,
      absent-Dropped answer_names no_result answer-blank rem c.local_deps c.reverse_local_deps
          linked sets absent,
    )
    | inr (r, at) ↦
        let (m, runs, dropped) =
          unlink-Dropped answer_names no_result answer-blank rem c.local_deps c.reverse_local_deps
            inst_of answer-reads r linked sets at (λ f. refl, tt) in
        let after_unlink : PtrMap PtrSet → Outcome LocalCache = λ l.
          done (record { local_deps = PtrMap.erase rem c.local_deps; reverse_local_deps = l }) in
        (_, ap (drop_local rem c) at ∙ ap (λ o. o >>= after_unlink) runs, dropped)
  ]
