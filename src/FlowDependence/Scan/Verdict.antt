-- ===== src/FlowDependence/Scan/Verdict.antt =====
-- Verdicts on an instruction that a scan meets: combinators for the tests in the body of its loop.
use dep_taint.Prelude.{
  ℕ, ◌≡◌, ◌≢◌, refl, sym, ◌⊎◌, inl, inr, Bool, true, false, arith, ◌==◌, if◌then◌else◌, Option,
  none, some,
}
use dep_taint.Prelude.Outcome.{Outcome, done}
use dep_taint.Data.{AliasResult}
use dep_taint.FlowDepResult.{FlowDepResult, get_clobber, get_def, is_dirty}
use dep_taint.FlowDependence.{ModRef, answer, continue}
use dep_taint.FlowDependence.Pointers.{Base}

-- The verdict on an instruction: nothing, and then P, or an answer that names it.
abbrev pub Verdict : Type 0 → ℕ → Outcome (Option FlowDepResult) → Type 0
Verdict P i m =
    ((m ≡ done none) × P)
    ⊎ ((r : FlowDepResult) × (m ≡ done (some r)) × (r.pointer ≡ i) × (is_dirty r ≡ false))

pub Verdict-if :
    (P : Type 0) (i : ℕ) (c : Bool) (m n : Outcome (Option FlowDepResult))
    → (c ≡ true → Verdict P i m)
    → (c ≡ false → Verdict P i n)
    → Verdict P i (if c then m else n)
Verdict-if P i true m n h k = h refl
Verdict-if P i false m n h k = k refl

pub Verdict-continue : (P : Type 0) (i : ℕ) → P → Verdict P i continue
unfolding continue
Verdict-continue P i p = inl (refl, p)

pub Verdict-clobber : (P : Type 0) (i : ℕ) → i ≢ 0 → Verdict P i (answer (get_clobber i))
unfolding answer get_clobber is_dirty
Verdict-clobber P i h =
    let no : (i == 0) ≡ false = ground arith in rw no (inr (_, refl, refl, refl))

pub Verdict-def : (P : Type 0) (i : ℕ) → i ≢ 0 → Verdict P i (answer (get_def i))
unfolding answer get_def is_dirty
Verdict-def P i h = let no : (i == 0) ≡ false = ground arith in rw no (inr (_, refl, refl, refl))

pub Verdict-alias :
    (P : Type 0) (i : ℕ) (r : AliasResult) (a b c d : Outcome (Option FlowDepResult))
    → (r ≡ AliasResult.no_alias → Verdict P i a)
    → Verdict P i b
    → Verdict P i c
    → Verdict P i d
    → Verdict P i (elim r [
      | AliasResult.no_alias ↦ a
      | AliasResult.must_alias ↦ b
      | AliasResult.may_alias ↦ c
      | AliasResult.partial_alias ↦ d
    ])
Verdict-alias P i AliasResult.no_alias a b c d h j k l = h refl
Verdict-alias P i AliasResult.must_alias a b c d h j k l = j
Verdict-alias P i AliasResult.may_alias a b c d h j k l = k
Verdict-alias P i AliasResult.partial_alias a b c d h j k l = l

pub Verdict-mod_ref :
    (P : Type 0) (i : ℕ) (r : ModRef) (a b c d : Outcome (Option FlowDepResult))
    → (r ≡ ModRef.no_mod_ref → Verdict P i a)
    → Verdict P i b
    → (r ≡ ModRef.ref_only → Verdict P i c)
    → Verdict P i d
    → Verdict P i (elim r [
      | ModRef.no_mod_ref ↦ a
      | ModRef.mod_only ↦ b
      | ModRef.ref_only ↦ c
      | ModRef.mod_ref ↦ d
    ])
Verdict-mod_ref P i ModRef.no_mod_ref a b c d h j k l = h refl
Verdict-mod_ref P i ModRef.mod_only a b c d h j k l = j
Verdict-mod_ref P i ModRef.ref_only a b c d h j k l = k refl
Verdict-mod_ref P i ModRef.mod_ref a b c d h j k l = l

pub Verdict-passes :
    (P : Type 0) (i : ℕ) (m : Outcome (Option FlowDepResult)) → Verdict P i m → m ≡ done none → P
Verdict-passes P i m (inl (e, p)) h = p
Verdict-passes P i m (inr (r, e, at, clean)) h = cc

pub Verdict-names :
    (P : Type 0) (i : ℕ) (m : Outcome (Option FlowDepResult)) (r : FlowDepResult)
    → Verdict P i m
    → m ≡ done (some r)
    → (i ≡ r.pointer) × (is_dirty r ≡ false)
Verdict-names P i m r (inl (e, p)) h = cc
Verdict-names P i m r (inr (s, e, at, clean)) h =
    let same : s ≡ r = cc in (rw (← same) (sym at), rw (← same) clean)

pub Verdict-if_snd :
    (P : Type 0) (i : ℕ) (c : Bool) (m n : Base × Outcome (Option FlowDepResult))
    → (c ≡ true → Verdict P i m.1)
    → (c ≡ false → Verdict P i n.1)
    → Verdict P i (if c then m else n).1
Verdict-if_snd P i true m n h k = h refl
Verdict-if_snd P i false m n h k = k refl

pub Verdict-alias_snd :
    (P : Type 0) (i : ℕ) (r : AliasResult) (a b c : Base × Outcome (Option FlowDepResult))
    → Verdict P i a.1
    → Verdict P i b.1
    → Verdict P i c.1
    → Verdict P i
        (elim r as (λ _. Base × Outcome (Option FlowDepResult)) [
          | AliasResult.no_alias ↦ a
          | AliasResult.must_alias ↦ b
          | AliasResult.may_alias ↦ c
          | AliasResult.partial_alias ↦ c
        ]).1
Verdict-alias_snd P i AliasResult.no_alias a b c h j k = h
Verdict-alias_snd P i AliasResult.must_alias a b c h j k = j
Verdict-alias_snd P i AliasResult.may_alias a b c h j k = k
Verdict-alias_snd P i AliasResult.partial_alias a b c h j k = k
