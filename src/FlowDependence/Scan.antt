-- ===== src/FlowDependence/Scan.antt =====
-- What both scans come to: the answer of the nearest instruction that gives one, within the limit.
pub mod Pointer
pub mod Call
pub mod Verdict
pub mod Steps
pub mod Safety
use dep_taint.Prelude.{
  ℕ, zero, suc, ◌≤◌, ◌<◌, ◌-◌, ◌≡◌, refl, sym, ap, ◌∙◌, ◌⊎◌, inl, inr, Option, none, some, Bool,
  true, false, List, [], ◌∷◌, ◌++◌, arith, length, take, All, leb, ◌==◌, if◌then◌else◌,
}
use dep_taint.Prelude.Outcome.{Outcome, done, fault, out_of_fuel, ◌>>=◌}
use dep_taint.FlowDepResult.{FlowDepResult, get_unknown}
use dep_taint.FlowDependence.{or_else}

-- What an instruction decides: nothing, or an answer.
abbrev pub Decide : Type 0
Decide = ℕ → Outcome (Option FlowDepResult)

unfoldable pub nearest : Decide → List ℕ → Outcome (Option FlowDepResult)
nearest decide [] = done none
nearest decide (i ∷ is) =
    decide i >>= λ o. elim o [ none ↦ nearest decide is | some r ↦ done (some r) ]

-- Without an answer: the start of the block, or the end of what is looked at.
abbrev pub conclude : FlowDepResult → Bool → Option FlowDepResult → Outcome FlowDepResult
conclude end whole (some r) = done r
conclude end whole none = done (if whole then end else get_unknown)

-- Of at most `n` instructions; the start of the block has an answer, too.
unfoldable pub reference : Decide → FlowDepResult → ℕ → List ℕ → Outcome FlowDepResult
unfolding nearest
reference decide end n is = nearest decide (take n is) >>= conclude end (leb (length is) n)

fits_cons : (n i : ℕ) (is : List ℕ) → leb (length (i ∷ is)) (suc n) ≡ leb (length is) n
fits_cons n i is = ground arith

fits_zero : (i : ℕ) (is : List ℕ) → leb (length (i ∷ is)) 0 ≡ false
fits_zero i is = ground arith

fits_nil : (n : ℕ) → leb 0 n ≡ true
fits_nil n = ground arith

reference-suc :
    (decide : Decide) (end : FlowDepResult) (n i : ℕ) (is : List ℕ)
    (m : Outcome (Option FlowDepResult))
    → decide i ≡ m
    → or_else m (reference decide end n is) ≡ reference decide end (suc n) (i ∷ is)
unfolding reference nearest or_else
reference-suc decide end n i is fault e = rw e refl
reference-suc decide end n i is out_of_fuel e = rw e refl
reference-suc decide end n i is (done (some r)) e = rw e refl
reference-suc decide end n i is (done none) e = rw (e, fits_cons n i is) refl

reference-zero :
    (decide : Decide) (end : FlowDepResult) (i : ℕ) (is : List ℕ)
    → done get_unknown ≡ reference decide end 0 (i ∷ is)
unfolding reference nearest
reference-zero decide end i is = rw (fits_zero i is) refl

-- The loop of a scan agrees with it step by step.
pub reference-cons :
    (decide : Decide) (end : FlowDepResult) (n i : ℕ) (is : List ℕ)
    → (if n == 0 then done get_unknown else or_else (decide i) (reference decide end (n - 1) is))
      ≡ reference decide end n (i ∷ is)
reference-cons decide end zero i is = reference-zero decide end i is
reference-cons decide end (suc n) i is =
    let back : suc n - 1 ≡ n = omega arith in
    let positive : (suc n == 0) ≡ false = ground arith in
    rw (back, positive) (reference-suc decide end n i is (decide i) refl)

pub reference-nil :
    (decide : Decide) (end : FlowDepResult) (n : ℕ) → reference decide end n [] ≡ done end
unfolding reference nearest
reference-nil decide end n = rw (fits_nil n) refl

-- One round of a loop whose limit is one more than the room, if the loop agrees with the reference on
-- what is left.
pub room :
    (n : ℕ) (found : Outcome (Option FlowDepResult)) (scan ref : ℕ → Outcome FlowDepResult)
    → ((m : ℕ) → scan (suc m) ≡ ref m)
    → (if suc n - 1 == 0 then done get_unknown else or_else found (scan (suc n - 1)))
      ≡ (if n == 0 then done get_unknown else or_else found (ref (n - 1)))
room zero found scan ref h = refl
room (suc n) found scan ref h =
    let left : suc (suc n) - 1 ≡ suc n = omega arith in
    let back : suc n - 1 ≡ n = omega arith in rw (left, back, h n) refl

module _ (decide : Decide) (end : FlowDepResult) where
  -- The instruction that decides, with those before it that decide nothing.
  pub record IsDecided (n : ℕ) (is : List ℕ) (r : FlowDepResult) : Type 0 where
    pub passed : List ℕ
    pub decider : ℕ
    pub after : List ℕ
    pub split : is ≡ passed ++ decider ∷ after
    pub undecided : All (λ i. decide i ≡ done none) passed
    pub decision : decide decider ≡ done (some r)
    pub within : length passed < n

  abbrev pub Answers : ℕ → List ℕ → FlowDepResult → Type 0
  Answers n is r =
      (All (λ i. decide i ≡ done none) is × (length is ≤ n) × (r ≡ end))
      ⊎ ((n < length is) × (r ≡ get_unknown))
      ⊎ IsDecided n is r

  Answers-cons :
      (n i : ℕ) (is : List ℕ) (r : FlowDepResult)
      → decide i ≡ done none
      → Answers n is r
      → Answers (suc n) (i ∷ is) r
  Answers-cons n i is r h (inl (pass, short, e)) = inl ((h, pass), omega arith, e)
  Answers-cons n i is r h (inr (inl (long, e))) = inr (inl (omega arith, e))
  Answers-cons n i is r h (inr (inr d)) = inr (
      inr (record {
        passed = i ∷ d.passed;
        decider = d.decider;
        after = d.after;
        split = ap (λ l. i ∷ l) d.split;
        undecided = (h, d.undecided);
        decision = d.decision;
        within = omega (arith, d.within);
      }))

  -- If every instruction decides without a fault, so does the scan.
  pub reference-Answers :
      (n : ℕ) (is : List ℕ)
      → All (λ i. (o : Option FlowDepResult) × (decide i ≡ done o)) is
      → (r : FlowDepResult) × (reference decide end n is ≡ done r) × Answers n is r
  unfolding reference nearest or_else
  reference-Answers n [] h = (end, reference-nil decide end n, inl (tt, omega arith, refl))
  reference-Answers zero (i ∷ is) h =
      (get_unknown, rw (fits_zero i is) refl, inr (inl (omega arith, refl)))
  reference-Answers (suc n) (i ∷ is) ((some r, e), h) = (
    r,
    rw e refl,
    inr (
        inr (record {
          passed = [];
          decider = i;
          after = is;
          split = refl;
          undecided = tt;
          decision = e;
          within = omega arith;
        })),
  )
  reference-Answers (suc n) (i ∷ is) ((none, e), h) =
      let (r, found, cases) = reference-Answers n is h in
      (
        r,
        sym (reference-suc decide end n i is (done none) e) ∙ found,
        Answers-cons n i is r e cases,
      )
