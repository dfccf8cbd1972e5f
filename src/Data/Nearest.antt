-- ===== src/Data/Nearest.antt =====
-- Which of the stores that a load may read from the pass picks.
use dep_taint.Prelude.{
  ℕ, ◌≤◌, ◌<◌, ◌-◌, ◌≡◌, refl, ap, ◌⊎◌, inl, inr, List, [], ◌∷◌, ◌++◌, arith, All, ltb, ltb→lt, leb,
  if◌then◌else◌, Bool-cases,
}
use dep_taint.Prelude.Int.{ℤ, pos}
use dep_taint.Ir.{Ir}
use dep_taint.Data.{max_loc_num, unsigned_abs, to_int, diff_load_store, nearest_store}

module _ (ir : Ir) where
  -- The lines between a store and a load, either of which may come first.
  pub distance : ℕ → ℕ → ℕ
  distance st load =
      if leb (ir.line load) (ir.line st)
      then ir.line st - ir.line load
      else ir.line load - ir.line st

  diff-distance :
      (st load : ℕ)
      → ir.line st < 2147483648
      → ir.line load < 2147483648
      → diff_load_store ir st load ≡ pos (distance st load)
  unfolding diff_load_store distance unsigned_abs to_int
  diff-distance st load h k = ground arith

  -- `c` is the first of the nearest among the stores.
  pub record IsNearest (load : ℕ) (sts : List ℕ) (c : ℕ) : Type 0 where
    pub before : List ℕ
    pub after : List ℕ
    pub split : sts ≡ before ++ c ∷ after
    pub farther : All (λ st. distance c load < distance st load) before
    pub no_nearer : All (λ st. distance c load ≤ distance st load) after

  -- With the best distance and the candidate so far.
  abbrev Picks : ℕ → ℕ → ℕ → List ℕ → ℤ × ℕ → Type 0
  Picks load best candidate sts r =
      (All (λ st. best ≤ distance st load) sts × (r ≡ (pos best, candidate)))
      ⊎ ((c : ℕ) × IsNearest load sts c
          × (distance c load < best)
          × (r ≡ (pos (distance c load), c)))

  Picks-closer :
      (load best candidate st : ℕ) (sts : List ℕ) (r : ℤ × ℕ)
      → distance st load < best
      → Picks load (distance st load) st sts r
      → Picks load best candidate (st ∷ sts) r
  Picks-closer load best candidate st sts r h (inl (far, e)) =
      inr
        (st, record { before = []; after = sts; split = refl; farther = tt; no_nearer = far }, h, e)
  Picks-closer load best candidate st sts r h (inr (c, near, lt, e)) = inr (
    c,
    record {
      before = st ∷ near.before;
      after = near.after;
      split = ap (λ l. st ∷ l) near.split;
      farther = (lt, near.farther);
      no_nearer = near.no_nearer;
    },
    omega arith,
    e,
  )

  Picks-earlier :
      (load best candidate st : ℕ) (sts : List ℕ) (r : ℤ × ℕ)
      → best ≤ distance st load
      → Picks load best candidate sts r
      → Picks load best candidate (st ∷ sts) r
  Picks-earlier load best candidate st sts r h (inl (far, e)) = inl ((h, far), e)
  Picks-earlier load best candidate st sts r h (inr (c, near, lt, e)) = inr (
    c,
    record {
      before = st ∷ near.before;
      after = near.after;
      split = ap (λ l. st ∷ l) near.split;
      farther = (omega arith, near.farther);
      no_nearer = near.no_nearer;
    },
    lt,
    e,
  )

  nearest_store_lem :
      (load best candidate : ℕ) (sts : List ℕ)
      → ir.line load < 2147483648
      → All (λ st. ir.line st < 2147483648) sts
      → Picks load best candidate sts (nearest_store ir load (pos best) candidate sts)
  unfolding nearest_store
  nearest_store_lem load best candidate [] h k = inl (tt, refl)
  nearest_store_lem load best candidate (st ∷ sts) h (k, ks) =
      rw (diff-distance st load k h) (elim (Bool-cases (ltb (distance st load) best)) [
        | inl closer ↦ rw closer (
            Picks-closer load best candidate st sts _ (ltb→lt _ _ closer)
              (nearest_store_lem load (distance st load) st sts h ks))
        | inr not_closer ↦ rw not_closer (
            Picks-earlier load best candidate st sts _ (ground arith)
              (nearest_store_lem load best candidate sts h ks))
      ])

  -- For lines below 2 ^ 31 the loop picks the first of the stores that are nearest to the load, if
  -- one lies within 99999 lines, and otherwise leaves the null candidate.
  pub nearest_store_picks :
      (load : ℕ) (sts : List ℕ)
      → ir.line load < 2147483648
      → All (λ st. ir.line st < 2147483648) sts
      → (All (λ st. 100000 ≤ distance st load) sts
          × (nearest_store ir load max_loc_num 0 sts ≡ (max_loc_num, 0)))
        ⊎ ((c : ℕ) × IsNearest load sts c
            × (distance c load < 100000)
            × (nearest_store ir load max_loc_num 0 sts ≡ (pos (distance c load), c)))
  nearest_store_picks load sts h k = nearest_store_lem load 100000 0 sts h k
