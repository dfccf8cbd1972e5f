-- ===== src/Program/Build/Alike.antt =====
-- Heaps of wrappers that agree but for the access flags.
use dep_taint.Prelude.{ℕ, ◌≡◌, refl, sym, ap, ◌∙◌, inl, inr, true, some, arith, ◌==◌, Bool-cases}
use dep_taint.Prelude.PtrMap
use dep_taint.Wrapper.{Wrapper, Statics}
use dep_taint.Program.Adds.{IsPresent}

-- Every wrapper of the first heap is in the second, but for its flag; the lists are the same.
pub record IsAlike (s r : Statics) : Type 0 where
  pub same_globals : s.global_list ≡ r.global_list
  pub same_nodes : s.nodes ≡ r.nodes
  pub kept :
      (p : ℕ) (w : Wrapper)
      → PtrMap.lookup p s.heap ≡ some w
      → (v : Wrapper) × (PtrMap.lookup p r.heap ≡ some v)
        × (v.type ≡ w.type)
        × (v.instruction ≡ w.instruction)
        × (v.value ≡ w.value)

pub IsAlike-refl : (s : Statics) → IsAlike s s
IsAlike-refl s = record {
  same_globals = refl;
  same_nodes = refl;
  kept = λ p w at. (w, at, refl, refl, refl);
}

pub IsAlike-trans : (s r q : Statics) → IsAlike s r → IsAlike r q → IsAlike s q
IsAlike-trans s r q a b = record {
  same_globals = a.same_globals ∙ b.same_globals;
  same_nodes = a.same_nodes ∙ b.same_nodes;
  kept = λ p w at.
      let (v, vt, ty, inst, value) = a.kept p w at in
      let (u, ut, ty', inst', value') = b.kept p v vt in
      (u, ut, ty' ∙ ty, inst' ∙ inst, value' ∙ value);
}

-- The wrapper at `p` with its access flag set.
abbrev pub marked : Statics → ℕ → Wrapper → Statics
marked s p w = record s { heap = PtrMap.insert p (record w { access = true }) s.heap }

pub IsAlike-marked :
    (s : Statics) (p : ℕ) (w : Wrapper) → PtrMap.lookup p s.heap ≡ some w → IsAlike s (marked s p w)
IsAlike-marked s p w here = record {
  same_globals = refl;
  same_nodes = refl;
  kept = λ q u at. elim (Bool-cases (p == q)) [
    | inl same ↦
        let e : q ≡ p = ground (arith, same) in
        let old : u ≡ w = ground (arith, at, here, e) in
        (
          record w { access = true },
          ground (arith, PtrMap.lookup-insert p q (record w { access = true }) s.heap, same),
          ap (λ k. k.type) (sym old),
          ap (λ k. k.instruction) (sym old),
          ap (λ k. k.value) (sym old),
        )
    | inr other ↦ (
      u,
      ground (arith, PtrMap.lookup-insert p q (record w { access = true }) s.heap, other, at),
      refl,
      refl,
      refl,
    )
  ];
}

pub IsAlike-unmarked :
    (s : Statics) (p : ℕ) (w : Wrapper) → PtrMap.lookup p s.heap ≡ some w → IsAlike (marked s p w) s
IsAlike-unmarked s p w here = record {
  same_globals = refl;
  same_nodes = refl;
  kept = λ q u at. elim (Bool-cases (p == q)) [
    | inl same ↦
        let e : q ≡ p = ground (arith, same) in
        let old : record w { access = true } ≡ u =
          ground (arith, PtrMap.lookup-insert p q (record w { access = true }) s.heap, same, at) in
        (w, rw e here, ap (λ k. k.type) old, ap (λ k. k.instruction) old, ap (λ k. k.value) old)
    | inr other ↦ (
      u,
      ground (arith, PtrMap.lookup-insert p q (record w { access = true }) s.heap, other, at),
      refl,
      refl,
      refl,
    )
  ];
}

pub IsPresent-alike : (s r : Statics) (p : ℕ) → IsAlike s r → IsPresent s p → IsPresent r p
IsPresent-alike s r p a (w, at) = let (v, vt, ty, inst, value) = a.kept p w at in (v, vt)
