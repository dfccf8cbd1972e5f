-- ===== src/FlowDependence/Order/Single.antt =====
-- Cached entries of which no two are of the same block.
use dep_taint.Prelude.{
  ℕ, ◌≡◌, refl, Bool, false, ◌||◌, List, [], ◌∷◌, ◌++◌, arith, ◌==◌, any, any-concat,
}
use dep_taint.FlowDependence.Forget.{Entry}

abbrev pub has_block : ℕ → List Entry → Bool
has_block b = any (λ e. e.0 == b)

abbrev pub IsSingle : List Entry → Type 0
IsSingle [] = Unit
IsSingle (e ∷ es) = (has_block e.0 es ≡ false) × IsSingle es

pub has_block-concat :
    (b : ℕ) (e : Entry) (es : List Entry)
    → has_block b (es ++ e ∷ []) ≡ (e.0 == b || has_block b es)
has_block-concat b e es = any-concat (λ d. d.0 == b) es e

pub IsSingle-concat :
    (e : Entry) (es : List Entry) → has_block e.0 es ≡ false → IsSingle es → IsSingle (es ++ e ∷ [])
IsSingle-concat e [] new s = (refl, tt)
IsSingle-concat e (d ∷ es) new s = (
  ground (arith, has_block-concat d.0 e es, new, s.0),
  IsSingle-concat e es (ground (arith, new)) s.1,
)
