-- ===== src/Program/Adds.antt =====
-- What a run of the program dependency graph's construction adds to the graph.
use dep_taint.Prelude.{
  ℕ, ◌≡◌, refl, ◌⊎◌, inl, inr, ◌↔◌, Bool, true, false, some, arith, if◌then◌else◌,
}
use dep_taint.Prelude.Outcome.{Outcome, done, ◌>>=◌}
use dep_taint.Prelude.PtrMap
use dep_taint.Graph.{Graph, add_dependency}
use dep_taint.Graph.Valid.{IsValid, add_dependency-IsValid}
use dep_taint.Graph.Edges.{has_edge}
use dep_taint.Graph.Queries.{has_edge-add_dependency}
use dep_taint.Wrapper.{Wrapper, Statics}

-- A run on a graph that returns, keeps it valid and adds the edges `new` and no other.
pub record Adds (g : Graph) (new : ℕ → ℕ → ℕ → Type 0) (m : Outcome Graph) : Type 0 where
  pub result : Graph
  pub ran : m ≡ done result
  pub valid : IsValid result
  pub exact : (x y t : ℕ) → (has_edge result x y t ≡ true) ↔ ((has_edge g x y t ≡ true) ⊎ new x y t)

-- The edge from `p` to `q`, under a condition.
abbrev pub Single : ℕ → ℕ → ℕ → Bool → ℕ → ℕ → ℕ → Type 0
Single p q type c x y t = (x ≡ p) × (y ≡ q) × (t ≡ type) × (c ≡ true)

abbrev pub IsPresent : Statics → ℕ → Type 0
IsPresent s p = (w : Wrapper) × (PtrMap.lookup p s.heap ≡ some w)

pub Adds-none :
    (g : Graph) (new : ℕ → ℕ → ℕ → Type 0)
    → IsValid g
    → ((x y t : ℕ) → ¬ new x y t)
    → Adds g new (done g)
Adds-none g new v none = record {
  result = g;
  ran = refl;
  valid = v;
  exact = λ x y t. (inl, λ e. elim e [ inl old ↦ old | inr n ↦ absurd (none x y t n) ]);
}

-- One conditional addDependency.
pub Adds-if :
    (g : Graph) (c : Bool) (a b type : ℕ)
    → IsValid g
    → Adds g (Single a b type c) (done (if c then add_dependency g a b type else g))
Adds-if g false a b type v = Adds-none g _ v (λ x y t n. ground (arith, n))
Adds-if g true a b type v = record {
  result = add_dependency g a b type;
  ran = refl;
  valid = add_dependency-IsValid g a b type v;
  exact = λ x y t. ground (arith, has_edge-add_dependency g a b type x y t v);
}

pub Adds-then :
    (g : Graph) (p q new : ℕ → ℕ → ℕ → Type 0) (m : Outcome Graph) (k : Graph → Outcome Graph)
    → ((x y t : ℕ) → new x y t ↔ (p x y t ⊎ q x y t))
    → Adds g p m
    → ((h : Graph) → IsValid h → Adds h q (k h))
    → Adds g new (m >>= k)
Adds-then g p q new m k split first next =
    let second = next first.result first.valid in
    record {
      result = second.result;
      ran = rw first.ran second.ran;
      valid = second.valid;
      exact = λ x y t. ground (arith, split x y t, first.exact x y t, second.exact x y t);
    }
