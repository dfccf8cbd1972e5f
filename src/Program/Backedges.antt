-- ===== src/Program/Backedges.antt =====
-- FindFunctionBackedges of src/ProgramDependencies.cpp: a depth-first search over the blocks of a
-- function with an explicit stack.
pub mod Cycles
pub mod Found
use dep_taint.Prelude.{
  ℕ, zero, suc, Bool, true, false, not, Option, none, some, List, [], ◌∷◌, ◌++◌, if◌then◌else◌,
}
use dep_taint.Prelude.Outcome.{Outcome, done, fault, out_of_fuel, ◌>>=◌}
use dep_taint.Prelude.PtrSet
use dep_taint.Prelude.PtrSet.{PtrSet}
use dep_taint.Ir.{Ir}

-- Visited, VisitStack with its top first, InStack and Result. An entry of the stack is a block with
-- the successors that its iterator has not come to.
pub record Search : Type 0 where
  pub visited : PtrSet
  pub stack : List (ℕ × List ℕ)
  pub in_stack : PtrSet
  pub result : List (ℕ × ℕ)

-- The inner loop over the successors of `parent`: the first that is new with those after it, and the
-- edges reported on the way.
unfoldable pub next_child :
    PtrSet → PtrSet → ℕ → List ℕ → List (ℕ × ℕ) → Option (ℕ × List ℕ) × List (ℕ × ℕ)
unfolding PtrSet.contains
next_child visited in_stack parent [] edges = (none, edges)
next_child visited in_stack parent (b ∷ bs) edges =
    let reported = if PtrSet.contains b in_stack then edges ++ (parent, b) ∷ [] else edges in
    let later = next_child visited in_stack parent bs reported in
    if PtrSet.contains b visited then later else (some (b, bs), edges)

module _ (ir : Ir) where
  -- One level down to a new block, or one level up.
  unfoldable pub move : Search → ℕ → List (ℕ × List ℕ) → Option (ℕ × List ℕ) × List (ℕ × ℕ) → Search
  move st parent below (none, edges) = record {
    visited = st.visited;
    stack = below;
    in_stack = PtrSet.erase parent st.in_stack;
    result = edges;
  }
  move st parent below (some (b, bs), edges) = record {
    visited = PtrSet.insert b st.visited;
    stack = (b, ir.successors b) ∷ (parent, bs) ∷ below;
    in_stack = PtrSet.insert b st.in_stack;
    result = edges;
  }

  -- The body of the outer loop; the stack is not empty there.
  unfoldable pub advance : Search → List (ℕ × List ℕ) → Outcome Search
  unfolding next_child move
  advance st [] = fault
  advance st ((parent, bs) ∷ below) =
      done (move st parent below (next_child st.visited st.in_stack parent bs st.result))

  -- The outer loop, which tests the stack after its body.
  unfoldable pub search : ℕ → Search → Outcome (List (ℕ × ℕ))
  unfolding advance
  search zero st = out_of_fuel
  search (suc fuel) st = advance st st.stack >>= λ next. elim next.stack [
    | [] ↦ done next.result
    | _ ∷ _ ↦ search fuel next
  ]

  unfoldable pub start_search : ℕ → List (ℕ × ℕ) → Search
  start_search entry result = record {
    visited = entry ∷ [];
    stack = (entry, ir.successors entry) ∷ [];
    in_stack = entry ∷ [];
    result = result;
  }

  -- From the first block on; `result` is what the vector holds before.
  unfoldable pub find_from : ℕ → List (ℕ × ℕ) → List ℕ → Outcome (List (ℕ × ℕ))
  unfolding search start_search
  find_from fuel result [] = fault
  find_from fuel result (entry ∷ _) = elim (ir.successors entry) [
    | [] ↦ done result
    | _ ∷ _ ↦ search fuel (start_search entry result)
  ]

  -- A function with a body.
  unfoldable pub find_function_backedges : ℕ → ℕ → List (ℕ × ℕ) → Outcome (List (ℕ × ℕ))
  unfolding find_from
  find_function_backedges fuel f result = find_from fuel result (ir.blocks f)
