-- ===== src/Tests/Loops.antt =====
-- The back edge of the sample's loop, from the body at 30 to the condition at 20.
use mathlib.Core.List.{Memᴰ}
use dep_taint.Prelude.{ℕ, ◌≡◌, refl, List, [], ◌∷◌, arith, All, All-get}
use dep_taint.Prelude.Outcome.{done}
use dep_taint.Prelude.PtrSet
use dep_taint.Program.Backedges.{find_function_backedges}
use dep_taint.Program.Backedges.Cycles.{IsBackedge}
use dep_taint.Program.Backedges.Found.{IsClosed, find_function_backedges_cycles}
use dep_taint.Tests.Sample.{sample, table_all}

backedges_run : find_function_backedges sample 9 1 [] ≡ done ((30, 20) ∷ [])
unfolding find_function_backedges PtrSet.contains PtrSet.insert PtrSet.erase
backedges_run = refl

abbrev four : List ℕ
four = 10 ∷ 20 ∷ 30 ∷ 40 ∷ []

is_20 : Memᴰ 20 four
is_20 = Memᴰ.tail (Memᴰ.head refl)

is_30 : Memᴰ 30 four
is_30 = Memᴰ.tail (Memᴰ.tail (Memᴰ.head refl))

is_40 : Memᴰ 40 four
is_40 = Memᴰ.tail (Memᴰ.tail (Memᴰ.tail (Memᴰ.head refl)))

sample-IsClosed : IsClosed sample four
sample-IsClosed b c m n =
    All-get (λ k. Memᴰ k four) c (sample.successors b)
      (table_all (All (λ k. Memᴰ k four)) []
        ((10, 20 ∷ []) ∷ (20, 30 ∷ 40 ∷ []) ∷ (30, 20 ∷ []) ∷ []) tt
        ((is_20, tt), ((is_30, (is_40, tt)), ((is_20, tt), tt))) b)
      n

find_function_backedges_cycles_example :
    (es : List (ℕ × ℕ)) × (find_function_backedges sample 9 1 [] ≡ done es)
    × All (IsBackedge sample) es
find_function_backedges_cycles_example =
    find_function_backedges_cycles sample 9 1 10 (20 ∷ 30 ∷ 40 ∷ []) refl sample-IsClosed
      (omega arith)
