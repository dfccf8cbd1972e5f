-- ===== src/Program/Report/Rows.antt =====
-- Which lines the report has, and the names on them.
use mathlib.Core.List.{Memᴰ}
use mathlib.Core.List.Memᴰ
use dep_taint.Prelude.{ℕ, ◌<◌, ◌≤◌, ◌≡◌, ◌⊎◌, false, List, [], ◌∷◌}
use dep_taint.Prelude.PtrMap.{PtrMap}
use dep_taint.Ir.{Ir, is_call}
use dep_taint.Program.Taint.{Names}

module _ (ir : Ir) (m : PtrMap ℕ) where
  -- An instruction that is no call stands on this line.
  abbrev pub IsReported : List ℕ → ℕ → Type 0
  IsReported is line =
      (0 < line) × (i : ℕ) × Memᴰ i is × (is_call (ir.opcode i) ≡ false) × (ir.line i ≡ line)

module _ (ir : Ir) (line : ℕ) where
  -- The names of the variables whose recorded line is not after this one, in the order of the map.
  abbrev pub AreListed : PtrMap ℕ → Names → Type 0
  AreListed [] ns = ns ≡ []
  AreListed ((p, since) ∷ ps) ns =
      (line < since) × AreListed ps ns
      ⊎ (since ≤ line) × (rest : Names) × (ns ≡ ir.name p ∷ rest) × AreListed ps rest
