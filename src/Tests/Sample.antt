-- ===== src/Tests/Sample.antt =====
-- A function with a loop, as clang would give it: x = …; while (x < …) x = …; return x.
-- Block 10 is the entry, 20 the condition, 30 the body and 40 the exit.
use dep_taint.Prelude.{
  ℕ, ◌+◌, ◌*◌, ◌<◌, ◌≢◌, true, false, List, [], ◌∷◌, arith, All, ◌==◌, if◌then◌else◌, Bool-cases,
  inl, inr,
}
use dep_taint.Prelude.PtrMap.{PtrMap}
use dep_taint.Ir.{Ir, Opcode}
use dep_taint.Wrapper.{IsAllocator}
use dep_taint.Control.{Pdt}
use dep_taint.Control.Paths.{IsTree}

abbrev pub table {ℓ} : {V : Type ℓ} → V → PtrMap V → ℕ → V
table d [] k = d
table d ((j, v) ∷ m) k = if j == k then v else table d m k

-- What holds of the default and of every entry holds of every look-up.
pub table_all {ℓ κ} :
    {V : Type ℓ} (P : V → Type κ) (d : V) (m : PtrMap V)
    → P d
    → All (λ e. P e.1) m
    → (k : ℕ) → P (table d m k)
table_all P d [] h ps k = h
table_all P d ((j, v) ∷ m) h ps k = elim (Bool-cases (j == k)) [
  | inl same ↦ rw same ps.0
  | inr other ↦ rw other (table_all P d m h ps.1 k)
]

abbrev pub sample_blocks : PtrMap (List ℕ)
sample_blocks =
    (10, 101 ∷ 102 ∷ 103 ∷ [])
    ∷ (20, 201 ∷ 202 ∷ 203 ∷ [])
    ∷ (30, 301 ∷ 302 ∷ [])
    ∷ (40, 401 ∷ 402 ∷ [])
    ∷ []

abbrev pub sample : Ir
sample = record {
  is_instruction = λ v. if v == 900 then false else true;
  opcode = table Opcode.other (
      (101, Opcode.alloca)
      ∷ (102, Opcode.store)
      ∷ (103, Opcode.branch)
      ∷ (201, Opcode.load)
      ∷ (203, Opcode.branch)
      ∷ (301, Opcode.store)
      ∷ (302, Opcode.branch)
      ∷ (401, Opcode.load)
      ∷ (402, Opcode.return)
      ∷ []);
  name = λ i. if i == 101 then "x" else "";
  line = table 0 (
      (102, 4)
      ∷ (103, 5)
      ∷ (201, 5)
      ∷ (202, 5)
      ∷ (203, 5)
      ∷ (301, 6)
      ∷ (302, 5)
      ∷ (401, 8)
      ∷ (402, 8)
      ∷ []);
  block_of = table 0 (
      (101, 10)
      ∷ (102, 10)
      ∷ (103, 10)
      ∷ (201, 20)
      ∷ (202, 20)
      ∷ (203, 20)
      ∷ (301, 30)
      ∷ (302, 30)
      ∷ (401, 40)
      ∷ (402, 40)
      ∷ []);
  function_of = λ b. 1;
  operands = table [] (
      (102, 900 ∷ 101 ∷ [])
      ∷ (201, 101 ∷ [])
      ∷ (202, 201 ∷ [])
      ∷ (203, 202 ∷ [])
      ∷ (301, 201 ∷ 101 ∷ [])
      ∷ (401, 101 ∷ [])
      ∷ (402, 401 ∷ [])
      ∷ []);
  pointer_operand = λ i. 101;
  value_operand = table 0 ((102, 900) ∷ (301, 201) ∷ []);
  return_value = table 0 ((402, 401) ∷ []);
  is_pointer_type = λ v. v == 101;
  blocks = table [] ((1, 10 ∷ 20 ∷ 30 ∷ 40 ∷ []) ∷ []);
  insts = table [] sample_blocks;
  successors = table [] ((10, 20 ∷ []) ∷ (20, 30 ∷ 40 ∷ []) ∷ (30, 20 ∷ []) ∷ []);
  terminator = table 402 ((10, 103) ∷ (20, 203) ∷ (30, 302) ∷ []);
  is_conditional = λ i. i == 203;
}

-- Node 1 is the virtual root.
abbrev pub sample_pdt : Pdt
sample_pdt = record {
  node = table 0 ((10, 1010) ∷ (20, 1020) ∷ (30, 1030) ∷ (40, 1040) ∷ []);
  block = table 0 ((1010, 10) ∷ (1020, 20) ∷ (1030, 30) ∷ (1040, 40) ∷ []);
  idom = table 0 ((1010, 1020) ∷ (1020, 1040) ∷ (1030, 1020) ∷ (1040, 1) ∷ []);
  dominates = λ a b.
      if a == b
      then true
      else if a == 40
      then true
      else if a == 20
      then (if b == 40 then false else true)
      else false;
  nearest = λ a b. if a == b then a else if a == 40 then 40 else if b == 40 then 40 else 20;
}

abbrev pub sample_level : ℕ → ℕ
sample_level = table 1 ((0, 0) ∷ (1010, 4) ∷ (1020, 3) ∷ (1030, 4) ∷ (1040, 2) ∷ [])

pub sample_up : (n : ℕ) → n ≢ 0 → sample_level (sample_pdt.idom n) < sample_level n
sample_up n h = ground arith

abbrev pub sample_tree : IsTree sample_pdt
sample_tree = record { level = sample_level; up = sample_up }

abbrev pub sample_addr : ℕ → ℕ
sample_addr n = n * 16 + 4096

pub sample_alloc : IsAllocator sample_addr
sample_alloc = record { not_null = λ n. omega arith; distinct = λ m n h. omega arith }
