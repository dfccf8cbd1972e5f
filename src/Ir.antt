-- ===== src/Ir.antt =====
-- LLVM's intermediate representation, which the passes read and do not change: a parameter of the
-- model. A pointer to an instruction, a block, a function, a type or a value is its address, and 0
-- is the null pointer; an instruction is a value and has one address.
use dep_taint.Prelude.{ℕ, List, [], ◌∷◌, ◌++◌, Bool, true, false}
use Prim.Native.String.{String}

-- What `isa` tells apart.
pub data Opcode : Type 0 where
  load store return call branch alloca bit_cast other : Opcode

pub record Ir : Type 0 where
  -- Whether a value is an instruction, and of which class.
  pub is_instruction : ℕ → Bool
  pub opcode : ℕ → Opcode
  pub name : ℕ → String
  -- getDebugLoc().getLine()
  pub line : ℕ → ℕ
  -- The instruction's block, the block's function.
  pub block_of : ℕ → ℕ
  pub function_of : ℕ → ℕ
  pub operands : ℕ → List ℕ
  -- getPointerOperand of a load or a store, getValueOperand of a store, getReturnValue of a return.
  pub pointer_operand : ℕ → ℕ
  pub value_operand : ℕ → ℕ
  pub return_value : ℕ → ℕ
  pub is_pointer_type : ℕ → Bool
  -- The blocks of a function, the instructions of a block and its successors, in order.
  pub blocks : ℕ → List ℕ
  pub insts : ℕ → List ℕ
  pub successors : ℕ → List ℕ
  pub terminator : ℕ → ℕ
  pub is_conditional : ℕ → Bool

-- What the passes read of a call; `called` is the null pointer for an indirect call.
pub record Calls : Type 0 where
  pub called : ℕ → ℕ
  pub is_tail_call : ℕ → Bool
  pub is_intrinsic : ℕ → Bool
  pub is_declaration : ℕ → Bool
  pub is_var_annotation : ℕ → Bool
  pub first_operand : ℕ → ℕ

abbrev pub is_load : Opcode → Bool
is_load Opcode.load = true
is_load _ = false

abbrev pub is_store : Opcode → Bool
is_store Opcode.store = true
is_store _ = false

abbrev pub is_return : Opcode → Bool
is_return Opcode.return = true
is_return _ = false

abbrev pub is_call : Opcode → Bool
is_call Opcode.call = true
is_call _ = false

abbrev pub is_branch : Opcode → Bool
is_branch Opcode.branch = true
is_branch _ = false

abbrev pub is_alloca : Opcode → Bool
is_alloca Opcode.alloca = true
is_alloca _ = false

abbrev pub is_bit_cast : Opcode → Bool
is_bit_cast Opcode.bit_cast = true
is_bit_cast _ = false

module _ (ir : Ir) where
  pub insts_of_blocks : List ℕ → List ℕ
  insts_of_blocks [] = []
  insts_of_blocks (b ∷ bs) = ir.insts b ++ insts_of_blocks bs

  -- inst_begin(F) to inst_end(F)
  unfoldable pub instructions : ℕ → List ℕ
  unfolding insts_of_blocks
  instructions f = insts_of_blocks (ir.blocks f)
