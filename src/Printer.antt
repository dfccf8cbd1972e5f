-- ===== src/Printer.antt =====
-- getNodeLabel and getEdgeAttributes of src/DepPrinter.cpp. A text is the list of its pieces; what
-- LLVM prints for a value, a type, an integer or a function's name is a parameter.
pub mod Raw
use Prim.Native.String.{String}
use dep_taint.Prelude.{ℕ, Bool, true, false, Option, none, some, List, [], ◌∷◌, ◌==◌, if◌then◌else◌}
use dep_taint.Prelude.Int.{ℤ}
use dep_taint.Prelude.Outcome.{Outcome, done, fault}
use dep_taint.Ir.{Ir, is_load, is_call}
use dep_taint.Wrapper.{Wrapper, InstWrapperType}

pub record Texts : Type 0 where
  pub of_value : ℕ → String
  pub of_type : ℕ → String
  pub of_int : ℤ → String
  pub function_name : ℕ → String
  -- getType of a value.
  pub type_of : ℕ → ℕ

pub is_empty : String → Bool
is_empty String.[] = true
is_empty (String.◌∷◌ c s) = false

abbrev pub raw_prefix : String
raw_prefix = "style=dotted,label = \"{RAW} "

module _ (ir : Ir) where
  -- Of the node at the end of the link the code reads the instruction, which may be null.
  unfoldable pub raw_attributes : Wrapper → Outcome (List String)
  raw_attributes v =
      if v.instruction == 0
      then fault
      else if is_load (ir.opcode v.instruction)
      then done (raw_prefix ∷ ir.name (ir.pointer_operand v.instruction) ∷ "\"" ∷ [])
      else if is_call (ir.opcode v.instruction)
      then done ("style=dotted,label = \"{RAW}\"" ∷ [])
      else done []

  -- The type of the link, and the wrapper of the node that it leads to. 9 is GLOBAL_VALUE. For
  -- DATA_DEF_USE the code also reads the instruction of the node at the start, and does not use it.
  unfoldable pub edge_attributes : ℕ → Wrapper → Outcome (List String)
  unfolding raw_attributes
  edge_attributes type v =
      if type == 1
      then done []
      else if type == 2
      then done ("style=dotted" ∷ [])
      else if type == 9
      then done ("style=dotted" ∷ [])
      else if type == 5
      then done ("style=dashed" ∷ [])
      else if type == 3
      then done ("style=dotted,label = \"{DEF_USE}\" " ∷ [])
      else if type == 4
      then raw_attributes v
      else done []

  module _ (tx : Texts) where
    -- The last part: the instruction, by its name if the graph is simple and it has one.
    unfoldable pub instruction_label : Bool → Wrapper → Outcome (List String)
    instruction_label simple w =
        if w.instruction == 0
        then fault
        else if simple
        then if is_empty (ir.name w.instruction)
          then done (tx.of_value w.instruction ∷ [])
          else done (ir.name w.instruction ∷ [])
        else done (tx.of_value w.instruction ∷ [])

    -- The text of a wrapper's argument type, after a prefix.
    unfoldable pub argument_label : String → Wrapper → Outcome (List String)
    argument_label prefix w =
        if w.argument == 0 then fault else done (prefix ∷ tx.of_type (tx.type_of w.argument) ∷ [])

    -- A field without a type, or with one that is not initialised, is a null or a wild pointer.
    unfoldable pub field_label : Wrapper → Outcome (List String)
    field_label w = elim w.field_id [
      | none ↦ fault
      | some id ↦ elim w.field_type [
        | none ↦ fault
        | some ty ↦ if ty == 0 then fault else done (tx.of_int id ∷ " " ∷ tx.of_type ty ∷ [])
      ]
    ]

    -- `none` is a node whose datum is the null pointer.
    unfoldable pub node_label : Bool → Option Wrapper → Outcome (List String)
    unfolding instruction_label argument_label field_label
    node_label simple none = done ("null instW" ∷ [])
    node_label simple (some w) = elim w.type [
      | InstWrapperType.entry ↦
          if w.function == 0 then fault else done ("<<ENTRY>> " ∷ tx.function_name w.function ∷ [])
      | InstWrapperType.global_value ↦
          if w.value == 0 then fault else done ("GLOBAL_VALUE:" ∷ tx.of_value w.value ∷ [])
      | InstWrapperType.formal_in ↦ argument_label "FORMAL_IN:" w
      | InstWrapperType.actual_in ↦ argument_label "ACTUAL_IN:" w
      | InstWrapperType.formal_out ↦ argument_label "FORMAL_OUT:" w
      | InstWrapperType.actual_out ↦ argument_label "ACTUAL_OUT:" w
      | InstWrapperType.parameter_field ↦ field_label w
      | InstWrapperType.pointer_rw ↦ argument_label "POINTER READ/WRITE : *" w
      | InstWrapperType.inst ↦ instruction_label simple w
      | InstWrapperType.return ↦ instruction_label simple w
    ]
