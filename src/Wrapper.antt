-- ===== src/Wrapper.antt =====
-- The class InstructionWrapper of include/DependencyGraph.h, with its static members. `new` hands
-- out the address `addr n` at the n-th call, where `addr` is a parameter: of `operator new` the
-- model relies only on distinct addresses that are not null.
pub mod Laws
use dep_taint.Prelude.{ℕ, zero, suc, ◌≡◌, ◌≢◌, Bool, true, false, Option, none, some, List, [], ◌∷◌}
use dep_taint.Prelude.Int.{ℤ, pos, negsuc}
use dep_taint.Prelude.PtrMap
use dep_taint.Prelude.PtrMap.{PtrMap}
use dep_taint.Prelude.PtrSet
use dep_taint.Prelude.PtrSet.{PtrSet}
use dep_taint.Prelude.Outcome.{Outcome, done, fault}
use dep_taint.Ir.{Ir, instructions}

pub data InstWrapperType : Type 0 where
  inst formal_in formal_out actual_in actual_out return pointer_rw parameter_field : InstWrapperType
  entry global_value : InstWrapperType

-- The enumerators' values.
abbrev pub wrapper_code : InstWrapperType → ℕ
wrapper_code InstWrapperType.inst = 0
wrapper_code InstWrapperType.formal_in = 1
wrapper_code InstWrapperType.formal_out = 2
wrapper_code InstWrapperType.actual_in = 3
wrapper_code InstWrapperType.actual_out = 4
wrapper_code InstWrapperType.return = 5
wrapper_code InstWrapperType.pointer_rw = 6
wrapper_code InstWrapperType.parameter_field = 7
wrapper_code InstWrapperType.entry = 8
wrapper_code InstWrapperType.global_value = 9

abbrev pub is_inst : InstWrapperType → Bool
is_inst InstWrapperType.inst = true
is_inst _ = false

abbrev pub is_entry : InstWrapperType → Bool
is_entry InstWrapperType.entry = true
is_entry _ = false

abbrev pub is_global : InstWrapperType → Bool
is_global InstWrapperType.global_value = true
is_global _ = false

-- `none` is a member that the constructor leaves uninitialised.
pub record Wrapper : Type 0 where
  pub node_id : Option ℤ
  pub instruction : ℕ
  pub block : ℕ
  pub function : ℕ
  pub value : ℕ
  pub argument : ℕ
  pub field_type : Option ℕ
  pub field_id : Option ℤ
  pub type : InstWrapperType
  pub flag : Bool
  pub access : Bool

-- The six constructors, in the order of the class.
unfoldable pub of_value : ℕ → ℕ → ℕ → InstWrapperType → Wrapper
of_value i f v ty = record {
  node_id = none;
  instruction = i;
  block = 0;
  function = f;
  value = v;
  argument = 0;
  field_type = some 0;
  field_id = some (negsuc 0);
  type = ty;
  flag = false;
  access = false;
}

unfoldable pub of_field : ℕ → ℕ → ℕ → ℤ → InstWrapperType → Wrapper
of_field f a field id ty = record {
  node_id = none;
  instruction = 0;
  block = 0;
  function = f;
  value = a;
  argument = a;
  field_type = some field;
  field_id = some id;
  type = ty;
  flag = false;
  access = false;
}

unfoldable pub of_argument : ℕ → ℕ → InstWrapperType → Wrapper
of_argument f a ty = record {
  node_id = none;
  instruction = 0;
  block = 0;
  function = f;
  value = a;
  argument = a;
  field_type = some 0;
  field_id = some (negsuc 0);
  type = ty;
  flag = false;
  access = false;
}

unfoldable pub of_function : ℕ → InstWrapperType → Wrapper
of_function f ty = record {
  node_id = none;
  instruction = 0;
  block = 0;
  function = f;
  value = 0;
  argument = 0;
  field_type = none;
  field_id = none;
  type = ty;
  flag = false;
  access = false;
}

unfoldable pub of_block : ℕ → ℕ → ℕ → Wrapper
of_block i b f = record {
  node_id = none;
  instruction = i;
  block = b;
  function = f;
  value = i;
  argument = 0;
  field_type = some 0;
  field_id = some (negsuc 0);
  type = InstWrapperType.inst;
  flag = false;
  access = false;
}

unfoldable pub of_instruction : ℕ → ℕ → InstWrapperType → Wrapper
of_instruction i f ty = record {
  node_id = none;
  instruction = i;
  block = 0;
  function = f;
  value = i;
  argument = 0;
  field_type = some 0;
  field_id = some (negsuc 0);
  type = ty;
  flag = false;
  access = false;
}

-- The wrappers that live on the heap, and the static members.
pub record Statics : Type 0 where
  pub heap : PtrMap Wrapper
  pub allocated : ℕ
  pub nodes : PtrSet
  pub global_list : PtrSet
  pub inst_map : PtrMap ℕ
  pub func_inst_w_list : PtrMap PtrSet

unfoldable pub no_statics : Statics
no_statics = record {
  heap = [];
  allocated = 0;
  nodes = [];
  global_list = [];
  inst_map = [];
  func_inst_w_list = [];
}

-- `instMap[i]`, which adds a null pointer for a missing key.
unfoldable pub inst_wrapper : Statics → ℕ → Statics × ℕ
inst_wrapper s i = elim (PtrMap.lookup i s.inst_map) [
  | some w ↦ (s, w)
  | none ↦ (record s { inst_map = PtrMap.insert i 0 s.inst_map }, 0)
]

-- The loop erases every pointer; no wrapper is deleted.
unfoldable pub release_memory : Statics → Statics
release_memory s = record s { nodes = []; inst_map = []; func_inst_w_list = [] }

-- `*p`; the heap has no wrapper at the null pointer.
unfoldable pub deref : Statics → ℕ → Outcome Wrapper
deref s p = elim (PtrMap.lookup p s.heap) [ none ↦ fault | some w ↦ done w ]

-- What the model relies on of `operator new`.
pub record IsAllocator (addr : ℕ → ℕ) : Type 0 where
  pub not_null : (n : ℕ) → addr n ≢ 0
  pub distinct : (m n : ℕ) → addr m ≡ addr n → m ≡ n

module _ (addr : ℕ → ℕ) where
  unfoldable pub new_wrapper : Statics → Wrapper → Statics × ℕ
  new_wrapper s w = (
    record s { heap = PtrMap.insert (addr s.allocated) w s.heap; allocated = suc s.allocated },
    addr s.allocated,
  )

  -- nodes.insert(w), and funcInstWList[f].insert(w)
  unfoldable pub register : Statics → ℕ → ℕ → Statics
  register s f w = record s {
    nodes = PtrSet.insert w s.nodes;
    func_inst_w_list =
        PtrMap.insert f (PtrSet.insert w (PtrMap.get_or f [] s.func_inst_w_list))
          s.func_inst_w_list;
  }

  -- The body of the loop, for an instruction that has no wrapper yet.
  unfoldable pub wrap_instruction : Statics → ℕ → ℕ → Statics
  unfolding new_wrapper register
  wrap_instruction s f i =
      let (s1, w) = new_wrapper s (of_instruction i f InstWrapperType.inst) in
      register (record s1 { inst_map = PtrMap.insert i w s1.inst_map }) f w

  unfoldable pub visit_instruction : Statics → ℕ → ℕ → Statics
  unfolding wrap_instruction
  visit_instruction s f i = elim (PtrMap.lookup i s.inst_map) [
    | some w ↦ s
    | none ↦ wrap_instruction s f i
  ]

  unfoldable pub wrap_all : Statics → ℕ → List ℕ → Statics
  unfolding visit_instruction
  wrap_all s f [] = s
  wrap_all s f (i ∷ is) = wrap_all (visit_instruction s f i) f is

  unfoldable pub construct_inst_map : Ir → Statics → ℕ → Statics
  unfolding wrap_all
  construct_inst_map ir s f = wrap_all s f (instructions ir f)
