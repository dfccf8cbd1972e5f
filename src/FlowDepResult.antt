-- ===== src/FlowDepResult.antt =====
-- The class FlowDepResult of include/FlowDependenceAnalysis.h: what a query for a dependency
-- answers. LLVM's PointerIntPair is a pair of a pointer and a tag; the answers without an instruction
-- are told apart by small numbers in the place of the pointer.
use dep_taint.Prelude.{ℕ, Bool, true, false, ◌&&◌, ◌==◌, if◌then◌else◌}
use dep_taint.Prelude.Outcome.{Outcome, done, fault}

pub data DepType : Type 0 where
  invalid clobber def other : DepType

-- The enumerators of OtherType.
abbrev pub non_local_code : ℕ
non_local_code = 4

abbrev pub non_func_local_code : ℕ
non_func_local_code = 8

abbrev pub unknown_code : ℕ
unknown_code = 12

pub record FlowDepResult : Type 0 where
  pub pointer : ℕ
  pub tag : DepType

unfoldable pub no_result : FlowDepResult
no_result = record { pointer = 0; tag = DepType.invalid }

-- `fault`: the assertion that there is an instruction fails.
unfoldable pub get_def : ℕ → Outcome FlowDepResult
get_def i = if i == 0 then fault else done (record { pointer = i; tag = DepType.def })

unfoldable pub get_clobber : ℕ → Outcome FlowDepResult
get_clobber i = if i == 0 then fault else done (record { pointer = i; tag = DepType.clobber })

unfoldable pub get_non_local : FlowDepResult
get_non_local = record { pointer = non_local_code; tag = DepType.other }

unfoldable pub get_non_func_local : FlowDepResult
get_non_func_local = record { pointer = non_func_local_code; tag = DepType.other }

unfoldable pub get_unknown : FlowDepResult
get_unknown = record { pointer = unknown_code; tag = DepType.other }

abbrev pub is_other : DepType → Bool
is_other DepType.other = true
is_other _ = false

unfoldable pub is_clobber : FlowDepResult → Bool
is_clobber r = elim r.tag [ DepType.clobber ↦ true | _ ↦ false ]

unfoldable pub is_def : FlowDepResult → Bool
is_def r = elim r.tag [ DepType.def ↦ true | _ ↦ false ]

unfoldable pub is_non_local : FlowDepResult → Bool
is_non_local r = is_other r.tag && r.pointer == non_local_code

unfoldable pub is_non_func_local : FlowDepResult → Bool
is_non_func_local r = is_other r.tag && r.pointer == non_func_local_code

unfoldable pub is_unknown : FlowDepResult → Bool
is_unknown r = is_other r.tag && r.pointer == unknown_code

-- The test for answers without an instruction is commented out.
unfoldable pub get_inst : FlowDepResult → ℕ
get_inst r = r.pointer

-- An answer that has to be looked for again, from an instruction on if there is one.
unfoldable pub get_dirty : ℕ → FlowDepResult
get_dirty i = record { pointer = i; tag = DepType.invalid }

unfoldable pub is_dirty : FlowDepResult → Bool
is_dirty r = elim r.tag [ DepType.invalid ↦ true | _ ↦ false ]
