-- ===== src/FlowDependence.antt =====
-- The queries of src/FlowDependenceAnalysis.cpp. This file has what they read of LLVM: the alias
-- analysis, the classes and attributes of instructions and the data layout are parameters, fields of
-- `Llvm`; the module's instructions are those of `Ir`.
pub mod Locate
pub mod Calls
pub mod Widen
pub mod Pointers
pub mod Scan
pub mod Cache
pub mod Forget
pub mod Order
pub mod Store
pub mod Remove
pub mod Across
pub mod Block
pub mod Reconcile
pub mod Verify
use dep_taint.Prelude.{
  ℕ, Bool, true, false, Option, none, some, List, [], ◌∷◌, ◌==◌, ◌||◌, if◌then◌else◌, any,
}
use dep_taint.Prelude.Int.{ℤ}
use dep_taint.Prelude.Outcome.{Outcome, done, ◌>>=◌}
use dep_taint.FlowDepResult.{FlowDepResult}
use dep_taint.Data.{AliasResult}

-- AliasAnalysis::ModRefResult: what an instruction may do to a location.
pub data ModRef : Type 0 where
  no_mod_ref ref_only mod_only mod_ref : ModRef

-- AliasAnalysis::Location
pub record Location : Type 0 where
  pub ptr : ℕ
  pub size : ℕ
  pub tag : ℕ

-- The intrinsics that the code tells apart.
pub data Intrinsic : Type 0 where
  lifetime_start lifetime_end invariant_start invariant_end other : Intrinsic

pub record Llvm : Type 0 where
  -- Classes of instructions beside those of Opcode; `none` is no intrinsic.
  pub is_va_arg : ℕ → Bool
  pub is_invoke : ℕ → Bool
  pub is_terminator : ℕ → Bool
  pub intrinsic : ℕ → Option Intrinsic
  pub is_debug : ℕ → Bool
  pub is_free_call : ℕ → Bool
  pub is_no_alias_fn : ℕ → Bool
  pub is_malloc_like : ℕ → Bool
  pub is_calloc_like : ℕ → Bool
  -- Loads and stores.
  pub is_unordered : ℕ → Bool
  pub is_monotonic : ℕ → Bool
  pub is_simple : ℕ → Bool
  pub is_invariant_load : ℕ → Bool
  pub is_integer : ℕ → Bool
  pub bits : ℕ → ℕ
  pub alignment : ℕ → ℕ
  -- The arguments of a call, the value of a constant, the metadata MD_tbaa.
  pub argument : ℕ → ℕ → ℕ
  pub constant : ℕ → ℕ
  pub tbaa : ℕ → ℕ
  pub may_write : ℕ → Bool
  pub may_read : ℕ → Bool
  pub is_identical : ℕ → ℕ → Bool
  -- The alias analysis.
  pub unknown_size : ℕ
  pub location : ℕ → Location
  pub mod_ref_info : ℕ → Location → ModRef
  pub mod_ref_calls : ℕ → ℕ → ModRef
  pub captures_before : ℕ → Location → ModRef
  pub alias : Location → Location → AliasResult
  pub alias_values : ℕ → ℕ → AliasResult
  pub is_must_alias : Location → Location → Bool
  pub is_must_alias_values : ℕ → ℕ → Bool
  pub is_constant_memory : Location → Bool
  pub only_reads_memory : ℕ → Bool
  pub underlying_object : ℕ → ℕ
  -- The data layout, GetPointerBaseWithConstantOffset and NextPowerOf2.
  pub has_data_layout : Bool
  pub base_with_offset : ℕ → ℕ × ℤ
  pub fits_in_legal_integer : ℕ → Bool
  pub next_power_of_2 : ℕ → ℕ
  -- The attributes SanitizeThread and SanitizeAddress of a function.
  pub sanitize_thread : ℕ → Bool
  pub sanitize_address : ℕ → Bool

-- `MR & AliasAnalysis::Mod`
abbrev pub has_mod : ModRef → Bool
has_mod ModRef.no_mod_ref = false
has_mod ModRef.ref_only = false
has_mod ModRef.mod_only = true
has_mod ModRef.mod_ref = true

abbrev pub is_no_mod_ref : ModRef → Bool
is_no_mod_ref ModRef.no_mod_ref = true
is_no_mod_ref _ = false

abbrev pub block_scan_limit : ℕ
block_scan_limit = 100

-- Whether a position is one of a block: an instruction of it or, as 0, its end.
unfoldable pub is_position : ℕ → List ℕ → Bool
is_position pos is = pos == 0 || any (λ i. i == pos) is

-- The instructions before a position of a block, the nearest first: the order in which `--ScanIt`
-- meets them.
unfoldable pub backwards : ℕ → List ℕ → List ℕ → List ℕ
backwards i acc [] = acc
backwards i acc (j ∷ js) = if j == i then acc else backwards i (j ∷ acc) js

-- What the body of a scan's loop comes to for an instruction: `continue`, or a result to return.
unfoldable pub continue : Outcome (Option FlowDepResult)
continue = done none

unfoldable pub answer : Outcome FlowDepResult → Outcome (Option FlowDepResult)
answer m = m >>= λ r. done (some r)

unfoldable pub or_else :
    Outcome (Option FlowDepResult) → Outcome FlowDepResult → Outcome FlowDepResult
or_else m rest = m >>= λ o. elim o [ none ↦ rest | some r ↦ done r ]
