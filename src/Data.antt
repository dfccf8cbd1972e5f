-- ===== src/Data.antt =====
-- The pass of src/DataDependencies.cpp, and getDependencyInFunction of
-- src/FlowDependenceAnalysis.cpp, on which it rests. LLVM's alias analysis is a parameter.
pub mod Nearest
pub mod Edges
pub mod Correct
use dep_taint.Prelude.{
  ℕ, zero, suc, ◌+◌, ◌-◌, ◌%◌, ◌^◌, ◌≡◌, Bool, true, false, Option, none, some, List, [], ◌∷◌, ltb,
  leb, if◌then◌else◌, keep_if,
}
use dep_taint.Prelude.Int.{ℤ, pos, negsuc, ltℤ}
use dep_taint.Prelude.PtrMap
use dep_taint.Prelude.PtrMap.{PtrMap}
use dep_taint.Ir.{Ir, is_load, is_store, instructions}
use dep_taint.Graph.{Graph, get_node_by_data, add_dependency, type_code, data_raw, data_def_use}
use dep_taint.Wrapper.{Statics, inst_wrapper, construct_inst_map}

pub data AliasResult : Type 0 where
  no_alias may_alias partial_alias must_alias : AliasResult

-- `result != NoAlias`
abbrev pub may_touch : AliasResult → Bool
may_touch AliasResult.no_alias = false
may_touch _ = true

-- getLocation of a load or a store, composed with alias.
abbrev pub Alias : Type 0
Alias = ℕ → ℕ → AliasResult

abbrev pub max_loc_num : ℤ
max_loc_num = pos 100000

-- On operands below 2 ^ 32.
unfoldable pub unsigned_abs : ℕ → ℕ → ℕ
unsigned_abs a b = if leb b a then a - b else b - a

-- The conversion of a 32-bit `unsigned` to `int`.
unfoldable pub to_int : ℕ → ℤ
to_int n = if ltb n 2147483648 then pos n else negsuc (4294967296 - n - 1)

-- The state of the pass: the static members, loadLocMap and the graph.
pub record DataState : Type 0 where
  pub statics : Statics
  pub load_loc : PtrMap ℤ
  pub graph : Graph

-- addDependency(instMap[a], instMap[b], type). The source leaves the order of the two reads of
-- instMap open; both orders add the same entries.
unfoldable pub connect : DataState → ℕ → ℕ → ℕ → DataState
connect d a b type =
    let (s1, from) = inst_wrapper d.statics a in
    let (s2, to) = inst_wrapper s1 b in
    record d { statics = s2; graph = add_dependency d.graph from to type }

module _ (ir : Ir) where
  -- StoreVec
  unfoldable pub store_vec : List ℕ → List ℕ
  unfolding keep_if
  store_vec = keep_if (λ i. is_store (ir.opcode i))

  -- The loop over StoreVec.
  unfoldable pub aliasing : Alias → ℕ → List ℕ → List ℕ
  unfolding keep_if
  aliasing alias load = keep_if (λ st. may_touch (alias load st))

  unfoldable pub get_dependency_in_function : Alias → ℕ → ℕ → List ℕ
  unfolding store_vec aliasing
  get_dependency_in_function alias f load = aliasing alias load (store_vec (instructions ir f))

  -- The loop that gives every load its first entry in loadLocMap.
  unfoldable pub init_load_loc : PtrMap ℤ → List ℕ → PtrMap ℤ
  init_load_loc m [] = m
  init_load_loc m (i ∷ is) =
      init_load_loc (if is_load (ir.opcode i) then PtrMap.insert i max_loc_num m else m) is

  -- `int diffLoadStore`
  unfoldable pub diff_load_store : ℕ → ℕ → ℤ
  unfolding unsigned_abs to_int
  diff_load_store st load = to_int (unsigned_abs (ir.line st) (ir.line load))

  -- The loop over the stores: loadLocMap[load], and the candidate so far, null at first.
  unfoldable pub nearest_store : ℕ → ℤ → ℕ → List ℕ → ℤ × ℕ
  unfolding diff_load_store
  nearest_store load best candidate [] = (best, candidate)
  nearest_store load best candidate (st ∷ sts) =
      let closer = ltℤ (diff_load_store st load) best in
      nearest_store load (if closer then diff_load_store st load else best)
        (if closer then st else candidate) sts

  -- The store that the loop picks for a load, starting from its entry of loadLocMap.
  unfoldable pub pick : Alias → ℕ → DataState → ℕ → ℤ × ℕ
  unfolding nearest_store
  pick alias f d load =
      nearest_store load (PtrMap.get_or load (pos 0) d.load_loc) 0
        (get_dependency_in_function alias f load)

  -- The branch for a load. `instMap[candidateSI]` is read also where the candidate is null.
  unfoldable pub visit_load : Alias → ℕ → DataState → ℕ → DataState
  unfolding pick connect
  visit_load alias f d load =
      let (best, candidate) = pick alias f d load in
      connect (record d { load_loc = PtrMap.insert load best d.load_loc }) candidate load
        (type_code data_raw)

  -- The loop over the operands: those that are instructions define a register that `user` reads.
  unfoldable pub def_use : DataState → ℕ → List ℕ → DataState
  unfolding connect
  def_use d user [] = d
  def_use d user (v ∷ vs) =
      def_use (if ir.is_instruction v then connect d v user (type_code data_def_use) else d) user vs

  unfoldable pub visit : Alias → ℕ → DataState → ℕ → DataState
  unfolding visit_load def_use
  visit alias f d i =
      let (s1, w) = inst_wrapper d.statics i in
      let d1 = record d { statics = s1; graph = (get_node_by_data d.graph w).0 } in
      def_use (if is_load (ir.opcode i) then visit_load alias f d1 i else d1) i (ir.operands i)

  unfoldable pub visit_all : Alias → ℕ → DataState → List ℕ → DataState
  unfolding visit
  visit_all alias f d [] = d
  visit_all alias f d (i ∷ is) = visit_all alias f (visit alias f d i) is

  -- DataDependencyGraph::runOnFunction
  unfoldable pub run_on_function : (ℕ → ℕ) → Alias → DataState → ℕ → DataState
  unfolding visit_all init_load_loc
  run_on_function addr alias d f =
      visit_all alias f
        (record d {
          statics = construct_inst_map addr ir d.statics f;
          load_loc = init_load_loc d.load_loc (instructions ir f);
        })
        (instructions ir f)
