-- ===== src/Lib.antt =====
-- DepTaint: the dependence passes over LLVM's intermediate representation and the propagation of
-- taint over the program dependency graph.
--
-- The data dependency pass and the control dependency pass each fill a graph whose nodes are
-- instruction wrappers; ProgramDependencyGraph::runOnModule asks both with `depends`, joins their
-- answers in one graph and propagates taint over it with a worklist. The passes share the static
-- members of InstructionWrapper (the wrapper of each instruction, the set of all nodes) and the
-- map of the function wrappers.
--
-- Files, and what each models (paths from the root of the repository):
--   Prelude     names of the library, lists, Booleans, int as integers, maps and sets of pointers, and
--               `Outcome`: a result, a fault (undefined behaviour or a failed assertion) or no fuel.
--   Ir          what the passes read of LLVM's module: a parameter, a record of functions.
--   Graph       include/DependencyGraph.h: DependencyNode and DependencyGraph. `get_node_by_data` is
--               getNodeByData, `add_dependency` addDependency, `depends` depends, and so on.
--   Wrapper     include/DependencyGraph.h: InstructionWrapper, its six constructors, constructInstMap
--               and releaseMemory over the record `Statics` of the static members.
--   Function    include/FunctionWrapper.h: FunctionWrapper, constructFuncMap, setEntry.
--   Control     src/ControlDependencies.cpp: computeDependencies (`compute_dependencies`), both
--               addDependency methods and getDependenceType.
--   Data        src/DataDependencies.cpp: runOnFunction (`run_on_function`), and
--               getDependencyInFunction of src/FlowDependenceAnalysis.cpp.
--   FlowDepResult  the class of that name in include/FlowDependenceAnalysis.h.
--   FlowDependence  src/FlowDependenceAnalysis.cpp: the queries and what they keep. Locate: GetLocation.
--               Calls: getCallSiteDependencyFrom. Widen: getLoadLoadClobberFullWidthSize and its
--               caller. Pointers: getPointerDependencyFrom, its loop's body in steps by the class of
--               the instruction. Cache: getDependency with LocalDeps and ReverseLocalDeps. Forget:
--               RemoveCachedNonLocalPointerDependencies, invalidateCachedPointerInfo. Store: the maps
--               kept between queries. Remove: removeInstruction. Verify: verifyRemoved. Order:
--               SortNonLocalDepInfoCache and AssertSorted. Across: getNonLocalCallDependency. Block:
--               GetNonLocalInfoForBlock. Reconcile: the first part of
--               getNonLocalPointerDepFromBB. What they read of LLVM is the record `Llvm`. No pass calls
--               them, and the source never sets their alias analysis; they are modelled as with one
--               that is set.
--   Program     src/ProgramDependencies.cpp. Collect: the loop that sorts a function's instructions,
--               and the wrappers of globals. Connect: connectCallerAndCallee and the handling of a
--               call. Pairs: the inner loop that joins both graphs. Build: these, function by function,
--               with the two passes. Seeds: the sensitive values and nodes. Taint: the worklist
--               (`propagate`, one round is `expand`). Report: printTaintValues. Run: runOnModule from
--               end to end (`run_on_module`). Adds: what a step adds to a graph. Backedges:
--               FindFunctionBackedges, which only removeBackedgesInFunction calls.
--   Printer     src/DepPrinter.cpp: getNodeLabel and getEdgeAttributes.
--   Tests       runs on a sample function with a loop, and the theorems at concrete inputs.
--
-- Pointers are addresses, natural numbers with 0 for the null pointer. `std::map` and `std::set`
-- over pointers are lists in the order of the addresses, which is the order of their iteration. A
-- position in a block is the instruction there, or 0 for the end; a scan that starts from a
-- position outside its block would run off the list of instructions and is a fault. Parameters
-- are the IR, LLVM's alias analysis and data layout (`Llvm`, with the hypothesis that
-- NextPowerOf2 gives a larger number, `IsNextPower`, and bounds on sizes and alignments,
-- `IsSized`), LLVM's post-dominator tree (`Pdt`, with the hypothesis that the way up ends,
-- `IsTree`, and what the walks need at an edge, `IsFit`), what the passes read of calls
-- (`Calls`), the predecessors of blocks, the annotated global values, and the addresses that
-- `operator new` hands out (`IsAllocator`: distinct and not null).
--
-- Fuel: the two walks up the post-dominator tree take fuel, for which more than the height of the
-- tree is enough; the worklist takes fuel, for which more than its measure is enough: the length
-- of the queue and the number of wrappers whose flag is not set; the loop for wider loads takes
-- 33, since a size doubles up to an alignment below 2 ^ 31. The walk over the blocks before a
-- call takes fuel, for which more than the number of predecessors of its block and of all blocks
-- is enough. The first part of getNonLocalPointerDepFromBB takes fuel for its calls of the
-- function itself, for which 3 is enough. The search for back edges takes fuel, for which more
-- than twice the number of blocks is enough. Line numbers are compared as `int`, with the
-- conversion from `unsigned` written out.
--
-- Not modelled: the parameter trees (Config.h sets PARAMETER_TREE to 0, and they rest on the
-- third-party tree.hh), removeBackedgesInFunction, which changes the IR and which nothing calls,
-- the traversal that prints a graph, debugging output except where it follows a pointer that may
-- be null, and of FlowDependenceAnalysis the queries for a pointer over several blocks, which
-- translate it through phi nodes.
pub mod Prelude
pub mod Ir
pub mod Graph
pub mod Wrapper
pub mod Function
pub mod Control
pub mod Data
pub mod FlowDepResult
pub mod FlowDependence
pub mod Program
pub mod Printer
mod Tests
