-- ===== src/FlowDependence/Store.antt =====
-- What FlowDependenceAnalysis keeps between queries (include/FlowDependenceAnalysis.h), beside the
-- cache of pointers in Forget and that of the queries within a block in Cache.
use dep_taint.Prelude.{ℕ, Bool, false, List, []}
use dep_taint.Prelude.PtrMap.{PtrMap}
use dep_taint.Prelude.PtrSet.{PtrSet}
use dep_taint.FlowDependence.Cache.{LocalCache, release_memory}
use dep_taint.FlowDependence.Forget.{Entry, PointerInfo, PointerCache, no_pair}

-- PerInstNLInfo, and its default.
pub record CallInfo : Type 0 where
  pub entries : List Entry
  pub dirty : Bool

abbrev pub no_call_info : CallInfo
no_call_info = record { entries = []; dirty = false }

-- NonLocalPointerInfo(), with UnknownSize as an argument.
abbrev pub no_pointer_info : ℕ → PointerInfo
no_pointer_info unknown = record { pair = no_pair; non_local_deps = []; size = unknown; tag = 0 }

-- NonLocalDeps and ReverseNonLocalDeps.
pub record CallCache : Type 0 where
  pub non_local_deps : PtrMap CallInfo
  pub reverse_non_local_deps : PtrMap PtrSet

pub record Store : Type 0 where
  pub local : LocalCache
  pub calls : CallCache
  pub pointers : PointerCache

-- releaseMemory
unfoldable pub release_all : Store → Store
unfolding release_memory
release_all s = record {
  local = release_memory s.local;
  calls = record { non_local_deps = []; reverse_non_local_deps = [] };
  pointers = record { non_local_pointer_deps = []; reverse_non_local_ptr_deps = [] };
}
