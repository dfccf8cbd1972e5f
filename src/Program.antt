-- ===== src/Program.antt =====
-- runOnModule of src/ProgramDependencies.cpp.
pub mod Backedges
pub mod Collect
pub mod Connect
pub mod Adds
pub mod Pairs
pub mod Build
pub mod Seeds
pub mod Report
pub mod Run
pub mod Taint
