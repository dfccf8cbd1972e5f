-- ===== src/Tests.antt =====
-- The theorems at concrete inputs, and runs of the definitions.
mod Sample
mod Graphs
mod Wrappers
mod Controls
mod Loops
mod Datas
mod Scans
mod Forgets
mod Collects
mod Programs
mod Iteration
mod Removes
mod Rounds
mod Blocks
