-- ===== src/Tests.antt =====
-- Runs of the definitions on concrete inputs, and instances of the crates' interfaces.
pub mod Vectors
pub mod Trees
pub mod Memory
pub mod Pages
pub mod CommandLine
pub mod SymbolFile
pub mod Locks
pub mod Paging
pub mod DebugInfo
