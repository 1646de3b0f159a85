-- ===== src/Symbols.antt =====
-- src/modules/symbols.rs: the debug symbols of a kernel module, and the search for an address.
pub mod Bytes
pub mod Search
pub mod Table
