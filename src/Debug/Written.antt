-- ===== src/Debug/Written.antt =====
-- The file of the build tool, read by the kernel: the sections, the tables and their entries.
pub mod Sections
pub mod Entries
pub mod Tables
pub mod Rising
pub mod Search
pub mod File
