-- ===== src/Debug.antt =====
-- buildtool/src/debug: the writer of the symbol file that the kernel reads.
pub mod Strings
pub mod Ranges
pub mod Writer
pub mod Written
pub mod Dwarf
pub mod IntervalMap
pub mod Fill
