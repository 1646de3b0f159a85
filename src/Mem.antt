-- ===== src/Mem.antt =====
-- src/mem: addresses, the two virtual allocators, the physical allocators and the heap.
pub mod Types
pub mod Range
pub mod ArrayVec
pub mod EarlyVpa
pub mod RbTree
pub mod TreeVpa
pub mod Allocation
pub mod Requests
pub mod EarlyPmm
pub mod Pmm
pub mod Heap
pub mod Paging
pub mod Init
pub mod Backed
