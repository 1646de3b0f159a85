-- ===== src/Lib.antt =====
-- The kernel of this repository and the build tool that makes its symbol file: a shallow embedding of
-- the parts that carry logic of their own, with the theorems that make them correct.
--
-- Mem models src/mem. Mem/Types and Mem/Range are the checked arithmetic and the ranges of types.rs;
-- an address, a frame number or a size is its number, and a panic is `panic` of the type `Run`.
-- Mem/EarlyVpa and Mem/TreeVpa are the two virtual allocators of vpa.rs, Mem/Allocation the
-- allocations that free themselves, Mem/Requests the memory map of requests.rs, Mem/EarlyPmm the early
-- physical allocator of init.rs, Mem/Pmm the page records and the allocator of pmm.rs that takes over
-- from it, Mem/Heap the growth of the heap in malloc.rs, which maps its pages, over the crate talc as
-- a record of operations. Mem/Init is the layout of the address space in init.rs, and
-- Mem/Init/Transition the kernel's own page tables, which it maps through Mem/Paging; Mem/Pmm/Mapping
-- is the init_pdt of pmm.rs, Mem/Pmm/Frames shows its allocator as one of frames, and Mem/Backed the
-- allocations of vpa.rs with pages behind them. The vector of the crate arrayvec (Mem/ArrayVec) and
-- the trees of intrusive_collections (Mem/RbTree) are records of operations with their documented
-- laws, which each theorem that needs them takes as arguments.
--
-- Mem/Paging models src/arch/x86_64/paging.rs: the tables of a set and the mapping of a page of each
-- of the three sizes, and Mem/Paging/Loops the five loops of map_range. The tables are a function of
-- the address that a table has in the direct map and of an index; the entries and the indices of an
-- address, which are the crate x86's, are a record of operations with laws. The allocator of frames is
-- an argument: a record of the frames that it will hand out. Mem/Paging/Walk and Translate are what the
-- processor finds for a page number, in four or five levels of tables and with the rights of all
-- tables on the way, the specification that the mapping refines in four levels. Each loop of map_range
-- has the number of pages as fuel, and a loop out of fuel would panic.
--
-- Cmdline models src/cmdline and the derived parsers of proc-macros/src/lib.rs: Cmdline/Number and
-- Cmdline/Lexer are lexer.rs, Cmdline/Parse is parse.rs, Cmdline/Derive the code that the derive macro
-- generates, as functions of the fields of a type, and Cmdline/Options the options of mod.rs and of
-- src/log/options.rs. The scanner that the crate logos generates is not modelled: a text is given by
-- its lexemes. Loops over tokens run on fuel, more than the tokens that are left, and a run out of
-- fuel is a result of its own that Cmdline/Options/Kept excludes for every command line.
--
-- Symbols models src/modules/symbols.rs, the reader of a symbol file, and Debug the writer of that
-- file in buildtool/src/debug: Debug/Strings is the string table of util.rs, Debug/IntervalMap its
-- intervals, Debug/Ranges and Debug/Writer are the writing of io.rs and Debug/Fill the filling of the
-- writer, with the ranges that an inlined function takes from its parent in Debug/IntervalMap/Carve.
-- Debug/Dwarf, with Entries, Functions and Lines below it, is dwarf.rs, over what the crate gimli
-- gives: its entries, attributes and rows are data, and its functions a record. The loops over the
-- entries of a unit have the number of entries that are left as fuel, and a loop out of fuel is a
-- result of its own. Debug/Written holds what the two sides of the file agree on. Bytes are numbers, a
-- file is a list of them, and the test for UTF-8 is an argument. The binary search runs on fuel, one
-- more than the number of entries; out of fuel it would panic, which the theorem about it excludes.
--
-- Modules models src/modules/mod.rs: the modules of the boot loader, whose command lines choose what
-- is made of their bytes, and the global symbols.
--
-- Sync models src/sync.rs: a step relation over any number of cores, one step for each action of the
-- code on the lock or on the interrupts.
--
-- Base holds the shared names, the panicking runs, lists measured by native numbers and the Boolean
-- tests; Tests the instances, runs and witnesses.
--
-- Not modelled: the realloc and the global allocator of malloc.rs, the translate of paging.rs, which
-- is a todo!(), the parts of dwarf.rs that only call gimli or format paths, logging, start-up, and all
-- code that is assembly, device access or input and output.
pub mod Base
pub mod Mem
pub mod Cmdline
pub mod Symbols
pub mod Debug
pub mod Modules
pub mod Sync
pub mod Tests
