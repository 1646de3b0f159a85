-- ===== src/Tests/Pages.antt =====
-- Runs of the physical allocators and of the heap.
use wasm_kernel.Base.{
  ℕ, ◌≡◌, refl, false, none, some, List, [], ◌∷◌, arith, ◌==◌, if◌then◌else◌, length, All, done,
  Returns,
}
use wasm_kernel.Mem.Types.{page_size_roundup}
use wasm_kernel.Mem.Requests.{EntryType, Entry, IsPaged, entry_of, map_type}
use wasm_kernel.Mem.EarlyPmm.{EarlyPmm, early_start, early_allocate, freeze}
use wasm_kernel.Mem.EarlyPmm.Walk.{EarlyAllocates, early_allocate-EarlyAllocates}
use wasm_kernel.Mem.Pmm.{free, used, PdtData, init_table, allocate_single_page}
use wasm_kernel.Mem.Pmm.Chain.{
  HasFree, Pops, allocate_single_page-Pops, allocate_many, allocate_many-HasFree,
}
use wasm_kernel.Mem.Pmm.Populate.{map_frames, push_all, IsFalling, init_table-HasFree}

-- Two pages the kernel may use, and one it may not.
abbrev memory : List Entry
memory =
    record { base = 4096; len = 8192; entry_type = EntryType.usable }
    ∷ record { base = 12288; len = 4096; entry_type = EntryType.reserved }
    ∷ []

memory-IsPaged : All IsPaged memory
memory-IsPaged = (
  record { base_aligned = refl; len_aligned = refl; fits = omega arith },
  (record { base_aligned = refl; len_aligned = refl; fits = omega arith }, tt),
)

early_allocate_run :
    early_allocate memory early_start
    ≡ done (1, record { index = 0; offset = 1; is_frozen = false })
unfolding early_allocate wasm_kernel.Mem.EarlyPmm.early_loop wasm_kernel.Mem.Requests.at
    wasm_kernel.Mem.Types.add_size
early_allocate_run = refl

early_allocate-EarlyAllocates_example :
    EarlyAllocates memory early_start (early_allocate memory early_start)
early_allocate-EarlyAllocates_example =
    early_allocate-EarlyAllocates memory early_start memory-IsPaged refl

abbrev table : PdtData
table = record { pdt = λ n. used; len = 16; free_list = none }

init_table-HasFree_example : Returns (init_table (freeze early_start) memory table) (λ self'.
    HasFree self' (push_all (map_frames (freeze early_start) 0 memory) [])
    × IsFalling (push_all (map_frames (freeze early_start) 0 memory) []))
init_table-HasFree_example =
    init_table-HasFree (freeze early_start) memory table memory-IsPaged
      (omega arith, omega arith, (omega arith, omega arith, tt)) (omega arith)

-- A table whose free list is the frames 2 and 1.
abbrev chain_table : PdtData
chain_table = record {
  pdt = λ n. if n == 2 then free (some 1) else if n == 1 then free none else used;
  len = 16;
  free_list = some 2;
}

chain_table-HasFree : HasFree chain_table (2 ∷ 1 ∷ [])
chain_table-HasFree = record {
  chain = (refl, (some 1, refl, (refl, (none, refl, refl))));
  inside = (omega arith, (omega arith, tt));
}

allocate_single_page-Pops_example : Pops chain_table (2 ∷ 1 ∷ []) (allocate_single_page chain_table)
allocate_single_page-Pops_example =
    allocate_single_page-Pops chain_table (2 ∷ 1 ∷ []) chain_table-HasFree

allocate_many-HasFree_example :
    Returns
      (allocate_many (length {A = ℕ} (2 ∷ [])) chain_table)
      (λ r. (r.0 ≡ 2 ∷ []) × HasFree (r.1) (1 ∷ []))
allocate_many-HasFree_example =
    allocate_many-HasFree chain_table (2 ∷ []) (1 ∷ []) chain_table-HasFree
