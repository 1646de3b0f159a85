-- ===== src/Mem/Pmm/Mapping.antt =====
-- src/mem/pmm.rs: `init_pdt`, which maps the pages of the table of page records and fills the table.
use wasm_kernel.Base.{
  ℕ, zero, suc, ◌+◌, Bool, true, not, Option, none, some, List, [], ◌∷◌, ◌==◌, if◌then◌else◌, Run,
  done, ◌>>=◌, ◌>>◌, assert, unwrap,
}
use wasm_kernel.Mem.Types.{
  VirtualMemoryLayout, checked_mul, add_size, is_aligned, frame_containing, page_small_size,
}
use wasm_kernel.Mem.Requests.{Entry, MemoryMapEntry, translate}
use wasm_kernel.Mem.EarlyPmm.{EarlyPmm, early_allocate, freeze}
use wasm_kernel.Mem.Paging.{X86, PageMemory, kernel_rw, map_page_small}
use wasm_kernel.Mem.Pmm.{PageState, PdtData, init_table}

-- `size_of::<page_info::Page>()`, which the source asserts.
abbrev pub page_info_size : ℕ
page_info_size = 64

-- `prev != Some(page)`
abbrev pub is_other : Option ℕ → ℕ → Bool
is_other none page = true
is_other (some prev) page = not (prev == page)

-- The early allocator is the state of the tables' memory, and `Once` is the table that is returned.
module _ {E : Type 0} (x : X86 E) (mode : Option Bool) (vm : Option VirtualMemoryLayout)
    (map_ : List Entry) where
  -- The body of the loops, with `prev` beside the memory.
  unfoldable pub map_record :
      ℕ
      → ℕ
      → MemoryMapEntry
      → ℕ
      → Option ℕ × PageMemory E EarlyPmm
      → Run (Option ℕ × PageMemory E EarlyPmm)
  unfolding add_size frame_containing early_allocate map_page_small
  map_record self start entry offset (prev, s) = do
    index ← add_size entry.start offset
    position ← unwrap (checked_mul page_info_size index)
    a ← add_size start position
    let page_map_requested = frame_containing a
    if is_other prev page_map_requested
        then (do
          (backing_page, alloc) ← early_allocate map_ s.alloc
          s' ←
              map_page_small x (early_allocate map_) mode vm self page_map_requested backing_page
                kernel_rw (record s { alloc = alloc })
          done (some page_map_requested, s'))
        else done (prev, s)

  -- `for offset in 0..entry.size`, from an offset on.
  unfoldable pub map_records :
      ℕ
      → ℕ
      → MemoryMapEntry
      → ℕ
      → ℕ
      → Option ℕ × PageMemory E EarlyPmm
      → Run (Option ℕ × PageMemory E EarlyPmm)
  unfolding map_record
  map_records self start entry offset zero state = done state
  map_records self start entry offset (suc n) state = do
    state' ← map_record self start entry offset state
    map_records self start entry (offset + 1) n state'

  unfoldable pub map_table :
      ℕ → ℕ → List Entry → Option ℕ × PageMemory E EarlyPmm → Run (Option ℕ × PageMemory E EarlyPmm)
  unfolding translate map_records
  map_table self start [] state = done state
  map_table self start (e ∷ rest) state = do
    entry ← translate e
    state' ← map_records self start entry 0 entry.size state
    map_table self start rest state'

  -- `init_pdt`, with the records that the mapped memory holds before they are written.
  unfoldable pub init_pdt :
      ℕ → ℕ → ℕ → (ℕ → PageState) → PageMemory E EarlyPmm → Run (PdtData × PageMemory E EarlyPmm)
  unfolding is_aligned map_table freeze init_table
  init_pdt self start hhdm_size memory s = do
    assert (is_aligned start page_small_size)
    (prev, s') ← map_table self start map_ (none, s)
    let pmm = freeze s'.alloc
    pdt ← init_table pmm map_ (record { pdt = memory; len = hhdm_size; free_list = none })
    done (pdt, record s' { alloc = pmm })
