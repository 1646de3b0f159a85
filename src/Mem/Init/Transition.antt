-- ===== src/Mem/Init/Transition.antt =====
-- src/mem/init.rs: the kernel's own page tables, `map_kernel_segment` and `transition_paging`.
use wasm_kernel.Base.{ℕ, Bool, Option, none, some, List, [], ◌∷◌, Run, done, ◌>>=◌}
use wasm_kernel.Mem.Types.{
  VirtualMemoryLayout, diff, size_of_diff, add_diff, frame_aligned, frame_to_virtual,
  page_size_roundup,
}
use wasm_kernel.Mem.Range.{AddressRange, new}
use wasm_kernel.Mem.Requests.{Entry, MemoryMapType, MemoryMapEntry, translate}
use wasm_kernel.Mem.Paging.{
  X86, PageFlags, PageMemory, kernel_rw, kernel_ro, kernel_x, map_kernel_pages,
}
use wasm_kernel.Mem.Paging.Loops.{map_range}

-- The flags for an entry of the memory map, if it is mapped at all.
unfoldable pub traits : MemoryMapType → Option PageFlags
traits MemoryMapType.usable = some kernel_rw
traits MemoryMapType.kernel_binaries = some kernel_rw
traits MemoryMapType.framebuffer = some kernel_rw
traits MemoryMapType.acpi_reclaimable = some kernel_rw
traits MemoryMapType.bootloader_reclaimable = some kernel_rw
traits MemoryMapType.bad_memory = some kernel_ro
traits MemoryMapType.acpi_nvs = some kernel_ro
traits _ = none

-- The linker's markers around the segments of the kernel.
pub record Markers : Type 0 where
  pub limine_start : ℕ
  pub limine_end : ℕ
  pub text_start : ℕ
  pub text_end : ℕ
  pub rodata_start : ℕ
  pub rodata_end : ℕ
  pub data_start : ℕ
  pub data_end : ℕ

module _ {E S : Type 0} (x : X86 E) (allocate_single_page : S → Run (ℕ × S)) (mode : Option Bool)
    (layout : VirtualMemoryLayout) where
  unfoldable pub map_kernel_segment :
      ℕ → AddressRange → PageFlags → PageMemory E S → Run (PageMemory E S)
  unfolding diff size_of_diff add_diff frame_aligned page_size_roundup map_range
  map_kernel_segment address_space range flags s = do
    offset ← diff range.start layout.kernel_base
    length_diff ← diff range.end range.start
    size ← size_of_diff length_diff
    start ← frame_aligned range.start
    phys ← add_diff layout.kernel_phys_base offset
    phys_frame ← frame_aligned phys
    map_range x allocate_single_page mode (some layout) address_space start phys_frame
        (page_size_roundup size) flags s

  -- The body of the loop over the memory map.
  unfoldable pub map_traits :
      Option PageFlags → ℕ → MemoryMapEntry → PageMemory E S → Run (PageMemory E S)
  unfolding frame_to_virtual map_range
  map_traits none space entry s = done s
  map_traits (some flags) space entry s = do
    v ← frame_to_virtual (some layout) entry.start
    map_range x allocate_single_page mode (some layout) space v entry.start entry.size flags s

  unfoldable pub map_entry : ℕ → MemoryMapEntry → PageMemory E S → Run (PageMemory E S)
  unfolding traits map_traits
  map_entry space entry s = map_traits (traits entry.entry_type) space entry s

  unfoldable pub map_entries : ℕ → List Entry → PageMemory E S → Run (PageMemory E S)
  unfolding translate map_entry
  map_entries space [] s = done s
  map_entries space (e ∷ rest) s = do
    entry ← translate e
    s' ← map_entry space entry s
    map_entries space rest s'

  -- `transition_paging`, less what it prints and the write of the register that switches the tables.
  unfoldable pub transition_paging :
      ℕ → List Entry → Markers → PageMemory E S → Run (PageMemory E S)
  unfolding map_entries new map_kernel_segment map_kernel_pages
  transition_paging space entries markers s = do
    s_1 ← map_entries space entries s
    limine ← new markers.limine_start markers.limine_end
    s_2 ← map_kernel_segment space limine kernel_ro s_1
    text ← new markers.text_start markers.text_end
    s_3 ← map_kernel_segment space text kernel_x s_2
    rodata ← new markers.rodata_start markers.rodata_end
    s_4 ← map_kernel_segment space rodata kernel_ro s_3
    data_range ← new markers.data_start markers.data_end
    s_5 ← map_kernel_segment space data_range kernel_rw s_4
    map_kernel_pages x allocate_single_page mode (some layout) space s_5
