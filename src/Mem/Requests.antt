-- ===== src/Mem/Requests.antt =====
-- src/mem/requests.rs: the memory map of the boot loader, as the allocators read it.
use wasm_kernel.Base.{
  ℕ, ◌+◌, ◌/◌, ◌%◌, ◌^◌, ◌<◌, ◌≡◌, Bool, true, false, List, arith, get_elem?, Run, done, ◌>>=◌,
  unwrap,
}
use wasm_kernel.Mem.Types.{frame_aligned, pages_of_bytes, page_small_size}

-- `limine::memory_map::EntryType`, a number of which the boot protocol names some.
pub data EntryType : Type 0 where
  usable reserved acpi_reclaimable acpi_nvs bad_memory bootloader_reclaimable : EntryType
  executable_and_modules framebuffer : EntryType
  other : ℕ → EntryType

-- `limine::memory_map::Entry`
pub record Entry : Type 0 where
  pub base : ℕ
  pub len : ℕ
  pub entry_type : EntryType

pub data MemoryMapType : Type 0 where
  usable reserved acpi_reclaimable acpi_nvs bad_memory bootloader_reclaimable : MemoryMapType
  kernel_binaries framebuffer unknown : MemoryMapType

pub record MemoryMapEntry : Type 0 where
  pub start : ℕ
  pub size : ℕ
  pub entry_type : MemoryMapType

unfoldable pub map_type : EntryType → MemoryMapType
map_type EntryType.usable = MemoryMapType.usable
map_type EntryType.reserved = MemoryMapType.reserved
map_type EntryType.acpi_reclaimable = MemoryMapType.acpi_reclaimable
map_type EntryType.acpi_nvs = MemoryMapType.acpi_nvs
map_type EntryType.bad_memory = MemoryMapType.bad_memory
map_type EntryType.bootloader_reclaimable = MemoryMapType.bootloader_reclaimable
map_type EntryType.executable_and_modules = MemoryMapType.kernel_binaries
map_type EntryType.framebuffer = MemoryMapType.framebuffer
map_type (EntryType.other n) = MemoryMapType.unknown

-- `entry_type == MemoryMapType::Usable`
unfoldable pub is_usable : MemoryMapType → Bool
is_usable MemoryMapType.usable = true
is_usable _ = false

-- `MemoryMapView::translate`, which panics on an entry that is not made of whole pages.
unfoldable pub translate : Entry → Run MemoryMapEntry
unfolding frame_aligned pages_of_bytes map_type
translate entry = do
  start ← frame_aligned entry.base
  size ← unwrap (pages_of_bytes entry.len)
  done (record { start = start; size = size; entry_type = map_type entry.entry_type })

-- `MemoryMapView::at`
unfoldable pub at : List Entry → ℕ → Run MemoryMapEntry
unfolding translate
at entries index = do entry ← unwrap (get_elem? entries index); translate entry

-- An entry of whole pages of 64-bit memory.
pub record IsPaged (entry : Entry) : Type 0 where
  pub base_aligned : entry.base % page_small_size ≡ 0
  pub len_aligned : entry.len % page_small_size ≡ 0
  pub fits : entry.base + entry.len < 2 ^ 64

-- What `translate` makes of such an entry.
abbrev pub entry_of : Entry → MemoryMapEntry
entry_of entry = record {
  start = entry.base / page_small_size;
  size = entry.len / page_small_size;
  entry_type = map_type entry.entry_type;
}

pub translate_lem : (entry : Entry) → IsPaged entry → translate entry ≡ done (entry_of entry)
unfolding translate
translate_lem entry p = ground (arith, p)
