-- ===== src/Tests/Paging.antt =====
-- Runs of the page tables.
use wasm_kernel.Base.{
  ℕ, ◌+◌, ◌-◌, ◌*◌, ◌/◌, ◌%◌, ◌^◌, ◌≡◌, refl, false, Option, none, some, List, [], ◌∷◌, arith, ltb,
  leb, ◌==◌, if◌then◌else◌, done,
}
use wasm_kernel.Mem.Types.{VirtualMemoryLayout}
use wasm_kernel.Mem.Pmm.{PdtData, free, used}
use wasm_kernel.Mem.Heap.{Talc, BumpHeap}
use wasm_kernel.Mem.Pmm.Frames.{pmm_frames}
use wasm_kernel.Mem.Paging.{X86, EntryFlags, PageMemory, kernel_rw}
use wasm_kernel.Mem.Paging.Loops.{map_range}
use wasm_kernel.Mem.Paging.Fill.{map_kind, map_page, map_range-MapsAll}
use wasm_kernel.Mem.Paging.Cover.{small, MapsAll}
use wasm_kernel.Mem.Paging.Walk.{lookup, walk, IsDirect}
use wasm_kernel.Mem.Paging.MapPage.{IsMapping}
use wasm_kernel.Mem.Paging.Refine.{map_over, translate_at, Refines, map_kind-Refines}
use wasm_kernel.Mem.Paging.Ranges.{range_over, map_range-Refines}
use wasm_kernel.Mem.Requests.{EntryType, Entry}
use wasm_kernel.Mem.Range.{AddressRange}
use wasm_kernel.Mem.EarlyVpa.{EarlyAllocator, capacity}
use wasm_kernel.Mem.Init.{Boot, init_vm_layout}
use wasm_kernel.Mem.Init.Regions.{IsLaidOut, init_vm_layout-IsLaidOut}
use wasm_kernel.Mem.Init.Transition.{map_entries}
use wasm_kernel.Mem.Init.DirectMap.{entries_over, total_pages, map_entries-Refines}
use wasm_kernel.Tests.Vectors.{vector, vector-laws}

-- Entries as their two parts.
abbrev no_flags : EntryFlags
no_flags = record { p = false; rw = false; us = false; ps = false; xd = false; g = false }

abbrev parts : X86 (ℕ × EntryFlags)
parts = record {
  empty = (0, no_flags);
  new_entry = λ a f. (a, f);
  entry_address = λ e. e.0;
  flags = λ e. e.1;
  pml4_index = λ a. a / 2 ^ 39 % 512;
  pdpt_index = λ a. a / 2 ^ 30 % 512;
  pd_index = λ a. a / 2 ^ 21 % 512;
  pt_index = λ a. a / 2 ^ 12 % 512;
  p-empty = refl;
  address-new = λ a f _ _. refl;
  flags-new = λ a f _ _. refl;
  pml4_index_eq = λ a. refl;
  pdpt_index_eq = λ a. refl;
  pd_index_eq = λ a. refl;
  pt_index_eq = λ a. refl;
}

abbrev direct : VirtualMemoryLayout
direct = record {
  higher_half_base = 0xffff800000000000;
  hhdm_base = 0xffff800000000000;
  hhdm_end = 0xffff800000000000 + 2 ^ 32;
  hhdm_size = 2 ^ 20;
  pdt_base = 0;
  pdt_end = 0;
  heap_base = 0;
  heap_end = 0;
  kernel_base = 0;
  kernel_end = 0;
  kernel_phys_base = 0;
}

direct-IsDirect : IsDirect direct
direct-IsDirect = record {
  base_aligned = refl;
  sized = refl;
  size_bound = omega arith;
  end_bound = omega arith;
}

-- Six free frames, behind an empty root table in frame 1.
abbrev six_free : PdtData
six_free = record {
  pdt = λ n. if ltb n 7 then free (some (n + 1)) else if n == 7 then free none else used;
  len = 16;
  free_list = some 2;
}

abbrev six : List ℕ
six = 2 ∷ 3 ∷ 4 ∷ 5 ∷ 6 ∷ 7 ∷ []

abbrev no_pages : PageMemory (ℕ × EntryFlags) PdtData
no_pages = record { tables = λ _ _. (0, no_flags); alloc = six_free; locked = false }

abbrev own_root : ℕ → Option (List ℕ)
own_root t = if t == direct.hhdm_base + 1 * 4096 then some [] else none

no_pages-IsMapping : IsMapping parts pmm_frames none direct direct-IsDirect 1 no_pages six
no_pages-IsMapping = record {
  own = own_root;
  root_inside = omega arith;
  root_owned = refl;
  tree = record {
    child = λ t i p o l present table. absurd (ground (arith, present));
    fresh = (
      (omega arith, refl),
      (
        (omega arith, refl),
        (
          (omega arith, refl),
          ((omega arith, refl), ((omega arith, refl), ((omega arith, refl), tt))),
        ),
      ),
    );
    distinct = ground arith;
  };
  frames = record {
    chain = (
      refl,
      (
        some 3,
        refl,
        (
          refl,
          (
            some 4,
            refl,
            (
              refl,
              (
                some 5,
                refl,
                (refl, (some 6, refl, (refl, (some 7, refl, (refl, (none, refl, refl)))))),
              ),
            ),
          ),
        ),
      ),
    );
    inside = omega arith;
  };
  unlocked = refl;
}

-- Page 5 of the address space at frame 1 becomes frame 9.
map_kind-Refines_example :
    Refines parts pmm_frames none direct direct-IsDirect 1 3 six
      (map_over small 5 9 kernel_rw
        (translate_at parts pmm_frames none direct direct-IsDirect 1 no_pages))
      (map_kind parts pmm_frames.allocate none (some direct) 1 kernel_rw small 5 9 no_pages)
map_kind-Refines_example =
    map_kind-Refines parts pmm_frames none direct direct-IsDirect refl 1 kernel_rw small 5 9
      no_pages six no_pages-IsMapping (omega arith) (omega arith) (omega arith)
      (record { virt_aligned = refl; phys_aligned = refl }) (unfold lookup in tt)

map_range-Refines_example :
    Refines parts pmm_frames none direct direct-IsDirect 1
      (3 * 2)
      six
      (range_over 5 9 2 kernel_rw
        (translate_at parts pmm_frames none direct direct-IsDirect 1 no_pages))
      (map_range parts pmm_frames.allocate none (some direct) 1 5 9 2 kernel_rw no_pages)
map_range-Refines_example =
    map_range-Refines parts pmm_frames none direct direct-IsDirect refl 1 kernel_rw 5 9 2 no_pages
      six no_pages-IsMapping (omega arith) (omega arith) (omega arith) (omega arith)
      (λ v e. unfold walk in refl)

-- From the last small page before a boundary of 2 MB, on both sides.
map_range-MapsAll_example :
    MapsAll
      (map_page parts pmm_frames.allocate none (some direct) 1 kernel_rw)
      (511 + 514)
      511
      1023
      (λ s. map_range parts pmm_frames.allocate none (some direct) 1 511 1023 514 kernel_rw s)
map_range-MapsAll_example =
    map_range-MapsAll parts pmm_frames.allocate none (some direct) 1 511 1023 514 kernel_rw
      (omega arith) (omega arith)

-- A usable page, behind a reserved one that is not mapped.
abbrev entries : List Entry
entries =
    record { base = 8 * 4096; len = 4096; entry_type = EntryType.reserved }
    ∷ record { base = 9 * 4096; len = 4096; entry_type = EntryType.usable }
    ∷ []

map_entries-Refines_example :
    Refines parts pmm_frames none direct direct-IsDirect 1
      (3 * total_pages entries)
      six
      (entries_over direct entries
        (translate_at parts pmm_frames none direct direct-IsDirect 1 no_pages))
      (map_entries parts pmm_frames.allocate none direct 1 entries no_pages)
map_entries-Refines_example =
    map_entries-Refines parts pmm_frames none direct direct-IsDirect refl
      (record { pages = omega arith; frames = omega arith }) 1 entries 0 no_pages six
      (
        record { base_aligned = refl; len_aligned = refl; fits = omega arith },
        (record { base_aligned = refl; len_aligned = refl; fits = omega arith }, tt),
      )
      (omega arith, omega arith, (omega arith, omega arith, omega arith)) no_pages-IsMapping
      (omega arith) (λ v e. unfold walk in refl)

-- A heap of four pages, all of which are in use, and an arena that is the list of its spans.
abbrev heap : BumpHeap
heap = record { range = record { start = 256; end = 260 }; limit = 260; addr = 1 }

abbrev spans : Talc (List (ℕ × ℕ))
spans = record {
  is_empty = λ base end. leb end base;
  claim = λ base end arena. some ((base, end) ∷ arena);
  extend = λ base end end' arena. (base, end') ∷ [];
}

abbrev arena : List (ℕ × ℕ)
arena = (256 * 4096, 260 * 4096) ∷ []

abbrev arena' : List (ℕ × ℕ)
arena' = (256 * 4096, 261 * 4096) ∷ []

-- A machine with 4 GB of memory.
abbrev boot : Boot
boot = record {
  hhdm_start = 0xffff900000000000;
  kernel_virtual_base = 0xffffffff80000000;
  kernel_physical_base = 0x200000;
  marker_kernel_start = 0xffffffff80000000;
  marker_kernel_end = 0xffffffff80400000;
  mode = none;
  entries = record { base = 0; len = 0x100000000; entry_type = EntryType.usable } ∷ [];
}

abbrev laid : VirtualMemoryLayout
laid = record {
  higher_half_base = 0xffff800000000000;
  hhdm_base = 0xffff900000000000;
  hhdm_end = 0xffff900100000000;
  hhdm_size = 0x100000;
  pdt_base = 0xffff800000000000 + 32 * 4096;
  pdt_end = 0xffff800000000000 + 32 * 4096 + 0x1000000;
  heap_base = 0xffff800000000 + 32 + 0x1000 + 64;
  heap_end = 0xffff800000000 + 32 + 0x1000 + 64 + 0x10000000;
  kernel_base = 0xffffffff80000000;
  kernel_end = 0xffffffff80400000;
  kernel_phys_base = 0x200000;
}

abbrev left_over : EarlyAllocator
left_over = record {
  free_ranges =
      record {
        start = 0xffff800000000 + 32 + 0x1000 + 64 + 0x10000000 + 32;
        end = 0xffff900000000 - 32;
      }
      ∷ record { start = 0xffff900100000 + 32; end = 0xffffffff80000 }
      ∷ [];
}

laid_run : init_vm_layout (vector capacity) 16 boot ≡ done (laid, left_over)
unfolding init_vm_layout wasm_kernel.Mem.EarlyVpa.reserve_hit wasm_kernel.Mem.EarlyVpa.allocate_hit
    wasm_kernel.Mem.Allocation.allocated wasm_kernel.Mem.Range.sized
laid_run = refl

init_vm_layout-IsLaidOut_example : IsLaidOut 16 boot laid left_over
init_vm_layout-IsLaidOut_example =
    init_vm_layout-IsLaidOut 16 boot (vector capacity) (vector-laws capacity) (omega arith) laid
      left_over laid_run
