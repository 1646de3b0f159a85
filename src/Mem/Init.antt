-- ===== src/Mem/Init.antt =====
-- src/mem/init.rs: the layout of the kernel's memory, and the mapping of it.
pub mod Layout
pub mod Regions
pub mod Transition
pub mod DirectMap
use wasm_kernel.Base.{
  ℕ, zero, suc, ◌+◌, ◌-◌, ◌*◌, ◌/◌, ◌%◌, ◌^◌, ◌≤◌, ◌<◌, max, ◌≡◌, refl, sym, ap, ◌∙◌, fun_ext, ◌≢◌,
  ◌↔◌, ◌⊎◌, inl, inr, Bool, true, false, not, ◌&&◌, ◌||◌, Option, none, some, List, [], ◌∷◌, ◌++◌,
  map, arith, ltb, leb, ◌==◌, if◌then◌else◌, ltb→lt, lt→ltb, leb→le, le→leb, ==_iff, Bool-cases,
  Option-cases, length, get_elem?, set, take, drop, All, length-append, set-append, take-append,
  drop-append, All-append, Run, done, panic, ◌>>=◌, ◌>>◌, assert, unwrap, Returns, >>=-eq-done,
  Run-cases,
}
use wasm_kernel.Mem.Types.{
  VirtualMemoryLayout, checked_add, checked_mul, add_size, sub_size, add_diff, diff, add_pages,
  page_size_roundup, address, frame_aligned, get_higher_half_addr,
}
use wasm_kernel.Mem.Range.{AddressRange, new}
use wasm_kernel.Mem.ArrayVec.{ArrayVec}
use wasm_kernel.Mem.EarlyVpa.{EarlyAllocator, early, allocate}
use wasm_kernel.Mem.Requests.{Entry}
use wasm_kernel.Mem.Allocation.{VirtualAllocation, wrap, leak}

-- What the boot loader and the linker say: the start of the direct map, the addresses of the kernel,
-- the markers around it, the mode of paging and the memory map.
pub record Boot : Type 0 where
  pub hhdm_start : ℕ
  pub kernel_virtual_base : ℕ
  pub kernel_physical_base : ℕ
  pub marker_kernel_start : ℕ
  pub marker_kernel_end : ℕ
  pub mode : Option Bool
  pub entries : List Entry

-- The greatest end of an entry, in a build that checks the sums for overflow; none on an empty map.
unfoldable pub max_addr : List Entry → Run (Option ℕ)
max_addr [] = done none
max_addr (e ∷ rest) = do
  top ← unwrap (checked_add e.base e.len)
  others ← max_addr rest
  done (some (elim others [ none ↦ top | some other ↦ max top other ]))

abbrev pub padding : ℕ
padding = 32

-- `1 << 28` pages
abbrev pub heap_size : ℕ
heap_size = 268435456

module _ (av : ArrayVec AddressRange) where
  -- `allocate_padded` of `VirtualAllocator<EarlyAllocator>`
  unfoldable pub early_allocate_padded :
      ℕ → ℕ → EarlyAllocator → Run (Option VirtualAllocation × EarlyAllocator)
  unfolding add_size allocate
  early_allocate_padded size pad self = do
    front ← add_size pad size
    alloc_size ← add_size front pad
    result ← allocate av self alloc_size
    wrap size pad alloc_size result

  -- `allocate_padded(size, padding).expect(..).leak()`
  unfoldable pub region : ℕ → EarlyAllocator → Run (AddressRange × EarlyAllocator)
  unfolding early_allocate_padded leak
  region size self = do
    (allocation, self') ← early_allocate_padded size padding self
    made ← unwrap allocation
    done ((leak made).0, self')

  -- The allocator of the kernel's half, up to the kernel, without the direct map.
  unfoldable pub kernel_half : Boot → ℕ → Run EarlyAllocator
  unfolding get_higher_half_addr frame_aligned sub_size add_size new early
  kernel_half boot hhdm_end = do
    low ← frame_aligned (get_higher_half_addr boot.mode)
    high ← frame_aligned boot.kernel_virtual_base
    range ← new low high
    first ← frame_aligned boot.hhdm_start
    hhdm_first ← sub_size first padding
    last ← frame_aligned hhdm_end
    hhdm_last ← add_size last padding
    reservation ← new hhdm_first hhdm_last
    allocator ← early av range (reservation ∷ [])
    unwrap allocator

  -- The half of `init_vm_layout` that allocates; the size of `PageState` is that of the compiler.
  unfoldable pub lay_out : ℕ → Boot → ℕ → ℕ → ℕ → Run (VirtualMemoryLayout × EarlyAllocator)
  unfolding page_size_roundup kernel_half region address get_higher_half_addr
  lay_out page_state_size boot hhdm_size hhdm_end kernel_end = do
    allocator ← kernel_half boot hhdm_end
    pdt_bytes ← unwrap (checked_mul page_state_size hhdm_size)
    (pdt, allocator_1) ← region (page_size_roundup pdt_bytes) allocator
    (heap, allocator_2) ← region heap_size allocator_1
    pdt_base ← address pdt.start
    pdt_end ← address pdt.end
    done (
      record {
        higher_half_base = get_higher_half_addr boot.mode;
        hhdm_base = boot.hhdm_start;
        hhdm_end = hhdm_end;
        hhdm_size = hhdm_size;
        pdt_base = pdt_base;
        pdt_end = pdt_end;
        heap_base = heap.start;
        heap_end = heap.end;
        kernel_base = boot.kernel_virtual_base;
        kernel_end = kernel_end;
        kernel_phys_base = boot.kernel_physical_base;
      },
      allocator_2,
    )

  -- `init_vm_layout`
  unfoldable pub init_vm_layout : ℕ → Boot → Run (VirtualMemoryLayout × EarlyAllocator)
  unfolding max_addr page_size_roundup add_pages diff add_diff lay_out
  init_vm_layout page_state_size boot = do
    found ← max_addr boot.entries
    top ← unwrap found
    hhdm_end ← add_pages boot.hhdm_start (page_size_roundup top)
    kernel_size ← diff boot.marker_kernel_end boot.marker_kernel_start
    kernel_end ← add_diff boot.kernel_virtual_base kernel_size
    lay_out page_state_size boot (page_size_roundup top) hhdm_end kernel_end
