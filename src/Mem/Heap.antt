-- ===== src/Mem/Heap.antt =====
-- src/mem/malloc.rs: `BumpHeap`, which gives the heap more pages.
pub mod Grow
use wasm_kernel.Base.{
  ℕ, zero, suc, ◌+◌, ◌-◌, ◌*◌, ◌/◌, Bool, Option, none, some, ltb, if◌then◌else◌, Run, done, ◌>>=◌,
  unwrap,
}
use wasm_kernel.Mem.Types.{VirtualMemoryLayout, add_size, address, page_size_roundup}
use wasm_kernel.Mem.Range.{AddressRange}
use wasm_kernel.Mem.Paging.{X86, PageMemory, kernel_rw, map_page_small}

-- What the kernel takes from the crate talc: whether a span is empty, and what an arena becomes when
-- a span is claimed, which may fail, and when one span is extended to another.
pub record Talc (T : Type 0) : Type 0 where
  pub is_empty : ℕ → ℕ → Bool
  pub claim : ℕ → ℕ → T → Option T
  pub extend : ℕ → ℕ → ℕ → T → T

-- `BumpHeap`; the state of `PMM` is in the memory of the page tables, which takes frames from it too.
pub record BumpHeap : Type 0 where
  pub range : AddressRange
  pub limit : ℕ
  pub addr : ℕ

-- `Layout::pad_to_align`
abbrev pub pad_to_align : ℕ → ℕ → ℕ
pad_to_align size align = (size + (align - 1)) / align * align

-- The span from the base up to the heap's limit, claimed with `expect` where the first span is empty,
-- and else put in place of the first one.
unfoldable pub give_span : {T : Type 0} → Talc T → ℕ → ℕ → ℕ → T → Run T
give_span talc base initial final arena =
    if talc.is_empty base initial
    then unwrap (talc.claim base final arena)
    else done (talc.extend base initial final arena)

module _ {E S T : Type 0} (x : X86 E) (allocate_single_page : S → Run (ℕ × S)) (mode : Option Bool)
    (vm : Option VirtualMemoryLayout) (talc : Talc T) where
  -- The loop over the pages, with the heap's limit beside the memory.
  unfoldable pub map_loop : ℕ → ℕ → ℕ → PageMemory E S → Run (ℕ × PageMemory E S)
  unfolding map_page_small add_size
  map_loop addr zero limit s = done (limit, s)
  map_loop addr (suc count) limit s = do
    (phys_frame, alloc) ← allocate_single_page s.alloc
    s' ←
        map_page_small x allocate_single_page mode vm addr limit phys_frame kernel_rw
          (record s { alloc = alloc })
    limit' ← add_size limit 1
    map_loop addr count limit' s'

  -- The part of `handle_oom` behind its test for room, from the addresses of the first span.
  unfoldable pub grow :
      ℕ → ℕ → ℕ → BumpHeap → PageMemory E S → T → Run (BumpHeap × PageMemory E S × T)
  unfolding map_loop address give_span
  grow base initial size this s arena = do
    (limit, s') ← map_loop this.addr size this.limit s
    final ← address limit
    arena' ← give_span talc base initial final arena
    done (record this { limit = limit }, s', arena')

  -- `handle_oom`: none is an error.
  unfoldable pub handle_oom :
      ℕ → ℕ → BumpHeap → PageMemory E S → T → Run (Option (BumpHeap × PageMemory E S × T))
  unfolding grow page_size_roundup add_size address
  handle_oom layout_size align this s arena = do
    base ← address this.range.start
    initial ← address this.limit
    let size = page_size_roundup (pad_to_align layout_size align)
    top ← add_size this.range.start size
    if ltb this.range.end top
        then done none
        else (grow base initial size this s arena >>= λ grown. done (some grown))
