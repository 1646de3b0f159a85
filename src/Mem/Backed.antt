-- ===== src/Mem/Backed.antt =====
-- src/mem/vpa.rs: `BackedVirtualAllocation`, an allocation of virtual memory with pages behind it.
use wasm_kernel.Base.{
  ℕ, Bool, Option, none, some, List, [], ◌∷◌, if◌then◌else◌, Run, done, panic, ◌>>=◌,
}
use wasm_kernel.Mem.Types.{VirtualMemoryLayout}
use wasm_kernel.Mem.Range.{AddressRange, as_rust_range}
use wasm_kernel.Mem.Allocation.{VirtualAllocation, leak}
use wasm_kernel.Mem.Paging.{X86, PageFlags, PageMemory, map_page_small}

pub record BackedVirtualAllocation : Type 0 where
  pub virtual_allocation : VirtualAllocation

-- `drop`: what is not leaked is a `todo!()`.
unfoldable pub drop_backed : BackedVirtualAllocation → Run BackedVirtualAllocation
drop_backed self = if self.virtual_allocation.is_dropped then done self else panic

unfoldable pub leak_backed : BackedVirtualAllocation → AddressRange × BackedVirtualAllocation
unfolding leak
leak_backed self =
    let (range, allocation) = leak self.virtual_allocation in
    (range, record self { virtual_allocation = allocation })

-- The allocator of virtual memory is given by its state and by its `allocate_padded`, and that of
-- frames by its state in the memory of the tables and by its `allocate_single_page`.
module _ {E S A : Type 0} (x : X86 E) (allocate_single_page : S → Run (ℕ × S)) (mode : Option Bool)
    (vm : Option VirtualMemoryLayout)
    (allocate_padded : ℕ → ℕ → A → Run (Option VirtualAllocation × A)) where
  -- The loop over the pages of the range, the padding included.
  unfoldable pub back_pages : ℕ → PageFlags → List ℕ → PageMemory E S → Run (PageMemory E S)
  unfolding map_page_small
  back_pages tables flags [] s = done s
  back_pages tables flags (addr ∷ rest) s = do
    (phys, alloc) ← allocate_single_page s.alloc
    s' ←
        map_page_small x allocate_single_page mode vm tables addr phys flags
          (record s { alloc = alloc })
    back_pages tables flags rest s'

  abbrev pub back_result :
      ℕ
      → PageFlags
      → PageMemory E S
      → Option VirtualAllocation × A
      → Run (Option BackedVirtualAllocation × PageMemory E S × A)
  back_result tables flags s (none, self) = done (none, s, self)
  back_result tables flags s (some range, self) = do
    s' ← back_pages tables flags (as_rust_range range.range) s
    done (some (record { virtual_allocation = range }), s', self)

  unfoldable pub allocate_backed_padded :
      ℕ
      → ℕ
      → ℕ
      → PageFlags
      → PageMemory E S
      → A
      → Run (Option BackedVirtualAllocation × PageMemory E S × A)
  unfolding back_pages as_rust_range
  allocate_backed_padded tables size padding flags s self = do
    result ← allocate_padded size padding self
    back_result tables flags s result

  unfoldable pub allocate_backed :
      ℕ
      → ℕ
      → PageFlags
      → PageMemory E S
      → A
      → Run (Option BackedVirtualAllocation × PageMemory E S × A)
  unfolding allocate_backed_padded
  allocate_backed tables size flags s self = allocate_backed_padded tables size 0 flags s self
