-- ===== src/Mem/Paging/Loops.antt =====
-- src/arch/x86_64/paging.rs: `map_range`, five loops that map pages of three sizes.
use wasm_kernel.Base.{
  ℕ, zero, suc, Bool, false, not, Option, ltb, leb, if◌then◌else◌, Run, done, panic, ◌>>=◌,
}
use wasm_kernel.Mem.Types.{VirtualMemoryLayout, add_size, frame_is_aligned}
use wasm_kernel.Mem.Paging.{
  X86, PageMemory, PageFlags, map_page_small, map_page_medium, map_page_large, small_pages,
  medium_pages, large_pages,
}

-- `while` over the next page and frame: the condition, the map and the step. A loop that needs more
-- steps than its fuel panics.
unfoldable pub while_map {ℓ} :
    {M : Type ℓ} → (ℕ → ℕ → Run Bool) → (ℕ → ℕ → M → Run M) → ℕ → ℕ → ℕ → ℕ → M → Run (ℕ × ℕ × M)
unfolding add_size
while_map cond map_page step zero base phys s = do
  more ← cond base phys
  if more then panic else done (base, phys, s)
while_map cond map_page step (suc fuel) base phys s = do
  more ← cond base phys
  if more
      then (do
        s' ← map_page base phys s
        base' ← add_size base step
        phys' ← add_size phys step
        while_map cond map_page step fuel base' phys' s')
      else done (base, phys, s)

-- `base.is_aligned(size) && phys.is_aligned(size)`
unfoldable pub both_aligned : ℕ → ℕ → ℕ → Run Bool
unfolding frame_is_aligned
both_aligned pages base phys = do
  is_base ← frame_is_aligned base pages
  if is_base then frame_is_aligned phys pages else done false

-- The conditions of the loops.
unfoldable pub small_first : ℕ → ℕ → ℕ → Run Bool
unfolding both_aligned
small_first end base phys =
    if ltb base end
    then (both_aligned medium_pages base phys >>= λ aligned. done (not aligned))
    else done false

unfoldable pub medium_first : ℕ → ℕ → ℕ → Run Bool
unfolding both_aligned add_size
medium_first end base phys = do
  top ← add_size base medium_pages
  if leb top end
      then (both_aligned large_pages base phys >>= λ aligned. done (not aligned))
      else done false

unfoldable pub whole_page : ℕ → ℕ → ℕ → ℕ → Run Bool
unfolding add_size
whole_page pages end base phys = do top ← add_size base pages; done (leb top end)

unfoldable pub small_last : ℕ → ℕ → ℕ → Run Bool
small_last end base phys = done (ltb base end)

module _ {E S : Type 0} (x : X86 E) (allocate_single_page : S → Run (ℕ × S)) (mode : Option Bool)
    (vm : Option VirtualMemoryLayout) where
  -- `map_range`: the number of pages is fuel for each of the loops.
  unfoldable pub map_range : ℕ → ℕ → ℕ → ℕ → PageFlags → PageMemory E S → Run (PageMemory E S)
  unfolding while_map small_first medium_first whole_page small_last map_page_small map_page_medium
      map_page_large add_size
  map_range self base phys size flags s = do
    let small : ℕ → ℕ → PageMemory E S → Run (PageMemory E S) =
        λ v p. map_page_small x allocate_single_page mode vm self v p flags
    let medium : ℕ → ℕ → PageMemory E S → Run (PageMemory E S) =
        λ v p. map_page_medium x allocate_single_page mode vm self v p flags
    let large : ℕ → ℕ → PageMemory E S → Run (PageMemory E S) =
        λ v p. map_page_large x allocate_single_page mode vm self v p flags
    end ← add_size base size
    (b_1, p_1, s_1) ← while_map (small_first end) small small_pages size base phys s
    (b_2, p_2, s_2) ← while_map (medium_first end) medium medium_pages size b_1 p_1 s_1
    (b_3, p_3, s_3) ← while_map (whole_page large_pages end) large large_pages size b_2 p_2 s_2
    (b_4, p_4, s_4) ← while_map (whole_page medium_pages end) medium medium_pages size b_3 p_3 s_3
    (b_5, p_5, s_5) ← while_map (small_last end) small small_pages size b_4 p_4 s_4
    done s_5
