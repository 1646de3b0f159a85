-- ===== src/Mem/Init/Regions.antt =====
-- src/mem/init.rs: no two regions of the layout share a frame.
use wasm_kernel.Base.{
  ℕ, ◌+◌, ◌*◌, ◌/◌, ◌^◌, ◌<◌, ◌≡◌, refl, true, not, ◌&&◌, arith, Run, done, unwrap, >>=-eq-done,
}
use wasm_kernel.Mem.Types.{
  VirtualMemoryLayout, checked_mul, add_diff, diff, add_pages, page_size_roundup, address,
  page_small_size, get_higher_half_addr,
}
use wasm_kernel.Mem.Range.{AddressRange, contains}
use wasm_kernel.Mem.ArrayVec.{ArrayVec, ArrayVecLaws}
use wasm_kernel.Mem.EarlyVpa.{EarlyAllocator, capacity}
use wasm_kernel.Mem.EarlyVpa.Order.{is_free}
use wasm_kernel.Mem.Init.{Boot, max_addr, heap_size, region, kernel_half, lay_out, init_vm_layout}
use wasm_kernel.Mem.Init.Layout.{
  guarded, Takes, hhdm_range, half_range, Halves, region-Takes, kernel_half-Halves,
}

abbrev pub pdt_range : VirtualMemoryLayout → AddressRange
pdt_range layout = record {
  start = layout.pdt_base / page_small_size;
  end = layout.pdt_end / page_small_size;
}

abbrev pub heap_range : VirtualMemoryLayout → AddressRange
heap_range layout = record { start = layout.heap_base; end = layout.heap_end }

-- The regions of a layout, each with its padding, lie in the kernel's half, and no two of them share
-- a frame; the frames of the half that are in none of them are the free ones. The direct map holds
-- the memory, and the other two have their sizes.
pub record IsLaidOut (page_state_size : ℕ) (boot : Boot) (layout : VirtualMemoryLayout)
    (allocator : EarlyAllocator) : Type 0 where
  pub direct : layout.hhdm_end ≡ layout.hhdm_base + layout.hhdm_size * page_small_size
  pub pdt_sized :
      (pdt_range layout).end
      ≡ (pdt_range layout).start + page_size_roundup (page_state_size * layout.hhdm_size)
  pub heap_sized : layout.heap_end ≡ layout.heap_base + heap_size
  pub hhdm_inside :
      (n : ℕ) → contains (hhdm_range layout) n ≡ true → contains (half_range boot) n ≡ true
  pub pdt_inside :
      (n : ℕ)
      → contains (guarded (pdt_range layout)) n ≡ true
      → (contains (half_range boot) n && not (contains (hhdm_range layout) n)) ≡ true
  pub heap_inside :
      (n : ℕ)
      → contains (guarded (heap_range layout)) n ≡ true
      → (contains (half_range boot) n
          && not (contains (hhdm_range layout) n)
          && not (contains (guarded (pdt_range layout)) n))
        ≡ true
  pub left :
      (n : ℕ)
      → is_free allocator.free_ranges n ≡ (
          contains (half_range boot) n
          && not (contains (hhdm_range layout) n)
          && not (contains (guarded (pdt_range layout)) n)
          && not (contains (guarded (heap_range layout)) n))

add_pages-eq-done : (a p b : ℕ) → add_pages a p ≡ done b → b ≡ a + p * page_small_size
unfolding add_pages wasm_kernel.Mem.Types.bytes_of_pages wasm_kernel.Mem.Types.add_size
add_pages-eq-done a p b h = ground (arith, h)

address-eq-done : (f a : ℕ) → address f ≡ done a → a / page_small_size ≡ f
unfolding address
address-eq-done f a h = ground (arith, h)

checked_mul-eq-done : (a b c : ℕ) → unwrap (checked_mul a b) ≡ done c → c ≡ a * b
checked_mul-eq-done a b c h = ground (arith, h)

carry :
    (P : VirtualMemoryLayout → EarlyAllocator → Type 0) (l l' : VirtualMemoryLayout)
    (a a' : EarlyAllocator)
    → ◌≡◌ {A = Run (VirtualMemoryLayout × EarlyAllocator)} (done (l, a)) (done (l', a'))
    → P l a
    → P l' a'
carry P l l' a a' e h =
    let same_l : l ≡ l' = cc in let same_a : a ≡ a' = cc in rw (← same_l, ← same_a) h

range_at :
    (r : AddressRange) (first last : ℕ)
    → first / page_small_size ≡ r.start
    → last / page_small_size ≡ r.end
    → r ≡ record { start = first / page_small_size; end = last / page_small_size }
range_at r first last a b = rw (a, b) refl

module _ (page_state_size : ℕ) (boot : Boot) where
  laid_out :
      (layout : VirtualMemoryLayout) (bytes : ℕ) (pdt heap : AddressRange)
      (a a_1 a_2 : EarlyAllocator)
      → layout.hhdm_end ≡ layout.hhdm_base + layout.hhdm_size * page_small_size
      → bytes ≡ page_state_size * layout.hhdm_size
      → pdt ≡ pdt_range layout
      → heap ≡ heap_range layout
      → Halves boot (layout.hhdm_base / page_small_size) (layout.hhdm_end / page_small_size) a
      → Takes a a_1 (page_size_roundup bytes) pdt
      → Takes a_1 a_2 heap_size heap
      → IsLaidOut page_state_size boot layout a_2
  laid_out layout bytes pdt heap a a_1 a_2 direct size p h half t u =
      let t' : Takes a a_1 (page_size_roundup (page_state_size * layout.hhdm_size))
          (pdt_range layout) =
        rw (← p, ← size) t in
      let u' : Takes a_1 a_2 heap_size (heap_range layout) = rw (← h) u in
      record {
        direct = direct;
        pdt_sized = t'.sized_as;
        heap_sized = u'.sized_as;
        hhdm_inside = half.inside;
        pdt_inside = λ n c. ground (arith, half.split n, t'.split n, c);
        heap_inside = λ n c. ground (arith, half.split n, t'.split n, u'.split n, t'.apart n, c);
        left = λ n. ground (arith, half.split n, t'.split n, u'.split n, t'.apart n, u'.apart n);
      }

  module _ (av : ArrayVec AddressRange) (laws : ArrayVecLaws capacity av)
      (limit : boot.kernel_virtual_base < 2 ^ 64) where
    lay_out-IsLaidOut :
        (size hhdm_end kernel_end : ℕ) (layout : VirtualMemoryLayout) (allocator : EarlyAllocator)
        → hhdm_end ≡ boot.hhdm_start + size * page_small_size
        → lay_out av page_state_size boot size hhdm_end kernel_end ≡ done (layout, allocator)
        → IsLaidOut page_state_size boot layout allocator
    unfolding lay_out
    lay_out-IsLaidOut size hhdm_end kernel_end layout allocator direct h =
        let (a, e_6, h_6) = >>=-eq-done (kernel_half av boot hhdm_end) _ h in
        let (bytes, e_7, h_7) = >>=-eq-done (unwrap (checked_mul page_state_size size)) _ h_6 in
        let (p, e_8, h_8) = >>=-eq-done (region av (page_size_roundup bytes) a) _ h_7 in
        let (q, e_9, h_9) = >>=-eq-done (region av heap_size (p.1)) _ h_8 in
        let (pdt_base, e_10, h_10) = >>=-eq-done (address (p.0).start) _ h_9 in
        let (pdt_end, e_11, h_11) = >>=-eq-done (address (p.0).end) _ h_10 in
        let half = kernel_half-Halves av laws boot hhdm_end a limit (omega (arith, direct)) e_6 in
        let t = region-Takes av laws (page_size_roundup bytes) a (p.1) (p.0) half.ordered e_8 in
        let u = region-Takes av laws heap_size (p.1) (q.1) (q.0) t.ordered e_9 in
        carry (IsLaidOut page_state_size boot) _ layout (q.1) allocator h_11 (
          laid_out _ bytes (p.0) (q.0) a (p.1) (q.1) direct
            (checked_mul-eq-done page_state_size size bytes e_7)
            (range_at (p.0) pdt_base pdt_end (address-eq-done _ pdt_base e_10)
              (address-eq-done _ pdt_end e_11))
            refl half t u)

    -- Where the layout of memory is done, its regions with their padding lie in the kernel's half in
    -- front of the kernel, and no two of them share a frame; what is left is what the allocator has.
    pub init_vm_layout-IsLaidOut :
        (layout : VirtualMemoryLayout) (allocator : EarlyAllocator)
        → init_vm_layout av page_state_size boot ≡ done (layout, allocator)
        → IsLaidOut page_state_size boot layout allocator
    unfolding init_vm_layout
    init_vm_layout-IsLaidOut layout allocator h =
        let (found, e_1, h_1) = >>=-eq-done (max_addr boot.entries) _ h in
        let (top, e_2, h_2) = >>=-eq-done (unwrap found) _ h_1 in
        let (hhdm_end, e_3, h_3) =
          >>=-eq-done (add_pages boot.hhdm_start (page_size_roundup top)) _ h_2 in
        let (span, e_4, h_4) =
          >>=-eq-done (diff boot.marker_kernel_end boot.marker_kernel_start) _ h_3 in
        let (kernel_end, e_5, h_5) = >>=-eq-done (add_diff boot.kernel_virtual_base span) _ h_4 in
        lay_out-IsLaidOut (page_size_roundup top) hhdm_end kernel_end layout allocator
          (add_pages-eq-done boot.hhdm_start (page_size_roundup top) hhdm_end e_3) h_5
