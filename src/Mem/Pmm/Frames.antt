-- ===== src/Mem/Pmm/Frames.antt =====
-- src/mem/pmm.rs: `PMM` as the allocator of frames that the page tables ask for.
use wasm_kernel.Base.{◌∷◌}
use wasm_kernel.Mem.Pmm.{PdtData, allocate_single_page}
use wasm_kernel.Mem.Pmm.Chain.{HasFree, allocate_single_page-Pops}
use wasm_kernel.Mem.Paging.Walk.{FrameAllocator}

abbrev pub pmm_frames : FrameAllocator PdtData
pmm_frames = record {
  allocate = allocate_single_page;
  HasFrames = HasFree;
  allocates = λ self f fs h.
      let (self', e, h', p, l) = allocate_single_page-Pops self (f ∷ fs) h in (self', e, h');
}
