-- ===== src/Mem/Paging/Kinds.antt =====
-- src/arch/x86_64/paging.rs: the three sizes of pages as writes at the end of a path.
use wasm_kernel.Base.{
  ℕ, ◌+◌, ◌*◌, ◌/◌, ◌%◌, ◌^◌, ◌≤◌, ◌<◌, ◌≡◌, refl, ◌∙◌, inl, inr, Bool, true, false, Option, some,
  [], arith, length, Run, done,
}
use wasm_kernel.Mem.Types.{
  VirtualMemoryLayout, address, to_virtual, is_higher_half, frame_is_higher_half, frame_is_aligned,
}
use wasm_kernel.Mem.Paging.{
  X86, PageFlags, PageMemory, page_flags, do_action, pml4, map_page_small, map_page_medium,
  map_page_large,
}
use wasm_kernel.Mem.Paging.Cover.{PageKind, small, medium, large, IsAlignedPage, address_done}
use wasm_kernel.Mem.Paging.Fill.{map_kind}
use wasm_kernel.Mem.Paging.Walk.{FrameAllocator, IsDirect, window, to_virtual_done}
use wasm_kernel.Mem.Paging.Put.{onto, IsLeaf, put}
use wasm_kernel.Mem.Paging.Translate.{path_of, last_of, rest_of}

-- The size bit of the entry of a page.
abbrev pub is_big : PageKind → Bool
is_big small = false
is_big _ = true

-- Frames below this one have addresses that an entry can hold.
abbrev pub entry_frames : ℕ
entry_frames = 2 ^ 40

module _ {E S : Type 0} (x : X86 E) (al : FrameAllocator S) (mode : Option Bool)
    (layout : VirtualMemoryLayout) (d : IsDirect layout) (self : ℕ)
    (inside : self * 4096 < (window layout)) (flags : PageFlags) where
  pml4_done : pml4 x al.allocate mode (some layout) self ≡ done (layout.hhdm_base + self * 4096)
  unfolding pml4
  pml4_done =
      rw
        (
          address_done self (omega (arith, inside, d.size_bound)),
          to_virtual_done layout (self * 4096) d inside,
        )
        refl

  -- The entry of a page.
  abbrev pub leaf : PageKind → ℕ → E
  leaf kind phys = x.new_entry (phys * 4096) (page_flags (is_big kind) flags)

  abbrev action : PageKind → ℕ → ℕ → PageMemory E S → Run (PageMemory E S)
  action kind virt phys s_4 =
      put x al mode layout d s_4 (layout.hhdm_base + self * 4096) (path_of kind virt)
        (last_of kind virt) (leaf kind phys)

  pml4_at : (v : ℕ) → x.pml4_index (v * 4096) ≡ v / 134217728 % 512
  pml4_at v = x.pml4_index_eq (v * 4096) ∙ omega arith

  pdpt_at : (v : ℕ) → x.pdpt_index (v * 4096) ≡ v / 262144 % 512
  pdpt_at v = x.pdpt_index_eq (v * 4096) ∙ omega arith

  pd_at : (v : ℕ) → x.pd_index (v * 4096) ≡ v / 512 % 512
  pd_at v = x.pd_index_eq (v * 4096) ∙ omega arith

  pt_at : (v : ℕ) → x.pt_index (v * 4096) ≡ v % 512
  pt_at v = x.pt_index_eq (v * 4096) ∙ omega arith

  aligned_medium : (f : ℕ) → f < 2 ^ 52 → f % 512 ≡ 0 → frame_is_aligned f 512 ≡ done true
  unfolding frame_is_aligned wasm_kernel.Mem.Types.is_aligned
  aligned_medium f below h = rw (address_done f below) ground arith

  aligned_large : (f : ℕ) → f < 2 ^ 52 → f % 262144 ≡ 0 → frame_is_aligned f 262144 ≡ done true
  unfolding frame_is_aligned wasm_kernel.Mem.Types.is_aligned
  aligned_large f below h = rw (address_done f below) ground arith

  -- The code of each size as a write at the end of the path of a page.
  pub map_kind_done :
      (kind : PageKind) (virt phys : ℕ) (s : PageMemory E S)
      → virt < 2 ^ 52
      → phys < entry_frames
      → IsAlignedPage (record { kind = kind; virt = virt; phys = phys })
      → map_kind x al.allocate mode (some layout) self flags kind virt phys s
        ≡ do_action (is_higher_half mode (virt * 4096)) (action kind virt phys) s
  unfolding map_page_small map_page_medium map_page_large put frame_is_higher_half
  map_kind_done small virt phys s hv hp h =
      rw
        (
          address_done virt hv,
          address_done phys (omega (arith, hp)),
          pml4_done,
          pml4_at virt,
          pdpt_at virt,
          pd_at virt,
          pt_at virt,
        )
        refl
  map_kind_done medium virt phys s hv hp h =
      rw
        (
          aligned_medium virt hv h.virt_aligned,
          aligned_medium phys (omega (arith, hp)) h.phys_aligned,
          address_done virt hv,
          address_done phys (omega (arith, hp)),
          pml4_done,
          pml4_at virt,
          pdpt_at virt,
          pd_at virt,
        )
        refl
  map_kind_done large virt phys s hv hp h =
      rw
        (
          aligned_large virt hv h.virt_aligned,
          aligned_large phys (omega (arith, hp)) h.phys_aligned,
          address_done virt hv,
          address_done phys (omega (arith, hp)),
          pml4_done,
          pml4_at virt,
          pdpt_at virt,
        )
        refl

  module _ (phys : ℕ) (hp : phys < entry_frames) where
    pub leaf-flags : (kind : PageKind) → x.flags (leaf kind phys) ≡ page_flags (is_big kind) flags
    leaf-flags kind = x.flags-new (phys * 4096) _ (omega arith) (omega (arith, hp))

    pub leaf-address : (kind : PageKind) → x.entry_address (leaf kind phys) ≡ phys * 4096
    leaf-address kind = x.address-new (phys * 4096) _ (omega arith) (omega (arith, hp))

    pub leaf-IsLeaf :
        (kind : PageKind) (v : ℕ)
        → IsLeaf x layout.hhdm_base (onto (path_of kind v) []) (leaf kind phys)
    leaf-IsLeaf small v = record { present = rw (leaf-flags small) refl; ends = inr refl }
    leaf-IsLeaf medium v = record {
      present = rw (leaf-flags medium) refl;
      ends = inl (rw (leaf-flags medium) refl);
    }
    leaf-IsLeaf large v = record {
      present = rw (leaf-flags large) refl;
      ends = inl (rw (leaf-flags large) refl);
    }

-- The lengths of the parts of a page's indices.
pub lengths_of :
    (kind : PageKind) (v w : ℕ)
    → (length (path_of kind v) ≤ 3) × (length (rest_of kind w) + length (path_of kind v) ≡ 3)
lengths_of small v w = (omega arith, omega arith)
lengths_of medium v w = (omega arith, omega arith)
lengths_of large v w = (omega arith, omega arith)
