-- ===== src/Mem/Heap/Grow.antt =====
-- src/mem/malloc.rs: by how much the heap grows, and what its new pages are mapped to.
use wasm_kernel.Base.{ℕ, ◌+◌, ◌*◌, ◌≤◌, ◌≡◌, ◌⊎◌, Bool, false, Option, List, [], ◌∷◌, length}
use wasm_kernel.Mem.Types.{VirtualMemoryLayout}
use wasm_kernel.Mem.Paging.{X86, PageFlags, PageMemory, kernel_rw}
use wasm_kernel.Mem.Paging.Cover.{small}
use wasm_kernel.Mem.Paging.Walk.{FrameAllocator, IsDirect}
use wasm_kernel.Mem.Paging.Translate.{is_five_level}
use wasm_kernel.Mem.Paging.MapPage.{IsMapping}
use wasm_kernel.Mem.Paging.Refine.{map_over, translate_at}

-- A translation of page numbers with page after page, from a first one on, at frame after frame.
abbrev pub frames_over : ℕ → List ℕ → (ℕ → Option (ℕ × PageFlags)) → ℕ → Option (ℕ × PageFlags)
frames_over page [] old = old
frames_over page (f ∷ frames) old =
    frames_over (page + 1) frames (map_over small page f kernel_rw old)

-- The frames stand in the list, in its order, each at a place of its own.
abbrev pub IsPart : List ℕ → List ℕ → Type 0
IsPart [] fs = Unit
IsPart (g ∷ gs) [] = ⊥
IsPart (g ∷ gs) (f ∷ fs) = ((g ≡ f) × IsPart gs fs) ⊎ IsPart (g ∷ gs) fs

module _ {E S : Type 0} (x : X86 E) (al : FrameAllocator S) (mode : Option Bool)
    (layout : VirtualMemoryLayout) (d : IsDirect layout) (four : is_five_level mode ≡ false)
    (addr : ℕ) where
  -- So many pages from one on are mapped, each to a frame of its own of those that the allocator has,
  -- which loses at most three more for each page; all other page numbers are as they were.
  pub record MapsPages (count limit : ℕ) (s : PageMemory E S) (fs : List ℕ) (s' : PageMemory E S)
      : Type 0 where
    pub fs' : List ℕ
    pub frames : List ℕ
    pub number : length frames ≡ count
    pub own_frames : IsPart frames fs
    pub mapping : IsMapping x al mode layout d addr s' fs'
    pub enough : length fs ≤ length fs' + 4 * count
    pub translates :
        translate_at x al mode layout d addr s'
        ≡ frames_over limit frames (translate_at x al mode layout d addr s)
