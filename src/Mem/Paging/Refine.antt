-- ===== src/Mem/Paging/Refine.antt =====
-- src/arch/x86_64/paging.rs: mapping a page as an update of the translation of page numbers.
use wasm_kernel.Base.{
  false, sym, ℕ, ◌+◌, ◌*◌, ◌/◌, ◌%◌, ◌^◌, ◌≤◌, ◌<◌, ◌≡◌, refl, ◌∙◌, fun_ext, inl, inr, Bool, Option,
  some, List, [], arith, if◌then◌else◌, Bool-cases, length, Run, done,
}
use wasm_kernel.Mem.Types.{VirtualMemoryLayout, is_higher_half}
use wasm_kernel.Mem.Paging.{X86, PageFlags, PageMemory}
use wasm_kernel.Mem.Paging.Cover.{PageKind, pages_of, IsAlignedPage}
use wasm_kernel.Mem.Paging.Fill.{map_kind}
use wasm_kernel.Mem.Paging.Walk.{IsLeft, FrameAllocator, IsDirect, window, lookup, walk}
use wasm_kernel.Mem.Paging.Put.{put-Puts}
use wasm_kernel.Mem.Paging.Translate.{
  indices, path_of, last_of, rest_of, same_page, resolve, walked, is_five_level, walk-resolve,
  indices_split, offset-rest_of, same_path, Hits-same_page, rights-page_flags,
}
use wasm_kernel.Mem.Paging.MapPage.{IsOpen, IsOpen-Clear, IsMapping, do_action-Puts}
use wasm_kernel.Mem.Paging.Kinds.{
  is_big, entry_frames, leaf, map_kind_done, leaf-flags, leaf-address, leaf-IsLeaf, lengths_of,
}

frame_of : (f : ℕ) → f * 4096 / 4096 ≡ f
frame_of f = omega arith

-- The translation of page numbers, with a page of some size mapped over it.
abbrev pub map_over :
    PageKind → ℕ → ℕ → PageFlags → (ℕ → Option (ℕ × PageFlags)) → ℕ → Option (ℕ × PageFlags)
map_over kind virt phys flags old v =
    if same_page kind v virt then some (phys + v % pages_of kind, flags) else old v

module _ {E S : Type 0} (x : X86 E) (al : FrameAllocator S) (mode : Option Bool)
    (layout : VirtualMemoryLayout) (d : IsDirect layout) (self : ℕ) where
  -- What the processor makes of the page numbers, in the paging mode and by the tables below the root.
  abbrev pub translate_at : PageMemory E S → ℕ → Option (ℕ × PageFlags)
  translate_at s v =
      walk x layout.hhdm_base s.tables (layout.hhdm_base + self * 4096) (walked mode v)

  -- The run ends with tables that translate as a given function, and at most so many frames less.
  pub record Refines (n : ℕ) (fs : List ℕ) (new : ℕ → Option (ℕ × PageFlags))
      (run : Run (PageMemory E S)) : Type 0 where
    pub s' : PageMemory E S
    pub fs' : List ℕ
    pub runs : run ≡ done s'
    pub mapping : IsMapping x al mode layout d self s' fs'
    pub enough : length fs ≤ length fs' + n
    pub left : IsLeft fs' fs
    pub translates : translate_at s' ≡ new

module _ {E S : Type 0} (x : X86 E) (al : FrameAllocator S) (mode : Option Bool)
    (layout : VirtualMemoryLayout) (d : IsDirect layout) (four : is_five_level mode ≡ false)
    (self : ℕ) where
  -- In four levels of tables, the rights are those of the entry that maps the page.
  pub translate_at-resolve :
      (s : PageMemory E S) (fs : List ℕ)
      → IsMapping x al mode layout d self s fs
      → (v : ℕ)
      → translate_at x al mode layout d self s v
        ≡ resolve x
            (lookup x layout.hhdm_base s.tables (layout.hhdm_base + self * 4096) (indices v))
  translate_at-resolve s fs m v = rw four (
      walk-resolve x layout.hhdm_base (window layout) m.own s.tables fs m.tree (indices v)
        (layout.hhdm_base + self * 4096) [] m.root_owned refl)

module _ {E S : Type 0} (x : X86 E) (al : FrameAllocator S) (mode : Option Bool)
    (layout : VirtualMemoryLayout) (d : IsDirect layout) (four : is_five_level mode ≡ false)
    (self : ℕ) (flags : PageFlags) where
  -- In four levels of tables, mapping a page that is aligned to its size, where no larger page is in
  -- the way, ends with the page mapped to its frame with its flags, after the rights of all tables on
  -- the way, and all other page numbers as they were.
  pub map_kind-Refines :
      (kind : PageKind) (virt phys : ℕ) (s : PageMemory E S) (fs : List ℕ)
      → IsMapping x al mode layout d self s fs
      → 3 ≤ length fs
      → virt < 2 ^ 52
      → phys < entry_frames
      → IsAlignedPage (record { kind = kind; virt = virt; phys = phys })
      → IsOpen x layout.hhdm_base
          (length (rest_of kind virt))
          (lookup x layout.hhdm_base s.tables (layout.hhdm_base + self * 4096) (indices virt))
      → Refines x al mode layout d self 3 fs
          (map_over kind virt phys flags (translate_at x al mode layout d self s))
          (map_kind x al.allocate mode (some layout) self flags kind virt phys s)
  map_kind-Refines kind virt phys s fs m room hv hp aligned opened =
      let base = layout.hhdm_base in
      let e = leaf x al mode layout d self m.root_inside flags kind phys in
      let clear =
        IsOpen-Clear x base s.tables (path_of kind virt) (base + self * 4096) (last_of kind virt)
          (rest_of kind virt) (rw (← indices_split kind virt) opened) in
      let r =
        do_action-Puts x al mode layout d self (is_higher_half mode (virt * 4096)) m.own s
          (base + self * 4096) [] (path_of kind virt) (last_of kind virt) e fs m.unlocked
          (λ b.
            put-Puts x al mode layout d (path_of kind virt) m.own (record s { locked = b })
              (base + self * 4096) [] (last_of kind virt) e fs m.root_owned
              (omega (arith, (lengths_of kind virt virt).0))
              (omega (arith, (lengths_of kind virt virt).0, room))
              (leaf-IsLeaf x al mode layout d self m.root_inside flags phys hp kind virt) m.frames
              m.tree clear) in
      let after : IsMapping x al mode layout d self r.s' r.fs' = record {
        own = r.own';
        root_inside = m.root_inside;
        root_owned = r.keeps _ [] m.root_owned;
        tree = r.tree;
        frames = r.frames;
        unlocked = r.same_lock ∙ m.unlocked;
      } in
      record {
        s' = r.s';
        fs' = r.fs';
        runs =
            map_kind_done x al mode layout d self m.root_inside flags kind virt phys s hv hp aligned
            ∙ r.runs;
        mapping = after;
        enough = omega (arith, r.enough, (lengths_of kind virt virt).0);
        left = r.left;
        translates = fun_ext λ v.
            translate_at-resolve x al mode layout d four self r.s' r.fs' after v
            ∙ elim (Bool-cases (same_page kind v virt)) [
              | inl same ↦
                  let (same_p, same_l) = same_path kind v virt same in
                  rw
                    (
                      same,
                      indices_split kind v,
                      same_p,
                      same_l,
                      r.at (rest_of kind v) (omega (arith, lengths_of kind virt v)),
                      leaf-address x al mode layout d self m.root_inside flags phys hp kind,
                      leaf-flags x al mode layout d self m.root_inside flags phys hp kind,
                      offset-rest_of kind v,
                      rights-page_flags (is_big kind) flags,
                      frame_of phys,
                    )
                    refl
              | inr other ↦
                  rw
                    (
                      other,
                      r.off (indices v) (base + self * 4096) [] m.root_owned refl
                          (λ h. let e' = Hits-same_page kind v virt h in absurd cc),
                    )
                    (sym (translate_at-resolve x al mode layout d four self s fs m v))
            ];
      }
