-- ===== src/Mem/Paging/Walk.antt =====
-- src/arch/x86_64/paging.rs: the walk to a table, and what the processor finds in the tables.
use wasm_kernel.Base.{
  ◌++◌, ap, sym, ◌∙◌, append_assoc, ◌&&◌, ◌/◌, ℕ, ◌+◌, ◌*◌, ◌/◌, ◌%◌, ◌^◌, ◌≤◌, ◌<◌, ◌≡◌, refl, ◌≢◌,
  Bool, true, false, not, Option, none, some, List, [], ◌∷◌, arith, ◌==◌, if◌then◌else◌, length,
  All, Run, done,
}
use wasm_kernel.Mem.Types.{VirtualMemoryLayout, address, to_virtual, frame_to_virtual}
use wasm_kernel.Mem.Paging.Cover.{address_done}
use wasm_kernel.Mem.Paging.{
  EntryFlags, PageFlags, X86, PageMemory, page_map_flags, write_entry, write_table,
  allocate_zeroed_page, create_page_map, walk_entry,
}

-- What the mapping takes from an allocator of frames: the frames that it will hand out, in order.
pub record FrameAllocator (S : Type 0) : Type 1 where
  pub allocate : S → Run (ℕ × S)
  pub HasFrames : S → List ℕ → Type 0
  pub allocates :
      (s : S) (f : ℕ) (fs : List ℕ)
      → HasFrames s (f ∷ fs)
      → (s' : S) × (allocate s ≡ done (f, s')) × HasFrames s' fs

-- The bytes of the direct map, whose size is in pages.
abbrev pub window : VirtualMemoryLayout → ℕ
window layout = layout.hhdm_size * 4096

-- The direct map: it starts at a page and holds the physical addresses up to its size.
pub record IsDirect (layout : VirtualMemoryLayout) : Type 0 where
  pub base_aligned : layout.hhdm_base % 4096 ≡ 0
  pub sized : layout.hhdm_base + window layout ≡ layout.hhdm_end
  pub size_bound : window layout ≤ 2 ^ 52
  pub end_bound : layout.hhdm_end < 2 ^ 64

pub to_virtual_done :
    (layout : VirtualMemoryLayout) (a : ℕ)
    → IsDirect layout
    → a < window layout
    → to_virtual (some layout) a ≡ done (layout.hhdm_base + a)
unfolding to_virtual wasm_kernel.Mem.Types.diff wasm_kernel.Mem.Types.add_diff
to_virtual_done layout a d h = ground (arith, d.sized, d.size_bound, d.end_bound)

pub frame_to_virtual_done :
    (layout : VirtualMemoryLayout) (f : ℕ)
    → IsDirect layout
    → f * 4096 < window layout
    → (v : ℕ) × (frame_to_virtual (some layout) f ≡ done v)
      × (address v ≡ done (layout.hhdm_base + f * 4096))
unfolding frame_to_virtual wasm_kernel.Mem.Types.frame_aligned
frame_to_virtual_done layout f d h =
    rw (address_done f (omega (arith, h, d.size_bound)), to_virtual_done layout (f * 4096) d h)
      (
        (layout.hhdm_base + f * 4096) / 4096,
        ground (arith, d.base_aligned),
        ground (arith, d.base_aligned, d.sized, d.end_bound),
      )

-- No frame is twice on the list.
abbrev pub IsDistinct : List ℕ → Type 0
IsDistinct [] = Unit
IsDistinct (f ∷ fs) = All (λ g. g ≢ f) fs × IsDistinct fs

-- The page inside a larger one, by the indices that the walk has left.
abbrev pub offset : List ℕ → ℕ
offset [] = 0
offset (i ∷ []) = i
offset (i ∷ j ∷ q) = i * 512 + j

-- What an entry lets a page be used for.
abbrev pub rights : EntryFlags → PageFlags
rights f = record { write = f.rw; user = f.us; execute = not f.xd; global = f.g }

-- What an entry that points to a table leaves of the rights that are found behind it.
abbrev pub restrict : EntryFlags → Option (ℕ × PageFlags) → Option (ℕ × PageFlags)
restrict f none = none
restrict f (some (frame, r)) = some (
  frame,
  record r { write = f.rw && r.write; user = f.us && r.user; execute = not f.xd && r.execute },
)

-- An entry that points to a table takes no right away.
pub record IsPermissive (f : EntryFlags) : Type 0 where
  pub writes : f.rw ≡ true
  pub user : f.us ≡ true
  pub executes : f.xd ≡ false

-- The frames that are left of a list when the first ones are taken.
abbrev pub IsLeft : List ℕ → List ℕ → Type 0
IsLeft fs' fs = (taken : List ℕ) × (fs ≡ taken ++ fs')

pub IsLeft-trans : (fs gs hs : List ℕ) → IsLeft fs gs → IsLeft gs hs → IsLeft fs hs
IsLeft-trans fs gs hs (front, e) (front', e') =
    (front' ++ front, e' ∙ ap (λ rest. front' ++ rest) e ∙ sym (append_assoc front' front fs))

module _ {E : Type 0} (x : X86 E) (base : ℕ) where
  -- An entry with the indices behind it, and what the walk finds behind it.
  abbrev pub found : E → List ℕ → Option (E × List ℕ) → Option (E × List ℕ)
  found e [] rest = if not (x.flags e).p then none else some (e, [])
  found e (j ∷ q) rest =
      if not (x.flags e).p then none else if (x.flags e).ps then some (e, j ∷ q) else rest

  -- The same way through the tables: the entry that maps the page, and the indices inside the page.
  unfoldable pub lookup : (ℕ → ℕ → E) → ℕ → List ℕ → Option (E × List ℕ)
  lookup tables t [] = none
  lookup tables t (i ∷ q) =
      let rest = lookup tables (base + x.entry_address (tables t i)) q in found (tables t i) q rest

  pub lookup-cons :
      (tables : ℕ → ℕ → E) (t i : ℕ) (q : List ℕ)
      → lookup tables t (i ∷ q)
        ≡ found (tables t i) q (lookup tables (base + x.entry_address (tables t i)) q)
  unfolding lookup
  lookup-cons tables t i q = refl

  -- What an entry with the indices behind it makes of a page: it maps the page, or points to a table
  -- where the walk goes on.
  abbrev pub through : E → List ℕ → Option (ℕ × PageFlags) → Option (ℕ × PageFlags)
  through e [] rest =
      if not (x.flags e).p then none else some (x.entry_address e / 4096, rights (x.flags e))
  through e (j ∷ q) rest =
      if not (x.flags e).p
      then none
      else if (x.flags e).ps
      then some (x.entry_address e / 4096 + offset (j ∷ q), rights (x.flags e))
      else restrict (x.flags e) rest

  -- The walk of the processor, from a table and by the indices of an address that are left: the
  -- frame, with the rights that all entries on the way leave.
  unfoldable pub walk : (ℕ → ℕ → E) → ℕ → List ℕ → Option (ℕ × PageFlags)
  walk tables t [] = none
  walk tables t (i ∷ q) =
      let rest = walk tables (base + x.entry_address (tables t i)) q in through (tables t i) q rest

  -- No entry on the path is that of a page.
  abbrev pub Clear : (ℕ → ℕ → E) → ℕ → List ℕ → Type 0
  Clear tables t [] = Unit
  Clear tables t (i ∷ q) =
      (x.flags (tables t i)).p ≡ true
      → ((x.flags (tables t i)).ps ≡ false) × Clear tables (base + x.entry_address (tables t i)) q

  -- The tables make a tree below the root: each table has one path of indices to it, last one
  -- first, and the entries that point to tables lead along it and take no right away. The frames of the list are outside.
  pub record IsTree (size : ℕ) (own : ℕ → Option (List ℕ)) (tables : ℕ → ℕ → E) (frames : List ℕ)
      : Type 0 where
    pub child :
        (t i : ℕ) (p : List ℕ)
        → own t ≡ some p
        → length p < 3
        → (x.flags (tables t i)).p ≡ true
        → (x.flags (tables t i)).ps ≡ false
        → (own (base + x.entry_address (tables t i)) ≡ some (i ∷ p))
          × (x.entry_address (tables t i) < size)
          × IsPermissive (x.flags (tables t i))
    pub fresh : All (λ f. (f * 4096 < size) × (own (base + f * 4096) ≡ none)) frames
    pub distinct : IsDistinct frames

-- One table more.
abbrev pub adopt : (ℕ → Option (List ℕ)) → ℕ → List ℕ → ℕ → Option (List ℕ)
adopt own t' p t = if t == t' then some p else own t

module _ {E : Type 0} (x : X86 E) (base : ℕ) where
  -- A new table that holds no entries, and the entry that points to it.
  abbrev pub grown : (ℕ → ℕ → E) → ℕ → ℕ → ℕ → ℕ → ℕ → E
  grown tables t i f =
      write_entry (write_table tables (base + f * 4096) (λ _. x.empty)) t i
        (x.new_entry (f * 4096) page_map_flags)

module _ {E S : Type 0} (x : X86 E) (al : FrameAllocator S) (mode : Option Bool)
    (layout : VirtualMemoryLayout) (d : IsDirect layout) where
  allocate_zeroed_page_done :
      (s : PageMemory E S) (f : ℕ) (fs : List ℕ)
      → al.HasFrames s.alloc (f ∷ fs)
      → f * 4096 < window layout
      → (a' : S) × al.HasFrames a' fs
        × (allocate_zeroed_page x al.allocate mode (some layout) s
            ≡ done (
              f,
              record s {
                alloc = a';
                tables = write_table s.tables (layout.hhdm_base + f * 4096) (λ _. x.empty);
              },
            ))
  unfolding allocate_zeroed_page
  allocate_zeroed_page_done s f fs h fits =
      let (a', e, h') = al.allocates s.alloc f fs h in
      let (v, ev, ea) = frame_to_virtual_done layout f d fits in (a', h', rw (e, ev, ea) refl)

  -- The walk through an entry that is there, and through one that is made.
  pub walk_entry-present :
      (s : PageMemory E S) (t i : ℕ)
      → (x.flags (s.tables t i)).p ≡ true
      → x.entry_address (s.tables t i) < window layout
      → walk_entry x al.allocate mode (some layout) s t i
        ≡ done (layout.hhdm_base + x.entry_address (s.tables t i), s)
  unfolding walk_entry
  walk_entry-present s t i e fits =
      rw e (rw (to_virtual_done layout (x.entry_address (s.tables t i)) d fits) refl)

  pub walk_entry-absent :
      (s : PageMemory E S) (t i f : ℕ) (fs : List ℕ)
      → al.HasFrames s.alloc (f ∷ fs)
      → (x.flags (s.tables t i)).p ≡ false
      → f * 4096 < window layout
      → (a' : S) × al.HasFrames a' fs
        × (walk_entry x al.allocate mode (some layout) s t i
            ≡ done (
              layout.hhdm_base + f * 4096,
              record s { alloc = a'; tables = grown x layout.hhdm_base s.tables t i f },
            ))
  unfolding walk_entry create_page_map
  walk_entry-absent s t i f fs h e fits =
      let (a', h', ez) = allocate_zeroed_page_done s f fs h fits in
      let below : f * 4096 < 2 ^ 52 = omega (arith, fits, d.size_bound) in
      let at : x.entry_address (grown x layout.hhdm_base s.tables t i f t i) ≡ f * 4096 =
        ground (arith, x.address-new (f * 4096) page_map_flags (omega arith) below) in
      (
        a',
        h',
        rw
            (
              e,
              ez,
              address_done f (omega (arith, below)),
              at,
              to_virtual_done layout (f * 4096) d fits,
            )
            refl,
      )
