-- ===== src/Mem/Init/DirectMap.antt =====
-- src/mem/init.rs: the direct map that `transition_paging` makes from the memory map.
use wasm_kernel.Base.{
  if◌then◌else◌, ◌||◌, ℕ, ◌+◌, ◌-◌, ◌*◌, ◌/◌, ◌%◌, ◌^◌, ◌≤◌, ◌<◌, ◌≡◌, refl, ap, ◌∙◌, Bool, true,
  false, Option, none, some, List, [], ◌∷◌, arith, length, All, done,
}
use wasm_kernel.Mem.Types.{VirtualMemoryLayout, frame_to_virtual, address}
use wasm_kernel.Mem.Requests.{
  MemoryMapType, Entry, MemoryMapEntry, IsPaged, entry_of, translate_lem,
}
use wasm_kernel.Mem.Paging.{X86, PageFlags, PageMemory}
use wasm_kernel.Mem.Paging.Walk.{IsLeft-trans, FrameAllocator, IsDirect, frame_to_virtual_done}
use wasm_kernel.Mem.Paging.Translate.{page_numbers, is_five_level}
use wasm_kernel.Mem.Paging.MapPage.{IsMapping}
use wasm_kernel.Mem.Paging.Refine.{translate_at, Refines}
use wasm_kernel.Mem.Paging.Ranges.{in_range, range_over, map_range-Refines}
use wasm_kernel.Mem.Init.Transition.{traits, map_traits, map_entry, map_entries}

-- The page of the direct map where a frame is.
abbrev pub direct_page : VirtualMemoryLayout → ℕ → ℕ
direct_page layout f = layout.hhdm_base / 4096 + f

-- A translation with an entry, and with the entries of a map, at their places in the direct map.
abbrev pub traits_over :
    VirtualMemoryLayout
    → Option PageFlags
    → MemoryMapEntry
    → (ℕ → Option (ℕ × PageFlags))
    → ℕ
    → Option (ℕ × PageFlags)
traits_over layout none entry old = old
traits_over layout (some flags) entry old =
    range_over (direct_page layout entry.start) entry.start entry.size flags old

-- Memory that the kernel may come to write, and memory that it only reads, as types of the map.
abbrev pub is_written : MemoryMapType → Bool
is_written MemoryMapType.usable = true
is_written MemoryMapType.kernel_binaries = true
is_written MemoryMapType.framebuffer = true
is_written MemoryMapType.acpi_reclaimable = true
is_written MemoryMapType.bootloader_reclaimable = true
is_written _ = false

abbrev pub is_only_read : MemoryMapType → Bool
is_only_read MemoryMapType.bad_memory = true
is_only_read MemoryMapType.acpi_nvs = true
is_only_read _ = false

-- The rights in the direct map: the kernel's own, never to execute.
abbrev pub direct_rights : MemoryMapType → Option PageFlags
direct_rights t =
    if is_written t || is_only_read t
    then some (record { write = is_written t; user = false; execute = false; global = true })
    else none

traits-direct_rights : (t : MemoryMapType) → traits t ≡ direct_rights t
unfolding traits
traits-direct_rights MemoryMapType.usable = refl
traits-direct_rights MemoryMapType.reserved = refl
traits-direct_rights MemoryMapType.acpi_reclaimable = refl
traits-direct_rights MemoryMapType.acpi_nvs = refl
traits-direct_rights MemoryMapType.bad_memory = refl
traits-direct_rights MemoryMapType.bootloader_reclaimable = refl
traits-direct_rights MemoryMapType.kernel_binaries = refl
traits-direct_rights MemoryMapType.framebuffer = refl
traits-direct_rights MemoryMapType.unknown = refl

abbrev pub entry_over :
    VirtualMemoryLayout → MemoryMapEntry → (ℕ → Option (ℕ × PageFlags)) → ℕ → Option (ℕ × PageFlags)
entry_over layout entry old = traits_over layout (direct_rights entry.entry_type) entry old

abbrev pub entries_over :
    VirtualMemoryLayout → List Entry → (ℕ → Option (ℕ × PageFlags)) → ℕ → Option (ℕ × PageFlags)
entries_over layout [] old = old
entries_over layout (e ∷ rest) old = entries_over layout rest (entry_over layout (entry_of e) old)

-- The pages of the entries.
abbrev pub total_pages : List Entry → ℕ
total_pages [] = 0
total_pages (e ∷ rest) = (entry_of e).size + total_pages rest

-- The entries stand in order from a frame on, none is empty, and all lie below an end.
abbrev pub IsInside : ℕ → ℕ → List Entry → Type 0
IsInside lo end [] = lo ≤ end
IsInside lo end (e ∷ rest) =
    (lo ≤ (entry_of e).start)
    × (0 < (entry_of e).size)
    × IsInside ((entry_of e).start + (entry_of e).size) end rest

-- The direct map does not reach over the end of the page numbers.
pub record IsSmall (layout : VirtualMemoryLayout) : Type 0 where
  pub pages : layout.hhdm_base / 4096 % page_numbers + layout.hhdm_size ≤ page_numbers
  pub frames : layout.hhdm_size ≤ 2 ^ 40

IsInside-le : (entries : List Entry) (lo end : ℕ) → IsInside lo end entries → lo ≤ end
IsInside-le [] lo end h = h
IsInside-le (e ∷ rest) lo end h =
    omega (arith, IsInside-le rest ((entry_of e).start + (entry_of e).size) end h.2, h.0)

-- Parts of a range that does not reach over the end of the page numbers.
in_range_part :
    (h lo e size v : ℕ)
    → lo ≤ e
    → e ≤ size
    → h % page_numbers + size ≤ page_numbers
    → in_range (h + e) (size - e) v ≡ true
    → in_range (h + lo) (size - lo) v ≡ true
in_range_part h lo e size v le fits whole inside = ground arith

in_range_past :
    (h e n size v : ℕ)
    → e + n ≤ size
    → h % page_numbers + size ≤ page_numbers
    → in_range (h + (e + n)) (size - (e + n)) v ≡ true
    → in_range (h + e) n v ≡ false
in_range_past h e n size v fits whole inside = ground arith

frame_page :
    (layout : VirtualMemoryLayout) (f : ℕ)
    → IsDirect layout
    → f < layout.hhdm_size
    → frame_to_virtual (some layout) f ≡ done (direct_page layout f)
unfolding address
frame_page layout f d h =
    let (v, e, a) = frame_to_virtual_done layout f d (omega (arith, h)) in
    let same : v ≡ direct_page layout f = ground (arith, a, d.base_aligned) in e ∙ ap done same

module _ {E S : Type 0} (x : X86 E) (al : FrameAllocator S) (mode : Option Bool)
    (layout : VirtualMemoryLayout) (d : IsDirect layout) (four : is_five_level mode ≡ false)
    (small : IsSmall layout) (space : ℕ) where
  abbrev at_state : PageMemory E S → ℕ → Option (ℕ × PageFlags)
  at_state s = translate_at x al mode layout d space s

  -- Nothing is mapped in the direct map from a frame on.
  abbrev pub IsFreeFrom : ℕ → PageMemory E S → Type 0
  IsFreeFrom lo s =
      (v : ℕ)
      → in_range (direct_page layout lo) (layout.hhdm_size - lo) v ≡ true
      → at_state s v ≡ none

  map_traits-Refines :
      (o : Option PageFlags) (entry : MemoryMapEntry) (s : PageMemory E S) (fs : List ℕ)
      → IsMapping x al mode layout d space s fs
      → 0 < entry.size
      → entry.start + entry.size ≤ layout.hhdm_size
      → 3 * entry.size ≤ length fs
      → IsFreeFrom entry.start s
      → Refines x al mode layout d space
          (3 * entry.size)
          fs
          (traits_over layout o entry (at_state s))
          (map_traits x al.allocate mode layout o space entry s)
  unfolding map_traits
  map_traits-Refines none entry s fs m pos fits room un = record {
    s' = s;
    fs' = fs;
    runs = refl;
    mapping = m;
    enough = omega arith;
    left = ([], refl);
    translates = refl;
  }
  map_traits-Refines (some f) entry s fs m pos fits room un =
      rw (frame_page layout entry.start d (omega (arith, pos, fits))) (
        map_range-Refines x al mode layout d four space f (direct_page layout entry.start)
          entry.start entry.size s fs m (omega (arith, fits, d.sized, d.end_bound))
          (omega (arith, fits, small.frames)) (omega (arith, fits, pos, small.pages)) room
          (λ v h. un v (ground (arith, fits))))

  -- Behind an entry, what was not mapped still is not.
  traits_over-later :
      (o : Option PageFlags) (entry : MemoryMapEntry) (s : PageMemory E S) (v : ℕ)
      → 0 < entry.size
      → entry.start + entry.size ≤ layout.hhdm_size
      → IsFreeFrom entry.start s
      → in_range
          (direct_page layout (entry.start + entry.size))
          (layout.hhdm_size - (entry.start + entry.size))
          v
        ≡ true
      → traits_over layout o entry (at_state s) v ≡ none
  traits_over-later o entry s v pos fits un later =
      let below : in_range (direct_page layout entry.start) (layout.hhdm_size - entry.start) v
          ≡ true =
        in_range_part (layout.hhdm_base / 4096) (entry.start) (entry.start + entry.size)
          layout.hhdm_size v (omega arith) fits small.pages later in
      let outside : in_range (direct_page layout entry.start) entry.size v ≡ false =
        in_range_past (layout.hhdm_base / 4096) entry.start entry.size layout.hhdm_size v fits
          small.pages later in
      over o (un v below) outside
    where
      over :
          (o : Option PageFlags)
          → at_state s v ≡ none
          → in_range (direct_page layout entry.start) entry.size v ≡ false
          → traits_over layout o entry (at_state s) v ≡ none
      over none e out = e
      over (some f) e out = rw out e

  -- In four levels of tables, where the entries of the map are whole pages in order, nothing is mapped
  -- in the direct map and there are frames enough for the tables, the loop ends with each entry at its
  -- place in the direct map, to be written where it is usable memory, the kernel, a framebuffer or
  -- reclaimable, only to be read where it is bad or of ACPI, and not at all where it is reserved or
  -- unknown; and with all other page numbers as they were.
  pub map_entries-Refines :
      (entries : List Entry) (lo : ℕ) (s : PageMemory E S) (fs : List ℕ)
      → All IsPaged entries
      → IsInside lo layout.hhdm_size entries
      → IsMapping x al mode layout d space s fs
      → 3 * total_pages entries ≤ length fs
      → IsFreeFrom lo s
      → Refines x al mode layout d space
          (3 * total_pages entries)
          fs
          (entries_over layout entries (at_state s))
          (map_entries x al.allocate mode layout space entries s)
  unfolding map_entries map_entry
  map_entries-Refines [] lo s fs paged inside m room un = record {
    s' = s;
    fs' = fs;
    runs = refl;
    mapping = m;
    enough = omega arith;
    left = ([], refl);
    translates = refl;
  }
  map_entries-Refines (e ∷ rest) lo s fs paged inside m room un =
      let entry = entry_of e in
      let fits = IsInside-le rest (entry.start + entry.size) layout.hhdm_size inside.2 in
      let from_here : IsFreeFrom entry.start s = λ v h. un v (
        in_range_part (layout.hhdm_base / 4096) lo entry.start layout.hhdm_size v inside.0
          (omega (arith, fits)) small.pages h) in
      let r =
        map_traits-Refines (direct_rights entry.entry_type) entry s fs m inside.1 fits
          (omega (arith, room)) from_here in
      let next =
        map_entries-Refines rest (entry.start + entry.size) r.s' r.fs' paged.1 inside.2 r.mapping
          (omega (arith, room, r.enough))
          (λ v h.
            ap (λ f. f v) r.translates
            ∙ traits_over-later (direct_rights entry.entry_type) entry s v inside.1 fits from_here
                h) in
      record {
        s' = next.s';
        fs' = next.fs';
        runs =
            rw (translate_lem e paged.0, traits-direct_rights entry.entry_type, r.runs) next.runs;
        mapping = next.mapping;
        enough = omega (arith, r.enough, next.enough);
        left = IsLeft-trans next.fs' r.fs' fs next.left r.left;
        translates = next.translates ∙ ap (entries_over layout rest) r.translates;
      }
