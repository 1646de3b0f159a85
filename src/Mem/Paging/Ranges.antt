-- ===== src/Mem/Paging/Ranges.antt =====
-- src/arch/x86_64/paging.rs: `map_range` as an update of the translation of page numbers.
use wasm_kernel.Base.{
  sym, ℕ, ◌+◌, ◌-◌, ◌*◌, ◌%◌, ◌^◌, ◌≤◌, ◌≡◌, refl, ap, ◌∙◌, fun_ext, inl, inr, Bool, true, false,
  ◌&&◌, Option, none, some, List, [], ◌∷◌, arith, ltb, leb, if◌then◌else◌, Bool-cases, length, All,
}
use wasm_kernel.Mem.Types.{VirtualMemoryLayout}
use wasm_kernel.Mem.Paging.{X86, PageFlags, PageMemory}
use wasm_kernel.Mem.Paging.Loops.{map_range}
use wasm_kernel.Mem.Paging.Cover.{
  PageKind, small, medium, large, pages_of, Page, IsAlignedPage, Covers, map_pages, pages_of_pos,
}
use wasm_kernel.Mem.Paging.Fill.{map_page, map_range-MapsAll}
use wasm_kernel.Mem.Paging.Walk.{IsLeft-trans, FrameAllocator, IsDirect}
use wasm_kernel.Mem.Paging.Translate.{rest_of, page_numbers, same_page, resolve, is_five_level}
use wasm_kernel.Mem.Paging.MapPage.{IsOpen, IsMapping}
use wasm_kernel.Mem.Paging.Kinds.{entry_frames}
use wasm_kernel.Mem.Paging.Refine.{
  translate_at-resolve, map_over, translate_at, Refines, map_kind-Refines,
}

-- The page number is one of so many from a base on, to the processor.
abbrev pub in_range : ℕ → ℕ → ℕ → Bool
in_range base n v =
    leb (base % page_numbers) (v % page_numbers) && ltb (v % page_numbers) (base % page_numbers + n)

-- A translation of page numbers, with a range of frames mapped over it.
abbrev pub range_over :
    ℕ → ℕ → ℕ → PageFlags → (ℕ → Option (ℕ × PageFlags)) → ℕ → Option (ℕ × PageFlags)
range_over base phys n flags old v =
    if in_range base n v
    then some (phys + (v % page_numbers - base % page_numbers), flags)
    else old v

-- A page of some size is a range.
pub same_page-in_range :
    (kind : PageKind) (base v : ℕ)
    → base % pages_of kind ≡ 0
    → same_page kind v base ≡ in_range base (pages_of kind) v
same_page-in_range small base v h = ground arith
same_page-in_range medium base v h = ground arith
same_page-in_range large base v h = ground arith

offset_in_range :
    (kind : PageKind) (base v : ℕ)
    → base % pages_of kind ≡ 0
    → in_range base (pages_of kind) v ≡ true
    → v % pages_of kind ≡ v % page_numbers - base % page_numbers
offset_in_range small base v h e = ground arith
offset_in_range medium base v h e = ground arith
offset_in_range large base v h e = ground arith

-- A range behind another, which does not reach the end of the page numbers.
range_over-join :
    (b p k n : ℕ) (flags : PageFlags) (old : ℕ → Option (ℕ × PageFlags)) (v : ℕ)
    → b % page_numbers + (k + n) ≤ page_numbers
    → range_over (b + k) (p + k) n flags (range_over b p k flags old) v
      ≡ range_over b p (k + n) flags old v
range_over-join b p k n flags old v h = ground arith

map_over-range :
    (kind : PageKind) (b p : ℕ) (flags : PageFlags) (old : ℕ → Option (ℕ × PageFlags)) (v : ℕ)
    → b % pages_of kind ≡ 0
    → map_over kind b p flags old v ≡ range_over b p (pages_of kind) flags old v
map_over-range kind b p flags old v h = elim (Bool-cases (in_range b (pages_of kind) v)) [
  | inl e ↦ rw (same_page-in_range kind b v h, e, offset_in_range kind b v h e) refl
  | inr e ↦ rw (same_page-in_range kind b v h, e) refl
]

Covers-le : (pages : List Page) (b p end : ℕ) → Covers b p end pages → b ≤ end
Covers-le [] b p end h = omega (arith, h)
Covers-le (page ∷ rest) b p end h =
    omega (arith, Covers-le rest (b + pages_of page.kind) (p + pages_of page.kind) end h.2)

pub in_range_later :
    (b k n v : ℕ)
    → b % page_numbers + (k + n) ≤ page_numbers
    → in_range (b + k) n v ≡ true
    → (in_range b k v ≡ false) × (in_range b (k + n) v ≡ true)
in_range_later b k n v h e = (ground arith, ground arith)

pub resolve-none :
    {E : Type 0} (x : X86 E) (base n : ℕ) (r : Option (E × List ℕ))
    → resolve x r ≡ none
    → IsOpen x base n r
resolve-none x base n none h = tt
resolve-none x base n (some r) h = absurd cc

module _ {E S : Type 0} (x : X86 E) (al : FrameAllocator S) (mode : Option Bool)
    (layout : VirtualMemoryLayout) (d : IsDirect layout) (self : ℕ) where
  -- Nothing is mapped in a range of page numbers.
  abbrev pub IsUnmapped : PageMemory E S → ℕ → ℕ → Type 0
  IsUnmapped s base n =
      (v : ℕ) → in_range base n v ≡ true → translate_at x al mode layout d self s v ≡ none

module _ {E S : Type 0} (x : X86 E) (al : FrameAllocator S) (mode : Option Bool)
    (layout : VirtualMemoryLayout) (d : IsDirect layout) (four : is_five_level mode ≡ false)
    (self : ℕ) (flags : PageFlags) where
  map_pages-Refines :
      (pages : List Page) (b p end : ℕ) (s : PageMemory E S) (fs : List ℕ)
      → Covers b p end pages
      → All IsAlignedPage pages
      → IsMapping x al mode layout d self s fs
      → b % page_numbers + (end - b) ≤ page_numbers
      → end ≤ 2 ^ 52
      → p + (end - b) ≤ entry_frames
      → 3 * (end - b) ≤ length fs
      → IsUnmapped x al mode layout d self s b (end - b)
      → Refines x al mode layout d self
          (3 * (end - b))
          fs
          (range_over b p (end - b) flags (translate_at x al mode layout d self s))
          (map_pages (map_page x al.allocate mode (some layout) self flags) pages s)
  map_pages-Refines [] b p end s fs c al_ m wrap he hp room un = record {
    s' = s;
    fs' = fs;
    runs = refl;
    mapping = m;
    enough = omega arith;
    left = ([], refl);
    translates = fun_ext λ v. ground (arith, c);
  }
  map_pages-Refines (page ∷ rest) b p end s fs c al_ m wrap he hp room un =
      let k = pages_of page.kind in
      let pos = (pages_of_pos page.kind).0 in
      let le = Covers-le rest (b + k) (p + k) end c.2 in
      let n = end - (b + k) in
      let whole : end - b ≡ k + n = omega (arith, le) in
      let fits : b % page_numbers + (k + n) ≤ page_numbers = omega (arith, wrap, whole) in
      let old = translate_at x al mode layout d self s in
      let aligned : b % k ≡ 0 = rw (← c.0) al_.0.virt_aligned in
      let here = un b (ground (arith, whole, pos)) in
      let r =
        map_kind-Refines x al mode layout d four self flags page.kind page.virt page.phys s fs m
          (omega (arith, room, whole, pos)) (omega (arith, c.0, le, he, pos))
          (omega (arith, c.1, hp, whole, pos)) al_.0
          (rw c.0 (
            resolve-none x layout.hhdm_base (length (rest_of page.kind b)) _
              (sym (translate_at-resolve x al mode layout d four self s fs m b) ∙ here))) in
      let over : translate_at x al mode layout d self r.s' ≡ range_over b p k flags old =
        r.translates
        ∙ rw (c.0, c.1) (fun_ext λ v. map_over-range page.kind b p flags old v aligned) in
      let next =
        map_pages-Refines rest (b + k) (p + k) end r.s' r.fs' c.2 al_.1 r.mapping
          (omega (arith, fits)) he (omega (arith, hp, whole))
          (omega (arith, room, whole, pos, r.enough))
          (λ v e.
            let (before, inside) = in_range_later b k n v fits e in
            ap (λ f. f v) over ∙ rw before (un v (rw whole inside))) in
      record {
        s' = next.s';
        fs' = next.fs';
        runs = rw r.runs next.runs;
        mapping = next.mapping;
        enough = omega (arith, r.enough, next.enough, whole, pos);
        left = IsLeft-trans next.fs' r.fs' fs next.left r.left;
        translates =
            next.translates
            ∙ rw (over, whole) (fun_ext λ v. range_over-join b p k n flags old v fits);
      }

  -- In four levels of tables, mapping a range that is not mapped, with frames enough for all tables,
  -- ends: the processor then finds each page of the range at its place in the frames, with the flags,
  -- after the rights of all tables on the way, and all other page numbers as they were.
  pub map_range-Refines :
      (base phys n : ℕ) (s : PageMemory E S) (fs : List ℕ)
      → IsMapping x al mode layout d self s fs
      → base + n ≤ 2 ^ 52
      → phys + n ≤ entry_frames
      → base % page_numbers + n ≤ page_numbers
      → 3 * n ≤ length fs
      → IsUnmapped x al mode layout d self s base n
      → Refines x al mode layout d self
          (3 * n)
          fs
          (range_over base phys n flags (translate_at x al mode layout d self s))
          (map_range x al.allocate mode (some layout) self base phys n flags s)
  map_range-Refines base phys n s fs m hb hp wrap room un =
      let all =
        map_range-MapsAll x al.allocate mode (some layout) self base phys n flags hb
          (omega (arith, hp)) in
      let whole : base + n - base ≡ n = omega arith in
      let r =
        map_pages-Refines all.pages base phys (base + n) s fs all.covers all.aligned m
          (omega (arith, whole, wrap)) hb (omega (arith, whole, hp)) (omega (arith, whole, room))
          (rw whole un) in
      rw (all.runs s) (rw (← whole) r)
