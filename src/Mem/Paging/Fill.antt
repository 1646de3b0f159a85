-- ===== src/Mem/Paging/Fill.antt =====
-- src/arch/x86_64/paging.rs: the loops of `map_range` and the pages that they map.
use wasm_kernel.Base.{
  ℕ, ◌+◌, ◌%◌, ◌≤◌, ◌<◌, ◌≡◌, refl, Bool, not, ◌&&◌, Option, [], arith, ltb, leb, ltb→lt, leb→le,
  Run, done, ◌>>=◌,
}
use wasm_kernel.Mem.Types.{VirtualMemoryLayout}
use wasm_kernel.Mem.Paging.{
  X86, PageMemory, PageFlags, map_page_small, map_page_medium, map_page_large, small_pages,
  medium_pages, large_pages,
}
use wasm_kernel.Mem.Paging.Loops.{
  while_map, small_first, medium_first, whole_page, small_last, map_range,
}
use wasm_kernel.Mem.Paging.Cover.{
  PageKind, small, medium, large, Page, frames_end, Fits, MapsAll, Maps-then, while_map-Maps,
  add_size_done,
}
use wasm_kernel.Mem.Paging.Conditions.{
  is_multiple, small_first_done, medium_first_done, whole_page_done,
}

-- From the pages left on, what the loops before have seen to.
abbrev AlignedTo : ℕ → ℕ → ℕ → Type 0
AlignedTo pages b p = (b % pages ≡ 0) × (p % pages ≡ 0)

abbrev ForMedium : ℕ → ℕ → ℕ → Type 0
ForMedium end b p = b < end → AlignedTo medium_pages b p

abbrev ForLarge : ℕ → ℕ → ℕ → Type 0
ForLarge end b p = ForMedium end b p × (b + large_pages ≤ end → AlignedTo large_pages b p)

module _ {M : Type 0} (map_page : Page → M → Run M) (end : ℕ) (small_end : end ≤ frames_end) where
  -- A loop of `map_range`, and the loops behind it.
  abbrev map_at : PageKind → ℕ → ℕ → M → Run M
  map_at kind v p s = map_page (record { kind = kind; virt = v; phys = p }) s

  loop_5 : ℕ → ℕ → ℕ → M → Run M
  loop_5 fuel b p s =
      while_map (small_last end) (map_at small) small_pages fuel b p s >>= λ (b', p', s'). done s'

  loop_4 : ℕ → ℕ → ℕ → M → Run M
  loop_4 fuel b p s =
      while_map (whole_page medium_pages end) (map_at medium) medium_pages fuel b p s
      >>= λ (b', p', s'). loop_5 fuel b' p' s'

  loop_3 : ℕ → ℕ → ℕ → M → Run M
  loop_3 fuel b p s =
      while_map (whole_page large_pages end) (map_at large) large_pages fuel b p s
      >>= λ (b', p', s'). loop_4 fuel b' p' s'

  loop_2 : ℕ → ℕ → ℕ → M → Run M
  loop_2 fuel b p s =
      while_map (medium_first end) (map_at medium) medium_pages fuel b p s >>= λ (b', p', s').
      loop_3 fuel b' p' s'

  loop_1 : ℕ → ℕ → ℕ → M → Run M
  loop_1 fuel b p s =
      while_map (small_first end) (map_at small) small_pages fuel b p s >>= λ (b', p', s').
      loop_2 fuel b' p' s'

  loop_5_maps :
      (fuel b p : ℕ) → end ≤ b + fuel → Fits end b p → MapsAll map_page end b p (loop_5 fuel b p)
  unfolding loop_5 small_last
  loop_5_maps fuel b p enough fits =
      Maps-then map_page end b p _ _ _
        (while_map-Maps map_page end small (small_last end) (λ b' p'. ltb b' end) (λ _ _. Unit)
          (λ b' p' f. refl)
          (λ b' p' f i e. (
            omega (arith, ltb→lt b' end e),
            record { virt_aligned = omega arith; phys_aligned = omega arith },
            tt,
          ))
          small_end fuel b p fits tt enough)
        (λ b' p' h f stopped. record {
          pages = [];
          runs = λ s. refl;
          covers = ground (arith, f, stopped.0);
          aligned = tt;
        })

  loop_4_maps :
      (fuel b p : ℕ)
      → end ≤ b + fuel
      → Fits end b p
      → ForMedium end b p
      → MapsAll map_page end b p (loop_4 fuel b p)
  unfolding loop_4
  loop_4_maps fuel b p enough fits inv =
      Maps-then map_page end b p _ _ _
        (while_map-Maps map_page end medium (whole_page medium_pages end)
          (λ b' p'. leb (b' + medium_pages) end) (ForMedium end)
          (λ b' p' f. whole_page_done end small_end medium_pages b' p' (omega arith) f)
          (λ b' p' f i e.
            let more = leb→le (b' + medium_pages) end e in
            let here = i (omega (arith, more)) in
            (
              more,
              record { virt_aligned = here.0; phys_aligned = here.1 },
              λ h. omega (arith, here),
            ))
          small_end fuel b p fits inv enough)
        (λ b' p' h f stopped. loop_5_maps fuel b' p' (omega (arith, enough, h)) f)

  loop_3_maps :
      (fuel b p : ℕ)
      → end ≤ b + fuel
      → Fits end b p
      → ForLarge end b p
      → MapsAll map_page end b p (loop_3 fuel b p)
  unfolding loop_3
  loop_3_maps fuel b p enough fits inv =
      Maps-then map_page end b p _ _ _
        (while_map-Maps map_page end large (whole_page large_pages end)
          (λ b' p'. leb (b' + large_pages) end) (ForLarge end)
          (λ b' p' f. whole_page_done end small_end large_pages b' p' (omega arith) f)
          (λ b' p' f i e.
            let more = leb→le (b' + large_pages) end e in
            let here = i.1 more in
            (
              more,
              record { virt_aligned = here.0; phys_aligned = here.1 },
              ((λ h. omega (arith, here)), λ h. omega (arith, here)),
            ))
          small_end fuel b p fits inv enough)
        (λ b' p' h f stopped. loop_4_maps fuel b' p' (omega (arith, enough, h)) f stopped.1.0)

  loop_2_maps :
      (fuel b p : ℕ)
      → end ≤ b + fuel
      → Fits end b p
      → ForMedium end b p
      → MapsAll map_page end b p (loop_2 fuel b p)
  unfolding loop_2
  loop_2_maps fuel b p enough fits inv =
      Maps-then map_page end b p _ _ _
        (while_map-Maps map_page end medium (medium_first end)
          (λ b' p'. leb (b' + medium_pages) end && not (is_multiple large_pages b' p'))
          (ForMedium end) (medium_first_done end small_end)
          (λ b' p' f i e.
            let more : b' + medium_pages ≤ end = ground arith in
            let here = i (omega (arith, more)) in
            (
              more,
              record { virt_aligned = here.0; phys_aligned = here.1 },
              λ h. omega (arith, here),
            ))
          small_end fuel b p fits inv enough)
        (λ b' p' h f stopped.
          loop_3_maps fuel b' p' (omega (arith, enough, h)) f
            (stopped.1, λ room. ground (arith, stopped.0)))

  loop_1_maps :
      (fuel b p : ℕ) → end ≤ b + fuel → Fits end b p → MapsAll map_page end b p (loop_1 fuel b p)
  unfolding loop_1
  loop_1_maps fuel b p enough fits =
      Maps-then map_page end b p _ _ _
        (while_map-Maps map_page end small (small_first end)
          (λ b' p'. ltb b' end && not (is_multiple medium_pages b' p')) (λ _ _. Unit)
          (small_first_done end small_end)
          (λ b' p' f i e.
            let more : b' < end = ground arith in
            (
              omega (arith, more),
              record { virt_aligned = omega arith; phys_aligned = omega arith },
              tt,
            ))
          small_end fuel b p fits tt enough)
        (λ b' p' h f stopped.
          loop_2_maps fuel b' p' (omega (arith, enough, h)) f (λ more. ground (arith, stopped.0)))

-- The map of a page of some size.
module _ {E S : Type 0} (x : X86 E) (allocate_single_page : S → Run (ℕ × S)) (mode : Option Bool)
    (vm : Option VirtualMemoryLayout) where
  abbrev pub map_kind : ℕ → PageFlags → PageKind → ℕ → ℕ → PageMemory E S → Run (PageMemory E S)
  map_kind self flags small virt phys s =
      map_page_small x allocate_single_page mode vm self virt phys flags s
  map_kind self flags medium virt phys s =
      map_page_medium x allocate_single_page mode vm self virt phys flags s
  map_kind self flags large virt phys s =
      map_page_large x allocate_single_page mode vm self virt phys flags s

  abbrev pub map_page : ℕ → PageFlags → Page → PageMemory E S → Run (PageMemory E S)
  map_page self flags page s = map_kind self flags page.kind page.virt page.phys s

  -- For pages and frames that have addresses, the five loops end: they map pages of the three sizes
  -- in turn that cover the range without a gap or an overlap, each at its place in the frames, and
  -- each aligned to its size on both sides.
  pub map_range-MapsAll :
      (self base phys size : ℕ) (flags : PageFlags)
      → base + size ≤ frames_end
      → phys + size ≤ frames_end
      → MapsAll
          (map_page self flags)
          (base + size)
          base
          phys
          (λ s. map_range x allocate_single_page mode vm self base phys size flags s)
  unfolding map_range loop_1 loop_2 loop_3 loop_4 loop_5
  map_range-MapsAll self base phys size flags hb hp =
      let all =
        loop_1_maps (map_page self flags) (base + size) hb size base phys (omega arith)
          (omega (arith, hp), omega (arith, hp)) in
      record {
        pages = all.pages;
        runs = λ s. rw (add_size_done base size (omega (arith, hb))) (all.runs s);
        covers = all.covers;
        aligned = all.aligned;
      }
