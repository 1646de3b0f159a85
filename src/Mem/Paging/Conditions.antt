-- ===== src/Mem/Paging/Conditions.antt =====
-- src/arch/x86_64/paging.rs: the conditions of the loops of `map_range`, as tests.
use wasm_kernel.Base.{
  ℕ, ◌+◌, ◌%◌, ◌≤◌, ◌<◌, ◌≡◌, refl, inl, inr, Bool, not, ◌&&◌, arith, ltb, leb, ◌==◌, ltb→lt,
  leb→le, Bool-cases, done,
}
use wasm_kernel.Mem.Types.{VirtualMemoryLayout, add_size, address, frame_is_aligned, u64_mod}
use wasm_kernel.Mem.Paging.{medium_pages, large_pages}
use wasm_kernel.Mem.Paging.Loops.{both_aligned, small_first, medium_first, whole_page}
use wasm_kernel.Mem.Paging.Cover.{frames_end, Fits, add_size_done, address_done}

-- The conditions of the loops, as tests.
abbrev pub is_multiple : ℕ → ℕ → ℕ → Bool
is_multiple pages b p = b % pages == 0 && p % pages == 0

both_aligned-medium :
    (b p : ℕ)
    → b < frames_end
    → p < frames_end
    → both_aligned medium_pages b p ≡ done (is_multiple medium_pages b p)
unfolding both_aligned frame_is_aligned wasm_kernel.Mem.Types.is_aligned
both_aligned-medium b p hb hp = rw (address_done b hb, address_done p hp) ground arith

both_aligned-large :
    (b p : ℕ)
    → b < frames_end
    → p < frames_end
    → both_aligned large_pages b p ≡ done (is_multiple large_pages b p)
unfolding both_aligned frame_is_aligned wasm_kernel.Mem.Types.is_aligned
both_aligned-large b p hb hp = rw (address_done b hb, address_done p hp) ground arith

module _ (end : ℕ) (small_end : end ≤ frames_end) where
  pub small_first_done :
      (b p : ℕ)
      → Fits end b p
      → small_first end b p ≡ done (ltb b end && not (is_multiple medium_pages b p))
  unfolding small_first
  small_first_done b p fits = elim (Bool-cases (ltb b end)) [
    | inl e ↦
        rw
          (
            e,
            both_aligned-medium b p (omega (arith, ltb→lt b end e, small_end))
                (omega (arith, ltb→lt b end e, fits)),
          )
          refl
    | inr e ↦ rw e refl
  ]

  pub medium_first_done :
      (b p : ℕ)
      → Fits end b p
      → medium_first end b p
        ≡ done (leb (b + medium_pages) end && not (is_multiple large_pages b p))
  unfolding medium_first
  medium_first_done b p fits =
      rw (add_size_done b medium_pages (omega (arith, fits, small_end)))
        (elim (Bool-cases (leb (b + medium_pages) end)) [
          | inl e ↦
              rw
                (
                  e,
                  both_aligned-large b p (omega (arith, leb→le (b + medium_pages) end e, small_end))
                      (omega (arith, leb→le (b + medium_pages) end e, fits)),
                )
                refl
          | inr e ↦ rw e refl
        ])

  pub whole_page_done :
      (pages b p : ℕ)
      → pages ≤ large_pages
      → Fits end b p
      → whole_page pages end b p ≡ done (leb (b + pages) end)
  unfolding whole_page
  whole_page_done pages b p h fits = rw (add_size_done b pages (omega (arith, fits, h))) refl
