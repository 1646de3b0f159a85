-- ===== src/Mem/Types/Laws.antt =====
-- src/mem/types.rs: what the address arithmetic does, on every input.
use wasm_kernel.Base.{
  ℕ, ◌+◌, ◌-◌, ◌*◌, ◌^◌, ◌≤◌, ◌<◌, ◌≡◌, refl, ◌↔◌, ◌&&◌, arith, ltb, leb, if◌then◌else◌, done,
  panic, ◌>>=◌, Returns,
}
use wasm_kernel.Base.Int.{negsuc}
use wasm_kernel.Mem.Types.{
  u64_mod, i64_mod, page_small_size, diff, add_diff, sub_diff, address, frame_aligned,
  frame_containing, page_size_roundup, VirtualMemoryLayout,
}

-- The distance from `a` to `b`, added to `a`, gives `b` back when `b` is not below `a` and the
-- distance fits an `i64`; in every other case the sum panics.
pub add_diff-diff :
    (a b : ℕ)
    → a < u64_mod
    → b < u64_mod
    → (diff b a >>= add_diff a) ≡ (if leb a b && ltb (b - a) i64_mod then done b else panic)
unfolding diff add_diff
add_diff-diff a b ha hb = ground arith

-- A negative difference can neither be added nor taken off, whatever the address.
pub add_diff-negsuc : (a n : ℕ) → (add_diff a (negsuc n) ≡ panic) × (sub_diff a (negsuc n) ≡ panic)
unfolding add_diff sub_diff
add_diff-negsuc a n = (refl, refl)

-- The address of a frame below 2 ^ 52 is aligned and leads back to the frame; that of any other
-- frame number overflows.
pub frame_aligned-address :
    (f : ℕ) → (address f >>= frame_aligned) ≡ (if ltb f (2 ^ 52) then done f else panic)
unfolding address frame_aligned
frame_aligned-address f = ground arith

-- The frame that contains an address starts at or below it, less than a page away.
pub address-frame_containing :
    (a : ℕ)
    → a < u64_mod
    → Returns (address (frame_containing a)) (λ b. (b ≤ a) × (a < b + page_small_size))
unfolding address frame_containing
address-frame_containing a h = ground arith

-- `page_size_roundup` is the least number of pages that hold the bytes.
pub page_size_roundup-least : (b p : ℕ) → (b ≤ p * page_small_size) ↔ (page_size_roundup b ≤ p)
unfolding page_size_roundup
page_size_roundup-least b p = (λ h. ground arith, λ h. ground arith)

-- The layout maps the physical addresses from zero, and its end is an address.
pub record IsLayout (layout : VirtualMemoryLayout) : Type 0 where
  pub ordered : layout.hhdm_base ≤ layout.hhdm_end
  pub fits : layout.hhdm_end < u64_mod
  pub small : layout.hhdm_end - layout.hhdm_base < i64_mod
