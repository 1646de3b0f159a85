-- ===== src/Mem/Types.antt =====
-- src/mem/types.rs: addresses, frame numbers, sizes and differences. Each is a newtype over `u64` or
-- `i64`; here it is the number itself, and the arithmetic is the checked arithmetic of the source.
pub mod Laws
use wasm_kernel.Base.{
  ℕ, ◌+◌, ◌-◌, ◌*◌, ◌/◌, ◌%◌, ◌^◌, Bool, Option, none, some, ltb, leb, ◌==◌, ◌&&◌, if◌then◌else◌,
  Run, done, panic, ◌>>=◌, ◌>>◌, assert, unwrap,
}
use wasm_kernel.Base.Int.{ℤ, pos, negsuc, sub_ℕ}

abbrev pub u64_mod : ℕ
u64_mod = 2 ^ 64

abbrev pub i64_mod : ℕ
i64_mod = 2 ^ 63

-- `PAGE_SMALL_SIZE`
abbrev pub page_small_size : ℕ
page_small_size = 4096

-- `u64::checked_add`, `checked_sub`, `checked_mul`, and `checked_signed_diff` into `i64`.
abbrev pub checked_add : ℕ → ℕ → Option ℕ
checked_add a b = if ltb (a + b) u64_mod then some (a + b) else none

abbrev pub checked_sub : ℕ → ℕ → Option ℕ
checked_sub a b = if leb b a then some (a - b) else none

abbrev pub checked_mul : ℕ → ℕ → Option ℕ
checked_mul a b = if ltb (a * b) u64_mod then some (a * b) else none

abbrev pub checked_signed_diff : ℕ → ℕ → Option ℤ
checked_signed_diff a b =
    if leb b a
    then (if ltb (a - b) i64_mod then some (pos (a - b)) else none)
    else (if leb (b - a) i64_mod then some (sub_ℕ a b) else none)

-- `i64::try_into::<u64>` and back.
abbrev pub u64_of_i64 : ℤ → Option ℕ
u64_of_i64 (pos n) = some n
u64_of_i64 (negsuc n) = none

abbrev pub i64_of_u64 : ℕ → Option ℤ
i64_of_u64 n = if ltb n i64_mod then some (pos n) else none

-- `impl_math!` with a size: an address and bytes, or a frame number and pages.
unfoldable pub add_size : ℕ → ℕ → Run ℕ
add_size a s = unwrap (checked_add a s)

unfoldable pub sub_size : ℕ → ℕ → Run ℕ
sub_size a s = unwrap (checked_sub a s)

-- `impl_math!` with a difference, which is first converted to `u64`.
unfoldable pub add_diff : ℕ → ℤ → Run ℕ
add_diff a d = do n ← unwrap (u64_of_i64 d); unwrap (checked_add a n)

unfoldable pub sub_diff : ℕ → ℤ → Run ℕ
sub_diff a d = do n ← unwrap (u64_of_i64 d); unwrap (checked_sub a n)

-- `impl_diff!`
unfoldable pub diff : ℕ → ℕ → Run ℤ
diff a b = unwrap (checked_signed_diff a b)

-- `impl_conv!` in both directions.
unfoldable pub size_of_diff : ℤ → Run ℕ
size_of_diff d = unwrap (u64_of_i64 d)

unfoldable pub diff_of_size : ℕ → Run ℤ
diff_of_size s = unwrap (i64_of_u64 s)

-- `From<PageSize> for ByteSize`, and `impl_pagesize_math!` over it.
unfoldable pub bytes_of_pages : ℕ → Run ℕ
bytes_of_pages p = unwrap (checked_mul p page_small_size)

unfoldable pub add_pages : ℕ → ℕ → Run ℕ
unfolding bytes_of_pages add_size
add_pages a p = do b ← bytes_of_pages p; add_size a b

unfoldable pub sub_pages : ℕ → ℕ → Run ℕ
unfolding bytes_of_pages sub_size
sub_pages a p = do b ← bytes_of_pages p; sub_size a b

-- `TryFrom<ByteSize> for PageSize`
unfoldable pub pages_of_bytes : ℕ → Option ℕ
pages_of_bytes b = if b % page_small_size == 0 then some (b / page_small_size) else none

-- `ByteSize::page_size_roundup`, by `u64::div_ceil`.
unfoldable pub page_size_roundup : ℕ → ℕ
page_size_roundup b =
    if b % page_small_size == 0 then b / page_small_size else b / page_small_size + 1

-- `frame_containing`, `frame_aligned` and `address`, alike for virtual and physical addresses.
unfoldable pub frame_containing : ℕ → ℕ
frame_containing a = a / page_small_size

unfoldable pub frame_aligned : ℕ → Run ℕ
frame_aligned a = do assert (a % page_small_size == 0); done (a / page_small_size)

unfoldable pub address : ℕ → Run ℕ
address f = unwrap (checked_mul f page_small_size)

-- `is_aligned` of an address to a size in bytes, and of a frame number to a size in pages. The
-- product of `PageSize::size_bytes` does not overflow at the sizes of the page tables.
unfoldable pub is_aligned : ℕ → ℕ → Bool
is_aligned a bytes = a % bytes == 0

unfoldable pub frame_is_aligned : ℕ → ℕ → Run Bool
unfolding address is_aligned
frame_is_aligned f pages = do a ← address f; done (is_aligned a (pages * page_small_size))

-- The part of `VirtualMemoryLayout` that the conversions read.
pub record VirtualMemoryLayout : Type 0 where
  pub higher_half_base : ℕ
  pub hhdm_base : ℕ
  pub hhdm_end : ℕ
  pub hhdm_size : ℕ
  pub pdt_base : ℕ
  pub pdt_end : ℕ
  pub heap_base : ℕ
  pub heap_end : ℕ
  pub kernel_base : ℕ
  pub kernel_end : ℕ
  pub kernel_phys_base : ℕ

-- `none` is a layout that is not initialised yet.
unfoldable pub hhdm_to_physical : Option VirtualMemoryLayout → ℕ → Run ℕ
unfolding diff add_diff
hhdm_to_physical vm_layout a = do
  layout ← unwrap vm_layout
  assert (leb layout.hhdm_base a && ltb a layout.hhdm_end)
  d ← diff a layout.hhdm_base
  add_diff 0 d

unfoldable pub kernel_to_physical : Option VirtualMemoryLayout → ℕ → Run ℕ
unfolding diff add_diff
kernel_to_physical vm_layout a = do
  layout ← unwrap vm_layout
  assert (leb layout.kernel_base a && ltb a layout.kernel_end)
  d ← diff a layout.kernel_base
  add_diff layout.kernel_phys_base d

unfoldable pub to_virtual : Option VirtualMemoryLayout → ℕ → Run ℕ
unfolding diff add_diff
to_virtual vm_layout p = do
  layout ← unwrap vm_layout
  d ← diff p 0
  res ← add_diff layout.hhdm_base d
  assert (ltb res layout.hhdm_end)
  done res

-- `PageFrameNumber::to_virtual`
unfoldable pub frame_to_virtual : Option VirtualMemoryLayout → ℕ → Run ℕ
unfolding address to_virtual frame_aligned
frame_to_virtual vm_layout f = do p ← address f; v ← to_virtual vm_layout p; frame_aligned v

-- `get_higher_half_addr` of arch/x86_64/paging.rs: `five_level` is the mode in the response, if any.
unfoldable pub get_higher_half_addr : Option Bool → ℕ
get_higher_half_addr (some five_level) =
    if five_level then 0xff00000000000000 else 0xffff800000000000
get_higher_half_addr none = 0xffff800000000000

unfoldable pub is_higher_half : Option Bool → ℕ → Bool
unfolding get_higher_half_addr
is_higher_half mode a = ltb (get_higher_half_addr mode) a

-- `VirtualPageFrameNumber::is_higher_half`
unfoldable pub frame_is_higher_half : Option Bool → ℕ → Run Bool
unfolding address is_higher_half
frame_is_higher_half mode f = do a ← address f; done (is_higher_half mode a)
