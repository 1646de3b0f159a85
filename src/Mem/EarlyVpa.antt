-- ===== src/Mem/EarlyVpa.antt =====
-- src/mem/vpa.rs: `EarlyAllocator`, the allocator of virtual pages that needs no heap.
pub mod Order
pub mod Allocate
pub mod Reserve
use wasm_kernel.Base.{
  ℕ, zero, suc, ◌+◌, ◌-◌, ◌*◌, ◌/◌, ◌%◌, ◌^◌, ◌≤◌, ◌<◌, max, ◌≡◌, refl, sym, ap, ◌∙◌, fun_ext, ◌≢◌,
  ◌↔◌, ◌⊎◌, inl, inr, Bool, true, false, not, ◌&&◌, ◌||◌, Option, none, some, List, [], ◌∷◌, ◌++◌,
  map, arith, ltb, leb, ◌==◌, if◌then◌else◌, ltb→lt, lt→ltb, leb→le, le→leb, ==_iff, Bool-cases,
  Option-cases, length, get_elem?, set, take, drop, All, length-append, set-append, take-append,
  drop-append, All-append, Run, done, panic, ◌>>=◌, ◌>>◌, assert, unwrap, Returns, >>=-eq-done,
}
use wasm_kernel.Mem.ArrayVec.{ArrayVec}
use wasm_kernel.Mem.Types.{add_size}
use wasm_kernel.Mem.Range.{AddressRange, new, empty, intersects, is_sub_range}
use wasm_kernel.Mem.Range

pub record EarlyAllocator : Type 0 where
  pub free_ranges : List AddressRange

-- `ArrayVec<VFRange, 8>`
abbrev pub capacity : ℕ
capacity = 8

-- `Iterator::is_sorted`
unfoldable pub is_sorted : List ℕ → Bool
is_sorted (x ∷ y ∷ rest) = leb x y && is_sorted (y ∷ rest)
is_sorted _ = true

abbrev pub starts : List AddressRange → List ℕ
starts rs = map (λ r. r.start) rs

module _ (av : ArrayVec AddressRange) where
  -- `EarlyAllocator::new`
  unfoldable pub early_new : AddressRange → Run EarlyAllocator
  early_new range = do vec ← unwrap (av.push [] range); done (record { free_ranges = vec })

  -- The body of the loop of `reserve_range` at the range that it intersects.
  unfoldable pub reserve_hit :
      List AddressRange → ℕ → AddressRange → AddressRange → Run (Option EarlyAllocator)
  unfolding new is_sorted
  reserve_hit ranges index value range = do
    pre ← new value.start range.start
    post ← new range.end value.end
    one ← unwrap (av.try_insert (av.remove ranges index) index pre)
    two ← unwrap (av.try_insert one (index + 1) post)
    assert (is_sorted (starts two))
    done (some (record { free_ranges = two }))

  -- The loop, at the elements from `index` on. `none` is `Err(())`, which leaves the state alone.
  unfoldable pub reserve_loop :
      List AddressRange → ℕ → List AddressRange → AddressRange → Run (Option EarlyAllocator)
  unfolding intersects is_sub_range
  reserve_loop ranges index [] range = done none
  reserve_loop ranges index (value ∷ rest) range =
      if intersects value range
      then (if is_sub_range value range then reserve_hit ranges index value range else done none)
      else reserve_loop ranges (index + 1) rest range

  unfoldable pub reserve_range : EarlyAllocator → AddressRange → Run (Option EarlyAllocator)
  unfolding reserve_loop
  reserve_range self range = reserve_loop self.free_ranges 0 self.free_ranges range

  -- The body of the loop of `allocate` at the first range that is large enough.
  unfoldable pub allocate_hit :
      List AddressRange → ℕ → AddressRange → ℕ → Run (Option ℕ × EarlyAllocator)
  unfolding add_size new empty is_sorted
  allocate_hit ranges index value wanted = do
    start ← add_size value.start wanted
    new_range ← new start value.end
    let left = if empty new_range then av.remove ranges index else set ranges index new_range
    assert (is_sorted (starts left))
    done (some value.start, record { free_ranges = left })

  unfoldable pub allocate_loop :
      List AddressRange → ℕ → List AddressRange → ℕ → Run (Option ℕ × EarlyAllocator)
  unfolding Range.size
  allocate_loop ranges index [] wanted = done (none, record { free_ranges = ranges })
  allocate_loop ranges index (value ∷ rest) wanted = do
    found ← Range.size value
    if leb wanted found
        then allocate_hit ranges index value wanted
        else allocate_loop ranges (index + 1) rest wanted

  unfoldable pub allocate : EarlyAllocator → ℕ → Run (Option ℕ × EarlyAllocator)
  unfolding allocate_loop
  allocate self wanted = allocate_loop self.free_ranges 0 self.free_ranges wanted

  -- The loop of `VirtualAllocator::early` over the reservations.
  unfoldable pub reserve_all : EarlyAllocator → List AddressRange → Run (Option EarlyAllocator)
  unfolding reserve_range
  reserve_all self [] = done (some self)
  reserve_all self (ele ∷ rest) = do
    reserved ← reserve_range self ele
    elim reserved [ none ↦ done none | some next ↦ reserve_all next rest ]

  -- `VirtualAllocator::early`
  unfoldable pub early : AddressRange → List AddressRange → Run (Option EarlyAllocator)
  unfolding early_new reserve_all
  early range reservations = do self ← early_new range; reserve_all self reservations

-- `EarlyAllocator::free`
unfoldable pub free : EarlyAllocator → AddressRange → Run (Option EarlyAllocator)
free self range = panic
