-- ===== src/Mem/EarlyVpa/Allocate.antt =====
-- src/mem/vpa.rs: what `EarlyAllocator::allocate` returns and leaves free.
use wasm_kernel.Base.{
  ℕ, ◌+◌, ◌-◌, ◌≤◌, ◌<◌, ◌≡◌, refl, sym, ◌∙◌, inl, inr, Bool, true, false, ◌&&◌, ◌||◌, Option, none,
  some, List, [], ◌∷◌, ◌++◌, arith, ltb, leb, ◌==◌, leb→le, Bool-cases, length, All, length-append,
  set-append, All-append, done, Returns,
}
use mathlib.Core.List.{append-nil, append_assoc}
use wasm_kernel.Mem.ArrayVec.{ArrayVec, ArrayVecLaws}
use wasm_kernel.Mem.Range.Laws.{size_of_ordered}
use wasm_kernel.Mem.Range.{AddressRange, contains}
use wasm_kernel.Mem.EarlyVpa.{EarlyAllocator, capacity, allocate_hit, allocate_loop, allocate}
use wasm_kernel.Mem.EarlyVpa.Order.{
  frame_limit, IsOrdered, is_free, IsOrdered-mono, IsOrdered-replace, IsOrdered-from,
  is_free-append, is_free-ge, is_free-before, IsOrdered-is_sorted,
}

-- `n` is one of the `wanted` frames from `base` on.
abbrev pub in_block : ℕ → ℕ → ℕ → Bool
in_block base wanted n = leb base n && ltb n (base + wanted)

-- What a call that asks for `wanted` frames makes of the free list `rs`.
abbrev pub Allocates : List AddressRange → ℕ → Option ℕ → List AddressRange → Type 0
Allocates rs wanted none rs' = (rs' ≡ rs) × All (λ r. r.end - r.start < wanted) rs
Allocates rs wanted (some base) rs' =
    IsOrdered 0 rs'
    × ((n : ℕ) → is_free rs n ≡ (in_block base wanted n || is_free rs' n))
    × ((n : ℕ) → in_block base wanted n ≡ true → is_free rs' n ≡ false)

module _ (pre : List AddressRange) (value : AddressRange) (post : List AddressRange) (wanted : ℕ)
    (o : IsOrdered 0 (pre ++ value ∷ post)) (room : wanted ≤ value.end - value.start) where
  abbrev rest_of : AddressRange
  rest_of = record { start = value.start + wanted; end = value.end }

  -- The frames of the list when the value gives way to `ys`, which hold the rest of it.
  frames :
      (ys : List AddressRange)
      → ((n : ℕ) → is_free ys n ≡ contains rest_of n)
      → ((l : ℕ) → IsOrdered l (value ∷ post) → IsOrdered l (ys ++ post))
      → Allocates (pre ++ value ∷ post) wanted (some value.start) (pre ++ (ys ++ post))
  unfolding is_free
  frames ys same fits = (
    IsOrdered-replace pre 0 value post ys fits o,
    λ n. ground (
      arith,
      is_free-append pre (value ∷ post) n,
      is_free-append pre (ys ++ post) n,
      is_free-append ys post n,
      same n,
      IsOrdered-from pre 0 value post o,
    ),
    λ n h. ground (
      arith,
      is_free-append pre (ys ++ post) n,
      is_free-append ys post n,
      same n,
      is_free-before pre 0 value post n o,
      is_free-ge post value.end n (IsOrdered-from pre 0 value post o).2,
    ),
  )

  taken-Allocates :
      value.start + wanted ≡ value.end
      → Allocates (pre ++ value ∷ post) wanted (some value.start) (pre ++ post)
  unfolding is_free contains
  taken-Allocates e =
      frames [] (λ n. ground arith) (λ l p. IsOrdered-mono post value.end l (omega arith) p.3)

  cut-Allocates : Allocates (pre ++ value ∷ post) wanted (some value.start) (pre ++ rest_of ∷ post)
  unfolding is_free
  cut-Allocates =
      frames (rest_of ∷ []) (λ n. ground arith) (λ l p. (omega arith, omega arith, p.2, p.3))

  module _ (av : ArrayVec AddressRange) (laws : ArrayVecLaws capacity av) where
    hit-Allocates :
        Returns
          (allocate_hit av (pre ++ value ∷ post) (length pre) value wanted)
          (λ r. Allocates (pre ++ value ∷ post) wanted r.0 r.1.free_ranges)
    unfolding allocate_hit
    hit-Allocates = elim (Bool-cases (value.start + wanted == value.end)) [
      | inl e ↦
          let done_e : allocate_hit av (pre ++ value ∷ post) (length pre) value wanted
              ≡ done (some value.start, record { free_ranges = pre ++ post }) =
            ground (
              arith,
              IsOrdered-from pre 0 value post o,
              laws.remove_at pre post value,
              IsOrdered-is_sorted (pre ++ post) 0 (taken-Allocates (ground arith)).0,
            ) in
          rw done_e (taken-Allocates (ground arith))
      | inr e ↦
          let done_e : allocate_hit av (pre ++ value ∷ post) (length pre) value wanted
              ≡ done (some value.start, record { free_ranges = pre ++ rest_of ∷ post }) =
            ground (
              arith,
              IsOrdered-from pre 0 value post o,
              set-append pre post value rest_of,
              IsOrdered-is_sorted (pre ++ rest_of ∷ post) 0 cut-Allocates.0,
            ) in
          rw done_e cut-Allocates
    ]

module _ (av : ArrayVec AddressRange) (laws : ArrayVecLaws capacity av) where
  loop-Allocates :
      (ranges : List AddressRange) (index : ℕ) (pre rest : List AddressRange) (wanted : ℕ)
      → ranges ≡ pre ++ rest
      → index ≡ length pre
      → IsOrdered 0 ranges
      → All (λ r. r.end - r.start < wanted) pre
      → Returns
          (allocate_loop av ranges index rest wanted)
          (λ r. Allocates ranges wanted r.0 r.1.free_ranges)
  unfolding allocate_loop
  loop-Allocates ranges index pre [] wanted e i o small = (refl, rw (e, append-nil pre) small)
  loop-Allocates ranges index pre (value ∷ rest) wanted e i o small =
      rw (size_of_ordered value whole.0 (omega (arith, whole.1)))
        (elim (Bool-cases (leb wanted (value.end - value.start))) [
          | inl big ↦
              rw (big, e, i) (hit-Allocates pre value rest wanted o' (leb→le _ _ big) av laws)
          | inr too_small ↦ rw too_small (
              loop-Allocates ranges (index + 1) (pre ++ value ∷ []) rest wanted
                (e ∙ sym (append_assoc pre (value ∷ []) rest))
                (omega (arith, i, length-append pre (value ∷ []))) o
                (All-append (λ r. r.end - r.start < wanted) pre (value ∷ []) small
                  (ground arith, tt)))
        ])
    where
      o' : IsOrdered 0 (pre ++ value ∷ rest)
      o' = rw e at o

      whole : (value.start ≤ value.end) × (value.end < frame_limit) × IsOrdered value.end rest
      whole = IsOrdered-from pre 0 value rest o'

  -- On a free list in order `allocate` never panics. It either finds no range of the wanted size and
  -- changes nothing, or returns the base of a block that was free, and then exactly the frames of
  -- that block are free no more.
  pub allocate-Allocates :
      (self : EarlyAllocator) (wanted : ℕ)
      → IsOrdered 0 self.free_ranges
      → Returns
          (allocate av self wanted)
          (λ r. Allocates self.free_ranges wanted r.0 r.1.free_ranges)
  unfolding allocate
  allocate-Allocates self wanted o =
      loop-Allocates self.free_ranges 0 [] self.free_ranges wanted refl refl o tt
