-- ===== src/Mem/EarlyVpa/Reserve.antt =====
-- src/mem/vpa.rs: what `EarlyAllocator::reserve_range` takes out of the free list.
use wasm_kernel.Base.{
  ℕ, ◌+◌, ◌<◌, ◌≡◌, refl, sym, ◌∙◌, inl, inr, true, false, not, ◌&&◌, Option, none, some, List, [],
  ◌∷◌, ◌++◌, arith, Bool-cases, length, All, length-append, All-append, done, Returns,
}
use mathlib.Core.List.{append_assoc, append-nil}
use wasm_kernel.Mem.ArrayVec.{ArrayVec, ArrayVecLaws, try_insert_after}
use wasm_kernel.Mem.Range.{AddressRange, contains, intersects, is_sub_range}
use wasm_kernel.Mem.EarlyVpa.{EarlyAllocator, capacity, reserve_hit, reserve_loop, reserve_range}
use wasm_kernel.Mem.EarlyVpa.Order.{
  IsOrdered, is_free, IsOrdered-replace, IsOrdered-from, is_free-append, is_free-ge, is_free-before,
  IsOrdered-is_sorted,
}

-- What a call that reserves `range` makes of the free list `rs`.
abbrev pub Reserves : List AddressRange → AddressRange → Option EarlyAllocator → Type 0
Reserves rs range none = All (λ v. is_sub_range v range ≡ false) rs
Reserves rs range (some self) =
    IsOrdered 0 self.free_ranges
    × ((n : ℕ) → is_free self.free_ranges n ≡ (is_free rs n && not (contains range n)))
    × ((n : ℕ) → contains range n ≡ true → is_free rs n ≡ true)

-- Ranges behind the end of `value` cannot hold a range that begins before that end.
behind :
    (post : List AddressRange) (lo : ℕ) (range : AddressRange)
    → IsOrdered lo post
    → range.start < lo
    → All (λ v. is_sub_range v range ≡ false) post
unfolding is_sub_range
behind [] lo range o h = tt
behind (v ∷ post) lo range o h = (ground arith, behind post v.end range o.3 (omega arith))

module _ (pre : List AddressRange) (value : AddressRange) (post : List AddressRange)
    (range : AddressRange) (proper : range.start < range.end)
    (o : IsOrdered 0 (pre ++ value ∷ post)) where
  abbrev left : AddressRange
  left = record { start = value.start; end = range.start }

  abbrev right : AddressRange
  right = record { start = range.end; end = value.end }

  split-Reserves :
      is_sub_range value range ≡ true
      → Reserves
          (pre ++ value ∷ post)
          range
          (some (record { free_ranges = pre ++ (left ∷ right ∷ post) }))
  unfolding is_sub_range is_free contains
  split-Reserves inside = (
    IsOrdered-replace pre 0 value post (left ∷ right ∷ []) (λ l p. ground arith) o,
    λ n. ground (
      arith,
      is_free-append pre (value ∷ post) n,
      is_free-append pre (left ∷ right ∷ post) n,
      IsOrdered-from pre 0 value post o,
      is_free-before pre 0 value post n o,
      is_free-ge post value.end n (IsOrdered-from pre 0 value post o).2,
    ),
    λ n h. ground (arith, is_free-append pre (value ∷ post) n),
  )

  module _ (av : ArrayVec AddressRange) (laws : ArrayVecLaws capacity av) where
    hit-Reserves :
        is_sub_range value range ≡ true
        → length (pre ++ value ∷ post) < capacity
        → Returns
            (reserve_hit av (pre ++ value ∷ post) (length pre) value range)
            (Reserves (pre ++ value ∷ post) range)
    unfolding reserve_hit is_sub_range
    hit-Reserves inside room = rw done_e (split-Reserves inside)
      where
        open laws use {remove_at, try_insert_room}

        first : av.try_insert (pre ++ post) (length pre) left ≡ some (pre ++ left ∷ post)
        first =
            try_insert_room pre post left
              (omega (arith, length-append pre (value ∷ post), length-append pre post, room))

        second :
            av.try_insert (pre ++ left ∷ post) (length pre + 1) right
            ≡ some (pre ++ left ∷ right ∷ post)
        second =
            try_insert_after laws pre post left right (
              omega
                (arith, length-append pre (value ∷ post), length-append pre (left ∷ post), room))

        done_e :
            reserve_hit av (pre ++ value ∷ post) (length pre) value range
            ≡ done (some (record { free_ranges = pre ++ (left ∷ right ∷ post) }))
        done_e = ground (
          arith,
          inside,
          proper,
          remove_at pre post value,
          first,
          second,
          IsOrdered-is_sorted (pre ++ (left ∷ right ∷ post)) 0 (split-Reserves inside).0,
        )

  -- The first range that `range` meets does not hold it, so none does.
  stuck-Reserves :
      All (λ v. is_sub_range v range ≡ false) pre
      → intersects value range ≡ true
      → is_sub_range value range ≡ false
      → All (λ v. is_sub_range v range ≡ false) (pre ++ value ∷ post)
  unfolding intersects
  stuck-Reserves before meets outside =
      All-append (λ v. is_sub_range v range ≡ false) pre (value ∷ post) before
        (outside, behind post value.end range (IsOrdered-from pre 0 value post o).2 (ground arith))

module _ (av : ArrayVec AddressRange) (laws : ArrayVecLaws capacity av) where
  loop-Reserves :
      (ranges : List AddressRange) (index : ℕ) (pre rest : List AddressRange) (range : AddressRange)
      → ranges ≡ pre ++ rest
      → index ≡ length pre
      → IsOrdered 0 ranges
      → range.start < range.end
      → length ranges < capacity
      → All (λ v. is_sub_range v range ≡ false) pre
      → Returns (reserve_loop av ranges index rest range) (Reserves ranges range)
  unfolding reserve_loop
  loop-Reserves ranges index pre [] range e i o proper room before = rw (e, append-nil pre) before
  loop-Reserves ranges index pre (value ∷ rest) range e i o proper room before =
      elim (Bool-cases (intersects value range)) [
        | inl meets ↦ rw meets (elim (Bool-cases (is_sub_range value range)) [
          | inl inside ↦
              rw (inside, e, i)
                (hit-Reserves pre value rest range proper (rw e at o) av laws inside (rw e at room))
          | inr outside ↦
              rw (outside, e)
                (stuck-Reserves pre value rest range proper (rw e at o) before meets outside)
        ])
        | inr apart ↦ rw apart (
            loop-Reserves ranges (index + 1) (pre ++ value ∷ []) rest range
              (e ∙ sym (append_assoc pre (value ∷ []) rest))
              (omega (arith, i, length-append pre (value ∷ []))) o proper room
              (All-append (λ v. is_sub_range v range ≡ false) pre (value ∷ []) before
                (apart_lem value range proper apart, tt)))
      ]
    where
      apart_lem :
          (v r : AddressRange) → r.start < r.end → intersects v r ≡ false → is_sub_range v r ≡ false
      apart_lem v r h a = unfold intersects is_sub_range in ground arith

  -- With room in the vector, reserving a range that is not empty never panics. It fails only if no
  -- free range holds all of it, and else takes exactly its frames, all of them free, off the list.
  pub reserve_range-Reserves :
      (self : EarlyAllocator) (range : AddressRange)
      → IsOrdered 0 self.free_ranges
      → range.start < range.end
      → length self.free_ranges < capacity
      → Returns (reserve_range av self range) (Reserves self.free_ranges range)
  unfolding reserve_range
  reserve_range-Reserves self range o proper room =
      loop-Reserves self.free_ranges 0 [] self.free_ranges range refl refl o proper room tt
