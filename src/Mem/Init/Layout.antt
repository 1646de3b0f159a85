-- ===== src/Mem/Init/Layout.antt =====
-- src/mem/init.rs: the regions that `init_vm_layout` lays out.
use wasm_kernel.Base.{
  ℕ, ◌+◌, ◌-◌, ◌/◌, ◌%◌, ◌^◌, ◌≤◌, ◌<◌, ◌≡◌, refl, ◌∙◌, inl, inr, true, false, not, ◌&&◌, ◌||◌,
  Option, none, some, [], ◌∷◌, arith, Run, done, ◌>>=◌, unwrap, Returns, >>=-eq-done, Run-cases,
}
use wasm_kernel.Mem.Types.{
  VirtualMemoryLayout, add_size, sub_size, frame_aligned, get_higher_half_addr, page_small_size,
}
use wasm_kernel.Mem.Range.{AddressRange, new, sized, contains}
use wasm_kernel.Mem.ArrayVec.{ArrayVec, ArrayVecLaws}
use wasm_kernel.Mem.EarlyVpa.{
  EarlyAllocator, capacity, early, early_new, reserve_all, reserve_range, allocate,
}
use wasm_kernel.Mem.EarlyVpa.Order.{IsOrdered, is_free, frame_limit}
use wasm_kernel.Mem.EarlyVpa.Allocate.{Allocates, in_block, allocate-Allocates}
use wasm_kernel.Mem.EarlyVpa.Reserve.{Reserves, reserve_range-Reserves}
use wasm_kernel.Mem.Allocation.{VirtualAllocation, allocated, wrap, leak}
use wasm_kernel.Mem.Init.{Boot, padding, early_allocate_padded, region, kernel_half}

-- A region with its padding on both sides.
abbrev pub guarded : AddressRange → AddressRange
guarded r = record { start = r.start - padding; end = r.end + padding }

-- The region's frames, with those of its padding, were free and are so no more; the others are as
-- they were.
pub record Takes (self self' : EarlyAllocator) (size : ℕ) (r : AddressRange) : Type 0 where
  pub ordered : IsOrdered 0 self'.free_ranges
  pub sized_as : r.end ≡ r.start + size
  pub room : padding ≤ r.start
  pub split :
      (n : ℕ) → is_free self.free_ranges n ≡ (contains (guarded r) n || is_free self'.free_ranges n)
  pub apart : (n : ℕ) → contains (guarded r) n ≡ true → is_free self'.free_ranges n ≡ false

allocated_done :
    (size base whole : ℕ) (a : VirtualAllocation)
    → allocated size padding whole base ≡ done a
    → (a.usable.start ≡ base + padding) × (a.usable.end ≡ base + padding + size)
unfolding allocated sized new add_size
allocated_done size base whole a h = ground (arith, h)

pub add_size-eq-done : (a b c : ℕ) → add_size a b ≡ done c → c ≡ a + b
unfolding add_size
add_size-eq-done a b c h = ground (arith, h)

Returns-done {ℓ} :
    {A : Type ℓ} (run : Run A) (a : A) (P : A → Type 0) → run ≡ done a → Returns run P → P a
Returns-done run a P e h = rw e at h

frame_aligned-eq-done :
    (a f : ℕ) → frame_aligned a ≡ done f → (a % page_small_size ≡ 0) × (f ≡ a / page_small_size)
unfolding frame_aligned
frame_aligned-eq-done a f h = ground (arith, h)

sub_size-eq-done : (a b c : ℕ) → sub_size a b ≡ done c → (b ≤ a) × (c ≡ a - b)
unfolding sub_size
sub_size-eq-done a b c h = ground (arith, h)

new-eq-done :
    (a b : ℕ) (r : AddressRange) → new a b ≡ done r → (a ≤ b) × (r.start ≡ a) × (r.end ≡ b)
unfolding new
new-eq-done a b r h = ground (arith, h)

wrap_done :
    (size whole : ℕ) (result : Option ℕ × EarlyAllocator)
    (q : Option VirtualAllocation × EarlyAllocator) (made : VirtualAllocation)
    → wrap size padding whole result ≡ done q
    → unwrap q.0 ≡ done made
    → (base : ℕ) × (result.0 ≡ some base)
      × (result.1 ≡ q.1)
      × (made.usable.start ≡ base + padding)
      × (made.usable.end ≡ base + padding + size)
wrap_done size whole (none, s) q made h u =
    let nothing : q.0 ≡ none = cc in let stuck = rw nothing at u in absurd cc
wrap_done size whole (some base, s) q made h u =
    let (a, e, k) = >>=-eq-done (allocated size padding whole base) _ h in
    let (at_start, at_end) = allocated_done size base whole a e in
    let found : q.0 ≡ some a = cc in
    let same : a ≡ made = let v = rw found at u in cc in
    (base, refl, cc, rw (← same) at_start, rw (← same) at_end)

taken :
    (self self' : EarlyAllocator) (size base whole : ℕ) (r : AddressRange)
    (made : VirtualAllocation)
    → whole ≡ padding + size + padding
    → r ≡ made.usable
    → made.usable.start ≡ base + padding
    → made.usable.end ≡ base + padding + size
    → (result : Option ℕ × EarlyAllocator)
    → Allocates self.free_ranges whole result.0 (result.1).free_ranges
    → result.0 ≡ some base
    → self' ≡ result.1
    → Takes self self' size r
taken self self' size base whole r made wanted same_r at_start at_end result h found left =
    let a : Allocates self.free_ranges whole (some base) self'.free_ranges =
      rw left (rw found at h) in
    let starts : r.start ≡ base + padding = rw same_r at_start in
    let ends : r.end ≡ base + padding + size = rw same_r at_end in
    let same : (n : ℕ) → contains (guarded r) n ≡ in_block base whole n =
      λ n. unfold contains in ground (arith, starts, ends, wanted) in
    record {
      ordered = a.0;
      sized_as = omega (arith, starts, ends);
      room = omega (arith, starts);
      split = λ n. rw (same n) (a.1 n);
      apart = λ n h. a.2 n (rw (same n) at h);
    }

-- The direct map with its padding, as a range of frames.
abbrev pub hhdm_range : VirtualMemoryLayout → AddressRange
hhdm_range layout = record {
  start = layout.hhdm_base / page_small_size - padding;
  end = layout.hhdm_end / page_small_size + padding;
}

-- The kernel's half of the frames, up to the kernel.
abbrev pub half_range : Boot → AddressRange
half_range boot = record {
  start = get_higher_half_addr boot.mode / page_small_size;
  end = boot.kernel_virtual_base / page_small_size;
}

-- The free frames are those of the kernel's half outside the direct map, which lies in it.
pub record Halves (boot : Boot) (first last : ℕ) (self : EarlyAllocator) : Type 0 where
  pub ordered : IsOrdered 0 self.free_ranges
  pub room : padding ≤ first
  pub split :
      (n : ℕ)
      → is_free self.free_ranges n ≡ (
          contains (half_range boot) n
          && not (contains (record { start = first - padding; end = last + padding }) n))
  pub inside :
      (n : ℕ)
      → contains (record { start = first - padding; end = last + padding }) n ≡ true
      → contains (half_range boot) n ≡ true

module _ (av : ArrayVec AddressRange) (laws : ArrayVecLaws capacity av) where
  pub region-Takes :
      (size : ℕ) (self self' : EarlyAllocator) (r : AddressRange)
      → IsOrdered 0 self.free_ranges
      → region av size self ≡ done (r, self')
      → Takes self self' size r
  unfolding region early_allocate_padded leak
  region-Takes size self self' r o h =
      let (q, e, k) = >>=-eq-done (early_allocate_padded av size padding self) _ h in
      let (made, u, l) = >>=-eq-done (unwrap (q.0)) _ k in
      let (front, e_1, k_1) = >>=-eq-done (add_size padding size) _ e in
      let (whole, e_2, k_2) = >>=-eq-done (add_size front padding) _ k_1 in
      let (result, e_3, k_3) = >>=-eq-done (allocate av self whole) _ k_2 in
      let (base, found, left, at_start, at_end) = wrap_done size whole result q made k_3 u in
      let wanted : whole ≡ padding + size + padding = omega (
        arith,
        add_size-eq-done padding size front e_1,
        add_size-eq-done front padding whole e_2,
      ) in
      let same_r : r ≡ made.usable = cc in
      let same_s : self' ≡ result.1 = cc in
      let a =
        Returns-done (allocate av self whole) result _ e_3
          (allocate-Allocates av laws self whole o) in
      taken self self' size base whole r made wanted same_r at_start at_end result a found same_s

  early-Reserves :
      (range reservation : AddressRange) (self : EarlyAllocator)
      → range.start ≤ range.end
      → range.end < frame_limit
      → reservation.start < reservation.end
      → (early av range (reservation ∷ []) >>= unwrap) ≡ done self
      → Reserves (range ∷ []) reservation (some self)
  unfolding early early_new reserve_all
  early-Reserves range reservation self o limit proper h =
      let pushed = laws.push_room [] range (omega arith) in
      let first : EarlyAllocator = record { free_ranges = range ∷ [] } in
      let r =
        reserve_range-Reserves av laws first reservation (omega arith, o, limit, tt) proper
          (omega arith) in
      elim (Run-cases (reserve_range av first reservation)) [
        | inl e ↦ absurd (rw e at r)
        | inr (none, e) ↦ let stuck = rw (pushed, e) at h in absurd cc
        | inr (some next, e) ↦
            let same : done next ≡ done self = rw (pushed, e) at h in
            let eq : next ≡ self = cc in rw (← eq) (rw e at r)
      ]

  halves :
      (boot : Boot) (first last : ℕ) (range reservation : AddressRange) (self : EarlyAllocator)
      → range.start ≡ get_higher_half_addr boot.mode / page_small_size
      → range.end ≡ boot.kernel_virtual_base / page_small_size
      → reservation.start ≡ first - padding
      → reservation.end ≡ last + padding
      → padding ≤ first
      → Reserves (range ∷ []) reservation (some self)
      → Halves boot first last self
  unfolding is_free
  halves boot first last range reservation self a b c d room r =
      let half : (n : ℕ) → contains range n ≡ contains (half_range boot) n =
        λ n. unfold contains in rw (a, b) refl in
      let hhdm : (n : ℕ)
          → contains reservation n
            ≡ contains (record { start = first - padding; end = last + padding }) n =
        λ n. unfold contains in rw (c, d) refl in
      record {
        ordered = r.0;
        room = room;
        split = λ n. ground (arith, r.1 n, half n, hhdm n);
        inside = λ n h. ground (arith, r.2 n, half n, hhdm n);
      }

  pub kernel_half-Halves :
      (boot : Boot) (hhdm_end : ℕ) (self : EarlyAllocator)
      → boot.kernel_virtual_base < 2 ^ 64
      → boot.hhdm_start ≤ hhdm_end
      → kernel_half av boot hhdm_end ≡ done self
      → Halves boot (boot.hhdm_start / page_small_size) (hhdm_end / page_small_size) self
  unfolding kernel_half
  kernel_half-Halves boot hhdm_end self limit grows h =
      let (low, e_1, h_1) = >>=-eq-done (frame_aligned (get_higher_half_addr boot.mode)) _ h in
      let (high, e_2, h_2) = >>=-eq-done (frame_aligned boot.kernel_virtual_base) _ h_1 in
      let (range, e_3, h_3) = >>=-eq-done (new low high) _ h_2 in
      let (first, e_4, h_4) = >>=-eq-done (frame_aligned boot.hhdm_start) _ h_3 in
      let (hhdm_first, e_5, h_5) = >>=-eq-done (sub_size first padding) _ h_4 in
      let (last, e_6, h_6) = >>=-eq-done (frame_aligned hhdm_end) _ h_5 in
      let (hhdm_last, e_7, h_7) = >>=-eq-done (add_size last padding) _ h_6 in
      let (reservation, e_8, h_8) = >>=-eq-done (new hhdm_first hhdm_last) _ h_7 in
      let d_1 = frame_aligned-eq-done _ low e_1 in
      let d_2 = frame_aligned-eq-done _ high e_2 in
      let d_3 = new-eq-done low high range e_3 in
      let d_4 = frame_aligned-eq-done _ first e_4 in
      let d_5 = sub_size-eq-done first padding hhdm_first e_5 in
      let d_6 = frame_aligned-eq-done _ last e_6 in
      let d_7 = add_size-eq-done last padding hhdm_last e_7 in
      let d_8 = new-eq-done hhdm_first hhdm_last reservation e_8 in
      halves boot (boot.hhdm_start / page_small_size) (hhdm_end / page_small_size) range reservation
        self (d_3.1 ∙ d_1.1) (d_3.2 ∙ d_2.1) (omega (arith, d_8.1, d_5.1, d_4.1))
        (omega (arith, d_8.2, d_7, d_6.1)) (omega (arith, d_5.0, d_4.1))
        (early-Reserves range reservation self (omega (arith, d_3))
          (omega (arith, d_3.2, d_2.1, limit)) (omega (arith, d_8, d_7, d_5, d_4.1, d_6.1, grows))
          h_8)
