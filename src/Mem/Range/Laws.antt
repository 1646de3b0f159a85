-- ===== src/Mem/Range/Laws.antt =====
-- src/mem/types.rs: the tests on ranges say what they should about the numbers in them.
use wasm_kernel.Base.{
  ◌-◌, ◌≤◌, ℕ, ◌+◌, ◌-◌, ◌<◌, ◌≡◌, ◌↔◌, true, arith, ltb, leb, if◌then◌else◌, done, panic, ◌>>=◌,
}
use wasm_kernel.Mem.Types.{i64_mod, u64_mod}
use wasm_kernel.Mem.Range.{AddressRange, sized, size, contains, is_sub_range, intersects}

-- Two ranges that are not empty intersect exactly if some number lies in both.
pub intersects_iff :
    (r s : AddressRange)
    → r.start < r.end
    → s.start < s.end
    → (intersects r s ≡ true) ↔ ((x : ℕ) × (contains r x ≡ true) × (contains s x ≡ true))
unfolding intersects contains
intersects_iff r s hr hs = (
  λ h. (if leb r.start s.start then s.start else r.start, ground arith, ground arith),
  λ (x, p, q). ground arith,
)

-- A range that is not empty is a sub-range exactly if all its numbers lie in the larger one.
pub is_sub_range_iff :
    (r s : AddressRange)
    → s.start < s.end
    → (is_sub_range r s ≡ true) ↔ ((x : ℕ) → contains s x ≡ true → contains r x ≡ true)
unfolding is_sub_range contains
is_sub_range_iff r s hs = (λ h x p. ground arith, λ f. ground (arith, f s.start, f (s.end - 1)))

-- A range of a given size has that size and starts at its base; it panics only where the end
-- overflows or the size does not fit an `i64`.
pub size-sized :
    (base s : ℕ)
    → s < i64_mod
    → (sized base s >>= size) ≡ (if ltb (base + s) u64_mod then done s else panic)
unfolding sized size
size-sized base s h = ground arith

-- A range in order whose end fits an `i64` has a size.
pub size_of_ordered :
    (r : AddressRange) → r.start ≤ r.end → r.end < i64_mod → size r ≡ done (r.end - r.start)
unfolding size
size_of_ordered r h k = ground arith
