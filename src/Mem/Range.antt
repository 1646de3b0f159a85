-- ===== src/Mem/Range.antt =====
-- src/mem/types.rs: the trait `AddressRange`, and its instances `VARange` and `VFRange`.
pub mod Laws
use wasm_kernel.Base.{
  ℕ, zero, suc, ◌+◌, ◌-◌, ◌*◌, ◌/◌, ◌%◌, ◌^◌, ◌≤◌, ◌<◌, max, ◌≡◌, refl, sym, ap, ◌∙◌, fun_ext, ◌≢◌,
  ◌↔◌, ◌⊎◌, inl, inr, Bool, true, false, not, ◌&&◌, ◌||◌, Option, none, some, List, [], ◌∷◌, ◌++◌,
  map, arith, ltb, leb, ◌==◌, if◌then◌else◌, ltb→lt, lt→ltb, leb→le, le→leb, ==_iff, Bool-cases,
  Option-cases, length, get_elem?, set, take, drop, All, length-append, set-append, take-append,
  drop-append, All-append, Run, done, panic, ◌>>=◌, ◌>>◌, assert, unwrap, Returns, >>=-eq-done,
}
use wasm_kernel.Mem.Types.{add_size, diff, size_of_diff, address}

-- `VARange` holds addresses and `VFRange` frame numbers; both are a first number and an end.
pub record AddressRange : Type 0 where
  pub start : ℕ
  pub end : ℕ

-- `AddressRange::new`
unfoldable pub new : ℕ → ℕ → Run AddressRange
new min max = do assert (leb min max); done (record { start = min; end = max })

unfoldable pub sized : ℕ → ℕ → Run AddressRange
unfolding add_size new
sized base s = do e ← add_size base s; new base e

unfoldable pub size : AddressRange → Run ℕ
unfolding diff size_of_diff
size r = do d ← diff r.end r.start; size_of_diff d

unfoldable pub empty : AddressRange → Bool
empty r = r.start == r.end

unfoldable pub contains : AddressRange → ℕ → Bool
contains r value = leb r.start value && ltb value r.end

unfoldable pub is_sub_range : AddressRange → AddressRange → Bool
is_sub_range self range = leb self.start range.start && leb range.end self.end

unfoldable pub intersects : AddressRange → AddressRange → Bool
intersects self range = ltb self.start range.end && ltb range.start self.end

-- `VFRange::as_va_range`, which builds the range with no check of its order.
unfoldable pub as_va_range : AddressRange → Run AddressRange
unfolding address
as_va_range r = do s ← address r.start; e ← address r.end; done (record { start = s; end = e })

-- `as_rust_range`, walked from its start: the numbers from `start` up to `end`.
abbrev pub count_up : ℕ → ℕ → List ℕ
count_up first zero = []
count_up first (suc n) = first ∷ count_up (first + 1) n

unfoldable pub as_rust_range : AddressRange → List ℕ
as_rust_range r = count_up r.start (r.end - r.start)
