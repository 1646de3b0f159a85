-- ===== src/Mem/EarlyPmm.antt =====
-- src/mem/init.rs: `EarlyPMM`, the physical allocator that walks the memory map.
pub mod Walk
use wasm_kernel.Base.{
  ℕ, zero, suc, ◌+◌, ◌-◌, ◌*◌, ◌/◌, ◌%◌, ◌^◌, ◌≤◌, ◌<◌, max, ◌≡◌, refl, sym, ap, ◌∙◌, fun_ext, ◌≢◌,
  ◌↔◌, ◌⊎◌, inl, inr, Bool, true, false, not, ◌&&◌, ◌||◌, Option, none, some, List, [], ◌∷◌, ◌++◌,
  map, arith, ltb, leb, ◌==◌, if◌then◌else◌, ltb→lt, lt→ltb, leb→le, le→leb, ==_iff, Bool-cases,
  Option-cases, length, get_elem?, set, take, drop, All, length-append, set-append, take-append,
  drop-append, All-append, Run, done, panic, ◌>>=◌, ◌>>◌, assert, unwrap, Returns, >>=-eq-done,
}
use wasm_kernel.Mem.Types.{add_size}
use wasm_kernel.Mem.Requests.{Entry, MemoryMapEntry, translate, at, is_usable}

-- `EarlyPMMInner`, with the flag of a debug build.
pub record EarlyPmm : Type 0 where
  pub index : ℕ
  pub offset : ℕ
  pub is_frozen : Bool

-- The value in `mem::init`.
abbrev pub early_start : EarlyPmm
early_start = record { index = 0; offset = 0; is_frozen = false }

-- The loop of `allocate_single_page`. The list holds the entries from `index` on: past its end the
-- loop panics, as it does at the test of `index` against the number of entries.
unfoldable pub early_loop : List Entry → ℕ → ℕ → Run (ℕ × ℕ)
unfolding translate is_usable
early_loop [] index offset = panic
early_loop (e ∷ rest) index offset = do
  entry ← translate e
  if ltb offset entry.size && is_usable entry.entry_type
      then done (index, offset)
      else early_loop rest (index + 1) 0

-- `EarlyPMM::allocate_single_page`
unfoldable pub early_allocate : List Entry → EarlyPmm → Run (ℕ × EarlyPmm)
early_allocate entries state = do
  assert (not state.is_frozen)
  (index, offset) ← early_loop (drop state.index entries) state.index state.offset
  entry ← at entries index
  pos ← add_size entry.start offset
  done (pos, record state { index = index; offset = offset + 1 })

unfoldable pub freeze : EarlyPmm → EarlyPmm
freeze state = record state { is_frozen = true }

unfoldable pub is_used : EarlyPmm → ℕ → ℕ → Bool
is_used state index offset =
    ltb index state.index || (index == state.index && ltb offset state.offset)
