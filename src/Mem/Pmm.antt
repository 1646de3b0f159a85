-- ===== src/Mem/Pmm.antt =====
-- src/mem/pmm.rs: the table of page records, its free list, and `PMM`.
pub mod Chain
pub mod Populate
pub mod Frames
pub mod Mapping
use wasm_kernel.Base.{
  ℕ, zero, suc, ◌+◌, ◌-◌, ◌*◌, ◌/◌, ◌%◌, ◌^◌, ◌≤◌, ◌<◌, max, ◌≡◌, refl, sym, ap, ◌∙◌, fun_ext, ◌≢◌,
  ◌↔◌, ◌⊎◌, inl, inr, Bool, true, false, not, ◌&&◌, ◌||◌, Option, none, some, List, [], ◌∷◌, ◌++◌,
  map, arith, ltb, leb, ◌==◌, if◌then◌else◌, ltb→lt, lt→ltb, leb→le, le→leb, ==_iff, Bool-cases,
  Option-cases, length, get_elem?, set, take, drop, All, length-append, set-append, take-append,
  drop-append, All-append, Run, done, panic, ◌>>=◌, ◌>>◌, assert, unwrap, Returns, >>=-eq-done,
}
use wasm_kernel.Mem.Types.{add_size}
use wasm_kernel.Mem.Requests.{Entry, MemoryMapEntry, MemoryMapType, translate, is_usable}
use wasm_kernel.Mem.EarlyPmm.{EarlyPmm, is_used}

-- `page_info::PageState`
pub data PageState : Type 0 where
  free : Option ℕ → PageState
  used : PageState

-- `PDTData`: the records are read and written by frame number.
pub record PdtData : Type 0 where
  pub pdt : ℕ → PageState
  pub len : ℕ
  pub free_list : Option ℕ

abbrev pub update : (ℕ → PageState) → ℕ → PageState → ℕ → PageState
update pdt frame state n = if n == frame then state else pdt n

-- `get_page_info`, whose result is read, and written through.
unfoldable pub get_page_info : PdtData → ℕ → Run PageState
get_page_info self frame = do assert (ltb frame self.len); done (self.pdt frame)

unfoldable pub set_page_info : PdtData → ℕ → PageState → Run PdtData
set_page_info self frame info = do
  assert (ltb frame self.len)
  done (record self { pdt = update self.pdt frame info })

-- The body of the loops of `init_pdt` that fill the table, with `next_free` beside the table.
unfoldable pub populate_page :
    EarlyPmm → ℕ → MemoryMapEntry → ℕ → PdtData × Option ℕ → Run (PdtData × Option ℕ)
unfolding add_size set_page_info is_usable is_used
populate_page pmm index entry offset (self, next_free) = do
  frame ← add_size entry.start offset
  if is_usable entry.entry_type && not (is_used pmm index offset)
      then (set_page_info self frame (free next_free) >>= λ self'. done (self', some frame))
      else (set_page_info self frame used >>= λ self'. done (self', next_free))

-- `for offset in 0..entry.size`, from an offset on.
unfoldable pub populate_entry :
    EarlyPmm → ℕ → MemoryMapEntry → ℕ → ℕ → PdtData × Option ℕ → Run (PdtData × Option ℕ)
unfolding populate_page
populate_entry pmm index entry offset zero state = done state
populate_entry pmm index entry offset (suc n) state = do
  state' ← populate_page pmm index entry offset state
  populate_entry pmm index entry (offset + 1) n state'

-- `for (index, entry) in MemoryMapView::get().iter().enumerate()`
unfoldable pub populate : EarlyPmm → ℕ → List Entry → PdtData × Option ℕ → Run (PdtData × Option ℕ)
unfolding translate populate_entry
populate pmm index [] state = done state
populate pmm index (e ∷ rest) state = do
  entry ← translate e
  state' ← populate_entry pmm index entry 0 entry.size state
  populate pmm (index + 1) rest state'

-- The second half of `init_pdt`: the table after it is mapped, and `frozen` the early allocator.
unfoldable pub init_table : EarlyPmm → List Entry → PdtData → Run PdtData
unfolding populate
init_table frozen entries self = do
  (self', next_free) ← populate frozen 0 entries (record self { free_list = none }, none)
  done (record self' { free_list = next_free })

-- `PMM::allocate_pages`
unfoldable pub allocate_pages : PdtData → ℕ → Run (Option ℕ × PdtData)
unfolding get_page_info
allocate_pages self count = do
  assert (count == 1)
  elim self.free_list [
    | none ↦ done (none, self)
    | some page ↦ do
      state ← get_page_info self page
      elim state [ free next ↦ done (some page, record self { free_list = next }) | used ↦ panic ]
  ]

-- `PMM::allocate_single_page`
unfoldable pub allocate_single_page : PdtData → Run (ℕ × PdtData)
unfolding allocate_pages
allocate_single_page self = do
  (page, self') ← allocate_pages self 1
  frame ← unwrap page
  done (frame, self')
