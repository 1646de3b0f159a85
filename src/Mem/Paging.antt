-- ===== src/Mem/Paging.antt =====
-- src/arch/x86_64/paging.rs: the page tables, and the mapping of pages and of ranges.
pub mod Loops
pub mod Cover
pub mod Conditions
pub mod Fill
pub mod Walk
pub mod Tree
pub mod NewTable
pub mod Steps
pub mod Put
pub mod Translate
pub mod MapPage
pub mod Kinds
pub mod Refine
pub mod Ranges
use wasm_kernel.Base.{
  ℕ, zero, suc, ◌+◌, ◌-◌, ◌*◌, ◌/◌, ◌%◌, ◌^◌, ◌≤◌, ◌<◌, max, ◌≡◌, refl, sym, ap, ◌∙◌, fun_ext, ◌≢◌,
  ◌↔◌, ◌⊎◌, inl, inr, Bool, true, false, not, ◌&&◌, ◌||◌, Option, none, some, List, [], ◌∷◌, ◌++◌,
  map, arith, ltb, leb, ◌==◌, if◌then◌else◌, ltb→lt, lt→ltb, leb→le, le→leb, ==_iff, Bool-cases,
  Option-cases, length, get_elem?, set, take, drop, All, length-append, set-append, take-append,
  drop-append, All-append, Run, done, panic, ◌>>=◌, ◌>>◌, assert, unwrap, Returns, >>=-eq-done,
  Run-cases,
}
use wasm_kernel.Mem.Types.{
  VirtualMemoryLayout, add_size, address, frame_is_aligned, to_virtual, frame_to_virtual,
  frame_is_higher_half,
}

-- The bits of an entry that the kernel sets: `PTFlags` and its like of the crate x86.
pub record EntryFlags : Type 0 where
  pub p : Bool
  pub rw : Bool
  pub us : Bool
  pub ps : Bool
  pub xd : Bool
  pub g : Bool

-- What the kernel takes from the crate x86: the entries of a table, with the one whose bytes are
-- zero, and the indices of an address. The laws are its documented behaviour.
pub record X86 (E : Type 0) : Type 0 where
  pub empty : E
  pub new_entry : ℕ → EntryFlags → E
  pub entry_address : E → ℕ
  pub flags : E → EntryFlags
  pub pml4_index : ℕ → ℕ
  pub pdpt_index : ℕ → ℕ
  pub pd_index : ℕ → ℕ
  pub pt_index : ℕ → ℕ
  pub p-empty : (flags empty).p ≡ false
  pub address-new :
      (a : ℕ) (f : EntryFlags) → a % 4096 ≡ 0 → a < 2 ^ 52 → entry_address (new_entry a f) ≡ a
  pub flags-new : (a : ℕ) (f : EntryFlags) → a % 4096 ≡ 0 → a < 2 ^ 52 → flags (new_entry a f) ≡ f
  pub pml4_index_eq : (a : ℕ) → pml4_index a ≡ a / 2 ^ 39 % 512
  pub pdpt_index_eq : (a : ℕ) → pdpt_index a ≡ a / 2 ^ 30 % 512
  pub pd_index_eq : (a : ℕ) → pd_index a ≡ a / 2 ^ 21 % 512
  pub pt_index_eq : (a : ℕ) → pt_index a ≡ a / 2 ^ 12 % 512

-- `SMALL_PAGE_PAGE_SIZE`, `MEDIUM_PAGE_PAGE_SIZE` and `LARGE_PAGE_PAGE_SIZE`
abbrev pub small_pages : ℕ
small_pages = 1

abbrev pub medium_pages : ℕ
medium_pages = 512

abbrev pub large_pages : ℕ
large_pages = 262144

pub record PageFlags : Type 0 where
  pub write : Bool
  pub user : Bool
  pub execute : Bool
  pub global : Bool

abbrev pub kernel_rw : PageFlags
kernel_rw = record { write = true; user = false; execute = false; global = true }

abbrev pub kernel_ro : PageFlags
kernel_ro = record { write = false; user = false; execute = false; global = true }

abbrev pub kernel_x : PageFlags
kernel_x = record { write = false; user = false; execute = true; global = true }

-- The flags of `create_page_map`, and of the entries of a page: the size bit is that of the two
-- larger sizes.
abbrev pub page_map_flags : EntryFlags
page_map_flags = record { p = true; rw = true; us = true; ps = false; xd = false; g = false }

abbrev pub page_flags : Bool → PageFlags → EntryFlags
page_flags large f = record {
  p = true;
  rw = f.write;
  us = f.user;
  ps = large;
  xd = not f.execute;
  g = f.global;
}

-- The memory of the tables, by the virtual address of a table and an index; the allocator's state;
-- and whether `KERNEL_GLOBAL_PAGE_LOCK` is taken.
pub record PageMemory (E S : Type 0) : Type 0 where
  pub tables : ℕ → ℕ → E
  pub alloc : S
  pub locked : Bool

module _ {E : Type 0} where
  abbrev pub write_entry : (ℕ → ℕ → E) → ℕ → ℕ → E → ℕ → ℕ → E
  write_entry tables table index e t i = if t == table && i == index then e else tables t i

  abbrev pub write_table : (ℕ → ℕ → E) → ℕ → (ℕ → E) → ℕ → ℕ → E
  write_table tables table es t i = if t == table then es i else tables t i

module _ {E S : Type 0} where
  -- `do_action`: the guard is dropped behind the action. A core that has the lock already would
  -- wait for itself, which is a panic here.
  unfoldable pub do_action :
      Bool → (PageMemory E S → Run (PageMemory E S)) → PageMemory E S → Run (PageMemory E S)
  do_action needs_lock action s =
      if needs_lock
      then (do
        assert (not s.locked)
        s' ← action (record s { locked = true })
        done (record s' { locked = false }))
      else action s

module _ {E S : Type 0} (x : X86 E) (allocate_single_page : S → Run (ℕ × S)) (mode : Option Bool)
    (vm : Option VirtualMemoryLayout) where
  -- `PageFrameAllocator::allocate_zeroed_page`
  unfoldable pub allocate_zeroed_page : PageMemory E S → Run (ℕ × PageMemory E S)
  unfolding frame_to_virtual address
  allocate_zeroed_page s = do
    (frame, alloc) ← allocate_single_page s.alloc
    v ← frame_to_virtual vm frame
    a ← address v
    done (frame, record s { alloc = alloc; tables = write_table s.tables a (λ _. x.empty) })

  -- `PageTableSet::new`
  unfoldable pub new_table_set : PageMemory E S → Run (ℕ × PageMemory E S)
  unfolding allocate_zeroed_page
  new_table_set s = allocate_zeroed_page s

  unfoldable pub pml4 : ℕ → Run ℕ
  unfolding address to_virtual
  pml4 pml_addr = do a ← address pml_addr; to_virtual vm a

  unfoldable pub create_page_map : ℕ → Run E
  unfolding address
  create_page_map frame = do a ← address frame; done (x.new_entry a page_map_flags)

  -- The table that an entry points to, which is made where it is missing.
  unfoldable pub walk_entry : PageMemory E S → ℕ → ℕ → Run (ℕ × PageMemory E S)
  unfolding allocate_zeroed_page create_page_map to_virtual
  walk_entry s table index = do
    s' ← if (x.flags (s.tables table index)).p then done s else (do
      (page, s_1) ← allocate_zeroed_page s
      e ← create_page_map page
      done (record s_1 { tables = write_entry s_1.tables table index e }))
    ptr ← to_virtual vm (x.entry_address (s'.tables table index))
    done (ptr, s')

  unfoldable pub map_page_small : ℕ → ℕ → ℕ → PageFlags → PageMemory E S → Run (PageMemory E S)
  unfolding do_action pml4 walk_entry frame_is_higher_half address
  map_page_small self virt phys flags s = do
    needs_lock ← frame_is_higher_half mode virt
    do_action needs_lock
        (λ s_4. do
          table_4 ← pml4 self
          a ← address virt
          (table_3, s_3) ← walk_entry s_4 table_4 (x.pml4_index a)
          (table_2, s_2) ← walk_entry s_3 table_3 (x.pdpt_index a)
          (table_1, s_1) ← walk_entry s_2 table_2 (x.pd_index a)
          p ← address phys
          done (record s_1 {
            tables =
                write_entry s_1.tables table_1 (x.pt_index a)
                  (x.new_entry p (page_flags false flags));
          }))
        s

  unfoldable pub map_page_medium : ℕ → ℕ → ℕ → PageFlags → PageMemory E S → Run (PageMemory E S)
  unfolding do_action pml4 walk_entry frame_is_higher_half frame_is_aligned address
  map_page_medium self virt phys flags s = do
    is_virt ← frame_is_aligned virt medium_pages
    assert is_virt
    is_phys ← frame_is_aligned phys medium_pages
    assert is_phys
    needs_lock ← frame_is_higher_half mode virt
    do_action needs_lock
        (λ s_4. do
          table_4 ← pml4 self
          a ← address virt
          (table_3, s_3) ← walk_entry s_4 table_4 (x.pml4_index a)
          (table_2, s_2) ← walk_entry s_3 table_3 (x.pdpt_index a)
          p ← address phys
          done (record s_2 {
            tables =
                write_entry s_2.tables table_2 (x.pd_index a)
                  (x.new_entry p (page_flags true flags));
          }))
        s

  unfoldable pub map_page_large : ℕ → ℕ → ℕ → PageFlags → PageMemory E S → Run (PageMemory E S)
  unfolding do_action pml4 walk_entry frame_is_higher_half frame_is_aligned address
  map_page_large self virt phys flags s = do
    is_virt ← frame_is_aligned virt large_pages
    assert is_virt
    is_phys ← frame_is_aligned phys large_pages
    assert is_phys
    needs_lock ← frame_is_higher_half mode virt
    do_action needs_lock
        (λ s_4. do
          table_4 ← pml4 self
          a ← address virt
          (table_3, s_3) ← walk_entry s_4 table_4 (x.pml4_index a)
          p ← address phys
          done (record s_3 {
            tables =
                write_entry s_3.tables table_3 (x.pdpt_index a)
                  (x.new_entry p (page_flags true flags));
          }))
        s

  -- `for idx in 256..512`, from an index on.
  unfoldable pub kernel_pages_loop : ℕ → ℕ → ℕ → PageMemory E S → Run (PageMemory E S)
  unfolding pml4 walk_entry
  kernel_pages_loop self idx zero s = done s
  kernel_pages_loop self idx (suc n) s = do
    table ← pml4 self
    (_, s') ← walk_entry s table idx
    kernel_pages_loop self (idx + 1) n s'

  unfoldable pub map_kernel_pages : ℕ → PageMemory E S → Run (PageMemory E S)
  unfolding kernel_pages_loop
  map_kernel_pages self s = kernel_pages_loop self 256 256 s

  unfoldable pub duplicate : ℕ → PageMemory E S → Run (ℕ × PageMemory E S)
  unfolding frame_to_virtual address
  duplicate self s = do
    (page, alloc) ← allocate_single_page s.alloc
    from_frame ← frame_to_virtual vm self
    from ← address from_frame
    to_frame ← frame_to_virtual vm page
    to ← address to_frame
    done (page, record s { alloc = alloc; tables = write_table s.tables to (s.tables from) })
