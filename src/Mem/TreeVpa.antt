-- ===== src/Mem/TreeVpa.antt =====
-- src/mem/vpa.rs: `TreeAllocator`, which keeps its free ranges in two trees, by size and by base.
pub mod Inv
pub mod Allocate
pub mod Free
pub mod Refree
use wasm_kernel.Base.{
  ℕ, zero, suc, ◌+◌, ◌-◌, ◌*◌, ◌/◌, ◌%◌, ◌^◌, ◌≤◌, ◌<◌, max, ◌≡◌, refl, sym, ap, ◌∙◌, fun_ext, ◌≢◌,
  ◌↔◌, ◌⊎◌, inl, inr, Bool, true, false, not, ◌&&◌, ◌||◌, Option, none, some, List, [], ◌∷◌, ◌++◌,
  map, arith, ltb, leb, ◌==◌, if◌then◌else◌, ltb→lt, lt→ltb, leb→le, le→leb, ==_iff, Bool-cases,
  Option-cases, length, get_elem?, set, take, drop, All, length-append, set-append, take-append,
  drop-append, All-append, Run, done, panic, ◌>>=◌, ◌>>◌, assert, unwrap, Returns, >>=-eq-done,
}
use wasm_kernel.Mem.RbTree.{Bound, included, excluded, RbTree}
use wasm_kernel.Mem.Types.{add_size}
use wasm_kernel.Mem.Range.{AddressRange, new, empty, intersects}

-- The keys of `VirtualRangeSizeAdapter` and `VirtualRangeBaseAdapter`.
abbrev pub size_key : AddressRange → ℕ
size_key r = r.end - r.start

abbrev pub base_key : AddressRange → ℕ
base_key r = r.start

module _ (sizes : RbTree size_key) (bases : RbTree base_key) where
  pub record TreeAllocator : Type 0 where
    pub by_size : sizes.Tree
    pub by_base : bases.Tree

  unfoldable pub insert : TreeAllocator → AddressRange → TreeAllocator
  insert self node = record {
    by_size = sizes.insert node self.by_size;
    by_base = bases.insert node self.by_base;
  }

  -- `TreeAllocator::new` over the free list of another allocator.
  unfoldable pub insert_all : TreeAllocator → List AddressRange → TreeAllocator
  unfolding insert
  insert_all self [] = self
  insert_all self (range ∷ rest) = insert_all (insert self range) rest

  unfoldable pub tree_new : List AddressRange → TreeAllocator
  unfolding insert_all
  tree_new ranges = insert_all (record { by_size = sizes.default; by_base = bases.default }) ranges

  -- A node leaves both trees.
  unfoldable pub take_out : TreeAllocator → AddressRange → TreeAllocator
  take_out self node = record {
    by_size = sizes.remove node self.by_size;
    by_base = bases.remove node self.by_base;
  }

  unfoldable pub allocate : TreeAllocator → ℕ → Run (Option ℕ × TreeAllocator)
  unfolding add_size new empty insert take_out
  allocate self wanted = elim (sizes.lower_bound (included wanted) self.by_size) [
    | none ↦ done (none, self)
    | some node ↦ do
      start ← add_size node.start wanted
      range ← new start node.end
      let taken = take_out self node
      done (some node.start, if empty range then taken else insert taken range)
  ]

  -- The two tests of `free`: the node that a cursor found, if any, intersects the range.
  unfoldable pub meets : Option AddressRange → AddressRange → Bool
  unfolding intersects
  meets none range = false
  meets (some node) range = intersects node range

  -- The two mergers of `free`, each with the node that its cursor found.
  unfoldable pub merge_left :
      TreeAllocator → Option AddressRange → AddressRange → Run (AddressRange × TreeAllocator)
  unfolding new take_out
  merge_left self none range = done (range, self)
  merge_left self (some left) range =
      if left.end == range.start
      then (new left.start range.end >>= λ r. done (r, take_out self left))
      else done (range, self)

  unfoldable pub merge_right :
      TreeAllocator → Option AddressRange → AddressRange → Run (AddressRange × TreeAllocator)
  unfolding new take_out
  merge_right self none range = done (range, self)
  merge_right self (some right) range =
      if right.start == range.end
      then (new range.start right.end >>= λ r. done (r, take_out self right))
      else done (range, self)

  -- `none` is `Err(())`, which leaves the state alone.
  unfoldable pub free : TreeAllocator → AddressRange → Run (Option TreeAllocator)
  free self range =
      if meets (bases.lower_bound (excluded range.start) self.by_base) range
      then done none
      else if meets (bases.lower_bound (included range.end) self.by_base) range
      then done none
      else do
        (range_1, self_1) ←
            merge_left self (bases.lower_bound (excluded range.start) self.by_base) range
        (range_2, self_2) ←
            merge_right self_1 (bases.lower_bound (included range_1.end) self_1.by_base) range_1
        done (some (insert self_2 range_2))

  unfoldable pub free_list_iterator : TreeAllocator → List AddressRange
  free_list_iterator self = bases.iter self.by_base
