-- ===== src/Tests/Memory.antt =====
-- Runs of the address arithmetic and of the virtual allocators.
use wasm_kernel.Base.{
  ℕ, ◌+◌, ◌-◌, ◌^◌, ◌≤◌, ◌<◌, ◌≡◌, refl, ◌↔◌, true, ◌&&◌, some, [], ◌∷◌, arith, ltb, leb,
  if◌then◌else◌, done, panic, ◌>>=◌, Returns,
}
use wasm_kernel.Base.Int.{negsuc}
use wasm_kernel.Mem.Types.{
  page_small_size, i64_mod, diff, add_diff, sub_diff, address, frame_aligned, frame_containing,
  VirtualMemoryLayout,
}
use wasm_kernel.Mem.Types.Laws.{
  add_diff-diff, add_diff-negsuc, frame_aligned-address, address-frame_containing,
}
use wasm_kernel.Mem.Range.{AddressRange, contains, intersects}
use wasm_kernel.Mem.Range.Laws.{intersects_iff}
use wasm_kernel.Mem.EarlyVpa.{EarlyAllocator, capacity}
use wasm_kernel.Mem.EarlyVpa as Early
use wasm_kernel.Mem.EarlyVpa.Order.{IsOrdered}
use wasm_kernel.Mem.EarlyVpa.Allocate.{Allocates, allocate-Allocates}
use wasm_kernel.Mem.EarlyVpa.Reserve.{Reserves, reserve_range-Reserves}
use wasm_kernel.Mem.RbTree.{total, bit}
use wasm_kernel.Mem.TreeVpa.{size_key, base_key, TreeAllocator}
use wasm_kernel.Mem.TreeVpa as Tree
use wasm_kernel.Mem.TreeVpa.Inv.{IsTree, held, has}
use wasm_kernel.Mem.TreeVpa.Allocate.{TreeAllocates, allocate-TreeAllocates}
use wasm_kernel.Mem.TreeVpa.Free.{Frees, free-Frees}
use wasm_kernel.Mem.TreeVpa.Refree.{free-IsTree, free-keeps_left}
use wasm_kernel.Mem.Allocation.{allocate_padded, Allocated, allocate_padded-Allocated}
use wasm_kernel.Tests.Vectors.{vector, vector-laws}
use wasm_kernel.Tests.Trees.{list_tree, list_tree-laws}

add_diff-diff_example :
    (diff 4096 8192 >>= add_diff 8192)
    ≡ (if leb 8192 4096 && ltb (4096 - 8192) i64_mod then done 4096 else panic)
add_diff-diff_example = add_diff-diff 8192 4096 (omega arith) (omega arith)

add_diff-negsuc_example : (add_diff 4096 (negsuc 0) ≡ panic) × (sub_diff 4096 (negsuc 0) ≡ panic)
add_diff-negsuc_example = add_diff-negsuc 4096 0

frame_aligned-address_example :
    (address 7 >>= frame_aligned) ≡ (if ltb 7 (2 ^ 52) then done 7 else panic)
frame_aligned-address_example = frame_aligned-address 7

address-frame_containing_example :
    Returns (address (frame_containing 5000)) (λ b. (b ≤ 5000) × (5000 < b + page_small_size))
address-frame_containing_example = address-frame_containing 5000 (omega arith)

abbrev two_gigabytes : VirtualMemoryLayout
two_gigabytes = record {
  higher_half_base = 18446603336221196288;
  hhdm_base = 18446603336221196288;
  hhdm_size = 524288;
  hhdm_end = 18446603338368679936;
  pdt_base = 18446603338368679936;
  pdt_end = 18446603338368679936;
  heap_base = 18446603338368679936;
  heap_end = 18446603338368679936;
  kernel_base = 18446744071562067968;
  kernel_end = 18446744071562068992;
  kernel_phys_base = 2097152;
}

abbrev range : ℕ → ℕ → AddressRange
range start end = record { start = start; end = end }

intersects_iff_example :
    (intersects (range 1 5) (range 4 9) ≡ true)
    ↔ ((x : ℕ) × (contains (range 1 5) x ≡ true) × (contains (range 4 9) x ≡ true))
intersects_iff_example = intersects_iff (range 1 5) (range 4 9) (omega arith) (omega arith)

abbrev two_ranges : EarlyAllocator
two_ranges = record { free_ranges = range 16 18 ∷ range 32 64 ∷ [] }

two_ranges-IsOrdered : IsOrdered 0 two_ranges.free_ranges
two_ranges-IsOrdered =
    (omega arith, omega arith, omega arith, (omega arith, omega arith, omega arith, tt))

-- The first range is too small, and the second one is cut.
allocate_run :
    Early.allocate (vector capacity) two_ranges 4
    ≡ done (some 32, record { free_ranges = range 16 18 ∷ range 36 64 ∷ [] })
unfolding Early.allocate Early.allocate_loop Early.allocate_hit
allocate_run = refl

allocate-Allocates_example :
    Returns
      (Early.allocate (vector capacity) two_ranges 4)
      (λ r. Allocates two_ranges.free_ranges 4 (r.0) (r.1.free_ranges))
allocate-Allocates_example =
    allocate-Allocates (vector capacity) (vector-laws capacity) two_ranges 4 two_ranges-IsOrdered

reserve_range-Reserves_example :
    Returns
      (Early.reserve_range (vector capacity) two_ranges (range 40 44))
      (Reserves two_ranges.free_ranges (range 40 44))
reserve_range-Reserves_example =
    reserve_range-Reserves (vector capacity) (vector-laws capacity) two_ranges (range 40 44)
      two_ranges-IsOrdered (omega arith) (omega arith)

abbrev nodes : TreeAllocator (list_tree size_key) (list_tree base_key)
nodes = record { by_size = range 4 8 ∷ range 16 32 ∷ []; by_base = range 4 8 ∷ range 16 32 ∷ [] }

nodes-IsTree : IsTree nodes
nodes-IsTree = record {
  same_nodes = λ w. refl;
  apart = λ n. unfold total contains in ground arith;
  valid = λ s h. unfold total in ground (arith, h);
}

-- The best fit is cut.
tree_allocate_run :
    Tree.allocate (list_tree size_key) (list_tree base_key) nodes 3
    ≡ done (
      some 4,
      record { by_size = range 7 8 ∷ range 16 32 ∷ []; by_base = range 7 8 ∷ range 16 32 ∷ [] },
    )
unfolding Tree.allocate
tree_allocate_run = refl

allocate-TreeAllocates_example :
    Returns
      (Tree.allocate (list_tree size_key) (list_tree base_key) nodes 3)
      (λ r. TreeAllocates nodes 3 (r.0) (r.1))
allocate-TreeAllocates_example =
    allocate-TreeAllocates (list_tree size_key) (list_tree base_key) (list_tree-laws size_key)
      (list_tree-laws base_key) nodes nodes-IsTree 3

free-Frees_example :
    Returns
      (Tree.free (list_tree size_key) (list_tree base_key) nodes (range 8 12))
      (Frees nodes (range 8 12))
free-Frees_example =
    free-Frees (list_tree size_key) (list_tree base_key) (list_tree-laws size_key)
      (list_tree-laws base_key) nodes nodes-IsTree (range 8 12) (omega arith) (omega arith)

free-IsTree_example :
    (t' : TreeAllocator (list_tree size_key) (list_tree base_key)) × (Tree.free
        (list_tree size_key)
        (list_tree base_key)
        nodes
        (range 8 16)
      ≡ done (some t'))
    × IsTree t'
    × ((n : ℕ) → held t' n ≡ held nodes n + bit (contains (range 8 16) n))
free-IsTree_example =
    free-IsTree (list_tree size_key) (list_tree base_key) (list_tree-laws size_key)
      (list_tree-laws base_key) nodes nodes-IsTree (range 8 16) (omega arith) (omega arith)
      (λ n h. unfold total contains in ground (arith, h))

-- The node behind the freed range is merged, the one in front of it is not.
abbrev nodes_after : TreeAllocator (list_tree size_key) (list_tree base_key)
nodes_after = record {
  by_size = range 8 32 ∷ range 4 8 ∷ [];
  by_base = range 8 32 ∷ range 4 8 ∷ [];
}

tree_free_run :
    Tree.free (list_tree size_key) (list_tree base_key) nodes (range 8 16) ≡ done (some nodes_after)
unfolding Tree.free Tree.merge_left Tree.merge_right Tree.meets Tree.insert Tree.take_out intersects
tree_free_run = refl

has_4_8 : 0 < has nodes (range 4 8)
has_4_8 = unfold total in ground arith

free-keeps_left_example : has nodes (range 4 8) ≤ has nodes_after (range 4 8)
free-keeps_left_example =
    free-keeps_left (list_tree size_key) (list_tree base_key) (list_tree-laws size_key)
      (list_tree-laws base_key) nodes nodes-IsTree (range 8 16) (omega arith) (omega arith)
      nodes_after tree_free_run (range 4 8) (omega arith) has_4_8

allocate_padded-Allocated_example :
    Returns (allocate_padded (list_tree size_key) (list_tree base_key) 4 1 nodes) (
      Allocated
        (list_tree size_key)
        (list_tree base_key)
        (list_tree-laws size_key)
        (list_tree-laws base_key)
        nodes
        nodes-IsTree
        4
        1
        (omega arith))
allocate_padded-Allocated_example =
    allocate_padded-Allocated (list_tree size_key) (list_tree base_key) (list_tree-laws size_key)
      (list_tree-laws base_key) nodes nodes-IsTree 4 1 (omega arith) (omega arith)
