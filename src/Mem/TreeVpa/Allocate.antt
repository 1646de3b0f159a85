-- ===== src/Mem/TreeVpa/Allocate.antt =====
-- src/mem/vpa.rs: what `TreeAllocator::allocate` returns and leaves free.
use wasm_kernel.Base.{
  ℕ, ◌+◌, ◌≤◌, ◌<◌, ◌≡◌, refl, inl, inr, Option, none, some, arith, ◌==◌, leb→le, le→leb,
  Bool-cases, Option-cases, done, Returns,
}
use wasm_kernel.Mem.RbTree.{included, RbTree, RbTreeLaws, bit, is_same, count}
use wasm_kernel.Mem.Range.{AddressRange, contains}
use wasm_kernel.Mem.EarlyVpa.Order.{frame_limit}
use wasm_kernel.Mem.EarlyVpa.Allocate.{in_block}
use wasm_kernel.Mem.TreeVpa.{size_key, base_key, TreeAllocator, insert, take_out, allocate}
use wasm_kernel.Mem.TreeVpa.Inv.{
  IsTree, held, has, take_out-held, take_out-IsTree, insert-held, insert-IsTree,
}

-- What a call that asks for `wanted` frames makes of the trees.
abbrev pub TreeAllocates :
    {sizes : RbTree size_key} {bases : RbTree base_key}
    → TreeAllocator sizes bases
    → ℕ
    → Option ℕ
    → TreeAllocator sizes bases
    → Type 0
TreeAllocates t wanted none t' = (t' ≡ t) × ((s : AddressRange) → 0 < has t s → size_key s < wanted)
TreeAllocates t wanted (some base) t' =
    IsTree t'
    × ((n : ℕ) → held t n ≡ held t' n + bit (in_block base wanted n))
    × ((s : AddressRange)
        → 0 < has t s
        → wanted ≤ size_key s
        → (r : AddressRange) × (0 < has t r)
          × (r.start ≡ base)
          × (wanted ≤ size_key r)
          × (size_key r ≤ size_key s))

module _ (sizes : RbTree size_key) (bases : RbTree base_key) (size_laws : RbTreeLaws sizes)
    (base_laws : RbTreeLaws bases) (t : TreeAllocator sizes bases) (inv : IsTree t)
    (wanted : ℕ) where
  sizes_has : (s : AddressRange) → count s (sizes.iter t.by_size) ≡ has t s
  sizes_has s = inv.same_nodes (λ q. bit (is_same q s))

  module _ (node : AddressRange)
      (found : sizes.lower_bound (included wanted) t.by_size ≡ some node) where
    there : 0 < has t node
    there = omega (arith, sizes_has node, (size_laws.lower_bound_some _ t.by_size node found).0)

    fits : wanted ≤ size_key node
    fits = leb→le _ _ (size_laws.lower_bound_some _ t.by_size node found).1

    ok : (node.start < node.end) × (node.end < frame_limit)
    ok = inv.valid node there

    abbrev rest_of : AddressRange
    rest_of = record { start = node.start + wanted; end = node.end }

    abbrev taken : TreeAllocator sizes bases
    taken = take_out sizes bases t node

    taken-held : (n : ℕ) → held taken n + bit (contains node n) ≡ held t n
    taken-held = take_out-held size_laws base_laws t node inv there

    least :
        (s : AddressRange)
        → 0 < has t s
        → wanted ≤ size_key s
        → (r : AddressRange) × (0 < has t r)
          × (r.start ≡ node.start)
          × (wanted ≤ size_key r)
          × (size_key r ≤ size_key s)
    least s h k = (
      node,
      there,
      refl,
      fits,
      size_laws.lower_bound_least _ t.by_size node found s (omega (arith, sizes_has s, h))
          (le→leb _ _ k),
    )

    whole-Allocates :
        node.start + wanted ≡ node.end → TreeAllocates t wanted (some node.start) taken
    whole-Allocates e = (
      take_out-IsTree size_laws base_laws t node inv there,
      λ n. unfold contains in ground (arith, taken-held n, ok),
      least,
    )

    part-Allocates :
        ¬ (node.start + wanted ≡ node.end)
        → TreeAllocates t wanted (some node.start) (insert sizes bases taken rest_of)
    part-Allocates q = (
      insert-IsTree size_laws base_laws taken rest_of
          (take_out-IsTree size_laws base_laws t node inv there) (omega (arith, fits, ok, q), ok.1)
          (λ n h. unfold contains in ground (arith, taken-held n, inv.apart n, h)),
      λ n.
          unfold contains in
          ground (arith, taken-held n, insert-held size_laws base_laws taken rest_of n, ok, fits),
      least,
    )

  -- On sound trees `allocate` never panics. It either finds no free range of the wanted size and
  -- changes nothing, or returns the base of one of the smallest that are large enough, and then
  -- exactly the `wanted` frames from that base are free no more.
  pub allocate-TreeAllocates :
      Returns (allocate sizes bases t wanted) (λ r. TreeAllocates t wanted r.0 r.1)
  unfolding allocate
  allocate-TreeAllocates = elim (Option-cases (sizes.lower_bound (included wanted) t.by_size)) [
    | inl e ↦
        let done_e : allocate sizes bases t wanted ≡ done (none, t) = rw (e, allocate) in
        rw done_e (
          refl,
          λ s h.
              ground
                (arith, size_laws.lower_bound_none _ t.by_size e s (omega (arith, sizes_has s, h))),
        )
    | inr (node, e) ↦ elim (Bool-cases (node.start + wanted == node.end)) [
      | inl q ↦
          let done_e : allocate sizes bases t wanted ≡ done (some node.start, taken node e) =
            rw (e, allocate) (ground (arith, ok node e, fits node e)) in
          rw done_e (whole-Allocates node e (ground arith))
      | inr q ↦
          let done_e : allocate sizes bases t wanted
              ≡ done (some node.start, insert sizes bases (taken node e) (rest_of node e)) =
            rw (e, allocate) (ground (arith, ok node e, fits node e)) in
          rw done_e (part-Allocates node e (ground arith))
    ]
  ]
