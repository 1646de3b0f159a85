-- ===== src/Mem/TreeVpa/Free.antt =====
-- src/mem/vpa.rs: what `TreeAllocator::free` checks, and what it puts back.
use wasm_kernel.Base.{
  ℕ, ◌+◌, ◌≤◌, ◌<◌, ◌≡◌, inl, inr, true, false, Option, none, some, arith, ◌==◌, if◌then◌else◌,
  ltb→lt, leb→le, Bool-cases, Option-cases, done, ◌>>=◌, Returns,
}
use wasm_kernel.Mem.RbTree.{included, excluded, RbTree, RbTreeLaws, bit}
use wasm_kernel.Mem.Range.{AddressRange, contains, intersects}
use wasm_kernel.Mem.EarlyVpa.Order.{frame_limit}
use wasm_kernel.Mem.TreeVpa.{
  size_key, base_key, TreeAllocator, insert, take_out, meets, merge_left, merge_right, free,
}
use wasm_kernel.Mem.TreeVpa.Inv.{IsTree, held, has, take_out-held, insert-held}

module _ {sizes : RbTree size_key} {bases : RbTree base_key} where
  -- `free` refuses a range exactly for a node that begins inside it, behind its start; else each of
  -- its frames is held once more than before.
  abbrev pub Frees :
      TreeAllocator sizes bases → AddressRange → Option (TreeAllocator sizes bases) → Type 0
  Frees t range none =
      (s : AddressRange) × (0 < has t s) × (range.start < s.start) × (s.start < range.end)
  Frees t range (some t') =
      ((n : ℕ) → held t' n ≡ held t n + bit (contains range n))
      × ((s : AddressRange) → 0 < has t s → range.start < s.start → range.end ≤ s.start)

  -- The trees after an accepted call, from the node that the right cursor finds.
  abbrev pub freed :
      TreeAllocator sizes bases → AddressRange → Option AddressRange → TreeAllocator sizes bases
  freed t range none = insert sizes bases t range
  freed t range (some right) =
      if right.start == range.end
      then insert sizes bases (take_out sizes bases t right)
          (record { start = range.start; end = right.end })
      else insert sizes bases t range

module _ (sizes : RbTree size_key) (bases : RbTree base_key) (size_laws : RbTreeLaws sizes)
    (base_laws : RbTreeLaws bases) (t : TreeAllocator sizes bases) (inv : IsTree t)
    (range : AddressRange) (proper : range.start < range.end)
    (small : range.end < frame_limit) where
  abbrev pub left_node : Option AddressRange
  left_node = bases.lower_bound (excluded range.start) t.by_base

  abbrev pub right_node : Option AddressRange
  right_node = bases.lower_bound (included range.end) t.by_base

  -- What a cursor finds is in the tree, above its bound.
  pub left_found :
      (l : AddressRange)
      → left_node ≡ some l
      → (0 < has t l) × (range.start < l.start) × (l.start < l.end)
  left_found l e =
      let (h, a) = base_laws.lower_bound_some _ t.by_base l e in
      (h, ltb→lt _ _ a, (inv.valid l h).0)

  pub right_found :
      (r : AddressRange)
      → right_node ≡ some r
      → (0 < has t r) × (range.end ≤ r.start) × (r.start < r.end) × (r.end < frame_limit)
  right_found r e =
      let (h, a) = base_laws.lower_bound_some _ t.by_base r e in
      (h, leb→le _ _ a, (inv.valid r h).0, (inv.valid r h).1)

  -- The left cursor stands behind the start of the range, so its node never ends there.
  merge_left_lem : merge_left sizes bases t left_node range ≡ done (range, t)
  unfolding merge_left
  merge_left_lem = elim (Option-cases left_node) [
    | inl e ↦ rw e
    | inr (l, e) ↦ rw e (ground (arith, left_found l e))
  ]

  meets_right : meets sizes bases right_node range ≡ false
  unfolding meets
  meets_right = elim (Option-cases right_node) [
    | inl e ↦ rw e
    | inr (r, e) ↦ rw e (unfold intersects in ground (arith, right_found r e))
  ]

  merge_right_lem :
      (merge_right sizes bases t right_node range >>= λ (r, s).
      done (some (insert sizes bases s r)))
      ≡ done (some (freed t range right_node))
  unfolding merge_right
  merge_right_lem = elim (Option-cases right_node) [
    | inl e ↦ rw e
    | inr (r, e) ↦ rw e (ground (arith, right_found r e, proper))
  ]

  pub accepted :
      meets sizes bases left_node range ≡ false
      → free sizes bases t range ≡ done (some (freed t range right_node))
  unfolding free
  accepted quiet = rw (quiet, meets_right, merge_left_lem) merge_right_lem

  pub refused : meets sizes bases left_node range ≡ true → free sizes bases t range ≡ done none
  unfolding free
  refused h = rw h

  pub freed-held : (n : ℕ) → held (freed t range right_node) n ≡ held t n + bit (contains range n)
  freed-held n = elim (Option-cases right_node) [
    | inl e ↦ rw e (insert-held size_laws base_laws t range n)
    | inr (r, e) ↦ rw e (elim (Bool-cases (r.start == range.end)) [
      | inl q ↦ rw q (merged r e q)
      | inr q ↦ rw q (insert-held size_laws base_laws t range n)
    ])
  ]
    where
      merged :
          (r : AddressRange)
          → right_node ≡ some r
          → (r.start == range.end) ≡ true
          → held
              (insert sizes bases
                (take_out sizes bases t r)
                (record { start = range.start; end = r.end }))
              n
            ≡ held t n + bit (contains range n)
      merged r e q =
          unfold contains in
          ground (
            arith,
            q,
            right_found r e,
            insert-held size_laws base_laws (take_out sizes bases t r)
                (record { start = range.start; end = r.end }) n,
            take_out-held size_laws base_laws t r inv (right_found r e).0 n,
          )

  -- The left cursor finds nothing that meets the range.
  pub quiet→clear :
      meets sizes bases left_node range ≡ false
      → (s : AddressRange) → 0 < has t s
      → range.start < s.start
      → range.end ≤ s.start
  unfolding meets
  quiet→clear quiet s h k = elim (Option-cases left_node) [
    | inl e ↦ ground (arith, base_laws.lower_bound_none _ t.by_base e s h)
    | inr (l, e) ↦
        let apart : intersects l range ≡ false = (rw (e, meets) at quiet) in
        unfold intersects in
        ground (arith, apart, left_found l e, base_laws.lower_bound_least _ t.by_base l e s h)
  ]

  pub meets→inside : meets sizes bases left_node range ≡ true → Frees t range none
  unfolding meets
  meets→inside h = elim (Option-cases left_node) [
    | inl e ↦ let f : false ≡ true = (rw e at h) in cc
    | inr (l, e) ↦
        let m : intersects l range ≡ true = (rw e at h) in
        unfold intersects in (l, (left_found l e).0, (left_found l e).1, ground arith)
  ]

  -- On sound trees, for a range of frames that is not empty, `free` never panics. It is refused
  -- exactly for a free range that begins inside the given one, behind its start, and changes nothing;
  -- else each frame of the range is held by one free range more than before.
  pub free-Frees : Returns (free sizes bases t range) (Frees t range)
  free-Frees = elim (Bool-cases (meets sizes bases left_node range)) [
    | inl h ↦ rw (refused h) (meets→inside h)
    | inr h ↦ rw (accepted h) (freed-held, quiet→clear h)
  ]
