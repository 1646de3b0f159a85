-- ===== src/Mem/TreeVpa/Refree.antt =====
-- src/mem/vpa.rs: `TreeAllocator::free` on a range that is not free, on one that is, and what it
-- does to the free range in front of it.
use wasm_kernel.Base.{
  ℕ, ◌+◌, ◌≤◌, ◌<◌, ◌≡◌, sym, ◌∙◌, inl, inr, true, false, Option, none, some, arith, ◌==◌,
  Bool-cases, Option-cases, done,
}
use wasm_kernel.Mem.RbTree.{RbTree, RbTreeLaws, bit}
use wasm_kernel.Mem.Range.{AddressRange, contains}
use wasm_kernel.Mem.EarlyVpa.Order.{frame_limit}
use wasm_kernel.Mem.TreeVpa.{size_key, base_key, TreeAllocator, insert, take_out, meets, free}
use wasm_kernel.Mem.TreeVpa.Inv.{
  IsTree, held, has, total-ge, take_out-held, take_out-has, take_out-IsTree, insert-has,
  insert-IsTree,
}
use wasm_kernel.Mem.TreeVpa.Free.{
  freed, left_node, right_node, accepted, refused, freed-held, right_found, meets→inside,
}

module _ (sizes : RbTree size_key) (bases : RbTree base_key) (size_laws : RbTreeLaws sizes)
    (base_laws : RbTreeLaws bases) (t : TreeAllocator sizes bases) (inv : IsTree t) where
  -- A node holds its frames.
  held_by : (s : AddressRange) (n : ℕ) → 0 < has t s → contains s n ≡ true → 0 < held t n
  held_by s n h c =
      let le : bit (contains s n) ≤ held t n =
        total-ge (λ q. bit (contains q n)) s (bases.iter t.by_base) h in
      omega (arith, rw c at le)

  module _ (range : AddressRange) (proper : range.start < range.end)
      (small : range.end < frame_limit) where
    abbrev L : Option AddressRange
    L = left_node sizes bases size_laws base_laws t inv range proper small

    abbrev R : Option AddressRange
    R = right_node sizes bases size_laws base_laws t inv range proper small

    module _ (away : (n : ℕ) → contains range n ≡ true → held t n ≡ 0) where
      quiet : meets sizes bases L range ≡ false
      quiet = elim (Bool-cases (meets sizes bases L range)) [
        | inr h ↦ h
        | inl h ↦
            let (s, there, from, to) =
              meets→inside sizes bases size_laws base_laws t inv range proper small h in
            absurd (
              unfold contains in
              omega (
                arith,
                held_by s s.start there (ground (arith, inv.valid s there)),
                away s.start (ground arith),
              ))
      ]

      freed-IsTree : IsTree (freed t range R)
      freed-IsTree = elim (Option-cases R) [
        | inl e ↦ rw e (insert-IsTree size_laws base_laws t range inv (proper, small) away)
        | inr (r, e) ↦ rw e (elim (Bool-cases (r.start == range.end)) [
          | inl q ↦ rw q (
              merged r (right_found sizes bases size_laws base_laws t inv range proper small r e) q)
          | inr q ↦ rw q (insert-IsTree size_laws base_laws t range inv (proper, small) away)
        ])
      ]
        where
          merged :
              (r : AddressRange)
              → (0 < has t r) × (range.end ≤ r.start) × (r.start < r.end) × (r.end < frame_limit)
              → (r.start == range.end) ≡ true
              → IsTree (
                  insert sizes bases
                    (take_out sizes bases t r)
                    (record { start = range.start; end = r.end }))
          merged r f q =
              insert-IsTree size_laws base_laws (take_out sizes bases t r)
                (record { start = range.start; end = r.end })
                (take_out-IsTree size_laws base_laws t r inv f.0) (omega (arith, f, proper), f.3)
                (λ n h.
                  unfold contains in
                  ground (
                    arith,
                    away n,
                    inv.apart n,
                    take_out-held size_laws base_laws t r inv f.0 n,
                    q,
                    f,
                    h,
                  ))

      -- Freeing a range of frames none of which is free is accepted, keeps the trees sound, and makes
      -- exactly its frames free.
      pub free-IsTree :
          (t' : TreeAllocator sizes bases) × (free sizes bases t range ≡ done (some t'))
          × IsTree t'
          × ((n : ℕ) → held t' n ≡ held t n + bit (contains range n))
      free-IsTree = (
        freed t range R,
        accepted sizes bases size_laws base_laws t inv range proper small quiet,
        freed-IsTree,
        freed-held sizes bases size_laws base_laws t inv range proper small,
      )

    -- A free range in front of the freed one is kept as it is, also where it ends at the start of the
    -- freed range: `free` never merges the two.
    pub free-keeps_left :
        (t' : TreeAllocator sizes bases)
        → free sizes bases t range ≡ done (some t')
        → (s : AddressRange) → s.end ≤ range.start
        → 0 < has t s
        → has t s ≤ has t' s
    free-keeps_left t' e s before h = elim (Bool-cases (meets sizes bases L range)) [
      | inl m ↦
          let f : free sizes bases t range ≡ done none =
            refused sizes bases size_laws base_laws t inv range proper small m in
          cc
      | inr m ↦
          let f : done (some (freed t range R)) ≡ done (some t') =
            sym (accepted sizes bases size_laws base_laws t inv range proper small m) ∙ e in
          let g : freed t range R ≡ t' = cc in rw (← g) kept
    ]
      where
        kept : has t s ≤ has (freed t range R) s
        kept = elim (Option-cases R) [
          | inl q ↦ rw q (omega (arith, insert-has size_laws base_laws t range s))
          | inr (r, q) ↦ rw q (elim (Bool-cases (r.start == range.end)) [
            | inr p ↦ rw p (omega (arith, insert-has size_laws base_laws t range s))
            | inl p ↦ rw p (
                ground (
                  arith,
                  insert-has size_laws base_laws (take_out sizes bases t r)
                      (record { start = range.start; end = r.end }) s,
                  take_out-has size_laws base_laws t r inv
                      (right_found sizes bases size_laws base_laws t inv range proper small r q).0
                      s,
                  right_found sizes bases size_laws base_laws t inv range proper small r q,
                  inv.valid s h,
                ))
          ])
        ]
