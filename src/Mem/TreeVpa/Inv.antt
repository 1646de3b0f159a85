-- ===== src/Mem/TreeVpa/Inv.antt =====
-- src/mem/vpa.rs: the invariant of `TreeAllocator`, and what its two trees gain and lose.
use wasm_kernel.Base.{ℕ, ◌+◌, ◌≤◌, ◌<◌, ◌≡◌, inl, inr, true, List, [], ◌∷◌, arith, Bool-cases}
use wasm_kernel.Mem.RbTree.{RbTree, RbTreeLaws, total, bit, is_same, count, cover}
use wasm_kernel.Mem.Range.{AddressRange, contains}
use wasm_kernel.Mem.EarlyVpa.Order.{frame_limit}
use wasm_kernel.Mem.TreeVpa.{size_key, base_key, TreeAllocator, insert, take_out}

module _ {sizes : RbTree size_key} {bases : RbTree base_key} where
  -- The two trees hold the same nodes, which are ranges of frames and not empty, and no frame is in two of them.
  pub record IsTree (t : TreeAllocator sizes bases) : Type 0 where
    pub same_nodes :
        (w : AddressRange → ℕ) → total w (sizes.iter t.by_size) ≡ total w (bases.iter t.by_base)
    pub apart : (n : ℕ) → cover n (bases.iter t.by_base) ≤ 1
    pub valid :
        (s : AddressRange)
        → 0 < count s (bases.iter t.by_base)
        → (s.start < s.end) × (s.end < frame_limit)

  -- The number of free ranges that hold a frame.
  abbrev pub held : TreeAllocator sizes bases → ℕ → ℕ
  held t n = cover n (bases.iter t.by_base)

  abbrev pub has : TreeAllocator sizes bases → AddressRange → ℕ
  has t s = count s (bases.iter t.by_base)

-- A node that counts is found in the weight.
pub total-ge :
    (w : AddressRange → ℕ) (r : AddressRange) (rs : List AddressRange)
    → 0 < count r rs
    → w r ≤ total w rs
unfolding total
total-ge w r [] h = absurd (omega arith)
total-ge w r (s ∷ rs) h = elim (Bool-cases (is_same s r)) [
  | inl e ↦ let p : s ≡ r = ground arith in rw (← p) (omega arith)
  | inr e ↦
      let later : 0 < count r rs = omega (arith, rw e at h) in omega (arith, total-ge w r rs later)
]

pub is_same→≡ : (r s : AddressRange) → is_same r s ≡ true → r ≡ s
is_same→≡ r s h = ground arith

module _ {sizes : RbTree size_key} {bases : RbTree base_key} (size_laws : RbTreeLaws sizes)
    (base_laws : RbTreeLaws bases) where
  -- A node that is in the trees leaves them.
  module _ (t : TreeAllocator sizes bases) (r : AddressRange) (inv : IsTree t)
      (there : 0 < has t r) where
    take_out-total :
        (w : AddressRange → ℕ)
        → total w (bases.iter (take_out sizes bases t r).by_base) + w r
          ≡ total w (bases.iter t.by_base)
    unfolding take_out
    take_out-total w = base_laws.remove_total w r t.by_base there

    pub take_out-held : (n : ℕ) → held (take_out sizes bases t r) n + bit (contains r n) ≡ held t n
    take_out-held n = take_out-total (λ s. bit (contains s n))

    pub take_out-has :
        (s : AddressRange) → has (take_out sizes bases t r) s + bit (is_same r s) ≡ has t s
    take_out-has s = take_out-total (λ q. bit (is_same q s))

    pub take_out-IsTree : IsTree (take_out sizes bases t r)
    take_out-IsTree = record {
      same_nodes = λ w. omega (arith, take_out-total w, sizes_total w, inv.same_nodes w);
      apart = λ n. omega (arith, take_out-held n, inv.apart n);
      valid = λ s h. inv.valid s (omega (arith, take_out-has s, h));
    }
      where
        sizes_total :
            (w : AddressRange → ℕ)
            → total w (sizes.iter (take_out sizes bases t r).by_size) + w r
              ≡ total w (sizes.iter t.by_size)
        sizes_total w =
            unfold take_out in
            size_laws.remove_total w r t.by_size
              (omega (arith, there, inv.same_nodes (λ q. bit (is_same q r))))

  -- A range of frames that no node holds enters the trees.
  module _ (t : TreeAllocator sizes bases) (r : AddressRange) where
    insert-total :
        (w : AddressRange → ℕ)
        → total w (bases.iter (insert sizes bases t r).by_base)
          ≡ total w (bases.iter t.by_base) + w r
    unfolding insert
    insert-total w = base_laws.insert_total w r t.by_base

    pub insert-held : (n : ℕ) → held (insert sizes bases t r) n ≡ held t n + bit (contains r n)
    insert-held n = insert-total (λ s. bit (contains s n))

    pub insert-has :
        (s : AddressRange) → has (insert sizes bases t r) s ≡ has t s + bit (is_same r s)
    insert-has s = insert-total (λ q. bit (is_same q s))

    pub insert-IsTree :
        IsTree t
        → (r.start < r.end) × (r.end < frame_limit)
        → ((n : ℕ) → contains r n ≡ true → held t n ≡ 0)
        → IsTree (insert sizes bases t r)
    insert-IsTree inv ok away = record {
      same_nodes = λ w. omega (arith, insert-total w, sizes_total w, inv.same_nodes w);
      apart = λ n. elim (Bool-cases (contains r n)) [
        | inl h ↦ rw (insert-held n, h, away n h) (omega arith)
        | inr h ↦ rw (insert-held n, h) (omega (arith, inv.apart n))
      ];
      valid = λ s h. elim (Bool-cases (is_same r s)) [
        | inl e ↦ rw (← is_same→≡ r s e) ok
        | inr e ↦ inv.valid s (
            let k : 0 < has t s + bit (is_same r s) = rw (← insert-has s) h in
            omega (arith, rw e at k))
      ];
    }
      where
        sizes_total :
            (w : AddressRange → ℕ)
            → total w (sizes.iter (insert sizes bases t r).by_size)
              ≡ total w (sizes.iter t.by_size) + w r
        sizes_total w = unfold insert in size_laws.insert_total w r t.by_size
