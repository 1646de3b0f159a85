-- ===== src/Mem/Allocation.antt =====
-- src/mem/vpa.rs: the allocations of `VirtualAllocator<TreeAllocator>`, which free themselves when dropped.
use wasm_kernel.Base.{
  ℕ, ◌+◌, ◌-◌, ◌^◌, ◌<◌, ◌≡◌, refl, inl, inr, Bool, true, false, Option, none, some, List, [], ◌∷◌,
  arith, ltb, if◌then◌else◌, Bool-cases, Run, done, ◌>>=◌, unwrap, Returns, Run-cases,
}
use wasm_kernel.Mem.Types.{add_size}
use wasm_kernel.Mem.Range.{AddressRange, sized, new, contains}
use wasm_kernel.Mem.RbTree.{RbTree, RbTreeLaws, total, count, cover}
use wasm_kernel.Mem.EarlyVpa.Order.{frame_limit}
use wasm_kernel.Mem.TreeVpa.{size_key, base_key, TreeAllocator, allocate, free}
use wasm_kernel.Mem.TreeVpa.Inv.{IsTree, held}
use wasm_kernel.Mem.TreeVpa.Allocate.{TreeAllocates, allocate-TreeAllocates}
use wasm_kernel.Mem.TreeVpa.Refree.{free-IsTree}

pub record VirtualAllocation : Type 0 where
  pub usable : AddressRange
  pub range : AddressRange
  pub is_dropped : Bool

-- The value around the base of an allocation, in the order of the fields.
unfoldable pub allocated : ℕ → ℕ → ℕ → ℕ → Run VirtualAllocation
allocated size padding alloc_size base = do
  range ← sized base alloc_size
  start ← add_size base padding
  usable ← sized start size
  done (record { usable = usable; range = range; is_dropped = false })

-- `map` over what the handler of the allocator returns, with the handler's state.
abbrev pub wrap {ℓ} : {S : Type ℓ} → ℕ → ℕ → ℕ → Option ℕ × S → Run (Option VirtualAllocation × S)
wrap size padding alloc_size (none, self) = done (none, self)
wrap size padding alloc_size (some base, self) =
    allocated size padding alloc_size base >>= λ a. done (some a, self)

unfoldable pub leak : VirtualAllocation → AddressRange × VirtualAllocation
leak self = (self.usable, record self { is_dropped = true })

module _ (sizes : RbTree size_key) (bases : RbTree base_key) where
  -- `allocate_padded`, in a build that checks the sums of sizes for overflow.
  unfoldable pub allocate_padded :
      ℕ → ℕ → TreeAllocator sizes bases → Run (Option VirtualAllocation × TreeAllocator sizes bases)
  allocate_padded size padding self = do
    front ← add_size padding size
    alloc_size ← add_size front padding
    result ← allocate sizes bases self alloc_size
    wrap size padding alloc_size result

  -- `drop`, with `expect` on the result of `free`.
  unfoldable pub drop_allocation :
      VirtualAllocation
      → TreeAllocator sizes bases
      → Run (VirtualAllocation × TreeAllocator sizes bases)
  drop_allocation self alloc =
      if self.is_dropped
      then done (self, alloc)
      else (free sizes bases alloc self.range >>= λ result.
          unwrap result >>= λ freed. done (record self { is_dropped = true }, freed))

-- A frame that is held lies in a node.
node_of :
    (n : ℕ) (rs : List AddressRange)
    → 0 < cover n rs
    → (r : AddressRange) × (0 < count r rs) × (contains r n ≡ true)
unfolding total
node_of n [] h = absurd (omega (arith, h))
node_of n (r ∷ rs) h = elim (Bool-cases (contains r n)) [
  | inl c ↦ (r, ground arith, c)
  | inr c ↦
      let (s, s_in, s_c) = node_of n rs (let k = rw c at h in omega (arith, k)) in
      (s, omega (arith, s_in), s_c)
]

module _ (sizes : RbTree size_key) (bases : RbTree base_key) (size_laws : RbTreeLaws sizes)
    (base_laws : RbTreeLaws bases) where
  -- What `free` makes of the block that was just allocated.
  block_back :
      (t t' : TreeAllocator sizes bases) (base wanted : ℕ)
      → IsTree t
      → 0 < wanted
      → TreeAllocates t wanted (some base) t'
      → (base + wanted < frame_limit)
        × (t'' : TreeAllocator sizes bases) × (free sizes bases t'
              (record { start = base; end = base + wanted })
            ≡ done (some t''))
        × IsTree t''
        × ((n : ℕ) → held t'' n ≡ held t n)
  block_back t t' base wanted inv some_frames (inv', split, best) =
      let last_held : 0 < held t (base + wanted - 1) =
        let s = split (base + wanted - 1) in ground (arith, s, some_frames) in
      let (r, r_in, r_c) = node_of (base + wanted - 1) (bases.iter t.by_base) last_held in
      let ok = inv.valid r r_in in
      let small : base + wanted < frame_limit =
        unfold contains in ground (arith, r_c, ok, some_frames) in
      let range : AddressRange = record { start = base; end = base + wanted } in
      let away : (n : ℕ) → contains range n ≡ true → held t' n ≡ 0 = λ n c.
        let s = split n in let a = inv.apart n in unfold contains in ground (arith, c, s, a) in
      let (t'', e, inv'', same) =
        free-IsTree sizes bases size_laws base_laws t' inv' range (omega (arith, some_frames)) small
          away in
      (
        small,
        t'',
        e,
        inv'',
        λ n. let a = same n in let s = split n in unfold contains in ground (arith, a, s),
      )

  module _ (t : TreeAllocator sizes bases) (inv : IsTree t) (size padding : ℕ)
      (some_frames : 0 < size) where
    -- An allocation has its usable part between two paddings, and dropping it gives the frames back.
    abbrev pub Allocated : Option VirtualAllocation × TreeAllocator sizes bases → Type 0
    Allocated (none, t') = t' ≡ t
    Allocated (some a, t') =
        (a.usable.start ≡ a.range.start + padding)
        × (a.usable.end ≡ a.usable.start + size)
        × (a.range.end ≡ a.usable.end + padding)
        × IsTree t'
        × ((t'' : TreeAllocator sizes bases) × (drop_allocation sizes bases a t'
              ≡ done (record a { is_dropped = true }, t''))
            × IsTree t''
            × ((n : ℕ) → held t'' n ≡ held t n))

    wrapped :
        (base : Option ℕ) (t' : TreeAllocator sizes bases)
        → TreeAllocates t (padding + size + padding) base t'
        → Returns (wrap size padding (padding + size + padding) (base, t')) Allocated
    unfolding drop_allocation
    wrapped none t' h = h.0
    wrapped (some base) t' h =
        let (small, t'', e, inv'', same) =
          block_back t t' base (padding + size + padding) inv (omega (arith, some_frames)) h in
        let a : VirtualAllocation = record {
          usable = record { start = base + padding; end = base + padding + size };
          range = record { start = base; end = base + (padding + size + padding) };
          is_dropped = false;
        } in
        let made : allocated size padding (padding + size + padding) base ≡ done a =
          unfold allocated sized new add_size in ground (arith, small) in
        rw made (refl, refl, omega arith, h.0, (t'', rw e refl, inv'', same))

    -- From sound trees, allocating some frames with padding on both sides never panics unless the sizes
    -- overflow. With no block found nothing changes; else the usable part lies between the paddings, the
    -- trees stay sound, and dropping the allocation makes exactly the frames free that were so before.
    pub allocate_padded-Allocated :
        padding + size + padding < 2 ^ 64
        → Returns (allocate_padded sizes bases size padding t) Allocated
    unfolding allocate_padded add_size
    allocate_padded-Allocated fits =
        let front : ltb (padding + size) (2 ^ 64) ≡ true = ground (arith, fits) in
        let whole : ltb (padding + size + padding) (2 ^ 64) ≡ true = ground (arith, fits) in
        let h =
          allocate-TreeAllocates sizes bases size_laws base_laws t inv (padding + size + padding) in
        elim (Run-cases (allocate sizes bases t (padding + size + padding))) [
          | inl e ↦ absurd (rw e at h)
          | inr (r, e) ↦ let k = rw e at h in rw (front, whole, e) (wrapped (r.0) (r.1) k)
        ]
