-- ===== src/Symbols/Search.antt =====
-- src/modules/symbols.rs: `binary_search_table`, which finds the last entry at or before an address.
use wasm_kernel.Base.{
  ℕ, zero, suc, ◌+◌, ◌-◌, ◌/◌, ◌≤◌, ◌<◌, ◌≡◌, refl, ◌⊎◌, inl, inr, Bool, true, false, Option, none,
  some, arith, ltb, leb, if◌then◌else◌, Bool-cases, Run, done, panic,
}

-- A read of an entry: it may panic, and it may find nothing.
abbrev pub Read : Type 0 → Type 0
Read T = Run (Option T)

infixl 5 ◌>>?◌
-- The operator `?` of Rust.
abbrev pub ◌>>?◌ : {A B : Type 0} → Read A → (A → Read B) → Read B
panic >>? f = panic
done none >>? f = done none
done (some a) >>? f = f a

-- The step of the loop: the new bounds.
abbrev pub narrow : Bool → ℕ → ℕ → ℕ → ℕ × ℕ
narrow true mid lo hi = (mid + 1, hi)
narrow false mid lo hi = (lo, mid)

module _ {T : Type 0} (get_entry : ℕ → Read (ℕ × T)) (target : ℕ) where
  -- The `while` loop. Its fuel is more than `hi - lo`; out of fuel is a panic.
  unfoldable pub search_loop : ℕ → ℕ × ℕ → Read ℕ
  search_loop zero (lo, hi) = panic
  search_loop (suc fuel) (lo, hi) =
      if ltb lo hi
      then (get_entry (lo + (hi - lo) / 2) >>? λ entry.
          search_loop fuel (narrow (leb entry.0 target) (lo + (hi - lo) / 2) lo hi))
      else done (some lo)

  -- What the code does after the loop.
  unfoldable pub pick : ℕ → Read T
  pick zero = done none
  pick (suc idx) = get_entry idx >>? λ entry. done (some (entry.1))

  unfoldable pub binary_search_table : ℕ → Read T
  binary_search_table count = search_loop (count + 1) (0, count) >>? pick

module _ {T : Type 0} (get_entry : ℕ → Read (ℕ × T)) (key : ℕ → ℕ) (value : ℕ → T)
    (target count : ℕ) (readable : (i : ℕ) → i < count → get_entry i ≡ done (some (key i, value i)))
    (ordered : (i j : ℕ) → i ≤ j → j < count → key i ≤ key j) where
  -- Every entry in front of the place is at or before the target, every other one behind it.
  abbrev Splits : ℕ → Type 0
  Splits lo =
      (lo ≤ count)
      × ((i : ℕ) → i < lo → key i ≤ target)
      × ((i : ℕ) → lo ≤ i → i < count → target < key i)

  loop-Splits :
      (fuel lo hi : ℕ)
      → hi - lo < fuel
      → lo ≤ hi
      → hi ≤ count
      → ((i : ℕ) → i < lo → key i ≤ target)
      → ((i : ℕ) → hi ≤ i → i < count → target < key i)
      → (n : ℕ) × (search_loop get_entry target fuel (lo, hi) ≡ done (some n)) × Splits n
  unfolding search_loop
  loop-Splits zero lo hi f o c below behind = absurd (omega (arith, f))
  loop-Splits (suc fuel) lo hi f o c below behind = elim (Bool-cases (ltb lo hi)) [
    | inr e ↦
        rw e (lo, refl, (omega (arith, o, c), below, λ i p q. behind i (ground (arith, e, p)) q))
    | inl e ↦
        rw (e, readable (lo + (hi - lo) / 2) (ground arith))
          (elim (Bool-cases (leb (key (lo + (hi - lo) / 2)) target)) [
            | inl m ↦ rw m (
                loop-Splits fuel (lo + (hi - lo) / 2 + 1) hi (ground arith) (ground arith) c
                  (λ i q.
                    let w = ordered i (lo + (hi - lo) / 2) (omega (arith, q)) (ground arith) in
                    ground (arith, m, w))
                  behind)
            | inr m ↦ rw m (
                loop-Splits fuel lo (lo + (hi - lo) / 2) (ground arith) (ground arith)
                  (ground arith) below
                  (λ i q r. let w = ordered (lo + (hi - lo) / 2) i q r in ground (arith, m, w)))
          ])
  ]

  -- The table is searched without a panic, and the answer is none where no entry is at or before the
  -- target; otherwise it is the value of the last entry at or before it. The entries below the count
  -- are readable, and their keys do not fall.
  pub binary_search_table-last :
      ((binary_search_table get_entry target count ≡ done none)
        × ((i : ℕ) → i < count → target < key i))
      ⊎ ((i : ℕ) × (binary_search_table get_entry target count ≡ done (some (value i)))
          × (i < count)
          × (key i ≤ target)
          × ((j : ℕ) → i < j → j < count → target < key j))
  unfolding binary_search_table pick
  binary_search_table-last = go (
      loop-Splits (count + 1) 0 count (omega arith) (omega arith) (omega arith)
        (λ i h. absurd (omega (arith, h))) (λ i h k. absurd (omega (arith, h, k))))
    where
      go :
          (n : ℕ) × (search_loop get_entry target (count + 1) (0, count) ≡ done (some n)) × Splits n
          → ((binary_search_table get_entry target count ≡ done none)
              × ((i : ℕ) → i < count → target < key i))
            ⊎ ((i : ℕ) × (binary_search_table get_entry target count ≡ done (some (value i)))
                × (i < count)
                × (key i ≤ target)
                × ((j : ℕ) → i < j → j < count → target < key j))
      go (zero, e, s) = inl (rw e refl, λ i h. s.2 i (omega arith) h)
      go (suc idx, e, s) = inr (
        idx,
        rw (e, readable idx (omega (arith, s.0))) refl,
        omega (arith, s.0),
        s.1 idx (omega arith),
        λ j p q. s.2 j (omega (arith, p)) q,
      )
