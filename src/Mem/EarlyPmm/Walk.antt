-- ===== src/Mem/EarlyPmm/Walk.antt =====
-- src/mem/init.rs: `EarlyPMM` hands out each usable page once, in the order of the map.
use wasm_kernel.Base.{
  ℕ, zero, suc, ◌+◌, ◌-◌, ◌≤◌, ◌<◌, ◌≡◌, refl, ◌⊎◌, inl, inr, Bool, true, false, ◌&&◌, ◌||◌, List,
  [], ◌∷◌, arith, ltb, leb, ◌==◌, lt→ltb, leb→le, Bool-cases, drop, All, Run, done, panic, ◌>>=◌,
}
use native.Mathlib.Nat.{zero-add}
use wasm_kernel.Mem.Types.{add_size, u64_mod}
use wasm_kernel.Mem.Requests.{Entry, IsPaged, entry_of, translate_lem, at, is_usable}
use wasm_kernel.Mem.EarlyPmm.{EarlyPmm, early_loop, early_allocate, is_used}

-- The map has a usable entry at the index, with a page at the offset.
abbrev pub usable_at : List Entry → ℕ → ℕ → Bool
usable_at [] i o = false
usable_at (e ∷ rest) zero o = ltb o (entry_of e).size && is_usable (entry_of e).entry_type
usable_at (e ∷ rest) (suc i) o = usable_at rest i o

-- The number of the page at a position.
abbrev pub frame_at : List Entry → ℕ → ℕ → ℕ
frame_at [] i o = 0
frame_at (e ∷ rest) zero o = (entry_of e).start + o
frame_at (e ∷ rest) (suc i) o = frame_at rest i o

-- What the loop finds, with positions counted from `index`.
abbrev Walks : List Entry → ℕ → ℕ → Run (ℕ × ℕ) → Type 0
Walks rest index offset panic = (j o : ℕ) → usable_at rest j o ≡ true → (j ≡ 0) × (o < offset)
Walks rest index offset (done (i, o)) =
    (k : ℕ) × (i ≡ index + k)
    × (usable_at rest k o ≡ true)
    × ((k ≡ 0) × (o ≡ offset) ⊎ (0 < k) × (o ≡ 0))
    × ((j o' : ℕ) → j < k → usable_at rest j o' ≡ true → (j ≡ 0) × (o' < offset))

-- An entry that is used up, or is not usable, goes by.
skip-Walks :
    (e : Entry) (rest : List Entry) (index offset : ℕ) (r : Run (ℕ × ℕ))
    → (ltb offset (entry_of e).size && is_usable (entry_of e).entry_type) ≡ false
    → Walks rest (index + 1) 0 r
    → Walks (e ∷ rest) index offset r
skip-Walks e rest index offset panic passed w = earlier
  where
    earlier : (j o : ℕ) → usable_at (e ∷ rest) j o ≡ true → (j ≡ 0) × (o < offset)
    earlier zero o h = ground (arith, passed, h)
    earlier (suc j) o h = absurd (omega (arith, (w j o h).1))
skip-Walks e rest index offset (done (i, o)) passed (k, at_k, good, place, least) =
    (suc k, omega (arith, at_k), good, inr (omega arith, o_zero place), earlier)
  where
    o_zero : ((k ≡ 0) × (o ≡ 0) ⊎ (0 < k) × (o ≡ 0)) → o ≡ 0
    o_zero (inl h) = h.1
    o_zero (inr h) = h.1

    earlier : (j o' : ℕ) → j < suc k → usable_at (e ∷ rest) j o' ≡ true → (j ≡ 0) × (o' < offset)
    earlier zero o' lt h = ground (arith, passed, h)
    earlier (suc j) o' lt h = absurd (omega (arith, (least j o' (omega arith) h).1))

early_loop-Walks :
    (rest : List Entry) (index offset : ℕ)
    → All IsPaged rest
    → Walks rest index offset (early_loop rest index offset)
unfolding early_loop
early_loop-Walks [] index offset p = λ j o h. cc
early_loop-Walks (e ∷ rest) index offset p =
    rw (translate_lem e p.0)
      (elim (Bool-cases (ltb offset (entry_of e).size && is_usable (entry_of e).entry_type)) [
        | inl h ↦ rw h (0, omega arith, h, inl (refl, refl), λ j o' lt g. elim lt [ ])
        | inr h ↦
            rw h (skip-Walks e rest index offset _ h (early_loop-Walks rest (index + 1) 0 p.1))
      ])

-- Positions in the part of the map from an index on.
usable_at-drop :
    (n : ℕ) (entries : List Entry) (k o : ℕ)
    → usable_at (drop n entries) k o ≡ usable_at entries (n + k) o
usable_at-drop zero entries k o = rw zero-add refl
usable_at-drop (suc n) [] k o = refl
usable_at-drop (suc n) (e ∷ rest) k o =
    let q : suc n + k ≡ suc (n + k) = omega arith in rw q (usable_at-drop n rest k o)

All-drop : (n : ℕ) (entries : List Entry) → All IsPaged entries → All IsPaged (drop n entries)
All-drop zero entries p = p
All-drop (suc n) [] p = tt
All-drop (suc n) (e ∷ rest) p = All-drop n rest p.1

-- The entry at a usable position, and the page in it.
at_usable :
    {B : Type 0} (entries : List Entry) (i o : ℕ) (f : ℕ → Run B)
    → All IsPaged entries
    → usable_at entries i o ≡ true
    → (at entries i >>= λ entry. (add_size entry.start o >>= f)) ≡ f (frame_at entries i o)
unfolding at add_size
at_usable [] i o f p h = cc
at_usable (e ∷ rest) zero o f p h =
    rw (translate_lem e p.0, lt→ltb ((entry_of e).start + o) u64_mod (ground (arith, p.0, h)))
at_usable (e ∷ rest) (suc i) o f p h = at_usable rest i o f p.1 h

-- What a call makes of the state: the page was usable and not yet used, and is the only one that
-- becomes used; or the memory is used up.
abbrev pub EarlyAllocates : List Entry → EarlyPmm → Run (ℕ × EarlyPmm) → Type 0
EarlyAllocates entries state panic =
    (i o : ℕ) → usable_at entries i o ≡ true → is_used state i o ≡ true
EarlyAllocates entries state (done (frame, state')) =
    (i : ℕ) × (o : ℕ) × (frame ≡ frame_at entries i o)
    × (usable_at entries i o ≡ true)
    × (is_used state i o ≡ false)
    × ((j p : ℕ)
        → usable_at entries j p ≡ true
        → is_used state' j p ≡ (is_used state j p || (j == i && p == o)))

module _ (entries : List Entry) (state : EarlyPmm) (paged : All IsPaged entries) where
  after : ℕ × ℕ → Run (ℕ × EarlyPmm)
  after (i, o) = at entries i >>= λ entry.
      (add_size entry.start o >>= λ pos. done (pos, record state { index = i; offset = o + 1 }))

  -- A usable position at or behind the state's index is one in the rest of the map.
  in_rest :
      (j p : ℕ)
      → state.index ≤ j
      → usable_at entries j p ≡ true
      → usable_at (drop state.index entries) (j - state.index) p ≡ true
  in_rest j p le h =
      let q : state.index + (j - state.index) ≡ j = omega arith in
      rw (usable_at-drop state.index entries (j - state.index) p, q) h

  after-EarlyAllocates :
      (r : Run (ℕ × ℕ))
      → Walks (drop state.index entries) state.index state.offset r
      → EarlyAllocates entries state (r >>= after)
  unfolding after
  after-EarlyAllocates panic w = λ i o h. elim (Bool-cases (leb state.index i)) [
    | inl le ↦
        unfold is_used in ground (arith, w (i - state.index) o (in_rest i o (leb→le _ _ le) h), le)
    | inr gt ↦ unfold is_used in ground (arith, gt)
  ]
  after-EarlyAllocates (done (i, o)) (k, at_k, good, place, least) =
      rw
        (at_usable {B = ℕ × EarlyPmm} entries i o
          (λ pos. done (pos, record state { index = i; offset = o + 1 })) paged good')
        (
          i,
          o,
          refl,
          good',
          unfold is_used in ground (arith, place, at_k),
          λ j p h. elim (Bool-cases (leb state.index j)) [
            | inl le ↦
                unfold is_used in
                ground
                  (arith, least (j - state.index) p, in_rest j p (leb→le _ _ le) h, le, place, at_k)
            | inr gt ↦ unfold is_used in ground (arith, gt, place, at_k)
          ],
        )
    where
      good' : usable_at entries i o ≡ true
      good' = rw (usable_at-drop state.index entries k o, ← at_k) at good

-- On a map of whole pages an allocator that is not frozen hands out a usable page that was not used,
-- after which that page, and no other usable one, is used besides those before; it panics only when
-- all usable pages are used.
pub early_allocate-EarlyAllocates :
    (entries : List Entry) (state : EarlyPmm)
    → All IsPaged entries
    → state.is_frozen ≡ false
    → EarlyAllocates entries state (early_allocate entries state)
unfolding early_allocate after
early_allocate-EarlyAllocates entries state paged thawed = rw thawed (
    after-EarlyAllocates entries (record state { is_frozen = false }) paged _
      (early_loop-Walks (drop state.index entries) state.index state.offset
        (All-drop state.index entries paged)))
