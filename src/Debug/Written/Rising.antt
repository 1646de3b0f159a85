-- ===== src/Debug/Written/Rising.antt =====
-- Lists of pairs whose addresses rise: the pair with an index, and the value at an address.
use wasm_kernel.Base.{
  ℕ, zero, suc, ◌≤◌, ◌<◌, ◌≡◌, refl, true, false, Option, some, List, [], ◌∷◌, arith, leb, length,
  get_elem?,
}
use wasm_kernel.Debug.Ranges.{value_at, Rises}

-- The pair with the index, and a given pair past the end.
abbrev pub nth : {A : Type 0} → A → List A → ℕ → A
nth d [] i = d
nth d (x ∷ xs) zero = x
nth d (x ∷ xs) (suc i) = nth d xs i

pub get_elem?-nth :
    {A : Type 0} (d : A) (xs : List A) (i : ℕ) → i < length xs → get_elem? xs i ≡ some (nth d xs i)
get_elem?-nth d [] i h = absurd (omega (arith, h))
get_elem?-nth d (x ∷ xs) zero h = refl
get_elem?-nth d (x ∷ xs) (suc i) h = get_elem?-nth d xs i (omega (arith, h))

module _ {T : Type 0} (d : ℕ × T) where
  pub Rises-over :
      (xs : List (ℕ × T)) (base i : ℕ) → Rises base xs → i < length xs → base < (nth d xs i).0
  Rises-over [] base i h l = absurd (omega (arith, l))
  Rises-over (x ∷ xs) base zero h l = h.0
  Rises-over (x ∷ xs) base (suc i) h l =
      let r = Rises-over xs (x.0) i (h.1) (omega (arith, l)) in omega (arith, r, h.0)

  pub Rises-ordered :
      (xs : List (ℕ × T)) (base i j : ℕ)
      → Rises base xs
      → i ≤ j
      → j < length xs
      → (nth d xs i).0 ≤ (nth d xs j).0
  Rises-ordered [] base i j h o l = absurd (omega (arith, l))
  Rises-ordered (x ∷ xs) base zero zero h o l = omega arith
  Rises-ordered (x ∷ xs) base zero (suc j) h o l =
      let r = Rises-over xs (x.0) j (h.1) (omega (arith, l)) in omega (arith, r)
  Rises-ordered (x ∷ xs) base (suc i) zero h o l = absurd (omega (arith, o))
  Rises-ordered (x ∷ xs) base (suc i) (suc j) h o l =
      Rises-ordered xs (x.0) i j (h.1) (omega (arith, o)) (omega (arith, l))

  pub value_at-none :
      (xs : List (ℕ × T)) (target : ℕ) (seen : Option T)
      → ((i : ℕ) → i < length xs → target < (nth d xs i).0)
      → value_at target seen xs ≡ seen
  unfolding value_at
  value_at-none [] target seen h = refl
  value_at-none (x ∷ xs) target seen h =
      let first = h 0 (omega arith) in
      let no : leb (x.0) target ≡ false = ground (arith, first) in
      rw no (value_at-none xs target seen (λ i l. h (suc i) (omega (arith, l))))

  pub value_at-last :
      (xs : List (ℕ × T)) (target i : ℕ) (seen : Option T)
      → i < length xs
      → (nth d xs i).0 ≤ target
      → ((j : ℕ) → i < j → j < length xs → target < (nth d xs j).0)
      → value_at target seen xs ≡ some ((nth d xs i).1)
  unfolding value_at
  value_at-last [] target i seen l a h = absurd (omega (arith, l))
  value_at-last (x ∷ xs) target zero seen l a h =
      let yes : leb (x.0) target ≡ true = ground (arith, a) in
      rw yes
        (value_at-none xs target (some (x.1)) (λ j p. h (suc j) (omega arith) (omega (arith, p))))
  value_at-last (x ∷ xs) target (suc i) seen l a h =
      value_at-last xs target i _ (omega (arith, l)) a
        (λ j p q. h (suc j) (omega (arith, p)) (omega (arith, q)))
