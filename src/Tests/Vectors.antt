-- ===== src/Tests/Vectors.antt =====
-- A vector of the crate arrayvec, as lists with a capacity.
use wasm_kernel.Base.{
  ℕ, zero, suc, ◌≡◌, refl, ap, false, none, some, List, [], ◌∷◌, ◌++◌, arith, ltb, if◌then◌else◌,
  lt→ltb, length,
}
use wasm_kernel.Mem.ArrayVec.{ArrayVec, ArrayVecLaws}

module _ {A : Type 0} where
  abbrev remove_at : List A → ℕ → List A
  remove_at [] i = []
  remove_at (x ∷ xs) zero = xs
  remove_at (x ∷ xs) (suc i) = x ∷ remove_at xs i

  abbrev insert_at : List A → ℕ → A → List A
  insert_at xs zero v = v ∷ xs
  insert_at [] (suc i) v = v ∷ []
  insert_at (x ∷ xs) (suc i) v = x ∷ insert_at xs i v

  abbrev pub vector : ℕ → ArrayVec A
  vector cap = record {
    push = λ xs v. if ltb (length xs) cap then some (xs ++ v ∷ []) else none;
    remove = remove_at;
    try_insert = λ xs i v. if ltb (length xs) cap then some (insert_at xs i v) else none;
  }

  remove-here : (xs ys : List A) (v : A) → remove_at (xs ++ v ∷ ys) (length xs) ≡ xs ++ ys
  remove-here [] ys v = refl
  remove-here (x ∷ xs) ys v = ap (λ l. x ∷ l) (remove-here xs ys v)

  insert-here : (xs ys : List A) (v : A) → insert_at (xs ++ ys) (length xs) v ≡ xs ++ v ∷ ys
  insert-here [] [] v = refl
  insert-here [] (y ∷ ys) v = refl
  insert-here (x ∷ xs) ys v = ap (λ l. x ∷ l) (insert-here xs ys v)

  pub vector-laws : (cap : ℕ) → ArrayVecLaws cap (vector cap)
  vector-laws cap = record {
    push_room = λ xs v h. rw (lt→ltb (length xs) cap h) refl;
    remove_at = remove-here;
    try_insert_room =
        λ xs ys v h. rw (lt→ltb (length (xs ++ ys)) cap h) (ap some (insert-here xs ys v));
    try_insert_full =
        λ xs i v h. let full : ltb (length xs) cap ≡ false = ground (arith, h) in rw full refl;
  }
