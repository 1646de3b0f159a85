-- ===== src/Mem/ArrayVec.antt =====
-- The crate arrayvec, which src/mem/vpa.rs uses: what the code relies on. A vector is the list of
-- its elements, which the code walks as a slice.
use mathlib.Core.List.{append_assoc}
use wasm_kernel.Base.{
  ◌+◌, arith, length-append, ℕ, ◌≤◌, ◌<◌, ◌≡◌, Option, none, some, List, [], ◌∷◌, ◌++◌, length,
}

pub record ArrayVec (A : Type 0) : Type 0 where
  pub push : List A → A → Option (List A)
  pub remove : List A → ℕ → List A
  pub try_insert : List A → ℕ → A → Option (List A)

-- The documented behaviour at capacity `cap`, where `none` stands for a full vector.
pub record ArrayVecLaws {A : Type 0} (cap : ℕ) (av : ArrayVec A) : Type 0 where
  pub push_room : (xs : List A) (v : A) → length xs < cap → av.push xs v ≡ some (xs ++ v ∷ [])
  pub remove_at : (xs ys : List A) (v : A) → av.remove (xs ++ v ∷ ys) (length xs) ≡ xs ++ ys
  pub try_insert_room :
      (xs ys : List A) (v : A)
      → length (xs ++ ys) < cap
      → av.try_insert (xs ++ ys) (length xs) v ≡ some (xs ++ v ∷ ys)
  pub try_insert_full :
      (xs : List A) (i : ℕ) (v : A) → cap ≤ length xs → av.try_insert xs i v ≡ none

-- An insertion right behind an element.
pub try_insert_after :
    {A : Type 0} {cap : ℕ} {av : ArrayVec A}
    → ArrayVecLaws cap av
    → (xs ys : List A) (u v : A) → length (xs ++ u ∷ ys) < cap
    → av.try_insert (xs ++ u ∷ ys) (length xs + 1) v ≡ some (xs ++ (u ∷ v ∷ ys))
try_insert_after laws xs ys u v room =
    rw (append_assoc xs (u ∷ []) ys, append_assoc xs (u ∷ []) (v ∷ ys), len) at
      (laws.try_insert_room (xs ++ u ∷ []) ys v (rw (append_assoc xs (u ∷ []) ys) room))
  where
    len : length (xs ++ u ∷ []) ≡ length xs + 1
    len = omega (arith, length-append xs (u ∷ []))
