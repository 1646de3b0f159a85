-- ===== src/Symbols/Bytes.antt =====
-- src/modules/symbols.rs: the readers of little-endian numbers, and their inverse in the writer.
use wasm_kernel.Base.{
  ℕ, zero, suc, ◌+◌, ◌*◌, ◌/◌, ◌%◌, ◌^◌, ◌<◌, ◌≡◌, refl, ap, ◌∙◌, true, Option, none, some, List,
  [], ◌∷◌, ◌++◌, arith, leb, if◌then◌else◌, length, take, drop, length-append, take-append,
  drop-append, Run, done, panic,
}
use native.Mathlib.Numerals.{unary_clauses}

-- The sum that `from_le_bytes` gives: the first byte is the lowest.
unfoldable pub from_le_bytes : List ℕ → ℕ
from_le_bytes [] = 0
from_le_bytes (b ∷ bs) = b + 256 * from_le_bytes bs

-- `to_le_bytes` of a number of `count` bytes.
unfoldable pub to_le_bytes : ℕ → ℕ → List ℕ
to_le_bytes zero n = []
to_le_bytes (suc count) n = (n % 256) ∷ to_le_bytes count (n / 256)

-- `&buf[from..from + count]`
unfoldable pub slice : List ℕ → ℕ → ℕ → Run (List ℕ)
slice buf from count =
    if leb (from + count) (length buf) then done (take count (drop from buf)) else panic

-- The reader that `generate_reader!` makes for a type of `size` bytes.
unfoldable pub read : ℕ → List ℕ → ℕ → Option ℕ
read size buf offset =
    if leb (offset + size) (length buf)
    then some (from_le_bytes (take size (drop offset buf)))
    else none

pub length-to_le_bytes : (count n : ℕ) → length (to_le_bytes count n) ≡ count
unfolding to_le_bytes
length-to_le_bytes zero n = refl
length-to_le_bytes (suc count) n = ap suc (length-to_le_bytes count (n / 256))

-- A number that fits is read back from the bytes it is written as.
pub from_le_bytes-to_le_bytes :
    (count n : ℕ) → n < 256 ^ count → from_le_bytes (to_le_bytes count n) ≡ n
unfolding from_le_bytes to_le_bytes
from_le_bytes-to_le_bytes zero n h = omega arith
from_le_bytes-to_le_bytes (suc count) n h =
    let bound : n / 256 < 256 ^ count = let h' = simp unary_clauses at h in omega (arith, h') in
    let rest = from_le_bytes-to_le_bytes count (n / 256) bound in omega arith

drop_past : {A : Type 0} (n : ℕ) (xs ys : List A) → drop (length xs + n) (xs ++ ys) ≡ drop n ys
drop_past n [] ys = let z : 0 + n ≡ n = omega arith in ap (λ k. drop k ys) z
drop_past n (x ∷ xs) ys =
    let z : suc (length xs) + n ≡ suc (length xs + n) = omega arith in
    ap (λ k. drop k (x ∷ (xs ++ ys))) z ∙ drop_past n xs ys

pub drop_exact :
    {A : Type 0} (n : ℕ) (xs ys whole : List A)
    → xs ++ ys ≡ whole
    → length xs ≡ n
    → drop n whole ≡ ys
drop_exact n xs ys whole e h = rw (← e, ← h) (drop-append xs ys)

pub take_exact : {A : Type 0} (n : ℕ) (xs ys : List A) → length xs ≡ n → take n (xs ++ ys) ≡ xs
take_exact n xs ys h = rw (← h) (take-append xs ys)

-- Past a prefix, reading and slicing count from its end.
pub read-skip :
    (size : ℕ) (pre buf : List ℕ) (offset : ℕ)
    → read size (pre ++ buf) (length pre + offset) ≡ read size buf offset
unfolding read
read-skip size pre buf offset =
    rw (drop_past offset pre buf, length-append pre buf)
      (ap (λ b. if b then some (from_le_bytes (take size (drop offset buf))) else none)
        (ground arith))

pub slice-skip :
    (pre buf : List ℕ) (from count : ℕ)
    → slice (pre ++ buf) (length pre + from) count ≡ slice buf from count
unfolding slice
slice-skip pre buf from count =
    rw (drop_past from pre buf, length-append pre buf)
      (ap (λ b. if b then done (take count (drop from buf)) else panic) (ground arith))

pub slice-here :
    (pre mid post : List ℕ) → slice (pre ++ (mid ++ post)) (length pre) (length mid) ≡ done mid
unfolding slice
slice-here pre mid post =
    rw
      (
        drop-append pre (mid ++ post),
        take-append mid post,
        length-append pre (mid ++ post),
        length-append mid post,
      )
      (ground arith)

pub read-to_le_bytes :
    (size n : ℕ) (post : List ℕ)
    → n < 256 ^ size
    → read size (to_le_bytes size n ++ post) 0 ≡ some n
unfolding read
read-to_le_bytes size n post h =
    let fits : leb (0 + size) (length (to_le_bytes size n ++ post)) ≡ true =
      rw (length-append (to_le_bytes size n) post, length-to_le_bytes size n) (ground arith) in
    rw (fits, take_exact size (to_le_bytes size n) post (length-to_le_bytes size n))
      (ap some (from_le_bytes-to_le_bytes size n h))
