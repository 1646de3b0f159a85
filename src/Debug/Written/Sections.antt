-- ===== src/Debug/Written/Sections.antt =====
-- The sections of a symbol file, each behind its length, are what the kernel reads.
use wasm_kernel.Base.{
  append_nil, append_assoc, ℕ, ◌+◌, ◌/◌, ◌^◌, ◌<◌, ◌≡◌, refl, sym, ap, ◌∙◌, true, some, List, [],
  ◌++◌, arith, ◌==◌, length, length-append, done,
}
use wasm_kernel.Symbols.Bytes.{
  to_le_bytes, slice, read, length-to_le_bytes, read-skip, slice-here, read-to_le_bytes,
}
use wasm_kernel.Symbols.Table.{part, parse}

-- A section as it is written.
abbrev pub section : List ℕ → List ℕ
section bytes = to_le_bytes 8 (length bytes) ++ bytes

abbrev pub file : List ℕ → List ℕ → List ℕ → List ℕ → List ℕ
file strings functions locations ids =
    to_le_bytes 8 0
    ++ (section strings ++ (section functions ++ (section locations ++ section ids)))

-- A number behind a prefix is read where the prefix ends.
pub read_past :
    (size k n : ℕ) (pre post : List ℕ)
    → length pre ≡ k
    → n < 256 ^ size
    → read size (pre ++ (to_le_bytes size n ++ post)) k ≡ some n
read_past size k n pre post l h =
    let at : k ≡ length pre + 0 = omega (arith, l) in
    rw (at, read-skip size pre (to_le_bytes size n ++ post) 0) (read-to_le_bytes size n post h)

part_past :
    (k : ℕ) (pre bytes post : List ℕ)
    → length pre ≡ k
    → length bytes < 256 ^ 8
    → part (pre ++ (section bytes ++ post)) k ≡ done (some (bytes, k + 8 + length bytes))
unfolding part
part_past k pre bytes post l h =
    let split : section bytes ++ post ≡ to_le_bytes 8 (length bytes) ++ (bytes ++ post) =
      append_assoc (to_le_bytes 8 (length bytes)) bytes post in
    let whole : pre ++ (to_le_bytes 8 (length bytes) ++ (bytes ++ post))
        ≡ pre ++ to_le_bytes 8 (length bytes) ++ (bytes ++ post) =
      sym (append_assoc pre (to_le_bytes 8 (length bytes)) (bytes ++ post)) in
    let at : k + 8 ≡ length (pre ++ to_le_bytes 8 (length bytes)) =
      rw (length-append pre (to_le_bytes 8 (length bytes)), length-to_le_bytes 8 (length bytes))
        (omega (arith, l)) in
    let sliced : slice (pre ++ (to_le_bytes 8 (length bytes) ++ (bytes ++ post))) (k + 8)
          (length bytes)
        ≡ done bytes =
      rw (whole, at) (slice-here (pre ++ to_le_bytes 8 (length bytes)) bytes post) in
    rw (split, read_past 8 k (length bytes) pre (bytes ++ post) l h, sliced) refl

length-section : (bytes : List ℕ) → length (section bytes) ≡ 8 + length bytes
length-section bytes =
    rw (length-append (to_le_bytes 8 (length bytes)) bytes, length-to_le_bytes 8 (length bytes))
      refl

part_of :
    (whole : List ℕ) (k : ℕ) (pre bytes post : List ℕ)
    → whole ≡ pre ++ (section bytes ++ post)
    → length pre ≡ k
    → length bytes < 256 ^ 8
    → part whole k ≡ done (some (bytes, k + 8 + length bytes))
part_of whole k pre bytes post e l h = rw e (part_past k pre bytes post l h)

-- The length of a prefix that one more section makes longer.
longer :
    (k : ℕ) (pre bytes : List ℕ)
    → length pre ≡ k
    → length (pre ++ section bytes) ≡ k + 8 + length bytes
longer k pre bytes l =
    let a = length-append pre (section bytes) in
    let b = length-section bytes in omega (arith, a, b, l)

-- The kernel reads the four tables back.
pub parse-file :
    (strings functions locations ids : List ℕ)
    → length (file strings functions locations ids) < 2 ^ 64
    → parse (file strings functions locations ids)
      ≡ done (
          some (record {
            strings = strings;
            functions = functions;
            location_search = locations;
            function_search = ids;
            functions_count = length functions / 32;
            location_search_count = length locations / 20;
            function_search_count = length ids / 12;
          }))
unfolding parse
parse-file s f l i small =
    let zeros = to_le_bytes 8 0 in
    let whole = file s f l i in
    let l0 : length zeros ≡ 8 = length-to_le_bytes 8 0 in
    let e2 : whole ≡ zeros ++ section s ++ (section f ++ (section l ++ section i)) =
      sym (append_assoc zeros (section s) (section f ++ (section l ++ section i))) in
    let e3 : whole ≡ zeros ++ section s ++ section f ++ (section l ++ section i) =
      e2 ∙ sym (append_assoc (zeros ++ section s) (section f) (section l ++ section i)) in
    let e4 : whole ≡ zeros ++ section s ++ section f ++ section l ++ section i =
      e3 ∙ sym (append_assoc (zeros ++ section s ++ section f) (section l) (section i)) in
    let e5 : whole ≡ zeros ++ section s ++ section f ++ section l ++ (section i ++ []) =
      e4
      ∙ ap (λ x. zeros ++ section s ++ section f ++ section l ++ x)
          (sym (append_nil (section i))) in
    let l1 = longer 8 zeros s l0 in
    let l2 = longer _ (zeros ++ section s) f l1 in
    let l3 = longer _ (zeros ++ section s ++ section f) l l2 in
    let l4 : length whole ≡ _ =
      ap length e4 ∙ longer _ (zeros ++ section s ++ section f ++ section l) i l3 in
    let r0 : read 8 whole 0 ≡ some 0 = read-to_le_bytes 8 0 _ (omega arith) in
    let p1 = part_of whole 8 zeros s _ refl l0 (omega (arith, l4, small)) in
    let p2 = part_of whole _ (zeros ++ section s) f _ e2 l1 (omega (arith, l4, small)) in
    let p3 =
      part_of whole _ (zeros ++ section s ++ section f) l _ e3 l2 (omega (arith, l4, small)) in
    let p4 =
      part_of whole _ (zeros ++ section s ++ section f ++ section l) i [] e5 l3
        (omega (arith, l4, small)) in
    let same : (8 + 8 + length s + 8 + length f + 8 + length l + 8 + length i == length whole)
        ≡ true =
      rw l4 (ground arith) in
    rw (r0, p1, p2, p3, p4, same) refl
