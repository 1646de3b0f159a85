-- ===== src/Debug/Strings/Resolve.antt =====
-- What the kernel reads at the offset of a string that the build tool wrote.
use wasm_kernel.Base.{
  ℕ, zero, suc, ◌+◌, ◌<◌, ◌≡◌, refl, ap, ◌∙◌, ◌≢◌, Bool, true, false, some, List, [], ◌∷◌, ◌++◌,
  arith, leb, ◌==◌, length, get_elem?, drop, All, length-append, done,
}
use wasm_kernel.Symbols.Table.{Str, usize_max, until_nul, slice_from, checked, string_at}
use wasm_kernel.Debug.Strings.{buffer, offsets, str_resolve}

-- No byte of the string is zero.
abbrev pub HasNoNul : Str → Type 0
HasNoNul s = All (λ b. 0 < b) s

until_nul-string : (s : Str) (rest : List ℕ) → HasNoNul s → until_nul (s ++ 0 ∷ rest) ≡ some s
unfolding until_nul
until_nul-string [] rest h = refl
until_nul-string (b ∷ s) rest h = rw (until_nul-string s rest (h.1)) (ground (arith, h.0))

drop_over : {A : Type 0} (xs ys : List A) (n : ℕ) → drop (length xs + n) (xs ++ ys) ≡ drop n ys
drop_over [] ys n = let z : 0 + n ≡ n = omega arith in ap (λ k. drop k ys) z
drop_over (x ∷ xs) ys n =
    let z : suc (length xs) + n ≡ suc (length xs + n) = omega arith in
    ap (λ k. drop k (x ∷ (xs ++ ys))) z ∙ drop_over xs ys n

offset_of :
    (entries : List Str) (base i : ℕ) (s : Str)
    → All HasNoNul entries
    → get_elem? entries i ≡ some s
    → (o : ℕ) × (get_elem? (offsets base entries) i ≡ some (base + o))
      × (o < length (buffer entries))
      × (until_nul (drop o (buffer entries)) ≡ some s)
unfolding offsets buffer
offset_of [] base i s h e = ground (arith, e)
offset_of (ent ∷ rest) base zero s h e =
    let l = length-append ent (0 ∷ buffer rest) in
    let u = until_nul-string ent (buffer rest) (h.0) in
    (0, ground arith, omega (arith, l), ground (arith, u, e))
offset_of (ent ∷ rest) base (suc i) s h e =
    let l = length-append ent (0 ∷ buffer rest) in
    let (o, at, small, reads) = offset_of rest (base + (length ent + 1)) i s (h.1) e in
    let split : length ent + 1 + o ≡ length ent + suc o = omega arith in
    let sum : base + (length ent + 1) + o ≡ base + (length ent + 1 + o) = omega arith in
    (
      length ent + 1 + o,
      at ∙ ap some sum,
      omega (arith, l, small),
      rw (split, drop_over ent (0 ∷ buffer rest) (suc o)) reads,
    )

-- The string with index `i` is resolved, and the kernel reads it back from the offset, where no
-- string of the table has a zero byte and the table is shorter than the address space.
pub str_resolve-string_at :
    (is_utf8 : Str → Bool) (entries : List Str) (i : ℕ) (s : Str)
    → All HasNoNul entries
    → length (buffer entries) < usize_max
    → i ≢ usize_max
    → is_utf8 s ≡ true
    → get_elem? entries i ≡ some s
    → (o : ℕ) × (str_resolve entries i ≡ done o)
      × (o < usize_max)
      × (string_at is_utf8 (buffer entries) (checked o) ≡ done (some s))
unfolding str_resolve checked slice_from
str_resolve-string_at is_utf8 entries i s h small index valid e =
    let (o, at, inside, reads) = offset_of entries 0 i s h e in
    let zero_o : 0 + o ≡ o = omega arith in
    let away : (i == usize_max) ≡ false = ground (arith, index) in
    let away_o : (o == usize_max) ≡ false = ground (arith, small, inside) in
    let fits : leb o (length (buffer entries)) ≡ true = ground (arith, inside) in
    (
      o,
      rw (away, at, zero_o) refl,
      omega (arith, small, inside),
      rw (away_o, fits, reads, valid) refl,
    )
