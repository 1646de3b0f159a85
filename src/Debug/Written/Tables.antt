-- ===== src/Debug/Written/Tables.antt =====
-- The kernel's view of the entries that the build tool writes.
use wasm_kernel.Base.{
  append_nil, append_assoc, ℕ, zero, suc, ◌+◌, ◌^◌, ◌<◌, ◌≡◌, refl, sym, ◌∙◌, inl, inr, Bool, true,
  Option, none, some, List, [], ◌∷◌, ◌++◌, arith, ltb, leb, ◌==◌, if◌then◌else◌, Bool-cases,
  Option-cases, length, get_elem?, drop, All, length-append, done, >>=-eq-done,
}
use wasm_kernel.Symbols.Bytes.{to_le_bytes, read, length-to_le_bytes, read-to_le_bytes, drop_exact}
use wasm_kernel.Symbols.Table.{
  Str, usize_max, checked, slice_from, string_at, read_string, read_location, read_id,
  read_function,
}
use wasm_kernel.Symbols.Table.{LocationEntry as Location, FunctionEntry as Function}
use wasm_kernel.Debug.Strings.{buffer, offsets, str_resolve}
use wasm_kernel.Debug.Strings.Resolve.{HasNoNul, str_resolve-string_at}
use wasm_kernel.Debug.Writer.{
  LocationEntry, FunctionEntry, u32_bytes, write_location, write_function, write_id,
}
use wasm_kernel.Debug.Written.Sections.{read_past}

-- The string with the index, where the largest number stands for none.
abbrev pub text_of : List Str → ℕ → Option Str
text_of entries index = if index == usize_max then none else get_elem? entries index

abbrev pub location_of : List Str → LocationEntry → Location
location_of entries e = record { file = text_of entries e.file; row = e.row; col = e.col }

abbrev pub function_of : List Str → FunctionEntry → Function
function_of entries e = record {
  inline_parent = checked e.inline_parent;
  name = text_of entries e.name;
  location = location_of entries e.location;
}

-- The strings are valid texts without a zero byte, and their bytes fit an address space.
pub record IsTable (is_utf8 : Str → Bool) (entries : List Str) : Type 0 where
  pub no_nul : All HasNoNul entries
  pub valid : (i : ℕ) (s : Str) → get_elem? entries i ≡ some s → is_utf8 s ≡ true
  pub small : length (buffer entries) < usize_max

no_offset :
    (entries : List Str) (base i : ℕ)
    → get_elem? entries i ≡ none
    → get_elem? (offsets base entries) i ≡ none
unfolding offsets
no_offset [] base i h = refl
no_offset (e ∷ rest) base zero h = cc
no_offset (e ∷ rest) base (suc i) h = no_offset rest (base + (length e + 1)) i h

pub u32_read :
    (n : ℕ) (bytes : List ℕ) → u32_bytes n ≡ done bytes → (n < 256 ^ 4) × (to_le_bytes 4 n ≡ bytes)
unfolding u32_bytes
u32_read n bytes h = elim (Bool-cases (ltb n (2 ^ 32))) [
  | inl m ↦ let h' = rw m at h in (ground (arith, m), ground (arith, h'))
  | inr m ↦ let h' = rw m at h in cc
]

module _ (is_utf8 : Str → Bool) (entries : List Str) (table : IsTable is_utf8 entries) where
  resolved :
      (i o : ℕ)
      → str_resolve entries i ≡ done o
      → (o < 256 ^ 8) × (string_at is_utf8 (buffer entries) (checked o) ≡ done (text_of entries i))
  unfolding checked str_resolve
  resolved i o h = elim (Bool-cases (i == usize_max)) [
    | inl m ↦
        let h' = rw m at h in
        let o_e : usize_max ≡ o = ground (arith, h') in rw (← o_e, m) (omega arith, refl)
    | inr m ↦ elim (Option-cases (get_elem? entries i)) [
      | inl g ↦ let h' = rw (m, no_offset entries 0 i g) at h in cc
      | inr (s, g) ↦
          let (r, r_e, r_small, r_reads) =
            str_resolve-string_at is_utf8 entries i s table.no_nul table.small (ground (arith, m))
              (table.valid i s g) g in
          let o_e : r ≡ o = ground (arith, r_e, h) in
          rw (← o_e, m, g) (omega (arith, r_small), r_reads)
    ]
  ]

  pub location_read :
      (e : LocationEntry) (bytes : List ℕ)
      → write_location (str_resolve entries) e ≡ done bytes
      → (length bytes ≡ 16)
        × (read_location is_utf8 bytes (buffer entries) ≡ done (some (location_of entries e)))
  unfolding write_location read_location read_string
  location_read e bytes h =
      let (f, f_e, h1) = >>=-eq-done (str_resolve entries e.file) _ h in
      let (row, row_e, h2) = >>=-eq-done (u32_bytes e.row) _ h1 in
      let (col, col_e, h3) = >>=-eq-done (u32_bytes e.col) _ h2 in
      let (f_small, f_reads) = resolved e.file f f_e in
      let (row_small, row_b) = u32_read e.row row row_e in
      let (col_small, col_b) = u32_read e.col col col_e in
      let whole : to_le_bytes 8 f ++ (to_le_bytes 4 e.row ++ to_le_bytes 4 e.col) ≡ bytes =
        rw (row_b, col_b) (ground (arith, h3)) in
      let whole' : bytes ≡ to_le_bytes 8 f ++ to_le_bytes 4 e.row ++ (to_le_bytes 4 e.col ++ []) =
        rw (append_nil (to_le_bytes 4 e.col)) (
          sym whole
          ∙ sym (append_assoc (to_le_bytes 8 f) (to_le_bytes 4 e.row) (to_le_bytes 4 e.col))) in
      let l1 : length (to_le_bytes 8 f) ≡ 8 = length-to_le_bytes 8 f in
      let l2 : length (to_le_bytes 8 f ++ to_le_bytes 4 e.row) ≡ 12 =
        rw (length-append (to_le_bytes 8 f) (to_le_bytes 4 e.row), l1, length-to_le_bytes 4 e.row)
          refl in
      let l3 : length bytes ≡ 16 =
        rw
          (
            whole',
            length-append (to_le_bytes 8 f ++ to_le_bytes 4 e.row) (to_le_bytes 4 e.col ++ []),
            l2,
            append_nil (to_le_bytes 4 e.col),
            length-to_le_bytes 4 e.col,
          )
          refl in
      let r0 : read 8 bytes 0 ≡ some f = rw (← whole) (read-to_le_bytes 8 f _ f_small) in
      let r1 : read 4 bytes 8 ≡ some e.row =
        rw (← whole) (read_past 4 8 e.row (to_le_bytes 8 f) _ l1 row_small) in
      let r2 : read 4 bytes 12 ≡ some e.col = rw whole' (read_past 4 12 e.col _ [] l2 col_small) in
      (l3, rw (r0, f_reads, r1, r2) refl)

  pub id_read :
      (id : ℕ) (bytes : List ℕ)
      → write_id id ≡ done bytes
      → (length bytes ≡ 8)
        × (id < 2 ^ 64 → read_id is_utf8 bytes (buffer entries) ≡ done (some (checked id)))
  unfolding write_id read_id
  id_read id bytes h =
      let b : to_le_bytes 8 id ≡ bytes = ground (arith, h) in
      let b' : bytes ≡ to_le_bytes 8 id ++ [] = sym b ∙ sym (append_nil (to_le_bytes 8 id)) in
      let r0 : id < 2 ^ 64 → read 8 bytes 0 ≡ some id =
        λ small. rw b' (read-to_le_bytes 8 id [] small) in
      (rw (← b) (length-to_le_bytes 8 id), λ small. rw (r0 small) refl)

  pub function_read :
      (e : FunctionEntry) (bytes : List ℕ)
      → write_function (str_resolve entries) e ≡ done bytes
      → (length bytes ≡ 32)
        × (e.inline_parent < 2 ^ 64
            → read_function is_utf8 bytes (buffer entries) ≡ done (some (function_of entries e)))
  unfolding write_function read_function read_string slice_from
  function_read e bytes h =
      let (n, n_e, h1) = >>=-eq-done (str_resolve entries e.name) _ h in
      let (loc, loc_e, h2) = >>=-eq-done (write_location (str_resolve entries) e.location) _ h1 in
      let (n_small, n_reads) = resolved e.name n n_e in
      let (loc_size, loc_reads) = location_read e.location loc loc_e in
      let whole : to_le_bytes 8 e.inline_parent ++ (to_le_bytes 8 n ++ loc) ≡ bytes =
        ground (arith, h2) in
      let whole' : to_le_bytes 8 e.inline_parent ++ to_le_bytes 8 n ++ loc ≡ bytes =
        append_assoc (to_le_bytes 8 e.inline_parent) (to_le_bytes 8 n) loc ∙ whole in
      let l1 : length (to_le_bytes 8 e.inline_parent) ≡ 8 = length-to_le_bytes 8 e.inline_parent in
      let l2 : length (to_le_bytes 8 e.inline_parent ++ to_le_bytes 8 n) ≡ 16 =
        rw
          (
            length-append (to_le_bytes 8 e.inline_parent) (to_le_bytes 8 n),
            l1,
            length-to_le_bytes 8 n,
          )
          refl in
      let l3 : length bytes ≡ 32 =
        rw
          (
            ← whole',
            length-append (to_le_bytes 8 e.inline_parent ++ to_le_bytes 8 n) loc,
            l2,
            loc_size,
          )
          refl in
      let r0 : e.inline_parent < 2 ^ 64 → read 8 bytes 0 ≡ some e.inline_parent =
        λ small. rw (← whole) (read-to_le_bytes 8 e.inline_parent _ small) in
      let r1 : read 8 bytes 8 ≡ some n =
        rw (← whole) (read_past 8 8 n (to_le_bytes 8 e.inline_parent) _ l1 n_small) in
      let d : drop 16 bytes ≡ loc =
        drop_exact 16 (to_le_bytes 8 e.inline_parent ++ to_le_bytes 8 n) loc bytes whole' l2 in
      let fits : leb 16 (length bytes) ≡ true = rw l3 refl in
      (l3, λ small. rw (r0 small, r1, n_reads, fits, d, loc_reads) refl)
