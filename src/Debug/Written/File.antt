-- ===== src/Debug/Written/File.antt =====
-- The whole symbol file: what the kernel finds for an address is what the build tool had for it.
use wasm_kernel.Base.{
  ℕ, zero, suc, ◌+◌, ◌*◌, ◌/◌, ◌^◌, ◌<◌, ◌≡◌, sym, ap, ◌∙◌, Bool, true, Option, none, some, List,
  [], ◌∷◌, arith, ltb, length, get_elem?, All, done, ◌>>=◌, assert, >>=-eq-done,
}
use wasm_kernel.Symbols.Bytes.{slice}
use wasm_kernel.Symbols.Search.{binary_search_table}
use wasm_kernel.Symbols.Table.{
  Str, usize_max, kernel_base, checked, SymbolModule, parse, read_location, read_id, read_function,
  do_read, get_function, get_location_search, get_function_search,
}
use wasm_kernel.Debug.Strings.{buffer, str_resolve, write_strings}
use wasm_kernel.Debug.Ranges.{value_at}
use wasm_kernel.Debug.Writer.{
  LocationEntry, null_location, same_location, same_id, FunctionEntry, DebugModuleFileWriter,
  write_location, write_function, write_id, write_entries, write_all, write_ranges, location_ranges,
  function_ranges, write,
}
use wasm_kernel.Debug.Written.Sections.{section, file, parse-file}
use wasm_kernel.Debug.Written.Entries.{Placed, write_entries-Placed}
use wasm_kernel.Debug.Written.Tables.{
  IsTable, location_of, function_of, location_read, id_read, function_read,
}
use wasm_kernel.Debug.Written.Search.{map_option, write_ranges-search}

-- Ids and the indices of parents are 64 bits wide.
abbrev pub IsWide : DebugModuleFileWriter → Type 0
IsWide self =
    All (λ f. f.inline_parent < 2 ^ 64) self.functions
    × All (λ p. p.1 < 2 ^ 64) (function_ranges self.function_search)

-- The value that the writer has for the address.
abbrev pub id_at : DebugModuleFileWriter → ℕ → Option ℕ
id_at self addr = value_at addr none (function_ranges self.function_search)

abbrev pub location_at : DebugModuleFileWriter → ℕ → Option LocationEntry
location_at self addr = value_at addr none (location_ranges self.location_search)

same_location→eq : (x y : LocationEntry) → same_location x y ≡ true → x ≡ y
same_location→eq x y h =
    let f : x.file ≡ y.file = ground (arith, h) in
    let r : x.row ≡ y.row = ground (arith, h) in
    let c : x.col ≡ y.col = ground (arith, h) in λ i. record { file = f i; row = r i; col = c i }

All-get :
    {A : Type 0} (P : A → Type 0) (xs : List A) (i : ℕ) (x : A)
    → All P xs
    → get_elem? xs i ≡ some x
    → P x
All-get P [] i x h g = ground (arith, g)
All-get P (y ∷ xs) zero x h g = let e : y ≡ x = ground (arith, g) in rw (← e) (h.0)
All-get P (y ∷ xs) (suc i) x h g = All-get P xs i x (h.1) g

in_bounds : {A : Type 0} (xs : List A) (i : ℕ) (x : A) → get_elem? xs i ≡ some x → i < length xs
in_bounds [] i x g = ground (arith, g)
in_bounds (y ∷ xs) zero x g = omega arith
in_bounds (y ∷ xs) (suc i) x g = let r = in_bounds xs i x g in omega (arith, r)

module _ (is_utf8 : Str → Bool) (self : DebugModuleFileWriter)
    (table : IsTable is_utf8 self.strings.entries) (wide : IsWide self) where
  abbrev pub Found : SymbolModule → Type 0
  Found m =
      ((i : ℕ) (f : FunctionEntry)
        → get_elem? self.functions i ≡ some f
        → get_function is_utf8 m i ≡ done (some (function_of self.strings.entries f)))
      × ((target : ℕ)
          → binary_search_table (get_function_search is_utf8 m) target m.function_search_count
            ≡ done (map_option checked (id_at self (kernel_base + target))))
      × ((target : ℕ)
          → binary_search_table (get_location_search is_utf8 m) target m.location_search_count
            ≡ done (
                map_option (location_of self.strings.entries)
                  (location_at self (kernel_base + target))))

  -- The module that is read from the four tables.
  found :
      (bytes f_buf l_buf i_buf : List ℕ) (l_n i_n : ℕ)
      → file (buffer self.strings.entries) f_buf l_buf i_buf ≡ bytes
      → length bytes < 2 ^ 64
      → Placed (write_function (str_resolve self.strings.entries)) 32 self.functions f_buf
      → length l_buf ≡ l_n * (16 + 4)
      → length i_buf ≡ i_n * (8 + 4)
      → ((target : ℕ)
          → binary_search_table
              (λ i. do_read is_utf8 8 (read_id is_utf8) i i_n i_buf (buffer self.strings.entries))
              target
              i_n
            ≡ done (map_option checked (id_at self (kernel_base + target))))
      → ((target : ℕ)
          → binary_search_table
              (λ i.
                do_read is_utf8 16
                  (read_location is_utf8)
                  i
                  l_n
                  l_buf
                  (buffer self.strings.entries))
              target
              l_n
            ≡ done (
                map_option
                  (location_of self.strings.entries)
                  (location_at self (kernel_base + target))))
      → (m : SymbolModule) × (parse bytes ≡ done (some m)) × Found m
  unfolding get_function get_location_search get_function_search
  found bytes f_buf l_buf i_buf l_n i_n whole small placed l_size i_size i_search l_search =
      let l_count : length l_buf / 20 ≡ l_n = omega (arith, l_size) in
      let i_count : length i_buf / 12 ≡ i_n = omega (arith, i_size) in
      (
        _,
        ap parse (sym whole)
            ∙ parse-file (buffer self.strings.entries) f_buf l_buf i_buf (rw whole small),
        (
          functions,
          λ target. rw (← i_count) at (i_search target),
          λ target. rw (← l_count) at (l_search target),
        ),
      )
    where
      functions :
          (i : ℕ) (f : FunctionEntry)
          → get_elem? self.functions i ≡ some f
          → (assert (ltb i (length f_buf / 32)) >>= λ u. slice f_buf (i * 32) 32 >>= λ bytes.
              read_function is_utf8 bytes (buffer self.strings.entries))
            ≡ done (some (function_of self.strings.entries f))
      functions i f g =
          let (bytes, w, s) = placed.1 i f g in
          let inside : i < length self.functions = in_bounds self.functions i f g in
          let fits : ltb i (length f_buf / 32) ≡ true =
            let size = placed.0 in ground (arith, size, inside) in
          rw (fits, s)
            ((function_read is_utf8 self.strings.entries table f bytes w).1
              (All-get (λ f. f.inline_parent < 2 ^ 64) self.functions i f (wide.0) g))

  -- Where the strings of the table are UTF-8 without zero bytes and ids fit 64 bits, a file that the
  -- build tool writes is parsed by the kernel. Each function is read back under its
  -- index, with its strings, and the two searches give for each address the last function id and the
  -- last location that were written at or before it.
  pub parse-write :
      (bytes : List ℕ)
      → write self ≡ done bytes
      → length bytes < 2 ^ 64
      → (m : SymbolModule) × (parse bytes ≡ done (some m)) × Found m
  unfolding write write_all write_strings
  parse-write bytes h small =
      let entries = self.strings.entries in
      let (functions, f_e, h1) =
        >>=-eq-done (write_all (write_function (str_resolve entries)) self.functions) _ h in
      let (locations, l_e, h2) =
        >>=-eq-done
          (write_ranges (write_location (str_resolve entries)) same_location null_location
            (location_ranges self.location_search))
          _ h1 in
      let (ids, i_e, h3) =
        >>=-eq-done (write_ranges write_id same_id usize_max (function_ranges self.function_search))
          _ h2 in
      let (f_buf, fb_e, f_out) =
        >>=-eq-done (write_entries (write_function (str_resolve entries)) self.functions) _ f_e in
      let (l_buf, l_n, l_out, l_size, l_search) =
        write_ranges-search is_utf8 (write_location (str_resolve entries)) 16
          (λ e b w. (location_read is_utf8 entries table e b w).0) (read_location is_utf8)
          (buffer entries) (location_of entries) (λ e. Unit {0})
          (λ e b u w. (location_read is_utf8 entries table e b w).1) same_location null_location
          same_location→eq (location_ranges self.location_search) locations l_e (all_units _) in
      let (i_buf, i_n, i_out, i_size, i_search) =
        write_ranges-search is_utf8 write_id 8 (λ e b w. (id_read is_utf8 entries table e b w).0)
          (read_id is_utf8) (buffer entries) checked (λ e. e < 2 ^ 64)
          (λ e b u w. (id_read is_utf8 entries table e b w).1 u) same_id usize_max
          (λ x y q. ground (arith, q)) (function_ranges self.function_search) ids i_e (wide.1) in
      let (f_size, f_place) =
        write_entries-Placed (write_function (str_resolve entries)) 32
          (λ e b w. (function_read is_utf8 entries table e b w).0) self.functions f_buf fb_e in
      let f_out' : section f_buf ≡ functions = ground (arith, f_out) in
      let whole : file (buffer entries) f_buf l_buf i_buf ≡ bytes =
        rw (f_out', l_out, i_out) (ground (arith, h3)) in
      found bytes f_buf l_buf i_buf l_n i_n whole small (f_size, f_place) l_size i_size i_search
        l_search
    where
      all_units : (xs : List (ℕ × LocationEntry)) → All (λ p. Unit {0}) xs
      all_units [] = tt
      all_units (x ∷ xs) = (tt, all_units xs)
