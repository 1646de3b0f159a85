-- ===== src/Tests/SymbolFile.antt =====
-- Runs of the symbol file's writer and reader.
use wasm_kernel.Base.{
  ℕ, ◌+◌, ◌*◌, ◌≤◌, ◌<◌, ◌≡◌, refl, ◌⊎◌, Bool, true, Option, none, some, List, [], ◌∷◌, arith,
  get_elem?, Run, done,
}
use wasm_kernel.Symbols.Bytes.{from_le_bytes, to_le_bytes, from_le_bytes-to_le_bytes}
use wasm_kernel.Symbols.Search.{binary_search_table, binary_search_table-last}
use wasm_kernel.Symbols.Table.{Str, usize_max, kernel_base, checked, string_at, SymbolModule, parse}
use wasm_kernel.Debug.Strings.{
  InternStringTable, new_table, lookup, intern, IsInterned, intern-IsInterned, buffer, str_resolve,
}
use wasm_kernel.Debug.Strings.Resolve.{str_resolve-string_at}
use wasm_kernel.Debug.Ranges.{filter_ranges, value_at, Ascends, Rises, filter_ranges-value_at}
use wasm_kernel.Debug.Writer.{
  same_id, FunctionEntry, null_location, Interval, DebugModuleFileWriter, function_ranges,
  location_ranges, write,
}
use wasm_kernel.Debug.Written.Tables.{IsTable}
use wasm_kernel.Debug.Written.File.{IsWide, Found, parse-write}
use wasm_kernel.Cmdline.Lexer.{Span}
use wasm_kernel.Modules.{Module}

from_le_bytes-to_le_bytes_example : from_le_bytes (to_le_bytes 4 70000) ≡ 70000
from_le_bytes-to_le_bytes_example = from_le_bytes-to_le_bytes 4 70000 (omega arith)

abbrev even_entry : ℕ → Run (Option (ℕ × ℕ))
even_entry i = done (some (2 * i, i))

binary_search_table-last_example :
    ((binary_search_table even_entry 5 4 ≡ done none) × ((i : ℕ) → i < 4 → 5 < 2 * i))
    ⊎ ((i : ℕ) × (binary_search_table even_entry 5 4 ≡ done (some i))
        × (i < 4)
        × (2 * i ≤ 5)
        × ((j : ℕ) → i < j → j < 4 → 5 < 2 * j))
binary_search_table-last_example =
    binary_search_table-last even_entry (λ i. 2 * i) (λ i. i) 5 4 (λ i h. refl)
      (λ i j h k. omega (arith, h))

new_table-IsInterned : IsInterned new_table
unfolding lookup
new_table-IsInterned str index = (λ e. cc, λ e. cc)

abbrev name : Str
name = b'm' ∷ b'a' ∷ b'i' ∷ b'n' ∷ []

intern-IsInterned_example :
    IsInterned ((intern name new_table).1)
    × (get_elem? (intern name new_table).1.entries ((intern name new_table).0) ≡ some name)
    × ((i : ℕ) (s : Str)
        → get_elem? new_table.entries i ≡ some s
        → get_elem? (intern name new_table).1.entries i ≡ some s)
intern-IsInterned_example = intern-IsInterned name new_table new_table-IsInterned

abbrev any_text : Str → Bool
any_text s = true

str_resolve-string_at_example :
    (o : ℕ) × (str_resolve (name ∷ []) 0 ≡ done o)
    × (o < usize_max)
    × (string_at any_text (buffer (name ∷ [])) (checked o) ≡ done (some name))
str_resolve-string_at_example =
    str_resolve-string_at any_text (name ∷ []) 0 name
      ((omega arith, (omega arith, (omega arith, (omega arith, tt)))), tt)
      (unfold buffer in omega arith) (λ e. omega (arith, e)) refl refl

same_id→eq : (x y : ℕ) → same_id x y ≡ true → x ≡ y
same_id→eq x y h = ground (arith, h)

abbrev ranges : List (ℕ × ℕ)
ranges = (4, 0) ∷ (8, 0) ∷ (9, usize_max) ∷ []

filter_ranges_run : filter_ranges same_id usize_max ranges ≡ done ((4, 0) ∷ (9, usize_max) ∷ [])
unfolding filter_ranges wasm_kernel.Debug.Ranges.filter_loop wasm_kernel.Debug.Ranges.can_merge
filter_ranges_run = refl

filter_ranges-value_at_example :
    ((target : ℕ)
      → value_at target none ((4, 0) ∷ (9, usize_max) ∷ []) ≡ value_at target none ranges)
    × (Ascends 1 ranges → Rises 0 ((4, 0) ∷ (9, usize_max) ∷ []))
filter_ranges-value_at_example =
    filter_ranges-value_at same_id usize_max same_id→eq ranges ((4, 0) ∷ (9, usize_max) ∷ [])
      filter_ranges_run

-- One function, at the sixteen bytes from the start of the kernel.
abbrev main_function : FunctionEntry
main_function = record { inline_parent = usize_max; name = 0; location = null_location }

abbrev writer : DebugModuleFileWriter
writer = record {
  strings = (intern name new_table).1;
  functions = main_function ∷ [];
  location_search = [];
  function_search = record { start = kernel_base; end = kernel_base + 16; value = 0 } ∷ [];
}

writer-IsTable : IsTable any_text writer.strings.entries
unfolding intern lookup
writer-IsTable = record {
  no_nul = ((omega arith, (omega arith, (omega arith, (omega arith, tt)))), tt);
  valid = λ i s g. refl;
  small = unfold buffer in omega arith;
}

writer-IsWide : IsWide writer
writer-IsWide = unfold function_ranges in ((omega arith, tt), (omega arith, (omega arith, tt)))

abbrev file : List ℕ
file =
    0 ∷ 0 ∷ 0 ∷ 0 ∷ 0 ∷ 0 ∷ 0 ∷ 0 ∷ 5 ∷ 0 ∷ 0 ∷ 0 ∷ 0 ∷ 0 ∷ 0 ∷ 0 ∷ b'm' ∷ b'a' ∷ b'i' ∷ b'n' ∷ 0
    ∷ 32 ∷ 0 ∷ 0 ∷ 0 ∷ 0 ∷ 0 ∷ 0 ∷ 0 ∷ 255 ∷ 255 ∷ 255 ∷ 255 ∷ 255 ∷ 255 ∷ 255 ∷ 255 ∷ 0 ∷ 0 ∷ 0 ∷ 0
    ∷ 0 ∷ 0 ∷ 0 ∷ 0 ∷ 255 ∷ 255 ∷ 255 ∷ 255 ∷ 255 ∷ 255 ∷ 255 ∷ 255 ∷ 0 ∷ 0 ∷ 0 ∷ 0 ∷ 0 ∷ 0 ∷ 0 ∷ 0
    ∷ 0 ∷ 0 ∷ 0 ∷ 0 ∷ 0 ∷ 0 ∷ 0 ∷ 0 ∷ 24 ∷ 0 ∷ 0 ∷ 0 ∷ 0 ∷ 0 ∷ 0 ∷ 0 ∷ 0 ∷ 0 ∷ 0 ∷ 0 ∷ 0 ∷ 0 ∷ 0 ∷ 0
    ∷ 0 ∷ 0 ∷ 0 ∷ 0 ∷ 16 ∷ 0 ∷ 0 ∷ 0 ∷ 255 ∷ 255 ∷ 255 ∷ 255 ∷ 255 ∷ 255 ∷ 255 ∷ 255 ∷ []

write_run : write writer ≡ done file
unfolding write wasm_kernel.Debug.Writer.write_all wasm_kernel.Debug.Writer.write_entries
    wasm_kernel.Debug.Writer.write_function wasm_kernel.Debug.Writer.write_location
    wasm_kernel.Debug.Writer.u32_bytes wasm_kernel.Debug.Writer.write_ranges
    wasm_kernel.Debug.Writer.write_ranges_loop wasm_kernel.Debug.Writer.write_range
    wasm_kernel.Debug.Writer.write_id str_resolve intern lookup filter_ranges location_ranges
    function_ranges wasm_kernel.Debug.Ranges.filter_loop wasm_kernel.Debug.Ranges.can_merge buffer
    wasm_kernel.Debug.Strings.offsets wasm_kernel.Debug.Strings.write_strings to_le_bytes
write_run = refl

parse-write_example :
    (m : SymbolModule) × (parse file ≡ done (some m))
    × Found any_text writer writer-IsTable writer-IsWide m
parse-write_example =
    parse-write any_text writer writer-IsTable writer-IsWide file write_run (omega arith)

-- A module in front of the symbol file, and one behind it, whose command lines are no UTF-8.
abbrev no_text : Module
no_text = record { string = none; bytes = [] }

abbrev span : Span
span = record { from = 0; to = 7 }
