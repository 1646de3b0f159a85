-- ===== src/Symbols/Table.antt =====
-- src/modules/symbols.rs: the tables of a symbol module and the reader of the file.
use wasm_kernel.Base.{
  ℕ, zero, suc, ◌+◌, ◌-◌, ◌*◌, ◌/◌, ◌%◌, ◌^◌, Bool, Option, none, some, List, [], ◌∷◌, ltb, leb,
  ◌==◌, if◌then◌else◌, length, drop, Run, done, panic, ◌>>=◌, assert,
}
use wasm_kernel.Symbols.Bytes.{slice, read}
use wasm_kernel.Symbols.Search.{Read, ◌>>?◌, binary_search_table}

-- A `str`, by its bytes.
abbrev pub Str : Type 0
Str = List ℕ

abbrev pub usize_max : ℕ
usize_max = 2 ^ 64 - 1

abbrev pub kernel_base : ℕ
kernel_base = 18446744071562067968

-- An index or an offset, where the largest number stands for none.
unfoldable pub checked : ℕ → Option ℕ
checked id = if id == usize_max then none else some id

-- `CStr::from_bytes_until_nul`: the bytes in front of the first zero.
unfoldable pub until_nul : List ℕ → Option Str
until_nul [] = none
until_nul (b ∷ bs) =
    let rest = until_nul bs in
    if b == 0 then some [] else elim rest [ none ↦ none | some s ↦ some (b ∷ s) ]

-- `&buf[from..]`
unfoldable pub slice_from : List ℕ → ℕ → Run (List ℕ)
slice_from buf from = if leb from (length buf) then done (drop from buf) else panic

pub record LocationEntry : Type 0 where
  pub file : Option Str
  pub row : ℕ
  pub col : ℕ

pub record FunctionEntry : Type 0 where
  pub inline_parent : Option ℕ
  pub name : Option Str
  pub location : LocationEntry

pub record SymbolModule : Type 0 where
  pub strings : List ℕ
  pub functions : List ℕ
  pub location_search : List ℕ
  pub function_search : List ℕ
  pub functions_count : ℕ
  pub location_search_count : ℕ
  pub function_search_count : ℕ

-- A length at the offset `head` and as many bytes behind it, with the offset behind those.
unfoldable pub part : List ℕ → ℕ → Read (List ℕ × ℕ)
part src head = done (read 8 src head) >>? λ len.
    slice src (head + 8) len >>= λ bytes. done (some (bytes, head + 8 + len))

unfoldable pub parse : List ℕ → Read SymbolModule
parse src = done (read 8 src 0) >>? λ header. assert (header == 0) >>= λ _.
    part src 8 >>? λ strings. part src (strings.1) >>? λ functions.
    part src (functions.1) >>? λ location_search.
    part src (location_search.1) >>? λ function_search.
    assert (function_search.1 == length src) >>= λ _. done (
      some (record {
        strings = strings.0;
        functions = functions.0;
        location_search = location_search.0;
        function_search = function_search.0;
        functions_count = length (functions.0) / 32;
        location_search_count = length (location_search.0) / 20;
        function_search_count = length (function_search.0) / 12;
      }))

-- The test of `CStr::to_str`, which the standard library makes.
module _ (is_utf8 : List ℕ → Bool) where
  abbrev pub to_str : Option Str → Option Str
  to_str none = none
  to_str (some s) = if is_utf8 s then some s else none

  abbrev pub string_at : List ℕ → Option ℕ → Read Str
  string_at str_tab none = done none
  string_at str_tab (some file) =
      slice_from str_tab file >>= λ bytes. done (to_str (until_nul bytes))

  unfoldable pub read_string : List ℕ → List ℕ → ℕ → Read Str
  read_string buf str_tab offset =
      done (read 8 buf offset) >>? λ file. string_at str_tab (checked file)

  -- The three instances of `TableEntry::read`.
  unfoldable pub read_location : List ℕ → List ℕ → Read LocationEntry
  read_location buf str_tab = read_string buf str_tab 0 >>= λ file. done (read 4 buf 8) >>? λ row.
      done (read 4 buf 12) >>? λ col. done (some (record { file = file; row = row; col = col }))

  unfoldable pub read_id : List ℕ → List ℕ → Read (Option ℕ)
  read_id buf str_tab = done (read 8 buf 0) >>? λ id. done (some (checked id))

  unfoldable pub read_function : List ℕ → List ℕ → Read FunctionEntry
  read_function buf str_tab = done (read 8 buf 0) >>? λ parent.
      read_string buf str_tab 8 >>= λ name. slice_from buf 16 >>= λ rest.
      read_location rest str_tab >>? λ location.
      done (some (record { inline_parent = checked parent; name = name; location = location }))

  -- `do_read`, of entries of `size` bytes behind an address of four.
  unfoldable pub do_read :
      {T : Type 0} → ℕ → (List ℕ → List ℕ → Read T) → ℕ → ℕ → List ℕ → List ℕ → Read (ℕ × T)
  do_read size entry index len tab strings = assert (ltb index len) >>= λ _.
      slice tab (index * (size + 4)) (size + 4) >>= λ bytes. done (read 4 bytes 0) >>? λ address.
      slice_from bytes 4 >>= λ rest. entry rest strings >>? λ value. done (some (address, value))

  module _ (self : SymbolModule) where
    unfoldable pub get_function : ℕ → Read FunctionEntry
    get_function index = assert (ltb index self.functions_count) >>= λ _.
        slice self.functions (index * 32) 32 >>= λ bytes. read_function bytes self.strings

    unfoldable pub get_location_search : ℕ → Read (ℕ × LocationEntry)
    get_location_search index =
        do_read 16 read_location index self.location_search_count self.location_search self.strings

    unfoldable pub get_function_search : ℕ → Read (ℕ × Option ℕ)
    get_function_search index =
        do_read 8 read_id index self.function_search_count self.function_search self.strings

    -- The `flatten` and `and_then` of `symbolize`, and the step of its `successors`.
    abbrev pub parent : Option ℕ → Read FunctionEntry
    parent none = done none
    parent (some f) = get_function f

    abbrev pub first_function : Option (Option ℕ) → Read FunctionEntry
    first_function none = done none
    first_function (some f) = parent f

    -- The first items of the iterator, as many as are asked for.
    unfoldable pub successors : ℕ → Option FunctionEntry → Run (List FunctionEntry)
    successors zero f = done []
    successors (suc count) none = done []
    successors (suc count) (some f) =
        parent f.inline_parent >>= λ next. successors count next >>= λ rest. done (f ∷ rest)

    -- `symbolize` in a build that checks for overflow, with the number of items that the caller takes.
    unfoldable pub symbolize : ℕ → ℕ → Run (List FunctionEntry × Option LocationEntry)
    symbolize addr count = assert (leb kernel_base addr) >>= λ _.
        binary_search_table get_function_search ((addr - kernel_base) % 2 ^ 32)
          self.function_search_count
        >>= λ func.
            binary_search_table get_location_search ((addr - kernel_base) % 2 ^ 32)
              self.location_search_count
            >>= λ location. first_function func >>= λ first.
                successors count first >>= λ frames. done (frames, location)
