-- ===== src/Debug/Writer.antt =====
-- buildtool/src/debug/io.rs: the writer of the symbol file.
use wasm_kernel.Base.{
  ℕ, ◌-◌, ◌^◌, Bool, ◌&&◌, List, [], ◌∷◌, ◌++◌, ltb, leb, ◌==◌, if◌then◌else◌, length, Run, done,
  panic, ◌>>=◌, ◌>>◌, assert,
}
use wasm_kernel.Symbols.Bytes.{to_le_bytes}
use wasm_kernel.Symbols.Table.{usize_max, kernel_base}
use wasm_kernel.Debug.Strings.{InternStringTable, str_resolve, write_strings}
use wasm_kernel.Debug.Ranges.{filter_ranges}

pub record LocationEntry : Type 0 where
  pub file : ℕ
  pub row : ℕ
  pub col : ℕ

-- `LocationEntry::NULL`
abbrev pub null_location : LocationEntry
null_location = record { file = usize_max; row = 0; col = 0 }

abbrev pub same_location : LocationEntry → LocationEntry → Bool
same_location a b = a.file == b.file && (a.row == b.row && a.col == b.col)

abbrev pub same_id : ℕ → ℕ → Bool
same_id a b = a == b

pub record FunctionEntry : Type 0 where
  pub inline_parent : ℕ
  pub name : ℕ
  pub location : LocationEntry

-- An interval of an `IntervalMap`, which iterates by their starts.
pub record Interval (V : Type 0) : Type 0 where
  pub start : ℕ
  pub end : ℕ
  pub value : V

pub record DebugModuleFileWriter : Type 0 where
  pub strings : InternStringTable
  pub functions : List FunctionEntry
  pub location_search : List (Interval (List (ℕ × LocationEntry)))
  pub function_search : List (Interval ℕ)

-- `TryInto::<u32>::try_into(n).unwrap().to_le_bytes()`
unfoldable pub u32_bytes : ℕ → Run (List ℕ)
u32_bytes n = if ltb n (2 ^ 32) then done (to_le_bytes 4 n) else panic

-- The three instances of `WritableEntry::write`.
module _ (resolve : ℕ → Run ℕ) where
  unfoldable pub write_location : LocationEntry → Run (List ℕ)
  write_location self = do
    file ← resolve self.file
    row ← u32_bytes self.row
    col ← u32_bytes self.col
    done (to_le_bytes 8 file ++ (row ++ col))

  unfoldable pub write_function : FunctionEntry → Run (List ℕ)
  write_function self = do
    name ← resolve self.name
    location ← write_location self.location
    done (to_le_bytes 8 self.inline_parent ++ (to_le_bytes 8 name ++ location))

unfoldable pub write_id : ℕ → Run (List ℕ)
write_id self = done (to_le_bytes 8 self)

module _ {T : Type 0} (write_entry : T → Run (List ℕ)) where
  -- The loop of `write_all`, with the bytes in the order they are written.
  unfoldable pub write_entries : List T → Run (List ℕ)
  write_entries [] = done []
  write_entries (e ∷ rest) = do bytes ← write_entry e; buf ← write_entries rest; done (bytes ++ buf)

  unfoldable pub write_all : List T → Run (List ℕ)
  write_all vec = do buf ← write_entries vec; done (to_le_bytes 8 (length buf) ++ buf)

  -- An entry of `write_ranges`, behind its address, in a build that checks for overflow. Where it is
  -- not checked, an address below the kernel would wrap; `check_range` of dwarf.rs lets none pass.
  unfoldable pub write_range : ℕ × T → Run (List ℕ)
  write_range (addr, inst) = do
    assert (leb kernel_base addr)
    address ← u32_bytes (addr - kernel_base)
    entry ← write_entry inst
    done (address ++ entry)

  -- The loop of `write_ranges`, with `prev_addr`.
  unfoldable pub write_ranges_loop : ℕ → List (ℕ × T) → Run (List ℕ)
  write_ranges_loop prev_addr [] = done []
  write_ranges_loop prev_addr (e ∷ rest) = do
    assert (ltb prev_addr (e.0))
    bytes ← write_range e
    buf ← write_ranges_loop (e.0) rest
    done (bytes ++ buf)

  unfoldable pub write_ranges : (T → T → Bool) → T → List (ℕ × T) → Run (List ℕ)
  write_ranges same null iter = do
    filtered ← filter_ranges same null iter
    buf ← write_ranges_loop 0 filtered
    done (to_le_bytes 8 (length buf) ++ buf)

unfoldable pub location_ranges :
    List (Interval (List (ℕ × LocationEntry))) → List (ℕ × LocationEntry)
location_ranges [] = []
location_ranges (i ∷ rest) = i.value ++ (i.end, null_location) ∷ location_ranges rest

unfoldable pub function_ranges : List (Interval ℕ) → List (ℕ × ℕ)
function_ranges [] = []
function_ranges (i ∷ rest) = (i.start, i.value) ∷ (i.end, usize_max) ∷ function_ranges rest

-- `DebugModuleFileWriter::write`
unfoldable pub write : DebugModuleFileWriter → Run (List ℕ)
write self = do
  functions ← write_all (write_function (str_resolve self.strings.entries)) self.functions
  locations ←
      write_ranges (write_location (str_resolve self.strings.entries)) same_location null_location
        (location_ranges self.location_search)
  ids ← write_ranges write_id same_id usize_max (function_ranges self.function_search)
  done
      (to_le_bytes 8 0 ++ (write_strings self.strings.entries ++ (functions ++ (locations ++ ids))))
