-- ===== src/Debug/Dwarf/Lines.antt =====
-- buildtool/src/debug/dwarf.rs: the rows of the line program of a unit, `LineInfo::parse`.
pub mod Rising
use wasm_kernel.Base.{
  ℕ, zero, suc, ◌+◌, ◌-◌, ◌*◌, ◌/◌, ◌%◌, ◌^◌, ◌≤◌, ◌<◌, max, ◌≡◌, refl, sym, ap, ◌∙◌, fun_ext, ◌≢◌,
  ◌↔◌, ◌⊎◌, inl, inr, Bool, true, false, not, ◌&&◌, ◌||◌, Option, none, some, List, [], ◌∷◌, ◌++◌,
  map, arith, ltb, leb, ◌==◌, if◌then◌else◌, ltb→lt, lt→ltb, leb→le, le→leb, ==_iff, Bool-cases,
  Option-cases, length, get_elem?, set, take, drop, All, length-append, set-append, take-append,
  drop-append, All-append,
}
use wasm_kernel.Debug.Dwarf.{◌>>=◌, Range, check_range}
use wasm_kernel.Debug.Dwarf.Entries.{SourceLocation}

pub record LineEntry : Type 0 where
  pub address : ℕ
  pub location : SourceLocation

pub record LineSequence : Type 0 where
  pub range : Range
  pub rows : List LineEntry

-- A row as gimli reads it: the line, if it is not 0, and the column, if it is not the left edge.
pub record Row : Type 0 where
  pub address : ℕ
  pub end_sequence : Bool
  pub file_index : ℕ
  pub line : Option ℕ
  pub column : Option ℕ

abbrev or_zero : Option ℕ → ℕ
or_zero (some n) = n
or_zero none = 0

abbrev pub row_location : Row → SourceLocation
row_location row = record {
  file = row.file_index;
  row = or_zero row.line;
  col = or_zero row.column;
}

-- What a row does to the rows of its sequence: it takes the place of the last one at its address.
unfoldable pub add_row : List LineEntry → Row → List LineEntry
add_row [] row = record { address = row.address; location = row_location row } ∷ []
add_row (last_row ∷ []) row =
    if last_row.address == row.address
    then record last_row { location = row_location row } ∷ []
    else last_row ∷ record { address = row.address; location = row_location row } ∷ []
add_row (first ∷ second ∷ rest) row = let others = add_row (second ∷ rest) row in first ∷ others

-- The end of a sequence: it is kept if it is a range of the kernel.
unfoldable pub end_rows : List LineEntry → Row → List LineSequence
unfolding check_range
end_rows [] row = []
end_rows (first ∷ rest) row =
    if ltb first.address row.address
      && check_range (record { begin = first.address; end = row.address })
    then record { range = record { begin = first.address; end = row.address }; rows = first ∷ rest }
      ∷ []
    else []

-- The loop over the rows, each of which gimli may fail to read: the sequences, in order.
unfoldable pub parse_rows : List (Option Row) → List LineEntry → Option (List LineSequence)
unfolding add_row end_rows
parse_rows [] sequence_rows = some []
parse_rows (read ∷ rest) sequence_rows =
    let ended = parse_rows rest [] in
    read >>= λ row.
    if row.end_sequence
    then (ended >>= λ others. some (end_rows sequence_rows row ++ others))
    else parse_rows rest (add_row sequence_rows row)

-- The files of a unit: gimli's file 0, which may be missing, and those from 1 on up to the first that
-- is missing; `format_path`, which reads and shortens a path, may fail. The list is of the files from
-- an index on.
module _ {F S : Type 0} (format_path : F → Option S) (empty_path : S) where
  unfoldable pub more_files : List F → Option (List S)
  more_files [] = some []
  more_files (f ∷ rest) = do path ← format_path f; others ← more_files rest; some (path ∷ others)

  unfoldable pub parse_files : Option F → List F → Option (List S)
  unfolding more_files
  parse_files none rest = more_files rest >>= λ others. some (empty_path ∷ others)
  parse_files (some f) rest = do
    path ← format_path f
    others ← more_files rest
    some (path ∷ others)
