-- ===== src/Debug/Fill.antt =====
-- buildtool/src/debug/io.rs: the writer's lines and functions, as they are put in.
use wasm_kernel.Base.{
  ℕ, ◌&&◌, Option, none, some, List, [], ◌∷◌, ◌++◌, map, ltb, leb, ◌==◌, if◌then◌else◌, length,
  get_elem?, set, Run, done, ◌>>=◌, ◌>>◌, assert, unwrap,
}
use wasm_kernel.Symbols.Table.{Str, usize_max}
use wasm_kernel.Debug.Strings.{InternStringTable, intern}
use wasm_kernel.Debug.Writer.{
  LocationEntry, null_location, FunctionEntry, Interval, DebugModuleFileWriter,
}
use wasm_kernel.Debug.Dwarf.{Range}
use wasm_kernel.Debug.Dwarf.Entries.{
  SourceLocation, InlinedFunctionInfo, inlined_function, InlinedList, nil, cons, FunctionInfo,
}
use wasm_kernel.Debug.Dwarf.Lines.{LineEntry, LineSequence}
use wasm_kernel.Debug.IntervalMap.{insert}
use wasm_kernel.Debug.IntervalMap.Carve.{carve}

-- The writer, and the cache of the table that is interned as it is used.
pub record Filling : Type 0 where
  pub writer : DebugModuleFileWriter
  pub cache : List ℕ

abbrev pub with_strings : Filling → InternStringTable → Filling
with_strings s strings = record s { writer = record s.writer { strings = strings } }

-- The closure of `lazy_intern_table`.
unfoldable pub lazy_intern : List Str → ℕ → Filling → Run (ℕ × Filling)
unfolding intern
lazy_intern table f s =
    if f == usize_max
    then done (usize_max, s)
    else (unwrap (get_elem? s.cache f) >>= λ cached.
        if cached == usize_max
        then (do
          text ← unwrap (get_elem? table f)
          let (id, strings) = intern text s.writer.strings
          done (id, record (with_strings s strings) { cache = set s.cache f id }))
        else done (cached, s))

-- The closure with a table, and the one without, which knows no file.
unfoldable pub intern_file : Option (List Str) → ℕ → Filling → Run (ℕ × Filling)
unfolding lazy_intern
intern_file (some table) f s = lazy_intern table f s
intern_file none f s = done (usize_max, s)

unfoldable pub translate_loc :
    Option (List Str) → SourceLocation → Filling → Run (LocationEntry × Filling)
unfolding intern_file
translate_loc files loc s = do
  (file, s') ← intern_file files loc.file s
  done (record { file = file; row = loc.row; col = loc.col }, s')

-- What `format_loc` reads of a table of files for the text of a warning: the name of the file.
unfoldable pub format_loc : Option (List Str) → SourceLocation → Run (Option Str)
format_loc none loc = done none
format_loc (some files) loc =
    if loc.file == usize_max
    then done none
    else (unwrap (get_elem? files loc.file) >>= λ name. done (some name))

-- The rows of a sequence that lie in its range; for the others there is a warning.
unfoldable pub translate_rows :
    List Str → Range → List LineEntry → Filling → Run (List (ℕ × LocationEntry) × Filling)
unfolding translate_loc format_loc
translate_rows files interval [] s = done ([], s)
translate_rows files interval (row ∷ rest) s =
    if leb interval.begin row.address && ltb row.address interval.end
    then (do
      (loc, s_1) ← translate_loc (some files) row.location s
      (others, s_2) ← translate_rows files interval rest s_1
      done ((row.address, loc) ∷ others, s_2))
    else (format_loc (some files) row.location >>= λ shown. translate_rows files interval rest s)

-- The loop of `write_line`.
unfoldable pub write_sequences : List Str → List LineSequence → Filling → Run Filling
unfolding translate_rows insert
write_sequences files [] s = done s
write_sequences files (entry ∷ rest) s = do
  (rows, s') ← translate_rows files entry.range entry.rows s
  (inserted, search) ← insert entry.range.begin entry.range.end rows s'.writer.location_search
  assert inserted
  write_sequences files rest (record s' { writer = record s'.writer { location_search = search } })

abbrev pub fresh_cache : List Str → List ℕ
fresh_cache table = map (λ _. usize_max) table

unfoldable pub write_line :
    List Str → List LineSequence → DebugModuleFileWriter → Run DebugModuleFileWriter
unfolding write_sequences
write_line files sequences self = do
  s ← write_sequences files sequences (record { writer = self; cache = fresh_cache files })
  done s.writer

-- `name.map(intern).unwrap_or(usize::MAX)`
unfoldable pub intern_name : Option Str → Filling → ℕ × Filling
unfolding intern
intern_name none s = (usize_max, s)
intern_name (some text) s =
    let (id, strings) = intern text s.writer.strings in (id, with_strings s strings)

abbrev pub push_function : FunctionEntry → Filling → Filling
push_function f s = record s {
  writer = record s.writer { functions = s.writer.functions ++ f ∷ [] };
}

-- The loop over the ranges of an inlined function.
unfoldable pub carve_all : ℕ → ℕ → List Range → List (Interval ℕ) → Run (List (Interval ℕ))
unfolding carve
carve_all fn_id expected_parent [] search = done search
carve_all fn_id expected_parent (range ∷ rest) search = do
  search' ← carve fn_id expected_parent range search
  carve_all fn_id expected_parent rest search'

-- `write_inlined`, and its loop over the calls that are inlined in the call.
unfoldable mutual
  unfolding intern_name translate_loc carve_all

  pub write_inlined : Option (List Str) → ℕ → InlinedFunctionInfo → Filling → Run Filling
  write_inlined files expected_parent (inlined_function ranges name inlined location) s = do
    let fn_id = length s.writer.functions
    let (id, s_1) = intern_name name s
    (loc, s_2) ← translate_loc files location s_1
    let s_3 = push_function (record { inline_parent = usize_max; name = id; location = loc }) s_2
    search ← carve_all fn_id expected_parent ranges s_3.writer.function_search
    write_inlined_list files fn_id inlined
        (record s_3 { writer = record s_3.writer { function_search = search } })

  pub write_inlined_list : Option (List Str) → ℕ → InlinedList → Filling → Run Filling
  write_inlined_list files expected_parent nil s = done s
  write_inlined_list files expected_parent (cons func rest) s = do
    s' ← write_inlined files expected_parent func s
    write_inlined_list files expected_parent rest s'

-- The loop over the ranges of a function.
unfoldable pub insert_ranges : ℕ → List Range → List (Interval ℕ) → Run (List (Interval ℕ))
unfolding insert
insert_ranges fn_id [] search = done search
insert_ranges fn_id (range ∷ rest) search = do
  (inserted, search') ← insert range.begin range.end fn_id search
  assert inserted
  insert_ranges fn_id rest search'

abbrev pub files_cache : Option (List Str) → List ℕ
files_cache none = []
files_cache (some files) = fresh_cache files

-- `write_function`; the table of strings has two mutable borrows there, which are one table.
unfoldable pub write_function :
    FunctionInfo → Option (List Str) → DebugModuleFileWriter → Run DebugModuleFileWriter
unfolding intern_name insert_ranges write_inlined
write_function func info self = do
  let fn_id = length self.functions
  let (id, s) = intern_name func.name (record { writer = self; cache = files_cache info })
  let s_1 =
      push_function (record { inline_parent = usize_max; name = id; location = null_location }) s
  search ← insert_ranges fn_id func.ranges s_1.writer.function_search
  s_2 ←
      write_inlined_list info fn_id func.inlined
        (record s_1 { writer = record s_1.writer { function_search = search } })
  done s_2.writer
