-- ===== src/Tests/DebugInfo.antt =====
-- Runs of the reader of debug information and of what it fills.
use wasm_kernel.Base.{
  ℕ, suc, ◌≡◌, refl, Bool, true, false, none, some, List, [], ◌∷◌, ◌++◌, map, arith, done,
}
use wasm_kernel.Debug.Writer.{Interval}
use wasm_kernel.Debug.Dwarf.{Gimli, Context, AttrName, AttributeValue}
use wasm_kernel.Debug.Dwarf.Entries.{Tag, RawEntry, nil}
use wasm_kernel.Debug.Dwarf.Functions.{parse_children, parse_unit}
use wasm_kernel.Debug.Dwarf.Functions.Total.{Ends, parse_unit-Ends}
use wasm_kernel.Debug.Dwarf.Functions.Nested.{IsNested, parse_children-nested}
use wasm_kernel.Debug.Dwarf.Lines.{LineSequence, Row, parse_rows}
use wasm_kernel.Debug.Dwarf.Lines.Rising.{IsKept, parse_rows-IsKept}
use wasm_kernel.Debug.IntervalMap.{get}
use wasm_kernel.Debug.IntervalMap.Carve.{carve, Carves, carve-Carves}

-- A reader of one unit, whose texts are one letter.
abbrev reader : Gimli (Unit {0})
reader = record {
  address = λ u n. some n;
  unit_ranges = λ u n. some [];
  attr_ranges_offset = λ u v. some none;
  attr_string = λ u v. some (some (102 ∷ []));
  udata_value = λ v. none;
  version = λ u. 5;
  entry_at = λ u n. some (some []);
  to_unit_offset = λ u n. some n;
}

abbrev units : Context (Unit {0})
units = (0, tt) ∷ []

abbrev function_entry : ℕ → RawEntry
function_entry depth = record {
  depth = depth;
  read = some (
      some (record {
        tag = Tag.subprogram;
        attributes =
            some (record { name = AttrName.name; value = AttributeValue.udata 0 })
            ∷ some
                (record { name = AttrName.low_pc; value = AttributeValue.addr 0xffffffff80000000 })
            ∷ some (record { name = AttrName.high_pc; value = AttributeValue.udata 64 })
            ∷ [];
        skip_attributes = some tt;
      }));
}

abbrev inlined_entry : ℕ → RawEntry
inlined_entry depth = record {
  depth = depth;
  read =
      some (
        some (record { tag = Tag.inlined_subroutine; attributes = []; skip_attributes = some tt }));
}

abbrev function_entries : List RawEntry
function_entries = function_entry 1 ∷ inlined_entry 2 ∷ function_entry 2 ∷ inlined_entry 2 ∷ []

parse_unit-Ends_example : Ends (parse_unit reader units tt 1 function_entries) (λ functions. Unit)
parse_unit-Ends_example = parse_unit-Ends reader units tt 1 function_entries

nested : IsNested 1 (function_entry 2)
nested = record { abbreviation = _; read = refl; tag = refl; below = omega arith }

parse_children-nested_example :
    Ends
      (parse_children reader units tt 1 (suc (suc 2)) 1 (function_entry 2 ∷ inlined_entry 2 ∷ []))
      (λ r. r.0 ≡ nil)
parse_children-nested_example =
    parse_children-nested reader units tt 1 2 1 (function_entry 2) (inlined_entry 2 ∷ []) nested

abbrev row_at : ℕ → Bool → ℕ → Row
row_at address end_sequence line = record {
  address = address;
  end_sequence = end_sequence;
  file_index = 1;
  line = some line;
  column = none;
}

parse_rows-IsKept_example :
    (kept : LineSequence) × (parse_rows
        (map some (row_at 0xffffffff80000000 false 1 ∷ row_at 0xffffffff80000000 false 2 ∷ [])
          ++ some (row_at 0xffffffff80000010 true 0) ∷ [])
        []
      ≡ some (kept ∷ []))
    × IsKept
        (row_at 0xffffffff80000000 false 1)
        (row_at 0xffffffff80000000 false 2 ∷ [])
        (row_at 0xffffffff80000010 true 0)
        kept
parse_rows-IsKept_example =
    parse_rows-IsKept (row_at 0xffffffff80000000 false 1) (row_at 0xffffffff80000000 false 2 ∷ [])
      (row_at 0xffffffff80000010 true 0) [] []
      (record {
        goes_on = (refl, (refl, tt));
        ends = refl;
        ascends = (omega arith, tt);
        proper = omega arith;
        kernel = omega arith;
      })
      (unfold parse_rows in refl)

-- A function at 100, and a call that is inlined in the middle of it.
abbrev outer : Interval ℕ
outer = record { start = 100; end = 200; value = 0 }

carve-Carves_example :
    (map' : List (Interval ℕ)) × (carve 1 0 (record { begin = 120; end = 140 }) (outer ∷ [])
      ≡ done map')
    × Carves 1 (record { begin = 120; end = 140 }) (outer ∷ []) map'
carve-Carves_example =
    carve-Carves 1 (record { begin = 120; end = 140 }) (outer ∷ []) outer
      (omega arith, omega arith, tt) (omega arith) (unfold get in refl) (omega arith)
