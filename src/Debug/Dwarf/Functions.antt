-- ===== src/Debug/Dwarf/Functions.antt =====
-- buildtool/src/debug/dwarf.rs: the functions of a unit and the calls that are inlined in them.
pub mod Total
pub mod Nested
use wasm_kernel.Base.{
  ℕ, zero, suc, ◌+◌, ◌-◌, ◌*◌, ◌/◌, ◌%◌, ◌^◌, ◌≤◌, ◌<◌, max, ◌≡◌, refl, sym, ap, ◌∙◌, fun_ext, ◌≢◌,
  ◌↔◌, ◌⊎◌, inl, inr, Bool, true, false, not, ◌&&◌, ◌||◌, Option, none, some, List, [], ◌∷◌, ◌++◌,
  map, arith, ltb, leb, ◌==◌, if◌then◌else◌, ltb→lt, lt→ltb, leb→le, le→leb, ==_iff, Bool-cases,
  Option-cases, length, get_elem?, set, take, drop, All, length-append, set-append, take-append,
  drop-append, All-append,
}
use wasm_kernel.Symbols.Table.{Str, usize_max}
use wasm_kernel.Debug.Dwarf.{
  ◌>>=◌, Range, AttrName, AttributeValue, Attribute, Gimli, RangeAttributes, no_ranges, Context,
  to_vec, name_attr,
}
use wasm_kernel.Debug.Dwarf.Entries.{
  Abbreviation, FunctionInfo, InlinedFunctionInfo, InlinedList, RawEntry, Result, SourceLocation,
  Tag, by_entry, by_ranges, by_tag, cons, err, inlined_function, inlined_subroutine, nil,
  no_location, ok, other, stuck, subprogram, tried, ◌>>>◌,
}

module _ {U : Type 0} (gimli : Gimli U) (ctx : Context U) (u : U) where
  abbrev with_low : RangeAttributes → ℕ → RangeAttributes
  with_low ranges val = record ranges { low_pc = some val }

  abbrev with_high : RangeAttributes → ℕ → RangeAttributes
  with_high ranges val = record ranges { high_pc = some val }

  -- The name that is known, or else the one that is read.
  abbrev or_name : Option Str → Option (Option Str) → Option (Option Str)
  or_name (some str) later = some (some str)
  or_name none later = later

  abbrev linkage_over : Option Str → Option (Option Str) → Option (Option Str)
  linkage_over name (some text) = text >>= λ str. some (some str)
  linkage_over name none = some name

  abbrev text_of : Option (Option Str) → Option (Option Str)
  text_of read = read >>= λ text. text >>= λ str. some (some str)

  abbrev low_pc_of : RangeAttributes → AttributeValue → Option RangeAttributes
  low_pc_of ranges (AttributeValue.addr val) = some (with_low ranges val)
  low_pc_of ranges (AttributeValue.debug_addr_index index) =
      gimli.address u index >>= λ val. some (with_low ranges val)
  low_pc_of ranges _ = some ranges

  abbrev high_pc_of : RangeAttributes → AttributeValue → Option RangeAttributes
  high_pc_of ranges (AttributeValue.addr val) = some (with_high ranges val)
  high_pc_of ranges (AttributeValue.debug_addr_index index) =
      gimli.address u index >>= λ val. some (with_high ranges val)
  high_pc_of ranges (AttributeValue.udata val) = some (record ranges { size = some val })
  high_pc_of ranges _ = some ranges

  unfoldable pub parse_common_function_data :
      Attribute → RangeAttributes × Option Str → Option (RangeAttributes × Option Str)
  unfolding name_attr
  parse_common_function_data attr (ranges, name) = elim attr.name [
    | AttrName.low_pc ↦ low_pc_of ranges attr.value >>= λ r. some (r, name)
    | AttrName.high_pc ↦ high_pc_of ranges attr.value >>= λ r. some (r, name)
    | AttrName.ranges ↦ gimli.attr_ranges_offset u attr.value >>= λ offset.
        some (record ranges { ranges_offset = offset }, name)
    | AttrName.linkage_name ↦
        linkage_over name (gimli.attr_string u attr.value) >>= λ n. some (ranges, n)
    | AttrName.mips_linkage_name ↦
        linkage_over name (gimli.attr_string u attr.value) >>= λ n. some (ranges, n)
    | AttrName.name ↦
        or_name name (text_of (gimli.attr_string u attr.value)) >>= λ n. some (ranges, n)
    | AttrName.abstract_origin ↦
        or_name name (name_attr gimli ctx 16 u attr.value) >>= λ n. some (ranges, n)
    | AttrName.specification ↦
        or_name name (name_attr gimli ctx 16 u attr.value) >>= λ n. some (ranges, n)
    | _ ↦ some (ranges, name)
  ]

  -- The loop over the attributes in `FunctionInfo::parse`.
  unfoldable pub function_attributes :
      List (Option Attribute) → RangeAttributes × Option Str → Option (RangeAttributes × Option Str)
  unfolding parse_common_function_data
  function_attributes [] data_ = some data_
  function_attributes (read ∷ rest) data_ = do
    attr ← read
    next ← parse_common_function_data attr data_
    function_attributes rest next

  abbrev number_or_zero : Option ℕ → ℕ
  number_or_zero (some n) = n
  number_or_zero none = 0

  abbrev call_file_of : SourceLocation → AttributeValue → SourceLocation
  call_file_of location (AttributeValue.file_index fi) =
      if ltb 0 fi || leb 5 (gimli.version u) then record location { file = fi } else location
  call_file_of location _ = location

  -- The three attributes of the place of a call.
  unfoldable pub call_location : Attribute → SourceLocation → SourceLocation
  call_location attr location = elim attr.name [
    | AttrName.call_file ↦ call_file_of location attr.value
    | AttrName.call_line ↦ record location { row = number_or_zero (gimli.udata_value attr.value) }
    | AttrName.call_column ↦ record location { col = number_or_zero (gimli.udata_value attr.value) }
    | _ ↦ location
  ]

  -- The loop over the attributes in `InlinedFunctionInfo::parse`.
  unfoldable pub inlined_attributes :
      List (Option Attribute)
      → RangeAttributes × Option Str
      → SourceLocation
      → Option ((RangeAttributes × Option Str) × SourceLocation)
  unfolding parse_common_function_data call_location
  inlined_attributes [] data_ location = some (data_, location)
  inlined_attributes (read ∷ rest) data_ location = do
    attr ← read
    next ← parse_common_function_data attr data_
    inlined_attributes rest next (call_location attr location)

  -- What the attributes say of a function, and of an inlined call.
  unfoldable pub function_parts : List (Option Attribute) → Option (List Range × Option Str)
  unfolding function_attributes to_vec
  function_parts attributes = do
    (attrs, name) ← function_attributes attributes (no_ranges, none)
    ranges ← to_vec gimli attrs u
    some (ranges, name)

  unfoldable pub inlined_parts :
      List (Option Attribute) → Option (List Range × Option Str × SourceLocation)
  unfolding inlined_attributes to_vec
  inlined_parts attributes = do
    ((attrs, name), location) ← inlined_attributes attributes (no_ranges, none) no_location
    ranges ← to_vec gimli attrs u
    some (ranges, name, location)

  -- `last` is the depth behind the last entry, where a read is an error.
  module _ (last : ℕ) where
    -- `while entries.next_depth() > depth`, in front of which a function that is nested begins.
    unfoldable pub skip_nested : ℕ → List RawEntry → Option (List RawEntry)
    skip_nested depth [] = if ltb depth last then none else some []
    skip_nested depth (e ∷ rest) =
        let on = skip_nested depth rest in
        if ltb depth e.depth
        then (e.read >>= λ found.
            by_entry found on (λ abbreviation. abbreviation.skip_attributes >>= λ _. on))
        else some (e ∷ rest)

    -- `FunctionInfo::parse_children` and `InlinedFunctionInfo::parse`, which call each other: the
    -- calls down to a depth, and the entries that are left. Each turn reads an entry, so the number of
    -- entries is fuel enough.
    unfoldable pub parse_children : ℕ → ℕ → List RawEntry → Result (InlinedList × List RawEntry)
    unfolding skip_nested inlined_parts
    parse_children zero depth entries = stuck
    parse_children (suc fuel) depth [] = if leb last depth then ok (nil, []) else err
    parse_children (suc fuel) depth (e ∷ rest) =
        let on : ℕ → List RawEntry → Result (InlinedList × List RawEntry) =
          λ d es. parse_children fuel d es in
        if leb e.depth depth
        then ok (nil, e ∷ rest)
        else (tried e.read >>> λ found. by_entry found (on depth rest) (λ abbreviation.
            by_tag abbreviation.tag
              (tried (abbreviation.skip_attributes >>= λ _. skip_nested depth rest) >>> on depth)
              (tried (inlined_parts abbreviation.attributes) >>> λ (ranges, name, location).
                on e.depth rest >>> λ (inlined, left). on depth left >>> λ (others, left_2).
                ok (cons (inlined_function ranges name inlined location) others, left_2))
              (tried abbreviation.skip_attributes >>> λ _. on depth rest)))

    -- The loop of `FunctionInfo::parse`, with the same fuel.
    unfoldable pub parse_functions : ℕ → List RawEntry → Result (List FunctionInfo)
    unfolding parse_children function_parts
    parse_functions fuel [] = ok []
    parse_functions zero (e ∷ rest) = stuck
    parse_functions (suc fuel) (e ∷ rest) =
        let on : List RawEntry → Result (List FunctionInfo) = λ es. parse_functions fuel es in
        let skip : Abbreviation → Result (List FunctionInfo) =
          λ abbreviation. tried abbreviation.skip_attributes >>> λ _. on rest in
        tried e.read >>> λ found. by_entry found (on rest) (λ abbreviation.
          by_tag abbreviation.tag
            (tried (function_parts abbreviation.attributes) >>> λ (ranges, name).
              by_ranges ranges (on rest) (
                parse_children (suc (length rest)) e.depth rest >>> λ (inlined, left).
                on left >>> λ functions.
                ok (record { ranges = ranges; inlined = inlined; name = name } ∷ functions)))
            (skip abbreviation) (skip abbreviation))

    -- `FunctionInfo::parse`
    unfoldable pub parse_unit : List RawEntry → Result (List FunctionInfo)
    unfolding parse_functions
    parse_unit entries = parse_functions (length entries) entries
