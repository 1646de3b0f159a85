-- ===== src/Debug/Dwarf.antt =====
-- buildtool/src/debug/dwarf.rs: what the reader takes from the crate gimli, and ranges and names.
pub mod Entries
pub mod Lines
pub mod Functions
use wasm_kernel.Base.{
  ℕ, zero, suc, ◌+◌, ◌-◌, ◌*◌, ◌/◌, ◌%◌, ◌^◌, ◌≤◌, ◌<◌, max, ◌≡◌, refl, sym, ap, ◌∙◌, fun_ext, ◌≢◌,
  ◌↔◌, ◌⊎◌, inl, inr, Bool, true, false, not, ◌&&◌, ◌||◌, Option, none, some, List, [], ◌∷◌, ◌++◌,
  map, arith, ltb, leb, ◌==◌, if◌then◌else◌, ltb→lt, lt→ltb, leb→le, le→leb, ==_iff, Bool-cases,
  Option-cases, length, get_elem?, set, take, drop, All, length-append, set-append, take-append,
  drop-append, All-append,
}
use wasm_kernel.Symbols.Table.{Str}

-- `Result`, whose errors only end the tool: none is an error.
infixl 5 ◌>>=◌
abbrev pub ◌>>=◌ {ℓ κ} : {A : Type ℓ} {B : Type κ} → Option A → (A → Option B) → Option B
some a >>= f = f a
none >>= f = none

-- `gimli::Range`, and the `Range` of the standard library that it becomes.
pub record Range : Type 0 where
  pub begin : ℕ
  pub end : ℕ

-- `DW_AT_*`, as far as the reader tells them apart.
pub data AttrName : Type 0 where
  low_pc high_pc ranges linkage_name mips_linkage_name : AttrName
  name abstract_origin specification call_file call_line call_column other : AttrName

-- `AttributeValue`, with a number for the kinds that the reader does not look at.
pub data AttributeValue : Type 0 where
  addr : ℕ → AttributeValue
  debug_addr_index : ℕ → AttributeValue
  udata : ℕ → AttributeValue
  unit_ref : ℕ → AttributeValue
  debug_info_ref : ℕ → AttributeValue
  file_index : ℕ → AttributeValue
  other : ℕ → AttributeValue

pub record Attribute : Type 0 where
  pub name : AttrName
  pub value : AttributeValue

-- What gimli reads of the units `U`: an address by its index, the ranges of a list, the offset of a
-- list, the text of an attribute (where a text that is found may still not be UTF-8), a number, the
-- attributes of the entry at an offset, one after the other, and the offset inside a unit.
pub record Gimli (U : Type 0) : Type 0 where
  pub address : U → ℕ → Option ℕ
  pub unit_ranges : U → ℕ → Option (List Range)
  pub attr_ranges_offset : U → AttributeValue → Option (Option ℕ)
  pub attr_string : U → AttributeValue → Option (Option Str)
  pub udata_value : AttributeValue → Option ℕ
  pub version : U → ℕ
  pub entry_at : U → ℕ → Option (Option (List (Option Attribute)))
  pub to_unit_offset : U → ℕ → Option ℕ

unfoldable pub check_range : Range → Bool
check_range range = leb 0xffffffff80000000 range.end && ltb range.begin range.end

-- `add_range` of `to_vec`, over all ranges.
unfoldable pub add_ranges : List Range → List Range
unfolding check_range
add_ranges [] = []
add_ranges (r ∷ rest) =
    let others = add_ranges rest in
    if ltb r.begin r.end && check_range r then r ∷ others else others

pub record RangeAttributes : Type 0 where
  pub low_pc : Option ℕ
  pub high_pc : Option ℕ
  pub size : Option ℕ
  pub ranges_offset : Option ℕ

abbrev pub no_ranges : RangeAttributes
no_ranges = record { low_pc = none; high_pc = none; size = none; ranges_offset = none }

-- The two `else if` of `to_vec`.
unfoldable pub pc_ranges : Option ℕ → Option ℕ → Option ℕ → List Range
unfolding add_ranges
pc_ranges (some begin) (some end) size = add_ranges (record { begin = begin; end = end } ∷ [])
pc_ranges (some begin) none (some size) =
    add_ranges (record { begin = begin; end = (begin + size) % 2 ^ 64 } ∷ [])
pc_ranges (some begin) none none = []
pc_ranges none end size = []

-- `Context`: the units by their offsets, in the order of the file.
abbrev pub Context : Type 0 → Type 0
Context U = List (ℕ × U)

-- The number of units that stand before an offset: where the binary search over the offsets, which
-- rise, ends if it does not find it.
unfoldable pub units_before : {U : Type 0} → ℕ → Context U → ℕ
units_before offset [] = 0
units_before offset ((at, u) ∷ rest) =
    let n = units_before offset rest in if ltb at offset then suc n else 0

unfoldable pub has_offset : {U : Type 0} → ℕ → Context U → Bool
has_offset offset [] = false
has_offset offset ((at, u) ∷ rest) = let found = has_offset offset rest in at == offset || found

abbrev pub unit_at : {U : Type 0} → Option (ℕ × U) → Option U
unit_at (some (at, u)) = some u
unit_at none = none

-- `find_offset`: the unit that holds an offset, which is not that of the unit itself.
unfoldable pub find_offset : {U : Type 0} → Context U → ℕ → Option U
unfolding units_before has_offset
find_offset units offset =
    if has_offset offset units
    then none
    else elim (units_before offset units) [ zero ↦ none | suc i ↦ unit_at (get_elem? units i) ]

abbrev pub in_unit : {U : Type 0} → U → Option ℕ → Option (U × ℕ)
in_unit u (some offset) = some (u, offset)
in_unit u none = none

-- The linkage name; or else the name, and the attribute to look on at.
abbrev pub Found : Type 0
Found = Str ⊎ (Option Str × Option AttributeValue)

module _ {U : Type 0} (gimli : Gimli U) where
  -- `RangeAttributes::to_vec`
  unfoldable pub to_vec : RangeAttributes → U → Option (List Range)
  unfolding add_ranges pc_ranges
  to_vec self u = elim self.ranges_offset [
    | some offset ↦ gimli.unit_ranges u offset >>= λ list. some (add_ranges list)
    | none ↦ some (pc_ranges self.low_pc self.high_pc self.size)
  ]

  unfoldable pub find_unit : Context U → ℕ → Option (U × ℕ)
  unfolding find_offset
  find_unit units offset =
      find_offset units offset >>= λ u. in_unit u (gimli.to_unit_offset u offset)

  -- A text as the linkage name, which ends the search, and as the plain one; without a text the
  -- search goes on as it was.
  abbrev pub linkage : Option Found → Option (Option Str) → Option Found
  linkage on (some text) = text >>= λ str. some (inl str)
  linkage on none = on

  abbrev pub plain : (Option Str → Option Found) → Option Str → Option (Option Str) → Option Found
  plain on found (some text) = text >>= λ str. on (some str)
  plain on found none = on found

  -- The loop of `name_entry` over the attributes.
  unfoldable pub name_loop :
      U → Option Str → Option AttributeValue → List (Option Attribute) → Option Found
  name_loop u found next [] = some (inr (found, next))
  name_loop u found next (read ∷ rest) =
      let on : Option Str → Option AttributeValue → Option Found = λ f n. name_loop u f n rest in
      read >>= λ attr. elim attr.name [
        | AttrName.linkage_name ↦ linkage (on found next) (gimli.attr_string u attr.value)
        | AttrName.mips_linkage_name ↦ linkage (on found next) (gimli.attr_string u attr.value)
        | AttrName.name ↦ plain (λ f. on f next) found (gimli.attr_string u attr.value)
        | AttrName.abstract_origin ↦ on found (some attr.value)
        | AttrName.specification ↦ on found (some attr.value)
        | _ ↦ on found next
      ]

  -- What `name_entry` makes of the loop's end; `on` is the call of `name_attr`.
  abbrev pub name_found : (AttributeValue → Option (Option Str)) → Found → Option (Option Str)
  name_found on (inl str) = some (some str)
  name_found on (inr (some str, next)) = some (some str)
  name_found on (inr (none, some next)) = on next
  name_found on (inr (none, none)) = some none

  abbrev pub attributes_of : Option (List (Option Attribute)) → Option (List (Option Attribute))
  attributes_of (some attrs) = some attrs
  attributes_of none = none

  -- `name_entry`, with its call of `name_attr` at the limit less one.
  unfoldable pub name_entry :
      (U → AttributeValue → Option (Option Str)) → U → ℕ → Option (Option Str)
  unfolding name_loop
  name_entry on u offset = do
    entry ← gimli.entry_at u offset
    attrs ← attributes_of entry
    found ← name_loop u none none attrs
    name_found (on u) found

  -- `name_attr`, which goes from entry to entry up to a limit.
  unfoldable pub name_attr : Context U → ℕ → U → AttributeValue → Option (Option Str)
  unfolding find_unit name_entry
  name_attr units zero u attr = some none
  name_attr units (suc limit) u attr =
      let on : U → AttributeValue → Option (Option Str) = λ v a. name_attr units limit v a in
      elim attr [
        | AttributeValue.unit_ref offset ↦ name_entry on u offset
        | AttributeValue.debug_info_ref dr ↦
            find_unit units dr >>= λ (v, offset). name_entry on v offset
        | _ ↦ some none
      ]
