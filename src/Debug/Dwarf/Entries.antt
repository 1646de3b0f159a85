-- ===== src/Debug/Dwarf/Entries.antt =====
-- buildtool/src/debug/dwarf.rs: the functions that the reader makes, and the entries it reads.
use wasm_kernel.Base.{ℕ, Option, none, some, List, [], ◌∷◌}
use wasm_kernel.Symbols.Table.{Str, usize_max}
use wasm_kernel.Debug.Dwarf.{Range, Attribute}

pub record SourceLocation : Type 0 where
  pub file : ℕ
  pub row : ℕ
  pub col : ℕ

-- `SourceLocation::default`
abbrev pub no_location : SourceLocation
no_location = record { file = usize_max; row = 0; col = 0 }

-- What a loop on fuel comes to: a result, an error, or that it needs more steps.
pub data Result {ℓ} (A : Type ℓ) : Type ℓ where
  ok : A → Result A
  err : Result A
  stuck : Result A

infixl 5 ◌>>>◌
abbrev pub ◌>>>◌ {ℓ κ} : {A : Type ℓ} {B : Type κ} → Result A → (A → Result B) → Result B
ok a >>> f = f a
err >>> f = err
stuck >>> f = stuck

-- The operator `?` on a call that is no such loop.
abbrev pub tried {ℓ} : {A : Type ℓ} → Option A → Result A
tried (some a) = ok a
tried none = err

-- A function and its list of inlined calls, which are trees.
mutual
  pub data InlinedFunctionInfo : Type 0 where
    inlined_function : List Range → Option Str → InlinedList → SourceLocation → InlinedFunctionInfo

  pub data InlinedList : Type 0 where
    nil : InlinedList
    cons : InlinedFunctionInfo → InlinedList → InlinedList

pub record FunctionInfo : Type 0 where
  pub ranges : List Range
  pub inlined : InlinedList
  pub name : Option Str

-- `DW_TAG_*`, as far as the reader tells them apart.
pub data Tag : Type 0 where
  subprogram inlined_subroutine other : Tag

-- A match on the tag, and on an entry that may be the end of a list.
abbrev pub by_tag {ℓ} : {A : Type ℓ} → Tag → A → A → A → A
by_tag Tag.subprogram a b c = a
by_tag Tag.inlined_subroutine a b c = b
by_tag Tag.other a b c = c

abbrev pub by_entry {ℓ κ} : {A : Type ℓ} {B : Type κ} → Option A → B → (A → B) → B
by_entry none b f = b
by_entry (some a) b f = f a

abbrev pub by_ranges {ℓ} : {A : Type ℓ} → List Range → A → A → A
by_ranges [] a b = a
by_ranges (r ∷ rest) a b = b

-- An entry as gimli reads it: its tag, its attributes one after the other, and what `skip_attributes`
-- says instead.
pub record Abbreviation : Type 0 where
  pub tag : Tag
  pub attributes : List (Option Attribute)
  pub skip_attributes : Option (Unit {0})

-- The entries that `EntriesRaw` has left: the depth of each, and the entry, or none for the end of a
-- list of children. Depths are shifted so that they are not negative: they are only compared.
pub record RawEntry : Type 0 where
  pub depth : ℕ
  pub read : Option (Option Abbreviation)
