-- ===== src/Cmdline/Derive.antt =====
-- proc-macros/src/lib.rs: the code that `#[derive(CmdlineParsable)]` generates, as a function of the
-- fields or variants of the type.
pub mod Keeps
pub mod Preserves
use wasm_kernel.Base.{
  ℕ, zero, suc, ◌+◌, ◌-◌, ◌*◌, ◌/◌, ◌%◌, ◌^◌, ◌≤◌, ◌<◌, max, ◌≡◌, refl, sym, ap, ◌∙◌, fun_ext, ◌≢◌,
  ◌↔◌, ◌⊎◌, inl, inr, Bool, true, false, ◌&&◌, ◌||◌, Option, none, some, List, [], ◌∷◌, ◌++◌, map,
  arith, ltb, leb, ◌==◌, if◌then◌else◌, ltb→lt, lt→ltb, leb→le, le→leb, ==_iff, Bool-cases,
  Option-cases, length, get_elem?, set, take, drop, All, length-append, set-append, take-append,
  drop-append, All-append, Run, done, panic, ◌>>=◌, ◌>>◌, assert, unwrap, Returns, >>=-eq-done,
  Run-cases,
}
use Prim.Native.String.{String}
use text.Mathlib.Text.{◌==◌ as str_eq}
use wasm_kernel.Cmdline.Lexer.{
  Token, open_brace, closed_brace, open_paren, closed_paren, comma, colon, eof, identifier,
  ErrorCode, unknown_field, unknown_flag_field, unknown_enumerator, unknown_flag, expected_token,
  ParseError, SpannedToken, Span, Lexeme, Lexer, Parse, ok, err, panicked, out_of_fuel, Parser,
  ◌>>>◌, make_error, start, next, peek, unwrap_ident, token_eq, expect, block_loop, parse_block,
}
use wasm_kernel.Cmdline.Parse.{parse_bool, parse_unsigned_int, Flags, parse_flags, flags_loop}

-- A field of a struct with named fields: one of type `bool`, or one with a parser of its own.
pub data Field (S : Type 0) : Type 0 where
  flag_field : String → (Bool → S → S) → Field S
  field : String → Parser S → Field S

-- The parser of a part of a struct, run on the part.
unfoldable pub on_part : {S A : Type 0} → (S → A) → (A → S → S) → Parser A → Parser S
on_part get set parse s l = parse (get s) l >>> λ a l'. ok (set a s) l'

abbrev pub field_name : {S : Type 0} → Field S → String
field_name (flag_field name set) = name
field_name (field name parse) = name

abbrev pub has_flags : {S : Type 0} → List (Field S) → Bool
has_flags [] = false
has_flags (flag_field name set ∷ rest) = true
has_flags (field name parse ∷ rest) = has_flags rest

abbrev pub flag_names : {S : Type 0} → List (Field S) → List String
flag_names [] = []
flag_names (flag_field name set ∷ rest) = name ∷ flag_names rest
flag_names (field name parse ∷ rest) = flag_names rest

-- The match of the `bool_handler` on a name behind `!`, which sets the field to false.
unfoldable pub clear_flag : {S : Type 0} → List (Field S) → String → S → Option S
clear_flag [] id s = none
clear_flag (flag_field name set ∷ rest) id s =
    if str_eq id name then some (set false s) else clear_flag rest id s
clear_flag (field name parse ∷ rest) id s = clear_flag rest id s

abbrev pub cleared : {S : Type 0} → List (Field S) → SpannedToken → Option S → Lexer → Parse S
cleared fields field_tok none l = make_error field_tok (unknown_flag_field (flag_names fields))
cleared fields field_tok (some s) l = ok s l

-- The `bool_handler`, generated where the struct has a field of type `bool`.
unfoldable pub bool_handler : {S : Type 0} → List (Field S) → SpannedToken → Parser S
bool_handler fields field_tok s l =
    if has_flags fields && token_eq field_tok.tok Token.not
    then (next l >>> λ t l1.
        (unwrap_ident t l1 >>> λ id l2. cleared fields field_tok (clear_flag fields id s) l2))
    else ok s l

-- One arm of the `main_handler`.
unfoldable pub run_field : {S : Type 0} → Field S → Parser S
run_field (flag_field name set) s l =
    if token_eq (peek l) colon
    then (next l >>> λ t l1. (parse_bool false l1 >>> λ b l2. ok (set b s) l2))
    else ok (set true s) l
run_field (field name parse) s l = expect colon l >>> λ u l1. parse s l1

unfoldable pub find_field : {S : Type 0} → String → List (Field S) → Option (Field S)
find_field id [] = none
find_field id (f ∷ rest) = if str_eq id (field_name f) then some f else find_field id rest

abbrev pub chosen : {S : Type 0} → List (Field S) → SpannedToken → Option (Field S) → Parser S
chosen fields field_tok none s l = make_error field_tok (unknown_field (map field_name fields))
chosen fields field_tok (some f) s l = run_field f s l

-- The handler that `handle_named_struct` gives to `parse_block`.
unfoldable pub field_handler : {S : Type 0} → List (Field S) → Parser S
field_handler fields s l = next l >>> λ field_tok l1.
    (bool_handler fields field_tok s l1 >>> λ s' l2.
    (unwrap_ident field_tok l2 >>> λ id l3. chosen fields field_tok (find_field id fields) s' l3))

-- `handle_named_struct`
unfoldable pub parse_named : {S : Type 0} → List (Field S) → Parser S
parse_named fields s l =
    expect open_brace l >>> λ u l1. parse_block closed_brace comma (field_handler fields) s l1

-- `handle_unnamed_struct`: its entries, each the parser of a part. Behind the last entry a comma ends
-- the struct like a closing parenthesis does.
unfoldable pub unnamed_entries : {S : Type 0} → List (Parser S) → Parser S
unnamed_entries [] s l = ok s l
unnamed_entries (entry ∷ rest) s l =
    (if token_eq (peek l) (identifier "_") then (next l >>> λ t l1. ok s l1) else entry s l)
    >>> λ s' l2.
        if token_eq (peek l2) comma
        then (next l2 >>> λ t l3. unnamed_entries rest s' l3)
        else (expect closed_paren l2 >>> λ u l3. ok s' l3)

unfoldable pub parse_unnamed : {S : Type 0} → List (Parser S) → Parser S
parse_unnamed entries s l = expect open_paren l >>> λ u l1.
    if token_eq (peek l1) closed_paren
    then (next l1 >>> λ t l2. ok s l2)
    else unnamed_entries entries s l1

unfoldable pub find_variant : {S : Type 0} → String → List (String × S) → Option S
find_variant id [] = none
find_variant id ((name, v) ∷ rest) = if str_eq id name then some v else find_variant id rest

abbrev pub variant_names : {S : Type 0} → List (String × S) → List String
variant_names [] = []
variant_names ((name, v) ∷ rest) = name ∷ variant_names rest

abbrev pub variant : {S : Type 0} → List (String × S) → SpannedToken → Option S → Lexer → Parse S
variant variants id_tok none l = make_error id_tok (unknown_enumerator (variant_names variants))
variant variants id_tok (some v) l = ok v l

-- `handle_enum`, for variants with no fields, under their names in lower case.
unfoldable pub parse_enum : {S : Type 0} → List (String × S) → Parser S
parse_enum variants s l = next l >>> λ id_tok l1.
    (unwrap_ident id_tok l1 >>> λ id l2. variant variants id_tok (find_variant id variants) l2)
