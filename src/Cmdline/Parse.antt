-- ===== src/Cmdline/Parse.antt =====
-- src/cmdline/parse.rs: the parsers of booleans, integers and flags.
pub mod NoFlags
pub mod Within
use wasm_kernel.Base.{
  ℕ, zero, suc, ◌+◌, ◌-◌, ◌*◌, ◌/◌, ◌%◌, ◌^◌, ◌≤◌, ◌<◌, max, ◌≡◌, refl, sym, ap, ◌∙◌, fun_ext, ◌≢◌,
  ◌↔◌, ◌⊎◌, inl, inr, Bool, true, false, ◌&&◌, ◌||◌, Option, none, some, List, [], ◌∷◌, ◌++◌, map,
  arith, ltb, leb, ◌==◌, if◌then◌else◌, ltb→lt, lt→ltb, leb→le, le→leb, ==_iff, Bool-cases,
  Option-cases, length, get_elem?, set, take, drop, All, length-append, set-append, take-append,
  drop-append, All-append, Run, done, panic, ◌>>=◌, ◌>>◌, assert, unwrap, Returns, >>=-eq-done,
}
use Prim.Native.String.{String}
use text.Mathlib.Text.{◌==◌ as str_eq}
use wasm_kernel.Base.Int.{ℤ, pos, negsuc}
use wasm_kernel.Cmdline.Lexer.{
  Token, identifier, number, ErrorCode, unknown_flag, bad_boolean, bad_int, SpannedToken, Lexer,
  Parse, ok, err, panicked, out_of_fuel, Parser, ◌>>>◌, make_error, next, peek, unwrap_ident,
  token_eq,
}

-- The match of the boolean's parser on the token.
abbrev pub bool_value : SpannedToken → Token → Lexer → Parse Bool
bool_value t (identifier id) l =
    if str_eq id "true"
    then ok true l
    else if str_eq id "false"
    then ok false l
    else make_error t (bad_boolean (identifier id))
bool_value t (number (pos m)) l = ok (if m == 0 then false else true) l
bool_value t (number (negsuc m)) l = ok true l
bool_value t other l = make_error t (bad_boolean other)

-- `impl CmdlineParsable for bool`
unfoldable pub parse_bool : Parser Bool
parse_bool self l = next l >>> λ t l'. bool_value t t.tok l'

-- The match of an unsigned integer's parser on the token.
abbrev pub unsigned_value : ℕ → SpannedToken → Token → Lexer → Parse ℕ
unsigned_value bits t (number (pos m)) l =
    if ltb m (2 ^ bits) then ok m l else make_error t (bad_int t.tok)
unsigned_value bits t (number (negsuc m)) l = make_error t (bad_int t.tok)
unsigned_value bits t other l = make_error t (bad_int other)

-- `impl_int_parsable!` for an unsigned type of `bits` bits.
unfoldable pub parse_unsigned_int : ℕ → Parser ℕ
parse_unsigned_int bits self l = next l >>> λ t l'. unsigned_value bits t t.tok l'

-- `impl_int_parsable!` for a signed type of `bits` + 1 bits.
unfoldable pub parse_signed_int : ℕ → Parser ℤ
parse_signed_int bits self l = next l >>> λ t l'. elim t.tok [
  | number n ↦ elim n [
    | pos m ↦ if ltb m (2 ^ bits) then ok (pos m) l' else make_error t (bad_int t.tok)
    | negsuc m ↦ if ltb m (2 ^ bits) then ok (negsuc m) l' else make_error t (bad_int t.tok)
  ]
  | other ↦ make_error t (bad_int other)
]

-- A set of flags, as the generated type of the crate bitflags gives it: the named flags, and what a
-- flag does to a value when it is inserted or removed.
pub record Flags (A : Type 0) : Type 0 where
  pub flags : List (String × A)
  pub same_name : String → String → Bool
  pub insert : A → A → A
  pub remove : A → A → A

-- `T::FLAGS.iter().find(…)`, by `eq_ignore_ascii_case`.
unfoldable pub find_flag : {A : Type 0} → Flags A → String → List (String × A) → Option A
find_flag table id [] = none
find_flag table id ((name, value) ∷ rest) =
    if table.same_name name id then some value else find_flag table id rest

-- The tokens that a lexer can still give, before the end of the text.
abbrev pub remaining : Lexer → ℕ
remaining l = length l.ahead + (if token_eq l.current.tok Token.eof then 0 else 1)

-- The start of a round: an optional `!`.
unfoldable pub negation : Lexer → Parse Bool
negation l = if token_eq (peek l) Token.not then (next l >>> λ t l'. ok true l') else ok false l

-- The rest of a round: a flag's name, and the value changed by it.
abbrev pub change : {A : Type 0} → Flags A → Bool → A → SpannedToken → Option A → Lexer → Parse A
change table neg self id_tok none l = make_error id_tok (unknown_flag [])
change table neg self id_tok (some item) l =
    ok (if neg then table.remove self item else table.insert self item) l

unfoldable pub flag_item : {A : Type 0} → Flags A → Bool → A → SpannedToken → Lexer → Parse A
flag_item table neg self id_tok l = unwrap_ident id_tok l >>> λ id l'.
    change table neg self id_tok (find_flag table id table.flags) l'

unfoldable pub flag : {A : Type 0} → Flags A → Bool → Parser A
flag table neg self l = next l >>> λ id_tok l'. flag_item table neg self id_tok l'

-- `impl CmdlineParsable for T: ParsableFlags`: the `loop`, which has no exit but an error.
unfoldable pub flags_loop : {A : Type 0} → Flags A → ℕ → Parser A
flags_loop table zero self l = out_of_fuel
flags_loop table (suc fuel) self l = negation l >>> λ neg l'.
    (flag table neg self l' >>> λ self' l''. flags_loop table fuel self' l'')

unfoldable pub parse_flags : {A : Type 0} → Flags A → Parser A
parse_flags table self l = flags_loop table (remaining l + 1) self l
