-- ===== src/Cmdline/Lexer.antt =====
-- src/cmdline/lexer.rs: tokens, errors and `CmdlineLexer`, over the lexemes that the crate logos cuts
-- the text into by the patterns of the token.
use wasm_kernel.Base.{
  ℕ, zero, suc, ◌+◌, Bool, true, false, List, [], ◌∷◌, ◌==◌, if◌then◌else◌, length, Run, done,
  panic,
}
use Prim.Native.String.{String}
use text.Mathlib.Text.{◌==◌ as str_eq}
use wasm_kernel.Base.Int.{ℤ, pos, negsuc}
use wasm_kernel.Cmdline.Number.{parse_int}

-- `CmdlineTokenData`
pub data Token : Type 0 where
  comma colon open_brace closed_brace not or open_paren closed_paren : Token
  identifier : String → Token
  number : ℤ → Token
  eof : Token

-- The derived `PartialEq`
abbrev pub int_eq : ℤ → ℤ → Bool
int_eq (pos a) (pos b) = a == b
int_eq (negsuc a) (negsuc b) = a == b
int_eq _ _ = false

abbrev pub token_eq : Token → Token → Bool
token_eq comma comma = true
token_eq colon colon = true
token_eq open_brace open_brace = true
token_eq closed_brace closed_brace = true
token_eq not not = true
token_eq or or = true
token_eq open_paren open_paren = true
token_eq closed_paren closed_paren = true
token_eq (identifier s) (identifier t) = str_eq s t
token_eq (number a) (number b) = int_eq a b
token_eq eof eof = true
token_eq _ _ = false

-- `Range<usize>`
pub record Span : Type 0 where
  pub from : ℕ
  pub to : ℕ

-- `CmdlineErrorCode`
pub data ErrorCode : Type 0 where
  expected_token : Token → Token → ErrorCode
  unknown_field unknown_flag_field unknown_enumerator unknown_flag : List String → ErrorCode
  bad_token : ErrorCode
  bad_boolean bad_int : Token → ErrorCode

-- `CmdlineParseError`
pub record ParseError : Type 0 where
  pub code : ErrorCode
  pub at : Span

-- What logos finds next: a token, the slice of a number, or no token at all.
pub data Lexeme : Type 0 where
  token : Token → Lexeme
  number_slice : List ℕ → Lexeme
  unmatched : Lexeme

-- `CmdlineToken`
pub record SpannedToken : Type 0 where
  pub tok : Token
  pub span : Span

-- `CmdlineLexer`: the lexemes ahead, the span at the end of the text, and the current token.
pub record Lexer : Type 0 where
  pub ahead : List (Lexeme × Span)
  pub end_span : Span
  pub current : SpannedToken

-- How a parser ends: with a value and the lexer after it, with an error, with a panic, or, in the
-- model alone, with the fuel of a loop used up.
pub data Parse {ℓ} (A : Type ℓ) : Type ℓ where
  ok : A → Lexer → Parse A
  err : ParseError → Parse A
  panicked : Parse A
  out_of_fuel : Parse A

-- A parser of a value that is there already, as `CmdlineParsable::parse` writes through `&mut self`.
-- What an error leaves half written is not used: the caller drops or resets it.
abbrev pub Parser : Type 0 → Type 0
Parser A = A → Lexer → Parse A

infixl 5 ◌>>>◌
abbrev pub ◌>>>◌ {ℓ κ} : {A : Type ℓ} {B : Type κ} → Parse A → (A → Lexer → Parse B) → Parse B
ok a l >>> f = f a l
err e >>> f = err e
panicked >>> f = panicked
out_of_fuel >>> f = out_of_fuel

-- `make_error`
abbrev pub make_error {ℓ} : {A : Type ℓ} → SpannedToken → ErrorCode → Parse A
make_error tok code = err (record { code = code; at = tok.span })

-- The callback of a number gives its value, or panics.
abbrev pub number_token : Run ℤ → Span → Lexer → Parse SpannedToken
number_token (done n) span l = ok (record { tok = number n; span = span }) l
number_token panic span l = panicked

abbrev pub lexeme_token : Lexeme → Span → Lexer → Parse SpannedToken
lexeme_token (token t) span l = ok (record { tok = t; span = span }) l
lexeme_token (number_slice slice) span l = number_token (parse_int slice) span l
lexeme_token unmatched span l = err (record { code = bad_token; at = span })

-- The next lexeme as a token: `self.lexer.next()` and the span, with `Eof` at the end of the text.
abbrev pub read_from : List (Lexeme × Span) → Lexer → Parse SpannedToken
read_from [] l = ok (record { tok = eof; span = l.end_span }) l
read_from ((lexeme, span) ∷ rest) l = lexeme_token lexeme span (record l { ahead = rest })

unfoldable pub read : Lexer → Parse SpannedToken
read self = read_from self.ahead self

-- `CmdlineLexer::new`: the first token becomes the current one.
unfoldable pub start : List (Lexeme × Span) → Span → Parse (Unit {0})
unfolding read
start lexemes end_span =
    read (record {
      ahead = lexemes;
      end_span = end_span;
      current = record { tok = eof; span = end_span };
    })
    >>> λ t l. ok tt (record l { current = t })

-- `CmdlineLexer::next`: the current token, and the one behind it becomes current.
unfoldable pub next : Lexer → Parse SpannedToken
unfolding read
next self = read self >>> λ t l. ok self.current (record l { current = t })

-- `CmdlineLexer::peek`, of which the callers read the token.
abbrev pub peek : Lexer → Token
peek self = self.current.tok

-- `unwrap_ident`
unfoldable pub unwrap_ident : SpannedToken → Lexer → Parse String
unwrap_ident t l = elim t.tok [
  | identifier id ↦ ok id l
  | other ↦ make_error t (expected_token other (identifier "*"))
]

unfoldable pub expect : Token → Lexer → Parse (Unit {0})
unfolding next
expect tok self = next self >>> λ t l.
    if token_eq t.tok tok then ok tt l else make_error t (expected_token t.tok tok)

-- The loop of `parse_block`. Each round but the last reads a delimiter, so the tokens that are left
-- are fuel enough for a handler that reads no more of them than there are.
unfoldable pub block_loop {ℓ} :
    {A : Type ℓ} → ℕ → Token → (A → Lexer → Parse A) → A → Lexer → Parse A
unfolding next
block_loop zero delimiter handler a l = out_of_fuel
block_loop (suc fuel) delimiter handler a l = handler a l >>> λ a' l'.
    elim (token_eq (peek l') delimiter) [
      | true ↦ next l' >>> λ t l''. block_loop fuel delimiter handler a' l''
      | false ↦ ok a' l'
    ]

unfoldable pub parse_block {ℓ} :
    {A : Type ℓ} → Token → Token → (A → Lexer → Parse A) → A → Lexer → Parse A
unfolding block_loop expect
parse_block end_tok delimiter handler a l =
    (if token_eq (peek l) end_tok
      then ok a l
      else block_loop (length l.ahead + 2) delimiter handler a l)
    >>> λ a' l'. (expect end_tok l' >>> λ u l''. ok a' l'')
