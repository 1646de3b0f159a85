-- ===== src/Tests/CommandLine.antt =====
-- Runs of the command line's parsers.
use wasm_kernel.Base.{
  List, ℕ, ◌≡◌, refl, true, none, [], ◌∷◌, ◌++◌, arith, ltb, if◌then◌else◌, done, panic,
}
use wasm_kernel.Base.Int.{pos}
use text.Mathlib.Text.{◌==◌ as str_eq}
use wasm_kernel.Cmdline.Number.{
  i64_limit, parse_int, value, decimal, radix_of, minus, prefix, signed, parse_int-value, to_digit,
}
use wasm_kernel.Cmdline.Lexer.{
  colon, open_brace, closed_brace, number, token, Token, comma, identifier, Span, Lexeme, Lexer,
}
use wasm_kernel.Cmdline.Parse.{Flags, parse_flags}
use wasm_kernel.Cmdline.Parse.NoFlags.{Fails, parse_flags-Fails}
use wasm_kernel.Cmdline.Derive.{flag_field, field_handler}
use wasm_kernel.Cmdline.Derive.Keeps.{Keeps, field_handler-not}
use wasm_kernel.Cmdline.Options.{default_options, parse_kernel_cmdline, CmdlineState, cmdline}
use wasm_kernel.Cmdline.Options.Kept.{EndsWithSources, parse_kernel_cmdline-sources}

-- The literal `-10`.
parse_int-value_example : parse_int (minus true ++ (prefix decimal ++ b'1' ∷ b'0' ∷ [])) ≡ (
    if ltb (value (radix_of decimal) 0 (1 ∷ 0 ∷ [])) i64_limit
    then done (signed true (value (radix_of decimal) 0 (1 ∷ 0 ∷ [])))
    else panic)
parse_int-value_example =
    parse_int-value decimal true (b'1' ∷ b'0' ∷ []) (1 ∷ 0 ∷ [])
      (unfold to_digit in (refl, (refl, tt))) (λ h. omega (arith, h))

abbrev span : Span
span = record { from = 0; to = 1 }

-- A lexer at a token, with the text `all` behind it.
abbrev lexer_at : Token → Lexer
lexer_at t = record {
  ahead = (Lexeme.token (identifier "all"), span) ∷ [];
  end_span = span;
  current = record { tok = t; span = span };
}

abbrev sources : Flags ℕ
sources = record {
  flags = ("ALL", 15) ∷ [];
  same_name = str_eq;
  insert = λ flag a. flag;
  remove = λ flag a. 0;
}

parse_flags-Fails_example : Fails (parse_flags sources 15 (lexer_at (identifier "ALL")))
parse_flags-Fails_example = parse_flags-Fails sources 15 (lexer_at (identifier "ALL"))

field_handler-not_example :
    Keeps (λ s'. ⊥) (field_handler (flag_field "all" (λ b s. b) ∷ []) true (lexer_at Token.not))
field_handler-not_example =
    field_handler-not (flag_field "all" (λ b s. b) ∷ []) true (lexer_at Token.not) refl

abbrev booted : CmdlineState
booted = record { state = default_options; error = none }

-- The text `logging:{serial:{enable,port:7}}`.
abbrev words : List Token → List (Lexeme × Span)
words [] = []
words (t ∷ ts) = (token t, span) ∷ words ts

abbrev logging_text : List (Lexeme × Span)
logging_text = words (
    identifier "logging"
    ∷ colon
    ∷ open_brace
    ∷ identifier "serial"
    ∷ colon
    ∷ open_brace
    ∷ identifier "enable"
    ∷ comma
    ∷ identifier "port"
    ∷ colon
    ∷ number (pos 7)
    ∷ closed_brace
    ∷ closed_brace
    ∷ [])

parse_kernel_cmdline-sources_example :
    EndsWithSources sources (parse_kernel_cmdline sources (cmdline logging_text span) booted)
parse_kernel_cmdline-sources_example =
    parse_kernel_cmdline-sources sources (cmdline logging_text span) booted
      (unfold default_options in (refl, refl))
