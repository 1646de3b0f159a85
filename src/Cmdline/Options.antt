-- ===== src/Cmdline/Options.antt =====
-- src/cmdline/mod.rs and src/log/options.rs: the options of the kernel, and the command line that sets
-- them.
pub mod Kept
use wasm_kernel.Base.{
  ℕ, zero, suc, ◌+◌, ◌-◌, ◌*◌, ◌/◌, ◌%◌, ◌^◌, ◌≤◌, ◌<◌, max, ◌≡◌, refl, sym, ap, ◌∙◌, fun_ext, ◌≢◌,
  ◌↔◌, ◌⊎◌, inl, inr, Bool, true, false, ◌&&◌, ◌||◌, Option, none, some, List, [], ◌∷◌, ◌++◌, map,
  arith, ltb, leb, ◌==◌, if◌then◌else◌, ltb→lt, lt→ltb, leb→le, le→leb, ==_iff, Bool-cases,
  Option-cases, length, get_elem?, set, take, drop, All, length-append, set-append, take-append,
  drop-append, All-append, Run, done, panic, ◌>>=◌, ◌>>◌, assert, unwrap, Returns, >>=-eq-done,
  Run-cases,
}
use Prim.Native.String.{String}
use text.Mathlib.Text.{◌==◌ as str_eq}
use wasm_kernel.Cmdline.Lexer.{
  Token, open_brace, closed_brace, open_paren, closed_paren, comma, colon, eof, identifier,
  ErrorCode, unknown_field, unknown_flag_field, unknown_enumerator, unknown_flag, expected_token,
  ParseError, SpannedToken, Span, Lexeme, Lexer, Parse, ok, err, panicked, out_of_fuel, Parser,
  ◌>>>◌, make_error, start, next, peek, unwrap_ident, token_eq, expect, block_loop, parse_block,
}
use wasm_kernel.Cmdline.Parse.{parse_bool, parse_unsigned_int, Flags, parse_flags, flags_loop}
use wasm_kernel.Cmdline.Derive.{
  Field, flag_field, field, on_part, parse_named, parse_unnamed, parse_enum,
}

-- `LogLevel`
pub data LogLevel : Type 0 where
  error warn info debug trace : LogLevel

-- `LogMode(pub LogLevel, pub LogSource, pub LogLevel)`
pub record LogMode : Type 0 where
  pub first : LogLevel
  pub source : ℕ
  pub second : LogLevel

pub record SerialOptions : Type 0 where
  pub enable : Bool
  pub port : ℕ
  pub mode : LogMode

pub record FramebufferOptions : Type 0 where
  pub mode : LogMode

pub record FormatOptions : Type 0 where
  pub level : Bool
  pub target : Bool
  pub mod_path : Bool
  pub src : Bool

pub record LogOptions : Type 0 where
  pub serial : SerialOptions
  pub fb : FramebufferOptions
  pub options : FormatOptions

-- `KernelCmdline`
pub record KernelCmdline : Type 0 where
  pub logging : LogOptions

unfoldable pub parse_log_level : Parser LogLevel
parse_log_level =
    parse_enum (
      ("error", error) ∷ ("warn", warn) ∷ ("info", info) ∷ ("debug", debug) ∷ ("trace", trace) ∷ [])

-- `LogSource::all()`
abbrev pub all_sources : ℕ
all_sources = 15

abbrev default_mode : LogMode
default_mode = record { first = info; source = all_sources; second = warn }

-- `DEFAULT_OPTIONS`
unfoldable pub default_options : KernelCmdline
default_options = record {
  logging = record {
    serial = record { enable = false; port = 0x3f8; mode = default_mode };
    fb = record { mode = default_mode };
    options = record { level = true; target = true; mod_path = false; src = false };
  };
}

-- `CmdlineLexer::parse`
unfoldable pub parse_text : {A : Type 0} → Parser A → List (Lexeme × Span) → Span → A → Parse A
parse_text parse lexemes end_span out = start lexemes end_span >>> λ u l. parse out l

-- The generated parsers, over the flags of `LogSource` as the crate bitflags builds them.
module _ (sources : Flags ℕ) where
  unfoldable pub parse_log_mode : Parser LogMode
  parse_log_mode = parse_unnamed (
      on_part (λ m. m.first) (λ x m. record m { first = x }) parse_log_level
      ∷ on_part (λ m. m.source) (λ x m. record m { source = x }) (parse_flags sources)
      ∷ on_part (λ m. m.second) (λ x m. record m { second = x }) parse_log_level
      ∷ [])

  unfoldable pub parse_serial : Parser SerialOptions
  parse_serial = parse_named (
      flag_field "enable" (λ b s. record s { enable = b })
      ∷ field "port" (on_part (λ s. s.port) (λ x s. record s { port = x }) (parse_unsigned_int 16))
      ∷ field "mode" (on_part (λ s. s.mode) (λ x s. record s { mode = x }) parse_log_mode)
      ∷ [])

  unfoldable pub parse_framebuffer : Parser FramebufferOptions
  parse_framebuffer =
      parse_named
        (field "mode" (on_part (λ s. s.mode) (λ x s. record s { mode = x }) parse_log_mode) ∷ [])

  unfoldable pub parse_format : Parser FormatOptions
  parse_format = parse_named (
      flag_field "level" (λ b s. record s { level = b })
      ∷ flag_field "target" (λ b s. record s { target = b })
      ∷ flag_field "mod_path" (λ b s. record s { mod_path = b })
      ∷ flag_field "src" (λ b s. record s { src = b })
      ∷ [])

  unfoldable pub parse_logging : Parser LogOptions
  parse_logging = parse_named (
      field "serial" (on_part (λ s. s.serial) (λ x s. record s { serial = x }) parse_serial)
      ∷ field "fb" (on_part (λ s. s.fb) (λ x s. record s { fb = x }) parse_framebuffer)
      ∷ field "options" (on_part (λ s. s.options) (λ x s. record s { options = x }) parse_format)
      ∷ [])

  -- The handler that `KernelCmdline::parse` gives to `parse_block`.
  unfoldable pub kernel_handler : Parser KernelCmdline
  kernel_handler self l = next l >>> λ tok l1.
      (unwrap_ident tok l1 >>> λ id l2.
      if str_eq id "logging"
      then (expect colon l2 >>> λ u l3.
          on_part (λ s. s.logging) (λ x s. record s { logging = x }) parse_logging self l3)
      else make_error tok (unknown_flag ("logging" ∷ [])))

  unfoldable pub parse_kernel : Parser KernelCmdline
  parse_kernel = parse_block eof comma kernel_handler

-- `CmdlineError`
pub data CmdlineError : Type 0 where
  no_response utf8_error : CmdlineError
  parse_error : ParseError → CmdlineError

-- `CMDLINE_STATE` and `CMDLINE_ERROR`
pub record CmdlineState : Type 0 where
  pub state : KernelCmdline
  pub error : Option CmdlineError

-- The response of the boot loader: none, no UTF-8, or a text, here with its lexemes.
pub data Response : Type 0 where
  missing not_utf8 : Response
  cmdline : List (Lexeme × Span) → Span → Response

-- `CMDLINE_ERROR.call_once`, which keeps an error that is there.
abbrev pub call_once : Option CmdlineError → CmdlineError → Option CmdlineError
call_once none e = some e
call_once (some old) e = some old

-- What becomes of the state: none is the model's fuel used up, which no response comes to.
abbrev pub settle : CmdlineState → Parse KernelCmdline → Option (Run CmdlineState)
settle self (ok s l) = some (done (record self { state = s }))
settle self (err e) =
    some (done (record { state = default_options; error = call_once self.error (parse_error e) }))
settle self panicked = some panic
settle self out_of_fuel = none

unfoldable pub parse_kernel_cmdline : Flags ℕ → Response → CmdlineState → Option (Run CmdlineState)
parse_kernel_cmdline sources missing self =
    some (done (record self { error = call_once self.error no_response }))
parse_kernel_cmdline sources not_utf8 self =
    some (done (record self { error = call_once self.error utf8_error }))
parse_kernel_cmdline sources (cmdline lexemes end_span) self =
    settle self (parse_text (parse_kernel sources) lexemes end_span self.state)
