-- ===== src/Modules.antt =====
-- src/modules/mod.rs: the modules that the boot loader has loaded, and the global symbols.
pub mod Load
use wasm_kernel.Base.{
  ℕ, Bool, true, false, Option, none, some, List, [], ◌∷◌, Run, done, panic, ◌>>=◌,
}
use wasm_kernel.Symbols.Table.{Str, FunctionEntry, LocationEntry, SymbolModule, parse, symbolize}
use wasm_kernel.Cmdline.Lexer.{Span, Lexeme, Parse, Parser, ok, err, panicked, out_of_fuel}
use wasm_kernel.Cmdline.Derive.{parse_enum}
use wasm_kernel.Cmdline.Options.{parse_text}

pub data ModuleCmdline : Type 0 where
  internal_null symbols : ModuleCmdline

unfoldable pub parse_module_cmdline : Parser ModuleCmdline
unfolding parse_enum
parse_module_cmdline = parse_enum (("internalnull", internal_null) ∷ ("symbols", symbols) ∷ [])

-- A module of the boot loader: its command line, as lexemes and the span at its end, or none where
-- it is no UTF-8, and its bytes. The path is only printed.
pub record Module : Type 0 where
  pub string : Option (List (Lexeme × Span) × Span)
  pub bytes : List ℕ

-- `GLOBAL_SYMBOLS` is none until it is set.
unfoldable pub try_init : SymbolModule → Option SymbolModule → Bool × Option SymbolModule
try_init syms none = (true, some syms)
try_init syms (some old) = (false, some old)

abbrev pub init_with : Option SymbolModule → Option SymbolModule → Option SymbolModule
init_with none global = global
init_with (some syms) global = (try_init syms global).1

-- What is done for the command line of a module. Its parser has no loop, so no fuel.
abbrev pub load_as : Parse ModuleCmdline → List ℕ → Option SymbolModule → Run (Option SymbolModule)
load_as (ok internal_null l) bytes global = done global
load_as (ok symbols l) bytes global = parse bytes >>= λ syms. done (init_with syms global)
load_as (err e) bytes global = done global
load_as panicked bytes global = panic
load_as out_of_fuel bytes global = panic

unfoldable pub load_text :
    Option (List (Lexeme × Span) × Span) → List ℕ → Option SymbolModule → Run (Option SymbolModule)
unfolding parse_text parse_module_cmdline parse try_init
load_text none bytes global = done global
load_text (some (lexemes, end_span)) bytes global =
    load_as (parse_text parse_module_cmdline lexemes end_span internal_null) bytes global

-- The body of the loop over the modules.
unfoldable pub load_module : Module → Option SymbolModule → Run (Option SymbolModule)
unfolding load_text
load_module m global = load_text m.string m.bytes global

unfoldable pub load_modules : List Module → Option SymbolModule → Run (Option SymbolModule)
unfolding load_module
load_modules [] global = done global
load_modules (m ∷ rest) global = load_module m global >>= λ global'. load_modules rest global'

-- `load_modules_early`, with no response or with its modules.
unfoldable pub load_modules_early :
    Option (List Module) → Option SymbolModule → Run (Option SymbolModule)
unfolding load_modules
load_modules_early none global = done global
load_modules_early (some modules) global = load_modules modules global

-- The `symbolize` of the kernel: without symbols it gives no frames.
unfoldable pub symbolize_global :
    (Str → Bool)
    → Option SymbolModule
    → ℕ
    → ℕ
    → Run (Option (List FunctionEntry) × Option LocationEntry)
unfolding symbolize
symbolize_global is_utf8 none addr count = done (none, none)
symbolize_global is_utf8 (some syms) addr count =
    symbolize is_utf8 syms addr count >>= λ (frames, location). done (some frames, location)
