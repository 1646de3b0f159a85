-- ===== src/Modules/Load.antt =====
-- src/modules/mod.rs: a symbol file that the boot loader has loaded, and what the kernel finds in it.
use wasm_kernel.Base.{ℕ, some, List, [], ◌∷◌}
use wasm_kernel.Cmdline.Lexer.{identifier, Span, token}
use wasm_kernel.Modules.{Module}

-- A module with the command line `symbols`.
abbrev pub symbol_file : Span → Span → List ℕ → Module
symbol_file span end_span bytes = record {
  string = some ((token (identifier "symbols"), span) ∷ [], end_span);
  bytes = bytes;
}
