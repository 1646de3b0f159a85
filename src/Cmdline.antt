-- ===== src/Cmdline.antt =====
-- src/cmdline: the lexer's interface, the parsers of values, and the options of the kernel.
pub mod Number
pub mod Lexer
pub mod Parse
pub mod Derive
pub mod Options
