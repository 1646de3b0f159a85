-- ===== src/Cmdline/Options/Kept.antt =====
-- src/cmdline/mod.rs: what no command line changes.
use wasm_kernel.Base.{
  Run-cases, [], ◌∷◌, refl, Option, none, some, List, Run, panic, ℕ, ◌≡◌, inl, inr, arith,
  Bool-cases, done,
}
use text.Mathlib.Text.{◌==◌ as str_eq}
use wasm_kernel.Cmdline.Number.{parse_int}
use wasm_kernel.Cmdline.Lexer.{
  token, number_slice, unmatched, read, ◌>>>◌, Lexeme, Span, colon, eof, Parse, ok, err, panicked,
  out_of_fuel, start, next, unwrap_ident, expect,
}
use wasm_kernel.Cmdline.Parse.{remaining, parse_unsigned_int, Flags, parse_flags}
use wasm_kernel.Cmdline.Parse.NoFlags.{Gives}
use wasm_kernel.Cmdline.Parse.Within.{
  Within, Preserves, Within-step, next-Within, unwrap_ident-Within, expect-Within,
  parse_unsigned_int-Within, parse_flags-Within,
}
use wasm_kernel.Cmdline.Derive.Preserves.{
  parse_block-Preserves, parse_named-Preserves, parse_unnamed-Preserves, on_part-Preserves,
  parse_enum-Preserves,
}
use wasm_kernel.Cmdline.Options.{
  LogMode, SerialOptions, FramebufferOptions, LogOptions, KernelCmdline, parse_log_level,
  parse_log_mode, parse_serial, parse_framebuffer, parse_format, parse_logging, kernel_handler,
  parse_kernel, default_options, CmdlineState, Response, missing, not_utf8, cmdline, settle,
  parse_text, parse_kernel_cmdline,
}

-- The sources of the two log modes.
abbrev pub HasSources : ℕ → ℕ → LogOptions → Type 0
HasSources a b s = (s.serial.mode.source ≡ a) × (s.fb.mode.source ≡ b)

-- The first token takes no fuel.
start-Gives :
    (lexemes : List (Lexeme × Span)) (end_span : Span)
    → Gives (start lexemes end_span) (λ u l. Unit {0})
unfolding start read
start-Gives [] end_span = tt
start-Gives ((token t, span) ∷ rest) end_span = tt
start-Gives ((number_slice slice, span) ∷ rest) end_span = elim (Run-cases (parse_int slice)) [
  | inl e ↦ rw e tt
  | inr (n, e) ↦ rw e tt
]
start-Gives ((unmatched, span) ∷ rest) end_span = tt

log_level-Preserves : Preserves (λ x. Unit {0}) parse_log_level
unfolding parse_log_level
log_level-Preserves = parse_enum-Preserves _

module _ (sources : Flags ℕ) where
  format-Preserves : Preserves (λ x. Unit {0}) (parse_format sources)
  unfolding parse_format
  format-Preserves =
      parse_named-Preserves (λ x. Unit {0}) _
        (λ b s p. tt, (λ b s p. tt, (λ b s p. tt, (λ b s p. tt, tt))))

  log_mode-Preserves : (a : ℕ) → Preserves (λ m. m.source ≡ a) (parse_log_mode sources)
  unfolding parse_log_mode
  log_mode-Preserves a =
      parse_unnamed-Preserves (λ (m : LogMode). m.source ≡ a) _
        (
          on_part-Preserves _ (λ x. Unit {0}) _ _ parse_log_level log_level-Preserves (λ s p. tt)
              (λ x s q p. p),
          (
            on_part-Preserves _ (λ x. x ≡ a) _ _ (parse_flags sources)
                (parse_flags-Within sources (λ x. x ≡ a)) (λ s p. p) (λ x s q p. q),
            (
              on_part-Preserves _ (λ x. Unit {0}) _ _ parse_log_level log_level-Preserves
                  (λ s p. tt) (λ x s q p. p),
              tt,
            ),
          ),
        )

  serial-Preserves : (a : ℕ) → Preserves (λ s. s.mode.source ≡ a) (parse_serial sources)
  unfolding parse_serial
  serial-Preserves a =
      parse_named-Preserves (λ (s : SerialOptions). s.mode.source ≡ a) _
        (
          λ b s p. p,
          (
            on_part-Preserves _ (λ x. Unit {0}) _ _ (parse_unsigned_int 16)
                (parse_unsigned_int-Within 16) (λ s p. tt) (λ x s q p. p),
            (
              on_part-Preserves _ (λ m. m.source ≡ a) _ _ (parse_log_mode sources)
                  (log_mode-Preserves a) (λ s p. p) (λ x s q p. q),
              tt,
            ),
          ),
        )

  fb-Preserves : (a : ℕ) → Preserves (λ s. s.mode.source ≡ a) (parse_framebuffer sources)
  unfolding parse_framebuffer
  fb-Preserves a =
      parse_named-Preserves (λ (s : FramebufferOptions). s.mode.source ≡ a) _
        (
          on_part-Preserves _ (λ m. m.source ≡ a) _ _ (parse_log_mode sources)
              (log_mode-Preserves a) (λ s p. p) (λ x s q p. q),
          tt,
        )

  logging-Preserves : (a b : ℕ) → Preserves (HasSources a b) (parse_logging sources)
  unfolding parse_logging
  logging-Preserves a b = parse_named-Preserves (HasSources a b) _ (
    on_part-Preserves _ (λ s. s.mode.source ≡ a) _ _ (parse_serial sources) (serial-Preserves a)
        (λ s p. p.0) (λ x s q p. (q, p.1)),
    (
      on_part-Preserves _ (λ s. s.mode.source ≡ b) _ _ (parse_framebuffer sources) (fb-Preserves b)
          (λ s p. p.1) (λ x s q p. (p.0, q)),
      (
        on_part-Preserves _ (λ x. Unit {0}) _ _ (parse_format sources) format-Preserves (λ s p. tt)
            (λ x s q p. p),
        tt,
      ),
    ),
  )

  handler-Preserves : (a b : ℕ) → Preserves (λ s. HasSources a b s.logging) (kernel_handler sources)
  unfolding kernel_handler
  handler-Preserves a b s l n r p = Within-step _ _ n (next l) _ (next-Within l n r) (λ tok l1 r1 u.
      Within-step _ _ n (unwrap_ident tok l1) _ (unwrap_ident-Within tok l1 n r1) (λ id l2 r2 v.
        elim (Bool-cases (str_eq id "logging")) [
          | inl e ↦ rw e (
              Within-step _ _ n (expect colon l2) _ (expect-Within colon l2 n r2) (λ w l3 r3 y.
                on_part-Preserves (λ s. HasSources a b s.logging) (HasSources a b) _ _
                  (parse_logging sources) (logging-Preserves a b) (λ s p. p) (λ x s q p. q) s l3 n
                  r3 p))
          | inr e ↦ rw e tt
        ]))

  kernel-Preserves : (a b : ℕ) → Preserves (λ s. HasSources a b s.logging) (parse_kernel sources)
  unfolding parse_kernel
  kernel-Preserves a b =
      parse_block-Preserves (λ (s : KernelCmdline). HasSources a b s.logging) eof
        (kernel_handler sources) (handler-Preserves a b)

  -- The code ends, by a panic or in a state with all sources on.
  abbrev pub EndsWithSources : Option (Run CmdlineState) → Type 0
  EndsWithSources none = ⊥
  EndsWithSources (some panic) = Unit
  EndsWithSources (some (done self)) = HasSources 15 15 self.state.logging

  settled :
      (self : CmdlineState) (n : ℕ) (m : Parse KernelCmdline)
      → Within (λ s. HasSources 15 15 s.logging) n m
      → EndsWithSources (settle self m)
  unfolding default_options
  settled self n (ok s l) h = h.0
  settled self n (err x) h = (refl, refl)
  settled self n panicked h = tt
  settled self n out_of_fuel h = h

  started :
      (self : CmdlineState) (m : Parse (Unit {0}))
      → Gives m (λ u l. Unit {0})
      → HasSources 15 15 self.state.logging
      → EndsWithSources (settle self (m >>> λ u l. parse_kernel sources self.state l))
  started self (ok u l) g h =
      settled self (remaining l) _
        (kernel-Preserves 15 15 self.state l (remaining l) (omega arith) h)
  started self (err e) g h = unfold default_options in (refl, refl)
  started self panicked g h = tt
  started self out_of_fuel g h = g

  -- No response of the boot loader changes the log sources: where they are all on before the command
  -- line is read, as in the default options, reading it ends, and if not by a panic then with all of
  -- them on, whatever it says.
  pub parse_kernel_cmdline-sources :
      (r : Response) (self : CmdlineState)
      → HasSources 15 15 self.state.logging
      → EndsWithSources (parse_kernel_cmdline sources r self)
  unfolding parse_kernel_cmdline parse_text
  parse_kernel_cmdline-sources missing self h = h
  parse_kernel_cmdline-sources not_utf8 self h = h
  parse_kernel_cmdline-sources (cmdline lexemes end_span) self h =
      started self (start lexemes end_span) (start-Gives lexemes end_span) h
