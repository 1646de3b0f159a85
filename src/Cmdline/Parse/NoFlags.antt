-- ===== src/Cmdline/Parse/NoFlags.antt =====
-- src/cmdline/parse.rs: a set of flags can be read from no command line.
use wasm_kernel.Base.{
  ℕ, zero, suc, ◌+◌, ◌≤◌, ◌<◌, ◌≡◌, refl, inl, inr, Bool, List, [], ◌∷◌, arith, if◌then◌else◌,
  Bool-cases, Option-cases, length, Run-cases,
}
use wasm_kernel.Cmdline.Number.{parse_int}
use wasm_kernel.Cmdline.Lexer.{
  Token, Lexeme, Span, Lexer, Parse, ok, err, panicked, out_of_fuel, ◌>>>◌, SpannedToken, next,
  read, peek, unwrap_ident, token_eq, token, number_slice, unmatched, identifier,
}
use wasm_kernel.Cmdline.Parse.{
  Flags, find_flag, remaining, negation, flag_item, flag, flags_loop, parse_flags,
}

-- The parser ends by an error or a panic: neither with a value nor out of fuel.
abbrev pub Fails {ℓ} : {A : Type ℓ} → Parse A → Type 0
Fails (ok a l) = ⊥
Fails (err e) = Unit
Fails panicked = Unit
Fails out_of_fuel = ⊥

-- The result, if there is one, has the property.
abbrev pub Gives {ℓ} : {A : Type ℓ} → Parse A → (A → Lexer → Type 0) → Type 0
Gives (ok a l) P = P a l
Gives (err e) P = Unit
Gives panicked P = Unit
Gives out_of_fuel P = ⊥

-- A token read is a token less.
pub next-remaining :
    (l : Lexer)
    → Gives (next l) (λ t l'.
      (t ≡ l.current) × (remaining l' + (if token_eq t.tok Token.eof then 0 else 1) ≤ remaining l))
unfolding next read
next-remaining l = go l.ahead l.end_span l.current
  where
    go :
        (ahead : List (Lexeme × Span)) (end_span : Span) (cur : SpannedToken)
        → Gives (next (record { ahead = ahead; end_span = end_span; current = cur })) (λ t l'.
          (t ≡ cur)
          × (remaining l' + (if token_eq t.tok Token.eof then 0 else 1)
              ≤ length ahead + (if token_eq cur.tok Token.eof then 0 else 1)))
    go [] end_span cur = (refl, omega arith)
    go ((token t, span) ∷ rest) end_span cur = (refl, ground arith)
    go ((number_slice slice, span) ∷ rest) end_span cur = elim (Run-cases (parse_int slice)) [
      | inl e ↦ rw e tt
      | inr (n, e) ↦ rw e (refl, ground arith)
    ]
    go ((unmatched, span) ∷ rest) end_span cur = tt

-- `Gives` through a bind.
pub Gives-bind {ℓ κ} :
    {A : Type ℓ} {B : Type κ} (P : A → Lexer → Type 0) (Q : B → Lexer → Type 0) (m : Parse A)
    (f : A → Lexer → Parse B)
    → Gives m P
    → ((a : A) (l : Lexer) → P a l → Gives (f a l) Q)
    → Gives (m >>> f) Q
Gives-bind P Q (ok a l) f h k = k a l h
Gives-bind P Q (err e) f h k = tt
Gives-bind P Q panicked f h k = tt
Gives-bind P Q out_of_fuel f h k = h

Fails-bind {ℓ κ} :
    {A : Type ℓ} {B : Type κ} (P : A → Lexer → Type 0) (m : Parse A) (f : A → Lexer → Parse B)
    → Gives m P
    → ((a : A) (l : Lexer) → P a l → Fails (f a l))
    → Fails (m >>> f)
Fails-bind P (ok a l) f h k = k a l h
Fails-bind P (err e) f h k = tt
Fails-bind P panicked f h k = tt
Fails-bind P out_of_fuel f h k = h

module _ {A : Type 0} (table : Flags A) where
  negation-remaining : (l : Lexer) → Gives (negation l) (λ neg l'. remaining l' ≤ remaining l)
  unfolding negation
  negation-remaining l = elim (Bool-cases (token_eq (peek l) Token.not)) [
    | inl h ↦ rw h (Gives-bind _ _ (next l) _ (next-remaining l) (λ t l' p. omega (arith, p.1)))
    | inr h ↦ rw h (omega arith)
  ]

  item-remaining :
      (neg : Bool) (self : A) (n : ℕ) (tok : Token) (span : Span) (l : Lexer)
      → remaining l + (if token_eq tok Token.eof then 0 else 1) ≤ n
      → Gives
          (flag_item table neg self (record { tok = tok; span = span }) l)
          (λ self' l'. remaining l' < n)
  unfolding flag_item unwrap_ident
  item-remaining neg self n (identifier id) span l h =
      elim (Option-cases (find_flag table id table.flags)) [
        | inl e ↦ rw e tt
        | inr (item, e) ↦ rw e (omega arith)
      ]
  item-remaining neg self n _ span l h = tt

  flag-remaining :
      (neg : Bool) (self : A) (l : Lexer)
      → Gives (flag table neg self l) (λ self' l'. remaining l' < remaining l)
  unfolding flag
  flag-remaining neg self l =
      Gives-bind _ _ (next l) _ (next-remaining l)
        (λ t l' p. item-remaining neg self (remaining l) t.tok t.span l' p.1)

  loop-Fails :
      (fuel : ℕ) (self : A) (l : Lexer) → remaining l < fuel → Fails (flags_loop table fuel self l)
  unfolding flags_loop
  loop-Fails zero self l h = elim h [ ]
  loop-Fails (suc fuel) self l h = Fails-bind _ (negation l) _ (negation-remaining l) (λ neg l' p.
      Fails-bind _ (flag table neg self l') _ (flag-remaining neg self l')
        (λ self' l'' q. loop-Fails fuel self' l'' (omega (arith, p, q))))

  -- No text gives a value to a set of flags: the parser ends by an error or a panic on every input,
  -- whatever the flags are.
  pub parse_flags-Fails : (self : A) (l : Lexer) → Fails (parse_flags table self l)
  unfolding parse_flags
  parse_flags-Fails self l = loop-Fails (remaining l + 1) self l (omega arith)
