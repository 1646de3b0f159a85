-- ===== src/Cmdline/Derive/Preserves.antt =====
-- proc-macros/src/lib.rs: what the generated parsers keep of a value. They read no more tokens than
-- there are, and their loops never need more steps than the fuel they have.
use wasm_kernel.Base.{
  ℕ, zero, suc, ◌+◌, ◌≤◌, ◌<◌, ◌≡◌, refl, inl, inr, Bool, true, false, ◌&&◌, Option, none, some,
  List, [], ◌∷◌, arith, Bool-cases, length, All,
}
use Prim.Native.String.{String}
use text.Mathlib.Text.{◌==◌ as str_eq}
use wasm_kernel.Cmdline.Lexer.{
  Token, open_brace, closed_brace, open_paren, closed_paren, comma, colon, identifier, number, eof,
  or, SpannedToken, Lexer, ok, Parser, next, peek, unwrap_ident, token_eq, expect, block_loop,
  parse_block,
}
use wasm_kernel.Cmdline.Parse.{remaining, parse_bool}
use wasm_kernel.Cmdline.Parse.NoFlags.{Gives, Gives-bind, next-remaining}
use wasm_kernel.Cmdline.Parse.Within.{
  Within, Preserves, Within-step, Within-if, Gives-mono, next-Within, unwrap_ident-Within,
  expect-Within, parse_bool-Within,
}
use wasm_kernel.Cmdline.Derive.{
  Field, flag_field, field, field_name, has_flags, clear_flag, cleared, bool_handler, run_field,
  find_field, chosen, field_handler, parse_named, unnamed_entries, parse_unnamed, on_part,
  find_variant, variant, parse_enum,
}

comma-not_eof : (t : Token) → token_eq t comma ≡ true → token_eq t eof ≡ false
comma-not_eof comma h = refl
comma-not_eof colon h = refl
comma-not_eof open_brace h = refl
comma-not_eof closed_brace h = refl
comma-not_eof Token.not h = refl
comma-not_eof or h = refl
comma-not_eof open_paren h = refl
comma-not_eof closed_paren h = refl
comma-not_eof (identifier s) h = refl
comma-not_eof (number n) h = refl
comma-not_eof eof h = cc

-- A comma that is read is a token less.
next-less :
    (l : Lexer)
    → token_eq (peek l) comma ≡ true
    → Gives (next l) (λ t l'. suc (remaining l') ≤ remaining l)
next-less l h = Gives-mono _ _ (next l) (next-remaining l) (λ t l' r.
    let same : token_eq t.tok eof ≡ false = rw (r.0) (comma-not_eof (peek l) h) in
    ground (arith, r.1, same))

module _ {S : Type 0} (P : S → Type 0) where
  block_loop-Preserves :
      (handler : Parser S)
      → Preserves P handler
      → (fuel : ℕ) (s : S) (l : Lexer) (n : ℕ) → remaining l ≤ n
      → remaining l < fuel
      → P s
      → Within P n (block_loop fuel comma handler s l)
  unfolding block_loop
  block_loop-Preserves handler h zero s l n r f p = absurd (omega (arith, f))
  block_loop-Preserves handler h (suc fuel) s l n r f p =
      Gives-bind _ _ (handler s l) _ (h s l (remaining l) (omega arith) p) (λ s' l1 q.
        elim (Bool-cases (token_eq (peek l1) comma)) [
          | inl e ↦ rw e (
              Gives-bind _ _ (next l1) _ (next-less l1 e) (λ t l2 less.
                block_loop-Preserves handler h fuel s' l2 n (omega (arith, less, q.1, r))
                  (omega (arith, less, q.1, f)) q.0))
          | inr e ↦ rw e (q.0, omega (arith, q.1, r))
        ])

  -- What the handler keeps, the block keeps, and its loop ends.
  pub parse_block-Preserves :
      (end_tok : Token) (handler : Parser S)
      → Preserves P handler
      → Preserves P (parse_block end_tok comma handler)
  unfolding parse_block
  parse_block-Preserves end_tok handler h s l n r p =
      Within-step P P n _ _
        (Within-if P n (token_eq (peek l) end_tok) (ok s l) _ (p, r)
          (block_loop-Preserves handler h (length l.ahead + 2) s l n r (ground arith) p))
        (λ s' l1 r1 q.
          Within-step _ P n (expect end_tok l1) _ (expect-Within end_tok l1 n r1)
            (λ u l2 r2 v. (q, r2)))

  abbrev pub FieldPreserves : Field S → Type 0
  FieldPreserves (flag_field name set) = (b : Bool) (s : S) → P s → P (set b s)
  FieldPreserves (field name parse) = Preserves P parse

  clear_flag-Preserves :
      (fields : List (Field S)) (id : String) (s s' : S)
      → All FieldPreserves fields
      → P s
      → clear_flag fields id s ≡ some s'
      → P s'
  unfolding clear_flag
  clear_flag-Preserves [] id s s' h p e = cc
  clear_flag-Preserves (flag_field name set ∷ rest) id s s' h p e =
      elim (Bool-cases (str_eq id name)) [
        | inl q ↦
            let e' : some (set false s) ≡ some s' = (rw q at e) in
            let k : set false s ≡ s' = cc in rw (← k) (h.0 false s p)
        | inr q ↦ clear_flag-Preserves rest id s s' h.1 p (rw q at e)
      ]
  clear_flag-Preserves (field name parse ∷ rest) id s s' h p e =
      clear_flag-Preserves rest id s s' h.1 p e

  cleared-Within :
      (fields : List (Field S)) (field_tok : SpannedToken) (o : Option S) (l : Lexer) (n : ℕ)
      → remaining l ≤ n
      → ((s' : S) → o ≡ some s' → P s')
      → Within P n (cleared fields field_tok o l)
  cleared-Within fields field_tok none l n r h = tt
  cleared-Within fields field_tok (some s') l n r h = (h s' refl, r)

  bool_handler-Preserves :
      (fields : List (Field S)) (field_tok : SpannedToken)
      → All FieldPreserves fields
      → Preserves P (bool_handler fields field_tok)
  unfolding bool_handler
  bool_handler-Preserves fields field_tok h s l n r p =
      Within-if P n (has_flags fields && token_eq field_tok.tok Token.not) _ (ok s l)
        (Within-step _ P n (next l) _ (next-Within l n r) (λ t l1 r1 u.
          Within-step _ P n (unwrap_ident t l1) _ (unwrap_ident-Within t l1 n r1) (λ id l2 r2 v.
            cleared-Within fields field_tok (clear_flag fields id s) l2 n r2
              (λ s' e. clear_flag-Preserves fields id s s' h p e))))
        (p, r)

  run_field-Preserves : (f : Field S) → FieldPreserves f → Preserves P (run_field f)
  unfolding run_field
  run_field-Preserves (flag_field name set) h s l n r p =
      Within-if P n (token_eq (peek l) colon) _ _
        (Within-step _ P n (next l) _ (next-Within l n r) (λ t l1 r1 u.
          Within-step _ P n (parse_bool false l1) _ (parse_bool-Within false l1 n r1)
            (λ b l2 r2 v. (h b s p, r2))))
        (h true s p, r)
  run_field-Preserves (field name parse) h s l n r p =
      Within-step _ P n (expect colon l) _ (expect-Within colon l n r) (λ u l1 r1 v. h s l1 n r1 p)

  chosen-Within :
      (all : List (Field S)) (field_tok : SpannedToken) (id : String) (fields : List (Field S))
      (s : S) (l : Lexer) (n : ℕ)
      → remaining l ≤ n
      → All FieldPreserves fields
      → P s
      → Within P n (chosen all field_tok (find_field id fields) s l)
  unfolding find_field
  chosen-Within all field_tok id [] s l n r h p = tt
  chosen-Within all field_tok id (f ∷ fields) s l n r h p =
      elim (Bool-cases (str_eq id (field_name f))) [
        | inl q ↦ rw q (run_field-Preserves f h.0 s l n r p)
        | inr q ↦ rw q (chosen-Within all field_tok id fields s l n r h.1 p)
      ]

  field_handler-Preserves :
      (fields : List (Field S)) → All FieldPreserves fields → Preserves P (field_handler fields)
  unfolding field_handler
  field_handler-Preserves fields h s l n r p =
      Within-step _ P n (next l) _ (next-Within l n r) (λ field_tok l1 r1 u.
        Within-step P P n (bool_handler fields field_tok s l1) _
          (bool_handler-Preserves fields field_tok h s l1 n r1 p)
          (λ s' l2 r2 q.
            Within-step _ P n (unwrap_ident field_tok l2) _ (unwrap_ident-Within field_tok l2 n r2)
              (λ id l3 r3 v. chosen-Within fields field_tok id fields s' l3 n r3 h q)))

  -- A struct keeps what each of its fields keeps.
  pub parse_named-Preserves :
      (fields : List (Field S)) → All FieldPreserves fields → Preserves P (parse_named fields)
  unfolding parse_named
  parse_named-Preserves fields h s l n r p =
      Within-step _ P n (expect open_brace l) _ (expect-Within open_brace l n r) (λ u l1 r1 v.
        parse_block-Preserves closed_brace (field_handler fields) (field_handler-Preserves fields h)
          s l1 n r1 p)

  unnamed_entries-Preserves :
      (entries : List (Parser S))
      → All (Preserves P) entries
      → Preserves P (unnamed_entries entries)
  unfolding unnamed_entries
  unnamed_entries-Preserves [] h s l n r p = (p, r)
  unnamed_entries-Preserves (entry ∷ rest) h s l n r p =
      Within-step P P n _ _
        (Within-if P n (token_eq (peek l) (identifier "_")) _ (entry s l)
          (Within-step _ P n (next l) _ (next-Within l n r) (λ t l1 r1 u. (p, r1))) (h.0 s l n r p))
        (λ s' l2 r2 q.
          Within-if P n (token_eq (peek l2) comma) _ _
            (Within-step _ P n (next l2) _ (next-Within l2 n r2)
              (λ t l3 r3 u. unnamed_entries-Preserves rest h.1 s' l3 n r3 q))
            (Within-step _ P n (expect closed_paren l2) _ (expect-Within closed_paren l2 n r2)
              (λ u l3 r3 v. (q, r3))))

  -- So does a struct with unnamed fields.
  pub parse_unnamed-Preserves :
      (entries : List (Parser S)) → All (Preserves P) entries → Preserves P (parse_unnamed entries)
  unfolding parse_unnamed
  parse_unnamed-Preserves entries h s l n r p =
      Within-step _ P n (expect open_paren l) _ (expect-Within open_paren l n r) (λ u l1 r1 v.
        Within-if P n (token_eq (peek l1) closed_paren) _ _
          (Within-step _ P n (next l1) _ (next-Within l1 n r1) (λ t l2 r2 w. (p, r2)))
          (unnamed_entries-Preserves entries h s l1 n r1 p))

-- The parser of a part keeps what the change of the part keeps.
pub on_part-Preserves :
    {S A : Type 0} (P : S → Type 0) (Q : A → Type 0) (get : S → A) (set : A → S → S)
    (parse : Parser A)
    → Preserves Q parse
    → ((s : S) → P s → Q (get s))
    → ((a : A) (s : S) → Q a → P s → P (set a s))
    → Preserves P (on_part get set parse)
unfolding on_part
on_part-Preserves P Q get set parse h g k s l n r p =
    Within-step Q P n (parse (get s) l) _ (h (get s) l n r (g s p)) (λ a l1 r1 q. (k a s q p, r1))

variant-Within :
    {S : Type 0} (variants : List (String × S)) (id_tok : SpannedToken) (o : Option S) (l : Lexer)
    (n : ℕ)
    → remaining l ≤ n
    → Within (λ s. Unit {0}) n (variant variants id_tok o l)
variant-Within variants id_tok none l n r = tt
variant-Within variants id_tok (some v) l n r = (tt, r)

pub parse_enum-Preserves :
    {S : Type 0} (variants : List (String × S)) → Preserves (λ s. Unit {0}) (parse_enum variants)
unfolding parse_enum
parse_enum-Preserves variants s l n r p =
    Within-step _ _ n (next l) _ (next-Within l n r) (λ id_tok l1 r1 u.
      Within-step _ _ n (unwrap_ident id_tok l1) _ (unwrap_ident-Within id_tok l1 n r1)
        (λ id l2 r2 v. variant-Within variants id_tok (find_variant id variants) l2 n r2))
