-- ===== src/Cmdline/Parse/Within.antt =====
-- src/cmdline/parse.rs, src/cmdline/lexer.rs: the small parsers read no more tokens than there are,
-- and never need more steps than they have.
use wasm_kernel.Base.{ℕ, ◌^◌, ◌≤◌, Bool, true, false, arith, ltb, if◌then◌else◌}
use text.Mathlib.Text.{◌==◌ as str_eq}
use wasm_kernel.Base.Int.{pos, negsuc}
use wasm_kernel.Cmdline.Lexer.{
  Token, comma, colon, open_brace, closed_brace, or, open_paren, closed_paren, identifier, number,
  eof, Lexer, Parse, ok, err, panicked, out_of_fuel, Parser, ◌>>>◌, SpannedToken, next,
  unwrap_ident, token_eq, expect,
}
use wasm_kernel.Cmdline.Parse.{
  remaining, bool_value, unsigned_value, parse_bool, parse_unsigned_int, Flags, parse_flags,
}
use wasm_kernel.Cmdline.Parse.NoFlags.{Gives, Gives-bind, next-remaining, Fails, parse_flags-Fails}

-- A result, if there is one, has the property and leaves at most so many tokens; it is not that the
-- fuel of a loop is used up.
abbrev pub Within {ℓ} : {S : Type ℓ} → (S → Type 0) → ℕ → Parse S → Type 0
Within P n m = Gives m (λ s l. P s × (remaining l ≤ n))

-- A parser keeps a property of the value.
abbrev pub Preserves : {S : Type 0} → (S → Type 0) → Parser S → Type 0
Preserves {S} P parse = (s : S) (l : Lexer) (n : ℕ) → remaining l ≤ n → P s → Within P n (parse s l)

pub Within-step {ℓ κ} :
    {T : Type ℓ} {S : Type κ} (Q : T → Type 0) (P : S → Type 0) (n : ℕ) (m : Parse T)
    (f : T → Lexer → Parse S)
    → Within Q n m
    → ((a : T) (l : Lexer) → remaining l ≤ n → Q a → Within P n (f a l))
    → Within P n (m >>> f)
Within-step Q P n m f h k = Gives-bind _ _ m f h (λ a l r. k a l r.1 r.0)

pub Within-if {ℓ} :
    {S : Type ℓ} (P : S → Type 0) (n : ℕ) (b : Bool) (x y : Parse S)
    → Within P n x
    → Within P n y
    → Within P n (if b then x else y)
Within-if P n true x y h k = h
Within-if P n false x y h k = k

pub Gives-mono {ℓ} :
    {A : Type ℓ} (P Q : A → Lexer → Type 0) (m : Parse A)
    → Gives m P
    → ((a : A) (l : Lexer) → P a l → Gives (ok a l) Q)
    → Gives m Q
Gives-mono P Q (ok a l) h k = k a l h
Gives-mono P Q (err e) h k = tt
Gives-mono P Q panicked h k = tt
Gives-mono P Q out_of_fuel h k = h

pub next-Within : (l : Lexer) (n : ℕ) → remaining l ≤ n → Within (λ t. Unit {0}) n (next l)
next-Within l n h =
    Gives-mono _ _ (next l) (next-remaining l) (λ t l' r. (tt, omega (arith, r.1, h)))

pub unwrap_ident-Within :
    (t : SpannedToken) (l : Lexer) (n : ℕ)
    → remaining l ≤ n
    → Within (λ id. Unit {0}) n (unwrap_ident t l)
unfolding unwrap_ident
unwrap_ident-Within t l n h = go t.tok
  where
    go :
        (tok : Token)
        → Within (λ id. Unit {0}) n (unwrap_ident (record { tok = tok; span = t.span }) l)
    go (identifier id) = (tt, h)
    go (number m) = tt
    go comma = tt
    go colon = tt
    go open_brace = tt
    go closed_brace = tt
    go Token.not = tt
    go or = tt
    go open_paren = tt
    go closed_paren = tt
    go eof = tt

pub expect-Within :
    (tok : Token) (l : Lexer) (n : ℕ) → remaining l ≤ n → Within (λ u. Unit {0}) n (expect tok l)
unfolding expect
expect-Within tok l n h =
    Within-step _ _ n (next l) _ (next-Within l n h)
      (λ t l' r u. Within-if _ n (token_eq t.tok tok) (ok tt l') _ (tt, r) tt)

bool_value-Within :
    (t : SpannedToken) (tok : Token) (l : Lexer) (n : ℕ)
    → remaining l ≤ n
    → Within (λ b. Unit {0}) n (bool_value t tok l)
bool_value-Within t (identifier id) l n h =
    Within-if _ n (str_eq id "true") (ok true l) _ (tt, h)
      (Within-if _ n (str_eq id "false") (ok false l) _ (tt, h) tt)
bool_value-Within t (number (pos m)) l n h = (tt, h)
bool_value-Within t (number (negsuc m)) l n h = (tt, h)
bool_value-Within t comma l n h = tt
bool_value-Within t colon l n h = tt
bool_value-Within t open_brace l n h = tt
bool_value-Within t closed_brace l n h = tt
bool_value-Within t Token.not l n h = tt
bool_value-Within t or l n h = tt
bool_value-Within t open_paren l n h = tt
bool_value-Within t closed_paren l n h = tt
bool_value-Within t eof l n h = tt

pub parse_bool-Within :
    (b : Bool) (l : Lexer) (n : ℕ) → remaining l ≤ n → Within (λ b. Unit {0}) n (parse_bool b l)
unfolding parse_bool
parse_bool-Within b l n h =
    Within-step _ _ n (next l) _ (next-Within l n h) (λ t l' r u. bool_value-Within t t.tok l' n r)

unsigned_value-Within :
    (bits : ℕ) (t : SpannedToken) (tok : Token) (l : Lexer) (n : ℕ)
    → remaining l ≤ n
    → Within (λ m. Unit {0}) n (unsigned_value bits t tok l)
unsigned_value-Within bits t (number (pos m)) l n h =
    Within-if _ n (ltb m (2 ^ bits)) (ok m l) _ (tt, h) tt
unsigned_value-Within bits t (number (negsuc m)) l n h = tt
unsigned_value-Within bits t (identifier id) l n h = tt
unsigned_value-Within bits t comma l n h = tt
unsigned_value-Within bits t colon l n h = tt
unsigned_value-Within bits t open_brace l n h = tt
unsigned_value-Within bits t closed_brace l n h = tt
unsigned_value-Within bits t Token.not l n h = tt
unsigned_value-Within bits t or l n h = tt
unsigned_value-Within bits t open_paren l n h = tt
unsigned_value-Within bits t closed_paren l n h = tt
unsigned_value-Within bits t eof l n h = tt

pub parse_unsigned_int-Within : (bits : ℕ) → Preserves (λ m. Unit {0}) (parse_unsigned_int bits)
unfolding parse_unsigned_int
parse_unsigned_int-Within bits s l n h p =
    Within-step _ _ n (next l) _ (next-Within l n h)
      (λ t l' r u. unsigned_value-Within bits t t.tok l' n r)

-- A parser that never succeeds keeps anything.
Fails-Within : {S : Type 0} (P : S → Type 0) (n : ℕ) (m : Parse S) → Fails m → Within P n m
Fails-Within P n (ok a l) h = absurd h
Fails-Within P n (err e) h = tt
Fails-Within P n panicked h = tt
Fails-Within P n out_of_fuel h = h

pub parse_flags-Within :
    {A : Type 0} (table : Flags A) (P : A → Type 0) → Preserves P (parse_flags table)
parse_flags-Within table P s l n h p = Fails-Within P n _ (parse_flags-Fails table s l)
