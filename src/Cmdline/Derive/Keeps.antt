-- ===== src/Cmdline/Derive/Keeps.antt =====
-- proc-macros/src/lib.rs: what the generated parsers keep, and what they never accept.
use wasm_kernel.Base.{◌≡◌, refl, ap, ◌∙◌, List}
use Prim.Native.String.{String}
use wasm_kernel.Cmdline.Lexer.{
  Token, SpannedToken, Lexer, Parse, ok, err, panicked, out_of_fuel, ◌>>>◌, next, read,
  unwrap_ident,
}
use wasm_kernel.Cmdline.Derive.{Field, bool_handler, field_handler}

-- A result, if there is one, has the property.
abbrev pub Keeps : {S : Type 0} → (S → Type 0) → Parse S → Type 0
Keeps P (ok s l) = P s
Keeps P (err e) = Unit
Keeps P panicked = Unit
Keeps P out_of_fuel = Unit

pub Keeps-bind {κ} :
    {S : Type 0} {A : Type κ} (P : S → Type 0) (m : Parse A) (f : A → Lexer → Parse S)
    → ((a : A) (l : Lexer) → Keeps P (f a l))
    → Keeps P (m >>> f)
Keeps-bind P (ok a l) f h = h a l
Keeps-bind P (err e) f h = tt
Keeps-bind P panicked f h = tt
Keeps-bind P out_of_fuel f h = tt

pub Keeps-step :
    {S T : Type 0} (Q : T → Type 0) (P : S → Type 0) (m : Parse T) (f : T → Lexer → Parse S)
    → Keeps Q m
    → ((a : T) (l : Lexer) → Q a → Keeps P (f a l))
    → Keeps P (m >>> f)
Keeps-step Q P (ok a l) f k h = h a l k
Keeps-step Q P (err e) f k h = tt
Keeps-step Q P panicked f k h = tt
Keeps-step Q P out_of_fuel f k h = tt

-- `next` hands out the current token.
next-current : (l : Lexer) → Keeps (λ (t : SpannedToken). t ≡ l.current) (next l)
unfolding next
next-current l =
    Keeps-step (λ t. Unit) (λ t. t ≡ l.current) (read l) _ (anything (read l)) (λ t l1 u. refl)
  where
    anything : (m : Parse SpannedToken) → Keeps (λ t. Unit) m
    anything (ok a l) = tt
    anything (err e) = tt
    anything panicked = tt
    anything out_of_fuel = tt

not_ident :
    {S : Type 0} (t : SpannedToken) (l : Lexer) (f : String → Lexer → Parse S)
    → t.tok ≡ Token.not
    → Keeps (λ (s : S). ⊥) (unwrap_ident t l >>> f)
unfolding unwrap_ident
not_ident t l f e = rw e tt

-- A field that begins with `!` is never accepted, whatever the struct's fields are and whatever stands
-- behind the `!`.
pub field_handler-not :
    {S : Type 0} (fields : List (Field S)) (s : S) (l : Lexer)
    → l.current.tok ≡ Token.not
    → Keeps (λ s'. ⊥) (field_handler fields s l)
unfolding field_handler
field_handler-not {S} fields s l e =
    Keeps-step (λ t. t ≡ l.current) (λ (s' : S). ⊥) (next l) _ (next-current l)
      (λ t l1 q.
        Keeps-bind (λ (s' : S). ⊥) (bool_handler fields t s l1) _
          (λ s' l2. not_ident t l2 _ (ap (λ u. u.tok) q ∙ e)))
