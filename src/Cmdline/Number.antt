-- ===== src/Cmdline/Number.antt =====
-- src/cmdline/lexer.rs: `parse_int`, which gives a number token its value.
use wasm_kernel.Base.{
  ℕ, ◌+◌, ◌-◌, ◌*◌, ◌^◌, ◌≤◌, ◌<◌, ◌≡◌, refl, ◌≢◌, inl, inr, Bool, true, false, ◌&&◌, Option, none,
  some, List, [], ◌∷◌, ◌++◌, arith, ltb, leb, ◌==◌, if◌then◌else◌, ltb→lt, lt→ltb, Bool-cases, Run,
  done, panic, ◌>>=◌, unwrap,
}
use wasm_kernel.Base.Int.{ℤ, pos, neg}

abbrev pub i64_limit : ℕ
i64_limit = 2 ^ 63

-- `char::to_digit`: letters count from ten, in both cases.
unfoldable pub to_digit : ℕ → ℕ → Option ℕ
to_digit radix c =
    if leb b'0' c && leb c b'9' && ltb (c - b'0') radix
    then some (c - b'0')
    else if leb b'a' c && leb c b'z' && ltb (c - b'a' + 10) radix
    then some (c - b'a' + 10)
    else if leb b'A' c && leb c b'Z' && ltb (c - b'A' + 10) radix
    then some (c - b'A' + 10)
    else none

-- The loop of `i64::from_str_radix` behind the sign: each step is checked.
unfoldable pub from_digits : ℕ → ℕ → List ℕ → Option ℕ
unfolding to_digit
from_digits radix acc [] = some acc
from_digits radix acc (c ∷ cs) = elim (to_digit radix c) [
  | none ↦ none
  | some d ↦
      if ltb (acc * radix + d) i64_limit then from_digits radix (acc * radix + d) cs else none
]

-- `i64::from_str_radix` on a text with no sign, which the patterns of the token leave.
unfoldable pub from_str_radix : ℕ → List ℕ → Option ℕ
unfolding from_digits
from_str_radix radix [] = none
from_str_radix radix (c ∷ cs) = from_digits radix 0 (c ∷ cs)

-- The tests for the prefixes `0x`, `0o` and `0`, in this order, on a text with no minus sign.
unfoldable pub parse_unsigned : List ℕ → Run ℕ
unfolding from_str_radix
parse_unsigned [] = unwrap (from_str_radix 10 [])
parse_unsigned (a ∷ []) = if a == b'0' then done 0 else unwrap (from_str_radix 10 (a ∷ []))
parse_unsigned (a ∷ b ∷ rest) =
    if a == b'0'
    then (if b == b'x'
        then unwrap (from_str_radix 16 rest)
        else if b == b'o'
        then unwrap (from_str_radix 8 rest)
        else unwrap (from_str_radix 8 (b ∷ rest)))
    else unwrap (from_str_radix 10 (a ∷ b ∷ rest))

unfoldable pub parse_int : List ℕ → Run ℤ
parse_int [] = parse_unsigned [] >>= λ res. done (pos res)
parse_int (c ∷ cs) =
    if c == b'-'
    then (parse_unsigned cs >>= λ res. done (neg (pos res)))
    else (parse_unsigned (c ∷ cs) >>= λ res. done (pos res))

-- The value of a list of digits, first digit first, with no bound.
abbrev pub value : ℕ → ℕ → List ℕ → ℕ
value radix acc [] = acc
value radix acc (d ∷ ds) = value radix (acc * radix + d) ds

-- The text is made of the digits, in the radix.
abbrev pub Spells : ℕ → List ℕ → List ℕ → Type 0
Spells radix [] [] = Unit
Spells radix (c ∷ cs) (d ∷ ds) = (to_digit radix c ≡ some d) × Spells radix cs ds
Spells radix _ _ = ⊥

value-ge : (radix acc : ℕ) (ds : List ℕ) → 1 ≤ radix → acc ≤ value radix acc ds
value-ge radix acc [] h = omega arith
value-ge radix acc (d ∷ ds) h =
    let step : acc ≤ acc * radix + d = grind arith in
    omega (arith, value-ge radix (acc * radix + d) ds h)

-- Checking each step is checking the value: it overflows on the way exactly if it does at the end.
pub from_digits-value :
    (radix acc : ℕ) (cs ds : List ℕ)
    → 1 ≤ radix
    → acc < i64_limit
    → Spells radix cs ds
    → from_digits radix acc cs
      ≡ (if ltb (value radix acc ds) i64_limit then some (value radix acc ds) else none)
unfolding from_digits
from_digits-value radix acc [] [] r h s = rw (lt→ltb acc i64_limit h)
from_digits-value radix acc [] (d ∷ ds) r h s = elim s [ ]
from_digits-value radix acc (c ∷ cs) [] r h s = elim s [ ]
from_digits-value radix acc (c ∷ cs) (d ∷ ds) r h s =
    rw (s.0, from_digits)
      (elim (Bool-cases (ltb (acc * radix + d) i64_limit)) [
        | inl lt ↦ rw lt (from_digits-value radix (acc * radix + d) cs ds r (ltb→lt _ _ lt) s.1)
        | inr ge ↦ rw ge (ground (arith, ge, value-ge radix (acc * radix + d) ds r))
      ])

-- The forms of a literal in the pattern of the token.
pub data Form : Type 0 where
  decimal octal octal_o hex : Form

abbrev pub prefix : Form → List ℕ
prefix decimal = []
prefix octal = b'0' ∷ []
prefix octal_o = b'0' ∷ b'o' ∷ []
prefix hex = b'0' ∷ b'x' ∷ []

abbrev pub radix_of : Form → ℕ
radix_of decimal = 10
radix_of octal = 8
radix_of octal_o = 8
radix_of hex = 16

abbrev pub minus : Bool → List ℕ
minus true = b'-' ∷ []
minus false = []

abbrev pub signed : Bool → ℕ → ℤ
signed true n = neg (pos n)
signed false n = pos n

-- An octal digit is no letter.
octal_digit : (c d : ℕ) → to_digit 8 c ≡ some d → (b'0' ≤ c) × (c ≤ b'7')
unfolding to_digit
octal_digit c d h = ground arith

-- A minus sign is no digit.
no_minus : (c d : ℕ) → to_digit 10 c ≡ some d → c ≢ b'-'
unfolding to_digit
no_minus c d h = ground arith

unsigned-value :
    (form : Form) (c : ℕ) (cs ds : List ℕ)
    → Spells (radix_of form) (c ∷ cs) ds
    → (form ≡ decimal → c ≢ b'0')
    → parse_unsigned (prefix form ++ c ∷ cs) ≡ (
        if ltb (value (radix_of form) 0 ds) i64_limit
        then done (value (radix_of form) 0 ds)
        else panic)
unfolding parse_unsigned
unsigned-value decimal c [] ds s first =
    ground (arith, from_digits-value 10 0 (c ∷ []) ds (omega arith) (omega arith) s, first refl)
unsigned-value decimal c (c' ∷ cs) ds s first =
    ground
      (arith, from_digits-value 10 0 (c ∷ c' ∷ cs) ds (omega arith) (omega arith) s, first refl)
unsigned-value octal c cs [] s first = elim s [ ]
unsigned-value octal c cs (d ∷ ds) s first = ground (
  arith,
  octal_digit c d s.0,
  from_digits-value 8 0 (c ∷ cs) (d ∷ ds) (omega arith) (omega arith) s,
)
unsigned-value octal_o c cs ds s first =
    ground (arith, from_digits-value 8 0 (c ∷ cs) ds (omega arith) (omega arith) s)
unsigned-value hex c cs ds s first =
    ground (arith, from_digits-value 16 0 (c ∷ cs) ds (omega arith) (omega arith) s)

-- A literal with digits behind its prefix.
digits-value :
    (form : Form) (sign : Bool) (c : ℕ) (cs ds : List ℕ)
    → Spells (radix_of form) (c ∷ cs) ds
    → (form ≡ decimal → c ≢ b'0')
    → parse_int (minus sign ++ (prefix form ++ c ∷ cs)) ≡ (
        if ltb (value (radix_of form) 0 ds) i64_limit
        then done (signed sign (value (radix_of form) 0 ds))
        else panic)
unfolding parse_int
digits-value form true c cs ds s first = rw (unsigned-value form c cs ds s first) (ground arith)
digits-value decimal false c cs [] s first = elim s [ ]
digits-value decimal false c cs (d ∷ ds) s first =
    ground (arith, no_minus c d s.0, unsigned-value decimal c cs (d ∷ ds) s first)
digits-value octal false c cs ds s first = rw (unsigned-value octal c cs ds s first) (ground arith)
digits-value octal_o false c cs ds s first =
    rw (unsigned-value octal_o c cs ds s first) (ground arith)
digits-value hex false c cs ds s first = rw (unsigned-value hex c cs ds s first) (ground arith)

-- The digits behind a prefix that the pattern of the token allows: a decimal begins with no zero, an
-- octal literal may have none behind its zero, which then is the number zero, and the others have one.
abbrev pub IsLiteral : Form → List ℕ → Type 0
IsLiteral decimal [] = ⊥
IsLiteral decimal (c ∷ cs) = c ≢ b'0'
IsLiteral octal cs = Unit
IsLiteral octal_o [] = ⊥
IsLiteral octal_o (c ∷ cs) = Unit
IsLiteral hex [] = ⊥
IsLiteral hex (c ∷ cs) = Unit

-- A literal of the token's pattern, zero included, with or without a minus sign, gets the value of its
-- digits where that fits an `i64` without the sign; any larger literal panics.
pub parse_int-value :
    (form : Form) (sign : Bool) (cs ds : List ℕ)
    → Spells (radix_of form) cs ds
    → IsLiteral form cs
    → parse_int (minus sign ++ (prefix form ++ cs)) ≡ (
        if ltb (value (radix_of form) 0 ds) i64_limit
        then done (signed sign (value (radix_of form) 0 ds))
        else panic)
unfolding parse_int parse_unsigned
parse_int-value decimal sign [] ds s h = absurd h
parse_int-value decimal sign (c ∷ cs) ds s h = digits-value decimal sign c cs ds s (λ e. h)
parse_int-value octal true [] [] s h = refl
parse_int-value octal false [] [] s h = refl
parse_int-value octal sign [] (d ∷ ds) s h = absurd s
parse_int-value octal sign (c ∷ cs) ds s h = digits-value octal sign c cs ds s (λ e. cc)
parse_int-value octal_o sign [] ds s h = absurd h
parse_int-value octal_o sign (c ∷ cs) ds s h = digits-value octal_o sign c cs ds s (λ e. cc)
parse_int-value hex sign [] ds s h = absurd h
parse_int-value hex sign (c ∷ cs) ds s h = digits-value hex sign c cs ds s (λ e. cc)
