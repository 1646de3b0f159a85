-- ===== src/Debug/Strings.antt =====
-- buildtool/src/debug/util.rs: the table of interned strings.
pub mod Resolve
use wasm_kernel.Base.{
  ℕ, zero, suc, ◌+◌, ◌-◌, ◌*◌, ◌/◌, ◌%◌, ◌^◌, ◌≤◌, ◌<◌, max, ◌≡◌, refl, sym, ap, ◌∙◌, fun_ext, ◌≢◌,
  ◌↔◌, ◌⊎◌, inl, inr, Bool, true, false, not, ◌&&◌, ◌||◌, Option, none, some, List, [], ◌∷◌, ◌++◌,
  map, arith, ltb, leb, ◌==◌, if◌then◌else◌, ltb→lt, lt→ltb, leb→le, le→leb, ==_iff, Bool-cases,
  Option-cases, length, get_elem?, set, take, drop, All, length-append, set-append, take-append,
  drop-append, All-append, Run, done, panic, ◌>>=◌, ◌>>◌, assert, unwrap, Returns, >>=-eq-done,
  Run-cases,
}
use wasm_kernel.Symbols.Bytes.{to_le_bytes}
use wasm_kernel.Symbols.Table.{Str, usize_max}

abbrev pub str_eq : Str → Str → Bool
str_eq [] [] = true
str_eq [] (y ∷ ys) = false
str_eq (x ∷ xs) [] = false
str_eq (x ∷ xs) (y ∷ ys) = x == y && str_eq xs ys

-- `interned` is the hash map, with the last insertion in front.
pub record InternStringTable : Type 0 where
  pub entries : List Str
  pub interned : List (Str × ℕ)

abbrev pub new_table : InternStringTable
new_table = record { entries = []; interned = [] }

-- `HashMap::get`
unfoldable pub lookup : Str → List (Str × ℕ) → Option ℕ
lookup str [] = none
lookup str ((key, index) ∷ rest) = if str_eq key str then some index else lookup str rest

abbrev add_new : Option ℕ → Str → InternStringTable → ℕ × InternStringTable
add_new (some res) str self = (res, self)
add_new none str self = (
  length self.entries,
  record {
    entries = self.entries ++ str ∷ [];
    interned = (str, length self.entries) ∷ self.interned;
  },
)

unfoldable pub intern : Str → InternStringTable → ℕ × InternStringTable
intern str self = add_new (lookup str self.interned) str self

-- The buffer of `write`, and the offsets of the strings in it.
unfoldable pub buffer : List Str → List ℕ
buffer [] = []
buffer (ent ∷ rest) = ent ++ 0 ∷ buffer rest

unfoldable pub offsets : ℕ → List Str → List ℕ
offsets len [] = []
offsets len (ent ∷ rest) = len ∷ offsets (len + (length ent + 1)) rest

-- The function that `write` returns.
unfoldable pub str_resolve : List Str → ℕ → Run ℕ
unfolding offsets
str_resolve entries index =
    if index == usize_max then done usize_max else unwrap (get_elem? (offsets 0 entries) index)

-- What `InternStringTable::write` appends.
unfoldable pub write_strings : List Str → List ℕ
unfolding buffer
write_strings entries = to_le_bytes 8 (length (buffer entries)) ++ buffer entries

-- The map sends each string of the table to its index, and no string is there twice.
abbrev pub IsInterned : InternStringTable → Type 0
IsInterned self =
    (str : Str) (index : ℕ)
    → (get_elem? self.entries index ≡ some str) ↔ (lookup str self.interned ≡ some index)

pub str_eq_iff : (s t : Str) → (str_eq s t ≡ true) ↔ (s ≡ t)
str_eq_iff s t = (to s t, λ e. rw (← e) (same s))
  where
    to : (s t : Str) → str_eq s t ≡ true → s ≡ t
    to [] [] e = refl
    to [] (y ∷ ys) e = ground (arith, e)
    to (x ∷ xs) [] e = ground (arith, e)
    to (x ∷ xs) (y ∷ ys) e = let h = to xs ys (ground (arith, e)) in ground (arith, e, h)

    same : (s : Str) → str_eq s s ≡ true
    same [] = refl
    same (x ∷ xs) = let h = same xs in ground (arith, h)

old :
    {A : Type 0} (xs ys : List A) (i : ℕ) {s : A}
    → get_elem? xs i ≡ some s
    → get_elem? (xs ++ ys) i ≡ some s
old [] ys i h = ground (arith, h)
old (x ∷ xs) ys zero h = h
old (x ∷ xs) ys (suc i) h = old xs ys i h

last : {A : Type 0} (xs : List A) (s : A) → get_elem? (xs ++ s ∷ []) (length xs) ≡ some s
last [] s = refl
last (x ∷ xs) s = last xs s

either :
    {A : Type 0} (xs : List A) (s t : A) (i : ℕ)
    → get_elem? (xs ++ s ∷ []) i ≡ some t
    → (get_elem? xs i ≡ some t) ⊎ ((i ≡ length xs) × (s ≡ t))
either [] s t zero h = ground (arith, h)
either [] s t (suc i) h = ground (arith, h)
either (x ∷ xs) s t zero h = inl h
either (x ∷ xs) s t (suc i) h = elim (either xs s t i h) [
  | inl e ↦ inl e
  | inr e ↦ inr (ap suc (e.0), e.1)
]

-- Interning a string gives it an index where the table holds it, and keeps every index that was given.
pub intern-IsInterned :
    (str : Str) (self : InternStringTable)
    → IsInterned self
    → IsInterned ((intern str self).1)
      × (get_elem? (intern str self).1.entries ((intern str self).0) ≡ some str)
      × ((i : ℕ) (s : Str)
          → get_elem? self.entries i ≡ some s
          → get_elem? (intern str self).1.entries i ≡ some s)
unfolding intern lookup
intern-IsInterned str self h = elim (Option-cases (lookup str self.interned)) [
  | inl e ↦ rw e (
    λ s i. (forward e s i, backward s i),
    last self.entries str,
    λ i s p. old self.entries (str ∷ []) i p,
  )
  | inr (index, e) ↦ rw e (h, (h str index).1 e, λ i s p. p)
]
  where
    forward :
        lookup str self.interned ≡ none
        → (s : Str) (i : ℕ) → get_elem? (self.entries ++ str ∷ []) i ≡ some s
        → (if str_eq str s then some (length self.entries) else lookup s self.interned) ≡ some i
    forward e s i p = elim (either self.entries str s i p) [
      | inl q ↦ elim (Bool-cases (str_eq str s)) [
        | inl m ↦ let k = (h s i).0 q in let m' = (str_eq_iff str s).0 m in cc
        | inr m ↦ rw m ((h s i).0 q)
      ]
      | inr q ↦ rw ((str_eq_iff str s).1 (q.1)) (ap some (sym (q.0)))
    ]

    backward :
        (s : Str) (i : ℕ)
        → (if str_eq str s then some (length self.entries) else lookup s self.interned) ≡ some i
        → get_elem? (self.entries ++ str ∷ []) i ≡ some s
    backward s i p = elim (Bool-cases (str_eq str s)) [
      | inl m ↦
          let m' = (str_eq_iff str s).0 m in
          let p' = rw m at p in let l = last self.entries str in grind (arith, m', p', l)
      | inr m ↦ old self.entries (str ∷ []) i ((h s i).1 (rw m at p))
    ]
