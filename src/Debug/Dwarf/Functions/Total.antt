-- ===== src/Debug/Dwarf/Functions/Total.antt =====
-- buildtool/src/debug/dwarf.rs: the loops over the entries of a unit end.
use wasm_kernel.Base.{
  ℕ, zero, suc, ◌≤◌, ◌<◌, ◌≡◌, refl, inl, inr, Option, none, some, List, [], ◌∷◌, arith, ltb, leb,
  Bool-cases, Option-cases, length,
}
use wasm_kernel.Debug.Dwarf.{◌>>=◌, Range, Gimli, Context}
use wasm_kernel.Debug.Dwarf.Entries.{
  Result, ok, err, stuck, ◌>>>◌, tried, InlinedList, Tag, by_tag, by_entry, by_ranges, Abbreviation,
  RawEntry,
}
use wasm_kernel.Debug.Dwarf.Functions.{
  function_parts, inlined_parts, skip_nested, parse_children, parse_functions, parse_unit,
}

-- The loop ends, by an error or with a result that satisfies `P`.
abbrev pub Ends {ℓ} : {A : Type ℓ} → Result A → (A → Type 0) → Type 0
Ends (ok a) P = P a
Ends err P = Unit
Ends stuck P = ⊥

Ends->>> {ℓ κ} :
    {A : Type ℓ} {B : Type κ} (m : Result A) (P : A → Type 0) (f : A → Result B) (Q : B → Type 0)
    → Ends m P
    → ((a : A) → P a → Ends (f a) Q)
    → Ends (m >>> f) Q
Ends->>> (ok a) P f Q h k = k a h
Ends->>> err P f Q h k = tt
Ends->>> stuck P f Q h k = absurd h

Ends-weaken {ℓ} :
    {A : Type ℓ} (m : Result A) (P Q : A → Type 0) → Ends m P → ((a : A) → P a → Q a) → Ends m Q
Ends-weaken (ok a) P Q h k = k a h
Ends-weaken err P Q h k = tt
Ends-weaken stuck P Q h k = h

pub Ends-tried {ℓ κ} :
    {A : Type ℓ} {B : Type κ} (o : Option A) (f : A → Result B) (Q : B → Type 0)
    → ((a : A) → o ≡ some a → Ends (f a) Q)
    → Ends (tried o >>> f) Q
Ends-tried (some a) f Q k = k a refl
Ends-tried none f Q k = tt

Ends-by_tag {ℓ} :
    {A : Type ℓ} (t : Tag) (a b c : Result A) (Q : A → Type 0)
    → Ends a Q
    → Ends b Q
    → Ends c Q
    → Ends (by_tag t a b c) Q
Ends-by_tag Tag.subprogram a b c Q ha hb hc = ha
Ends-by_tag Tag.inlined_subroutine a b c Q ha hb hc = hb
Ends-by_tag Tag.other a b c Q ha hb hc = hc

Ends-by_entry {ℓ κ} :
    {A : Type ℓ} {B : Type κ} (o : Option A) (b : Result B) (f : A → Result B) (Q : B → Type 0)
    → Ends b Q
    → ((a : A) → Ends (f a) Q)
    → Ends (by_entry o b f) Q
Ends-by_entry none b f Q hb hf = hb
Ends-by_entry (some a) b f Q hb hf = hf a

Ends-by_ranges {ℓ} :
    {A : Type ℓ} (rs : List Range) (a b : Result A) (Q : A → Type 0)
    → Ends a Q
    → Ends b Q
    → Ends (by_ranges rs a b) Q
Ends-by_ranges [] a b Q ha hb = ha
Ends-by_ranges (r ∷ rest) a b Q ha hb = hb

-- What an entry that is passed over leaves is left behind it.
pub passed_on :
    (o : Option (Option Abbreviation)) (on : Option (List RawEntry)) (left : List RawEntry)
    → (o >>= λ found. by_entry found on (λ abbreviation. abbreviation.skip_attributes >>= λ _. on))
      ≡ some left
    → on ≡ some left
passed_on none on left h = absurd cc
passed_on (some none) on left h = h
passed_on (some (some ab)) on left h = elim (Option-cases ab.skip_attributes) [
  | inl e ↦ let k = rw e at h in absurd cc
  | inr (t, e) ↦ rw e at h
]

module _ {U : Type 0} (gimli : Gimli U) (ctx : Context U) (u : U) (last : ℕ) where
  abbrev Shorter : List RawEntry → InlinedList × List RawEntry → Type 0
  Shorter es r = length r.1 ≤ length es

  skip_nested-le :
      (depth : ℕ) (es left : List RawEntry)
      → skip_nested gimli ctx u last depth es ≡ some left
      → length left ≤ length es
  unfolding skip_nested
  skip_nested-le depth [] left h = elim (Bool-cases (ltb depth last)) [
    | inl e ↦ let k = rw e at h in absurd cc
    | inr e ↦ let k : [] ≡ left = let k' = rw e at h in cc in rw (← k) omega arith
  ]
  skip_nested-le depth (e ∷ rest) left h = elim (Bool-cases (ltb depth e.depth)) [
    | inl c ↦
        let k = passed_on e.read (skip_nested gimli ctx u last depth rest) left (rw c at h) in
        omega (arith, skip_nested-le depth rest left k)
    | inr c ↦ let k : e ∷ rest ≡ left = let k' = rw c at h in cc in rw (← k) omega arith
  ]

  parse_children-Ends :
      (fuel depth : ℕ) (es : List RawEntry)
      → length es < fuel
      → Ends (parse_children gimli ctx u last fuel depth es) (Shorter es)
  unfolding parse_children
  parse_children-Ends zero depth es h = absurd (omega (arith, h))
  parse_children-Ends (suc fuel) depth [] h = elim (Bool-cases (leb last depth)) [
    | inl e ↦ rw e omega arith
    | inr e ↦ rw e tt
  ]
  parse_children-Ends (suc fuel) depth (e ∷ rest) h =
      let on_rest : (d : ℕ) (left : List RawEntry)
          → length left ≤ length rest
          → Ends (parse_children gimli ctx u last fuel d left) (Shorter (e ∷ rest)) =
        λ d left fewer.
          Ends-weaken (parse_children gimli ctx u last fuel d left) (Shorter left)
            (Shorter (e ∷ rest)) (parse_children-Ends fuel d left (omega (arith, h, fewer)))
            (λ r k. omega (arith, k, fewer)) in
      elim (Bool-cases (leb e.depth depth)) [
        | inl c ↦ rw c omega arith
        | inr c ↦ rw c (
            Ends-tried e.read _ (Shorter (e ∷ rest)) λ found got.
              Ends-by_entry found _ _ (Shorter (e ∷ rest)) (on_rest depth rest (omega arith)) (λ ab.
                Ends-by_tag ab.tag _ _ _ (Shorter (e ∷ rest))
                  (Ends-tried (ab.skip_attributes >>= λ _. skip_nested gimli ctx u last depth rest)
                    _ (Shorter (e ∷ rest))
                    (λ left s. on_rest depth left (skipped ab.skip_attributes left s)))
                  (Ends-tried (inlined_parts gimli ctx u ab.attributes) _ (Shorter (e ∷ rest))
                    (λ parts _.
                      Ends->>> (parse_children gimli ctx u last fuel e.depth rest) (Shorter rest) _
                        (Shorter (e ∷ rest))
                        (parse_children-Ends fuel e.depth rest (omega (arith, h)))
                        (λ r fewer.
                          Ends->>> (parse_children gimli ctx u last fuel depth (r.1))
                            (Shorter (e ∷ rest)) _ (Shorter (e ∷ rest)) (on_rest depth (r.1) fewer)
                            (λ r' fewer'. fewer'))))
                  (Ends-tried ab.skip_attributes _ (Shorter (e ∷ rest))
                    (λ _ _. on_rest depth rest (omega arith)))))
      ]
    where
      skipped :
          (o : Option (Unit {0})) (left : List RawEntry)
          → (o >>= λ _. skip_nested gimli ctx u last depth rest) ≡ some left
          → length left ≤ length rest
      skipped (some t) left s = skip_nested-le depth rest left s
      skipped none left s = absurd cc

  parse_functions-Ends :
      (fuel : ℕ) (es : List RawEntry)
      → length es ≤ fuel
      → Ends (parse_functions gimli ctx u last fuel es) (λ functions. Unit)
  unfolding parse_functions
  parse_functions-Ends fuel [] h = tt
  parse_functions-Ends zero (e ∷ rest) h = absurd (omega (arith, h))
  parse_functions-Ends (suc fuel) (e ∷ rest) h =
      let on : (left : List RawEntry)
          → length left ≤ length rest
          → Ends (parse_functions gimli ctx u last fuel left) (λ functions. Unit) =
        λ left fewer. parse_functions-Ends fuel left (omega (arith, h, fewer)) in
      Ends-tried e.read _ (λ _. Unit)
        λ found got.
          Ends-by_entry found _ _ (λ _. Unit) (on rest (omega arith))
            (λ ab.
              Ends-by_tag ab.tag _ _ _ (λ _. Unit)
                (Ends-tried (function_parts gimli ctx u ab.attributes) _ (λ _. Unit)
                  (λ parts _.
                    Ends-by_ranges (parts.0) _ _ (λ _. Unit) (on rest (omega arith))
                      (Ends->>> (parse_children gimli ctx u last (suc (length rest)) e.depth rest)
                        (Shorter rest) _ (λ _. Unit)
                        (parse_children-Ends (suc (length rest)) e.depth rest (omega arith))
                        (λ r fewer.
                          Ends->>> (parse_functions gimli ctx u last fuel (r.1)) (λ _. Unit) _
                            (λ _. Unit) (on (r.1) fewer) (λ _ _. tt)))))
                (Ends-tried ab.skip_attributes _ (λ _. Unit) (λ _ _. on rest (omega arith)))
                (Ends-tried ab.skip_attributes _ (λ _. Unit) (λ _ _. on rest (omega arith))))

  -- Whatever the entries and their attributes are, the reader of the functions of a unit ends, with
  -- its functions or an error: the fuel of its loops is enough.
  pub parse_unit-Ends :
      (es : List RawEntry) → Ends (parse_unit gimli ctx u last es) (λ functions. Unit)
  unfolding parse_unit
  parse_unit-Ends es = parse_functions-Ends (length es) es (omega arith)
