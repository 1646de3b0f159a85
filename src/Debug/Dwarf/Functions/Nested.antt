-- ===== src/Debug/Dwarf/Functions/Nested.antt =====
-- buildtool/src/debug/dwarf.rs: what a function that is nested in another one does to its calls.
use wasm_kernel.Base.{
  ℕ, suc, ◌<◌, ◌≡◌, refl, inl, inr, true, false, Option, none, some, List, [], ◌∷◌, arith, ltb, leb,
  Bool-cases,
}
use wasm_kernel.Debug.Dwarf.{◌>>=◌, Gimli, Context}
use wasm_kernel.Debug.Dwarf.Entries.{ok, nil, Tag, Abbreviation, RawEntry}
use wasm_kernel.Debug.Dwarf.Functions.{skip_nested, parse_children}
use wasm_kernel.Debug.Dwarf.Functions.Total.{Ends, Ends-tried, passed_on}

-- The next entry is not below a depth.
abbrev Up : ℕ → ℕ → List RawEntry → Type 0
Up last depth [] = leb last depth ≡ true
Up last depth (e ∷ rest) = leb e.depth depth ≡ true

-- The function that begins inside another one: its first entry.
pub record IsNested (depth : ℕ) (e : RawEntry) : Type 0 where
  pub abbreviation : Abbreviation
  pub read : e.read ≡ some (some abbreviation)
  pub tag : abbreviation.tag ≡ Tag.subprogram
  pub below : depth < e.depth

module _ {U : Type 0} (gimli : Gimli U) (ctx : Context U) (u : U) (last : ℕ) where
  skip_nested-Up :
      (depth : ℕ) (es left : List RawEntry)
      → skip_nested gimli ctx u last depth es ≡ some left
      → Up last depth left
  unfolding skip_nested
  skip_nested-Up depth [] left h = elim (Bool-cases (ltb depth last)) [
    | inl e ↦ let k = rw e at h in absurd cc
    | inr e ↦ let k : [] ≡ left = let k' = rw e at h in cc in rw (← k) ground arith
  ]
  skip_nested-Up depth (e ∷ rest) left h = elim (Bool-cases (ltb depth e.depth)) [
    | inl c ↦
        skip_nested-Up depth rest left
          (passed_on e.read (skip_nested gimli ctx u last depth rest) left (rw c at h))
    | inr c ↦ let k : e ∷ rest ≡ left = let k' = rw c at h in cc in rw (← k) ground arith
  ]

  parse_children-Up :
      (fuel depth : ℕ) (es : List RawEntry)
      → Up last depth es
      → parse_children gimli ctx u last (suc fuel) depth es ≡ ok (nil, es)
  unfolding parse_children
  parse_children-Up fuel depth [] h = rw h refl
  parse_children-Up fuel depth (e ∷ rest) h = rw h refl

  -- Behind the first entry of a function that is nested in another one, no inlined call of the outer
  -- function is found, wherever it stands: all that is below the outer function is passed over.
  pub parse_children-nested :
      (fuel depth : ℕ) (e : RawEntry) (rest : List RawEntry)
      → IsNested depth e
      → Ends (parse_children gimli ctx u last (suc (suc fuel)) depth (e ∷ rest)) (λ r. r.0 ≡ nil)
  unfolding parse_children
  parse_children-nested fuel depth e rest n =
      let c : leb e.depth depth ≡ false = let b = n.below in ground (arith, b) in
      rw (c, n.read, n.tag)
        (Ends-tried
          (n.abbreviation.skip_attributes >>= λ _. skip_nested gimli ctx u last depth rest) _
          (λ r. r.0 ≡ nil)
          (λ left s.
            rw (parse_children-Up fuel depth left (skipped n.abbreviation.skip_attributes left s))
              refl))
    where
      skipped :
          (o : Option (Unit {0})) (left : List RawEntry)
          → (o >>= λ _. skip_nested gimli ctx u last depth rest) ≡ some left
          → Up last depth left
      skipped (some t) left s = skip_nested-Up depth rest left s
      skipped none left s = absurd cc
