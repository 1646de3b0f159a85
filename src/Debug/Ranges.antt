-- ===== src/Debug/Ranges.antt =====
-- buildtool/src/debug/io.rs: `filter_ranges`, which joins the neighbours with the same value.
use wasm_kernel.Base.{
  ℕ, ◌≤◌, ◌<◌, ◌≡◌, refl, ap, ◌∙◌, ◌⊎◌, inl, inr, Bool, true, false, Option, none, some, List, [],
  ◌∷◌, arith, leb, ◌==◌, if◌then◌else◌, Bool-cases, All, Run, done, panic, ◌>>=◌, assert,
  >>=-eq-done,
}

-- `filter_ranges` over a type with a test for equality and with the value `NULL`.
module _ {T : Type 0} (same : T → T → Bool) (null : T) where
  abbrev merged : Bool → Bool → Bool → ℕ × T → ℕ × T → Run (Option (ℕ × T))
  merged true at is_null current next = done (some current)
  merged false true true current next = done (some next)
  merged false true false current next = panic
  merged false false is_null current next = done none

  unfoldable pub can_merge : ℕ × T → ℕ × T → Run (Option (ℕ × T))
  can_merge current next = assert (leb (current.0) (next.0)) >>= λ _.
      merged (same (current.1) (next.1)) (current.0 == next.0) (same (current.1) null) current next

  -- The loop, with the pair `prev` that is not yielded yet.
  unfoldable pub filter_loop : ℕ × T → List (ℕ × T) → Run (List (ℕ × T))
  filter_loop prev [] = done (prev ∷ [])
  filter_loop prev (ele ∷ rest) = can_merge prev ele >>= λ new. elim new [
    | some p ↦ filter_loop p rest
    | none ↦ filter_loop ele rest >>= λ yielded. done (prev ∷ yielded)
  ]

  unfoldable pub filter_ranges : List (ℕ × T) → Run (List (ℕ × T))
  filter_ranges [] = done []
  filter_ranges (prev ∷ rest) = filter_loop prev rest

-- The value of the last pair at or before the address; `seen` is the one found in front of the list.
unfoldable pub value_at : {T : Type 0} → ℕ → Option T → List (ℕ × T) → Option T
value_at target seen [] = seen
value_at target seen ((addr, value) ∷ rest) =
    value_at target (if leb addr target then some value else seen) rest

-- The addresses do not fall, from the given one on.
abbrev pub Ascends : {T : Type 0} → ℕ → List (ℕ × T) → Type 0
Ascends base [] = Unit
Ascends base (p ∷ rest) = (base ≤ p.0) × Ascends (p.0) rest

-- The addresses rise, behind the given one.
abbrev pub Rises : {T : Type 0} → ℕ → List (ℕ × T) → Type 0
Rises base [] = Unit
Rises base (p ∷ rest) = (base < p.0) × Rises (p.0) rest

module _ {T : Type 0} (same : T → T → Bool) (null : T)
    (same_iff : (x y : T) → same x y ≡ true → x ≡ y) where
  abbrev Merges : ℕ × T → ℕ × T → Type 0
  Merges prev ele =
      (can_merge same null prev ele ≡ panic)
      ⊎ ((can_merge same null prev ele ≡ done (some prev)) × (prev.0 ≤ ele.0) × (prev.1 ≡ ele.1))
      ⊎ ((can_merge same null prev ele ≡ done (some ele)) × (prev.0 ≡ ele.0))
      ⊎ ((can_merge same null prev ele ≡ done none) × (prev.0 < ele.0))

  can_merge-Merges : (prev ele : ℕ × T) → Merges prev ele
  unfolding can_merge
  can_merge-Merges prev ele = elim (Bool-cases (leb (prev.0) (ele.0))) [
    | inr h ↦ inl (rw h refl)
    | inl h ↦ elim (Bool-cases (same (prev.1) (ele.1))) [
      | inl s ↦ inr (inl (rw (h, s) refl, ground (arith, h), same_iff (prev.1) (ele.1) s))
      | inr s ↦ elim (Bool-cases (prev.0 == ele.0)) [
        | inr a ↦ inr (inr (inr (rw (h, s, a) refl, ground (arith, h, a))))
        | inl a ↦ elim (Bool-cases (same (prev.1) null)) [
          | inl n ↦ inr (inr (inl (rw (h, s, a, n) refl, ground (arith, a))))
          | inr n ↦ inl (rw (h, s, a, n) refl)
        ]
      ]
    ]
  ]

  -- What the loop yields agrees with what it reads, at every address, and its addresses rise.
  abbrev Agrees : ℕ × T → List (ℕ × T) → List (ℕ × T) → Type 0
  Agrees prev rest out =
      ((target : ℕ) (seen : Option T)
        → value_at target seen out ≡ value_at target seen (prev ∷ rest))
      × ((base : ℕ) → base < prev.0 → Rises base out)

  filter_loop-Agrees :
      (prev : ℕ × T) (rest out : List (ℕ × T))
      → filter_loop same null prev rest ≡ done out
      → Agrees prev rest out
  unfolding filter_loop value_at
  filter_loop-Agrees prev [] out e =
      let out_e : prev ∷ [] ≡ out = cc in rw (← out_e) (λ target seen. refl, λ base h. (h, tt))
  filter_loop-Agrees prev (ele ∷ rest) out e = elim (can_merge-Merges prev ele) [
    | inl m ↦ let e' = rw m at e in cc
    | inr (inl m) ↦
        let (agree, rise) = filter_loop-Agrees prev rest out (rw (m.0) at e) in
        (
          λ target seen.
              agree target seen ∙ ap (λ v. value_at target v rest) (ground (arith, m.1, m.2)),
          rise,
        )
    | inr (inr (inl m)) ↦
        let (agree, rise) = filter_loop-Agrees ele rest out (rw (m.0) at e) in
        (
          λ target seen. agree target seen ∙ ap (λ v. value_at target v rest) (ground (arith, m.1)),
          λ base h. rise base (rw (← (m.1)) h),
        )
    | inr (inr (inr m)) ↦
        let e' = rw (m.0) at e in
        let (yielded, loop_e, out_e) = >>=-eq-done (filter_loop same null ele rest) _ e' in
        let (agree, rise) = filter_loop-Agrees ele rest yielded loop_e in
        let out_e' : prev ∷ yielded ≡ out = ground (arith, out_e) in
        rw (← out_e') (λ target seen. agree target _, λ base h. (h, rise (prev.0) (m.1)))
  ]

  filter_loop-All :
      (P : ℕ × T → Type 0) (prev : ℕ × T) (rest out : List (ℕ × T))
      → filter_loop same null prev rest ≡ done out
      → P prev
      → All P rest
      → All P out
  unfolding filter_loop
  filter_loop-All P prev [] out e p h = let out_e : prev ∷ [] ≡ out = cc in rw (← out_e) (p, tt)
  filter_loop-All P prev (ele ∷ rest) out e p h = elim (can_merge-Merges prev ele) [
    | inl m ↦ let e' = rw m at e in cc
    | inr (inl m) ↦ filter_loop-All P prev rest out (rw (m.0) at e) p (h.1)
    | inr (inr (inl m)) ↦ filter_loop-All P ele rest out (rw (m.0) at e) (h.0) (h.1)
    | inr (inr (inr m)) ↦
        let (yielded, loop_e, out_e) =
          >>=-eq-done (filter_loop same null ele rest) _ (rw (m.0) at e) in
        let out_e' : prev ∷ yielded ≡ out = ground (arith, out_e) in
        rw (← out_e') (p, filter_loop-All P ele rest yielded loop_e (h.0) (h.1))
  ]

  -- Each pair that is yielded is one that was read.
  pub filter_ranges-All :
      (P : ℕ × T → Type 0) (ranges out : List (ℕ × T))
      → filter_ranges same null ranges ≡ done out
      → All P ranges
      → All P out
  unfolding filter_ranges
  filter_ranges-All P [] out e h = let out_e : [] ≡ out = cc in rw (← out_e) tt
  filter_ranges-All P (prev ∷ rest) out e h = filter_loop-All P prev rest out e (h.0) (h.1)

  -- Where the ranges can be joined, the joined list has the same value at every address as the list it
  -- is made from, and its addresses rise strictly.
  pub filter_ranges-value_at :
      (ranges out : List (ℕ × T))
      → filter_ranges same null ranges ≡ done out
      → ((target : ℕ) → value_at target none out ≡ value_at target none ranges)
        × (Ascends 1 ranges → Rises 0 out)
  unfolding filter_ranges value_at
  filter_ranges-value_at [] out e =
      let out_e : [] ≡ out = cc in rw (← out_e) (λ target. refl, λ h. tt)
  filter_ranges-value_at (prev ∷ rest) out e =
      let (agree, rise) = filter_loop-Agrees prev rest out e in
      (λ target. agree target none, λ h. rise 0 (h.0))
