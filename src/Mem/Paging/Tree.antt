-- ===== src/Mem/Paging/Tree.antt =====
-- src/arch/x86_64/paging.rs: the tree of tables when an entry is written and when a table is added.
use wasm_kernel.Base.{
  ℕ, ◌+◌, ◌<◌, ◌≡◌, refl, ◌⊎◌, inl, inr, Bool, true, false, ◌&&◌, Option, none, some, List, [], ◌∷◌,
  arith, ◌==◌, ==_iff, Bool-cases, length,
}
use wasm_kernel.Mem.Paging.{X86, write_entry}
use wasm_kernel.Mem.Paging.Walk.{found, lookup, lookup-cons, IsPermissive, IsTree}

-- The entry at an index of a table with a path stands on the way by some indices.
abbrev pub Hits : List ℕ → List ℕ → List ℕ → Type 0
Hits p [] target = ⊥
Hits p (k ∷ q) target = (k ∷ p ≡ target) ⊎ Hits (k ∷ p) q target

module _ {E : Type 0} (x : X86 E) (base : ℕ) where
  pub found_eq :
      (e : E) (q : List ℕ) (r r' : Option (E × List ℕ))
      → ((x.flags e).p ≡ true → (x.flags e).ps ≡ false → 0 < length q → r ≡ r')
      → found x base e q r ≡ found x base e q r'
  found_eq e [] r r' h = refl
  found_eq e (j ∷ q) r r' h = elim (Bool-cases (x.flags e).p) [
    | inl present ↦ elim (Bool-cases (x.flags e).ps) [
      | inl large ↦ rw (present, large) refl
      | inr table ↦ rw (present, table) (h present table (omega arith))
    ]
    | inr absent ↦ rw absent refl
  ]

  -- Two walks agree that read the same entry and agree behind it.
  pub lookup-step :
      (tables tables' : ℕ → ℕ → E) (t k : ℕ) (q : List ℕ)
      → tables' t k ≡ tables t k
      → ((x.flags (tables t k)).p ≡ true
          → (x.flags (tables t k)).ps ≡ false
          → 0 < length q
          → lookup x base tables' (base + x.entry_address (tables t k)) q
            ≡ lookup x base tables (base + x.entry_address (tables t k)) q)
      → lookup x base tables' t (k ∷ q) ≡ lookup x base tables t (k ∷ q)
  lookup-step tables tables' t k q e h =
      rw (lookup-cons x base tables' t k q, lookup-cons x base tables t k q, e)
        (found_eq (tables t k) q _ _ h)

module _ {ℓ} {A : Type ℓ} where
  pub owned_ne :
      (own : ℕ → Option A) (a b : ℕ) (p : A) → own a ≡ some p → own b ≡ none → (a == b) ≡ false
  owned_ne own a b p ha hb = elim (Bool-cases (a == b)) [
    | inl e ↦ let same : a ≡ b = (==_iff a b).0 e in absurd cc
    | inr e ↦ e
  ]

module _ {E : Type 0} (x : X86 E) (base size : ℕ) (own : ℕ → Option (List ℕ)) (tables : ℕ → ℕ → E)
    (t i : ℕ) (p : List ℕ) (owned : own t ≡ some p) where
  abbrev pub is_at : ℕ → ℕ → Bool
  is_at t0 k = t0 == t && k == i

  pub same_place :
      (t0 k : ℕ) (p0 : List ℕ)
      → own t0 ≡ some p0
      → is_at t0 k ≡ true
      → (t0 ≡ t) × (k ≡ i) × (p0 ≡ p)
  same_place t0 k p0 o here =
      let same_t : t0 ≡ t = ground arith in
      let same_i : k ≡ i = ground arith in (same_t, same_i, cc)

  -- An entry written at a table.
  module _ (frames : List ℕ) (tree : IsTree x base size own tables frames) (e : E) where
    pub write_entry-IsTree :
        ((x.flags e).ps ≡ true) ⊎ (length p ≡ 3)
        → IsTree x base size own (write_entry tables t i e) frames
    write_entry-IsTree ends = record {
      child = λ t0 k p0 o l present table. kept t0 k p0 o l (Bool-cases (is_at t0 k)) present table;
      fresh = tree.fresh;
      distinct = tree.distinct;
    }
      where
        kept :
            (t0 k : ℕ) (p0 : List ℕ)
            → own t0 ≡ some p0
            → length p0 < 3
            → (is_at t0 k ≡ true) ⊎ (is_at t0 k ≡ false)
            → (x.flags (write_entry tables t i e t0 k)).p ≡ true
            → (x.flags (write_entry tables t i e t0 k)).ps ≡ false
            → (own (base + x.entry_address (write_entry tables t i e t0 k)) ≡ some (k ∷ p0))
              × (x.entry_address (write_entry tables t i e t0 k) < size)
              × IsPermissive (x.flags (write_entry tables t i e t0 k))
        kept t0 k p0 o l (inl here) = rw here λ present table.
            let (_, _, same) = same_place t0 k p0 o here in
            elim ends [
              | inl large ↦ absurd cc
              | inr leaf ↦
                  let three : length p0 ≡ 3 = rw same leaf in absurd (omega (arith, three, l))
            ]
        kept t0 k p0 o l (inr there) =
            rw there λ present table. tree.child t0 k p0 o l present table

    pub lookup-write_entry :
        (q : List ℕ) (t0 : ℕ) (p0 : List ℕ)
        → own t0 ≡ some p0
        → length q + length p0 ≡ 4
        → ¬ (Hits p0 q (i ∷ p))
        → lookup x base (write_entry tables t i e) t0 q ≡ lookup x base tables t0 q
    unfolding lookup
    lookup-write_entry [] t0 p0 o l off = refl
    lookup-write_entry (k ∷ q) t0 p0 o l off = elim (Bool-cases (is_at t0 k)) [
      | inl here ↦ let (_, same_i, same) = same_place t0 k p0 o here in absurd (off (inl cc))
      | inr there ↦
          lookup-step x base tables (write_entry tables t i e) t0 k q (rw there refl)
            (λ present table more.
              lookup-write_entry q (base + x.entry_address (tables t0 k)) (k ∷ p0)
                (tree.child t0 k p0 o (omega (arith, l, more)) present table).0 (omega (arith, l))
                (λ h. off (inr h)))
    ]
