-- ===== src/Mem/Paging/NewTable.antt =====
-- src/arch/x86_64/paging.rs: the tree of tables with one table more.
use wasm_kernel.Base.{
  ℕ, ◌+◌, ◌*◌, ◌^◌, ◌≤◌, ◌<◌, ◌≡◌, refl, ap, ◌≢◌, inl, inr, Bool, false, Option, none, some, List,
  [], ◌∷◌, arith, ◌==◌, ==_iff, Bool-cases, length, All,
}
use wasm_kernel.Mem.Paging.{X86, page_map_flags}
use wasm_kernel.Mem.Paging.Walk.{lookup, lookup-cons, Clear, IsTree, adopt, grown}
use wasm_kernel.Mem.Paging.Tree.{lookup-step, owned_ne, is_at, same_place}

module _ {E : Type 0} (x : X86 E) (base size : ℕ) (own : ℕ → Option (List ℕ)) (tables : ℕ → ℕ → E)
    (t i : ℕ) (p : List ℕ) (owned : own t ≡ some p) (f : ℕ) (fs : List ℕ)
    (tree : IsTree x base size own tables (f ∷ fs)) (size_bound : size ≤ 2 ^ 52) where
  abbrev here' : ℕ → ℕ → Bool
  here' = is_at x base size own tables t i p owned

  -- The address of the new table, the entry that points to it, and the tables with both.
  abbrev new_at : ℕ
  new_at = base + f * 4096

  abbrev pointer : E
  pointer = x.new_entry (f * 4096) page_map_flags

  abbrev tables' : ℕ → ℕ → E
  tables' = grown x base tables t i f

  pub pointer-flags : x.flags pointer ≡ page_map_flags
  pointer-flags =
      x.flags-new (f * 4096) page_map_flags (omega arith)
        (omega (arith, tree.fresh.0.0, size_bound))

  pub pointer-address : x.entry_address pointer ≡ f * 4096
  pointer-address =
      x.address-new (f * 4096) page_map_flags (omega arith)
        (omega (arith, tree.fresh.0.0, size_bound))

  tables'-new : (k : ℕ) → tables' new_at k ≡ x.empty
  tables'-new k = let apart = owned_ne own t new_at p owned tree.fresh.0.1 in ground (arith, apart)

  pub tables'-other :
      (t0 k : ℕ) (p0 : List ℕ) → own t0 ≡ some p0 → here' t0 k ≡ false → tables' t0 k ≡ tables t0 k
  tables'-other t0 k p0 o there =
      let apart = owned_ne own t0 new_at p0 o tree.fresh.0.1 in rw (there, apart) refl

  pub tables'-here : tables' t i ≡ pointer
  tables'-here = ground arith

  lookup-new : (q : List ℕ) → lookup x base tables' new_at q ≡ none
  unfolding lookup
  lookup-new [] = refl
  lookup-new (k ∷ []) = rw (lookup-cons x base tables' new_at k [], tables'-new k, x.p-empty) refl
  lookup-new (k ∷ j ∷ q) =
      rw (lookup-cons x base tables' new_at k (j ∷ q), tables'-new k, x.p-empty) refl

  pub Clear-new : (q : List ℕ) → Clear x base tables' new_at q
  Clear-new [] = tt
  Clear-new (k ∷ q) = rw (tables'-new k) λ present. absurd (ground (arith, x.p-empty))

  lookup-here :
      (q : List ℕ)
      → (x.flags (tables t i)).p ≡ false
      → 0 < length q
      → lookup x base tables' t (i ∷ q) ≡ lookup x base tables t (i ∷ q)
  lookup-here [] absent more = absurd (omega (arith, more))
  lookup-here (j ∷ q) absent more =
      rw
        (
          lookup-cons x base tables' t i (j ∷ q),
          lookup-cons x base tables t i (j ∷ q),
          tables'-here,
          pointer-address,
          lookup-new (j ∷ q),
          pointer-flags,
          absent,
        )
        refl

  -- A walk that ended at the absent entry still finds nothing; the others are as they were.
  pub lookup-grown :
      (x.flags (tables t i)).p ≡ false
      → length p < 3
      → (q : List ℕ) (t0 : ℕ) (p0 : List ℕ) → own t0 ≡ some p0
      → length q + length p0 ≡ 4
      → lookup x base tables' t0 q ≡ lookup x base tables t0 q
  unfolding lookup
  lookup-grown absent short [] t0 p0 o l = refl
  lookup-grown absent short (k ∷ q) t0 p0 o l = elim (Bool-cases (here' t0 k)) [
    | inl here ↦
        let (same_t, same_i, same) = same_place x base size own tables t i p owned t0 k p0 o here in
        let same_length : length p0 ≡ length p = ap length same in
        rw (same_t, same_i) (lookup-here q absent (omega (arith, l, short, same_length)))
    | inr there ↦
        lookup-step x base tables tables' t0 k q (tables'-other t0 k p0 o there)
          (λ present table more.
            lookup-grown absent short q (base + x.entry_address (tables t0 k)) (k ∷ p0)
              (tree.child t0 k p0 o (omega (arith, l, more)) present table).0 (omega (arith, l)))
  ]

  fresh_left :
      (gs : List ℕ)
      → All (λ g. g ≢ f) gs
      → All (λ g. (g * 4096 < size) × (own (base + g * 4096) ≡ none)) gs
      → All (λ g. (g * 4096 < size) × (adopt own new_at (i ∷ p) (base + g * 4096) ≡ none)) gs
  fresh_left [] apart h = tt
  fresh_left (g ∷ gs) apart h = ((h.0.0, ground (arith, apart.0, h.0.1)), fresh_left gs apart.1 h.1)

  pub adopt-owned :
      (t0 : ℕ) (p0 : List ℕ) → own t0 ≡ some p0 → adopt own new_at (i ∷ p) t0 ≡ some p0
  adopt-owned t0 p0 o = let apart = owned_ne own t0 new_at p0 o tree.fresh.0.1 in rw apart o

  pub grown-IsTree : IsTree x base size (adopt own new_at (i ∷ p)) tables' fs
  grown-IsTree = record {
    child = λ t0 k p0 o l present table. elim (Bool-cases (t0 == new_at)) [
      | inl new ↦
          let same : t0 ≡ new_at = (==_iff t0 new_at).0 new in
          let none_at : (x.flags (tables' t0 k)).p ≡ false = rw (same, tables'-new k) x.p-empty in
          absurd cc
      | inr old ↦
          let o' : own t0 ≡ some p0 = ground (arith, o, old) in
          elim (Bool-cases (here' t0 k)) [
            | inl here ↦
                let (same_t, same_i, same) =
                  same_place x base size own tables t i p owned t0 k p0 o' here in
                rw (same_t, same_i, same, tables'-here, pointer-address)
                  (
                    ground arith,
                    tree.fresh.0.0,
                    rw pointer-flags (record { writes = refl; user = refl; executes = refl }),
                  )
            | inr there ↦
                let e = tables'-other t0 k p0 o' there in
                let known = tree.child t0 k p0 o' l (rw (← e) present) (rw (← e) table) in
                rw e (
                  adopt-owned (base + x.entry_address (tables t0 k)) (k ∷ p0) known.0,
                  known.1,
                  known.2,
                )
          ]
    ];
    fresh = fresh_left fs tree.distinct.0 tree.fresh.1;
    distinct = tree.distinct.1;
  }
