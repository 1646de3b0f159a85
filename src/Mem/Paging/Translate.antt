-- ===== src/Mem/Paging/Translate.antt =====
-- src/arch/x86_64/paging.rs: the pages as the processor translates them, by their indices.
use wasm_kernel.Base.{
  ◌∙◌, length, Bool-cases, if◌then◌else◌, ℕ, ◌+◌, ◌/◌, ◌%◌, ◌^◌, ◌≡◌, refl, ap, inl, inr, Bool,
  true, false, not, Option, none, some, List, [], ◌∷◌, ◌++◌, arith, ◌==◌, ==_iff,
}
use wasm_kernel.Mem.Paging.{X86, EntryFlags, PageFlags, page_flags}
use wasm_kernel.Mem.Paging.Cover.{PageKind, small, medium, large, pages_of}
use wasm_kernel.Mem.Paging.Walk.{offset, rights, lookup, walk, restrict, IsPermissive, IsTree}
use wasm_kernel.Mem.Paging.Tree.{Hits}
use wasm_kernel.Mem.Paging.Put.{onto}

-- The indices of a page in four levels of tables, which read 36 bits of its number.
abbrev pub indices : ℕ → List ℕ
indices v = v / 134217728 % 512 ∷ v / 262144 % 512 ∷ v / 512 % 512 ∷ v % 512 ∷ []

abbrev pub page_numbers : ℕ
page_numbers = 2 ^ 36

-- The indices before that of the entry of a page of some size, that index, and those behind it.
abbrev pub path_of : PageKind → ℕ → List ℕ
path_of small v = v / 134217728 % 512 ∷ v / 262144 % 512 ∷ v / 512 % 512 ∷ []
path_of medium v = v / 134217728 % 512 ∷ v / 262144 % 512 ∷ []
path_of large v = v / 134217728 % 512 ∷ []

abbrev pub last_of : PageKind → ℕ → ℕ
last_of small v = v % 512
last_of medium v = v / 512 % 512
last_of large v = v / 262144 % 512

abbrev pub rest_of : PageKind → ℕ → List ℕ
rest_of small v = []
rest_of medium v = v % 512 ∷ []
rest_of large v = v / 512 % 512 ∷ v % 512 ∷ []

-- Two page numbers lie in one page of a size, to the processor.
abbrev pub same_page : PageKind → ℕ → ℕ → Bool
same_page kind v virt = v % page_numbers / pages_of kind == virt % page_numbers / pages_of kind

not_not : (b : Bool) → not (not b) ≡ b
not_not true = refl
not_not false = refl

pub rights-page_flags : (big : Bool) (flags : PageFlags) → rights (page_flags big flags) ≡ flags
rights-page_flags big flags = ap (λ b. record flags { execute = b }) (not_not flags.execute)

module _ {E : Type 0} (x : X86 E) where
  -- The frame of an entry that maps a page, and its rights.
  abbrev pub resolve : Option (E × List ℕ) → Option (ℕ × PageFlags)
  resolve none = none
  resolve (some (e, q)) = some (x.entry_address e / 4096 + offset q, rights (x.flags e))

  restrict-permissive :
      (f : EntryFlags) (r : Option (ℕ × PageFlags)) → IsPermissive f → restrict f r ≡ r
  restrict-permissive f none h = refl
  restrict-permissive f (some (frame, r)) h = rw (h.writes, h.user, h.executes) refl

  -- Through tables that take no right away, the rights are those of the entry that maps the page.
  pub walk-resolve :
      (base size : ℕ) (own : ℕ → Option (List ℕ)) (tables : ℕ → ℕ → E) (frames : List ℕ)
      → IsTree x base size own tables frames
      → (q : List ℕ) (t : ℕ) (p : List ℕ) → own t ≡ some p
      → length q + length p ≡ 4
      → walk x base tables t q ≡ resolve (lookup x base tables t q)
  unfolding walk lookup
  walk-resolve base size own tables frames tree [] t p o l = refl
  walk-resolve base size own tables frames tree (i ∷ []) t p o l =
      elim (Bool-cases (x.flags (tables t i)).p) [
        | inl present ↦ rw present (ap (λ n. some (n, rights (x.flags (tables t i)))) (omega arith))
        | inr absent ↦ rw absent refl
      ]
  walk-resolve base size own tables frames tree (i ∷ j ∷ q) t p o l =
      elim (Bool-cases (x.flags (tables t i)).p) [
        | inl present ↦ elim (Bool-cases (x.flags (tables t i)).ps) [
          | inl big ↦ rw (present, big) refl
          | inr table ↦
              let child = tree.child t i p o (omega (arith, l)) present table in
              rw (present, table)
                (restrict-permissive (x.flags (tables t i)) _ (child.2)
                  ∙ walk-resolve base size own tables frames tree (j ∷ q)
                      (base + x.entry_address (tables t i)) (i ∷ p) child.0 (omega (arith, l)))
        ]
        | inr absent ↦ rw absent refl
      ]

-- Whether five levels of tables are in use: `get_higher_half_addr` reads the same answer.
abbrev pub is_five_level : Option Bool → Bool
is_five_level none = false
is_five_level (some five_level) = five_level

-- The indices that the processor walks by, from the first table on.
abbrev pub walked : Option Bool → ℕ → List ℕ
walked mode v = if is_five_level mode then v / 68719476736 % 512 ∷ indices v else indices v

pub indices_split :
    (kind : PageKind) (v : ℕ) → indices v ≡ path_of kind v ++ last_of kind v ∷ rest_of kind v
indices_split small v = refl
indices_split medium v = refl
indices_split large v = refl

pub offset-rest_of : (kind : PageKind) (v : ℕ) → offset (rest_of kind v) ≡ v % pages_of kind
offset-rest_of small v = omega arith
offset-rest_of medium v = omega arith
offset-rest_of large v = omega arith

pub same_path :
    (kind : PageKind) (v w : ℕ)
    → same_page kind v w ≡ true
    → (path_of kind v ≡ path_of kind w) × (last_of kind v ≡ last_of kind w)
same_path small v w h =
    let e = (==_iff (v % page_numbers / 1) (w % page_numbers / 1)).0 h in
    let a : v / 134217728 % 512 ≡ w / 134217728 % 512 = omega (arith, e) in
    let b : v / 262144 % 512 ≡ w / 262144 % 512 = omega (arith, e) in
    let c : v / 512 % 512 ≡ w / 512 % 512 = omega (arith, e) in
    (rw (a, b, c) refl, omega (arith, e))
same_path medium v w h =
    let e = (==_iff (v % page_numbers / 512) (w % page_numbers / 512)).0 h in
    let a : v / 134217728 % 512 ≡ w / 134217728 % 512 = omega (arith, e) in
    let b : v / 262144 % 512 ≡ w / 262144 % 512 = omega (arith, e) in
    (rw (a, b) refl, omega (arith, e))
same_path large v w h =
    let e = (==_iff (v % page_numbers / 262144) (w % page_numbers / 262144)).0 h in
    let a : v / 134217728 % 512 ≡ w / 134217728 % 512 = omega (arith, e) in
    (rw a refl, omega (arith, e))

-- The way by four indices meets an entry just below the tables of its own path.
Hits-small :
    (a b c i a' b' c' i' : ℕ)
    → Hits [] (a ∷ b ∷ c ∷ i ∷ []) (i' ∷ c' ∷ b' ∷ a' ∷ [])
    → (a ≡ a') × (b ≡ b') × (c ≡ c') × (i ≡ i')
Hits-small a b c i a' b' c' i' (inl e) = absurd cc
Hits-small a b c i a' b' c' i' (inr (inl e)) = absurd cc
Hits-small a b c i a' b' c' i' (inr (inr (inl e))) = absurd cc
Hits-small a b c i a' b' c' i' (inr (inr (inr (inl e)))) = (cc, cc, cc, cc)
Hits-small a b c i a' b' c' i' (inr (inr (inr (inr e)))) = absurd e

Hits-medium :
    (a b c i a' b' c' : ℕ)
    → Hits [] (a ∷ b ∷ c ∷ i ∷ []) (c' ∷ b' ∷ a' ∷ [])
    → (a ≡ a') × (b ≡ b') × (c ≡ c')
Hits-medium a b c i a' b' c' (inl e) = absurd cc
Hits-medium a b c i a' b' c' (inr (inl e)) = absurd cc
Hits-medium a b c i a' b' c' (inr (inr (inl e))) = (cc, cc, cc)
Hits-medium a b c i a' b' c' (inr (inr (inr (inl e)))) = absurd cc
Hits-medium a b c i a' b' c' (inr (inr (inr (inr e)))) = absurd e

Hits-large : (a b c i a' b' : ℕ) → Hits [] (a ∷ b ∷ c ∷ i ∷ []) (b' ∷ a' ∷ []) → (a ≡ a') × (b ≡ b')
Hits-large a b c i a' b' (inl e) = absurd cc
Hits-large a b c i a' b' (inr (inl e)) = (cc, cc)
Hits-large a b c i a' b' (inr (inr (inl e))) = absurd cc
Hits-large a b c i a' b' (inr (inr (inr (inl e)))) = absurd cc
Hits-large a b c i a' b' (inr (inr (inr (inr e)))) = absurd e

pub Hits-same_page :
    (kind : PageKind) (v w : ℕ)
    → Hits [] (indices v) (last_of kind w ∷ onto (path_of kind w) [])
    → same_page kind v w ≡ true
Hits-same_page small v w h =
    let e = Hits-small _ _ _ _ _ _ _ _ h in
    (==_iff (v % page_numbers / 1) (w % page_numbers / 1)).1 (omega (arith, e))
Hits-same_page medium v w h =
    let e = Hits-medium _ _ _ _ _ _ _ h in
    (==_iff (v % page_numbers / 512) (w % page_numbers / 512)).1 (omega (arith, e))
Hits-same_page large v w h =
    let e = Hits-large _ _ _ _ _ _ h in
    (==_iff (v % page_numbers / 262144) (w % page_numbers / 262144)).1 (omega (arith, e))
