-- ===== src/Tests/Trees.antt =====
-- A tree of the crate intrusive_collections, as a list that is searched for the least key.
use wasm_kernel.Base.{
  ℕ, ◌+◌, ◌≤◌, ◌<◌, ◌≡◌, refl, ◌⊎◌, inl, inr, Bool, true, false, Option, none, some, List, [], ◌∷◌,
  arith, leb, if◌then◌else◌, leb→le, Bool-cases,
}
use wasm_kernel.Mem.Range.{AddressRange}
use wasm_kernel.Mem.RbTree.{Bound, above, RbTree, RbTreeLaws, total, is_same, count}

abbrev remove_node : AddressRange → List AddressRange → List AddressRange
remove_node r [] = []
remove_node r (x ∷ xs) = if is_same x r then xs else x ∷ remove_node r xs

module _ (key : AddressRange → ℕ) where
  abbrev pick_least : Bool → AddressRange → Option AddressRange → Option AddressRange
  pick_least false r m = m
  pick_least true r none = some r
  pick_least true r (some s) = if leb (key r) (key s) then some r else some s

  abbrev least : Bound → List AddressRange → Option AddressRange
  least b [] = none
  least b (r ∷ rs) = pick_least (above b (key r)) r (least b rs)

  abbrev pub list_tree : RbTree key
  list_tree = record {
    Tree = List AddressRange;
    default = [];
    iter = λ t. t;
    insert = λ r t. r ∷ t;
    lower_bound = least;
    remove = remove_node;
  }

  remove_node-total :
      (w : AddressRange → ℕ) (r : AddressRange) (t : List AddressRange)
      → 0 < count r t
      → total w (remove_node r t) + w r ≡ total w t
  unfolding total
  remove_node-total w r [] h = absurd (omega (arith, h))
  remove_node-total w r (x ∷ xs) h = elim (Bool-cases (is_same x r)) [
    | inl e ↦ let p : x ≡ r = ground (arith, e) in rw (e, p) (omega arith)
    | inr e ↦
        let rest = remove_node-total w r xs (let k = rw e at h in omega (arith, k)) in
        rw e (omega (arith, rest))
  ]

  -- What the search gives, and what it gives nothing for.
  abbrev Least : Bound → List AddressRange → Option AddressRange → Type 0
  Least b t none = (s : AddressRange) → 0 < count s t → above b (key s) ≡ false
  Least b t (some r) =
      (0 < count r t)
      × (above b (key r) ≡ true)
      × ((s : AddressRange) → 0 < count s t → above b (key s) ≡ true → key r ≤ key s)

  same-key : (x s : AddressRange) → is_same x s ≡ true → x ≡ s
  same-key x s h = ground (arith, h)

  in_rest :
      (x s : AddressRange) (xs : List AddressRange)
      → 0 < count s (x ∷ xs)
      → (x ≡ s) ⊎ (0 < count s xs)
  unfolding total
  in_rest x s xs h = elim (Bool-cases (is_same x s)) [
    | inl e ↦ inl (same-key x s e)
    | inr e ↦ inr (let k = rw e at h in omega (arith, k))
  ]

  step-Least :
      (b : Bound) (x : AddressRange) (xs : List AddressRange) (m : Option AddressRange) (c : Bool)
      → above b (key x) ≡ c
      → Least b xs m
      → Least b (x ∷ xs) (pick_least c x m)
  unfolding total
  step-Least b x xs none false e h =
      λ s q. elim (in_rest x s xs q) [ inl p ↦ rw (← p) e | inr k ↦ h s k ]
  step-Least b x xs (some r) false e h = (
    omega (arith, h.0),
    h.1,
    λ s q a. elim (in_rest x s xs q) [
      | inl p ↦ let a' : above b (key x) ≡ true = rw p a in cc
      | inr k ↦ h.2 s k a
    ],
  )
  step-Least b x xs none true e h = (
    ground arith,
    e,
    λ s q a. elim (in_rest x s xs q) [ inl p ↦ rw p (omega arith) | inr k ↦ let n = h s k in cc ],
  )
  step-Least b x xs (some r) true e h = elim (Bool-cases (leb (key x) (key r))) [
    | inl le ↦ rw le (
      ground arith,
      e,
      λ s q a. elim (in_rest x s xs q) [
        | inl p ↦ rw p (omega arith)
        | inr k ↦ let l = leb→le (key x) (key r) le in let m = h.2 s k a in omega (arith, l, m)
      ],
    )
    | inr gt ↦ rw gt (
      omega (arith, h.0),
      h.1,
      λ s q a. elim (in_rest x s xs q) [
        | inl p ↦ rw (← p) (ground (arith, gt))
        | inr k ↦ h.2 s k a
      ],
    )
  ]

  least-Least : (b : Bound) (t : List AddressRange) → Least b t (least b t)
  least-Least b [] = λ s h. absurd (unfold total in omega (arith, h))
  least-Least b (x ∷ xs) = step-Least b x xs (least b xs) (above b (key x)) refl (least-Least b xs)

  pub list_tree-laws : RbTreeLaws list_tree
  list_tree-laws = record {
    iter_default = refl;
    insert_total = λ w r t. unfold total in omega arith;
    remove_total = remove_node-total;
    lower_bound_none = λ b t e. rw e at (least-Least b t);
    lower_bound_some = λ b t r e. let h = rw e at (least-Least b t) in (h.0, h.1);
    lower_bound_least = λ b t r e. let h = rw e at (least-Least b t) in h.2;
  }
