-- ===== src/Debug/IntervalMap/Gaps.antt =====
-- buildtool/src/debug/util.rs: `IntervalMap` around a gap between its intervals.
use wasm_kernel.Base.{
  ℕ, ◌≤◌, ◌<◌, ◌≡◌, refl, ap, ◌∙◌, ◌⊎◌, inl, inr, Bool, true, false, none, some, List, [], ◌∷◌,
  ◌++◌, arith, leb, if◌then◌else◌, Bool-cases, Option-cases, All, done,
}
use wasm_kernel.Debug.Writer.{Interval}
use wasm_kernel.Debug.IntervalMap.{
  last_before, holds, get, put, delete, collides, insert, remove, IsSeparate,
}

module _ {V : Type 0} where
  -- The part of a map in front of a place ends there.
  abbrev pub EndsBy : ℕ → List (Interval V) → Type 0
  EndsBy top pre = All (λ i. (i.start < i.end) × (i.end ≤ top)) pre

  pub IsSeparate-mono :
      (m : List (Interval V)) (lo lo' : ℕ) → lo' ≤ lo → IsSeparate lo m → IsSeparate lo' m
  IsSeparate-mono [] lo lo' h o = tt
  IsSeparate-mono (i ∷ m) lo lo' h o = (omega (arith, o.0, h), o.1, o.2)

  last_before-behind :
      (post : List (Interval V)) (lo k : ℕ)
      → IsSeparate lo post
      → k < lo
      → last_before k post ≡ none
  unfolding last_before
  last_before-behind [] lo k o h = refl
  last_before-behind (i ∷ post) lo k o h =
      let r = last_before-behind post i.end k o.2 (omega (arith, o.0, o.1, h)) in
      ground (arith, r, o.0, h)

  -- An interval that holds an address is the last one in front of it.
  last_before-at :
      (pre post : List (Interval V)) (i : Interval V) (k : ℕ)
      → IsSeparate i.end post
      → holds i k ≡ true
      → last_before k (pre ++ i ∷ post) ≡ some i
  unfolding last_before
  last_before-at [] post i k o h =
      let r = last_before-behind post i.end k o (ground (arith, h)) in ground (arith, r, h)
  last_before-at (p ∷ pre) post i k o h =
      let r = last_before-at pre post i k o h in rw r (ground arith)

  delete-at :
      (pre post : List (Interval V)) (i : Interval V)
      → EndsBy i.start pre
      → delete i.start (pre ++ i ∷ post) ≡ pre ++ post
  unfolding delete
  delete-at [] post i e = ground arith
  delete-at (p ∷ pre) post i e = let r = delete-at pre post i e.1 in ground (arith, r, e.0)

  collides-gap :
      (pre post : List (Interval V)) (start end : ℕ)
      → EndsBy start pre
      → IsSeparate end post
      → collides start end (pre ++ post) ≡ false
  unfolding collides
  collides-gap [] [] start end e o = refl
  collides-gap [] (i ∷ post) start end e o =
      let r =
        collides-gap [] post start end tt
          (IsSeparate-mono post i.end end (omega (arith, o.0, o.1)) o.2) in
      ground (arith, r, o.0)
  collides-gap (p ∷ pre) post start end e o =
      let r = collides-gap pre post start end e.1 o in ground (arith, r, e.0)

  put-gap :
      (pre post : List (Interval V)) (i : Interval V)
      → EndsBy i.start pre
      → i.start < i.end
      → IsSeparate i.end post
      → put i (pre ++ post) ≡ pre ++ i ∷ post
  unfolding put
  put-gap [] [] i e l o = refl
  put-gap [] (j ∷ post) i e l o = ground (arith, o.0, l)
  put-gap (p ∷ pre) post i e l o = let r = put-gap pre post i e.1 l o in ground (arith, r, e.0)

  pub insert-gap :
      (pre post : List (Interval V)) (start end : ℕ) (value : V)
      → EndsBy start pre
      → start < end
      → IsSeparate end post
      → insert start end value (pre ++ post)
        ≡ done (true, pre ++ record { start = start; end = end; value = value } ∷ post)
  unfolding insert
  insert-gap pre post start end value e l o =
      let order : leb start end ≡ true = ground arith in
      rw
        (
          order,
          collides-gap pre post start end e o,
          put-gap pre post (record { start = start; end = end; value = value }) e l o,
        )
        refl

  pub get-at :
      (pre post : List (Interval V)) (i : Interval V) (k : ℕ)
      → IsSeparate i.end post
      → holds i k ≡ true
      → get k (pre ++ i ∷ post) ≡ some i
  unfolding get
  get-at pre post i k o h = rw (last_before-at pre post i k o h, h) refl

  pub remove-at :
      (pre post : List (Interval V)) (i : Interval V) (k : ℕ)
      → EndsBy i.start pre
      → IsSeparate i.end post
      → holds i k ≡ true
      → remove k (pre ++ i ∷ post) ≡ pre ++ post
  unfolding remove
  remove-at pre post i k e o h = rw (get-at pre post i k o h) (delete-at pre post i e)

  -- What `get` finds stands in the map, between what ends before it and what starts behind it.
  pub record Found (k : ℕ) (map_ : List (Interval V)) (i : Interval V) : Type 0 where
    pub pre : List (Interval V)
    pub post : List (Interval V)
    pub parts : map_ ≡ pre ++ i ∷ post
    pub before : EndsBy i.start pre
    pub behind : IsSeparate i.end post
    pub proper : i.start < i.end
    pub inside : holds i k ≡ true

  only : (b : Bool) (j i : Interval V) → (if b then some j else none) ≡ some i → j ≡ i
  only true j i h = cc
  only false j i h = absurd cc

  both : (b : Bool) (j i : Interval V) → (if b then some j else some j) ≡ some i → j ≡ i
  both true j i h = cc
  both false j i h = cc

  -- The last interval in front of an address, with what stands around it.
  last_before-Splits :
      (m : List (Interval V)) (lo k : ℕ) (i : Interval V)
      → IsSeparate lo m
      → last_before k m ≡ some i
      → (pre : List (Interval V)) × (post : List (Interval V)) × (m ≡ pre ++ i ∷ post)
        × EndsBy i.start pre
        × IsSeparate i.end post
        × (i.start < i.end)
        × (lo ≤ i.start)
  unfolding last_before
  last_before-Splits [] lo k i o h = absurd cc
  last_before-Splits (j ∷ m) lo k i o h = elim (Option-cases (last_before k m)) [
    | inl e ↦
        let same : j ≡ i = only (leb j.start k) j i (rw e at h) in
        rw (← same) ([], m, refl, tt, o.2, o.1, o.0)
    | inr (j', e) ↦
        let same : j' ≡ i = both (leb j.start k) j' i (rw e at h) in
        let (pre, post, parts, before, behind, proper, le) =
          last_before-Splits m j.end k i o.2 (e ∙ ap some same) in
        (
          j ∷ pre,
          post,
          ap (λ l. j ∷ l) parts,
          ((o.1, le), before),
          behind,
          proper,
          omega (arith, le, o.0, o.1),
        )
  ]

  pub get-Found :
      (m : List (Interval V)) (k : ℕ) (i : Interval V)
      → IsSeparate 0 m
      → get k m ≡ some i
      → Found k m i
  unfolding get
  get-Found m k i o h = elim (Option-cases (last_before k m)) [
    | inl e ↦ let h' : none ≡ some i = rw e at h in absurd cc
    | inr (j, e) ↦
        let h' : (if holds j k then some j else none) ≡ some i = rw e at h in
        let (same, inside) = held j i (Bool-cases (holds j k)) h' in
        let (pre, post, parts, before, behind, proper, le) =
          last_before-Splits m 0 k i o (e ∙ ap some same) in
        record {
          pre = pre;
          post = post;
          parts = parts;
          before = before;
          behind = behind;
          proper = proper;
          inside = inside;
        }
  ]
    where
      held :
          (j i : Interval V)
          → (holds j k ≡ true) ⊎ (holds j k ≡ false)
          → (if holds j k then some j else none) ≡ some i
          → (j ≡ i) × (holds i k ≡ true)
      held j i (inl c) h =
          let h' : some j ≡ some i = rw c at h in let same : j ≡ i = cc in (same, rw (← same) c)
      held j i (inr c) h = let h' : none ≡ some i = rw c at h in absurd cc
