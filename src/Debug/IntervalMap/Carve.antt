-- ===== src/Debug/IntervalMap/Carve.antt =====
-- buildtool/src/debug/io.rs: the range of an inlined function, cut out of that of its parent.
use wasm_kernel.Base.{
  ℕ, ◌≤◌, ◌<◌, ◌≡◌, refl, sym, ap, ◌∙◌, inl, inr, true, ◌&&◌, some, List, [], ◌∷◌, ◌++◌, arith, ltb,
  leb, ◌==◌, if◌then◌else◌, ltb→lt, Bool-cases, append_assoc, All-append, Run, done, ◌>>=◌, ◌>>◌,
  assert, unwrap,
}
use wasm_kernel.Debug.Writer.{Interval}
use wasm_kernel.Debug.Dwarf.{Range}
use wasm_kernel.Debug.IntervalMap.{get, insert, remove, IsSeparate, at}
use wasm_kernel.Debug.IntervalMap.Gaps.{EndsBy, IsSeparate-mono, insert-gap, remove-at, get-Found}

-- `assert!(insert(..))` for a part of the parent's range that is not empty.
unfoldable pub insert_part : ℕ → ℕ → ℕ → List (Interval ℕ) → Run (List (Interval ℕ))
unfolding insert
insert_part start end id map_ =
    if ltb start end
    then (insert start end id map_ >>= λ (inserted, map'). assert inserted >> done map')
    else done map_

-- The body of the loop over the ranges in `write_inlined`, as what it does to `function_search`.
unfoldable pub carve : ℕ → ℕ → Range → List (Interval ℕ) → Run (List (Interval ℕ))
unfolding get remove insert_part insert
carve fn_id expected_parent range map_ = do
  parent ← unwrap (get range.begin map_)
  assert (parent.value == expected_parent)
  assert (leb parent.start range.begin && leb range.end parent.end)
  left ← insert_part parent.start range.begin parent.value (remove range.begin map_)
  right ← insert_part range.end parent.end parent.value left
  (inserted, map') ← insert range.begin range.end fn_id right
  assert inserted
  done map'

at-same :
    (pre ys ys' : List (Interval ℕ)) (k : ℕ)
    → at ys k ≡ at ys' k
    → at (pre ++ ys) k ≡ at (pre ++ ys') k
unfolding at
at-same [] ys ys' k h = h
at-same (x ∷ pre) ys ys' k h = let r = at-same pre ys ys' k h in ground (arith, r)

at-over :
    (pre ys : List (Interval ℕ)) (top k : ℕ) → EndsBy top pre → top ≤ k → at (pre ++ ys) k ≡ at ys k
unfolding at
at-over [] ys top k e h = refl
at-over (x ∷ pre) ys top k e h = let r = at-over pre ys top k e.1 h in ground (arith, r, e.0)

IsSeparate-replace :
    (pre : List (Interval ℕ)) (lo : ℕ) (xs ys : List (Interval ℕ))
    → ((l : ℕ) → IsSeparate l xs → IsSeparate l ys)
    → IsSeparate lo (pre ++ xs)
    → IsSeparate lo (pre ++ ys)
IsSeparate-replace [] lo xs ys f o = f lo o
IsSeparate-replace (p ∷ pre) lo xs ys f o = (o.0, o.1, IsSeparate-replace pre p.end xs ys f o.2)

-- A part of the parent's range, unless it is empty.
abbrev part : ℕ → ℕ → ℕ → List (Interval ℕ)
part start end id =
    if ltb start end then record { start = start; end = end; value = id } ∷ [] else []

module _ (start end id : ℕ) (le : start ≤ end) where
  part-EndsBy : (top : ℕ) → end ≤ top → EndsBy top (part start end id)
  part-EndsBy top h = elim (Bool-cases (ltb start end)) [
    | inl c ↦ rw c ((ltb→lt start end c, h), tt)
    | inr c ↦ rw c tt
  ]

  part-IsSeparate :
      (ys : List (Interval ℕ)) (l : ℕ)
      → l ≤ start
      → IsSeparate end ys
      → IsSeparate l (part start end id ++ ys)
  part-IsSeparate ys l h o = elim (Bool-cases (ltb start end)) [
    | inl c ↦ rw c (h, ltb→lt start end c, o)
    | inr c ↦ rw c (IsSeparate-mono ys end l (omega (arith, h, le)) o)
  ]

  at-part :
      (ys : List (Interval ℕ)) (k : ℕ)
      → at (part start end id ++ ys) k ≡ (if leb start k && ltb k end then some id else at ys k)
  unfolding at
  at-part ys k = elim (Bool-cases (ltb start end)) [
    | inl c ↦ rw c refl
    | inr c ↦ rw c (ground (arith, c))
  ]

  insert_part-gap :
      (pre post : List (Interval ℕ))
      → EndsBy start pre
      → IsSeparate end post
      → insert_part start end id (pre ++ post) ≡ done (pre ++ (part start end id ++ post))
  unfolding insert_part
  insert_part-gap pre post e o = elim (Bool-cases (ltb start end)) [
    | inl c ↦ rw (c, insert-gap pre post start end id e (ltb→lt start end c) o) refl
    | inr c ↦ rw c refl
  ]

EndsBy-mono :
    (pre : List (Interval ℕ)) (top top' : ℕ) → top ≤ top' → EndsBy top pre → EndsBy top' pre
EndsBy-mono [] top top' h e = tt
EndsBy-mono (p ∷ pre) top top' h e =
    ((e.0.0, omega (arith, e.0, h)), EndsBy-mono pre top top' h e.1)

-- The parent's interval in its place, and the three parts of it.
module _ (fn_id : ℕ) (range : Range) (parent : Interval ℕ) (pre post : List (Interval ℕ))
    (first : parent.start ≤ range.begin) (proper : range.begin < range.end)
    (fits : range.end ≤ parent.end) (ends : EndsBy parent.start pre)
    (behind : IsSeparate parent.end post) where
  abbrev lp : List (Interval ℕ)
  lp = part parent.start range.begin parent.value

  abbrev rp : List (Interval ℕ)
  rp = part range.end parent.end parent.value

  abbrev carved : List (Interval ℕ)
  carved =
      pre ++ lp ++ record { start = range.begin; end = range.end; value = fn_id } ∷ (rp ++ post)

  before : EndsBy range.begin (pre ++ lp)
  before =
      All-append (λ i. (i.start < i.end) × (i.end ≤ range.begin)) pre lp
        (EndsBy-mono pre parent.start range.begin first ends)
        (part-EndsBy parent.start range.begin parent.value first range.begin (omega arith))

  carved-run :
      (map_ : List (Interval ℕ))
      → get range.begin map_ ≡ some parent
      → remove range.begin map_ ≡ pre ++ post
      → carve fn_id parent.value range map_ ≡ done carved
  unfolding carve
  carved-run map_ found removed =
      let left =
        insert_part-gap parent.start range.begin parent.value first pre post ends
          (IsSeparate-mono post parent.end range.begin (omega (arith, fits, proper)) behind)
        ∙ ap done (sym (append_assoc pre lp post)) in
      let right =
        insert_part-gap range.end parent.end parent.value fits (pre ++ lp) post
          (EndsBy-mono (pre ++ lp) range.begin range.end (omega (arith, proper)) before) behind in
      let middle = insert-gap (pre ++ lp) (rp ++ post) range.begin range.end fn_id before proper (
        part-IsSeparate range.end parent.end parent.value fits post range.end (omega arith)
          behind) in
      let same : (parent.value == parent.value) ≡ true = ground arith in
      let inside : (leb parent.start range.begin && leb range.end parent.end) ≡ true =
        ground arith in
      rw (removed, found, same, inside, left, right, middle) refl

  carved-IsSeparate : IsSeparate 0 (pre ++ parent ∷ post) → IsSeparate 0 carved
  carved-IsSeparate o = rw (append_assoc pre lp _) (
      IsSeparate-replace pre 0 (parent ∷ post) _
        (λ l h. part-IsSeparate parent.start range.begin parent.value first _ l h.0 (
          omega arith,
          proper,
          part-IsSeparate range.end parent.end parent.value fits post range.end (omega arith)
              behind,
        ))
        o)

  at-carved :
      (k : ℕ)
      → at carved k
        ≡ (if leb range.begin k && ltb k range.end then some fn_id else at (pre ++ parent ∷ post) k)
  unfolding at
  at-carved k = elim (Bool-cases (leb range.begin k && ltb k range.end)) [
    | inl c ↦
        let le : range.begin ≤ k = ground (arith, c) in
        rw
          (
            c,
            at-over (pre ++ lp)
                (record { start = range.begin; end = range.end; value = fn_id } ∷ (rp ++ post))
                range.begin k before le,
            c,
          )
          refl
    | inr c ↦
        rw
          (
            c,
            append_assoc pre lp
                (record { start = range.begin; end = range.end; value = fn_id } ∷ (rp ++ post)),
          )
          (at-same pre _ (parent ∷ post) k (
            at-part parent.start range.begin parent.value first
              (record { start = range.begin; end = range.end; value = fn_id } ∷ (rp ++ post)) k
            ∙ rw (c, at-part range.end parent.end parent.value fits post k) (ground (arith, c))))
  ]

-- A part of the map takes a new value for the range, and all else is as it was.
pub record Carves (fn_id : ℕ) (range : Range) (map_ map' : List (Interval ℕ)) : Type 0 where
  pub separate : IsSeparate 0 map'
  pub values :
      (k : ℕ) → at map' k ≡ (if leb range.begin k && ltb k range.end then some fn_id else at map_ k)

-- The range of an inlined function that lies in an interval of its parent is cut out of it without a
-- panic: then its addresses have the new function, and all others what they had.
pub carve-Carves :
    (fn_id : ℕ) (range : Range) (map_ : List (Interval ℕ)) (parent : Interval ℕ)
    → IsSeparate 0 map_
    → range.begin < range.end
    → get range.begin map_ ≡ some parent
    → range.end ≤ parent.end
    → (map' : List (Interval ℕ)) × (carve fn_id parent.value range map_ ≡ done map')
      × Carves fn_id range map_ map'
unfolding carve
carve-Carves fn_id range map_ parent o proper found fits =
    let f = get-Found map_ range.begin parent o found in
    let first : parent.start ≤ range.begin = let c = f.inside in ground (arith, c) in
    let o' : IsSeparate 0 (f.pre ++ parent ∷ f.post) = rw (← f.parts) o in
    (
      carved fn_id range parent f.pre f.post first proper fits f.before f.behind,
      carved-run fn_id range parent f.pre f.post first proper fits f.before f.behind map_ found (
          ap (remove range.begin) f.parts
          ∙ remove-at f.pre f.post parent range.begin f.before f.behind f.inside),
      record {
        separate =
            carved-IsSeparate fn_id range parent f.pre f.post first proper fits f.before f.behind
              o';
        values = λ k.
            at-carved fn_id range parent f.pre f.post first proper fits f.before f.behind k
            ∙ ap (λ m. if leb range.begin k && ltb k range.end then some fn_id else at m k)
                (sym f.parts);
      },
    )
