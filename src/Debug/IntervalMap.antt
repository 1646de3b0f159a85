-- ===== src/Debug/IntervalMap.antt =====
-- buildtool/src/debug/util.rs: `IntervalMap`, the intervals in a `BTreeMap` by their starts: here the
-- list of them, in the order of the map.
pub mod Gaps
pub mod Carve
use wasm_kernel.Base.{
  ℕ, zero, suc, ◌+◌, ◌-◌, ◌*◌, ◌/◌, ◌%◌, ◌^◌, ◌≤◌, ◌<◌, max, ◌≡◌, refl, sym, ap, ◌∙◌, fun_ext, ◌≢◌,
  ◌↔◌, ◌⊎◌, inl, inr, Bool, true, false, not, ◌&&◌, ◌||◌, Option, none, some, List, [], ◌∷◌, ◌++◌,
  map, arith, ltb, leb, ◌==◌, if◌then◌else◌, ltb→lt, lt→ltb, leb→le, le→leb, ==_iff, Bool-cases,
  Option-cases, length, get_elem?, set, take, drop, All, length-append, set-append, take-append,
  drop-append, All-append, Run, done, panic, ◌>>=◌, ◌>>◌, assert, unwrap, Returns, >>=-eq-done,
  Run-cases,
}
use wasm_kernel.Debug.Writer.{Interval}

module _ {V : Type 0} where
  abbrev pub last_of_two : Option (Interval V) → Interval V → Option (Interval V)
  last_of_two (some j) i = some j
  last_of_two none i = some i

  -- `self.map.range(..=k).next_back()`
  unfoldable pub last_before : ℕ → List (Interval V) → Option (Interval V)
  last_before k [] = none
  last_before k (i ∷ rest) =
      let r = last_before k rest in if leb i.start k then last_of_two r i else r

  abbrev pub holds : Interval V → ℕ → Bool
  holds i k = leb i.start k && ltb k i.end

  abbrev pub if_holds : ℕ → Option (Interval V) → Option (Interval V)
  if_holds k none = none
  if_holds k (some i) = if holds i k then some i else none

  unfoldable pub get : ℕ → List (Interval V) → Option (Interval V)
  unfolding last_before
  get k map_ = if_holds k (last_before k map_)

  -- `BTreeMap::insert` and `BTreeMap::remove`
  unfoldable pub put : Interval V → List (Interval V) → List (Interval V)
  put i [] = i ∷ []
  put i (j ∷ rest) =
      let others = put i rest in
      if ltb i.start j.start
      then i ∷ j ∷ rest
      else if i.start == j.start
      then i ∷ rest
      else j ∷ others

  unfoldable pub delete : ℕ → List (Interval V) → List (Interval V)
  delete key [] = []
  delete key (j ∷ rest) =
      let others = delete key rest in if j.start == key then rest else j ∷ others

  -- The loop of `insert` over the intervals that start in the range, its end included.
  unfoldable pub collides : ℕ → ℕ → List (Interval V) → Bool
  collides start end [] = false
  collides start end (j ∷ rest) =
      let others = collides start end rest in
      leb start j.start && leb j.start end && (ltb j.start end && ltb start j.end) || others

  -- `insert`; the `BTreeMap` panics on a range that ends before it starts.
  unfoldable pub insert : ℕ → ℕ → V → List (Interval V) → Run (Bool × List (Interval V))
  unfolding collides put
  insert start end value map_ = do
    assert (leb start end)
    if collides start end map_
        then done (false, map_)
        else done (true, put (record { start = start; end = end; value = value }) map_)

  abbrev pub without : Option (Interval V) → List (Interval V) → List (Interval V)
  without none map_ = map_
  without (some i) map_ = delete i.start map_

  -- `remove`, as the map that it leaves.
  unfoldable pub remove : ℕ → List (Interval V) → List (Interval V)
  unfolding get delete
  remove key map_ = without (get key map_) map_

  -- No interval is empty, and each starts at or behind the end of the one before it.
  abbrev pub IsSeparate : ℕ → List (Interval V) → Type 0
  IsSeparate lo [] = Unit
  IsSeparate lo (i ∷ rest) = (lo ≤ i.start) × (i.start < i.end) × IsSeparate i.end rest

  -- The value of an address.
  unfoldable pub at : List (Interval V) → ℕ → Option V
  at [] k = none
  at (i ∷ rest) k = let r = at rest k in if holds i k then some i.value else r
