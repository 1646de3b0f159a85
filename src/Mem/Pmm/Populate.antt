-- ===== src/Mem/Pmm/Populate.antt =====
-- src/mem/pmm.rs: the table that `init_pdt` fills, and its free list.
use wasm_kernel.Base.{
  ℕ, zero, suc, ◌+◌, ◌^◌, ◌≤◌, ◌<◌, ◌≡◌, refl, inl, inr, Bool, not, ◌&&◌, Option, none, some, List,
  [], ◌∷◌, ◌++◌, arith, if◌then◌else◌, Bool-cases, All, Run, done, panic, ◌>>=◌, Returns,
}
use wasm_kernel.Mem.Requests.{Entry, MemoryMapEntry, IsPaged, entry_of, translate_lem, is_usable}
use wasm_kernel.Mem.EarlyPmm.{EarlyPmm, is_used}
use wasm_kernel.Mem.Pmm.{
  free, used, PdtData, update, populate_page, populate_entry, populate, init_table,
}
use wasm_kernel.Mem.Pmm.Chain.{IsChain, HasFree, IsChain-update}

-- A page goes on the free list: its entry is usable, and the early allocator has not handed it out.
abbrev pub is_left : EarlyPmm → ℕ → MemoryMapEntry → ℕ → Bool
is_left pmm index entry offset = is_usable entry.entry_type && not (is_used pmm index offset)

-- The free pages of an entry from an offset on, and of the map, in order.
unfoldable pub entry_frames : EarlyPmm → ℕ → MemoryMapEntry → ℕ → ℕ → List ℕ
entry_frames pmm index entry offset zero = []
entry_frames pmm index entry offset (suc n) =
    (if is_left pmm index entry offset then (entry.start + offset) ∷ [] else [])
    ++ entry_frames pmm index entry (offset + 1) n

unfoldable pub map_frames : EarlyPmm → ℕ → List Entry → List ℕ
unfolding entry_frames
map_frames pmm index [] = []
map_frames pmm index (e ∷ rest) =
    entry_frames pmm index (entry_of e) 0 (entry_of e).size ++ map_frames pmm (index + 1) rest

-- The first list, last first, on top of the second.
abbrev pub push_all : List ℕ → List ℕ → List ℕ
push_all [] acc = acc
push_all (f ∷ fs) acc = push_all fs (f ∷ acc)

push_all-append : (xs ys acc : List ℕ) → push_all (xs ++ ys) acc ≡ push_all ys (push_all xs acc)
push_all-append [] ys acc = refl
push_all-append (x ∷ xs) ys acc = push_all-append xs ys (x ∷ acc)

-- The entries stand in order, from a frame on, and the table has records for all their pages.
abbrev pub IsLaid : ℕ → ℕ → List Entry → Type 0
IsLaid len lo [] = Unit
IsLaid len lo (e ∷ rest) =
    (lo ≤ (entry_of e).start)
    × ((entry_of e).start + (entry_of e).size ≤ len)
    × IsLaid len ((entry_of e).start + (entry_of e).size) rest

-- The list of free frames falls, so it names no frame twice.
abbrev pub IsFalling : List ℕ → Type 0
IsFalling [] = Unit
IsFalling (f ∷ fs) = All (λ g. g < f) fs × IsFalling fs

-- The loops' state: the chain so far holds the given frames, all below the next one.
record Filled (len lo : ℕ) (frames : List ℕ) (state : PdtData × Option ℕ) : Type 0 where
  same_len : state.0.len ≡ len
  chain : IsChain state.0.pdt state.1 frames
  below : All (λ f. f < lo) frames
  falling : IsFalling frames

All-lt : (fs : List ℕ) (a b : ℕ) → a ≤ b → All (λ f. f < a) fs → All (λ f. f < b) fs
All-lt [] a b h p = tt
All-lt (f ∷ fs) a b h p = (omega (arith, p.0), All-lt fs a b h p.1)

page-Filled :
    (pmm : EarlyPmm) (index : ℕ) (entry : MemoryMapEntry) (offset len : ℕ) (acc : List ℕ)
    (state : PdtData × Option ℕ)
    → entry.start + offset < len
    → len < 2 ^ 64
    → Filled len (entry.start + offset) acc state
    → Returns (populate_page pmm index entry offset state) (
        Filled len (entry.start + (offset + 1)) (
          push_all
            (if is_left pmm index entry offset then (entry.start + offset) ∷ [] else [])
            acc))
unfolding populate_page
page-Filled pmm index entry offset len acc (self, next_free) lt small f =
    elim (Bool-cases (is_left pmm index entry offset)) [
      | inl h ↦
          let e : populate_page pmm index entry offset (self, next_free)
              ≡ done (
                record self { pdt = update self.pdt (entry.start + offset) (free next_free) },
                some (entry.start + offset),
              ) =
            ground (arith, h, f.same_len, lt, small) in
          rw (e, h)
            (record {
              same_len = f.same_len;
              falling = (f.below, f.falling);
              chain = (
                refl,
                (
                  next_free,
                  ground arith,
                  IsChain-update self.pdt next_free acc (entry.start + offset) (free next_free)
                      f.below f.chain,
                ),
              );
              below = (
                omega arith,
                All-lt acc (entry.start + offset) (entry.start + (offset + 1)) (omega arith)
                    f.below,
              );
            })
      | inr h ↦
          let e : populate_page pmm index entry offset (self, next_free)
              ≡ done
                  (record self { pdt = update self.pdt (entry.start + offset) used }, next_free) =
            ground (arith, h, f.same_len, lt, small) in
          rw (e, h)
            (record {
              same_len = f.same_len;
              falling = f.falling;
              chain =
                  IsChain-update self.pdt next_free acc (entry.start + offset) used f.below f.chain;
              below =
                  All-lt acc (entry.start + offset) (entry.start + (offset + 1)) (omega arith)
                    f.below;
            })
    ]

-- `Returns` through a bind.
Returns-bind :
    {A B : Type 0} (P : A → Type 0) (Q : B → Type 0) (m : Run A) (k : A → Run B)
    → Returns m P
    → ((a : A) → P a → Returns (k a) Q)
    → Returns (m >>= k) Q
Returns-bind P Q (done a) k h f = f a h
Returns-bind P Q panic k h f = h

entry-Filled :
    (pmm : EarlyPmm) (index : ℕ) (entry : MemoryMapEntry) (offset n len : ℕ) (acc : List ℕ)
    (state : PdtData × Option ℕ)
    → entry.start + offset + n ≤ len
    → len < 2 ^ 64
    → Filled len (entry.start + offset) acc state
    → Returns (populate_entry pmm index entry offset n state) (
        Filled len
          (entry.start + offset + n)
          (push_all (entry_frames pmm index entry offset n) acc))
unfolding populate_entry entry_frames
entry-Filled pmm index entry offset zero len acc state le small f = record {
  same_len = f.same_len;
  falling = f.falling;
  chain = f.chain;
  below = All-lt acc (entry.start + offset) _ (omega arith) f.below;
}
entry-Filled pmm index entry offset (suc n) len acc state le small f =
    Returns-bind _ _ (populate_page pmm index entry offset state) _
      (page-Filled pmm index entry offset len acc state (omega arith) small f)
      (λ s g.
        let q : entry.start + (offset + 1) + n ≡ entry.start + offset + suc n = omega arith in
        rw
          (
            push_all-append
                (if is_left pmm index entry offset then (entry.start + offset) ∷ [] else [])
                (entry_frames pmm index entry (offset + 1) n) acc,
            ← q,
          )
          (entry-Filled pmm index entry (offset + 1) n len _ s (omega arith) small g))

map-Filled :
    (pmm : EarlyPmm) (index len lo : ℕ) (entries : List Entry) (acc : List ℕ)
    (state : PdtData × Option ℕ)
    → All IsPaged entries
    → IsLaid len lo entries
    → lo ≤ len
    → len < 2 ^ 64
    → Filled len lo acc state
    → Returns
        (populate pmm index entries state)
        (Filled len len (push_all (map_frames pmm index entries) acc))
unfolding populate map_frames
map-Filled pmm index len lo [] acc state paged laid le small f = record {
  same_len = f.same_len;
  falling = f.falling;
  chain = f.chain;
  below = All-lt acc lo len le f.below;
}
map-Filled pmm index len lo (e ∷ rest) acc state paged laid le small f =
    rw (translate_lem e paged.0) (
      Returns-bind _ _ (populate_entry pmm index (entry_of e) 0 (entry_of e).size state) _
        (entry-Filled pmm index (entry_of e) 0 (entry_of e).size len acc state
          (omega (arith, laid.1)) small
          (record {
            same_len = f.same_len;
            falling = f.falling;
            chain = f.chain;
            below = All-lt acc lo ((entry_of e).start + 0) (omega (arith, laid.0)) f.below;
          }))
        (λ s g.
          rw
            (push_all-append (entry_frames pmm index (entry_of e) 0 (entry_of e).size)
              (map_frames pmm (index + 1) rest) acc)
            (map-Filled pmm (index + 1) len ((entry_of e).start + (entry_of e).size) rest _ s
              paged.1 laid.2 laid.1 small
              (record {
                same_len = g.same_len;
                falling = g.falling;
                chain = g.chain;
                below =
                    All-lt _ ((entry_of e).start + 0 + (entry_of e).size) _ (omega arith) g.below;
              }))))

-- On a map of whole pages in order, for which the table is long enough, filling the table never
-- panics. Its free list then holds, last first, just the pages of usable entries that the early
-- allocator has not handed out, in falling order, so none of them twice.
pub init_table-HasFree :
    (frozen : EarlyPmm) (entries : List Entry) (self : PdtData)
    → All IsPaged entries
    → IsLaid self.len 0 entries
    → self.len < 2 ^ 64
    → Returns (init_table frozen entries self) (λ self'.
      HasFree self' (push_all (map_frames frozen 0 entries) [])
      × IsFalling (push_all (map_frames frozen 0 entries) []))
unfolding init_table
init_table-HasFree frozen entries self paged laid small =
    Returns-bind _ _ (populate frozen 0 entries (record self { free_list = none }, none)) _
      (map-Filled frozen 0 self.len 0 entries [] (record self { free_list = none }, none) paged laid
        (omega arith) small (record { same_len = refl; falling = tt; chain = refl; below = tt }))
      (λ (s, next_free) g. (record { chain = g.chain; inside = rw g.same_len g.below }, g.falling))
