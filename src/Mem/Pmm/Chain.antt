-- ===== src/Mem/Pmm/Chain.antt =====
-- src/mem/pmm.rs: the free list as a chain of page records.
use wasm_kernel.Base.{
  ℕ, zero, suc, ◌<◌, ◌≡◌, refl, ap, Option, none, some, List, [], ◌∷◌, ◌++◌, arith, length, All,
  Run, done, panic, ◌>>=◌, Returns,
}
use wasm_kernel.Mem.Pmm.{PageState, free, PdtData, update, allocate_single_page}

-- The list runs from a head through the `free` records of the table, and ends.
abbrev pub IsChain : (ℕ → PageState) → Option ℕ → List ℕ → Type 0
IsChain pdt head [] = head ≡ none
IsChain pdt head (f ∷ fs) =
    (head ≡ some f) × ((next : Option ℕ) × (pdt f ≡ free next) × IsChain pdt next fs)

-- The table's free list is the given list of frames, which it has records for.
pub record HasFree (self : PdtData) (frames : List ℕ) : Type 0 where
  pub chain : IsChain self.pdt self.free_list frames
  pub inside : All (λ f. f < self.len) frames

-- Allocation takes the first frame off the free list and leaves the rest of it, and all page
-- records, as they are; on an empty list it panics.
abbrev pub Pops : PdtData → List ℕ → Run (ℕ × PdtData) → Type 0
Pops self [] r = r ≡ panic
Pops self (f ∷ fs) r =
    (self' : PdtData) × (r ≡ done (f, self'))
    × HasFree self' fs
    × (self'.pdt ≡ self.pdt)
    × (self'.len ≡ self.len)

pub allocate_single_page-Pops :
    (self : PdtData) (frames : List ℕ)
    → HasFree self frames
    → Pops self frames (allocate_single_page self)
unfolding allocate_single_page
allocate_single_page-Pops self [] h = rw h.chain refl
allocate_single_page-Pops self (f ∷ fs) h =
    let (head, (next, rec, rest)) = h.chain in
    let e : allocate_single_page self ≡ done (f, record self { free_list = next }) =
      ground (arith, head, rec, h.inside.0) in
    (record self { free_list = next }, e, record { chain = rest; inside = h.inside.1 }, refl, refl)

-- Several allocations in a row.
unfoldable pub allocate_many : ℕ → PdtData → Run (List ℕ × PdtData)
allocate_many zero self = done ([], self)
allocate_many (suc n) self = do
  (f, self') ← allocate_single_page self
  (fs, self_n) ← allocate_many n self'
  done (f ∷ fs, self_n)

-- As many allocations as the free list is long give out its frames in order, each of them once.
pub allocate_many-HasFree :
    (self : PdtData) (frames rest : List ℕ)
    → HasFree self (frames ++ rest)
    → Returns (allocate_many (length frames) self) (λ r. (r.0 ≡ frames) × HasFree r.1 rest)
unfolding allocate_many
allocate_many-HasFree self [] rest h = (refl, h)
allocate_many-HasFree self (f ∷ frames) rest h =
    let (self', e, h', p, l) = allocate_single_page-Pops self (f ∷ (frames ++ rest)) h in
    rw e (after (allocate_many (length frames) self') (allocate_many-HasFree self' frames rest h'))
  where
    after :
        (r : Run (List ℕ × PdtData))
        → Returns r (λ r. (r.0 ≡ frames) × HasFree r.1 rest)
        → Returns {A = List ℕ × PdtData}
            (r >>= λ (fs, s). done (f ∷ fs, s))
            (λ r. (r.0 ≡ f ∷ frames) × HasFree r.1 rest)
    after (done (fs, s)) (q, k) = (ap (λ l. f ∷ l) q, k)
    after panic k = k

-- A record written for a frame that is not on the list leaves the list alone.
pub IsChain-update :
    (pdt : ℕ → PageState) (head : Option ℕ) (fs : List ℕ) (f : ℕ) (state : PageState)
    → All (λ g. g < f) fs
    → IsChain pdt head fs
    → IsChain (update pdt f state) head fs
IsChain-update pdt head [] f state below c = c
IsChain-update pdt head (g ∷ fs) f state below (e, (next, rec, c)) =
    (e, (next, ground (arith, below.0, rec), IsChain-update pdt next fs f state below.1 c))
