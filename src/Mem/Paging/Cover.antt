-- ===== src/Mem/Paging/Cover.antt =====
-- src/arch/x86_64/paging.rs: the pages that `map_range` maps.
use wasm_kernel.Base.{
  ℕ, zero, suc, ◌+◌, ◌*◌, ◌%◌, ◌^◌, ◌≤◌, ◌<◌, ◌≡◌, refl, inl, inr, Bool, true, false, List, [], ◌∷◌,
  ◌++◌, arith, Bool-cases, All, All-append, Run, done, ◌>>=◌, Run-cases,
}
use wasm_kernel.Mem.Types.{address, add_size, u64_mod}
use wasm_kernel.Mem.Paging.{small_pages, medium_pages, large_pages}
use wasm_kernel.Mem.Paging.Loops.{while_map}

pub data PageKind : Type 0 where
  small medium large : PageKind

abbrev pub pages_of : PageKind → ℕ
pages_of small = small_pages
pages_of medium = medium_pages
pages_of large = large_pages

-- A page of some size, and the frame it starts at.
pub record Page : Type 0 where
  pub kind : PageKind
  pub virt : ℕ
  pub phys : ℕ

-- Both ends of a page stand at multiples of its size, as the processor demands.
pub record IsAlignedPage (page : Page) : Type 0 where
  pub virt_aligned : page.virt % pages_of page.kind ≡ 0
  pub phys_aligned : page.phys % pages_of page.kind ≡ 0

-- The pages follow each other without a gap, from a page and a frame on, up to an end.
abbrev pub Covers : ℕ → ℕ → ℕ → List Page → Type 0
Covers base phys end [] = base ≡ end
Covers base phys end (page ∷ rest) =
    (page.virt ≡ base)
    × (page.phys ≡ phys)
    × Covers (base + pages_of page.kind) (phys + pages_of page.kind) end rest

Covers-append :
    (base phys mid mid_phys end : ℕ) (xs ys : List Page)
    → mid_phys + base ≡ phys + mid
    → Covers base phys mid xs
    → Covers mid mid_phys end ys
    → Covers base phys end (xs ++ ys)
Covers-append base phys mid mid_phys end [] ys e hx hy =
    let same : phys ≡ mid_phys = omega (arith, e, hx) in rw (hx, same) hy
Covers-append base phys mid mid_phys end (x ∷ xs) ys e hx hy = (
  hx.0,
  hx.1,
  Covers-append (base + pages_of x.kind) (phys + pages_of x.kind) mid mid_phys end xs ys
      (omega (arith, e)) hx.2 hy,
)

pub pages_of_pos : (kind : PageKind) → (0 < pages_of kind) × (pages_of kind ≤ large_pages)
pages_of_pos small = (omega arith, omega arith)
pages_of_pos medium = (omega arith, omega arith)
pages_of_pos large = (omega arith, omega arith)

pub add_size_done : (a b : ℕ) → a + b < u64_mod → add_size a b ≡ done (a + b)
unfolding add_size
add_size_done a b h = ground arith

-- Each page mapped in turn.
abbrev pub map_pages {ℓ} : {M : Type ℓ} → (Page → M → Run M) → List Page → M → Run M
map_pages map_page [] s = done s
map_pages map_page (page ∷ rest) s = map_page page s >>= map_pages map_page rest

map_pages-append :
    {M : Type 0} (map_page : Page → M → Run M) (xs ys : List Page) (s : M)
    → map_pages map_page (xs ++ ys) s ≡ (map_pages map_page xs s >>= map_pages map_page ys)
map_pages-append map_page [] ys s = refl
map_pages-append map_page (x ∷ xs) ys s = elim (Run-cases (map_page x s)) [
  | inl e ↦ rw e refl
  | inr (s', e) ↦ rw e (map_pages-append map_page xs ys s')
]

-- Frame numbers below this one have addresses.
abbrev pub frames_end : ℕ
frames_end = 2 ^ 52

pub address_done : (f : ℕ) → f < frames_end → address f ≡ done (f * 4096)
unfolding address
address_done f below = ground arith

-- The frames for the pages that are left have addresses.
abbrev pub Fits : ℕ → ℕ → ℕ → Type 0
Fits end base phys = (base ≤ end) × (phys + end ≤ frames_end + base)

module _ {M : Type 0} (map_page : Page → M → Run M) (end : ℕ) where
  -- A loop maps pages and stops in front of some page.
  pub record Maps (base phys : ℕ) (run : M → Run (ℕ × ℕ × M)) (Stops : ℕ → ℕ → Type 0)
      : Type 0 where
    pub pages : List Page
    pub base' : ℕ
    pub phys' : ℕ
    pub runs : (s : M) → run s ≡ (map_pages map_page pages s >>= λ s'. done (base', phys', s'))
    pub offset : phys' + base ≡ phys + base'
    pub fits : Fits end base' phys'
    pub behind : base ≤ base'
    pub covers : Covers base phys base' pages
    pub aligned : All IsAlignedPage pages
    pub stops : Stops base' phys'

  -- The loops together map all pages up to the end.
  pub record MapsAll (base phys : ℕ) (run : M → Run M) : Type 0 where
    pub pages : List Page
    pub runs : (s : M) → run s ≡ map_pages map_page pages s
    pub covers : Covers base phys end pages
    pub aligned : All IsAlignedPage pages

  pub Maps-then :
      (base phys : ℕ) (run : M → Run (ℕ × ℕ × M)) (Stops : ℕ → ℕ → Type 0)
      (next : ℕ → ℕ → M → Run M)
      → Maps base phys run Stops
      → ((b p : ℕ) → base ≤ b → Fits end b p → Stops b p → MapsAll b p (next b p))
      → MapsAll base phys (λ s. run s >>= λ (b, p, s'). next b p s')
  Maps-then base phys run Stops next h k =
      let rest = k h.base' h.phys' h.behind h.fits h.stops in
      record {
        pages = h.pages ++ rest.pages;
        runs = λ s.
            rw (h.runs s, map_pages-append map_page h.pages rest.pages s)
              (elim (Run-cases (map_pages map_page h.pages s)) [
                | inl e ↦ rw e refl
                | inr (s', e) ↦ rw e (rest.runs s')
              ]);
        covers =
            Covers-append base phys h.base' h.phys' end h.pages rest.pages h.offset h.covers
              rest.covers;
        aligned = All-append IsAlignedPage h.pages rest.pages h.aligned rest.aligned;
      }

  module _ (kind : PageKind) (cond : ℕ → ℕ → Run Bool) (test : ℕ → ℕ → Bool) (Inv : ℕ → ℕ → Type 0)
      (cond_done : (b p : ℕ) → Fits end b p → cond b p ≡ done (test b p))
      (step : (b p : ℕ)
        → Fits end b p
        → Inv b p
        → test b p ≡ true
        → (b + pages_of kind ≤ end)
          × IsAlignedPage (record { kind = kind; virt = b; phys = p })
          × Inv (b + pages_of kind) (p + pages_of kind))
      (small_end : end ≤ frames_end) where
    abbrev pub Stopped : ℕ → ℕ → Type 0
    Stopped b p = (test b p ≡ false) × Inv b p

    abbrev page_at : ℕ → ℕ → M → Run M
    page_at v p s = map_page (record { kind = kind; virt = v; phys = p }) s

    while_map-stops :
        (fuel b p : ℕ)
        → Fits end b p
        → Inv b p
        → test b p ≡ false
        → Maps b p (while_map cond page_at (pages_of kind) fuel b p) Stopped
    unfolding while_map
    while_map-stops zero b p fits inv e = record {
      pages = [];
      base' = b;
      phys' = p;
      runs = λ s. rw (cond_done b p fits, e) refl;
      offset = omega arith;
      fits = fits;
      behind = omega arith;
      covers = refl;
      aligned = tt;
      stops = (e, inv);
    }
    while_map-stops (suc fuel) b p fits inv e = record {
      pages = [];
      base' = b;
      phys' = p;
      runs = λ s. rw (cond_done b p fits, e) refl;
      offset = omega arith;
      fits = fits;
      behind = omega arith;
      covers = refl;
      aligned = tt;
      stops = (e, inv);
    }

    pub while_map-Maps :
        (fuel b p : ℕ)
        → Fits end b p
        → Inv b p
        → end ≤ b + fuel
        → Maps b p (while_map cond page_at (pages_of kind) fuel b p) Stopped
    unfolding while_map
    while_map-Maps zero b p fits inv enough = elim (Bool-cases (test b p)) [
      | inl e ↦ absurd (omega (arith, (step b p fits inv e).0, enough, (pages_of_pos kind).0))
      | inr e ↦ while_map-stops 0 b p fits inv e
    ]
    while_map-Maps (suc fuel) b p fits inv enough = elim (Bool-cases (test b p)) [
      | inl e ↦
          let (more, page_aligned, inv') = step b p fits inv e in
          let k = pages_of kind in
          let rest =
            while_map-Maps fuel (b + k) (p + k) (omega (arith, more), omega (arith, fits)) inv'
              (omega (arith, enough, (pages_of_pos kind).0)) in
          record {
            pages = record { kind = kind; virt = b; phys = p } ∷ rest.pages;
            base' = rest.base';
            phys' = rest.phys';
            runs = λ s.
                rw (cond_done b p fits, e)
                  (elim (Run-cases (page_at b p s)) [
                    | inl none_left ↦ rw none_left refl
                    | inr (s', mapped) ↦
                        rw
                          (
                            mapped,
                            add_size_done b k (omega (arith, more, small_end)),
                            add_size_done p k (omega (arith, more, fits, small_end)),
                          )
                          (rest.runs s')
                  ]);
            offset = omega (arith, rest.offset);
            fits = rest.fits;
            behind = omega (arith, rest.behind);
            covers = (refl, refl, rest.covers);
            aligned = (page_aligned, rest.aligned);
            stops = rest.stops;
          }
      | inr e ↦ while_map-stops (suc fuel) b p fits inv e
    ]
