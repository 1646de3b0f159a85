-- ===== src/Mem/Paging/MapPage.antt =====
-- src/arch/x86_64/paging.rs: what `map_page_small` and its like do to the translation of pages.
use wasm_kernel.Base.{
  ℕ, ◌+◌, ◌*◌, ◌≤◌, ◌<◌, ◌≡◌, refl, sym, inl, inr, Bool, true, false, Option, none, some, List, [],
  ◌∷◌, ◌++◌, arith, if◌then◌else◌, Bool-cases, length, length-append,
}
use wasm_kernel.Mem.Types.{VirtualMemoryLayout}
use wasm_kernel.Mem.Paging.{X86, PageMemory, do_action}
use wasm_kernel.Mem.Paging.Walk.{FrameAllocator, IsDirect, window, found, lookup, Clear, IsTree}
use wasm_kernel.Mem.Paging.Put.{put, Puts}

module _ {E : Type 0} (x : X86 E) (base : ℕ) where
  -- No page of a larger size maps the address: the walk leaves at most so many indices.
  abbrev pub IsOpen : ℕ → Option (E × List ℕ) → Type 0
  IsOpen n none = Unit
  IsOpen n (some (e, q)) = length q ≤ n

  IsOpen-found :
      (n : ℕ) (e : E) (q : List ℕ) (rest : Option (E × List ℕ))
      → (x.flags e).p ≡ true
      → IsOpen n (found x base e q rest)
      → ((x.flags e).ps ≡ true → length q ≤ n)
        × ((x.flags e).ps ≡ false → 0 < length q → IsOpen n rest)
  IsOpen-found n e [] rest present =
      rw present λ h. ((λ big. h), λ table more. absurd (omega (arith, more)))
  IsOpen-found n e (j ∷ q) rest present =
      rw present λ h. ((λ big. big_case big h), λ table more. table_case table h)
    where
      big_case :
          (x.flags e).ps ≡ true
          → IsOpen n (if (x.flags e).ps then some (e, j ∷ q) else rest)
          → length (j ∷ q) ≤ n
      big_case big = rw big λ h. h

      table_case :
          (x.flags e).ps ≡ false
          → IsOpen n (if (x.flags e).ps then some (e, j ∷ q) else rest)
          → IsOpen n rest
      table_case table = rw table λ h. h

  pub IsOpen-Clear :
      (tables : ℕ → ℕ → E) (js : List ℕ) (t i : ℕ) (r : List ℕ)
      → IsOpen (length r) (lookup x base tables t (js ++ i ∷ r))
      → Clear x base tables t js
  unfolding lookup
  IsOpen-Clear tables [] t i r open_at = tt
  IsOpen-Clear tables (j ∷ js) t i r open_at = λ present.
      let (big_case, table_case) =
        IsOpen-found (length r) (tables t j) (js ++ i ∷ r) _ present open_at in
      let more : length (js ++ i ∷ r) ≡ length js + (length r + 1) =
        omega (arith, length-append js (i ∷ r)) in
      elim (Bool-cases (x.flags (tables t j)).ps) [
        | inl big ↦ absurd (omega (arith, big_case big, more))
        | inr table ↦ (
          table,
          IsOpen-Clear tables js (base + x.entry_address (tables t j)) i r
              (table_case table (omega (arith, more))),
        )
      ]

module _ {E S : Type 0} (x : X86 E) (al : FrameAllocator S) (mode : Option Bool)
    (layout : VirtualMemoryLayout) (d : IsDirect layout) (self : ℕ) where
  abbrev pub root : ℕ
  root = layout.hhdm_base + self * 4096

  -- The tables of an address space, with the frames that its allocator has left.
  pub record IsMapping (s : PageMemory E S) (fs : List ℕ) : Type 0 where
    pub own : ℕ → Option (List ℕ)
    pub root_inside : self * 4096 < (window layout)
    pub root_owned : own root ≡ some []
    pub tree : IsTree x layout.hhdm_base (window layout) own s.tables fs
    pub frames : al.HasFrames s.alloc fs
    pub unlocked : s.locked ≡ false

  pub do_action-Puts :
      (needs : Bool) (own : ℕ → Option (List ℕ)) (s : PageMemory E S) (t : ℕ) (p js : List ℕ)
      (i : ℕ) (e : E) (fs : List ℕ)
      → s.locked ≡ false
      → ((b : Bool)
          → Puts x al mode layout d own
              (record s { locked = b })
              t
              p
              js
              i
              e
              fs
              (put x al mode layout d (record s { locked = b }) t js i e))
      → Puts x al mode layout d own s t p js i e fs
          (do_action needs (λ s_4. put x al mode layout d s_4 t js i e) s)
  unfolding do_action
  do_action-Puts false own s t p js i e fs unlocked h = h s.locked
  do_action-Puts true own s t p js i e fs unlocked h =
      let r = h true in
      record {
        s' = record r.s' { locked = false };
        own' = r.own';
        fs' = r.fs';
        runs = rw (unlocked, r.runs) refl;
        frames = r.frames;
        enough = r.enough;
        left = r.left;
        same_lock = sym unlocked;
        tree = r.tree;
        keeps = r.keeps;
        above = r.above;
        at = r.at;
        off = r.off;
      }
