-- ===== src/Mem/Paging/Put.antt =====
-- src/arch/x86_64/paging.rs: an entry written at the end of a path of tables.
use wasm_kernel.Base.{
  ℕ, ◌+◌, ◌≤◌, ◌<◌, ◌≡◌, refl, ◌∙◌, ◌⊎◌, inl, inr, Bool, true, false, Option, some, List, [], ◌∷◌,
  ◌++◌, arith, length, length-append, Run, done, ◌>>=◌,
}
use wasm_kernel.Mem.Types.{VirtualMemoryLayout}
use wasm_kernel.Mem.Paging.{X86, PageMemory, write_entry, walk_entry}
use wasm_kernel.Mem.Paging.Walk.{
  IsLeft, IsLeft-trans, FrameAllocator, IsDirect, window, found, lookup, lookup-cons, Clear, IsTree,
}
use wasm_kernel.Mem.Paging.Tree.{Hits, write_entry-IsTree, lookup-write_entry}
use wasm_kernel.Mem.Paging.Steps.{other_table, walk_entry-Steps}

-- A path behind another, last index first.
abbrev pub onto : List ℕ → List ℕ → List ℕ
onto [] p = p
onto (j ∷ js) p = onto js (j ∷ p)

module _ {E : Type 0} (x : X86 E) (base : ℕ) where
  written : (tables : ℕ → ℕ → E) (t i : ℕ) (e : E) → write_entry tables t i e t i ≡ e
  written tables t i e = ground arith

  -- The entry maps a page: it is in the last table, or has the size bit.
  pub record IsLeaf (p : List ℕ) (e : E) : Type 0 where
    pub present : (x.flags e).p ≡ true
    pub ends : ((x.flags e).ps ≡ true) ⊎ (length p ≡ 3)

  found-leaf :
      (p : List ℕ) (e : E) (r : List ℕ) (rest : Option (E × List ℕ))
      → IsLeaf p e
      → length r + length p ≡ 3
      → found x base e r rest ≡ some (e, r)
  found-leaf p e [] rest leaf l = rw leaf.present refl
  found-leaf p e (j ∷ r) rest leaf l =
      rw leaf.present
        (elim leaf.ends [ inl large ↦ rw large refl | inr last ↦ absurd (omega (arith, l, last)) ])

  found-table :
      (e : E) (q : List ℕ) (rest : Option (E × List ℕ))
      → (x.flags e).p ≡ true
      → (x.flags e).ps ≡ false
      → 0 < length q
      → found x base e q rest ≡ rest
  found-table e [] rest present table more = absurd (omega (arith, more))
  found-table e (j ∷ q) rest present table more = rw (present, table) refl

module _ {E S : Type 0} (x : X86 E) (al : FrameAllocator S) (mode : Option Bool)
    (layout : VirtualMemoryLayout) (d : IsDirect layout) where
  -- The walks of `map_page_small` and its like, and the write at their end.
  unfoldable pub put : PageMemory E S → ℕ → List ℕ → ℕ → E → Run (PageMemory E S)
  put s t [] i e = done (record s { tables = write_entry s.tables t i e })
  put s t (j ∷ js) i e =
      walk_entry x al.allocate mode (some layout) s t j >>= λ (t', s'). put s' t' js i e

  abbrev pub finds : PageMemory E S → ℕ → List ℕ → Option (E × List ℕ)
  finds s t q = lookup x layout.hhdm_base s.tables t q

  pub record Puts (own : ℕ → Option (List ℕ)) (s : PageMemory E S) (t : ℕ) (p js : List ℕ) (i : ℕ)
      (e : E) (fs : List ℕ) (run : Run (PageMemory E S)) : Type 0 where
    pub s' : PageMemory E S
    pub own' : ℕ → Option (List ℕ)
    pub fs' : List ℕ
    pub runs : run ≡ done s'
    pub frames : al.HasFrames s'.alloc fs'
    pub enough : length fs ≤ length fs' + length js
    pub left : IsLeft fs' fs
    pub same_lock : s'.locked ≡ s.locked
    pub tree : IsTree x layout.hhdm_base (window layout) own' s'.tables fs'
    pub keeps : (t0 : ℕ) (p0 : List ℕ) → own t0 ≡ some p0 → own' t0 ≡ some p0
    pub above :
        (t0 : ℕ) (p0 : List ℕ) (k : ℕ)
        → own t0 ≡ some p0
        → length p0 < length p
        → s'.tables t0 k ≡ s.tables t0 k
    pub at :
        (r : List ℕ) → length r + length js + length p ≡ 3 → finds s' t (js ++ i ∷ r) ≡ some (e, r)
    pub off :
        (q : List ℕ) (t0 : ℕ) (p0 : List ℕ)
        → own t0 ≡ some p0
        → length q + length p0 ≡ 4
        → ¬ (Hits p0 q (i ∷ onto js p))
        → finds s' t0 q ≡ finds s t0 q

  pub put-here :
      (own : ℕ → Option (List ℕ)) (s : PageMemory E S) (t : ℕ) (p : List ℕ) (i : ℕ) (e : E)
      (fs : List ℕ)
      → own t ≡ some p
      → IsLeaf x layout.hhdm_base p e
      → al.HasFrames s.alloc fs
      → IsTree x layout.hhdm_base (window layout) own s.tables fs
      → Puts own s t p [] i e fs (put s t [] i e)
  unfolding put
  put-here own s t p i e fs o leaf frames tree = record {
    s' = record s { tables = write_entry s.tables t i e };
    own' = own;
    fs' = fs;
    runs = refl;
    frames = frames;
    enough = omega arith;
    left = ([], refl);
    same_lock = refl;
    tree =
        write_entry-IsTree x layout.hhdm_base (window layout) own s.tables t i p o fs tree e
          leaf.ends;
    keeps = λ t0 p0 h. h;
    above = λ t0 p0 k h short. rw (other_table own t t0 p p0 o h short) refl;
    at = λ r l.
        rw
          (
            lookup-cons x layout.hhdm_base (write_entry s.tables t i e) t i r,
            written x layout.hhdm_base s.tables t i e,
          )
          (found-leaf x layout.hhdm_base p e r _ leaf (omega (arith, l)));
    off = lookup-write_entry x layout.hhdm_base (window layout) own s.tables t i p o fs tree e;
  }

  pub put-Puts :
      (js : List ℕ) (own : ℕ → Option (List ℕ)) (s : PageMemory E S) (t : ℕ) (p : List ℕ) (i : ℕ)
      (e : E) (fs : List ℕ)
      → own t ≡ some p
      → length js + length p ≤ 3
      → length js ≤ length fs
      → IsLeaf x layout.hhdm_base (onto js p) e
      → al.HasFrames s.alloc fs
      → IsTree x layout.hhdm_base (window layout) own s.tables fs
      → Clear x layout.hhdm_base s.tables t js
      → Puts own s t p js i e fs (put s t js i e)
  unfolding put
  put-Puts [] own s t p i e fs o short room leaf frames tree clear =
      put-here own s t p i e fs o leaf frames tree
  put-Puts (j ∷ js) own s t p i e [] o short room leaf frames tree clear =
      absurd (omega (arith, room))
  put-Puts (j ∷ js) own s t p i e (f ∷ fs) o short room leaf frames tree clear =
      let w =
        walk_entry-Steps x al mode layout d own s t p j f fs js o (omega (arith, short)) frames tree
          clear in
      let r =
        put-Puts js w.own' w.s' w.t' (j ∷ p) i e w.fs' w.owned (omega (arith, short))
          (omega (arith, w.enough, room)) leaf w.frames w.tree w.clear in
      let entry = r.above t p j (w.keeps t p o) (omega arith) in
      record {
        s' = r.s';
        own' = r.own';
        fs' = r.fs';
        runs = rw w.runs r.runs;
        frames = r.frames;
        enough = omega (arith, w.enough, r.enough);
        left = IsLeft-trans r.fs' w.fs' (f ∷ fs) r.left w.left;
        same_lock = r.same_lock ∙ w.same_lock;
        tree = r.tree;
        keeps = λ t0 p0 h. r.keeps t0 p0 (w.keeps t0 p0 h);
        above = λ t0 p0 k h l.
            r.above t0 p0 k (w.keeps t0 p0 h) (omega (arith, l)) ∙ w.above t0 p0 k h l;
        at = λ q l.
            rw
              (
                lookup-cons x layout.hhdm_base r.s'.tables t j (js ++ i ∷ q),
                entry,
                w.leads,
                found-table x layout.hhdm_base (w.s'.tables t j) (js ++ i ∷ q)
                    (finds r.s' w.t' (js ++ i ∷ q)) w.present w.table
                    (omega (arith, length-append js (i ∷ q))),
              )
              (r.at q (omega (arith, l)));
        off = λ q t0 p0 h l h_off. r.off q t0 p0 (w.keeps t0 p0 h) l h_off ∙ w.same q t0 p0 h l;
      }
