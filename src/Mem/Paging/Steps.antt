-- ===== src/Mem/Paging/Steps.antt =====
-- src/arch/x86_64/paging.rs: a step of the walk from a table to the next one, `walk_entry`.
use wasm_kernel.Base.{
  [], ℕ, ◌+◌, ◌*◌, ◌≤◌, ◌<◌, ◌≡◌, refl, ap, inl, inr, Bool, true, false, Option, some, List, ◌∷◌,
  arith, ◌==◌, ==_iff, Bool-cases, length, done,
}
use wasm_kernel.Mem.Types.{VirtualMemoryLayout}
use wasm_kernel.Mem.Paging.{X86, PageMemory, walk_entry}
use wasm_kernel.Mem.Paging.Walk.{
  IsLeft, FrameAllocator, IsDirect, window, lookup, Clear, IsTree, adopt, grown, walk_entry-present,
  walk_entry-absent,
}
use wasm_kernel.Mem.Paging.NewTable.{
  pointer-flags, pointer-address, tables'-other, tables'-here, Clear-new, lookup-grown, adopt-owned,
  grown-IsTree,
}

-- Tables with paths of different lengths are different.
pub other_table :
    (own : ℕ → Option (List ℕ)) (t t0 : ℕ) (p p0 : List ℕ)
    → own t ≡ some p
    → own t0 ≡ some p0
    → length p0 < length p
    → (t0 == t) ≡ false
other_table own t t0 p p0 o o0 short = elim (Bool-cases (t0 == t)) [
  | inl e ↦
      let same_t : t0 ≡ t = (==_iff t0 t).0 e in
      let same : p0 ≡ p = cc in
      let same_length : length p0 ≡ length p = ap length same in
      absurd (omega (arith, short, same_length))
  | inr e ↦ e
]

module _ {E S : Type 0} (x : X86 E) (al : FrameAllocator S) (mode : Option Bool)
    (layout : VirtualMemoryLayout) (d : IsDirect layout) where
  -- A step of the walk, from a table to the next one.
  pub record Steps (own : ℕ → Option (List ℕ)) (s : PageMemory E S) (t : ℕ) (p : List ℕ) (j : ℕ)
      (fs : List ℕ) (js : List ℕ) : Type 0 where
    pub t' : ℕ
    pub s' : PageMemory E S
    pub own' : ℕ → Option (List ℕ)
    pub fs' : List ℕ
    pub runs : walk_entry x al.allocate mode (some layout) s t j ≡ done (t', s')
    pub frames : al.HasFrames s'.alloc fs'
    pub enough : length fs ≤ length fs' + 1
    pub left : IsLeft fs' fs
    pub same_lock : s'.locked ≡ s.locked
    pub tree : IsTree x layout.hhdm_base (window layout) own' s'.tables fs'
    pub keeps : (t0 : ℕ) (p0 : List ℕ) → own t0 ≡ some p0 → own' t0 ≡ some p0
    pub owned : own' t' ≡ some (j ∷ p)
    pub clear : Clear x layout.hhdm_base s'.tables t' js
    pub present : (x.flags (s'.tables t j)).p ≡ true
    pub table : (x.flags (s'.tables t j)).ps ≡ false
    pub leads : layout.hhdm_base + x.entry_address (s'.tables t j) ≡ t'
    pub above :
        (t0 : ℕ) (p0 : List ℕ) (k : ℕ)
        → own t0 ≡ some p0
        → length p0 < length p
        → s'.tables t0 k ≡ s.tables t0 k
    pub same :
        (q : List ℕ) (t0 : ℕ) (p0 : List ℕ)
        → own t0 ≡ some p0
        → length q + length p0 ≡ 4
        → lookup x layout.hhdm_base s'.tables t0 q ≡ lookup x layout.hhdm_base s.tables t0 q

  pub walk_entry-Steps :
      (own : ℕ → Option (List ℕ)) (s : PageMemory E S) (t : ℕ) (p : List ℕ) (j f : ℕ)
      (fs js : List ℕ)
      → own t ≡ some p
      → length p < 3
      → al.HasFrames s.alloc (f ∷ fs)
      → IsTree x layout.hhdm_base (window layout) own s.tables (f ∷ fs)
      → Clear x layout.hhdm_base s.tables t (j ∷ js)
      → Steps own s t p j (f ∷ fs) js
  walk_entry-Steps own s t p j f fs js o short frames tree clear =
      elim (Bool-cases (x.flags (s.tables t j)).p) [
        | inl present ↦
            let (table, clear') = clear present in
            let (owned, inside, _) = tree.child t j p o short present table in
            record {
              t' = layout.hhdm_base + x.entry_address (s.tables t j);
              s' = s;
              own' = own;
              fs' = f ∷ fs;
              runs = walk_entry-present x al mode layout d s t j present inside;
              frames = frames;
              enough = omega arith;
              left = ([], refl);
              same_lock = refl;
              tree = tree;
              keeps = λ t0 p0 h. h;
              owned = owned;
              clear = clear';
              present = present;
              table = table;
              leads = refl;
              above = λ t0 p0 k h l. refl;
              same = λ q t0 p0 h l. refl;
            }
        | inr absent ↦
            let (alloc', frames', runs) =
              walk_entry-absent x al mode layout d s t j f fs frames absent tree.fresh.0.0 in
            let base = layout.hhdm_base in
            let size = (window layout) in
            let here = tables'-here x base size own s.tables t j p o f fs tree d.size_bound in
            let flags = pointer-flags x base size own s.tables t j p o f fs tree d.size_bound in
            let to = pointer-address x base size own s.tables t j p o f fs tree d.size_bound in
            record {
              t' = base + f * 4096;
              s' = record s { alloc = alloc'; tables = grown x base s.tables t j f };
              own' = adopt own (base + f * 4096) (j ∷ p);
              fs' = fs;
              runs = runs;
              frames = frames';
              enough = omega arith;
              left = (f ∷ [], refl);
              same_lock = refl;
              tree = grown-IsTree x base size own s.tables t j p o f fs tree d.size_bound;
              keeps = adopt-owned x base size own s.tables t j p o f fs tree d.size_bound;
              owned = ground arith;
              clear = Clear-new x base size own s.tables t j p o f fs tree d.size_bound js;
              present = rw (here, flags) refl;
              table = rw (here, flags) refl;
              leads = rw (here, to) refl;
              above = λ t0 p0 k h l.
                  tables'-other x base size own s.tables t j p o f fs tree d.size_bound t0 k p0 h
                    (rw (other_table own t t0 p p0 o h l) refl);
              same = λ q t0 p0 h l.
                  lookup-grown x base size own s.tables t j p o f fs tree d.size_bound absent short
                    q t0 p0 h l;
            }
      ]
