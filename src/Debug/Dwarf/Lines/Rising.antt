-- ===== src/Debug/Dwarf/Lines/Rising.antt =====
-- buildtool/src/debug/dwarf.rs: what the rows of a sequence say, and what is kept of them.
use wasm_kernel.Base.{
  ℕ, ◌≤◌, ◌<◌, ◌≡◌, refl, sym, ap, ◌∙◌, inl, inr, Bool, true, false, ◌&&◌, Option, some, List, [],
  ◌∷◌, ◌++◌, map, arith, ltb, leb, ◌==◌, if◌then◌else◌, Bool-cases, append_nil, append_assoc, All,
}
use wasm_kernel.Debug.Ranges.{value_at, Ascends}
use wasm_kernel.Debug.Dwarf.{check_range}
use wasm_kernel.Debug.Dwarf.Entries.{SourceLocation}
use wasm_kernel.Debug.Dwarf.Lines.{
  LineEntry, LineSequence, Row, row_location, add_row, end_rows, parse_rows,
}

-- Addresses with their locations, as the rows have them and as they are kept.
abbrev pub entry_pairs : List LineEntry → List (ℕ × SourceLocation)
entry_pairs es = map (λ e. (e.address, e.location)) es

abbrev pub row_pairs : List Row → List (ℕ × SourceLocation)
row_pairs rows = map (λ r. (r.address, row_location r)) rows

abbrev add_rows : List LineEntry → List Row → List LineEntry
add_rows acc [] = acc
add_rows acc (row ∷ rest) = add_rows (add_row acc row) rest

-- A row has the last word on its address, and leaves the others as they are.
value_at-add_row :
    (acc : List LineEntry) (row : Row) (target : ℕ) (seen : Option SourceLocation)
    → value_at target seen (entry_pairs (add_row acc row))
      ≡ value_at target seen (entry_pairs acc ++ (row.address, row_location row) ∷ [])
unfolding value_at add_row
value_at-add_row [] row target seen = refl
value_at-add_row (e ∷ []) row target seen = ground arith
value_at-add_row (e ∷ f ∷ rest) row target seen =
    value_at-add_row (f ∷ rest) row target (if leb e.address target then some e.location else seen)

value_at-prefix :
    (xs ys zs : List (ℕ × SourceLocation)) (target : ℕ)
    → ((seen : Option SourceLocation) → value_at target seen xs ≡ value_at target seen ys)
    → (seen : Option SourceLocation)
    → value_at target seen (xs ++ zs) ≡ value_at target seen (ys ++ zs)
unfolding value_at
value_at-prefix xs ys zs target h seen =
    let a = split xs zs target seen in
    let b = split ys zs target seen in a ∙ ap (λ v. value_at target v zs) (h seen) ∙ sym b
  where
    split :
        (xs zs : List (ℕ × SourceLocation)) (target : ℕ) (seen : Option SourceLocation)
        → value_at target seen (xs ++ zs) ≡ value_at target (value_at target seen xs) zs
    split [] zs target seen = refl
    split (x ∷ xs) zs target seen =
        split xs zs target (if leb (x.0) target then some (x.1) else seen)

value_at-add_rows :
    (rows : List Row) (acc : List LineEntry) (target : ℕ) (seen : Option SourceLocation)
    → value_at target seen (entry_pairs (add_rows acc rows))
      ≡ value_at target seen (entry_pairs acc ++ row_pairs rows)
value_at-add_rows [] acc target seen =
    ap (value_at target seen) (sym (append_nil (entry_pairs acc)))
value_at-add_rows (row ∷ rest) acc target seen =
    value_at-add_rows rest (add_row acc row) target seen
    ∙ value_at-prefix _ _ (row_pairs rest) target (value_at-add_row acc row target) seen
    ∙ ap (value_at target seen)
        (append_assoc (entry_pairs acc) ((row.address, row_location row) ∷ []) (row_pairs rest))

-- The addresses rise behind one, up to another one.
abbrev pub IsTail : ℕ → ℕ → List LineEntry → Type 0
IsTail lo hi [] = lo ≤ hi
IsTail lo hi (e ∷ rest) = (lo < e.address) × IsTail e.address hi rest

-- The entries begin at an address, rise from it, and end at or before another one.
abbrev pub IsRun : ℕ → ℕ → List LineEntry → Type 0
IsRun first hi [] = ⊥
IsRun first hi (e ∷ rest) = (e.address ≡ first) × IsTail first hi rest

add_row-IsTail :
    (acc : List LineEntry) (e : LineEntry) (hi : ℕ) (row : Row)
    → IsTail e.address hi acc
    → hi ≤ row.address
    → IsRun e.address row.address (add_row (e ∷ acc) row)
unfolding add_row
add_row-IsTail [] e hi row t h = elim (Bool-cases (e.address == row.address)) [
  | inl c ↦ rw c (refl, ground arith)
  | inr c ↦ rw c (refl, (ground arith, omega arith))
]
add_row-IsTail (f ∷ rest) e hi row t h =
    let r = add_row-IsTail rest f hi row t.1 h in
    (refl, run_tail (add_row (f ∷ rest) row) e.address f.address row.address t.0 r)
  where
    run_tail :
        (es : List LineEntry) (lo first hi : ℕ) → lo < first → IsRun first hi es → IsTail lo hi es
    run_tail [] lo first hi l r = absurd r
    run_tail (x ∷ xs) lo first hi l r = (omega (arith, l, r.0), rw r.0 r.1)

add_row-IsRun :
    (acc : List LineEntry) (first hi : ℕ) (row : Row)
    → IsRun first hi acc
    → hi ≤ row.address
    → IsRun first row.address (add_row acc row)
add_row-IsRun [] first hi row r h = absurd r
add_row-IsRun (e ∷ acc) first hi row r h = rw (← r.0) (add_row-IsTail acc e hi row (rw r.0 r.1) h)

add_rows-IsRun :
    (rows : List Row) (acc : List LineEntry) (first hi : ℕ)
    → IsRun first hi acc
    → Ascends hi (row_pairs rows)
    → (top : ℕ) × IsRun first top (add_rows acc rows)
add_rows-IsRun [] acc first hi r h = (hi, r)
add_rows-IsRun (row ∷ rest) acc first hi r h =
    add_rows-IsRun rest (add_row acc row) first row.address (add_row-IsRun acc first hi row r h.0)
      h.1

if_false {ℓ} : {A : Type ℓ} (b : Bool) (x y : A) → b ≡ false → (if b then x else y) ≡ y
if_false b x y h = rw h refl

if_true {ℓ} : {A : Type ℓ} (b : Bool) (x y : A) → b ≡ true → (if b then x else y) ≡ x
if_true b x y h = rw h refl

parse_rows-add_rows :
    (rows : List Row) (rest : List (Option Row)) (acc : List LineEntry)
    → All (λ r. r.end_sequence ≡ false) rows
    → parse_rows (map some rows ++ rest) acc ≡ parse_rows rest (add_rows acc rows)
unfolding parse_rows
parse_rows-add_rows [] rest acc h = refl
parse_rows-add_rows (row ∷ rows) rest acc h =
    if_false row.end_sequence _ _ h.0 ∙ parse_rows-add_rows rows rest (add_row acc row) h.1

-- The rows of a sequence, the first one in front, and its end.
pub record IsProgram (first : Row) (rows : List Row) (last : Row) : Type 0 where
  pub goes_on : All (λ r. r.end_sequence ≡ false) (first ∷ rows)
  pub ends : last.end_sequence ≡ true
  pub ascends : Ascends first.address (row_pairs rows)
  pub proper : first.address < last.address
  pub kernel : 0xffffffff80000000 ≤ last.address

-- What is kept of the sequence: its range, and rows whose addresses rise from its start, which say
-- of each address what the rows of the program say.
pub record IsKept (first : Row) (rows : List Row) (last : Row) (kept : LineSequence) : Type 0 where
  pub begin : kept.range.begin ≡ first.address
  pub end : kept.range.end ≡ last.address
  pub run : (top : ℕ) × IsRun first.address top kept.rows
  pub same :
      (target : ℕ) (seen : Option SourceLocation)
      → value_at target seen (entry_pairs kept.rows)
        ≡ value_at target seen (row_pairs (first ∷ rows))

end_rows_kept :
    (es : List LineEntry) (first top : ℕ) (last : Row)
    → IsRun first top es
    → first < last.address
    → 0xffffffff80000000 ≤ last.address
    → end_rows es last
      ≡ record { range = record { begin = first; end = last.address }; rows = es } ∷ []
unfolding end_rows check_range
end_rows_kept [] first top last r proper kernel = absurd r
end_rows_kept (e ∷ es) first top last r proper kernel =
    let test : (ltb e.address last.address
          && (leb 0xffffffff80000000 last.address && ltb e.address last.address))
        ≡ true =
      ground (arith, r.0) in
    if_true _ _ _ test ∙ rw r.0 refl

-- A sequence of rows whose addresses do not fall, which ends behind its start and in the kernel, is
-- kept in front of what the rows behind it give: its addresses rise, and each address has the
-- location that the last row at or before it says.
pub parse_rows-IsKept :
    (first : Row) (rows : List Row) (last : Row) (rest : List (Option Row))
    (others : List LineSequence)
    → IsProgram first rows last
    → parse_rows rest [] ≡ some others
    → (kept : LineSequence) × (parse_rows (map some (first ∷ rows) ++ some last ∷ rest) []
        ≡ some (kept ∷ others))
      × IsKept first rows last kept
unfolding parse_rows end_rows
parse_rows-IsKept first rows last rest others p h =
    let start = add_row [] first in
    let run =
      add_rows-IsRun rows (add_row [] first) first.address first.address
        (unfold add_row in (refl, omega arith)) p.ascends in
    let entries = add_rows [] (first ∷ rows) in
    let kept : LineSequence = record {
      range = record { begin = first.address; end = last.address };
      rows = entries;
    } in
    (
      kept,
      parse_rows-add_rows (first ∷ rows) (some last ∷ rest) [] p.goes_on
          ∙ if_true last.end_sequence _ _ p.ends
          ∙ rw (h, end_rows_kept entries first.address (run.0) last run.1 p.proper p.kernel) refl,
      record {
        begin = refl;
        end = refl;
        run = run;
        same = λ target seen. value_at-add_rows (first ∷ rows) [] target seen;
      },
    )
