-- ===== src/Debug/Written/Search.antt =====
-- The kernel's search in a table that the build tool wrote, against the ranges it was written from.
use wasm_kernel.Base.{
  ℕ, zero, suc, ◌+◌, ◌-◌, ◌*◌, ◌≤◌, ◌<◌, ◌≡◌, refl, ap, ◌∙◌, inl, inr, Bool, true, Option, none,
  some, List, [], ◌∷◌, ◌++◌, arith, ltb, leb, leb→le, length, get_elem?, drop, All, length-append,
  Run, done, assert, >>=-eq-done,
}
use wasm_kernel.Symbols.Bytes.{to_le_bytes, read, length-to_le_bytes, read-to_le_bytes, drop_exact}
use wasm_kernel.Symbols.Search.{Read, binary_search_table, binary_search_table-last}
use wasm_kernel.Symbols.Table.{kernel_base, slice_from, do_read}
use wasm_kernel.Debug.Written.Rising.{
  nth, get_elem?-nth, Rises-ordered, value_at-none, value_at-last,
}
use wasm_kernel.Debug.Ranges.{
  value_at, Rises, filter_ranges, filter_ranges-value_at, filter_ranges-All,
}
use wasm_kernel.Debug.Writer.{u32_bytes, write_range, write_ranges, write_ranges_loop}
use wasm_kernel.Debug.Written.Tables.{u32_read}
use wasm_kernel.Debug.Written.Sections.{section}
use wasm_kernel.Debug.Written.Entries.{
  HasSize, Placed, write_entries-Placed, write_ranges_loop-entries,
}

abbrev pub map_option : {A B : Type 0} → (A → B) → Option A → Option B
map_option f none = none
map_option f (some a) = some (f a)

module _ {T V : Type 0} (is_utf8 : List ℕ → Bool) (write_entry : T → Run (List ℕ)) (size : ℕ)
    (sized : HasSize write_entry size) (entry : List ℕ → List ℕ → Read V) (strings : List ℕ)
    (view : T → V) (Fits : T → Type 0)
    (reads : (e : T) (bytes : List ℕ)
      → Fits e
      → write_entry e ≡ done bytes
      → entry bytes strings ≡ done (some (view e))) where
  slice_from-drop :
      (bytes value : List ℕ)
      → leb 4 (length bytes) ≡ true
      → drop 4 bytes ≡ value
      → slice_from bytes 4 ≡ done value
  unfolding slice_from
  slice_from-drop bytes value fits d = rw (fits, d) refl

  range_read :
      (e : ℕ × T) (bytes : List ℕ)
      → write_range write_entry e ≡ done bytes
      → (length bytes ≡ size + 4)
        × (kernel_base ≤ e.0)
        × (read 4 bytes 0 ≡ some (e.0 - kernel_base))
        × ((rest : List ℕ) × (slice_from bytes 4 ≡ done rest)
            × (Fits (e.1) → entry rest strings ≡ done (some (view (e.1)))))
  unfolding write_range
  range_read e bytes h =
      let (u, base_e, h0) = >>=-eq-done (assert (leb kernel_base (e.0))) _ h in
      let base_h : leb kernel_base (e.0) ≡ true = ground (arith, base_e) in
      let (address, a_e, h1) = >>=-eq-done (u32_bytes (e.0 - kernel_base)) _ h0 in
      let (value, v_e, h2) = >>=-eq-done (write_entry (e.1)) _ h1 in
      let (small, a_b) = u32_read (e.0 - kernel_base) address a_e in
      let whole : to_le_bytes 4 (e.0 - kernel_base) ++ value ≡ bytes =
        rw a_b (ground (arith, h2)) in
      let l4 = length-to_le_bytes 4 (e.0 - kernel_base) in
      let long : length bytes ≡ 4 + size =
        rw
          (
            ← whole,
            length-append (to_le_bytes 4 (e.0 - kernel_base)) value,
            l4,
            sized (e.1) value v_e,
          )
          refl in
      let fits : leb 4 (length bytes) ≡ true = ground (arith, long) in
      let d : drop 4 bytes ≡ value =
        drop_exact 4 (to_le_bytes 4 (e.0 - kernel_base)) value bytes whole l4 in
      (
        omega (arith, long),
        leb→le kernel_base (e.0) base_h,
        rw (← whole) (read-to_le_bytes 4 (e.0 - kernel_base) value small),
        (value, slice_from-drop bytes value fits d, λ f. reads (e.1) value f v_e),
      )

  -- The entry with the index, read from the written table.
  do_read-written :
      (es : List (ℕ × T)) (buf : List ℕ) (i : ℕ) (e : ℕ × T)
      → Placed (write_range write_entry) (size + 4) es buf
      → get_elem? es i ≡ some e
      → i < length es
      → Fits (e.1)
      → (do_read is_utf8 size entry i (length es) buf strings
          ≡ done (some (e.0 - kernel_base, view (e.1))))
        × (kernel_base ≤ e.0)
  unfolding do_read
  do_read-written es buf i e placed g l f =
      let (bytes, w, s) = placed.1 i e g in
      let (long, base, at, (rest, sliced, value)) = range_read e bytes w in
      let inside : ltb i (length es) ≡ true = ground (arith, l) in
      (rw (inside, s, at, sliced, value f) refl, base)

  All-nth :
      (P : ℕ × T → Type 0) (d : ℕ × T) (es : List (ℕ × T)) (i : ℕ)
      → All P es
      → i < length es
      → P (nth d es i)
  All-nth P d [] i h l = absurd (omega (arith, l))
  All-nth P d (x ∷ es) zero h l = h.0
  All-nth P d (x ∷ es) (suc i) h l = All-nth P d es i (h.1) (omega (arith, l))

  -- The search in a table of pairs that rise, against the value of the last pair at or before the address.
  search_rising :
      (d : ℕ × T) (es : List (ℕ × T)) (buf : List ℕ) (target : ℕ)
      → Placed (write_range write_entry) (size + 4) es buf
      → Rises 0 es
      → All (λ p. Fits (p.1)) es
      → binary_search_table
          (λ i. do_read is_utf8 size entry i (length es) buf strings)
          target
          (length es)
        ≡ done (map_option view (value_at (kernel_base + target) none es))
  search_rising d es buf target placed rise fit =
      elim (binary_search_table-last (λ i. do_read is_utf8 size entry i (length es) buf strings)
        (λ i. (nth d es i).0 - kernel_base) (λ i. view ((nth d es i).1)) target (length es)
        (λ i l. (at i l).0) (λ i j o l. ordered i j o l)) [
          | inl h ↦
              rw
                (value_at-none d es (kernel_base + target) none
                  (λ i l. let b = (at i l).1 in let t = h.1 i l in omega (arith, b, t)))
                (h.0)
          | inr (i, found, l, a, behind) ↦
              rw
                (value_at-last d es (kernel_base + target) i none l
                  (let b = (at i l).1 in omega (arith, a, b))
                  (λ j p q. let b = (at j q).1 in let t = behind j p q in omega (arith, b, t)))
                found
        ]
    where
      at :
          (i : ℕ)
          → i < length es
          → (do_read is_utf8 size entry i (length es) buf strings
              ≡ done (some ((nth d es i).0 - kernel_base, view ((nth d es i).1))))
            × (kernel_base ≤ (nth d es i).0)
      at i l =
          do_read-written es buf i (nth d es i) placed (get_elem?-nth d es i l) l
            (All-nth (λ p. Fits (p.1)) d es i fit l)

      ordered :
          (i j : ℕ)
          → i ≤ j
          → j < length es
          → (nth d es i).0 - kernel_base ≤ (nth d es j).0 - kernel_base
      ordered i j o l = let r = Rises-ordered d es 0 i j rise o l in omega (arith, r)

  range_size :
      (e : ℕ × T) (bytes : List ℕ)
      → write_range write_entry e ≡ done bytes
      → length bytes ≡ size + 4
  range_size e bytes h = (range_read e bytes h).0

  -- The written section, searched by the kernel.
  pub write_ranges-search :
      (same : T → T → Bool) (null : T)
      → ((x y : T) → same x y ≡ true → x ≡ y)
      → (ranges : List (ℕ × T)) (out : List ℕ)
      → write_ranges write_entry same null ranges ≡ done out
      → All (λ p. Fits (p.1)) ranges
      → (buf : List ℕ) × (n : ℕ) × (section buf ≡ out)
        × (length buf ≡ n * (size + 4))
        × ((target : ℕ)
            → binary_search_table (λ i. do_read is_utf8 size entry i n buf strings) target n
              ≡ done (map_option view (value_at (kernel_base + target) none ranges)))
  unfolding write_ranges
  write_ranges-search same null same_iff ranges out h fit =
      let (es, es_e, h1) = >>=-eq-done (filter_ranges same null ranges) _ h in
      let (buf, buf_e, h2) = >>=-eq-done (write_ranges_loop write_entry 0 es) _ h1 in
      let (entries_e, rise) = write_ranges_loop-entries write_entry 0 es buf buf_e in
      let placed =
        write_entries-Placed (write_range write_entry) (size + 4) range_size es buf entries_e in
      let agree = (filter_ranges-value_at same null same_iff ranges es es_e).0 in
      let fit' = filter_ranges-All same null same_iff (λ p. Fits (p.1)) ranges es es_e fit in
      (
        buf,
        length es,
        ground (arith, h2),
        placed.0,
        λ target.
            search_rising (0, null) es buf target placed rise fit'
            ∙ ap (λ v. done (map_option view v)) (agree (kernel_base + target)),
      )
