-- ===== src/Debug/Written/Entries.antt =====
-- A table of entries of one size: the bytes of each are where the kernel looks for them.
use wasm_kernel.Base.{
  ℕ, zero, suc, ◌+◌, ◌*◌, ◌≡◌, ◌∙◌, inl, inr, some, List, [], ◌∷◌, ◌++◌, arith, ltb, ltb→lt,
  Bool-cases, length, get_elem?, length-append, Run, done, >>=-eq-done,
}
use wasm_kernel.Symbols.Bytes.{slice, slice-here}
use wasm_kernel.Symbols.Bytes.{slice-skip}
use wasm_kernel.Debug.Ranges.{Rises}
use wasm_kernel.Debug.Writer.{write_entries, write_range, write_ranges_loop}

module _ {T : Type 0} (write_entry : T → Run (List ℕ)) where
  abbrev pub HasSize : ℕ → Type 0
  HasSize size = (e : T) (bytes : List ℕ) → write_entry e ≡ done bytes → length bytes ≡ size

  abbrev pub Placed : ℕ → List T → List ℕ → Type 0
  Placed size es buf =
      (length buf ≡ length es * size)
      × ((i : ℕ) (e : T)
          → get_elem? es i ≡ some e
          → (bytes : List ℕ) × (write_entry e ≡ done bytes)
            × (slice buf (i * size) size ≡ done bytes))

  pub write_entries-Placed :
      (size : ℕ)
      → HasSize size
      → (es : List T) (buf : List ℕ) → write_entries write_entry es ≡ done buf
      → Placed size es buf
  unfolding write_entries
  write_entries-Placed size sized [] buf h =
      let h' : [] ≡ buf = cc in rw (← h') (omega arith, λ i e g. ground (arith, g))
  write_entries-Placed size sized (e ∷ es) buf h =
      let (bytes, b_e, h1) = >>=-eq-done (write_entry e) _ h in
      let (rest, r_e, h2) = >>=-eq-done (write_entries write_entry es) _ h1 in
      let (len, place) = write_entries-Placed size sized es rest r_e in
      let buf_e : bytes ++ rest ≡ buf = ground (arith, h2) in
      let l = sized e bytes b_e in
      let whole = length-append bytes rest in
      rw (← buf_e) (grind (arith, len, whole, l), at bytes rest b_e l place)
    where
      at :
          (bytes rest : List ℕ)
          → write_entry e ≡ done bytes
          → length bytes ≡ size
          → ((i : ℕ) (x : T)
              → get_elem? es i ≡ some x
              → (out : List ℕ) × (write_entry x ≡ done out)
                × (slice rest (i * size) size ≡ done out))
          → (i : ℕ) (x : T) → get_elem? (e ∷ es) i ≡ some x
          → (out : List ℕ) × (write_entry x ≡ done out)
            × (slice (bytes ++ rest) (i * size) size ≡ done out)
      at bytes rest b_e l place zero x g =
          let z : 0 * size ≡ 0 = omega arith in
          let x_e : e ≡ x = ground (arith, g) in
          let here : slice (bytes ++ rest) 0 (length bytes) ≡ done bytes =
            slice-here [] bytes rest in
          (bytes, rw (← x_e) b_e, rw (z, ← l) here)
      at bytes rest b_e l place (suc i) x g =
          let (out, w, s) = place i x g in
          let m : suc i * size ≡ length bytes + i * size = simp l (omega arith) in
          (out, w, rw m (slice-skip bytes rest (i * size) size ∙ s))

  -- The entries of a search table are written as those of any table, and their addresses rise.
  pub write_ranges_loop-entries :
      (prev : ℕ) (es : List (ℕ × T)) (buf : List ℕ)
      → write_ranges_loop write_entry prev es ≡ done buf
      → (write_entries (write_range write_entry) es ≡ done buf) × Rises prev es
  unfolding write_ranges_loop write_entries
  write_ranges_loop-entries prev [] buf h = (h, tt)
  write_ranges_loop-entries prev (e ∷ es) buf h = elim (Bool-cases (ltb prev (e.0))) [
    | inr c ↦ let h' = rw c at h in cc
    | inl c ↦
        let (bytes, b_e, h1) = >>=-eq-done (write_range write_entry e) _ (rw c at h) in
        let (rest, r_e, h2) = >>=-eq-done (write_ranges_loop write_entry (e.0) es) _ h1 in
        let (same, rise) = write_ranges_loop-entries (e.0) es rest r_e in
        (rw (b_e, same) h2, (ltb→lt prev (e.0) c, rise))
  ]
