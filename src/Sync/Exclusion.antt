-- ===== src/Sync/Exclusion.antt =====
-- src/sync.rs: mutual exclusion, and what the lock does to the interrupts of a core.
use wasm_kernel.Base.{
  ℕ, ◌≡◌, refl, sym, ◌∙◌, ◌≢◌, ◌⊎◌, inl, inr, Bool, true, false, arith, ◌==◌, Bool-cases,
}
use wasm_kernel.Sync.{
  Place, outside, saved, disabled, refused, spinning, holding, stored, todo, Core, State, put, move,
  write_lock, new_mutex, Step, unsupported, save, irq_disable, swap_free, swap_taken, restore,
  spin_loop, seen_free, store, drop_restore, Steps, here, then_step,
}

-- The places where a core has its interrupts off.
abbrev pub is_off : Place → Bool
is_off outside = false
is_off saved = false
is_off disabled = true
is_off refused = true
is_off spinning = false
is_off holding = true
is_off stored = true
is_off todo = false

abbrev pub is_holding : Place → Bool
is_holding outside = false
is_holding saved = false
is_holding disabled = false
is_holding refused = false
is_holding spinning = false
is_holding holding = true
is_holding stored = false
is_holding todo = false

-- At most one core holds the guard, the lock is taken just while one does, and a core has interrupts
-- off from the moment before its swap to the end of its drop or of its failed attempt.
pub record IsExclusive (s : State) : Type 0 where
  pub alone :
      (i j : ℕ) → is_holding (s.cores i).place ≡ true → is_holding (s.cores j).place ≡ true → i ≡ j
  pub taken : (i : ℕ) → is_holding (s.cores i).place ≡ true → s.lock ≡ true
  pub held : s.lock ≡ true → (i : ℕ) × (is_holding (s.cores i).place ≡ true)
  pub off : (i : ℕ) → is_off (s.cores i).place ≡ true → (s.cores i).interrupts ≡ false

put-same : (i : ℕ) (c : Core) (cores : ℕ → Core) → put i c cores i ≡ c
unfolding put
put-same i c cores = let h : (i == i) ≡ true = ground arith in rw h refl

pub put-cases :
    (i j : ℕ) (c : Core) (cores : ℕ → Core)
    → ((j ≡ i) × (put i c cores j ≡ c)) ⊎ ((j ≢ i) × (put i c cores j ≡ cores j))
unfolding put
put-cases i j c cores = elim (Bool-cases (j == i)) [
  | inl h ↦ inl (ground (arith, h), rw h refl)
  | inr h ↦ inr (ground (arith, h), rw h refl)
]

-- A move of a core that neither had nor gets the guard.
aside :
    (s : State) (i : ℕ) (c : Core)
    → IsExclusive s
    → is_holding (s.cores i).place ≡ false
    → is_holding c.place ≡ false
    → (is_off c.place ≡ true → c.interrupts ≡ false)
    → IsExclusive (move s i c)
aside s i c inv before after quiet = record {
  alone = λ a b p q. inv.alone a b (was a p) (was b q);
  taken = λ a p. inv.taken a (was a p);
  held = λ p.
      let (h, h_e) = inv.held p in
      (
        h,
        elim (put-cases i h c s.cores) [
          | inl (e, r) ↦ let e' : is_holding (s.cores i).place ≡ true = rw (← e) h_e in cc
          | inr (n, r) ↦ rw r h_e
        ],
      );
  off = λ a p. elim (put-cases i a c s.cores) [
    | inl (e, r) ↦ rw r (quiet (rw r at p))
    | inr (n, r) ↦ rw r (inv.off a (rw r at p))
  ];
}
  where
    was :
        (a : ℕ) → is_holding (put i c s.cores a).place ≡ true → is_holding (s.cores a).place ≡ true
    was a p = elim (put-cases i a c s.cores) [
      | inl (e, r) ↦ let p' = rw r at p in cc
      | inr (n, r) ↦ rw r at p
    ]

-- A swap on the taken lock writes what is there.
move-write_lock :
    (s : State) (i : ℕ) (c : Core)
    → s.lock ≡ true
    → IsExclusive (move s i c)
    → IsExclusive (write_lock s true i c)
move-write_lock s i c h inv = record {
  alone = inv.alone;
  taken = λ a p. refl;
  held = λ p. inv.held h;
  off = inv.off;
}

acquires :
    (s : State) (i : ℕ)
    → IsExclusive s
    → (s.cores i).place ≡ disabled
    → s.lock ≡ false
    → IsExclusive (write_lock s true i (record (s.cores i) { place = holding }))
acquires s i inv at free = record {
  alone = λ a b p q. only a p ∙ sym (only b q);
  taken = λ a p. refl;
  held = λ p. (i, rw (put-same i (record (s.cores i) { place = holding }) s.cores) refl);
  off = λ a p. elim (put-cases i a (record (s.cores i) { place = holding }) s.cores) [
    | inl (e, r) ↦ rw r (inv.off i (rw at refl))
    | inr (n, r) ↦ rw r (inv.off a (rw r at p))
  ];
}
  where
    only :
        (a : ℕ)
        → is_holding (put i (record (s.cores i) { place = holding }) s.cores a).place ≡ true
        → a ≡ i
    only a p = elim (put-cases i a (record (s.cores i) { place = holding }) s.cores) [
      | inl (e, r) ↦ e
      | inr (n, r) ↦ let t = inv.taken a (rw r at p) in cc
    ]

releases :
    (s : State) (i : ℕ)
    → IsExclusive s
    → (s.cores i).place ≡ holding
    → IsExclusive (write_lock s false i (record (s.cores i) { place = stored }))
releases s i inv at = record {
  alone = λ a b p q. absurd (nobody a p);
  taken = λ a p. absurd (nobody a p);
  held = λ p. cc;
  off = λ a p. elim (put-cases i a (record (s.cores i) { place = stored }) s.cores) [
    | inl (e, r) ↦ rw r (inv.off i (rw at refl))
    | inr (n, r) ↦ rw r (inv.off a (rw r at p))
  ];
}
  where
    nobody :
        (a : ℕ)
        → is_holding (put i (record (s.cores i) { place = stored }) s.cores a).place ≡ true
        → ⊥
    nobody a p = elim (put-cases i a (record (s.cores i) { place = stored }) s.cores) [
      | inl (e, r) ↦ let p' = rw r at p in cc
      | inr (n, r) ↦ n (inv.alone a i (rw r at p) (rw at refl))
    ]

Step-IsExclusive : {s t : State} → IsExclusive s → Step s t → IsExclusive t
Step-IsExclusive {s} inv (unsupported i at h) = aside s i _ inv (rw at refl) refl (λ q. cc)
Step-IsExclusive {s} inv (save i at h) = aside s i _ inv (rw at refl) refl (λ q. cc)
Step-IsExclusive {s} inv (irq_disable i at) = aside s i _ inv (rw at refl) refl (λ q. refl)
Step-IsExclusive {s} inv (swap_free i at h) = acquires s i inv at h
Step-IsExclusive {s} inv (swap_taken i at h) =
    move-write_lock s i _ h (aside s i _ inv (rw at refl) refl (λ q. inv.off i (rw at refl)))
Step-IsExclusive {s} inv (restore i at) = aside s i _ inv (rw at refl) refl (λ q. cc)
Step-IsExclusive {s} inv (spin_loop i at h) = inv
Step-IsExclusive {s} inv (seen_free i at h) = aside s i _ inv (rw at refl) refl (λ q. cc)
Step-IsExclusive {s} inv (store i at) = releases s i inv at
Step-IsExclusive {s} inv (drop_restore i at) = aside s i _ inv (rw at refl) refl (λ q. cc)

-- In every state that the cores reach from a new mutex, at most one core holds the guard, the lock is
-- taken just while one does, and no core has interrupts on between its swap and the end of its drop.
pub Steps-IsExclusive :
    {is_preemptive : Bool} {interrupts : ℕ → Bool} {s : State}
    → Steps (new_mutex is_preemptive interrupts) s
    → IsExclusive s
Steps-IsExclusive here = record {
  alone = λ i j p q. cc;
  taken = λ i p. cc;
  held = λ p. cc;
  off = λ i p. cc;
}
Steps-IsExclusive (then_step steps step) = Step-IsExclusive (Steps-IsExclusive steps) step
