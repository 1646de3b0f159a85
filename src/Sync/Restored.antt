-- ===== src/Sync/Restored.antt =====
-- src/sync.rs: the state of the interrupts that a core has comes back when it drops the guard.
use wasm_kernel.Base.{ℕ, ◌≡◌, refl, inl, inr, Bool, true, false}
use wasm_kernel.Sync.{
  Place, outside, saved, disabled, refused, spinning, holding, stored, todo, Core, State, put,
  new_mutex, Step, unsupported, save, irq_disable, swap_free, swap_taken, restore, spin_loop,
  seen_free, store, drop_restore, Steps, here, then_step,
}
use wasm_kernel.Sync.Exclusion.{is_off, put-cases}

-- The places where a core has saved its state.
abbrev pub is_inside : Place → Bool
is_inside outside = false
is_inside saved = true
is_inside disabled = true
is_inside refused = true
is_inside spinning = true
is_inside holding = true
is_inside stored = true
is_inside todo = false

-- The saved state is the one that the core had, and its interrupts are so wherever they are not off.
abbrev pub Keeps : Bool → Core → Type 0
Keeps before c =
    (is_inside c.place ≡ true → c.irq_state ≡ before)
    × (is_off c.place ≡ false → c.interrupts ≡ before)

abbrev pub IsRestored : (ℕ → Bool) → (ℕ → Core) → Type 0
IsRestored before cores = (i : ℕ) → Keeps (before i) (cores i)

put-IsRestored :
    (before : ℕ → Bool) (cores : ℕ → Core) (i : ℕ) (c : Core)
    → IsRestored before cores
    → Keeps (before i) c
    → IsRestored before (put i c cores)
put-IsRestored before cores i c inv k a = elim (put-cases i a c cores) [
  | inl (e, r) ↦ rw (r, e) k
  | inr (n, r) ↦ rw r (inv a)
]

Step-IsRestored :
    {before : ℕ → Bool} {s t : State}
    → IsRestored before s.cores
    → Step s t
    → IsRestored before t.cores
Step-IsRestored {before} {s} inv (unsupported i at h) =
    put-IsRestored before s.cores i _ inv (λ q. cc, λ q. (inv i).1 (rw at refl))
Step-IsRestored {before} {s} inv (save i at h) =
    put-IsRestored before s.cores i _ inv (λ q. (inv i).1 (rw at refl), λ q. (inv i).1 (rw at refl))
Step-IsRestored {before} {s} inv (irq_disable i at) =
    put-IsRestored before s.cores i _ inv (λ q. (inv i).0 (rw at refl), λ q. cc)
Step-IsRestored {before} {s} inv (swap_free i at h) =
    put-IsRestored before s.cores i _ inv (λ q. (inv i).0 (rw at refl), λ q. cc)
Step-IsRestored {before} {s} inv (swap_taken i at h) =
    put-IsRestored before s.cores i _ inv (λ q. (inv i).0 (rw at refl), λ q. cc)
Step-IsRestored {before} {s} inv (restore i at) =
    put-IsRestored before s.cores i _ inv (λ q. (inv i).0 (rw at refl), λ q. (inv i).0 (rw at refl))
Step-IsRestored {before} {s} inv (spin_loop i at h) = inv
Step-IsRestored {before} {s} inv (seen_free i at h) =
    put-IsRestored before s.cores i _ inv (λ q. (inv i).0 (rw at refl), λ q. (inv i).1 (rw at refl))
Step-IsRestored {before} {s} inv (store i at) =
    put-IsRestored before s.cores i _ inv (λ q. (inv i).0 (rw at refl), λ q. cc)
Step-IsRestored {before} {s} inv (drop_restore i at) =
    put-IsRestored before s.cores i _ inv (λ q. cc, λ q. (inv i).0 (rw at refl))

-- In every state reached from a new mutex, a core outside the lock, or waiting in its loop, has its
-- interrupts as they were at the start, and inside it has that state saved.
pub Steps-IsRestored :
    {is_preemptive : Bool} {interrupts : ℕ → Bool} {s : State}
    → Steps (new_mutex is_preemptive interrupts) s
    → IsRestored interrupts s.cores
Steps-IsRestored here = λ i. (λ q. cc, λ q. refl)
Steps-IsRestored (then_step steps step) = Step-IsRestored (Steps-IsRestored steps) step
