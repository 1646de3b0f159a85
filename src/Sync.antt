-- ===== src/Sync.antt =====
-- src/sync.rs: `IntMutex`, the spin lock that keeps interrupts off while it is held.
pub mod Exclusion
pub mod Restored
use wasm_kernel.Base.{
  ℕ, zero, suc, ◌+◌, ◌-◌, ◌*◌, ◌/◌, ◌%◌, ◌^◌, ◌≤◌, ◌<◌, max, ◌≡◌, refl, sym, ap, ◌∙◌, fun_ext, ◌≢◌,
  ◌↔◌, ◌⊎◌, inl, inr, Bool, true, false, not, ◌&&◌, ◌||◌, Option, none, some, List, [], ◌∷◌, ◌++◌,
  map, arith, ltb, leb, ◌==◌, if◌then◌else◌, ltb→lt, lt→ltb, leb→le, le→leb, ==_iff, Bool-cases,
  Option-cases, length, get_elem?, set, take, drop, All, length-append, set-append, take-append,
  drop-append, All-append, Run, done, panic, ◌>>=◌, ◌>>◌, assert, unwrap, Returns, >>=-eq-done,
  Run-cases,
}

-- Where a core is in `lock` and in the guard's `drop`: outside, behind `IrqState::save`, behind
-- `irq_disable`, behind a swap that found the lock taken, in the loop that waits, with the guard, and
-- behind the store of the drop. A core in the state `todo` has met the `todo!()` of `lock`.
pub data Place : Type 0 where
  outside : Place
  saved : Place
  disabled : Place
  refused : Place
  spinning : Place
  holding : Place
  stored : Place
  todo : Place

pub record Core : Type 0 where
  pub place : Place
  pub interrupts : Bool
  pub irq_state : Bool

-- The mutex and the cores; `is_preemptive` is the test of `MP_STATE`.
pub record State : Type 0 where
  pub lock : Bool
  pub is_preemptive : Bool
  pub cores : ℕ → Core

unfoldable pub put : ℕ → Core → (ℕ → Core) → ℕ → Core
put i c cores j = if j == i then c else cores j

-- The core moves and nothing else changes.
abbrev pub move : State → ℕ → Core → State
move s i c = record s { cores = put i c s.cores }

-- The core moves and the lock is written.
abbrev pub write_lock : State → Bool → ℕ → Core → State
write_lock s b i c = record s { lock = b; cores = put i c s.cores }

-- `IntMutex::new`
abbrev pub new_mutex : Bool → (ℕ → Bool) → State
new_mutex is_preemptive interrupts = record {
  lock = false;
  is_preemptive = is_preemptive;
  cores = λ i. record { place = outside; interrupts = interrupts i; irq_state = false };
}

-- A step of one core. The swap writes true and gives the old value.
pub data Step (s : State) : State → Type 0 where
  unsupported :
      (i : ℕ)
      → (s.cores i).place ≡ outside
      → s.is_preemptive ≡ true
      → Step s (move s i (record (s.cores i) { place = todo }))
  save :
      (i : ℕ)
      → (s.cores i).place ≡ outside
      → s.is_preemptive ≡ false
      → Step s (move s i (record (s.cores i) { place = saved; irq_state = (s.cores i).interrupts }))
  irq_disable :
      (i : ℕ)
      → (s.cores i).place ≡ saved
      → Step s (move s i (record (s.cores i) { place = disabled; interrupts = false }))
  swap_free :
      (i : ℕ)
      → (s.cores i).place ≡ disabled
      → s.lock ≡ false
      → Step s (write_lock s true i (record (s.cores i) { place = holding }))
  swap_taken :
      (i : ℕ)
      → (s.cores i).place ≡ disabled
      → s.lock ≡ true
      → Step s (write_lock s true i (record (s.cores i) { place = refused }))
  restore :
      (i : ℕ)
      → (s.cores i).place ≡ refused
      → Step s
          (move s i (record (s.cores i) { place = spinning; interrupts = (s.cores i).irq_state }))
  spin_loop : (i : ℕ) → (s.cores i).place ≡ spinning → s.lock ≡ true → Step s s
  seen_free :
      (i : ℕ)
      → (s.cores i).place ≡ spinning
      → s.lock ≡ false
      → Step s (move s i (record (s.cores i) { place = saved }))
  store :
      (i : ℕ)
      → (s.cores i).place ≡ holding
      → Step s (write_lock s false i (record (s.cores i) { place = stored }))
  drop_restore :
      (i : ℕ)
      → (s.cores i).place ≡ stored
      → Step s
          (move s i (record (s.cores i) { place = outside; interrupts = (s.cores i).irq_state }))

pub data Steps (s : State) : State → Type 0 where
  here : Steps s s
  then_step : {t u : State} → Steps s t → Step t u → Steps s u
