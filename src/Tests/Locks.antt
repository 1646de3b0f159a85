-- ===== src/Tests/Locks.antt =====
-- Runs of the mutex.
use wasm_kernel.Base.{refl, true, false}
use wasm_kernel.Sync.{
  State, Steps, here, then_step, new_mutex, save, irq_disable, swap_free, move, write_lock, saved,
  disabled, holding,
}
use wasm_kernel.Sync.Exclusion.{IsExclusive, Steps-IsExclusive}
use wasm_kernel.Sync.Restored.{IsRestored, Steps-IsRestored}

abbrev start : State
start = new_mutex false (λ i. true)

abbrev core_saved : State
core_saved = move start 0 (record (start.cores 0) { place = saved; irq_state = true })

abbrev core_disabled : State
core_disabled =
    move core_saved 0 (record (core_saved.cores 0) { place = disabled; interrupts = false })

-- The first core has the guard.
abbrev core_holding : State
core_holding = write_lock core_disabled true 0 (record (core_disabled.cores 0) { place = holding })

to_holding : Steps start core_holding
unfolding wasm_kernel.Sync.put
to_holding =
    then_step (then_step (then_step here (save 0 refl refl)) (irq_disable 0 refl))
      (swap_free 0 refl refl)

Steps-IsExclusive_example : IsExclusive core_holding
Steps-IsExclusive_example = Steps-IsExclusive to_holding

Steps-IsRestored_example : IsRestored (λ i. true) core_holding.cores
Steps-IsRestored_example = Steps-IsRestored to_holding
