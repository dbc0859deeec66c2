-- ===== src/Suse/Wakeup.antt =====
-- notify_wakeup, wakeup_threads, wait_for_threads.
use locomatch.Prelude.{
  ℕ, zero, suc, ◌+◌, Bool, true, false, [], ◌∷◌, ◌++◌, none, some, length, get_elem?, if◌then◌else◌,
}
use locomatch.Suse.State.{ready}
use locomatch.Suse.Monad.{
  M, waits, spins, ◌>>=◌, ◌>>◌, return, tcb_at, program_at, put_program, wait_tcb_counter,
  post_tcb_counter,
}
use locomatch.Suse.Timing.{Env, F}
use locomatch.Suse.Moves.{own_program, list_remove, move_tcb_to}

module _ {F : Type 0} where
  unfoldable pub lock_wakeup : ℕ → M F (Unit {0})
  lock_wakeup p = do
    program ← program_at p
    if program.wakeup_mutex then waits else put_program p (record program { wakeup_mutex = true })

  unfoldable pub unlock_wakeup : ℕ → M F (Unit {0})
  unlock_wakeup p = do
    program ← program_at p
    put_program p (record program { wakeup_mutex = false })

  unfoldable pub notify_wakeup : ℕ → M F (Unit {0})
  unfolding own_program lock_wakeup unlock_wakeup
  notify_wakeup tcb = do
    t ← tcb_at tcb
    p ← own_program t.socket
    lock_wakeup p
    program ← program_at p
    put_program p (record program { wakeup_list = program.wakeup_list ++ tcb ∷ [] })
    post_tcb_counter p
    unlock_wakeup p

module _ (env : Env) where
  -- The loop, from index `i` on: `i < list_size(program->wakeupList)` is a look at that position.
  unfoldable pub wakeup_from : ℕ → ℕ → ℕ → M (F env) (Unit {0})
  wakeup_from zero p i s = spins
  wakeup_from (suc fuel) p i s =
      (do
        program ← program_at p
        elim (get_elem? program.wakeup_list i) [
          | none ↦ return tt
          | some tcb ↦ do
            put_program p (record program { wakeup_list = list_remove program.wakeup_list i })
            move_tcb_to env tcb ready
            wait_tcb_counter p
            wakeup_from fuel p (i + 1)
        ])
        s

  unfoldable pub wakeup_threads : ℕ → M (F env) Bool
  wakeup_threads p = do
    lock_wakeup p
    program ← program_at p
    elim program.wakeup_list [
      | [] ↦ do unlock_wakeup p; return false
      | t ∷ ts ↦ do wakeup_from (suc (suc (length ts))) p 0; unlock_wakeup p; return true
    ]

  unfoldable pub wait_for_threads : ℕ → M (F env) (Unit {0})
  wait_for_threads p = do
    wait_tcb_counter p
    post_tcb_counter p
    woken ← wakeup_threads p
    return tt
