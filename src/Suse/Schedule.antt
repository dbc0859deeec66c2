-- ===== src/Suse/Schedule.antt =====
-- schedule_next_for, change_exec_tcb, notify_program: the next thread by the shortest estimate.
use locomatch.Prelude.{
  ℕ, zero, suc, ◌+◌, Bool, true, false, List, [], ◌∷◌, ◌++◌, Option, none, some, get_elem?,
  if◌then◌else◌,
}
use locomatch.Suse.State.{ready, exec, Tcb, Program}
use locomatch.Suse.Monad.{
  M, spins, ◌>>=◌, ◌>>◌, return, get, modify, need, tcb_at, put_tcb, program_at, lock_state_list,
  unlock_state_list,
}
use locomatch.Suse.Timing.{Env, F, get_estimate, get_estimate_with_burst, get_last_burst_for}
use locomatch.Suse.Moves.{move_tcb_to, end_timing, start_timing}
use locomatch.Suse.Wakeup.{wakeup_threads, wait_for_threads}
use locomatch.Suse.Semaphores.{exec_of}

abbrev pub idle : List ℕ → Option ℕ → Bool
idle [] none = true
idle _ _ = false

module _ (env : Env) where
  open env use {floats}

  -- The `for` loop over the ready list from position `i` on: best_estimate and best_pos (none is
  -- -1) so far. The outer `none` is a dangling pointer.
  unfoldable pub best_from :
      (ℕ → Option (Tcb (F env))) → ℕ → List ℕ → F env → Option ℕ → Option (F env × Option ℕ)
  best_from tcbs i [] best_estimate best_pos = some (best_estimate, best_pos)
  best_from tcbs i (p ∷ ps) best_estimate best_pos = elim (tcbs p) [
    | none ↦ none
    | some tcb ↦
        let this_estimate = get_estimate env tcb.time in
        let smaller = floats.lt this_estimate best_estimate in
        best_from tcbs (i + 1) ps (if smaller then this_estimate else best_estimate)
          (if smaller then some i else best_pos)
  ]

  unfoldable pub change_exec_tcb : ℕ → ℕ → M (F env) (Unit {0})
  change_exec_tcb p shortest_tcb = do
    program ← program_at p
    elim program.exec [ none ↦ return tt | some current ↦ move_tcb_to env current ready ]
    move_tcb_to env shortest_tcb exec

  -- The answer SUSE_SCHEDULE_NEXT_RETURN.
  unfoldable pub notify_program : ℕ → M (F env) (Unit {0})
  unfolding exec_of
  notify_program p = do
    chosen ← exec_of p
    t ← tcb_at chosen
    program ← program_at p
    modify λ s. record s { sent = s.sent ++ (program.socket, t.tid) ∷ [] }

  -- The estimate to beat: FLT_MAX, or that of the running thread with its burst up to now.
  unfoldable pub estimate_to_beat : Program → M (F env) (F env)
  estimate_to_beat program = elim program.exec [
    | none ↦ return floats.flt_max
    | some current ↦ do
      t ← tcb_at current
      burst ← get_last_burst_for env exec t.time
      return (get_estimate_with_burst env t.time burst)
  ]

  -- The thread at best_pos, or the running one, whose timings are then renewed.
  unfoldable pub chosen_tcb : Program → Option ℕ → M (F env) ℕ
  chosen_tcb program (some i) = need (get_elem? program.ready i)
  chosen_tcb program none = do
    current ← need program.exec
    end_timing env current exec
    start_timing env current exec
    return current

  -- Behind `start:`, once there is a thread to choose; state_list_mutex is locked.
  unfoldable pub choose : ℕ → Program → M (F env) (Unit {0})
  unfolding best_from change_exec_tcb notify_program estimate_to_beat chosen_tcb
  choose p program = do
    threshold ← estimate_to_beat program
    s ← get
    (best_estimate, best_pos) ← need (best_from s.tcbs 0 program.ready threshold none)
    tcb ← chosen_tcb program best_pos
    t ← tcb_at tcb
    put_tcb tcb (record t { time = record (t.time) { last_estimate = best_estimate } })
    unlock_state_list
    elim best_pos [ none ↦ return tt | some i ↦ change_exec_tcb p tcb ]
    notify_program p

  -- The turns from `start:` on are bounded by the fuel.
  unfoldable pub schedule_next_for : ℕ → ℕ → M (F env) (Unit {0})
  unfolding choose
  schedule_next_for zero p s = spins
  schedule_next_for (suc fuel) p s =
      (do
        lock_state_list
        program ← program_at p
        let empty = do
          unlock_state_list
          woken ← wakeup_threads env p
          let waiting = do wait_for_threads env p; schedule_next_for fuel p
          if woken then schedule_next_for fuel p else waiting
        if idle program.ready program.exec then empty else choose p program)
        s
