-- ===== src/Suse/Moves.antt =====
-- move_tcb_to and what it calls: program_remove_tcb_from_state, program_add_tcb_to_state,
-- increase_multiprog, decrease_multiprog, check_multiprog.
use locomatch.Prelude.{ℕ, zero, suc, List, [], ◌∷◌, ◌++◌, Option, none, some, if◌then◌else◌}
use locomatch.Prelude.Int.{pos, ◌+ℤ◌, ◌-ℤ◌}
use locomatch.Suse.State.{ThreadState, new, ready, exec, blocked, exit, same_state, Tcb}
use locomatch.Suse.Monad.{
  M, ◌>>=◌, ◌>>◌, return, get, modify, need, tcb_at, put_tcb, program_at, put_program,
  lock_state_list, unlock_state_list, wait_multiprog, post_multiprog, wait_tcb_counter,
  post_tcb_counter,
}
use locomatch.Suse.Timing.{Env, F, gettimeofday, set_state_start_timing, set_new_timings_for}
use locomatch.Suse.Lookup.{at, not_found, dangling, find_tcb_pos, get_program}

-- list_remove at a position inside the list.
unfoldable pub list_remove : List ℕ → ℕ → List ℕ
list_remove [] i = []
list_remove (x ∷ xs) zero = xs
list_remove (x ∷ xs) (suc i) = x ∷ list_remove xs i

-- find_tcb_pos and list_remove. A position of -1 is a fault.
unfoldable pub remove_tcb : {F : Type 0} → (ℕ → Option (Tcb F)) → List ℕ → ℕ → ℕ → Option (List ℕ)
unfolding find_tcb_pos list_remove
remove_tcb tcbs list tid socket = elim (find_tcb_pos tcbs list tid socket) [
  | at i ↦ some (list_remove list i)
  | not_found ↦ none
  | dangling ↦ none
]

module _ {F : Type 0} where
  unfoldable pub increase_multiprog : M F (Unit {0})
  increase_multiprog = do
    wait_multiprog
    modify λ s. record s { multiprog_degree = s.multiprog_degree +ℤ pos 1 }

  unfoldable pub decrease_multiprog : M F (Unit {0})
  decrease_multiprog = do
    post_multiprog
    modify λ s. record s { multiprog_degree = s.multiprog_degree -ℤ pos 1 }

  unfoldable pub check_multiprog : M F (Unit {0})
  check_multiprog = do wait_multiprog; post_multiprog

  -- get_program, and the use of its result.
  unfoldable pub own_program : ℕ → M F ℕ
  unfolding get_program
  own_program socket = do found ← get_program socket; need found

  unfoldable pub program_remove_tcb_from_state : ℕ → ℕ → ThreadState → M F (Unit {0})
  program_remove_tcb_from_state socket tid ready = do
    p ← own_program socket
    program ← program_at p
    s ← get
    left ← need (remove_tcb s.tcbs program.ready tid socket)
    put_program p (record program { ready = left })
    wait_tcb_counter p
  program_remove_tcb_from_state socket tid exec = do
    p ← own_program socket
    program ← program_at p
    put_program p (record program { exec = none })
  program_remove_tcb_from_state socket tid _ = do p ← get_program socket; return tt

  unfoldable pub program_add_tcb_to_state : ℕ → ℕ → ThreadState → M F (Unit {0})
  program_add_tcb_to_state tcb socket ready = do
    p ← own_program socket
    program ← program_at p
    put_program p (record program { ready = program.ready ++ tcb ∷ [] })
    post_tcb_counter p
  program_add_tcb_to_state tcb socket exec = do
    p ← own_program socket
    program ← program_at p
    put_program p (record program { exec = some tcb })
  program_add_tcb_to_state tcb socket _ = do p ← get_program socket; return tt

module _ (env : Env) where
  -- The thread's t_burst is written through `tcb->time`.
  unfoldable pub end_timing : ℕ → ThreadState → M (F env) (Unit {0})
  end_timing p state = do
    tcb ← tcb_at p
    time ← set_new_timings_for env state tcb.time
    put_tcb p (record tcb { time = time })

  unfoldable pub start_timing : ℕ → ThreadState → M (F env) (Unit {0})
  start_timing p state = do
    tcb ← tcb_at p
    time ← set_state_start_timing env state tcb.time
    put_tcb p (record tcb { time = time })

  -- The first switch of move_tcb_to, on the state that the thread leaves.
  unfoldable pub leave_state : ℕ → Tcb (F env) → ThreadState → M (F env) (Unit {0})
  leave_state p tcb new = do
    s ← get
    left ← need (remove_tcb s.tcbs s.new_list tcb.tid tcb.socket)
    modify λ s'. record s' { new_list = left }
  leave_state p tcb ready = do
    end_timing p ready
    program_remove_tcb_from_state tcb.socket tcb.tid ready
    decrease_multiprog
  leave_state p tcb exec = do
    end_timing p exec
    program_remove_tcb_from_state tcb.socket tcb.tid exec
    decrease_multiprog
  leave_state p tcb blocked = do
    s ← get
    left ← need (remove_tcb s.tcbs s.blocked_list tcb.tid tcb.socket)
    modify λ s'. record s' { blocked_list = left }
    decrease_multiprog
  leave_state p tcb exit = do
    s ← get
    left ← need (remove_tcb s.tcbs s.exit_list tcb.tid tcb.socket)
    modify λ s'. record s' { exit_list = left }

  -- The second switch, on the state that it enters.
  unfoldable pub enter_state : ℕ → Tcb (F env) → ThreadState → M (F env) (Unit {0})
  enter_state p tcb new = modify λ s. record s { new_list = s.new_list ++ p ∷ [] }
  enter_state p tcb ready = do
    start_timing p ready
    program_add_tcb_to_state p tcb.socket ready
    increase_multiprog
  enter_state p tcb exec = do
    start_timing p exec
    program_add_tcb_to_state p tcb.socket exec
    increase_multiprog
  enter_state p tcb blocked = do
    modify λ s. record s { blocked_list = s.blocked_list ++ p ∷ [] }
    increase_multiprog
  enter_state p tcb exit = do
    now ← gettimeofday env
    t ← tcb_at p
    put_tcb p (record t { time = record (t.time) { finished = now } })
    modify λ s. record s { exit_list = s.exit_list ++ p ∷ [] }

  -- `tcb->state = state`
  unfoldable pub set_state : ℕ → ThreadState → M (F env) (Unit {0})
  set_state p state = do tcb ← tcb_at p; put_tcb p (record tcb { state = state })

  unfoldable pub move_tcb_to : ℕ → ThreadState → M (F env) (Unit {0})
  move_tcb_to p state = do
    lock_state_list
    tcb ← tcb_at p
    if same_state tcb.state state then unlock_state_list else (do
      leave_state p tcb tcb.state
      enter_state p tcb state
      set_state p state
      unlock_state_list)
