-- ===== src/Suse/Keeps/Moves.antt =====
-- move_tcb_to keeps what its steps keep.
use locomatch.Prelude.{ℕ, List, [], ◌∷◌, ◌++◌}
use locomatch.Suse.State.{
  ThreadState, new, ready, exec, blocked, exit, same_state, Burst, Tcb, Suse,
}
use locomatch.Suse.Monad.{modify, put_tcb, lock_state_list, unlock_state_list}
use locomatch.Suse.Timing.{Env, F, gettimeofday, set_state_start_timing, set_new_timings_for}
use locomatch.Suse.Moves.{
  increase_multiprog, decrease_multiprog, program_remove_tcb_from_state, program_add_tcb_to_state,
  end_timing, start_timing, leave_state, enter_state, set_state, move_tcb_to,
}
use locomatch.Suse.Keeps.{
  Keeps, Keeps-bind, Keeps-need, Keeps-return, Keeps-get, Keeps-tcb_at, Keeps-if,
}

-- The steps of move_tcb_to.
pub record MoveRules (env : Env) (P W : Suse (F env) → Type 0) : Type 0 where
  pub keeps_put_tcb : (p : ℕ) (t : Tcb (F env)) → Keeps P W (put_tcb p t)
  pub keeps_clock : Keeps P W (gettimeofday env)
  pub keeps_new_list :
      (g : List ℕ → List ℕ) → Keeps P W (modify λ s. record s { new_list = g s.new_list })
  pub keeps_blocked_list :
      (g : List ℕ → List ℕ) → Keeps P W (modify λ s. record s { blocked_list = g s.blocked_list })
  pub keeps_exit_list :
      (g : List ℕ → List ℕ) → Keeps P W (modify λ s. record s { exit_list = g s.exit_list })
  pub keeps_remove :
      (socket tid : ℕ) (state : ThreadState)
      → Keeps P W (program_remove_tcb_from_state socket tid state)
  pub keeps_add :
      (tcb socket : ℕ) (state : ThreadState) → Keeps P W (program_add_tcb_to_state tcb socket state)
  pub keeps_increase : Keeps P W increase_multiprog
  pub keeps_decrease : Keeps P W decrease_multiprog
  pub keeps_lock : Keeps P W lock_state_list
  pub keeps_unlock : Keeps P W unlock_state_list

module _ {env : Env} {P W : Suse (F env) → Type 0} (r : MoveRules env P W) where
  open r use {
    keeps_put_tcb, keeps_clock, keeps_new_list, keeps_blocked_list, keeps_exit_list, keeps_remove,
    keeps_add, keeps_increase, keeps_decrease, keeps_lock, keeps_unlock,
  }

  Keeps-set_new_timings :
      (state : ThreadState) (t : Burst (F env)) → Keeps P W (set_new_timings_for env state t)
  unfolding set_new_timings_for
  Keeps-set_new_timings ready t = Keeps-bind keeps_clock λ now. Keeps-return _
  Keeps-set_new_timings exec t = Keeps-bind keeps_clock λ now. Keeps-return _
  Keeps-set_new_timings _ t = Keeps-return t

  Keeps-set_start_timing :
      (state : ThreadState) (t : Burst (F env)) → Keeps P W (set_state_start_timing env state t)
  unfolding set_state_start_timing
  Keeps-set_start_timing ready t = Keeps-bind keeps_clock λ now. Keeps-return _
  Keeps-set_start_timing exec t = Keeps-bind keeps_clock λ now. Keeps-return _
  Keeps-set_start_timing _ t = Keeps-return t

  pub Keeps-end_timing : (p : ℕ) (state : ThreadState) → Keeps P W (end_timing env p state)
  unfolding end_timing
  Keeps-end_timing p state =
      Keeps-bind (Keeps-tcb_at p)
        λ t. Keeps-bind (Keeps-set_new_timings state t.time) λ time. keeps_put_tcb p _

  pub Keeps-start_timing : (p : ℕ) (state : ThreadState) → Keeps P W (start_timing env p state)
  unfolding start_timing
  Keeps-start_timing p state =
      Keeps-bind (Keeps-tcb_at p)
        λ t. Keeps-bind (Keeps-set_start_timing state t.time) λ time. keeps_put_tcb p _

  Keeps-set_state : (p : ℕ) (state : ThreadState) → Keeps P W (set_state env p state)
  unfolding set_state
  Keeps-set_state p state = Keeps-bind (Keeps-tcb_at p) λ t. keeps_put_tcb p _

  Keeps-leave :
      (p : ℕ) (t : Tcb (F env)) (state : ThreadState) → Keeps P W (leave_state env p t state)
  unfolding leave_state
  Keeps-leave p t new =
      Keeps-bind Keeps-get λ s. Keeps-bind (Keeps-need _) λ left. keeps_new_list (λ _. left)
  Keeps-leave p t ready =
      Keeps-bind (Keeps-end_timing p ready)
        λ _. Keeps-bind (keeps_remove t.socket t.tid ready) λ _. keeps_decrease
  Keeps-leave p t exec =
      Keeps-bind (Keeps-end_timing p exec)
        λ _. Keeps-bind (keeps_remove t.socket t.tid exec) λ _. keeps_decrease
  Keeps-leave p t blocked = Keeps-bind Keeps-get λ s.
      Keeps-bind (Keeps-need _)
        λ left. Keeps-bind (keeps_blocked_list (λ _. left)) λ _. keeps_decrease
  Keeps-leave p t exit =
      Keeps-bind Keeps-get λ s. Keeps-bind (Keeps-need _) λ left. keeps_exit_list (λ _. left)

  Keeps-enter :
      (p : ℕ) (t : Tcb (F env)) (state : ThreadState) → Keeps P W (enter_state env p t state)
  unfolding enter_state
  Keeps-enter p t new = keeps_new_list (λ xs. xs ++ p ∷ [])
  Keeps-enter p t ready =
      Keeps-bind (Keeps-start_timing p ready)
        λ _. Keeps-bind (keeps_add p t.socket ready) λ _. keeps_increase
  Keeps-enter p t exec =
      Keeps-bind (Keeps-start_timing p exec)
        λ _. Keeps-bind (keeps_add p t.socket exec) λ _. keeps_increase
  Keeps-enter p t blocked = Keeps-bind (keeps_blocked_list (λ xs. xs ++ p ∷ [])) λ _. keeps_increase
  Keeps-enter p t exit = Keeps-bind keeps_clock λ now.
      Keeps-bind (Keeps-tcb_at p)
        λ t'. Keeps-bind (keeps_put_tcb p _) λ _. keeps_exit_list (λ xs. xs ++ p ∷ [])

  pub Keeps-move : (p : ℕ) (state : ThreadState) → Keeps P W (move_tcb_to env p state)
  unfolding move_tcb_to
  Keeps-move p state = Keeps-bind keeps_lock λ _. Keeps-bind (Keeps-tcb_at p) λ t.
      Keeps-if (same_state t.state state) _ _ keeps_unlock (
        Keeps-bind (Keeps-leave p t t.state) λ _.
          Keeps-bind (Keeps-enter p t state)
            λ _. Keeps-bind (Keeps-set_state p state) λ _. keeps_unlock)
