-- ===== src/Suse/Join.antt =====
-- suse_join, suse_close, unjoin_exec.
use locomatch.Prelude.{
  ℕ, zero, suc, ◌+◌, [], ◌∷◌, ◌++◌, none, some, length, get_elem?, ◌==◌, if◌then◌else◌, ◌&&◌, List,
}
use locomatch.Suse.State.{ready, blocked, exit, Program}
use locomatch.Suse.Monad.{
  M, spins, ◌>>=◌, ◌>>◌, return, crash, get, need, tcb_at, put_tcb, program_at, lock_state_list,
  unlock_state_list,
}
use locomatch.Suse.Timing.{Env, F}
use locomatch.Suse.Lookup.{at, not_found, dangling, find_tcb_pos}
use locomatch.Suse.Moves.{move_tcb_to}
use locomatch.Suse.Metrics.{log_metrics}
use locomatch.Suse.Wakeup.{wakeup_threads}
use locomatch.Suse.Semaphores.{exec_of}

module _ (env : Env) where
  -- From `tcbFound:` on: the thread that is joined is `tcb`.
  unfoldable pub tcb_found : ℕ → ℕ → M (F env) (Unit {0})
  unfolding exec_of
  tcb_found tcb p = do
    exec ← exec_of p
    t ← tcb_at tcb
    put_tcb tcb (record t { joined = t.joined ++ exec ∷ [] })
    unlock_state_list
    move_tcb_to env exec blocked

  -- Where the thread is not ready: `again` is `goto start`.
  unfoldable pub not_ready : M (F env) (Unit {0}) → ℕ → Program → ℕ → M (F env) (Unit {0})
  not_ready again tid program p = do
    s ← get
    elim (find_tcb_pos s.tcbs s.exit_list tid program.socket) [
      | dangling ↦ crash
      | at i ↦ unlock_state_list
      | not_found ↦ elim (find_tcb_pos s.tcbs s.blocked_list tid program.socket) [
        | dangling ↦ crash
        | at i ↦ do tcb ← need (get_elem? s.blocked_list i); tcb_found tcb p
        | not_found ↦ do unlock_state_list; woken ← wakeup_threads env p; again
      ]
    ]

  -- The turns of the loop from `start:` on are bounded by the fuel.
  unfoldable pub suse_join : ℕ → ℕ → ℕ → M (F env) (Unit {0})
  suse_join zero tid p s = spins
  suse_join (suc fuel) tid p s =
      (do
        lock_state_list
        program ← program_at p
        s' ← get
        elim (find_tcb_pos s'.tcbs program.ready tid program.socket) [
          | dangling ↦ crash
          | at i ↦ do tcb ← need (get_elem? program.ready i); tcb_found tcb p
          | not_found ↦ not_ready (suse_join fuel tid p) tid program p
        ])
        s

  -- The loop of unjoin_exec from index `i` on.
  unfoldable pub unjoin_from : ℕ → ℕ → ℕ → M (F env) (Unit {0})
  unjoin_from zero p i s = spins
  unjoin_from (suc fuel) p i s =
      (do
        exec ← exec_of p
        t ← tcb_at exec
        elim (get_elem? t.joined i) [
          | none ↦ return tt
          | some tcb ↦ do move_tcb_to env tcb ready; unjoin_from fuel p (i + 1)
        ])
        s

  unfoldable pub unjoin_exec : ℕ → M (F env) (Unit {0})
  unjoin_exec p = do exec ← exec_of p; t ← tcb_at exec; unjoin_from (suc (length t.joined)) p 0

  -- The last loop of suse_close, which takes the last thread first; the lines are written to the
  -- log.
  unfoldable pub log_closed : ℕ → ℕ → List ℕ → M (F env) (Unit {0})
  log_closed tid p [] = return tt
  log_closed tid p (tcb ∷ rest) = do
    log_closed tid p rest
    t ← tcb_at tcb
    program ← program_at p
    if t.socket == program.socket && t.tid == tid
        then (do lines ← log_metrics env (some tcb); return tt)
        else return tt

  unfoldable pub suse_close : ℕ → ℕ → M (F env) (Unit {0})
  suse_close tid p = do
    exec ← exec_of p
    t ← tcb_at exec
    let body = do
      unjoin_exec p
      leaving ← exec_of p
      move_tcb_to env leaving exit
      s ← get
      log_closed tid p s.exit_list
    if t.tid == tid then body else return tt
