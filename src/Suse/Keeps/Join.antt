-- ===== src/Suse/Keeps/Join.antt =====
-- suse_join and suse_close keep what the scheduler's steps keep.
use locomatch.Prelude.{
  ℕ, zero, suc, ◌+◌, Option, none, some, get_elem?, length, ◌==◌, ◌&&◌, List, [], ◌∷◌,
}
use locomatch.Suse.State.{ready, blocked, exit, Program, Suse}
use locomatch.Suse.Monad.{M, ◌>>=◌, ◌>>◌, return, crash, need, unlock_state_list}
use locomatch.Suse.Timing.{Env, F}
use locomatch.Suse.Lookup.{Position, at, not_found, dangling, find_tcb_pos}
use locomatch.Suse.Moves.{move_tcb_to}
use locomatch.Suse.Wakeup.{wakeup_threads}
use locomatch.Suse.Join.{
  tcb_found, not_ready, suse_join, unjoin_from, unjoin_exec, log_closed, suse_close,
}
use locomatch.Suse.Keeps.{
  Keeps, Keeps-bind, Keeps-need, Keeps-return, Keeps-get, Keeps-tcb_at, Keeps-program_at, Keeps-if,
}
use locomatch.Suse.Keeps.Metrics.{Keeps-log_finished}
use locomatch.Suse.Keeps.Moves.{Keeps-move}
use locomatch.Suse.Keeps.Requests.{
  RequestRules, Keeps-crash, Keeps-spins, Keeps-wakeup_threads, Keeps-exec_of,
}

module _ {env : Env} {P W : Suse (F env) → Type 0} (r : RequestRules env P W) where
  open r use {
    keeps_lock, keeps_unlock, keeps_put_tcb, keeps_clock, keeps_waits, keeps_put_program,
    keeps_wait_counter, keeps_post_counter, keeps_sent, keeps_new_counter, keeps_check,
    keeps_create,
  }

  pub Keeps-tcb_found : (tcb p : ℕ) → Keeps P W (tcb_found env tcb p)
  unfolding tcb_found
  Keeps-tcb_found tcb p = Keeps-bind (Keeps-exec_of r p) λ e. Keeps-bind (Keeps-tcb_at tcb) λ t.
      Keeps-bind (keeps_put_tcb tcb _) λ _. Keeps-bind keeps_unlock λ _. Keeps-move r.move e blocked

  pub Keeps-not_ready :
      (again : M (F env) (Unit {0})) (tid : ℕ) (g : Program) (p : ℕ)
      → Keeps P W again
      → Keeps P W (not_ready env again tid g p)
  unfolding not_ready
  Keeps-not_ready again tid g p later =
      Keeps-bind Keeps-get λ s. in_exit s (find_tcb_pos s.tcbs s.exit_list tid g.socket)
    where
      in_blocked :
          (s : Suse (F env)) (found : Position)
          → Keeps P W (elim found [
            | dangling ↦ crash
            | at i ↦ do tcb ← need (get_elem? s.blocked_list i); tcb_found env tcb p
            | not_found ↦ do unlock_state_list; woken ← wakeup_threads env p; again
          ])
      in_blocked s dangling = (Keeps-crash r)
      in_blocked s (at i) = Keeps-bind (Keeps-need _) λ tcb. Keeps-tcb_found tcb p
      in_blocked s not_found =
          Keeps-bind keeps_unlock λ _. Keeps-bind (Keeps-wakeup_threads r p) λ _. later

      in_exit :
          (s : Suse (F env)) (found : Position)
          → Keeps P W (elim found [
            | dangling ↦ crash
            | at i ↦ unlock_state_list
            | not_found ↦ elim (find_tcb_pos s.tcbs s.blocked_list tid g.socket) [
              | dangling ↦ crash
              | at i ↦ do tcb ← need (get_elem? s.blocked_list i); tcb_found env tcb p
              | not_found ↦ do unlock_state_list; woken ← wakeup_threads env p; again
            ]
          ])
      in_exit s dangling = (Keeps-crash r)
      in_exit s (at i) = keeps_unlock
      in_exit s not_found = in_blocked s (find_tcb_pos s.tcbs s.blocked_list tid g.socket)

  pub Keeps-suse_join : (fuel tid p : ℕ) → Keeps P W (suse_join env fuel tid p)
  unfolding suse_join
  Keeps-suse_join zero tid p = (Keeps-spins r)
  Keeps-suse_join (suc fuel) tid p = Keeps-bind keeps_lock λ _. Keeps-bind (Keeps-program_at p) λ g.
      Keeps-bind Keeps-get
        λ s. in_ready g (find_tcb_pos s.tcbs g.ready tid g.socket) (Keeps-suse_join fuel tid p)
    where
      in_ready :
          (g : Program) (found : Position)
          → Keeps P W (suse_join env fuel tid p)
          → Keeps P W (elim found [
            | dangling ↦ crash
            | at i ↦ do tcb ← need (get_elem? g.ready i); tcb_found env tcb p
            | not_found ↦ not_ready env (suse_join env fuel tid p) tid g p
          ])
      in_ready g dangling later = (Keeps-crash r)
      in_ready g (at i) later = Keeps-bind (Keeps-need _) λ tcb. Keeps-tcb_found tcb p
      in_ready g not_found later = Keeps-not_ready _ tid g p later

  pub Keeps-unjoin_from : (fuel p i : ℕ) → Keeps P W (unjoin_from env fuel p i)
  unfolding unjoin_from
  Keeps-unjoin_from zero p i = (Keeps-spins r)
  Keeps-unjoin_from (suc fuel) p i = Keeps-bind (Keeps-exec_of r p) λ e.
      Keeps-bind (Keeps-tcb_at e)
        λ t. turn (get_elem? t.joined i) (Keeps-unjoin_from fuel p (i + 1))
    where
      turn :
          (o : Option ℕ)
          → Keeps P W (unjoin_from env fuel p (i + 1))
          → Keeps P W (elim o [
            | none ↦ return tt
            | some tcb ↦ do move_tcb_to env tcb ready; unjoin_from env fuel p (i + 1)
          ])
      turn none later = Keeps-return tt
      turn (some tcb) later = Keeps-bind (Keeps-move r.move tcb ready) λ _. later

  Keeps-log_closed : (tid p : ℕ) (l : List ℕ) → Keeps P W (log_closed env tid p l)
  unfolding log_closed
  Keeps-log_closed tid p [] = Keeps-return tt
  Keeps-log_closed tid p (tcb ∷ rest) = Keeps-bind (Keeps-log_closed tid p rest) λ _.
      Keeps-bind (Keeps-tcb_at tcb) λ t. Keeps-bind (Keeps-program_at p) λ g.
        Keeps-if (t.socket == g.socket && t.tid == tid) _ _
          (Keeps-bind (Keeps-log_finished env keeps_clock tcb keeps_lock keeps_unlock)
            λ lines. Keeps-return tt)
          (Keeps-return tt)

  pub Keeps-suse_close : (tid p : ℕ) → Keeps P W (suse_close env tid p)
  unfolding suse_close unjoin_exec
  Keeps-suse_close tid p = Keeps-bind (Keeps-exec_of r p) λ e. Keeps-bind (Keeps-tcb_at e) λ t.
      Keeps-if (t.tid == tid) _ _
        (Keeps-bind
          (Keeps-bind (Keeps-exec_of r p)
            λ e'. Keeps-bind (Keeps-tcb_at e') λ t'. Keeps-unjoin_from (suc (length t'.joined)) p 0)
          λ _. Keeps-bind (Keeps-exec_of r p) λ leaving.
            Keeps-bind (Keeps-move r.move leaving exit)
              λ _. Keeps-bind Keeps-get λ s. Keeps-log_closed tid p s.exit_list)
        (Keeps-return tt)
