-- ===== src/Suse/Keeps/Schedule.antt =====
-- schedule_next_for keeps what the scheduler's steps keep.
use locomatch.Prelude.{ℕ, zero, suc, Option, none, some}
use locomatch.Suse.State.{ThreadState, ready, exec, Burst, Program, Suse}
use locomatch.Suse.Monad.{◌>>=◌, return, need, tcb_at}
use locomatch.Suse.Timing.{Env, F, get_last_burst_for, get_estimate_with_burst}
use locomatch.Suse.Moves.{move_tcb_to}
use locomatch.Suse.Schedule.{
  best_from, change_exec_tcb, notify_program, estimate_to_beat, chosen_tcb, choose, idle,
  schedule_next_for,
}
use locomatch.Suse.Keeps.{
  Keeps, Keeps-bind, Keeps-need, Keeps-return, Keeps-get, Keeps-tcb_at, Keeps-program_at, Keeps-if,
}
use locomatch.Suse.Keeps.Moves.{Keeps-move, Keeps-end_timing, Keeps-start_timing}
use locomatch.Suse.Keeps.Requests.{
  RequestRules, Keeps-spins, Keeps-wakeup_threads, Keeps-wait_for_threads, Keeps-exec_of,
}

module _ {env : Env} {P W : Suse (F env) → Type 0} (r : RequestRules env P W) where
  open r use {
    keeps_lock, keeps_unlock, keeps_put_tcb, keeps_clock, keeps_waits, keeps_put_program,
    keeps_wait_counter, keeps_post_counter, keeps_sent, keeps_new_counter, keeps_check,
    keeps_create,
  }

  pub Keeps-best :
      (threshold : F env) (g : Program) (s : Suse (F env))
      → Keeps P W (need (best_from env s.tcbs 0 g.ready threshold none))
  Keeps-best threshold g s = Keeps-need _

  pub Keeps-change_exec : (p tcb : ℕ) → Keeps P W (change_exec_tcb env p tcb)
  unfolding change_exec_tcb
  Keeps-change_exec p tcb =
      Keeps-bind (Keeps-program_at p)
        λ g. Keeps-bind (current g.exec) λ _. Keeps-move r.move tcb exec
    where
      current :
          (o : Option ℕ)
          → Keeps P W (elim o [ none ↦ return tt | some e ↦ move_tcb_to env e ready ])
      current none = Keeps-return tt
      current (some e) = Keeps-move r.move e ready

  pub Keeps-notify_program : (p : ℕ) → Keeps P W (notify_program env p)
  unfolding notify_program
  Keeps-notify_program p =
      Keeps-bind (Keeps-exec_of r p)
        λ e. Keeps-bind (Keeps-tcb_at e) λ t. Keeps-bind (Keeps-program_at p) λ g. keeps_sent _

  pub Keeps-last_burst :
      (state : ThreadState) (t : Burst (F env)) → Keeps P W (get_last_burst_for env state t)
  unfolding get_last_burst_for
  Keeps-last_burst state t = Keeps-bind keeps_clock λ now. Keeps-return _

  pub Keeps-estimate : (g : Program) → Keeps P W (estimate_to_beat env g)
  unfolding estimate_to_beat
  Keeps-estimate g = by_exec g.exec
    where
      by_exec :
          (o : Option ℕ)
          → Keeps P W (elim o [
            | none ↦ return env.floats.flt_max
            | some current ↦ do
              t ← tcb_at current
              burst ← get_last_burst_for env exec t.time
              return (get_estimate_with_burst env t.time burst)
          ])
      by_exec none = Keeps-return _
      by_exec (some e) =
          Keeps-bind (Keeps-tcb_at e)
            λ t. Keeps-bind (Keeps-last_burst exec t.time) λ burst. Keeps-return _

  pub Keeps-chosen : (g : Program) (pos : Option ℕ) → Keeps P W (chosen_tcb env g pos)
  unfolding chosen_tcb
  Keeps-chosen g (some i) = Keeps-need _
  Keeps-chosen g none = Keeps-bind (Keeps-need g.exec) λ e.
      Keeps-bind (Keeps-end_timing r.move e exec)
        λ _. Keeps-bind (Keeps-start_timing r.move e exec) λ _. Keeps-return e

  pub Keeps-choose : (p : ℕ) (g : Program) → Keeps P W (choose env p g)
  unfolding choose
  Keeps-choose p g = Keeps-bind (Keeps-estimate g) λ threshold. Keeps-bind Keeps-get λ s.
      Keeps-bind (Keeps-best threshold g s) λ best. Keeps-bind (Keeps-chosen g best.1) λ tcb.
        Keeps-bind (Keeps-tcb_at tcb) λ t. Keeps-bind (keeps_put_tcb tcb _) λ _.
          Keeps-bind keeps_unlock λ _. Keeps-bind (switch tcb best.1) λ _. Keeps-notify_program p
    where
      switch :
          (tcb : ℕ) (o : Option ℕ)
          → Keeps P W (elim o [ none ↦ return tt | some i ↦ change_exec_tcb env p tcb ])
      switch tcb none = Keeps-return tt
      switch tcb (some i) = Keeps-change_exec p tcb

  pub Keeps-schedule_next_for : (fuel p : ℕ) → Keeps P W (schedule_next_for env fuel p)
  unfolding schedule_next_for
  Keeps-schedule_next_for zero p = Keeps-spins r
  Keeps-schedule_next_for (suc fuel) p =
      let later = Keeps-schedule_next_for fuel p in
      Keeps-bind keeps_lock λ _. Keeps-bind (Keeps-program_at p) λ g.
        Keeps-if (idle g.ready g.exec) _ _
          (Keeps-bind keeps_unlock λ _.
            Keeps-bind (Keeps-wakeup_threads r p) λ woken.
              Keeps-if woken _ _ later (Keeps-bind (Keeps-wait_for_threads r p) λ _. later))
          (Keeps-choose p g)
