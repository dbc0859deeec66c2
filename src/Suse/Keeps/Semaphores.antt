-- ===== src/Suse/Keeps/Semaphores.antt =====
-- suse_wait and suse_signal keep what the scheduler's steps keep.
use locomatch.Prelude.{ℕ, List, get_elem?, ◌==◌}
use locomatch.Prelude.Int.{ltb_ℤ, leb_ℤ, pos, ◌-ℤ◌}
use locomatch.Suse.State.{blocked, Semaforo, Suse}
use locomatch.Suse.Timing.{Env, F}
use locomatch.Suse.Semaphores.{
  sem_at, put_sem, lock_sem, unlock_sem, wakeup, raise, suse_signal, block, suse_wait,
}
use locomatch.Suse.Keeps.{
  Keeps, Keeps-bind, Keeps-need, Keeps-return, Keeps-get, Keeps-tcb_at, Keeps-if,
}
use locomatch.Suse.Keeps.Moves.{Keeps-move}
use locomatch.Suse.Keeps.Requests.{RequestRules, Keeps-notify_wakeup, Keeps-exec_of}

module _ {env : Env} {P W : Suse (F env) → Type 0} (r : RequestRules env P W)
    (put : (i : ℕ) (x : Semaforo) → Keeps P W (put_sem i x)) where
  open r use {
    keeps_lock, keeps_unlock, keeps_put_tcb, keeps_clock, keeps_waits, keeps_put_program,
    keeps_wait_counter, keeps_post_counter, keeps_sent, keeps_new_counter, keeps_check,
    keeps_create,
  }

  pub Keeps-sem_at : (i : ℕ) → Keeps P W (sem_at i)
  Keeps-sem_at i = record { run = λ s h. (Keeps-need (get_elem? s.semaforos i)).run s h }

  pub Keeps-lock_sem : (i : ℕ) → Keeps P W (lock_sem i)
  unfolding lock_sem
  Keeps-lock_sem i = Keeps-bind (Keeps-sem_at i) λ x. Keeps-if x.sem_mutex _ _ keeps_waits (put i _)

  pub Keeps-unlock_sem : (i : ℕ) → Keeps P W (unlock_sem i)
  unfolding unlock_sem
  Keeps-unlock_sem i = Keeps-bind (Keeps-sem_at i) λ x. put i _

  pub Keeps-wakeup : (i : ℕ) → Keeps P W (wakeup i)
  unfolding wakeup
  Keeps-wakeup i = Keeps-bind (Keeps-sem_at i) λ x. Keeps-bind (Keeps-need _) λ tcb.
      Keeps-bind (put i _) λ _. Keeps-bind (Keeps-notify_wakeup r tcb) λ _. Keeps-unlock_sem i

  pub Keeps-block : (i e : ℕ) → Keeps P W (block env i e)
  unfolding block
  Keeps-block i e = Keeps-bind (Keeps-sem_at i) λ x.
      Keeps-bind (put i _) λ _. Keeps-bind (Keeps-move r.move e blocked) λ _. Keeps-unlock_sem i

  pub Keeps-suse_signal : (tid : ℕ) (name : List ℕ) (p : ℕ) → Keeps P W (suse_signal tid name p)
  unfolding suse_signal
  Keeps-suse_signal tid name p = Keeps-bind (Keeps-exec_of r p) λ e.
      Keeps-bind (Keeps-tcb_at e) λ t.
        Keeps-if (t.tid == tid) _ _
          (Keeps-bind Keeps-get λ s. Keeps-bind (Keeps-need _) λ i.
            Keeps-bind (Keeps-lock_sem i) λ _. Keeps-bind (Keeps-sem_at i) λ x.
              Keeps-bind (put i _) λ _.
                Keeps-if (leb_ℤ (raise x).valor (pos 0)) _ _ (Keeps-wakeup i) (Keeps-unlock_sem i))
          (Keeps-return tt)

  pub Keeps-suse_wait : (tid : ℕ) (name : List ℕ) (p : ℕ) → Keeps P W (suse_wait env tid name p)
  unfolding suse_wait
  Keeps-suse_wait tid name p = Keeps-bind (Keeps-exec_of r p) λ e. Keeps-bind (Keeps-tcb_at e) λ t.
      Keeps-if (t.tid == tid) _ _
        (Keeps-bind Keeps-get λ s. Keeps-bind (Keeps-need _) λ i. Keeps-bind (Keeps-lock_sem i) λ _.
          Keeps-bind (Keeps-sem_at i) λ x. Keeps-bind (put i _) λ _.
            Keeps-if (ltb_ℤ (x.valor -ℤ pos 1) (pos 0)) _ _ (Keeps-block i e) (Keeps-unlock_sem i))
        (Keeps-return tt)
