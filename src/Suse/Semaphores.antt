-- ===== src/Suse/Semaphores.antt =====
-- suse_wait, suse_signal, block, wakeup.
use locomatch.Prelude.{ℕ, true, false, List, [], ◌∷◌, ◌++◌, get_elem?, set, ◌==◌, if◌then◌else◌}
use locomatch.Prelude.Int.{pos, ◌+ℤ◌, ◌-ℤ◌, ltb_ℤ, leb_ℤ}
use locomatch.Suse.State.{blocked, Semaforo}
use locomatch.Suse.Monad.{M, done, waits, ◌>>=◌, ◌>>◌, return, get, need, tcb_at, program_at}
use locomatch.Suse.Timing.{Env, F}
use locomatch.Suse.Lookup.{get_semaforo}
use locomatch.Suse.Moves.{list_remove, move_tcb_to}
use locomatch.Suse.Wakeup.{notify_wakeup}

-- `valor++` below the maximum.
abbrev pub raise : Semaforo → Semaforo
raise semaforo =
    if ltb_ℤ semaforo.valor semaforo.max_value
    then record semaforo { valor = semaforo.valor +ℤ pos 1 }
    else semaforo

module _ {F : Type 0} where
  abbrev pub sem_at : ℕ → M F Semaforo
  sem_at i s = need (get_elem? s.semaforos i) s

  abbrev pub put_sem : ℕ → Semaforo → M F (Unit {0})
  put_sem i semaforo s = done tt (record s { semaforos = set s.semaforos i semaforo })

  unfoldable pub lock_sem : ℕ → M F (Unit {0})
  lock_sem i = do
    semaforo ← sem_at i
    if semaforo.sem_mutex then waits else put_sem i (record semaforo { sem_mutex = true })

  unfoldable pub unlock_sem : ℕ → M F (Unit {0})
  unlock_sem i = do semaforo ← sem_at i; put_sem i (record semaforo { sem_mutex = false })

  -- `program->exec->tid`; NULL where there is no exec.
  unfoldable pub exec_of : ℕ → M F ℕ
  exec_of p = do program ← program_at p; need program.exec

  unfoldable pub wakeup : ℕ → M F (Unit {0})
  wakeup i = do
    semaforo ← sem_at i
    tcb ← need (get_elem? semaforo.blocked 0)
    put_sem i (record semaforo { blocked = list_remove semaforo.blocked 0 })
    notify_wakeup tcb
    unlock_sem i

  unfoldable pub suse_signal : ℕ → List ℕ → ℕ → M F (Unit {0})
  unfolding exec_of
  suse_signal tid sem_name p = do
    exec ← exec_of p
    t ← tcb_at exec
    let body = do
      s ← get
      i ← need (get_semaforo s.semaforos sem_name)
      lock_sem i
      semaforo ← sem_at i
      put_sem i (raise semaforo)
      if leb_ℤ (raise semaforo).valor (pos 0) then wakeup i else unlock_sem i
    if t.tid == tid then body else return tt

module _ (env : Env) where
  unfoldable pub block : ℕ → ℕ → M (F env) (Unit {0})
  block i exec = do
    semaforo ← sem_at i
    put_sem i (record semaforo { blocked = semaforo.blocked ++ exec ∷ [] })
    move_tcb_to env exec blocked
    unlock_sem i

  unfoldable pub suse_wait : ℕ → List ℕ → ℕ → M (F env) (Unit {0})
  unfolding exec_of
  suse_wait tid sem_name p = do
    exec ← exec_of p
    t ← tcb_at exec
    let body = do
      s ← get
      i ← need (get_semaforo s.semaforos sem_name)
      lock_sem i
      semaforo ← sem_at i
      let lowered = record semaforo { valor = semaforo.valor -ℤ pos 1 }
      put_sem i lowered
      if ltb_ℤ lowered.valor (pos 0) then block i exec else unlock_sem i
    if t.tid == tid then body else return tt
