-- ===== src/Suse/Turns.antt =====
-- One turn of schedule_long_term and one of schedule_short_term.
use locomatch.Prelude.{ℕ, ◌-◌, Bool, true, false, ◌&&◌, List, [], none, some, ◌==◌, if◌then◌else◌}
use locomatch.Suse.State.{ready, exec}
use locomatch.Suse.Monad.{
  M, done, waits, ◌>>=◌, ◌>>◌, return, tcb_at, program_at, put_program, lock_state_list,
  unlock_state_list,
}
use locomatch.Suse.Timing.{Env, F}
use locomatch.Suse.Moves.{move_tcb_to, check_multiprog}
use locomatch.Suse.Create.{create_tcb, get_new_tcb, main_exec_signal}
use locomatch.Suse.Wakeup.{wakeup_threads}
use locomatch.Suse.Semaphores.{suse_wait, suse_signal}
use locomatch.Suse.Join.{suse_join, suse_close}
use locomatch.Suse.Schedule.{schedule_next_for}
use locomatch.Protocol.Codes.{
  Pedido, create, schedule_next, wait, signal, join, close, desconectado, desconocido,
}

abbrev pub is_empty : List ℕ → Bool
is_empty [] = true
is_empty _ = false

module _ {F : Type 0} where
  unfoldable pub wait_new_counter : M F (Unit {0})
  wait_new_counter s =
      if s.new_counter == 0 then waits s else done tt (record s { new_counter = s.new_counter - 1 })

  unfoldable pub lock_main_loaded : ℕ → M F (Unit {0})
  lock_main_loaded p = do
    program ← program_at p
    if program.main_loaded_mutex
        then waits
        else put_program p (record program { main_loaded_mutex = true })

  unfoldable pub unlock_main_loaded : ℕ → M F (Unit {0})
  unlock_main_loaded p = do
    program ← program_at p
    put_program p (record program { main_loaded_mutex = false })

module _ (env : Env) (endsuse : Bool) where
  -- Admits the oldest new thread.
  unfoldable pub admit : M (F env) (Unit {0})
  admit = do
    current ← get_new_tcb
    check_multiprog
    elim current [
      | none ↦ return tt
      | some tcb ↦ do
        move_tcb_to env tcb ready
        t ← tcb_at tcb
        if t.tid == 0 then main_exec_signal tcb else return tt
    ]

  unfoldable pub long_term_turn : M (F env) (Unit {0})
  unfolding admit
  long_term_turn = do wait_new_counter; if endsuse then return tt else admit

  -- SUSE_CREATE: the main thread waits for its admission and runs at once.
  unfoldable pub suse_create : ℕ → ℕ → M (F env) (Unit {0})
  suse_create tid p = do
    self ← program_at p
    tcb ← create_tcb env self.socket tid
    let main_thread = do lock_main_loaded p; move_tcb_to env tcb exec; unlock_main_loaded p
    if tid == 0 then main_thread else return tt

  unfoldable pub set_close : ℕ → M (F env) (Unit {0})
  set_close p = do self ← program_at p; put_program p (record self { close = true })

  -- The switch on the operation; `fuel` bounds the turns of the loops inside.
  unfoldable pub attend : ℕ → ℕ → Pedido → M (F env) (Unit {0})
  attend fuel p (create tid) = suse_create tid p
  attend fuel p schedule_next = schedule_next_for env fuel p
  attend fuel p (wait tid sem) = suse_wait env tid sem p
  attend fuel p (signal tid sem) = suse_signal tid sem p
  attend fuel p (join tid) = suse_join env fuel tid p
  attend fuel p (close tid) = suse_close env tid p
  attend fuel p desconectado = set_close p
  attend fuel p (desconocido codigo) = return tt

  unfoldable pub short_term_turn : ℕ → ℕ → Pedido → M (F env) (Unit {0})
  short_term_turn fuel p pedido = do
    attend fuel p pedido
    woken ← wakeup_threads env p
    lock_state_list
    self ← program_at p
    if is_empty self.ready && endsuse then set_close p else return tt
    unlock_state_list
