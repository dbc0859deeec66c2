-- ===== src/Suse/Destroy.antt =====
-- destroy_tcb, destroy_semaforo, destroy_program and
-- list_remove_and_destroy_all_tcb_from_program. free and list_destroy take the pointers out of the
-- heap; a list that is destroyed is left empty. clientes_mutex is not in the state.
pub mod Filter
pub mod Keeps
pub mod Gone
pub mod Loop
pub mod Freed
use locomatch.Prelude.{
  ℕ, ◌+◌, true, List, [], ◌∷◌, ◌++◌, Option, none, some, get_elem?, ◌==◌, if◌then◌else◌,
}
use locomatch.Protocol.Decimal.{Decimal}
use locomatch.Suse.State.{Semaforo}
use locomatch.Suse.Monad.{
  M, waits, ◌>>=◌, ◌>>◌, return, crash, get, modify, need, tcb_at, program_at, put_program,
  lock_state_list, unlock_state_list,
}
use locomatch.Suse.Moves.{list_remove}
use locomatch.Suse.Semaphores.{sem_at, put_sem, lock_sem, unlock_sem}

abbrev pub erase {ℓ} : {A : Type ℓ} → (ℕ → Option A) → ℕ → ℕ → Option A
erase heap p q = if p == q then none else heap q

module _ {F : Type 0} where
  -- The t_tcb and its t_burst are freed.
  unfoldable pub destroy_tcb : ℕ → M F (Unit {0})
  destroy_tcb p = do t ← tcb_at p; modify λ s. record s { tcbs = erase s.tcbs p }

  -- list_destroy_and_destroy_elements with destroy_tcb.
  unfoldable pub destroy_each : List ℕ → M F (Unit {0})
  unfolding destroy_tcb
  destroy_each [] = return tt
  destroy_each (p ∷ ps) = do destroy_tcb p; destroy_each ps

  unfoldable pub destroy_exec : Option ℕ → M F (Unit {0})
  unfolding destroy_tcb
  destroy_exec none = return tt
  destroy_exec (some p) = destroy_tcb p

  -- The mutex and the name are freed with it.
  unfoldable pub destroy_semaforo : Semaforo → M F (Unit {0})
  unfolding destroy_each
  destroy_semaforo semaforo = destroy_each semaforo.blocked

  -- The last loop of destroy_program, and the list_remove behind it: at the size of the list, where
  -- no program has the socket, it is a fault.
  unfoldable pub remove_client : ℕ → List ℕ → M F (List ℕ)
  remove_client socket [] = crash
  remove_client socket (p ∷ ps) = do
    aux ← program_at p
    if aux.socket == socket
        then return ps
        else (do rest ← remove_client socket ps; return (p ∷ rest))

module _ {F : Type 0} (d : Decimal) where
  open d use {itoa, atoi}

  -- The first loop, from position `i` on: the texts of the positions.
  unfoldable pub positions_of : ℕ → ℕ → List ℕ → M F (List (List ℕ))
  positions_of socket i [] = return []
  positions_of socket i (p ∷ ps) = do
    tcb ← tcb_at p
    rest ← positions_of socket (i + 1) ps
    return (if tcb.socket == socket then (itoa i ++ 0 ∷ []) ∷ rest else rest)

  -- The second loop, which takes the last position first.
  unfoldable pub remove_from_back : List (List ℕ) → List ℕ → M F (List ℕ)
  unfolding destroy_tcb
  remove_from_back [] lista = return lista
  remove_from_back (pos ∷ rest) lista = do
    left ← remove_from_back rest lista
    p ← need (get_elem? left (atoi pos))
    destroy_tcb p
    return (list_remove left (atoi pos))

  unfoldable pub list_remove_and_destroy_all_tcb_from_program : List ℕ → ℕ → M F (List ℕ)
  list_remove_and_destroy_all_tcb_from_program lista socket = do
    pos ← positions_of socket 0 lista
    remove_from_back pos lista

  -- The loop over semaforos, from index `i` on.
  unfoldable pub remove_from_semaforos : ℕ → ℕ → List Semaforo → M F (Unit {0})
  remove_from_semaforos socket i [] = return tt
  remove_from_semaforos socket i (x ∷ xs) = do
    lock_sem i
    sem ← sem_at i
    left ← list_remove_and_destroy_all_tcb_from_program sem.blocked socket
    put_sem i (record sem { blocked = left })
    unlock_sem i
    remove_from_semaforos socket (i + 1) xs

  -- The lists of the scheduler and of the program, in the order of destroy_program.
  unfoldable pub destroy_new : ℕ → M F (Unit {0})
  destroy_new socket = do
    s ← get
    left ← list_remove_and_destroy_all_tcb_from_program s.new_list socket
    modify λ s'. record s' { new_list = left }

  unfoldable pub destroy_own : ℕ → M F (Unit {0})
  unfolding destroy_each destroy_exec
  destroy_own p = do
    program ← program_at p
    destroy_each program.ready
    put_program p (record program { ready = [] })
    destroy_exec program.exec

  unfoldable pub destroy_blocked : ℕ → M F (Unit {0})
  destroy_blocked socket = do
    s ← get
    left ← list_remove_and_destroy_all_tcb_from_program s.blocked_list socket
    modify λ s'. record s' { blocked_list = left }

  unfoldable pub destroy_exit : ℕ → M F (Unit {0})
  destroy_exit socket = do
    s ← get
    left ← list_remove_and_destroy_all_tcb_from_program s.exit_list socket
    modify λ s'. record s' { exit_list = left }

  unfoldable pub destroy_wakeup : ℕ → M F (Unit {0})
  unfolding destroy_each
  destroy_wakeup p = do
    program ← program_at p
    destroy_each program.wakeup_list
    put_program p (record program { wakeup_list = [] })

  -- From the loop over semaforos on.
  unfoldable pub leave_scheduler : ℕ → M F (Unit {0})
  leave_scheduler socket = do
    s ← get
    remove_from_semaforos socket 0 s.semaforos
    s' ← get
    left ← remove_client socket s'.clientes
    modify λ s''. record s'' { clientes = left }
    unlock_state_list

  unfoldable pub destroy_program : ℕ → M F (Unit {0})
  destroy_program p = do
    program ← program_at p
    put_program p (record program { close = true })
    lock_state_list
    destroy_new program.socket
    destroy_own p
    destroy_blocked program.socket
    destroy_exit program.socket
    destroy_wakeup p
    leave_scheduler program.socket
