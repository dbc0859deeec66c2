-- ===== src/Suse/Create.antt =====
-- create_tcb, create_semaforo, create_program, get_new_tcb, main_exec_signal. malloc and
-- pthread_create succeed.
use locomatch.Prelude.{ℕ, suc, ◌+◌, true, false, List, [], ◌∷◌, ◌++◌, Option, none, get_elem?}
use locomatch.Prelude.Int.{ℤ}
use locomatch.Suse.State.{new, Tcb, Semaforo, update}
use locomatch.Suse.Monad.{
  M, ◌>>=◌, ◌>>◌, return, get, modify, program_at, put_program, tcb_at, lock_state_list,
  unlock_state_list,
}
use locomatch.Suse.Timing.{Env, F, create_burst}
use locomatch.Suse.Moves.{own_program}

-- t_config_semaforo
pub record ConfigSemaforo : Type 0 where
  pub id : List ℕ
  pub init : ℤ
  pub max : ℤ

unfoldable pub create_semaforo : ConfigSemaforo → Semaforo
create_semaforo config = record {
  id = config.id;
  valor = config.init;
  max_value = config.max;
  blocked = [];
  sem_mutex = false;
}

-- init_semaforos, its loop over the configuration.
unfoldable pub init_semaforos : List ConfigSemaforo → List Semaforo
unfolding create_semaforo
init_semaforos [] = []
init_semaforos (c ∷ cs) = create_semaforo c ∷ init_semaforos cs

-- The new t_tcb is put in newList and announced by new_counter.
unfoldable pub create_tcb : (env : Env) → ℕ → ℕ → M (F env) ℕ
unfolding create_burst
create_tcb env socket thread_id = do
  time ← create_burst env
  lock_state_list
  s ← get
  let p = s.next_tcb
  let tcb : Tcb (F env) = record {
    socket = socket;
    tid = thread_id;
    state = new;
    time = time;
    joined = [];
  }
  modify λ s'. record s' {
    tcbs = update s'.tcbs p tcb;
    next_tcb = suc p;
    new_list = s'.new_list ++ p ∷ [];
    new_counter = s'.new_counter + 1;
  }
  unlock_state_list
  return p

-- `p` is the address that malloc gives, `id` the value of ++program_id_counter.
unfoldable pub create_program : {F : Type 0} → ℕ → ℕ → ℕ → M F (Unit {0})
create_program p id client_socket = modify λ s. record s {
  programs = update s.programs p (record {
    id = id;
    socket = client_socket;
    ready = [];
    exec = none;
    main_loaded_mutex = true;
    tcb_counter = 0;
    wakeup_mutex = false;
    wakeup_list = [];
    close = false;
  });
  clientes = s.clientes ++ p ∷ [];
}

module _ {F : Type 0} where
  unfoldable pub get_new_tcb : M F (Option ℕ)
  get_new_tcb = do lock_state_list; s ← get; unlock_state_list; return (get_elem? s.new_list 0)

  -- main_loaded_mutex is unlocked for the program of the thread.
  unfoldable pub main_exec_signal : ℕ → M F (Unit {0})
  unfolding own_program
  main_exec_signal tcb = do
    t ← tcb_at tcb
    p ← own_program t.socket
    program ← program_at p
    put_program p (record program { main_loaded_mutex = false })
