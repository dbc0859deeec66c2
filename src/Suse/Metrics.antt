-- ===== src/Suse/Metrics.antt =====
-- log_metrics, print_thread_metrics, get_exec_percentage. A report is the list of the lines that it
-- writes to the log; whether a label is "ejecucion" or "Ejecucion" is not kept. metrics_mutex is
-- not in the state.
pub mod Counts
pub mod Shared
pub mod Reads
pub mod Threads
pub mod Report
pub mod Logged
use locomatch.Prelude.{
  ℕ, suc, ◌+◌, Bool, true, false, not, ◌&&◌, List, [], ◌∷◌, ◌++◌, Option, none, some, length, ◌==◌,
  if◌then◌else◌,
}
use locomatch.Prelude.Int.{ℤ, pos, negsuc}
use locomatch.Suse.State.{ThreadState, new, ready, exec, blocked, exit, Tcb, Program, Semaforo}
use locomatch.Suse.Monad.{
  M, ◌>>=◌, ◌>>◌, return, get, need, tcb_at, program_at, lock_state_list, unlock_state_list,
}
use locomatch.Suse.Timing.{
  Env, F, float_zero, gettimeofday, get_ms_difference_between, get_total_for,
}
use locomatch.Suse.Moves.{own_program}
use locomatch.Suse.Metrics.Counts.{find_all_my_shared_threads, get_list_size_for}
use locomatch.Suse.Semaphores.{sem_at, lock_sem, unlock_sem}

-- A line of the log.
pub data Line (F : Type 0) : Type 0 where
  hilo_finalizado metricas_por_hilo metricas_por_programa metricas_del_sistema separador : Line F
  hilo : ℕ → ℕ → ThreadState → Line F
  tiempo_en_ejecucion tiempo_en_espera tiempo_de_uso_de_cpu porcentaje : F → Line F
  programa : ℕ → Line F
  hilos_en : ThreadState → ℤ → Line F
  semaforo : List ℕ → ℤ → Line F
  grado_actual : ℤ → Line F

module _ {F : Type 0} where
  -- From pthread_mutex_lock to unlock of state_list_mutex.
  unfoldable pub with_state_lists : {A : Type 0} → M F A → M F A
  with_state_lists body = do lock_state_list; a ← body; unlock_state_list; return a

  -- A loop that writes lines for each element of a list.
  unfoldable pub for_each : {A : Type 0} → (A → M F (List (Line F))) → List A → M F (List (Line F))
  for_each f [] = return []
  for_each f (a ∷ as') = do lines ← f a; rest ← for_each f as'; return (lines ++ rest)

  unfoldable pub program_metrics : ℕ → M F (List (Line F))
  program_metrics p = do
    program ← program_at p
    news ← get_list_size_for p new
    blockeds ← get_list_size_for p blocked
    exits ← get_list_size_for p exit
    return (
        programa program.id
        ∷ hilos_en new news
        ∷ hilos_en ready (pos (length program.ready))
        ∷ hilos_en exec (elim program.exec [ none ↦ pos 0 | some _ ↦ pos 1 ])
        ∷ hilos_en blocked blockeds
        ∷ hilos_en exit exits
        ∷ [])

  -- The loop over semaforos, from index `i` on.
  unfoldable pub semaforo_metrics : ℕ → List Semaforo → M F (List (Line F))
  semaforo_metrics i [] = return []
  semaforo_metrics i (x ∷ xs) = do
    lock_sem i
    sem ← sem_at i
    unlock_sem i
    rest ← semaforo_metrics (i + 1) xs
    return (semaforo sem.id sem.valor ∷ rest)

module _ (env : Env) where
  open env.floats use {of_int, add, mul, div, eq}

  -- `actual` and `suma` after one of the loops of get_exec_percentage.
  unfoldable pub add_execs : ℕ → List ℕ → F env → F env → M (F env) (F env × F env)
  add_execs tid [] actual suma = return (actual, suma)
  add_execs tid (p ∷ ps) actual suma = do
    thread ← tcb_at p
    let total = thread.time.total_exec
    add_execs tid ps (if thread.tid == tid then total else actual) (add suma total)

  unfoldable pub first_exec : ℕ → Option ℕ → M (F env) (F env × F env)
  first_exec tid none = return (float_zero env, float_zero env)
  first_exec tid (some p) = do
    thread ← tcb_at p
    suma ← get_total_for env exec thread.time
    return (if thread.tid == tid then suma else float_zero env, suma)

  abbrev pub nothing_runs : Program → List ℕ → Bool
  nothing_runs program shared_threads =
      elim program.exec [ none ↦ true | some _ ↦ false ]
      && elim program.ready [ [] ↦ true | _ ∷ _ ↦ false ]
      && elim shared_threads [ [] ↦ true | _ ∷ _ ↦ false ]

  unfoldable pub get_exec_percentage : ℕ → ℕ → List ℕ → M (F env) (F env)
  unfolding add_execs first_exec
  get_exec_percentage p tid shared_threads = do
    program ← program_at p
    let whole = do
      (actual₁, suma₁) ← first_exec tid program.exec
      (actual₂, suma₂) ← add_execs tid program.ready actual₁ suma₁
      (actual, suma) ← add_execs tid shared_threads actual₂ suma₂
      return (
          if not (eq suma (float_zero env))
          then div (mul actual (of_int (pos 100))) suma
          else float_zero env)
    if nothing_runs program shared_threads then return (float_zero env) else whole

  -- The switch of print_thread_metrics.
  unfoldable pub state_metrics :
      ThreadState → Tcb (F env) → ℕ → List ℕ → M (F env) (List (Line (F env)))
  state_metrics new tcb p shared_threads = do
    now ← gettimeofday env
    program ← program_at p
    return (
        hilo program.id tcb.tid new
        ∷ tiempo_en_ejecucion (get_ms_difference_between env tcb.time.created now)
        ∷ tiempo_en_espera (float_zero env)
        ∷ tiempo_de_uso_de_cpu (float_zero env)
        ∷ porcentaje (float_zero env)
        ∷ [])
  state_metrics ready tcb p shared_threads = do
    now ← gettimeofday env
    program ← program_at p
    espera ← get_total_for env ready tcb.time
    porciento ← get_exec_percentage p tcb.tid shared_threads
    return (
        hilo program.id tcb.tid ready
        ∷ tiempo_en_ejecucion (get_ms_difference_between env tcb.time.created now)
        ∷ tiempo_en_espera espera
        ∷ tiempo_de_uso_de_cpu tcb.time.total_exec
        ∷ porcentaje porciento
        ∷ [])
  state_metrics exec tcb p shared_threads = do
    now ← gettimeofday env
    program ← program_at p
    running ← need program.exec
    thread ← tcb_at running
    uso ← get_total_for env exec thread.time
    porciento ← get_exec_percentage p tcb.tid shared_threads
    return (
        hilo program.id tcb.tid exec
        ∷ tiempo_en_ejecucion (get_ms_difference_between env tcb.time.created now)
        ∷ tiempo_en_espera thread.time.total_ready
        ∷ tiempo_de_uso_de_cpu uso
        ∷ porcentaje porciento
        ∷ [])
  state_metrics blocked tcb p shared_threads = do
    now ← gettimeofday env
    program ← program_at p
    porciento ← get_exec_percentage p tcb.tid shared_threads
    return (
        hilo program.id tcb.tid blocked
        ∷ tiempo_en_ejecucion (get_ms_difference_between env tcb.time.created now)
        ∷ tiempo_en_espera tcb.time.total_ready
        ∷ tiempo_de_uso_de_cpu tcb.time.total_exec
        ∷ porcentaje porciento
        ∷ [])
  state_metrics exit tcb p shared_threads = do
    program ← program_at p
    porciento ← get_exec_percentage p tcb.tid shared_threads
    return (
        hilo program.id tcb.tid exit
        ∷ tiempo_en_ejecucion (get_ms_difference_between env tcb.time.created tcb.time.finished)
        ∷ tiempo_en_espera tcb.time.total_ready
        ∷ tiempo_de_uso_de_cpu tcb.time.total_exec
        ∷ porcentaje porciento
        ∷ [])

  unfoldable pub print_thread_metrics : ℕ → List ℕ → ℕ → M (F env) (List (Line (F env)))
  print_thread_metrics p shared_threads thread = do
    tcb ← tcb_at thread
    state_metrics tcb.state tcb p shared_threads

  unfoldable pub exec_metrics : ℕ → List ℕ → Option ℕ → M (F env) (List (Line (F env)))
  unfolding print_thread_metrics
  exec_metrics p shared_threads none = return []
  exec_metrics p shared_threads (some thread) = print_thread_metrics p shared_threads thread

  -- A turn of the first loop over clientes.
  unfoldable pub thread_metrics : ℕ → M (F env) (List (Line (F env)))
  thread_metrics p = do
    program ← program_at p
    shared_threads ← find_all_my_shared_threads p
    running ← exec_metrics p shared_threads program.exec
    readies ← for_each (print_thread_metrics p shared_threads) program.ready
    shareds ← for_each (print_thread_metrics p shared_threads) shared_threads
    return (running ++ readies ++ shareds)

  -- What log_metrics writes with the state lists locked.
  unfoldable pub finished_metrics : ℕ → M (F env) (List (Line (F env)))
  finished_metrics tcb = do
    t ← tcb_at tcb
    p ← own_program t.socket
    aux_list ← find_all_my_shared_threads p
    lines ← print_thread_metrics p aux_list tcb
    return (hilo_finalizado ∷ lines ++ separador ∷ [])

  -- The two loops over clientes.
  unfoldable pub client_metrics : List ℕ → M (F env) (List (Line (F env)))
  client_metrics clientes = do
    threads ← for_each thread_metrics clientes
    programs ← for_each program_metrics clientes
    return (metricas_por_hilo ∷ threads ++ metricas_por_programa ∷ programs)

  unfoldable pub all_metrics : M (F env) (ℤ × List (Line (F env)))
  all_metrics = do s ← get; lines ← client_metrics s.clientes; return (s.multiprog_degree, lines)

  -- `none` is NULL.
  unfoldable pub log_metrics : Option ℕ → M (F env) (List (Line (F env)))
  log_metrics (some tcb) = with_state_lists (finished_metrics tcb)
  log_metrics none = do
    (multiprog_actual, lines) ← with_state_lists all_metrics
    s ← get
    semaforos ← semaforo_metrics 0 s.semaforos
    return (
        lines ++ metricas_del_sistema ∷ semaforos ++ grado_actual multiprog_actual ∷ separador ∷ [])
