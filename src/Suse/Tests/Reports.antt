-- ===== src/Suse/Tests/Reports.antt =====
-- A scheduler with the threads of two programs, one of them blocked on a semaphore.
use locomatch.Prelude.{ℕ, ◌≡◌, refl, false, [], ◌∷◌, Option, none, length, arith}
use locomatch.Prelude.Int.{pos, negsuc}
use locomatch.Protocol.Tests.{decimal}
use locomatch.Suse.State.{ThreadState, ready, blocked, exit, Tcb, Program, Semaforo, Suse, update}
use locomatch.Suse.Monad.{done}
use locomatch.Suse.Destroy.{erase, list_remove_and_destroy_all_tcb_from_program, destroy_program}
use locomatch.Suse.Destroy.Filter.{list_remove_and_destroy_all_eq}
use locomatch.Suse.Destroy.Gone.{NeverEnds}
use locomatch.Suse.Destroy.Freed.{destroy_program-NeverEnds}
use locomatch.Suse.Metrics.{log_metrics}
use locomatch.Suse.Metrics.Shared.{IsCounted, find_all_my_shared_threads-IsCounted}
use locomatch.Suse.Metrics.Reads.{Ended}
use locomatch.Suse.Metrics.Logged.{log_metrics-Ended}
use locomatch.Suse.Tests.{basura, entorno}

abbrev pub hilo_de : ℕ → ℕ → ThreadState → Tcb ℕ
hilo_de socket tid state = record {
  socket = socket;
  tid = tid;
  state = state;
  time = basura;
  joined = [];
}

-- Threads 0 and 2 are of the program on socket 9, thread 1 of the one on socket 8.
abbrev hilos : ℕ → Option (Tcb ℕ)
hilos =
    update
      (update (update (update (λ p. none) 0 (hilo_de 9 0 blocked)) 1 (hilo_de 8 0 blocked)) 2
        (hilo_de 9 1 exit))
      3 (hilo_de 9 2 ready)

abbrev programa_nueve : Program
programa_nueve = record {
  id = 1;
  socket = 9;
  ready = 3 ∷ [];
  exec = none;
  main_loaded_mutex = false;
  tcb_counter = 1;
  wakeup_mutex = false;
  wakeup_list = [];
  close = false;
}

abbrev espera : Semaforo
espera = record {
  id = 97 ∷ [];
  valor = negsuc 0;
  max_value = pos 1;
  blocked = 0 ∷ [];
  sem_mutex = false;
}

abbrev ocupado : Suse ℕ
ocupado = record {
  tcbs = hilos;
  next_tcb = 4;
  programs = update (λ p. none) 0 programa_nueve;
  clientes = 0 ∷ [];
  semaforos = espera ∷ [];
  new_list = [];
  blocked_list = 1 ∷ 0 ∷ [];
  exit_list = 2 ∷ [];
  multiprog_degree = pos 3;
  available_multiprog = 2;
  new_counter = 0;
  state_list_mutex = false;
  ticks = 0;
  sent = [];
}

list_remove_and_destroy_all_example :
    list_remove_and_destroy_all_tcb_from_program decimal (1 ∷ 0 ∷ []) 9 ocupado
    ≡ done (1 ∷ []) (record ocupado { tcbs = erase hilos 0 })
list_remove_and_destroy_all_example =
    list_remove_and_destroy_all_eq decimal ocupado (1 ∷ 0 ∷ []) 9
      ((hilo_de 8 0 blocked, refl), ((hilo_de 9 0 blocked, refl), tt))
      (((λ e. omega (arith, e)), tt), (tt, tt))

destroy_program_example : NeverEnds (destroy_program decimal 0 ocupado)
destroy_program_example =
    destroy_program-NeverEnds decimal ocupado 0 0 programa_nueve (hilo_de 9 0 blocked) 1 0 0 espera
      refl refl refl refl refl refl (((λ e. omega (arith, e)), tt), (tt, tt))

find_all_example : IsCounted 0 9 ocupado
find_all_example = find_all_my_shared_threads-IsCounted ocupado 0 programa_nueve refl (record {
  news = tt;
  blockeds = ((hilo_de 8 0 blocked, refl), ((hilo_de 9 0 blocked, refl), tt));
  exits = ((hilo_de 9 1 exit, refl), tt);
})

-- Three threads of one program, and one semaphore.
log_metrics_example : Ended ocupado (λ lines. length lines ≡ 27) (log_metrics entorno none ocupado)
log_metrics_example = log_metrics-Ended entorno ocupado (record {
  lists_free = refl;
  sems_free = (refl, tt);
  consistent = record {
    news = tt;
    blockeds = ((hilo_de 8 0 blocked, refl, refl), ((hilo_de 9 0 blocked, refl, refl), tt));
    exits = ((hilo_de 9 1 exit, refl, refl), tt);
    programs = (
      (
        programa_nueve,
        record { here = refl; running = λ q e. cc; readies = ((hilo_de 9 2 ready, refl), tt) },
        ((hilo_de 9 2 ready, refl, refl), tt),
      ),
      tt,
    );
  };
})
