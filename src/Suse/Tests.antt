-- ===== src/Suse/Tests.antt =====
-- The scheduler at a concrete program: its main thread is created, admitted and chosen.
mod Choices
mod Reports
mod Configured
mod Waking
use locomatch.Prelude.{
  ℕ, ◌+◌, ◌-◌, ◌*◌, ◌/◌, ◌≡◌, refl, true, false, [], ◌∷◌, none, arith, ltb, ltb→lt, le→ltb, ◌==◌,
}
use locomatch.Prelude.Int.{pos, pos_part, leb_ℤ, ◌+ℤ◌, ◌-ℤ◌}
use locomatch.Suse.Floats.{Floats}
use locomatch.Suse.State.{TimeVal, Burst, Program, Suse, update}
use locomatch.Suse.Monad.{Out, done, waits, fault, spins}
use locomatch.Suse.Timing.{
  Env, gettimeofday, get_ms_difference_between, create_burst, get_estimate_with_burst, get_estimate,
  set_state_start_timing, set_new_timings_for, get_last_burst_for,
}
use locomatch.Suse.Lookup.{tcb_pos_from, find_tcb_pos, find_program, get_program}
use locomatch.Suse.Moves.{
  list_remove, remove_tcb, increase_multiprog, decrease_multiprog, check_multiprog, own_program,
  program_remove_tcb_from_state, program_add_tcb_to_state, end_timing, start_timing, leave_state,
  enter_state, set_state, move_tcb_to,
}
use locomatch.Suse.Create.{create_tcb, get_new_tcb, main_exec_signal}
use locomatch.Suse.Wakeup.{lock_wakeup, unlock_wakeup, wakeup_threads}
use locomatch.Suse.Semaphores.{exec_of, suse_wait, lock_sem, unlock_sem, block}
use locomatch.Suse.Lookup.{get_semaforo, get_semaforo_from}
use locomatch.Prelude.Text.{strcmp}
use locomatch.Suse.Shortest.{IsShortest, best_from-IsShortest}
use locomatch.Suse.State.{ready, Tcb}
use locomatch.Suse.Create.{ConfigSemaforo, init_semaforos, create_semaforo}
use locomatch.Suse.State.{Semaforo}
use locomatch.Prelude.Int.{negsuc}
use locomatch.Prelude.{get_elem?, length, List, some, Option}
use locomatch.Protocol.Codes.{wait}
use locomatch.Suse.Balanced.Reached.{semaforos_balanced}
use locomatch.Suse.Schedule.{
  best_from, change_exec_tcb, notify_program, estimate_to_beat, chosen_tcb, choose,
  schedule_next_for,
}
use locomatch.Suse.Turns.{
  wait_new_counter, lock_main_loaded, unlock_main_loaded, admit, suse_create, attend,
  short_term_turn, long_term_turn,
}
use locomatch.Suse.Reach.{Turns, here, next, short_term, short_term_waits, long_term}
use locomatch.Suse.Multiprog.{Conserved, multiprog_bounded}
use locomatch.Protocol.Codes.{create, schedule_next}

ltb_trans : (a b c : ℕ) → ltb a b ≡ true → ltb b c ≡ true → ltb a c ≡ true
ltb_trans a b c h k = ground (arith, ltb→lt a b h, ltb→lt b c k)

-- Whole numbers in place of floats.
abbrev enteros : Floats
enteros = record {
  Float = ℕ;
  of_int = pos_part;
  flt_max = 1000000;
  add = λ a b. a + b;
  sub = λ a b. a - b;
  mul = λ a b. a * b;
  div = λ a b. a / b;
  lt = ltb;
  eq = λ a b. a == b;
  lt_irrefl = λ a. le→ltb a a (omega arith);
  lt_trans = ltb_trans;
}

abbrev instante : TimeVal
instante = record { tv_sec = pos 0; tv_usec = pos 0 }

abbrev basura : Burst ℕ
basura = record {
  total_ready = 7;
  ready_start = instante;
  ready_end = instante;
  total_exec = 7;
  exec_start = instante;
  exec_end = instante;
  last_burst = 7;
  last_estimate = 7;
  created = instante;
  finished = instante;
}

abbrev entorno : Env
entorno = record {
  floats = enteros;
  time_at = λ n. record { tv_sec = pos n; tv_usec = pos 0 };
  alpha_sjf = 1;
  uninitialised = basura;
}

abbrev programa : Program
programa = record {
  id = 1;
  socket = 9;
  ready = [];
  exec = none;
  main_loaded_mutex = true;
  tcb_counter = 0;
  wakeup_mutex = false;
  wakeup_list = [];
  close = false;
}

-- The semaphore "a" starts at 0, with the maximum 1.
abbrev configuracion : List ConfigSemaforo
configuracion = record { id = 97 ∷ []; init = pos 0; max = pos 1 } ∷ []

-- One program, on socket 9, without threads, and two places.
abbrev inicio : Suse ℕ
inicio = record {
  tcbs = λ p. none;
  next_tcb = 0;
  programs = update (λ p. none) 0 programa;
  clientes = 0 ∷ [];
  semaforos = init_semaforos configuracion;
  new_list = [];
  blocked_list = [];
  exit_list = [];
  multiprog_degree = pos 0;
  available_multiprog = 2;
  new_counter = 0;
  state_list_mutex = false;
  ticks = 0;
  sent = [];
}

abbrev estado : Out ℕ (Unit {0}) → Suse ℕ
estado (done a s) = s
estado (waits s) = s
estado fault = inicio
estado spins = inicio

-- The main thread waits for its admission.
abbrev creado : Suse ℕ
creado = estado (short_term_turn entorno false 2 0 (create 0) inicio)

abbrev admitido : Suse ℕ
admitido = estado (long_term_turn entorno false creado)

abbrev elegido : Suse ℕ
elegido = estado (short_term_turn entorno false 2 0 schedule_next admitido)

-- It waits on the semaphore.
abbrev bloqueado : Suse ℕ
bloqueado = estado (short_term_turn entorno false 2 0 (wait 0 (97 ∷ [])) elegido)

vueltas : Turns entorno inicio bloqueado
unfolding lock_main_loaded unlock_main_loaded attend suse_create create_tcb create_burst
    gettimeofday wakeup_threads lock_wakeup unlock_wakeup short_term_turn find_program get_program
    own_program ◌+ℤ◌ ◌-ℤ◌ list_remove remove_tcb tcb_pos_from find_tcb_pos increase_multiprog
    decrease_multiprog check_multiprog program_remove_tcb_from_state program_add_tcb_to_state
    end_timing start_timing leave_state enter_state set_state move_tcb_to get_ms_difference_between
    set_state_start_timing set_new_timings_for wait_new_counter admit get_new_tcb main_exec_signal
    long_term_turn schedule_next_for choose best_from change_exec_tcb notify_program
    estimate_to_beat chosen_tcb exec_of get_last_burst_for get_estimate_with_burst get_estimate
    init_semaforos create_semaforo suse_wait get_semaforo get_semaforo_from strcmp lock_sem
    unlock_sem block
vueltas =
    next
      (next (next (next here (short_term_waits false 2 0 (create 0) refl)) (long_term false refl))
        (short_term false 2 0 schedule_next refl))
      (short_term false 2 0 (wait 0 (97 ∷ [])) refl)

multiprog_bounded_example :
    Conserved 2 bloqueado × (leb_ℤ bloqueado.multiprog_degree (pos 2) ≡ true)
multiprog_bounded_example = multiprog_bounded entorno 2 vueltas refl

-- The main thread, at address 0, is blocked on it.
abbrev semaforo : Semaforo
semaforo = record {
  id = 97 ∷ [];
  valor = negsuc 0;
  max_value = pos 1;
  blocked = 0 ∷ [];
  sem_mutex = false;
}

hay_semaforo : get_elem? bloqueado.semaforos 0 ≡ some semaforo
unfolding lock_main_loaded unlock_main_loaded attend suse_create create_tcb create_burst
    gettimeofday wakeup_threads lock_wakeup unlock_wakeup short_term_turn find_program get_program
    own_program ◌+ℤ◌ ◌-ℤ◌ list_remove remove_tcb tcb_pos_from find_tcb_pos increase_multiprog
    decrease_multiprog check_multiprog program_remove_tcb_from_state program_add_tcb_to_state
    end_timing start_timing leave_state enter_state set_state move_tcb_to get_ms_difference_between
    set_state_start_timing set_new_timings_for wait_new_counter admit get_new_tcb main_exec_signal
    long_term_turn schedule_next_for choose best_from change_exec_tcb notify_program
    estimate_to_beat chosen_tcb exec_of get_last_burst_for get_estimate_with_burst get_estimate
    init_semaforos create_semaforo suse_wait get_semaforo get_semaforo_from strcmp lock_sem
    unlock_sem block
hay_semaforo = refl

semaforos_balanced_example : (leb_ℤ (negsuc 0) (pos 1) ≡ true) × (length semaforo.blocked ≡ 1)
semaforos_balanced_example =
    semaforos_balanced entorno configuracion ((refl, refl, refl), tt) refl vueltas 0 semaforo
      hay_semaforo
