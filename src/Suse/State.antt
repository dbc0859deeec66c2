-- ===== src/Suse/State.antt =====
-- The data of planificacion/suse/suse_scheduler.h, with the globals in one record. A pointer is a
-- number; the heaps say what it points to. An `int` that is only compared for equality, such as a
-- socket or a thread id, is its bit pattern.
use locomatch.Prelude.{ℕ, Bool, true, false, List, Option, some, ◌==◌, if◌then◌else◌}
use locomatch.Prelude.Int.{ℤ}

-- t_state
pub data ThreadState : Type 0 where
  new ready exec blocked exit : ThreadState

abbrev pub same_state : ThreadState → ThreadState → Bool
same_state new new = true
same_state ready ready = true
same_state exec exec = true
same_state blocked blocked = true
same_state exit exit = true
same_state _ _ = false

-- struct timeval
pub record TimeVal : Type 0 where
  pub tv_sec : ℤ
  pub tv_usec : ℤ

-- t_burst
pub record Burst (F : Type 0) : Type 0 where
  pub total_ready : F
  pub ready_start : TimeVal
  pub ready_end : TimeVal
  pub total_exec : F
  pub exec_start : TimeVal
  pub exec_end : TimeVal
  pub last_burst : F
  pub last_estimate : F
  pub created : TimeVal
  pub finished : TimeVal

-- t_tcb
pub record Tcb (F : Type 0) : Type 0 where
  pub socket : ℕ
  pub tid : ℕ
  pub state : ThreadState
  pub time : Burst F
  pub joined : List ℕ

-- t_program; a mutex is whether it is locked, a semaphore its value.
pub record Program : Type 0 where
  pub id : ℕ
  pub socket : ℕ
  pub ready : List ℕ
  pub exec : Option ℕ
  pub main_loaded_mutex : Bool
  pub tcb_counter : ℕ
  pub wakeup_mutex : Bool
  pub wakeup_list : List ℕ
  pub close : Bool

-- t_semaforo
pub record Semaforo : Type 0 where
  pub id : List ℕ
  pub valor : ℤ
  pub max_value : ℤ
  pub blocked : List ℕ
  pub sem_mutex : Bool

pub record Suse (F : Type 0) : Type 0 where
  pub tcbs : ℕ → Option (Tcb F)
  pub next_tcb : ℕ
  pub programs : ℕ → Option Program
  pub clientes : List ℕ
  pub semaforos : List Semaforo
  pub new_list : List ℕ
  pub blocked_list : List ℕ
  pub exit_list : List ℕ
  pub multiprog_degree : ℤ
  pub available_multiprog : ℕ
  pub new_counter : ℕ
  pub state_list_mutex : Bool
  -- How often gettimeofday was called, and the thread ids that were sent to each socket.
  pub ticks : ℕ
  pub sent : List (ℕ × ℕ)

-- A write through a pointer.
abbrev pub update {ℓ} : {A : Type ℓ} → (ℕ → Option A) → ℕ → A → ℕ → Option A
update heap p a q = if p == q then some a else heap q
