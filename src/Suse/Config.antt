-- ===== src/Suse/Config.antt =====
-- planificacion/suse/suse.c: cargar_config, has_property, _get_semaforos_from_config, init_suse with
-- init_scheduler, wait_for_client, timed_metrics and init_console. malloc and pthread_create
-- succeed.
pub mod Loaded
pub mod Names
pub mod System
pub mod Console
use locomatch.Prelude.{
  ℕ, zero, suc, Bool, true, false, List, [], ◌∷◌, ◌++◌, Option, none, some, get_elem?, ltb,
  if◌then◌else◌,
}
use locomatch.Prelude.Int.{ℤ, pos, negsuc}
use locomatch.Suse.State.{Suse}
use locomatch.Suse.Monad.{M, ◌>>=◌, return}
use locomatch.Suse.Timing.{Env, F}
use locomatch.Suse.Lookup.{is_program_loaded}
use locomatch.Suse.Create.{ConfigSemaforo, init_semaforos, create_program}
use locomatch.Suse.Metrics.{Line, log_metrics}

-- The keys, in the order in which cargar_config asks for them.
pub data Key : Type 0 where
  listen_port metrics_timer max_multiprog sem_ids sem_init sem_max alpha_sjf : Key

-- The configuration file as the commons library reads it, and atoi and atof. An array ends in NULL;
-- here it is its texts.
pub record ConfigFile (F : Type 0) : Type 0 where
  pub keys_amount : ℕ
  pub config_has_property : Key → Bool
  pub string_value : Key → List ℕ
  pub int_value : Key → ℤ
  pub array_value : Key → List (List ℕ)
  pub atoi : List ℕ → ℤ
  pub atof : List ℕ → F

-- t_configData
pub record ConfigData (F : Type 0) : Type 0 where
  pub port : List ℕ
  pub timer : ℤ
  pub multiprog : ℤ
  pub semaforos : List ConfigSemaforo
  pub alpha : F

-- How cargar_config ends: the configuration is there, exit(-1) was called, or NULL was read.
pub data Load (A : Type 0) : Type 0 where
  loaded : A → Load A
  exits : Load A
  crashes : Load A

infixl 5 ◌>>>◌
abbrev pub ◌>>>◌ : {A B : Type 0} → Load A → (A → Load B) → Load B
loaded a >>> f = f a
exits >>> f = exits
crashes >>> f = crashes

-- MIN_CONFIG_KEY
abbrev pub min_config_key : ℕ
min_config_key = 7

-- The loop of _get_semaforos_from_config over the array of names; where another array ends in front
-- of it, atoi reads NULL.
unfoldable pub semaforos_from :
    (List ℕ → ℤ) → List (List ℕ) → List (List ℕ) → List (List ℕ) → Load (List ConfigSemaforo)
semaforos_from atoi [] inits maxs = loaded []
semaforos_from atoi (id ∷ ids) [] maxs = crashes
semaforos_from atoi (id ∷ ids) (i ∷ inits) [] = crashes
semaforos_from atoi (id ∷ ids) (i ∷ inits) (m ∷ maxs) =
    semaforos_from atoi ids inits maxs >>> λ rest.
    loaded (record { id = id; init = atoi i; max = atoi m } ∷ rest)

module _ {F : Type 0} (file : ConfigFile F) where
  open file use {keys_amount, config_has_property, string_value, int_value, array_value, atoi, atof}

  unfoldable pub get_semaforos_from_config : Load (List ConfigSemaforo)
  unfolding semaforos_from
  get_semaforos_from_config =
      semaforos_from atoi (array_value sem_ids) (array_value sem_init) (array_value sem_max)

  -- `has_property`, and the `exit(-1)` of its callers.
  unfoldable pub need_property : Key → Load (Unit {0})
  need_property key = if config_has_property key then loaded tt else exits

  unfoldable pub cargar_config : Load (ConfigData F)
  unfolding get_semaforos_from_config need_property
  cargar_config =
      if ltb keys_amount min_config_key
      then exits
      else need_property listen_port >>> λ _. need_property metrics_timer >>> λ _.
          need_property max_multiprog >>> λ _. need_property sem_ids >>> λ _.
          need_property sem_init >>> λ _. need_property sem_max >>> λ _.
          get_semaforos_from_config >>> λ semaforos. need_property alpha_sjf >>> λ _.
          loaded (record {
            port = string_value listen_port;
            timer = int_value metrics_timer;
            multiprog = int_value max_multiprog;
            semaforos = semaforos;
            alpha = atof (string_value alpha_sjf);
          })

-- What available_multiprog holds behind sem_init: the places, or, where there are less than none,
-- what it held before, since sem_init then fails and its result is not looked at.
unfoldable pub free_places : ℕ → ℤ → ℕ
free_places before (pos places) = places
free_places before (negsuc n) = before

-- init_scheduler, init_semaforos and the list of init_server. `before` is the number of places that
-- the semaphore gives when no sem_init has set it, which POSIX leaves open.
unfoldable pub init_suse : {F : Type 0} → ℕ → ConfigData F → Suse F
init_suse before config = record {
  tcbs = λ p. none;
  next_tcb = 0;
  programs = λ p. none;
  clientes = [];
  semaforos = init_semaforos config.semaforos;
  new_list = [];
  blocked_list = [];
  exit_list = [];
  multiprog_degree = pos 0;
  available_multiprog = free_places before config.multiprog;
  new_counter = 0;
  state_list_mutex = false;
  ticks = 0;
  sent = [];
}

module _ {F : Type 0} where
  -- A turn of wait_for_client: `cliente` is what esperar_cliente gives, `p` the address and `id`
  -- the number of a new program.
  unfoldable pub wait_for_client : ℤ → ℕ → ℕ → M F (Unit {0})
  wait_for_client (pos zero) p id = return tt
  wait_for_client (pos (suc n)) p id = do
    there ← is_program_loaded (suc n)
    if there then return tt else create_program p id (suc n)
  wait_for_client (negsuc n) p id = return tt

-- A turn of timed_metrics behind its sleep; the report goes to the log.
unfoldable pub timed_metrics : (env : Env) → Bool → M (F env) (List (Line (F env)))
timed_metrics env true = return []
timed_metrics env false = log_metrics env none

-- What init_console does with a line.
pub data Command : Type 0 where
  clear salir other : Command

-- `starts_with line word` is strncasecmp(line, word, 5) == 0.
unfoldable pub command : (List ℕ → List ℕ → Bool) → List ℕ → Command
command starts_with line =
    if starts_with line (99 ∷ 108 ∷ 101 ∷ 97 ∷ 114 ∷ [])
    then clear
    else if starts_with line (115 ∷ 97 ∷ 108 ∷ 105 ∷ 114 ∷ [])
    then salir
    else other

-- The loop of init_console: `readline n` is the line that the n-th call gives, or NULL. The history
-- when endsuse is set; `none` where the fuel was not enough.
unfoldable pub init_console :
    (List ℕ → List ℕ → Bool)
    → (ℕ → Option (List ℕ))
    → ℕ
    → ℕ
    → List (List ℕ)
    → Option (List (List ℕ))
unfolding command
init_console starts_with readline zero n history = none
init_console starts_with readline (suc fuel) n history =
    let again = init_console starts_with readline fuel (suc n) history in
    elim (readline n) [
      | none ↦ again
      | some linea ↦
          let kept = init_console starts_with readline fuel (suc n) (history ++ linea ∷ []) in
          elim (command starts_with linea) [ clear ↦ kept | salir ↦ some history | other ↦ kept ]
    ]
