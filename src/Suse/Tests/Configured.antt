-- ===== src/Suse/Tests/Configured.antt =====
-- SUSE from a configuration file with two semaphores, and its console.
use locomatch.Prelude.{
  ℕ, zero, suc, ◌+◌, ◌≡◌, refl, Bool, true, false, List, [], ◌∷◌, Option, none, some, arith, ◌==◌,
  get_elem?, ◌*◌, ◌-◌, ◌<◌, ◌≤◌, ◌≢◌, subst,
}
use locomatch.Prelude.Int.{pos}
use locomatch.Suse.State.{Suse}
use locomatch.Suse.Create.{init_semaforos, create_program}
use locomatch.Suse.Lookup.{get_program, find_program, is_program_loaded}
use locomatch.Suse.Config.{
  Key, sem_ids, sem_init, sem_max, ConfigFile, ConfigData, loaded, cargar_config,
  get_semaforos_from_config, semaforos_from, need_property, free_places, init_suse, wait_for_client,
  init_console, command, salir,
}
use locomatch.Suse.Config.Loaded.{Outcome, cargar_config-Outcome}
use locomatch.Suse.Config.Names.{IsFound, get_semaforo-IsFound}
use locomatch.Suse.Config.System.{SystemTurns, here, next, accepted, IsBounded, system-IsBounded}
use locomatch.Suse.Config.Console.{init_console_ends, StaysOpen, lines_from}
use locomatch.Suse.Tests.{entorno}

-- The names are "a" and "b", from 0 and 1 up to 10.
abbrev textos : Key → List (List ℕ)
textos sem_ids = (97 ∷ []) ∷ (98 ∷ []) ∷ []
textos sem_init = (48 ∷ []) ∷ (49 ∷ []) ∷ []
textos sem_max = (49 ∷ 48 ∷ []) ∷ (49 ∷ 48 ∷ []) ∷ []
textos _ = []

abbrev numero_desde : ℕ → List ℕ → ℕ
numero_desde n [] = n
numero_desde n (c ∷ cs) = numero_desde (n * 10 + (c - 48)) cs

abbrev archivo : ConfigFile ℕ
archivo = record {
  keys_amount = 7;
  config_has_property = λ key. true;
  string_value = λ key. 49 ∷ [];
  int_value = λ key. pos 15;
  array_value = textos;
  atoi = λ cs. pos (numero_desde 0 cs);
  atof = numero_desde 0;
}

abbrev cargada : ConfigData ℕ
cargada = record {
  port = 49 ∷ [];
  timer = pos 15;
  multiprog = pos 15;
  semaforos =
      record { id = 97 ∷ []; init = pos 0; max = pos 10 }
      ∷ record { id = 98 ∷ []; init = pos 1; max = pos 10 }
      ∷ [];
  alpha = 1;
}

carga : cargar_config archivo ≡ loaded cargada
unfolding cargar_config get_semaforos_from_config semaforos_from need_property
carga = refl

cargar_config-Outcome_example : Outcome archivo (cargar_config archivo)
cargar_config-Outcome_example = cargar_config-Outcome archivo

get_semaforo_example : IsFound archivo (init_semaforos cargada.semaforos) 1 (98 ∷ [])
get_semaforo_example = get_semaforo-IsFound archivo cargada 1 (98 ∷ []) carga refl first
  where
    first : (j : ℕ) → j < 1 → get_elem? (textos sem_ids) j ≢ some (98 ∷ [])
    first zero low e = let same : ◌≡◌ {A = ℕ} 97 98 = cc in absurd (omega (arith, same))
    first (suc j) low e = absurd (omega (arith, low))

-- A client is accepted on socket 5.
conectado : (t : Suse ℕ) × SystemTurns entorno (init_suse 0 cargada) t
unfolding init_suse free_places wait_for_client is_program_loaded get_program find_program
    create_program
conectado = (_, next here (accepted (pos 5) 0 1 refl))

system-IsBounded_example : IsBounded 15 conectado.0
unfolding free_places
system-IsBounded_example =
    system-IsBounded entorno 0 archivo cargada carga ((refl, refl, refl), ((refl, refl, refl), tt))
      conectado.1

-- The second line is "salir".
abbrev entrada : ℕ → Option (List ℕ)
entrada zero = some (97 ∷ [])
entrada (suc zero) = some (115 ∷ 97 ∷ 108 ∷ 105 ∷ 114 ∷ [])
entrada (suc (suc n)) = none

-- Enough to tell the words apart.
abbrev empieza : List ℕ → List ℕ → Bool
empieza (c ∷ cs) (d ∷ ds) = c == d
empieza _ _ = false

segunda : command empieza (115 ∷ 97 ∷ 108 ∷ 105 ∷ 114 ∷ []) ≡ salir
unfolding command
segunda = refl

primera : (j : ℕ) → j < 1 → StaysOpen empieza entrada j
unfolding command
primera zero low linea e =
    let same : 97 ∷ [] ≡ linea = cc in
    subst (λ (l : List ℕ). command empieza l ≢ salir) same (λ c. cc)
primera (suc j) low linea e = absurd (omega (arith, low))

init_console_ends_example :
    (1 < 2 → init_console empieza entrada 2 0 [] ≡ some (lines_from empieza entrada 0 1))
    × (2 ≤ 1 → init_console empieza entrada 2 0 [] ≡ none)
init_console_ends_example = init_console_ends empieza entrada 1 (_, refl, segunda) primera 2
