-- ===== src/Suse/Config/System.antt =====
-- The scheduler from its configuration file on: clients are accepted, and the loops turn.
use locomatch.Prelude.{ℕ, zero, suc, ◌≡◌, subst, true, some, arith, length, get_elem?}
use locomatch.Prelude.Int.{ℤ, pos, negsuc, neg_part, leb_ℤ}
use locomatch.Suse.State.{Suse, Semaforo}
use locomatch.Suse.Monad.{done}
use locomatch.Suse.Timing.{Env, F}
use locomatch.Suse.Lookup.{is_program_loaded}
use locomatch.Suse.Create.{create_program}
use locomatch.Suse.Keeps.{Keeps, Ensures, Keeps-bind, Keeps-return, Keeps-if}
use locomatch.Suse.Keeps.Programs.{Keeps-get_program}
use locomatch.Suse.Reach.{Turn, Turn-keeps}
use locomatch.Suse.Multiprog.{Conserved, turn_rules}
use locomatch.Suse.Balanced.{Balanced}
use locomatch.Suse.Balanced.Reached.{AllProper, balanced_rules, Balanced-init_semaforos}
use locomatch.Suse.Config.{
  max_multiprog, ConfigFile, ConfigData, loaded, cargar_config, free_places, init_suse,
  wait_for_client,
}
use locomatch.Suse.Config.Loaded.{loaded-IsFrom}

-- A turn of one of the scheduler's loops, or of the one that accepts clients, in which the program
-- gets any address and number.
pub data SystemTurn (env : Env) : Suse (F env) → Suse (F env) → Type 0 where
  turn : {s t : Suse (F env)} → Turn env s t → SystemTurn env s t
  accepted :
      (cliente : ℤ) (p id : ℕ) {s t : Suse (F env)}
      → wait_for_client cliente p id s ≡ done tt t
      → SystemTurn env s t

pub data SystemTurns (env : Env) (s : Suse (F env)) : Suse (F env) → Type 0 where
  here : SystemTurns env s s
  next : {t u : Suse (F env)} → SystemTurns env s t → SystemTurn env t u → SystemTurns env s u

-- What a new program leaves alone.
module _ {F : Type 0} {P : Suse F → Type 0}
    (creates : (p id socket : ℕ) → Keeps P P (create_program p id socket)) where
  Keeps-wait_for_client : (cliente : ℤ) (p id : ℕ) → Keeps P P (wait_for_client cliente p id)
  unfolding wait_for_client is_program_loaded
  Keeps-wait_for_client (pos zero) p id = Keeps-return tt
  Keeps-wait_for_client (pos (suc n)) p id =
      Keeps-bind (Keeps-bind (Keeps-get_program (suc n)) λ found. Keeps-return _)
        λ there. Keeps-if there _ _ (Keeps-return tt) (creates p id (suc n))
  Keeps-wait_for_client (negsuc n) p id = Keeps-return tt

module _ {env : Env} {P : Suse (F env) → Type 0}
    (creates : (p id socket : ℕ) → Keeps P P (create_program p id socket))
    (turns : (s t : Suse (F env)) → Turn env s t → P s → P t) where
  SystemTurns-keep : {s t : Suse (F env)} → SystemTurns env s t → P s → P t
  SystemTurns-keep here h = h
  SystemTurns-keep (next ts (turn x)) h = turns _ _ x (SystemTurns-keep ts h)
  SystemTurns-keep (next {t} {u} ts (accepted cliente p id e)) h =
      subst (Ensures P P) e
        ((Keeps-wait_for_client creates cliente p id).run t (SystemTurns-keep ts h))

-- What holds of the scheduler at any time.
pub record IsBounded {F : Type 0} (limit : ℕ) (t : Suse F) : Type 0 where
  pub degree : leb_ℤ t.multiprog_degree (pos limit) ≡ true
  pub semaforos :
      (i : ℕ) (x : Semaforo)
      → get_elem? t.semaforos i ≡ some x
      → (leb_ℤ x.valor x.max_value ≡ true) × (length x.blocked ≡ neg_part x.valor)

-- The scheduler starts with no program in, and with every semaphore as configured.
init_suse-Conserved :
    {F : Type 0} (before : ℕ) (config : ConfigData F)
    → Conserved (free_places before config.multiprog) (init_suse before config)
unfolding init_suse
init_suse-Conserved before config = omega arith

init_suse-Balanced :
    {F : Type 0} (before : ℕ) (config : ConfigData F)
    → AllProper config.semaforos
    → Balanced (init_suse before config).semaforos
unfolding init_suse
init_suse-Balanced before config proper = Balanced-init_semaforos config.semaforos proper

Conserved-degree :
    {F : Type 0} (limit : ℕ) (t : Suse F)
    → Conserved limit t
    → leb_ℤ t.multiprog_degree (pos limit) ≡ true
Conserved-degree limit t h = ground arith

creates-Conserved :
    {F : Type 0} (limit p id socket : ℕ)
    → Keeps {F = F} (Conserved limit) (Conserved limit) (create_program p id socket)
unfolding create_program
creates-Conserved limit p id socket = record { run = λ s h. h }

creates-Balanced :
    {F : Type 0} (p id socket : ℕ)
    → Keeps {F = F}
        (λ s. Balanced s.semaforos)
        (λ s. Balanced s.semaforos)
        (create_program p id socket)
unfolding create_program
creates-Balanced p id socket = record { run = λ s h. h }

-- At any time after SUSE has started from a configuration file, whatever clients are accepted and
-- whatever turns the loops of the scheduler make, the degree of multiprogramming is at most the
-- file's MAX_MULTIPROG, or, where that is negative and SUSE starts all the same, at most what the
-- semaphore of the free places gave before sem_init refused to set it; no semaphore is above its
-- maximum, and as many threads are blocked on each as its value is below zero. The configured
-- semaphores start between 0 and a positive maximum. A turn that waits is not taken up again.
pub system-IsBounded :
    (env : Env) (before : ℕ) (file : ConfigFile (F env)) (config : ConfigData (F env))
    {t : Suse (F env)}
    → cargar_config file ≡ loaded config
    → AllProper config.semaforos
    → SystemTurns env (init_suse before config) t
    → IsBounded (free_places before (file.int_value max_multiprog)) t
system-IsBounded env before file config {t} loads proper ts =
    let from = loaded-IsFrom file config loads in
    let limit = free_places before config.multiprog in
    let good : Balanced t.semaforos =
      SystemTurns-keep creates-Balanced (λ _ _. Turn-keeps (balanced_rules env)) ts
        (init_suse-Balanced before config proper) in
    subst (λ (places : ℤ). IsBounded (free_places before places) t) from.multiprog
      (record {
        degree = Conserved-degree limit t (
            SystemTurns-keep (creates-Conserved limit) (λ _ _. Turn-keeps (turn_rules env limit)) ts
              (init_suse-Conserved before config));
        semaforos = λ i x e. ((good i x e).limited, (good i x e).queued);
      })
