-- ===== src/Suse/Lookup.antt =====
-- find_tcb_pos, find_program_pos, is_program_loaded, get_program, get_program_id, get_semaforo.
use locomatch.Prelude.{
  ℕ, ◌+◌, Bool, true, false, ◌&&◌, List, [], ◌∷◌, Option, none, some, ◌==◌, if◌then◌else◌,
}
use locomatch.Prelude.Text.{strcmp}
use locomatch.Suse.State.{Tcb, Program, Semaforo}
use locomatch.Suse.Monad.{M, ◌>>=◌, return, crash, program_at}

-- A search through a list of pointers; `not_found` is ELEMENT_NOT_FOUND.
pub data Position : Type 0 where
  at : ℕ → Position
  not_found : Position
  dangling : Position

-- find_tcb_pos from position `i` on.
unfoldable pub tcb_pos_from : {F : Type 0} → (ℕ → Option (Tcb F)) → ℕ → List ℕ → ℕ → ℕ → Position
tcb_pos_from tcbs i [] tid socket = not_found
tcb_pos_from tcbs i (p ∷ ps) tid socket =
    let rest = tcb_pos_from tcbs (i + 1) ps tid socket in
    elim (tcbs p) [
      | none ↦ dangling
      | some tcb ↦ if tcb.tid == tid && tcb.socket == socket then at i else rest
    ]

unfoldable pub find_tcb_pos : {F : Type 0} → (ℕ → Option (Tcb F)) → List ℕ → ℕ → ℕ → Position
unfolding tcb_pos_from
find_tcb_pos tcbs list tid socket = tcb_pos_from tcbs 0 list tid socket

-- The first program on this socket: its pointer. The position that find_program_pos gives is
-- used by its callers to read that pointer only.
unfoldable pub find_program : (ℕ → Option Program) → List ℕ → ℕ → Position
find_program programs [] socket = not_found
find_program programs (p ∷ ps) socket =
    let rest = find_program programs ps socket in
    elim (programs p) [
      | none ↦ dangling
      | some program ↦ if program.socket == socket then at p else rest
    ]

-- `none` is ELEMENT_NOT_FOUND.
abbrev pub or_fault : {F : Type 0} → Position → M F (Option ℕ)
or_fault (at i) = return (some i)
or_fault not_found = return none
or_fault dangling = crash

module _ {F : Type 0} where
  -- NULL if no program is on the socket.
  unfoldable pub get_program : ℕ → M F (Option ℕ)
  get_program socket s = or_fault (find_program s.programs s.clientes socket) s

  unfoldable pub is_program_loaded : ℕ → M F Bool
  unfolding get_program
  is_program_loaded socket = do
    found ← get_program socket
    return (elim found [ none ↦ false | some p ↦ true ])

  -- The program's id; `none` is ELEMENT_NOT_FOUND.
  unfoldable pub get_program_id : ℕ → M F (Option ℕ)
  unfolding get_program
  get_program_id socket = do
    found ← get_program socket
    elim found [ none ↦ return none | some p ↦ do program ← program_at p; return (some program.id) ]

-- get_semaforo: the first semaphore with this name; `none` is NULL.
unfoldable pub get_semaforo_from : ℕ → List Semaforo → List ℕ → Option ℕ
get_semaforo_from i [] sem_name = none
get_semaforo_from i (semaforo ∷ rest) sem_name =
    let later = get_semaforo_from (i + 1) rest sem_name in
    if strcmp semaforo.id sem_name then some i else later

unfoldable pub get_semaforo : List Semaforo → List ℕ → Option ℕ
unfolding get_semaforo_from
get_semaforo semaforos sem_name = get_semaforo_from 0 semaforos sem_name
