-- ===== src/Suse/Monad.antt =====
-- A function of the scheduler runs to its end, waits, faults or spins.
use locomatch.Prelude.{ℕ, ◌+◌, ◌-◌, true, false, Option, none, some, ◌==◌, if◌then◌else◌}
use locomatch.Suse.State.{Tcb, Program, Suse, update}

-- `waits s`: the thread stands in sem_wait or pthread_mutex_lock, with the state `s` around it.
-- `fault`: NULL or a dangling pointer was read, or list_remove was given a position outside the
-- list. `spins`: no fuel is left for another turn of a loop.
pub data Out (F : Type 0) (A : Type 0) : Type 0 where
  done : A → Suse F → Out F A
  waits : Suse F → Out F A
  fault : Out F A
  spins : Out F A

abbrev pub M : Type 0 → Type 0 → Type 0
M F A = Suse F → Out F A

abbrev pub bind : {F A B : Type 0} → Out F A → (A → M F B) → Out F B
bind (done a s) f = f a s
bind (waits s) f = waits s
bind fault f = fault
bind spins f = spins

infixl 5 ◌>>=◌ ◌>>◌
abbrev pub ◌>>=◌ : {F A B : Type 0} → M F A → (A → M F B) → M F B
◌>>=◌ m f s = bind (m s) f

abbrev pub ◌>>◌ : {F B : Type 0} → M F (Unit {0}) → M F B → M F B
m >> k = m >>= λ _. k

module _ {F : Type 0} where
  abbrev pub return : {A : Type 0} → A → M F A
  return a s = done a s

  abbrev pub crash : {A : Type 0} → M F A
  crash s = fault

  abbrev pub get : M F (Suse F)
  get s = done s s

  abbrev pub modify : (Suse F → Suse F) → M F (Unit {0})
  modify f s = done tt (f s)

  -- A pointer, or a lookup, that must not be NULL.
  abbrev pub need : {A : Type 0} → Option A → M F A
  need none s = fault
  need (some a) s = done a s

  abbrev pub tcb_at : ℕ → M F (Tcb F)
  tcb_at p s = need (s.tcbs p) s

  abbrev pub put_tcb : ℕ → Tcb F → M F (Unit {0})
  put_tcb p t s = done tt (record s { tcbs = update s.tcbs p t })

  abbrev pub program_at : ℕ → M F Program
  program_at p s = need (s.programs p) s

  abbrev pub put_program : ℕ → Program → M F (Unit {0})
  put_program p g s = done tt (record s { programs = update s.programs p g })

  -- pthread_mutex_lock and unlock of state_list_mutex.
  abbrev pub lock_state_list : M F (Unit {0})
  lock_state_list s =
      if s.state_list_mutex then waits s else done tt (record s { state_list_mutex = true })

  abbrev pub unlock_state_list : M F (Unit {0})
  unlock_state_list s = done tt (record s { state_list_mutex = false })

  -- sem_wait and sem_post of available_multiprog.
  abbrev pub wait_multiprog : M F (Unit {0})
  wait_multiprog s =
      if s.available_multiprog == 0
      then waits s
      else done tt (record s { available_multiprog = s.available_multiprog - 1 })

  abbrev pub post_multiprog : M F (Unit {0})
  post_multiprog s = done tt (record s { available_multiprog = s.available_multiprog + 1 })

  -- sem_wait and sem_post of a program's tcb_counter.
  abbrev pub wait_tcb_counter : ℕ → M F (Unit {0})
  wait_tcb_counter p = do
    g ← program_at p
    if g.tcb_counter == 0
        then waits
        else put_program p (record g { tcb_counter = g.tcb_counter - 1 })

  abbrev pub post_tcb_counter : ℕ → M F (Unit {0})
  post_tcb_counter p = do
    g ← program_at p
    put_program p (record g { tcb_counter = g.tcb_counter + 1 })
