-- ===== src/Suse/Keeps.antt =====
-- What a function of the scheduler keeps, by the rules of its steps.
pub mod Programs
pub mod Moves
pub mod Requests
pub mod Semaphores
pub mod Join
pub mod Schedule
pub mod Turns
pub mod Metrics
use locomatch.Prelude.{ℕ, Bool, true, false, Option, none, some, if◌then◌else◌, ◌≡◌, refl}
use locomatch.Suse.State.{Tcb, Program, Suse}
use locomatch.Suse.Monad
use locomatch.Suse.Monad.{
  M, Out, done, waits, fault, spins, ◌>>=◌, ◌>>◌, need, return, get, tcb_at, program_at,
}

-- `P` holds where the function ends, and `W` where it waits.
abbrev pub Ensures : {F A : Type 0} → (Suse F → Type 0) → (Suse F → Type 0) → Out F A → Type 0
Ensures P W (done a s) = P s
Ensures P W (waits s) = W s
Ensures P W fault = Unit {0}
Ensures P W spins = Unit {0}

-- From `P` to `P`.
pub record Keeps {F A : Type 0} (P W : Suse F → Type 0) (m : M F A) : Type 0 where
  pub run : (s : Suse F) → P s → Ensures P W (m s)

module _ {F : Type 0} {P W : Suse F → Type 0} where
  Ensures-bind :
      {A B : Type 0} (o : Out F A) (f : A → M F B)
      → Ensures P W o
      → ((a : A) → Keeps P W (f a))
      → Ensures P W (Monad.bind o f)
  Ensures-bind (done a s) f h k = (k a).run s h
  Ensures-bind (waits s) f h k = h
  Ensures-bind fault f h k = tt
  Ensures-bind spins f h k = tt

  pub Keeps-bind :
      {A B : Type 0} {m : M F A} {f : A → M F B}
      → Keeps P W m
      → ((a : A) → Keeps P W (f a))
      → Keeps P W (m >>= f)
  Keeps-bind {m = m} {f} h k = record { run = λ s p. Ensures-bind (m s) f (h.run s p) k }

  pub Keeps-need : {A : Type 0} (o : Option A) → Keeps P W (need o)
  Keeps-need none = record { run = λ s p. tt }
  Keeps-need (some a) = record { run = λ s p. p }

  pub Keeps-return : {A : Type 0} (a : A) → Keeps P W (return a)
  Keeps-return a = record { run = λ s p. p }

  pub Keeps-get : Keeps P W get
  Keeps-get = record { run = λ s p. p }

  pub Keeps-tcb_at : (p : ℕ) → Keeps P W (tcb_at p)
  Keeps-tcb_at p = record { run = λ s h. (Keeps-need (s.tcbs p)).run s h }

  pub Keeps-program_at : (p : ℕ) → Keeps P W (program_at p)
  Keeps-program_at p = record { run = λ s h. (Keeps-need (s.programs p)).run s h }

  pub Keeps-if :
      {A : Type 0} (b : Bool) (m n : M F A)
      → Keeps P W m
      → Keeps P W n
      → Keeps P W (if b then m else n)
  Keeps-if true m n h k = h
  Keeps-if false m n h k = k
