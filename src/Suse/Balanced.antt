-- ===== src/Suse/Balanced.antt =====
-- The semaphores of the programs: their values, and the threads that are blocked on them.
pub mod Requests
pub mod Reached
use locomatch.Prelude.{
  ℕ, zero, suc, ◌+◌, ◌≤◌, ◌<◌, ◌≡◌, ◌≢◌, refl, sym, Bool, true, false, List, [], ◌∷◌, ◌++◌, Option,
  none, some, arith, get_elem?, set, length, length-append, get_elem?-set_there, set-set,
  if◌then◌else◌, ◌==◌, Bool-cases, Option-cases, inl, inr, eqb→eq, eqb→ne, subst,
}
use locomatch.Prelude.Int.{ℤ, pos, pos_part, neg_part, ◌+ℤ◌, ◌-ℤ◌, ltb_ℤ, leb_ℤ, +ℤ_parts, -ℤ_parts}
use locomatch.Suse.State.{blocked, Suse, Semaforo}
use locomatch.Suse.Monad.{
  M, Out, done, waits, ◌>>=◌, ◌>>◌, need, wait_tcb_counter, post_tcb_counter, return, put_program,
}
use locomatch.Suse.Timing.{Env, F, gettimeofday, create_burst}
use locomatch.Suse.Moves.{
  list_remove, move_tcb_to, increase_multiprog, decrease_multiprog, check_multiprog,
}
use locomatch.Suse.Create.{create_tcb, ConfigSemaforo, create_semaforo, init_semaforos}
use locomatch.Suse.Wakeup.{notify_wakeup}
use locomatch.Suse.Semaphores.{
  sem_at, put_sem, lock_sem, unlock_sem, wakeup, raise, suse_signal, block, suse_wait, exec_of,
}
use locomatch.Suse.Turns.{wait_new_counter}
use locomatch.Suse.Keeps.{
  Keeps, Ensures, Keeps-bind, Keeps-need, Keeps-return, Keeps-get, Keeps-tcb_at, Keeps-program_at,
  Keeps-if,
}
use locomatch.Suse.Keeps.Programs.{Keeps-remove_of, Keeps-add_of}
use locomatch.Suse.Keeps.Moves.{MoveRules, Keeps-move}
use locomatch.Suse.Keeps.Requests.{RequestRules, TurnRules, Keeps-notify_wakeup, Keeps-exec_of}
use locomatch.Suse.Reach.{Turns, Turns-keeps}

-- The value stays below a positive maximum, and a negative value counts the blocked threads.
pub record IsBalanced (x : Semaforo) : Type 0 where
  pub positive : leb_ℤ (pos 1) x.max_value ≡ true
  pub limited : leb_ℤ x.valor x.max_value ≡ true
  pub queued : length x.blocked ≡ neg_part x.valor

abbrev pub Balanced : List Semaforo → Type 0
Balanced xs = (i : ℕ) (x : Semaforo) → get_elem? xs i ≡ some x → IsBalanced x

Balanced-set :
    (xs : List Semaforo) (i : ℕ) (y : Semaforo) → IsBalanced y → Balanced xs → Balanced (set xs i y)
Balanced-set [] i y good h j z e = h j z e
Balanced-set (x ∷ xs) zero y good h zero z e =
    let same : y ≡ z = cc in subst (λ (w : Semaforo). IsBalanced w) same good
Balanced-set (x ∷ xs) zero y good h (suc j) z e = h (suc j) z e
Balanced-set (x ∷ xs) (suc i) y good h zero z e = h zero z e
Balanced-set (x ∷ xs) (suc i) y good h (suc j) z e = Balanced-set xs i y good (λ k. h (suc k)) j z e

-- A semaphore may be out of balance between two writes.
Balanced-set_again :
    (xs : List Semaforo) (i : ℕ) (x y : Semaforo)
    → IsBalanced y
    → Balanced xs
    → Balanced (set (set xs i x) i y)
Balanced-set_again xs i x y good h = rw (set-set xs i x y) (Balanced-set xs i y good h)

raise_limited : (x : Semaforo) → IsBalanced x → leb_ℤ (raise x).valor (raise x).max_value ≡ true
raise_limited x g = ground (arith, g.limited, +ℤ_parts x.valor (pos 1))

raise_positive : (x : Semaforo) → IsBalanced x → leb_ℤ (pos 1) (raise x).max_value ≡ true
raise_positive x g = ground (arith, g.positive)

-- Where the value is still not positive, it was negative.
raise_queued :
    (x : Semaforo)
    → IsBalanced x
    → leb_ℤ (raise x).valor (pos 0) ≡ true
    → length (raise x).blocked ≡ suc (neg_part (raise x).valor)
raise_queued x g h = ground (arith, g.positive, g.limited, g.queued, +ℤ_parts x.valor (pos 1))

raise_free :
    (x : Semaforo)
    → IsBalanced x
    → leb_ℤ (raise x).valor (pos 0) ≡ false
    → length (raise x).blocked ≡ neg_part (raise x).valor
raise_free x g h = ground (arith, g.positive, g.limited, g.queued, +ℤ_parts x.valor (pos 1))

lower_limited : (x : Semaforo) → IsBalanced x → leb_ℤ (x.valor -ℤ pos 1) x.max_value ≡ true
lower_limited x g = ground (arith, g.limited, -ℤ_parts x.valor (pos 1))

lower_queued :
    (x : Semaforo)
    → IsBalanced x
    → ltb_ℤ (x.valor -ℤ pos 1) (pos 0) ≡ true
    → suc (length x.blocked) ≡ neg_part (x.valor -ℤ pos 1)
lower_queued x g h = ground (arith, g.queued, -ℤ_parts x.valor (pos 1))

lower_free :
    (x : Semaforo)
    → IsBalanced x
    → ltb_ℤ (x.valor -ℤ pos 1) (pos 0) ≡ false
    → length x.blocked ≡ neg_part (x.valor -ℤ pos 1)
lower_free x g h = ground (arith, g.queued, -ℤ_parts x.valor (pos 1))
