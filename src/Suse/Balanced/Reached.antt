-- ===== src/Suse/Balanced/Reached.antt =====
-- The semaphores stay balanced through any turns of the scheduler.
use locomatch.Prelude.{
  ℕ, zero, suc, ◌≡◌, refl, sym, Bool, true, List, [], ◌∷◌, some, arith, get_elem?, length,
  if◌then◌else◌, ◌==◌, Bool-cases, inl, inr, subst,
}
use locomatch.Prelude.Int.{pos, neg_part, leb_ℤ}
use locomatch.Suse.State.{Suse, Semaforo}
use locomatch.Suse.State.{Program}
use locomatch.Suse.Monad.{
  modify, lock_state_list, wait_multiprog, waits, wait_tcb_counter, post_tcb_counter, put_program,
}
use locomatch.Suse.Timing.{Env, F, gettimeofday, create_burst}
use locomatch.Suse.Moves.{increase_multiprog, decrease_multiprog, check_multiprog}
use locomatch.Suse.Create.{create_tcb, ConfigSemaforo, create_semaforo, init_semaforos}
use locomatch.Suse.Turns.{wait_new_counter}
use locomatch.Suse.Keeps.{Keeps, Keeps-bind, Keeps-return, Keeps-program_at, Keeps-if}
use locomatch.Suse.Keeps.Programs.{Keeps-remove_of, Keeps-add_of}
use locomatch.Suse.Keeps.Requests.{RequestRules, TurnRules}
use locomatch.Suse.Reach.{Turns, Turns-keeps}
use locomatch.Suse.Balanced.{IsBalanced, Balanced}
use locomatch.Suse.Balanced.Requests.{B, suse_signal_B, suse_wait_B}

-- Every other step leaves the semaphores alone, so it keeps whatever is said of them alone.
module _ (env : Env) (Q : List Semaforo → Type 0) where
  abbrev P : Suse (F env) → Type 0
  P s = Q s.semaforos

  step :
      (f : Suse (F env) → Suse (F env))
      → ((s : Suse (F env)) → (f s).semaforos ≡ s.semaforos)
      → Keeps P P (modify f)
  step f same = record { run = λ s h. subst Q (sym (same s)) h }

  test :
      (b : Suse (F env) → Bool) (f : Suse (F env) → Suse (F env))
      → ((s : Suse (F env)) → (f s).semaforos ≡ s.semaforos)
      → Keeps P P (λ s. if b s then waits s else modify f s)
  test b f same = record {
    run = λ s h. elim (Bool-cases (b s)) [
      | inl holds ↦ rw holds h
      | inr fails ↦ rw fails (subst Q (sym (same s)) h)
    ];
  }

  put : (p : ℕ) (g : Program) → Keeps P P (put_program p g)
  put p g = step _ λ s. refl

  waiting : Keeps {A = Unit {0}} P P waits
  waiting = record { run = λ s h. h }

  wait : (p : ℕ) → Keeps P P (wait_tcb_counter p)
  wait p = Keeps-bind (Keeps-program_at p) λ g. Keeps-if (g.tcb_counter == 0) _ _ waiting (put p _)

  post : (p : ℕ) → Keeps P P (post_tcb_counter p)
  post p = Keeps-bind (Keeps-program_at p) λ g. put p _

  clock : Keeps P P (gettimeofday env)
  unfolding gettimeofday
  clock = record { run = λ s h. h }

  lock : Keeps P P lock_state_list
  lock = test (λ s. s.state_list_mutex) _ λ s. refl

  free : Keeps P P wait_multiprog
  free = test (λ s. s.available_multiprog == 0) _ λ s. refl

  new_counter : Keeps P P wait_new_counter
  unfolding wait_new_counter
  new_counter = test (λ s. s.new_counter == 0) _ λ s. refl

  increase : Keeps P P increase_multiprog
  unfolding increase_multiprog
  increase = Keeps-bind free λ _. step _ λ s. refl

  decrease : Keeps P P decrease_multiprog
  unfolding decrease_multiprog
  decrease = step _ λ s. refl

  check : Keeps P P check_multiprog
  unfolding check_multiprog
  check = Keeps-bind free λ _. step _ λ s. refl

  creating : (socket tid : ℕ) → Keeps P P (create_tcb env socket tid)
  unfolding create_tcb create_burst
  creating socket tid =
      Keeps-bind (Keeps-bind clock λ now. Keeps-return _)
        λ time. Keeps-bind lock λ _. record { run = λ s h. h }

  semaforos_rules : RequestRules env P P
  semaforos_rules = record {
    move = record {
      keeps_put_tcb = λ p t. step _ λ s. refl;
      keeps_clock = clock;
      keeps_new_list = λ g. step _ λ s. refl;
      keeps_blocked_list = λ g. step _ λ s. refl;
      keeps_exit_list = λ g. step _ λ s. refl;
      keeps_remove = Keeps-remove_of put wait post;
      keeps_add = Keeps-add_of put wait post;
      keeps_increase = increase;
      keeps_decrease = decrease;
      keeps_lock = lock;
      keeps_unlock = step _ λ s. refl;
    };
    keeps_waits = waiting;
    keeps_put_program = put;
    keeps_wait_counter = wait;
    keeps_post_counter = post;
    keeps_sent = λ m. step _ λ s. refl;
    keeps_new_counter = new_counter;
    keeps_check = check;
    keeps_create = creating;
  }

pub balanced_rules : (env : Env) → TurnRules env B B
balanced_rules env = record {
  requests = semaforos_rules env Balanced;
  keeps_suse_wait = suse_wait_B (semaforos_rules env Balanced);
  keeps_suse_signal = suse_signal_B (semaforos_rules env Balanced);
}

-- A configured semaphore that starts between 0 and its positive maximum.
abbrev pub IsProper : ConfigSemaforo → Type 0
IsProper c =
    (leb_ℤ (pos 1) c.max ≡ true) × (leb_ℤ (pos 0) c.init ≡ true) × (leb_ℤ c.init c.max ≡ true)

abbrev pub AllProper : List ConfigSemaforo → Type 0
AllProper [] = Unit {0}
AllProper (c ∷ cs) = IsProper c × AllProper cs

pub Balanced-init_semaforos :
    (cs : List ConfigSemaforo) → AllProper cs → Balanced (init_semaforos cs)
unfolding init_semaforos create_semaforo
Balanced-init_semaforos [] h i x e = cc
Balanced-init_semaforos (c ∷ cs) h zero x e =
    let same : create_semaforo c ≡ x = cc in
    subst (λ (w : Semaforo). IsBalanced w) same
      (record { positive = h.0.0; limited = h.0.2; queued = ground (arith, h) })
Balanced-init_semaforos (c ∷ cs) h (suc i) x e = Balanced-init_semaforos cs h.1 i x e

-- Through any turns of the scheduler, of any programs and with any requests, the value of every
-- semaphore stays at most its maximum, and as many threads are blocked on it as its value is below
-- zero, none if it is not, if the semaphores are at the start as init_semaforos makes them from a
-- configuration with positive maxima and starting values between 0 and the maximum. A turn that
-- waits is not taken up again.
pub semaforos_balanced :
    (env : Env) (cs : List ConfigSemaforo) {s t : Suse (F env)}
    → AllProper cs
    → s.semaforos ≡ init_semaforos cs
    → Turns env s t
    → (i : ℕ) (x : Semaforo) → get_elem? t.semaforos i ≡ some x
    → (leb_ℤ x.valor x.max_value ≡ true) × (length x.blocked ≡ neg_part x.valor)
semaforos_balanced env cs {s} {t} proper start ts i x e =
    let good =
      Turns-keeps (balanced_rules env) ts
        (subst Balanced (sym start) (Balanced-init_semaforos cs proper)) i x e in
    (good.limited, good.queued)
