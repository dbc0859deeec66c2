-- ===== src/Suse/Multiprog.antt =====
-- The degree of multiprogramming.
use locomatch.Prelude.{ℕ, ◌+◌, ◌≡◌, true, arith, ◌==◌}
use locomatch.Prelude.Int.{pos, pos_part, neg_part, leb_ℤ, +ℤ_parts, -ℤ_parts}
use locomatch.Suse.State.{Suse, Program}
use locomatch.Suse.Monad.{waits, wait_tcb_counter, post_tcb_counter, lock_state_list, put_program}
use locomatch.Suse.Timing.{Env, F, gettimeofday}
use locomatch.Suse.Moves.{increase_multiprog, decrease_multiprog, check_multiprog}
use locomatch.Suse.Create.{create_tcb}
use locomatch.Suse.Semaphores.{put_sem}
use locomatch.Suse.Keeps.Semaphores.{Keeps-suse_wait, Keeps-suse_signal}
use locomatch.Suse.State.{Semaforo}
use locomatch.Suse.Reach.{Turns, Turns-keeps}
use locomatch.Suse.Turns.{wait_new_counter}
use locomatch.Suse.Keeps.{Keeps, Keeps-bind, Keeps-return, Keeps-if, Keeps-program_at}
use locomatch.Suse.Keeps.Programs.{Keeps-remove_of, Keeps-add_of}
use locomatch.Suse.Keeps.Moves.{MoveRules}
use locomatch.Suse.Keeps.Requests.{RequestRules, TurnRules}

-- multiprog_degree and the value of available_multiprog add up to the maximum.
abbrev pub Conserved : {F : Type 0} → ℕ → Suse F → Type 0
Conserved limit s =
    s.available_multiprog + pos_part s.multiprog_degree ≡ limit + neg_part s.multiprog_degree

module _ {F : Type 0} (limit : ℕ) where
  abbrev C : Suse F → Type 0
  C = Conserved limit

  increase : Keeps C C increase_multiprog
  unfolding increase_multiprog
  increase = record { run = λ s h. ground (arith, +ℤ_parts s.multiprog_degree (pos 1)) }

  decrease : Keeps C C decrease_multiprog
  unfolding decrease_multiprog
  decrease = record { run = λ s h. ground (arith, -ℤ_parts s.multiprog_degree (pos 1)) }

  check : Keeps C C check_multiprog
  unfolding check_multiprog
  check = record { run = λ s h. ground arith }

  lock : Keeps C C lock_state_list
  lock = record { run = λ s h. ground arith }

  put : (p : ℕ) (g : Program) → Keeps C C (put_program p g)
  put p g = record { run = λ s h. h }

  waiting : Keeps {A = Unit {0}} C C waits
  waiting = record { run = λ s h. h }

  wait : (p : ℕ) → Keeps C C (wait_tcb_counter p)
  wait p = Keeps-bind (Keeps-program_at p) λ g. Keeps-if (g.tcb_counter == 0) _ _ waiting (put p _)

  post : (p : ℕ) → Keeps C C (post_tcb_counter p)
  post p = Keeps-bind (Keeps-program_at p) λ g. put p _

  puts : (i : ℕ) (x : Semaforo) → Keeps C C (put_sem i x)
  puts i x = record { run = λ s h. h }

  new_counter : Keeps C C wait_new_counter
  unfolding wait_new_counter
  new_counter = record { run = λ s h. ground arith }

module _ (env : Env) (limit : ℕ) where
  clock : Keeps (Conserved limit) (Conserved limit) (gettimeofday env)
  unfolding gettimeofday
  clock = record { run = λ s h. h }

  move_rules : MoveRules env (Conserved limit) (Conserved limit)
  move_rules = record {
    keeps_put_tcb = λ p t. record { run = λ s h. h };
    keeps_clock = clock;
    keeps_new_list = λ g. record { run = λ s h. h };
    keeps_blocked_list = λ g. record { run = λ s h. h };
    keeps_exit_list = λ g. record { run = λ s h. h };
    keeps_remove = Keeps-remove_of (put limit) (wait limit) (post limit);
    keeps_add = Keeps-add_of (put limit) (wait limit) (post limit);
    keeps_increase = increase limit;
    keeps_decrease = decrease limit;
    keeps_lock = lock limit;
    keeps_unlock = record { run = λ s h. h };
  }

  creating :
      (socket tid : ℕ) → Keeps (Conserved limit) (Conserved limit) (create_tcb env socket tid)
  unfolding create_tcb
  creating socket tid =
      Keeps-bind (Keeps-bind clock λ now. Keeps-return _)
        λ time. Keeps-bind (lock limit) λ _. record { run = λ s h. h }

  request_rules : RequestRules env (Conserved limit) (Conserved limit)
  request_rules = record {
    move = move_rules;
    keeps_waits = waiting limit;
    keeps_put_program = put limit;
    keeps_wait_counter = wait limit;
    keeps_post_counter = post limit;
    keeps_sent = λ m. record { run = λ s h. h };
    keeps_new_counter = new_counter limit;
    keeps_check = check limit;
    keeps_create = creating;
  }

  pub turn_rules : TurnRules env (Conserved limit) (Conserved limit)
  turn_rules = record {
    requests = request_rules;
    keeps_suse_wait = Keeps-suse_wait request_rules (puts limit);
    keeps_suse_signal = Keeps-suse_signal request_rules (puts limit);
  }

-- Through any sequence of turns of the scheduler's loops, with any programs and requests, and
-- whether a turn ends or its thread comes to wait, the degree of multiprogramming and the free
-- places add up to the maximum, and the degree stays at most the maximum, if they add up to it at
-- the start. A turn that waits is not taken up again.
pub multiprog_bounded :
    (env : Env) (limit : ℕ) {s t : Suse (F env)}
    → Turns env s t
    → Conserved limit s
    → Conserved limit t × (leb_ℤ t.multiprog_degree (pos limit) ≡ true)
multiprog_bounded env limit {s} {t} ts h =
    let kept : Conserved limit t = Turns-keeps (turn_rules env limit) ts h in (kept, ground arith)
