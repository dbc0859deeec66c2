-- ===== src/Suse/Waking/Moved.antt =====
-- move_tcb_to from BLOCKED to READY, where nothing stands in its way.
use locomatch.Prelude.{
  ℕ, suc, ◌+◌, ◌-◌, ◌≡◌, ◌≢◌, refl, false, List, [], ◌∷◌, ◌++◌, some, arith, ◌==◌, eqb_refl, ne→eqb,
}
use locomatch.Prelude.Int.{pos, ◌+ℤ◌, ◌-ℤ◌}
use locomatch.Suse.State.{ready, blocked, Tcb, Program, Suse, update}
use locomatch.Suse.Monad.{done}
use locomatch.Suse.Timing.{Env, F, gettimeofday, set_state_start_timing}
use locomatch.Suse.Lookup.{at, find_program, get_program}
use locomatch.Suse.Moves.{
  remove_tcb, decrease_multiprog, increase_multiprog, own_program, program_add_tcb_to_state,
  start_timing, leave_state, enter_state, set_state, move_tcb_to,
}

module _ (env : Env) where
  -- What move_tcb_to changes for the thread `a` of the program `p`.
  pub record IsMoved (a p : ℕ) (g : Program) (left : List ℕ) (t : Tcb (F env)) (s s' : Suse (F env))
      : Type 0 where
    pub free : s'.state_list_mutex ≡ false
    pub moved : Tcb (F env)
    pub here : s'.tcbs a ≡ some moved
    pub state : moved.state ≡ ready
    pub tid : moved.tid ≡ t.tid
    pub socket : moved.socket ≡ t.socket
    pub others : (r : ℕ) → a ≢ r → s'.tcbs r ≡ s.tcbs r
    pub blocked_list : s'.blocked_list ≡ left
    pub program :
        s'.programs p
        ≡ some (record g { ready = g.ready ++ a ∷ []; tcb_counter = g.tcb_counter + 1 })
    pub programs : (q : ℕ) → p ≢ q → s'.programs q ≡ s.programs q
    pub clientes : s'.clientes ≡ s.clientes

  module _ (a p : ℕ) (g : Program) (left : List ℕ) (t : Tcb (F env)) (s : Suse (F env))
      (free : s.state_list_mutex ≡ false) (here : s.tcbs a ≡ some t) (state : t.state ≡ blocked)
      (listed : remove_tcb s.tcbs s.blocked_list t.tid t.socket ≡ some left)
      (found : find_program s.programs s.clientes t.socket ≡ at p)
      (program : s.programs p ≡ some g) where
    abbrev timed : Tcb (F env)
    timed = record t { time = record (t.time) { ready_start = env.time_at s.ticks } }

    abbrev queued : Program
    queued = record g { ready = g.ready ++ a ∷ [] }

    abbrev after : Suse (F env)
    after = record s {
      tcbs = update (update s.tcbs a timed) a (record timed { state = ready });
      programs =
          update (update s.programs p queued) p (record queued { tcb_counter = g.tcb_counter + 1 });
      blocked_list = left;
      multiprog_degree = s.multiprog_degree -ℤ pos 1 +ℤ pos 1;
      available_multiprog = s.available_multiprog + 1 - 1;
      ticks = suc s.ticks;
      state_list_mutex = false;
    }

    some_place : (s.available_multiprog + 1 == 0) ≡ false
    some_place = ne→eqb (s.available_multiprog + 1) 0 (λ e. omega (arith, e))

    runs : move_tcb_to env a ready s ≡ done tt after
    unfolding move_tcb_to leave_state decrease_multiprog increase_multiprog enter_state start_timing
        set_state_start_timing gettimeofday program_add_tcb_to_state own_program get_program
        set_state
    runs =
        rw
          (
            free,
            here,
            state,
            listed,
            here,
            found,
            program,
            eqb_refl p,
            some_place,
            eqb_refl a,
            state,
          )
          refl

    pub move_tcb_to-IsMoved :
        (s' : Suse (F env)) × (move_tcb_to env a ready s ≡ done tt s') × IsMoved a p g left t s s'
    move_tcb_to-IsMoved = (
      after,
      runs,
      record {
        free = refl;
        moved = record timed { state = ready };
        here = rw (eqb_refl a) refl;
        state = refl;
        tid = refl;
        socket = refl;
        others = λ r differ. rw (ne→eqb a r differ) refl;
        blocked_list = refl;
        program = rw (eqb_refl p) refl;
        programs = λ q differ. rw (ne→eqb p q differ) refl;
        clientes = refl;
      },
    )
