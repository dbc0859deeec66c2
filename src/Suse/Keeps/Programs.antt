-- ===== src/Suse/Keeps/Programs.antt =====
-- Adding a thread to a program's states, and removing it, keep what writes to the program keep.
use locomatch.Prelude.{ℕ}
use locomatch.Suse.State.{ThreadState, ready, exec, Program, Suse}
use locomatch.Suse.Monad.{crash, put_program, wait_tcb_counter, post_tcb_counter}
use locomatch.Suse.Lookup.{Position, at, not_found, dangling, or_fault, find_program, get_program}
use locomatch.Suse.Moves.{own_program, program_remove_tcb_from_state, program_add_tcb_to_state}
use locomatch.Suse.Keeps.{Keeps, Keeps-bind, Keeps-need, Keeps-return, Keeps-get, Keeps-program_at}

module _ {F : Type 0} {P W : Suse F → Type 0} where
  pub Keeps-crash : {A : Type 0} → Keeps {A = A} P W crash
  Keeps-crash = record { run = λ s h. tt }

  Keeps-or_fault : (found : Position) → Keeps P W (or_fault found)
  Keeps-or_fault (at i) = Keeps-return _
  Keeps-or_fault not_found = Keeps-return _
  Keeps-or_fault dangling = Keeps-crash

  pub Keeps-get_program : (socket : ℕ) → Keeps P W (get_program socket)
  unfolding get_program
  Keeps-get_program socket = record {
    run = λ s h. (Keeps-or_fault (find_program s.programs s.clientes socket)).run s h;
  }

  pub Keeps-own_program : (socket : ℕ) → Keeps P W (own_program socket)
  unfolding own_program
  Keeps-own_program socket = Keeps-bind (Keeps-get_program socket) Keeps-need

module _ {F : Type 0} {P W : Suse F → Type 0}
    (put : (p : ℕ) (g : Program) → Keeps P W (put_program p g))
    (wait : (p : ℕ) → Keeps P W (wait_tcb_counter p))
    (post : (p : ℕ) → Keeps P W (post_tcb_counter p)) where
  pub Keeps-remove_of :
      (socket tid : ℕ) (state : ThreadState)
      → Keeps P W (program_remove_tcb_from_state socket tid state)
  unfolding program_remove_tcb_from_state
  Keeps-remove_of socket tid ready = Keeps-bind (Keeps-own_program socket) λ p.
      Keeps-bind (Keeps-program_at p) λ g.
        Keeps-bind Keeps-get λ s. Keeps-bind (Keeps-need _) λ left. Keeps-bind (put p _) λ _. wait p
  Keeps-remove_of socket tid exec =
      Keeps-bind (Keeps-own_program socket) λ p. Keeps-bind (Keeps-program_at p) λ g. put p _
  Keeps-remove_of socket tid _ = Keeps-bind (Keeps-get_program socket) λ p. Keeps-return tt

  pub Keeps-add_of :
      (tcb socket : ℕ) (state : ThreadState) → Keeps P W (program_add_tcb_to_state tcb socket state)
  unfolding program_add_tcb_to_state
  Keeps-add_of tcb socket ready =
      Keeps-bind (Keeps-own_program socket)
        λ p. Keeps-bind (Keeps-program_at p) λ g. Keeps-bind (put p _) λ _. post p
  Keeps-add_of tcb socket exec =
      Keeps-bind (Keeps-own_program socket) λ p. Keeps-bind (Keeps-program_at p) λ g. put p _
  Keeps-add_of tcb socket _ = Keeps-bind (Keeps-get_program socket) λ p. Keeps-return tt
