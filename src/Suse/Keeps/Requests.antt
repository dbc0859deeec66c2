-- ===== src/Suse/Keeps/Requests.antt =====
-- The rules for the steps of the requests, and what notify_wakeup and wakeup_threads keep.
use locomatch.Prelude.{
  ℕ, zero, suc, ◌+◌, true, false, List, [], ◌∷◌, ◌++◌, Option, none, some, get_elem?, length,
}
use locomatch.Suse.State.{ready, Program, Suse}
use locomatch.Suse.Monad.{
  waits, spins, ◌>>◌, return, crash, modify, put_program, wait_tcb_counter, post_tcb_counter,
}
use locomatch.Suse.Timing.{Env, F}
use locomatch.Suse.Moves.{check_multiprog, list_remove, move_tcb_to}
use locomatch.Suse.Create.{create_tcb}
use locomatch.Suse.Wakeup.{
  lock_wakeup, unlock_wakeup, notify_wakeup, wakeup_from, wakeup_threads, wait_for_threads,
}
use locomatch.Suse.Semaphores.{exec_of, suse_signal, suse_wait}
use locomatch.Suse.Turns.{wait_new_counter}
use locomatch.Suse.Keeps.{
  Keeps, Keeps-bind, Keeps-need, Keeps-return, Keeps-tcb_at, Keeps-program_at, Keeps-if,
}
use locomatch.Suse.Keeps.Moves.{MoveRules, Keeps-move}
use locomatch.Suse.Keeps.Programs.{Keeps-own_program}

-- The steps of the requests: those of move_tcb_to, and writes to what they do not touch.
pub record RequestRules (env : Env) (P W : Suse (F env) → Type 0) : Type 0 where
  pub move : MoveRules env P W
  pub open move use *
  pub keeps_waits : Keeps {A = Unit {0}} P W waits
  pub keeps_put_program : (p : ℕ) (g : Program) → Keeps P W (put_program p g)
  pub keeps_wait_counter : (p : ℕ) → Keeps P W (wait_tcb_counter p)
  pub keeps_post_counter : (p : ℕ) → Keeps P W (post_tcb_counter p)
  pub keeps_sent : (m : ℕ × ℕ) → Keeps P W (modify λ s. record s { sent = s.sent ++ m ∷ [] })
  pub keeps_new_counter : Keeps P W wait_new_counter
  pub keeps_check : Keeps P W check_multiprog
  pub keeps_create : (socket tid : ℕ) → Keeps P W (create_tcb env socket tid)

-- The rules for a turn: suse_wait and suse_signal, which write to semaphores, come apart.
pub record TurnRules (env : Env) (P W : Suse (F env) → Type 0) : Type 0 where
  pub requests : RequestRules env P W
  pub keeps_suse_wait : (tid : ℕ) (name : List ℕ) (p : ℕ) → Keeps P W (suse_wait env tid name p)
  pub keeps_suse_signal : (tid : ℕ) (name : List ℕ) (p : ℕ) → Keeps P W (suse_signal tid name p)

module _ {env : Env} {P W : Suse (F env) → Type 0} (r : RequestRules env P W) where
  open r use {
    keeps_lock, keeps_unlock, keeps_put_tcb, keeps_clock, keeps_waits, keeps_put_program,
    keeps_wait_counter, keeps_post_counter, keeps_sent, keeps_new_counter, keeps_check,
    keeps_create,
  }

  pub Keeps-crash : {A : Type 0} → Keeps {A = A} P W crash
  Keeps-crash = record { run = λ s h. tt }

  pub Keeps-spins : {A : Type 0} → Keeps {A = A} P W (λ s. spins)
  Keeps-spins = record { run = λ s h. tt }

  pub Keeps-lock_wakeup : (p : ℕ) → Keeps P W (lock_wakeup p)
  unfolding lock_wakeup
  Keeps-lock_wakeup p =
      Keeps-bind (Keeps-program_at p)
        λ g. Keeps-if g.wakeup_mutex _ _ keeps_waits (keeps_put_program p _)

  pub Keeps-unlock_wakeup : (p : ℕ) → Keeps P W (unlock_wakeup p)
  unfolding unlock_wakeup
  Keeps-unlock_wakeup p = Keeps-bind (Keeps-program_at p) λ g. keeps_put_program p _

  pub Keeps-notify_wakeup : (tcb : ℕ) → Keeps P W (notify_wakeup tcb)
  unfolding notify_wakeup
  Keeps-notify_wakeup tcb = Keeps-bind (Keeps-tcb_at tcb) λ t.
      Keeps-bind (Keeps-own_program t.socket) λ p. Keeps-bind (Keeps-lock_wakeup p) λ _.
        Keeps-bind (Keeps-program_at p) λ g.
          Keeps-bind (keeps_put_program p _)
            λ _. Keeps-bind (keeps_post_counter p) λ _. Keeps-unlock_wakeup p

  pub Keeps-wakeup_from : (fuel p i : ℕ) → Keeps P W (wakeup_from env fuel p i)
  unfolding wakeup_from
  Keeps-wakeup_from zero p i = Keeps-spins
  Keeps-wakeup_from (suc fuel) p i =
      Keeps-bind (Keeps-program_at p)
        λ g. turn g (get_elem? g.wakeup_list i) (Keeps-wakeup_from fuel p (i + 1))
    where
      turn :
          (g : Program) (o : Option ℕ)
          → Keeps P W (wakeup_from env fuel p (i + 1))
          → Keeps P W (elim o [
            | none ↦ return tt
            | some tcb ↦ do
              put_program p (record g { wakeup_list = list_remove g.wakeup_list i })
              move_tcb_to env tcb ready
              wait_tcb_counter p
              wakeup_from env fuel p (i + 1)
          ])
      turn g none later = Keeps-return tt
      turn g (some tcb) later = Keeps-bind (keeps_put_program p _) λ _.
          Keeps-bind (Keeps-move r.move tcb ready) λ _. Keeps-bind (keeps_wait_counter p) λ _. later

  pub Keeps-wakeup_threads : (p : ℕ) → Keeps P W (wakeup_threads env p)
  unfolding wakeup_threads
  Keeps-wakeup_threads p =
      Keeps-bind (Keeps-lock_wakeup p)
        λ _. Keeps-bind (Keeps-program_at p) λ g. by_list g.wakeup_list
    where
      by_list :
          (xs : List ℕ)
          → Keeps P W (elim xs [
            | [] ↦ do unlock_wakeup p; return false
            | t ∷ ts ↦ do wakeup_from env (suc (suc (length ts))) p 0; unlock_wakeup p; return true
          ])
      by_list [] = Keeps-bind (Keeps-unlock_wakeup p) λ _. Keeps-return false
      by_list (t ∷ ts) =
          Keeps-bind (Keeps-wakeup_from (suc (suc (length ts))) p 0)
            λ _. Keeps-bind (Keeps-unlock_wakeup p) λ _. Keeps-return true

  pub Keeps-wait_for_threads : (p : ℕ) → Keeps P W (wait_for_threads env p)
  unfolding wait_for_threads
  Keeps-wait_for_threads p = Keeps-bind (keeps_wait_counter p) λ _.
      Keeps-bind (keeps_post_counter p)
        λ _. Keeps-bind (Keeps-wakeup_threads p) λ _. Keeps-return tt

  pub Keeps-exec_of : (p : ℕ) → Keeps P W (exec_of p)
  unfolding exec_of
  Keeps-exec_of p = Keeps-bind (Keeps-program_at p) λ g. Keeps-need g.exec
