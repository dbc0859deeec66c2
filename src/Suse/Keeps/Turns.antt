-- ===== src/Suse/Keeps/Turns.antt =====
-- A turn of either loop keeps what the scheduler's steps keep.
use locomatch.Prelude.{ℕ, Bool, ◌&&◌, Option, none, some, get_elem?, ◌==◌, if◌then◌else◌}
use locomatch.Suse.State.{ready, exec, Suse}
use locomatch.Suse.Monad.{◌>>=◌, ◌>>◌, return, tcb_at}
use locomatch.Suse.Timing.{Env, F}
use locomatch.Suse.Moves.{move_tcb_to}
use locomatch.Suse.Create.{get_new_tcb, main_exec_signal}
use locomatch.Suse.Turns.{
  lock_main_loaded, unlock_main_loaded, admit, long_term_turn, suse_create, set_close, attend,
  is_empty, short_term_turn,
}
use locomatch.Protocol.Codes.{
  Pedido, create, schedule_next, wait, signal, join, close, desconectado, desconocido,
}
use locomatch.Suse.Keeps.{
  Keeps, Keeps-bind, Keeps-return, Keeps-get, Keeps-tcb_at, Keeps-program_at, Keeps-if,
}
use locomatch.Suse.Keeps.Programs.{Keeps-own_program}
use locomatch.Suse.Keeps.Moves.{Keeps-move}
use locomatch.Suse.Keeps.Requests.{TurnRules, Keeps-wakeup_threads}
use locomatch.Suse.Keeps.Join.{Keeps-suse_join, Keeps-suse_close}
use locomatch.Suse.Keeps.Schedule.{Keeps-schedule_next_for}

module _ {env : Env} {P W : Suse (F env) → Type 0} (t : TurnRules env P W) where
  open t use {requests, keeps_suse_wait, keeps_suse_signal}
  open t.requests use {
    keeps_lock, keeps_unlock, keeps_put_tcb, keeps_clock, keeps_waits, keeps_put_program,
    keeps_wait_counter, keeps_post_counter, keeps_sent, keeps_new_counter, keeps_check,
    keeps_create,
  }

  Keeps-main_signal : (tcb : ℕ) → Keeps P W (main_exec_signal tcb)
  unfolding main_exec_signal
  Keeps-main_signal tcb = Keeps-bind (Keeps-tcb_at tcb) λ t.
      Keeps-bind (Keeps-own_program t.socket)
        λ p. Keeps-bind (Keeps-program_at p) λ g. keeps_put_program p _

  Keeps-get_new_tcb : Keeps P W get_new_tcb
  unfolding get_new_tcb
  Keeps-get_new_tcb = Keeps-bind keeps_lock λ _.
      Keeps-bind Keeps-get λ s. Keeps-bind keeps_unlock λ _. Keeps-return (get_elem? s.new_list 0)

  Keeps-admit : (endsuse : Bool) → Keeps P W (admit env endsuse)
  unfolding admit
  Keeps-admit endsuse =
      Keeps-bind Keeps-get_new_tcb λ current. Keeps-bind keeps_check λ _. by_current current
    where
      by_current :
          (o : Option ℕ)
          → Keeps P W (elim o [
            | none ↦ return tt
            | some tcb ↦ do
              move_tcb_to env tcb ready
              t ← tcb_at tcb
              if t.tid == 0 then main_exec_signal tcb else return tt
          ])
      by_current none = Keeps-return tt
      by_current (some tcb) = Keeps-bind (Keeps-move requests.move tcb ready) λ _.
          Keeps-bind (Keeps-tcb_at tcb)
            λ t. Keeps-if (t.tid == 0) _ _ (Keeps-main_signal tcb) (Keeps-return tt)

  pub Keeps-long_term_turn : (endsuse : Bool) → Keeps P W (long_term_turn env endsuse)
  unfolding long_term_turn
  Keeps-long_term_turn endsuse =
      Keeps-bind keeps_new_counter λ _. Keeps-if endsuse _ _ (Keeps-return tt) (Keeps-admit endsuse)

  Keeps-suse_create : (endsuse : Bool) (tid p : ℕ) → Keeps P W (suse_create env endsuse tid p)
  unfolding suse_create lock_main_loaded unlock_main_loaded
  Keeps-suse_create endsuse tid p = Keeps-bind (Keeps-program_at p) λ self.
      Keeps-bind (keeps_create self.socket tid) λ tcb.
        Keeps-if (tid == 0) _ _
          (Keeps-bind
            (Keeps-bind (Keeps-program_at p)
              λ g. Keeps-if g.main_loaded_mutex _ _ keeps_waits (keeps_put_program p _))
            λ _.
              Keeps-bind (Keeps-move requests.move tcb exec)
                λ _. Keeps-bind (Keeps-program_at p) λ g. keeps_put_program p _)
          (Keeps-return tt)

  Keeps-set_close : (endsuse : Bool) (p : ℕ) → Keeps P W (set_close env endsuse p)
  unfolding set_close
  Keeps-set_close endsuse p = Keeps-bind (Keeps-program_at p) λ g. keeps_put_program p _

  pub Keeps-attend :
      (endsuse : Bool) (fuel p : ℕ) (pedido : Pedido) → Keeps P W (attend env endsuse fuel p pedido)
  unfolding attend
  Keeps-attend endsuse fuel p (create tid) = Keeps-suse_create endsuse tid p
  Keeps-attend endsuse fuel p schedule_next = Keeps-schedule_next_for requests fuel p
  Keeps-attend endsuse fuel p (wait tid sem) = keeps_suse_wait tid sem p
  Keeps-attend endsuse fuel p (signal tid sem) = keeps_suse_signal tid sem p
  Keeps-attend endsuse fuel p (join tid) = Keeps-suse_join requests fuel tid p
  Keeps-attend endsuse fuel p (close tid) = Keeps-suse_close requests tid p
  Keeps-attend endsuse fuel p desconectado = Keeps-set_close endsuse p
  Keeps-attend endsuse fuel p (desconocido codigo) = Keeps-return tt

  pub Keeps-short_term_turn :
      (endsuse : Bool) (fuel p : ℕ) (pedido : Pedido)
      → Keeps P W (short_term_turn env endsuse fuel p pedido)
  unfolding short_term_turn
  Keeps-short_term_turn endsuse fuel p pedido = Keeps-bind (Keeps-attend endsuse fuel p pedido) λ _.
      Keeps-bind (Keeps-wakeup_threads requests p) λ _. Keeps-bind keeps_lock λ _.
        Keeps-bind (Keeps-program_at p) λ g.
          Keeps-bind
            (Keeps-if (is_empty g.ready && endsuse) _ _ (Keeps-set_close endsuse p)
              (Keeps-return tt))
            λ _. keeps_unlock
