-- ===== src/Suse/Keeps/Metrics.antt =====
-- The report on a thread that finished keeps what the clock and the lock of the state lists keep.
use locomatch.Prelude.{ℕ, List, [], ◌∷◌, Option, none, some}
use locomatch.Suse.State.{ThreadState, new, ready, exec, blocked, exit, Tcb, Burst, Suse}
use locomatch.Suse.Monad.{lock_state_list, unlock_state_list}
use locomatch.Suse.Timing.{Env, F, gettimeofday, get_last_burst_for, get_total_for}
use locomatch.Suse.Metrics.{
  with_state_lists, add_execs, first_exec, nothing_runs, get_exec_percentage, state_metrics,
  print_thread_metrics, finished_metrics, log_metrics,
}
use locomatch.Suse.Metrics.Counts.{threads_of, find_all_my_shared_threads}
use locomatch.Suse.Keeps.{
  Keeps, Keeps-bind, Keeps-need, Keeps-return, Keeps-get, Keeps-tcb_at, Keeps-program_at, Keeps-if,
}
use locomatch.Suse.Keeps.Programs.{Keeps-own_program, Keeps-crash}

module _ (env : Env) {P W : Suse (F env) → Type 0} (clock : Keeps P W (gettimeofday env)) where
  Keeps-threads_of : (socket : ℕ) (l : List ℕ) → Keeps P W (threads_of socket l)
  unfolding threads_of
  Keeps-threads_of socket [] = Keeps-return []
  Keeps-threads_of socket (p ∷ ps) =
      Keeps-bind (Keeps-tcb_at p)
        λ t. Keeps-bind (Keeps-threads_of socket ps) λ rest. Keeps-return _

  Keeps-find_all : (p : ℕ) → Keeps P W (find_all_my_shared_threads p)
  unfolding find_all_my_shared_threads
  Keeps-find_all p = Keeps-bind (Keeps-program_at p) λ g. Keeps-bind Keeps-get λ s.
      Keeps-bind (Keeps-threads_of g.socket s.new_list) λ news.
        Keeps-bind (Keeps-threads_of g.socket s.blocked_list)
          λ blockeds. Keeps-bind (Keeps-threads_of g.socket s.exit_list) λ exits. Keeps-return _

  Keeps-last_burst :
      (state : ThreadState) (t : Burst (F env)) → Keeps P W (get_last_burst_for env state t)
  unfolding get_last_burst_for
  Keeps-last_burst state t = Keeps-bind clock λ now. Keeps-return _

  Keeps-total_for :
      (state : ThreadState) (t : Burst (F env)) → Keeps P W (get_total_for env state t)
  unfolding get_total_for
  Keeps-total_for ready t = Keeps-bind (Keeps-last_burst ready t) λ last. Keeps-return _
  Keeps-total_for exec t = Keeps-bind (Keeps-last_burst exec t) λ last. Keeps-return _
  Keeps-total_for _ t = Keeps-crash

  Keeps-add_execs :
      (tid : ℕ) (l : List ℕ) (actual suma : F env) → Keeps P W (add_execs env tid l actual suma)
  unfolding add_execs
  Keeps-add_execs tid [] actual suma = Keeps-return _
  Keeps-add_execs tid (p ∷ ps) actual suma =
      Keeps-bind (Keeps-tcb_at p) λ t. Keeps-add_execs tid ps _ _

  Keeps-first_exec : (tid : ℕ) (o : Option ℕ) → Keeps P W (first_exec env tid o)
  unfolding first_exec
  Keeps-first_exec tid none = Keeps-return _
  Keeps-first_exec tid (some q) =
      Keeps-bind (Keeps-tcb_at q)
        λ t. Keeps-bind (Keeps-total_for exec t.time) λ suma. Keeps-return _

  Keeps-percentage :
      (p tid : ℕ) (shared_threads : List ℕ)
      → Keeps P W (get_exec_percentage env p tid shared_threads)
  unfolding get_exec_percentage
  Keeps-percentage p tid shared_threads = Keeps-bind (Keeps-program_at p) λ g.
      Keeps-if (nothing_runs env g shared_threads) _ _ (Keeps-return _) (
        Keeps-bind (Keeps-first_exec tid g.exec) λ a.
          Keeps-bind (Keeps-add_execs tid g.ready a.0 a.1)
            λ b. Keeps-bind (Keeps-add_execs tid shared_threads b.0 b.1) λ c. Keeps-return _)

  Keeps-state_metrics :
      (state : ThreadState) (t : Tcb (F env)) (p : ℕ) (l : List ℕ)
      → Keeps P W (state_metrics env state t p l)
  unfolding state_metrics
  Keeps-state_metrics new t p l =
      Keeps-bind clock λ now. Keeps-bind (Keeps-program_at p) λ g. Keeps-return _
  Keeps-state_metrics ready t p l = Keeps-bind clock λ now. Keeps-bind (Keeps-program_at p) λ g.
      Keeps-bind (Keeps-total_for ready t.time)
        λ espera. Keeps-bind (Keeps-percentage p t.tid l) λ porciento. Keeps-return _
  Keeps-state_metrics exec t p l = Keeps-bind clock λ now. Keeps-bind (Keeps-program_at p) λ g.
      Keeps-bind (Keeps-need g.exec) λ running. Keeps-bind (Keeps-tcb_at running) λ thread.
        Keeps-bind (Keeps-total_for exec thread.time)
          λ uso. Keeps-bind (Keeps-percentage p t.tid l) λ porciento. Keeps-return _
  Keeps-state_metrics blocked t p l = Keeps-bind clock λ now.
      Keeps-bind (Keeps-program_at p)
        λ g. Keeps-bind (Keeps-percentage p t.tid l) λ porciento. Keeps-return _
  Keeps-state_metrics exit t p l =
      Keeps-bind (Keeps-program_at p)
        λ g. Keeps-bind (Keeps-percentage p t.tid l) λ porciento. Keeps-return _

  Keeps-finished : (tcb : ℕ) → Keeps P W (finished_metrics env tcb)
  unfolding finished_metrics print_thread_metrics
  Keeps-finished tcb = Keeps-bind (Keeps-tcb_at tcb) λ t.
      Keeps-bind (Keeps-own_program t.socket) λ p. Keeps-bind (Keeps-find_all p) λ l.
        Keeps-bind (Keeps-bind (Keeps-tcb_at tcb) λ t'. Keeps-state_metrics t'.state t' p l)
          λ lines. Keeps-return _

  pub Keeps-log_finished :
      (tcb : ℕ)
      → Keeps P W lock_state_list
      → Keeps P W unlock_state_list
      → Keeps P W (log_metrics env (some tcb))
  unfolding log_metrics with_state_lists
  Keeps-log_finished tcb lock unlock =
      Keeps-bind lock
        λ _. Keeps-bind (Keeps-finished tcb) λ lines. Keeps-bind unlock λ _. Keeps-return lines
