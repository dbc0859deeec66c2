-- ===== src/Suse/Metrics/Threads.antt =====
-- The lines of one thread, and those of the threads of one program.
use locomatch.Prelude.{
  ℕ, ◌*◌, ◌≡◌, refl, sym, ap, ◌∙◌, Bool, true, false, List, [], ◌∷◌, Option, none, some, length,
  if◌then◌else◌,
}
use locomatch.Suse.State.{ThreadState, new, ready, exec, blocked, exit, Tcb, Program, Suse}
use locomatch.Suse.Monad.{M, program_at}
use locomatch.Suse.Timing.{Env, F, get_total_for, get_last_burst_for}
use locomatch.Suse.Metrics.{
  Line, add_execs, first_exec, nothing_runs, get_exec_percentage, state_metrics,
  print_thread_metrics, exec_metrics,
}
use locomatch.Suse.Metrics.Reads.{
  Reads, Reads-bind, Reads-return, Reads-need, Reads-tcb_at, Reads-program_at, Reads-clock, All,
}

abbrev pub runs : Option ℕ → ℕ
runs none = 0
runs (some q) = 1

-- What get_exec_percentage follows for a program.
pub record IsOwned {F : Type 0} (tcbs : ℕ → Option (Tcb F)) (programs : ℕ → Option Program) (p : ℕ)
    (g : Program) : Type 0 where
  pub here : programs p ≡ some g
  pub running : (q : ℕ) → g.exec ≡ some q → (t : Tcb F) × (tcbs q ≡ some t)
  pub readies : All (λ q. (t : Tcb F) × (tcbs q ≡ some t)) g.ready

abbrev Any : {A : Type 0} → A → Type 0
Any _ = Unit {0}

module _ (env : Env) (s : Suse (F env)) where
  abbrev pub IsLive : ℕ → Type 0
  IsLive p = (t : Tcb (F env)) × (s.tcbs p ≡ some t)

  Reads-last_burst : (state : ThreadState) (t : _) → Reads s Any (get_last_burst_for env state t)
  unfolding get_last_burst_for
  Reads-last_burst state t = Reads-bind (Reads-clock env {s = s}) λ now _. Reads-return _ tt

  Reads-total_ready : (t : _) → Reads s Any (get_total_for env ready t)
  unfolding get_total_for
  Reads-total_ready t = Reads-bind (Reads-last_burst ready t) λ last _. Reads-return _ tt

  Reads-total_exec : (t : _) → Reads s Any (get_total_for env exec t)
  unfolding get_total_for
  Reads-total_exec t = Reads-bind (Reads-last_burst exec t) λ last _. Reads-return _ tt

  Reads-add_execs :
      (tid : ℕ) (ps : List ℕ) (actual suma : F env)
      → All IsLive ps
      → Reads s Any (add_execs env tid ps actual suma)
  unfolding add_execs
  Reads-add_execs tid [] actual suma h = Reads-return _ tt
  Reads-add_execs tid (p ∷ ps) actual suma h =
      Reads-bind (Reads-tcb_at {Q = Any} p h.0.0 h.0.1 tt) λ t _. Reads-add_execs tid ps _ _ h.1

  Reads-first_exec :
      (tid : ℕ) (o : Option ℕ)
      → ((q : ℕ) → o ≡ some q → IsLive q)
      → Reads s Any (first_exec env tid o)
  unfolding first_exec
  Reads-first_exec tid none h = Reads-return _ tt
  Reads-first_exec tid (some q) h =
      Reads-bind (Reads-tcb_at {Q = Any} q (h q refl).0 (h q refl).1 tt)
        λ t _. Reads-bind (Reads-total_exec t.time) λ suma _. Reads-return _ tt

  Reads-if :
      {A : Type 0} {Q : A → Type 0} (b : Bool) (m n : M (F env) A)
      → Reads s Q m
      → Reads s Q n
      → Reads s Q (if b then m else n)
  Reads-if true m n h k = h
  Reads-if false m n h k = k

  -- A thread that print_thread_metrics can be given.
  abbrev pub Printable : Program → ℕ → Type 0
  Printable g q =
      (t : Tcb (F env)) × (s.tcbs q ≡ some t) × (t.state ≡ exec → (r : ℕ) × (g.exec ≡ some r))

  module _ (p : ℕ) (g : Program) (own : IsOwned s.tcbs s.programs p g) (shared_threads : List ℕ)
      (shareds : All IsLive shared_threads) where
    Reads-own : {Q : Program → Type 0} → Q g → Reads s Q (program_at p)
    Reads-own q = Reads-program_at p g own.here q

    Reads-percentage : (tid : ℕ) → Reads s Any (get_exec_percentage env p tid shared_threads)
    unfolding get_exec_percentage
    Reads-percentage tid = Reads-bind (Reads-own {Q = λ g'. g' ≡ g} refl) λ g' e.
        Reads-if (nothing_runs env g' shared_threads) _ _ (Reads-return _ tt) (
          Reads-bind
            (Reads-first_exec tid g'.exec (λ q r. own.running q (ap (λ g''. g''.exec) (sym e) ∙ r)))
            λ a _. Reads-bind (Reads-add_execs tid g'.ready a.0 a.1 (rw e own.readies)) λ b _.
              Reads-bind (Reads-add_execs tid shared_threads b.0 b.1 shareds)
                λ c _. Reads-return _ tt)

    abbrev pub Five : List (Line (F env)) → Type 0
    Five lines = length lines ≡ 5

    Reads-state_metrics :
        (state : ThreadState) (t : Tcb (F env))
        → (state ≡ exec → (q : ℕ) × (g.exec ≡ some q))
        → Reads s Five (state_metrics env state t p shared_threads)
    unfolding state_metrics
    Reads-state_metrics new t h =
        Reads-bind (Reads-clock env {s = s})
          λ now _. Reads-bind (Reads-own {Q = Any} tt) λ g' _. Reads-return _ refl
    Reads-state_metrics ready t h = Reads-bind (Reads-clock env {s = s}) λ now _.
        Reads-bind (Reads-own {Q = Any} tt) λ g' _.
          Reads-bind (Reads-total_ready t.time)
            λ espera _. Reads-bind (Reads-percentage t.tid) λ porciento _. Reads-return _ refl
    Reads-state_metrics exec t h =
        let q = h refl in
        let live = own.running q.0 q.1 in
        Reads-bind (Reads-clock env {s = s}) λ now _.
          Reads-bind (Reads-own {Q = λ g'. g' ≡ g} refl) λ g' e.
            Reads-bind
              (Reads-need {Q = λ q'. q' ≡ q.0} g'.exec q.0 (ap (λ g''. g''.exec) e ∙ q.1) refl)
              λ running e'.
                Reads-bind (Reads-tcb_at {Q = Any} running live.0 (rw e' live.1) tt) λ thread _.
                  Reads-bind (Reads-total_exec thread.time)
                    λ uso _. Reads-bind (Reads-percentage t.tid) λ porciento _. Reads-return _ refl
    Reads-state_metrics blocked t h = Reads-bind (Reads-clock env {s = s}) λ now _.
        Reads-bind (Reads-own {Q = Any} tt)
          λ g' _. Reads-bind (Reads-percentage t.tid) λ porciento _. Reads-return _ refl
    Reads-state_metrics exit t h =
        Reads-bind (Reads-own {Q = Any} tt)
          λ g' _. Reads-bind (Reads-percentage t.tid) λ porciento _. Reads-return _ refl

    pub Reads-print :
        (q : ℕ) → Printable g q → Reads s Five (print_thread_metrics env p shared_threads q)
    unfolding print_thread_metrics
    Reads-print q h =
        Reads-bind (Reads-tcb_at {Q = λ t. t ≡ h.0} q h.0 h.1 refl)
          λ t e. Reads-state_metrics t.state t (λ x. h.2 (ap (λ t'. t'.state) (sym e) ∙ x))

    pub Reads-exec_metrics :
        (o : Option ℕ)
        → g.exec ≡ o
        → Reads s (λ lines. length lines ≡ 5 * runs o) (exec_metrics env p shared_threads o)
    unfolding exec_metrics
    Reads-exec_metrics none e = Reads-return [] refl
    Reads-exec_metrics (some q) e =
        let live = own.running q e in Reads-print q (live.0, live.1, λ _. (q, e))
