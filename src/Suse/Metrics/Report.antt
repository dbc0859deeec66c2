-- ===== src/Suse/Metrics/Report.antt =====
-- The report of log_metrics over all programs.
use locomatch.Prelude.{
  ℕ, ◌+◌, ◌*◌, ◌≡◌, ◌≢◌, refl, sym, ◌∙◌, Bool, true, false, List, [], ◌∷◌, ◌++◌, Option, none, some,
  length, length-append, arith, ◌==◌, if◌then◌else◌,
}
use locomatch.Prelude.Int.{pos}
use locomatch.Suse.State.{ThreadState, new, ready, exec, blocked, exit, Tcb, Program, Suse}
use locomatch.Suse.Monad.{M, ◌>>=◌, return}
use locomatch.Suse.Timing.{Env, F}
use locomatch.Suse.Destroy.Filter.{mine, AllLive}
use locomatch.Suse.Metrics.{
  Line, metricas_por_hilo, programa, hilos_en, metricas_por_programa, for_each, program_metrics,
  thread_metrics, client_metrics, all_metrics,
}
use locomatch.Suse.Metrics.Counts.{find_all_my_shared_threads}
use locomatch.Suse.Metrics.Shared.{IsCounted, find_all_my_shared_threads-IsCounted}
use locomatch.Suse.Metrics.Reads.{
  Reads, Reads-bind, Reads-known, Reads-return, Reads-get, Reads-for_each, Reads-weaken,
  Reads-program_bind, All, total, total_const, at_tick,
}
use locomatch.Suse.Metrics.Threads.{
  IsLive, IsOwned, runs, Printable, Reads-print, Reads-exec_metrics,
}

All-append : {A : Type 0} (P : A → Type 0) (xs ys : List A) → All P xs → All P ys → All P (xs ++ ys)
All-append P [] ys h k = k
All-append P (x ∷ xs) ys h k = (h.0, All-append P xs ys h.1 k)

All-map :
    {A : Type 0} (P Q : A → Type 0) (xs : List A) → ((a : A) → P a → Q a) → All P xs → All Q xs
All-map P Q [] f h = tt
All-map P Q (x ∷ xs) f h = (f x h.0, All-map P Q xs f h.1)

module _ (env : Env) (s : Suse (F env)) where
  abbrev pub HasState : ThreadState → ℕ → Type 0
  HasState state p = (t : Tcb (F env)) × (s.tcbs p ≡ some t) × (t.state ≡ state)

  abbrev pub IsSound : ℕ → Type 0
  IsSound p = (g : Program) × IsOwned s.tcbs s.programs p g × All (HasState ready) g.ready

  -- Every thread of a list has the list's state, and every pointer of a program leads to a thread.
  pub record IsConsistent : Type 0 where
    pub news : All (HasState new) s.new_list
    pub blockeds : All (HasState blocked) s.blocked_list
    pub exits : All (HasState exit) s.exit_list
    pub programs : All IsSound s.clientes

  abbrev shared_of : ℕ → List ℕ
  shared_of socket =
      mine s.tcbs socket s.new_list
      ++ mine s.tcbs socket s.blocked_list
      ++ mine s.tcbs socket s.exit_list

  abbrev own_lines : Program → ℕ
  own_lines g = 5 * (runs g.exec + length g.ready + length (shared_of g.socket))

  -- Five lines for each thread of the program.
  abbrev pub thread_lines : ℕ → ℕ
  thread_lines p = elim (s.programs p) [ none ↦ 0 | some g ↦ own_lines g ]

  abbrev pub report_lines : ℕ
  report_lines = total thread_lines s.clientes + 6 * length s.clientes + length s.semaforos + 5

  All-mine : (P : ℕ → Type 0) (socket : ℕ) (l : List ℕ) → All P l → All P (mine s.tcbs socket l)
  All-mine P socket [] h = tt
  All-mine P socket (p ∷ ps) h = by_thread (s.tcbs p) (All-mine P socket ps h.1)
    where
      by_socket :
          (b : Bool)
          → All P (mine s.tcbs socket ps)
          → All P (if b then p ∷ mine s.tcbs socket ps else mine s.tcbs socket ps)
      by_socket true rest = (h.0, rest)
      by_socket false rest = rest

      by_thread :
          (o : Option (Tcb (F env)))
          → All P (mine s.tcbs socket ps)
          → All P (elim o [
            | none ↦ mine s.tcbs socket ps
            | some t ↦
                if t.socket == socket then p ∷ mine s.tcbs socket ps else mine s.tcbs socket ps
          ])
      by_thread none rest = rest
      by_thread (some t) rest = by_socket (t.socket == socket) rest

  HasState-AllLive : (state : ThreadState) (l : List ℕ) → All (HasState state) l → AllLive s.tcbs l
  HasState-AllLive state [] h = tt
  HasState-AllLive state (p ∷ ps) h = ((h.0.0, h.0.1), HasState-AllLive state ps h.1)

  -- A thread of another state than EXEC.
  HasState-Printable :
      (state : ThreadState) (g : Program)
      → state ≢ exec
      → (q : ℕ) → HasState state q
      → Printable env s g q
  HasState-Printable state g differ q h = (h.0, h.1, λ e. absurd (differ (sym h.2 ∙ e)))

  Reads-fives :
      (f : ℕ → M (F env) (List (Line (F env)))) (Good : ℕ → Type 0)
      → ((q : ℕ) → Good q → Reads s (λ lines. length lines ≡ 5) (f q))
      → (l : List ℕ) → All Good l
      → Reads s (λ lines. length lines ≡ 5 * length l) (for_each f l)
  Reads-fives f Good h l good =
      Reads-weaken (Reads-for_each f Good (λ _. 5) h l good) λ lines e. e ∙ total_const 5 l

  module _ (valid : IsConsistent) where
    counted : (k p : ℕ) (g : Program) → s.programs p ≡ some g → IsCounted p g.socket (at_tick s k)
    counted k p g here = find_all_my_shared_threads-IsCounted (at_tick s k) p g here (record {
      news = HasState-AllLive new s.new_list valid.news;
      blockeds = HasState-AllLive blocked s.blocked_list valid.blockeds;
      exits = HasState-AllLive exit s.exit_list valid.exits;
    })

    Reads-shared :
        (p : ℕ) (g : Program)
        → s.programs p ≡ some g
        → Reads s (λ l. l ≡ shared_of g.socket) (find_all_my_shared_threads p)
    Reads-shared p g here = record {
      run = λ k.
          let r = counted k p g here in
          record { value = r.found; tick = k; ends = r.finds; holds = r.filtered };
    }

    All-shared :
        (P : ℕ → Type 0) (socket : ℕ)
        → ((state : ThreadState) → state ≢ exec → (q : ℕ) → HasState state q → P q)
        → All P (shared_of socket)
    All-shared P socket f =
        All-append P _ _
          (All-append P _ _ (of new (λ e. cc) s.new_list valid.news)
            (of blocked (λ e. cc) s.blocked_list valid.blockeds))
          (of exit (λ e. cc) s.exit_list valid.exits)
      where
        of :
            (state : ThreadState)
            → state ≢ exec
            → (l : List ℕ) → All (HasState state) l
            → All P (mine s.tcbs socket l)
        of state differ l h = All-mine P socket l (All-map (HasState state) P l (f state differ) h)

    Reads-thread_metrics :
        (p : ℕ)
        → IsSound p
        → Reads s (λ lines. length lines ≡ thread_lines p) (thread_metrics env p)
    unfolding thread_metrics
    Reads-thread_metrics p (g, own, readies) =
        let l = shared_of g.socket in
        let live : All (IsLive env s) l =
          All-shared (IsLive env s) g.socket (λ state differ q h. (h.0, h.1)) in
        let shared_printable : All (Printable env s g) l =
          All-shared (Printable env s g) g.socket (λ state. HasState-Printable state g) in
        let ready_printable : All (Printable env s g) g.ready =
          All-map (HasState ready) (Printable env s g) g.ready
            (HasState-Printable ready g (λ e. cc)) readies in
        let print = Reads-print env s p g own l live in
        Reads-program_bind p g own.here (
          Reads-known _ l (Reads-shared p g own.here) (
            Reads-bind (Reads-exec_metrics env s p g own l live g.exec refl) λ running e₁.
              Reads-bind (Reads-fives _ _ print g.ready ready_printable) λ readies' e₂.
                Reads-bind (Reads-fives _ _ print l shared_printable) λ shareds e₃. Reads-return _ (
                  rw (thread_lines, own.here)
                    (omega (
                      arith,
                      e₁,
                      e₂,
                      e₃,
                      length-append (running ++ readies') shareds,
                      length-append running readies',
                    )))))

    Reads-program_metrics :
        (p : ℕ) → IsSound p → Reads s (λ lines. length lines ≡ 6) (program_metrics p)
    unfolding program_metrics
    Reads-program_metrics p (g, own, readies) = Reads-program_bind p g own.here (record {
      run = λ k.
          let r = counted k p g own.here in
          record {
            value =
                programa g.id
                ∷ hilos_en new (pos r.news)
                ∷ hilos_en ready (pos (length g.ready))
                ∷ hilos_en exec (elim g.exec [ none ↦ pos 0 | some _ ↦ pos 1 ])
                ∷ hilos_en blocked (pos r.blockeds)
                ∷ hilos_en exit (pos r.exits)
                ∷ [];
            tick = k;
            ends = rw (r.size_new, r.size_blocked, r.size_exit) refl;
            holds = refl;
          };
    })

    Reads-client_metrics :
        Reads s
          (λ lines. length lines ≡ total thread_lines s.clientes + 6 * length s.clientes + 2)
          (client_metrics env s.clientes)
    unfolding client_metrics
    Reads-client_metrics =
        Reads-bind
          (Reads-for_each (thread_metrics env) IsSound thread_lines Reads-thread_metrics s.clientes
            valid.programs)
          λ threads e₁.
            Reads-bind
              (Reads-for_each program_metrics IsSound (λ _. 6) Reads-program_metrics s.clientes
                valid.programs)
              λ programs e₂.
                Reads-return (metricas_por_hilo ∷ threads ++ metricas_por_programa ∷ programs) (
                  omega (
                    arith,
                    e₁,
                    e₂,
                    total_const 6 s.clientes,
                    length-append threads (metricas_por_programa ∷ programs),
                  ))

    pub Reads-all_metrics :
        Reads s
          (λ (degree, lines).
            length lines ≡ total thread_lines s.clientes + 6 * length s.clientes + 2)
          (all_metrics env)
    unfolding all_metrics
    Reads-all_metrics =
        Reads-get
          (λ s'. client_metrics env s'.clientes >>= λ lines. return (s'.multiprog_degree, lines))
          λ k. Reads-bind Reads-client_metrics λ lines e. Reads-return (s.multiprog_degree, lines) e
