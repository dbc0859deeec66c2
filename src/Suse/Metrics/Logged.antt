-- ===== src/Suse/Metrics/Logged.antt =====
-- log_metrics as a whole: the report, then the semaphores.
use locomatch.Prelude.{
  ℕ, suc, zero, ◌+◌, ◌*◌, ◌≡◌, refl, sym, ap, ◌∙◌, true, false, List, [], ◌∷◌, ◌++◌, none, some,
  length, length-append, arith, get_elem?, set, zero-add, set-set, get_elem?-set_there, subst,
}
use locomatch.Prelude.Int.{ℤ}
use locomatch.Suse.State.{Semaforo, Suse}
use locomatch.Suse.Monad.{◌>>=◌, return}
use locomatch.Suse.Timing.{Env, F}
use locomatch.Suse.Semaphores.{lock_sem, unlock_sem}
use locomatch.Suse.Metrics.{
  Line, metricas_del_sistema, grado_actual, separador, semaforo, semaforo_metrics, log_metrics,
}
use locomatch.Suse.Metrics.Reads.{
  Ended, Reads, Reads-bind, Reads-return, Reads-get, Reads-locked, All, total,
}
use locomatch.Suse.Metrics.Report.{IsConsistent, thread_lines, Reads-all_metrics}

set_same : (xs : List Semaforo) (i : ℕ) (x : Semaforo) → get_elem? xs i ≡ some x → set xs i x ≡ xs
set_same [] i x e = refl
set_same (x' ∷ xs) zero x e = let same : x' ≡ x = cc in rw same refl
set_same (x' ∷ xs) (suc i) x e = ap (λ (l : List Semaforo). x' ∷ l) (set_same xs i x e)

module _ {F : Type 0} (s : Suse F) where
  -- A lock that is free is taken and given back.
  relock :
      (i : ℕ) (x : Semaforo)
      → get_elem? s.semaforos i ≡ some x
      → x.sem_mutex ≡ false
      → set (set s.semaforos i (record x { sem_mutex = true })) i (record x { sem_mutex = false })
        ≡ s.semaforos
  relock i x e free =
      set-set s.semaforos i (record x { sem_mutex = true }) (record x { sem_mutex = false })
      ∙ ap (λ b. set s.semaforos i (record x { sem_mutex = b })) (sym free)
      ∙ set_same s.semaforos i x e

  Reads-semaforo_metrics :
      (i : ℕ) (ys : List Semaforo)
      → ((m : ℕ) (y : Semaforo) → get_elem? ys m ≡ some y → get_elem? s.semaforos (i + m) ≡ some y)
      → All (λ (y : Semaforo). y.sem_mutex ≡ false) ys
      → Reads s (λ lines. length lines ≡ length ys) (semaforo_metrics i ys)
  unfolding semaforo_metrics lock_sem unlock_sem
  Reads-semaforo_metrics i [] there free = Reads-return [] refl
  Reads-semaforo_metrics i (y ∷ ys) there free = record {
    run = λ k.
        let here : get_elem? s.semaforos i ≡ some y =
          subst (λ (n : ℕ). get_elem? s.semaforos n ≡ some y) (omega arith) (there 0 y refl) in
        let rest = Reads-semaforo_metrics (i + 1) ys later free.1 in
        let r = rest.run k in
        record {
          value = semaforo y.id y.valor ∷ r.value;
          tick = r.tick;
          ends =
              rw
                (
                  here,
                  free.0,
                  get_elem?-set_there s.semaforos i y (record y { sem_mutex = true }) here,
                  get_elem?-set_there s.semaforos i y (record y { sem_mutex = true }) here,
                  relock i y here free.0,
                  r.ends,
                )
                refl;
          holds = ap suc r.holds;
        };
  }
    where
      later :
          (m : ℕ) (z : Semaforo)
          → get_elem? ys m ≡ some z
          → get_elem? s.semaforos (i + 1 + m) ≡ some z
      later m z e = let one : i + 1 + m ≡ i + suc m = omega arith in rw one (there (suc m) z e)

module _ (env : Env) (s : Suse (F env)) where
  -- No lock is taken.
  pub record IsReportable : Type 0 where
    pub lists_free : s.state_list_mutex ≡ false
    pub sems_free : All (λ (x : Semaforo). x.sem_mutex ≡ false) s.semaforos
    pub consistent : IsConsistent env s

  abbrev pub report_lines : ℕ
  report_lines =
      total (thread_lines env s) s.clientes + 6 * length s.clientes + length s.semaforos + 5

  -- log_metrics(NULL) ends, changes nothing but how often the clock was read, and writes five lines
  -- for each thread of each program, wherever the thread is, six for each program, one for each
  -- semaphore and five of its own. No lock is taken, every thread of the scheduler's lists and of
  -- the ready lists has the list's state, and every pointer of the programs leads to what it names.
  pub log_metrics-Ended :
      IsReportable → Ended s (λ lines. length lines ≡ report_lines) (log_metrics env none s)
  unfolding log_metrics
  log_metrics-Ended valid = logged.run s.ticks
    where
      c : IsConsistent env s
      c = valid.consistent

      tail : ℤ × List (Line (F env)) → List (Line (F env)) → List (Line (F env))
      tail a semaforos =
          a.1 ++ metricas_del_sistema ∷ semaforos ++ grado_actual a.0 ∷ separador ∷ []

      from_zero :
          (m : ℕ) (y : Semaforo)
          → get_elem? s.semaforos m ≡ some y
          → get_elem? s.semaforos (0 + m) ≡ some y
      from_zero m y e = rw (zero-add m) e

      logged : Reads s (λ lines. length lines ≡ report_lines) (log_metrics env none)
      logged =
          Reads-bind
            (Reads-locked _ valid.lists_free (
              Reads-all_metrics env (record s { state_list_mutex = true })
                (record {
                  news = c.news;
                  blockeds = c.blockeds;
                  exits = c.exits;
                  programs = c.programs;
                })))
            λ a e₁.
              Reads-get
                (λ s'. semaforo_metrics 0 s'.semaforos >>= λ semaforos. return (tail a semaforos))
                λ k.
                  Reads-bind (Reads-semaforo_metrics s 0 s.semaforos from_zero valid.sems_free)
                    λ semaforos e₂. Reads-return (tail a semaforos) (
                      omega (
                        arith,
                        e₁,
                        e₂,
                        length-append (a.1 ++ metricas_del_sistema ∷ semaforos)
                            (grado_actual a.0 ∷ separador ∷ []),
                        length-append a.1 (metricas_del_sistema ∷ semaforos),
                      ))
