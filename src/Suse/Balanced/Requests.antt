-- ===== src/Suse/Balanced/Requests.antt =====
-- suse_wait and suse_signal keep the semaphores balanced.
use locomatch.Prelude.{
  ℕ, suc, ◌≡◌, Bool, true, false, List, [], ◌∷◌, some, arith, get_elem?, set, length, length-append,
  get_elem?-set_there, if◌then◌else◌, ◌==◌, Bool-cases, Option-cases, inl, inr,
}
use locomatch.Prelude.Int.{pos, neg_part, ◌-ℤ◌, ltb_ℤ, leb_ℤ}
use locomatch.Suse.State.{blocked, Suse, Semaforo}
use locomatch.Suse.Monad.{M, waits, ◌>>=◌, ◌>>◌, need}
use locomatch.Suse.Timing.{Env, F}
use locomatch.Suse.Moves.{list_remove}
use locomatch.Suse.Wakeup.{notify_wakeup}
use locomatch.Suse.Semaphores.{
  sem_at, put_sem, lock_sem, unlock_sem, wakeup, raise, suse_signal, block, suse_wait,
}
use locomatch.Suse.Keeps.{
  Keeps, Ensures, Keeps-bind, Keeps-need, Keeps-return, Keeps-get, Keeps-tcb_at, Keeps-if,
}
use locomatch.Suse.Keeps.Moves.{Keeps-move}
use locomatch.Suse.Keeps.Requests.{RequestRules, Keeps-notify_wakeup, Keeps-exec_of}
use locomatch.Suse.Balanced.{
  IsBalanced, Balanced, Balanced-set, Balanced-set_again, raise_limited, raise_positive,
  raise_queued, raise_free, lower_limited, lower_queued, lower_free,
}

-- Only the mutex changes.
same_balance : (x : Semaforo) (b : Bool) → IsBalanced x → IsBalanced (record x { sem_mutex = b })
same_balance x b g = record { positive = g.positive; limited = g.limited; queued = g.queued }

module _ {F : Type 0} where
  abbrev pub B : Suse F → Type 0
  B s = Balanced s.semaforos

  -- A read of semaphore `i`, whose value is then known.
  at_sem :
      {A : Type 0} (i : ℕ) (k : Semaforo → M F A)
      → ((x : Semaforo) (s : Suse F) → B s → get_elem? s.semaforos i ≡ some x → Ensures B B (k x s))
      → Keeps B B (sem_at i >>= k)
  at_sem i k h = record {
    run = λ s b. elim (Option-cases (get_elem? s.semaforos i)) [
      | inl missing ↦ rw missing tt
      | inr (x, at) ↦ rw at (h x s b at)
    ];
  }

  unlock_B : (i : ℕ) → Keeps B B (unlock_sem i)
  unfolding unlock_sem
  unlock_B i =
      at_sem i _ λ x s b at. Balanced-set s.semaforos i _ (same_balance x false (b i x at)) b

  lock_B : (i : ℕ) → Keeps B B (lock_sem i)
  unfolding lock_sem
  lock_B i = at_sem i _ λ x s b at. by_mutex x s b at x.sem_mutex
    where
      by_mutex :
          (x : Semaforo) (s : Suse F)
          → B s
          → get_elem? s.semaforos i ≡ some x
          → (locked : Bool)
          → Ensures B B ((if locked then waits else put_sem i (record x { sem_mutex = true })) s)
      by_mutex x s b at true = b
      by_mutex x s b at false = Balanced-set s.semaforos i _ (same_balance x true (b i x at)) b

module _ {env : Env} (r : RequestRules env B B) where
  -- wakeup on a semaphore whose value was raised, with one thread more than the value counts.
  wakeup_B :
      (i : ℕ) (y : Semaforo) (s : Suse (F env))
      → leb_ℤ (pos 1) y.max_value ≡ true
      → leb_ℤ y.valor y.max_value ≡ true
      → length y.blocked ≡ suc (neg_part y.valor)
      → B s
      → (x : Semaforo) → get_elem? s.semaforos i ≡ some x
      → Ensures B B (wakeup i (record s { semaforos = set s.semaforos i y }))
  unfolding wakeup list_remove
  wakeup_B i y s positive limited queued b x at =
      rw (get_elem?-set_there s.semaforos i x y at) (by_blocked y.blocked queued)
    where
      by_blocked :
          (l : List ℕ)
          → length l ≡ suc (neg_part y.valor)
          → Ensures B B (
              (do
                tcb ← need (get_elem? l 0)
                put_sem i (record y { blocked = list_remove l 0 })
                notify_wakeup tcb
                unlock_sem i)
                (record s { semaforos = set s.semaforos i y }))
      by_blocked [] e = tt
      by_blocked (t ∷ ts) e = (Keeps-bind (Keeps-notify_wakeup r t) λ _. unlock_B i).run _ (
          Balanced-set_again s.semaforos i y _
            (record { positive = positive; limited = limited; queued = omega (arith, e) }) b)

  block_B :
      (i e : ℕ) (y : Semaforo) (s : Suse (F env))
      → leb_ℤ (pos 1) y.max_value ≡ true
      → leb_ℤ y.valor y.max_value ≡ true
      → suc (length y.blocked) ≡ neg_part y.valor
      → B s
      → (x : Semaforo) → get_elem? s.semaforos i ≡ some x
      → Ensures B B (block env i e (record s { semaforos = set s.semaforos i y }))
  unfolding block
  block_B i e y s positive limited queued b x at = rw (get_elem?-set_there s.semaforos i x y at) (
      (Keeps-bind (Keeps-move r.move e blocked) λ _. unlock_B i).run _ (
        Balanced-set_again s.semaforos i y _
          (record {
            positive = positive;
            limited = limited;
            queued = omega (arith, queued, length-append y.blocked (e ∷ []));
          })
          b))

  -- unlock_sem behind the write.
  free_B :
      (i : ℕ) (y : Semaforo) (s : Suse (F env))
      → IsBalanced y
      → B s
      → Ensures B B (unlock_sem i (record s { semaforos = set s.semaforos i y }))
  free_B i y s g b = (unlock_B i).run _ (Balanced-set s.semaforos i y g b)

  signal_B :
      (i : ℕ) (x : Semaforo) (s : Suse (F env))
      → B s
      → get_elem? s.semaforos i ≡ some x
      → Ensures B B (
          (do put_sem i (raise x); if leb_ℤ (raise x).valor (pos 0) then wakeup i else unlock_sem i)
            s)
  signal_B i x s b at = elim (Bool-cases (leb_ℤ (raise x).valor (pos 0))) [
    | inl low ↦ rw low (
        wakeup_B i (raise x) s (raise_positive x g) (raise_limited x g) (raise_queued x g low) b x
          at)
    | inr high ↦ rw high (
        free_B i (raise x) s
          (record {
            positive = raise_positive x g;
            limited = raise_limited x g;
            queued = raise_free x g high;
          })
          b)
  ]
    where
      g : IsBalanced x
      g = b i x at

  wait_B :
      (i e : ℕ) (x : Semaforo) (s : Suse (F env))
      → B s
      → get_elem? s.semaforos i ≡ some x
      → Ensures B B (
          (do
            put_sem i (record x { valor = x.valor -ℤ pos 1 })
            if ltb_ℤ (x.valor -ℤ pos 1) (pos 0) then block env i e else unlock_sem i)
            s)
  wait_B i e x s b at = elim (Bool-cases (ltb_ℤ (x.valor -ℤ pos 1) (pos 0))) [
    | inl low ↦
        rw low (block_B i e _ s g.positive (lower_limited x g) (lower_queued x g low) b x at)
    | inr high ↦ rw high (
        free_B i _ s
          (record {
            positive = g.positive;
            limited = lower_limited x g;
            queued = lower_free x g high;
          })
          b)
  ]
    where
      g : IsBalanced x
      g = b i x at

  pub suse_signal_B :
      (tid : ℕ) (name : List ℕ) (p : ℕ) → Keeps {F = F env} B B (suse_signal tid name p)
  unfolding suse_signal
  suse_signal_B tid name p = Keeps-bind (Keeps-exec_of r p) λ e. Keeps-bind (Keeps-tcb_at e) λ t.
      Keeps-if (t.tid == tid) _ _
        (Keeps-bind Keeps-get
          λ s. Keeps-bind (Keeps-need _) λ i. Keeps-bind (lock_B i) λ _. at_sem i _ (signal_B i))
        (Keeps-return tt)

  pub suse_wait_B : (tid : ℕ) (name : List ℕ) (p : ℕ) → Keeps B B (suse_wait env tid name p)
  unfolding suse_wait
  suse_wait_B tid name p = Keeps-bind (Keeps-exec_of r p) λ e. Keeps-bind (Keeps-tcb_at e) λ t.
      Keeps-if (t.tid == tid) _ _
        (Keeps-bind Keeps-get
          λ s. Keeps-bind (Keeps-need _) λ i. Keeps-bind (lock_B i) λ _. at_sem i _ (wait_B i e))
        (Keeps-return tt)
