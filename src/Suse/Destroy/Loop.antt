-- ===== src/Suse/Destroy/Loop.antt =====
-- The loop of destroy_program over the semaphores, where a thread that is freed waits for one.
use locomatch.Prelude.{
  ℕ, ◌+◌, ◌≤◌, ◌<◌, ◌≡◌, ◌≢◌, inl, inr, refl, sym, ◌∙◌, List, [], ◌∷◌, none, some, length,
  get_elem?, set, ◌==◌, arith, eqb→eq, eqb→ne, subst, Bool, true, false, Bool-cases,
  get_elem?-set_ne, get_elem?-set_there,
}
use locomatch.Protocol.Decimal.{Decimal}
use locomatch.Suse.State.{Semaforo, Suse}
use locomatch.Suse.Semaphores.{put_sem, lock_sem, sem_at, unlock_sem}
use locomatch.Suse.Keeps.{Keeps, Keeps-bind, Keeps-need, Keeps-tcb_at, Keeps-if}
use locomatch.Suse.Destroy.{destroy_tcb, remove_from_semaforos}
use locomatch.Suse.Destroy.Keeps.{Keeps-remove_and_destroy}
use locomatch.Suse.Destroy.Gone.{NeverEnds, NeverEnds-bind, remove_and_destroy-gone}

-- The thread `q` is at position `m` of those that are blocked on semaphore `j`.
module _ {F : Type 0} (d : Decimal) (q j m : ℕ) (x : Semaforo)
    (waits_at : get_elem? x.blocked m ≡ some q) where
  W : Suse F → Type 0
  W _ = Unit {0}

  pub record IsAhead (s : Suse F) : Type 0 where
    pub gone : s.tcbs q ≡ none
    pub sem : get_elem? s.semaforos j ≡ some x

  Keeps-destroy_tcb-IsAhead : (p : ℕ) → Keeps IsAhead W (destroy_tcb p)
  unfolding destroy_tcb W
  Keeps-destroy_tcb-IsAhead p =
      Keeps-bind (Keeps-tcb_at p)
        λ _. record { run = λ s h. record { gone = ground (arith, h.gone); sem = h.sem } }

  Keeps-put_sem-IsAhead : (i : ℕ) (y : Semaforo) → i ≢ j → Keeps IsAhead W (put_sem i y)
  Keeps-put_sem-IsAhead i y differ = record {
    run = λ s h. record { gone = h.gone; sem = get_elem?-set_ne s.semaforos i j y differ ∙ h.sem };
  }

  Keeps-sem_at-IsAhead : (i : ℕ) → Keeps IsAhead W (sem_at i)
  Keeps-sem_at-IsAhead i = record { run = λ s h. (Keeps-need (get_elem? s.semaforos i)).run s h }

  Keeps-lock_sem-IsAhead : (i : ℕ) → i ≢ j → Keeps IsAhead W (lock_sem i)
  unfolding lock_sem W
  Keeps-lock_sem-IsAhead i differ =
      Keeps-bind (Keeps-sem_at-IsAhead i) λ y.
        Keeps-if y.sem_mutex _ _ (record { run = λ s h. tt }) (Keeps-put_sem-IsAhead i _ differ)

  Keeps-unlock_sem-IsAhead : (i : ℕ) → i ≢ j → Keeps IsAhead W (unlock_sem i)
  unfolding unlock_sem
  Keeps-unlock_sem-IsAhead i differ =
      Keeps-bind (Keeps-sem_at-IsAhead i) λ y. Keeps-put_sem-IsAhead i _ differ

  -- The turn of the loop at the thread's semaphore.
  faults_there :
      (socket : ℕ) (ys : List Semaforo) (y : Semaforo) (s : Suse F)
      → IsAhead s
      → NeverEnds (remove_from_semaforos d socket j (y ∷ ys) s)
  unfolding remove_from_semaforos lock_sem
  faults_there socket ys y s h = by_mutex x.sem_mutex refl
    where
      by_mutex :
          (b : Bool) → x.sem_mutex ≡ b → NeverEnds (remove_from_semaforos d socket j (y ∷ ys) s)
      by_mutex true e = rw (h.sem, e) tt
      by_mutex false e =
          rw
            (
              h.sem,
              e,
              get_elem?-set_there s.semaforos j x (record x { sem_mutex = true }) h.sem,
              remove_and_destroy-gone d q x.blocked socket m
                  (record s { semaforos = set s.semaforos j (record x { sem_mutex = true }) })
                  waits_at h.gone,
            )
            tt

  -- The semaphore of the thread is reached.
  pub faults_from :
      (socket i : ℕ) (ys : List Semaforo) (s : Suse F)
      → i ≤ j
      → j < i + length ys
      → IsAhead s
      → NeverEnds (remove_from_semaforos d socket i ys s)
  unfolding remove_from_semaforos W
  faults_from socket i [] s low high h = absurd (omega (arith, low, high))
  faults_from socket i (y ∷ ys) s low high h = elim (Bool-cases (i == j)) [
    | inl e ↦
        subst (λ (n : ℕ). NeverEnds (remove_from_semaforos d socket n (y ∷ ys) s))
          (sym (eqb→eq i j e)) (faults_there socket ys y s h)
    | inr e ↦
        let differ : i ≢ j = eqb→ne i j e in
        NeverEnds-bind IsAhead _ _ ((Keeps-lock_sem-IsAhead i differ).run s h) λ _ s₁ h₁.
          NeverEnds-bind IsAhead _ _ ((Keeps-sem_at-IsAhead i).run s₁ h₁) λ sem s₂ h₂.
            NeverEnds-bind IsAhead _ _
              ((Keeps-remove_and_destroy Keeps-destroy_tcb-IsAhead d sem.blocked socket).run s₂ h₂)
              λ left s₃ h₃.
                NeverEnds-bind IsAhead _ _
                  ((Keeps-unlock_sem-IsAhead i differ).run _
                    ((Keeps-put_sem-IsAhead i (record sem { blocked = left }) differ).run s₃ h₃))
                  λ _ s₄ h₄.
                    faults_from socket (i + 1) ys s₄ (omega (arith, low, differ))
                      (omega (arith, high)) h₄
  ]
