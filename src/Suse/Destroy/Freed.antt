-- ===== src/Suse/Destroy/Freed.antt =====
-- destroy_program on a program with a thread that waits for a semaphore.
use locomatch.Prelude.{
  ℕ, ◌≡◌, ◌⊎◌, inl, inr, refl, List, Option, none, some, get_elem?, if◌then◌else◌, ◌==◌, arith,
  Bool, true, false, Bool-cases, get_elem?-some,
}
use locomatch.Protocol.Decimal.{Decimal}
use locomatch.Suse.State.{Tcb, Program, Semaforo, Suse}
use locomatch.Suse.Monad.{done, waits, lock_state_list}
use locomatch.Suse.Keeps.{Keeps, Ensures, Keeps-bind, Keeps-tcb_at}
use locomatch.Suse.Destroy.{
  erase, destroy_tcb, list_remove_and_destroy_all_tcb_from_program, remove_from_semaforos,
  destroy_new, destroy_own, destroy_blocked, destroy_exit, destroy_wakeup, leave_scheduler,
  destroy_program,
}
use locomatch.Suse.Destroy.Keeps.{
  Keeps-destroy_new, Keeps-destroy_own, Keeps-destroy_exit, Keeps-destroy_wakeup,
}
use locomatch.Suse.Destroy.Filter.{IsDistinct, list_remove_and_destroy_all_eq}
use locomatch.Suse.Destroy.Gone.{
  NeverEnds, NeverEnds-bind, remove_and_destroy-gone, live_or_fault, erase_all-mine,
}
use locomatch.Suse.Destroy.Loop.{faults_from}

-- The thread `q` is at position `k` of the blocked list and at `m` of the threads that are blocked
-- on semaphore `j`.
module _ {F : Type 0} (d : Decimal) (q : ℕ) (t : Tcb F) (l : List ℕ) (xs : List Semaforo)
    (k j m : ℕ) (x : Semaforo) (blocked_at : get_elem? l k ≡ some q)
    (waited_for : get_elem? xs j ≡ some x) (waits_at : get_elem? x.blocked m ≡ some q)
    (distinct : IsDistinct l) where
  -- Before the blocked list is gone through, and after it.
  record IsBefore (s : Suse F) : Type 0 where
    thread : (s.tcbs q ≡ none) ⊎ (s.tcbs q ≡ some t)
    list : s.blocked_list ≡ l
    sems : s.semaforos ≡ xs

  record IsGone (s : Suse F) : Type 0 where
    gone : s.tcbs q ≡ none
    sems : s.semaforos ≡ xs

  W : Suse F → Type 0
  W _ = Unit {0}

  erase-before :
      (heap : ℕ → Option (Tcb F)) (p : ℕ)
      → (heap q ≡ none) ⊎ (heap q ≡ some t)
      → (erase heap p q ≡ none) ⊎ (erase heap p q ≡ some t)
  erase-before heap p h = elim (Bool-cases (p == q)) [
    | inl same ↦ inl (rw same refl)
    | inr differ ↦ rw differ h
  ]

  Keeps-destroy_tcb-IsBefore : (p : ℕ) → Keeps IsBefore W (destroy_tcb p)
  unfolding destroy_tcb W
  Keeps-destroy_tcb-IsBefore p = Keeps-bind (Keeps-tcb_at p) λ _. record {
    run = λ s h. record { thread = erase-before s.tcbs p h.thread; list = h.list; sems = h.sems };
  }

  Keeps-destroy_tcb-IsGone : (p : ℕ) → Keeps IsGone W (destroy_tcb p)
  unfolding destroy_tcb W
  Keeps-destroy_tcb-IsGone p =
      Keeps-bind (Keeps-tcb_at p)
        λ _. record { run = λ s h. record { gone = ground (arith, h.gone); sems = h.sems } }

  pass :
      (socket : ℕ) (s : Suse F)
      → t.socket ≡ socket
      → IsBefore s
      → Ensures IsGone W (destroy_blocked d socket s)
  unfolding destroy_blocked W list_remove_and_destroy_all_tcb_from_program
  pass socket s own h = elim h.thread [
    | inl gone ↦
        rw (remove_and_destroy-gone d q s.blocked_list socket k s (rw h.list blocked_at) gone) tt
    | inr here ↦ elim (live_or_fault d q socket 0 s.blocked_list s) [
      | inr bad ↦ rw (list_remove_and_destroy_all_tcb_from_program, bad) tt
      | inl live ↦
          rw (list_remove_and_destroy_all_eq d s s.blocked_list socket live (rw h.list distinct))
            (record {
              gone =
                  erase_all-mine d q s.tcbs socket t s.blocked_list k (rw h.list blocked_at) here
                    own;
              sems = h.sems;
            })
    ]
  ]

  -- From the loop over the semaphores on.
  leaves_never : (socket : ℕ) (s : Suse F) → IsGone s → NeverEnds (leave_scheduler d socket s)
  unfolding leave_scheduler
  leaves_never socket s h =
      let there : get_elem? s.semaforos j ≡ some x = rw h.sems waited_for in
      NeverEnds-bind (λ _. ⊥) (remove_from_semaforos d socket 0 s.semaforos s) _
        (faults_from d q j m x waits_at socket 0 s.semaforos s (omega arith)
          (omega (arith, get_elem?-some s.semaforos j x there))
          (record { gone = h.gone; sem = there }))
        λ _ s' h'. absurd h'

  Keeps-lock-IsBefore : Keeps IsBefore W lock_state_list
  unfolding W
  Keeps-lock-IsBefore = record { run = λ s h. by_mutex s h s.state_list_mutex }
    where
      by_mutex :
          (s : Suse F)
          → IsBefore s
          → (b : Bool)
          → Ensures IsBefore W
              (if b then waits s else done tt (record s { state_list_mutex = true }))
      by_mutex s h true = tt
      by_mutex s h false = record { thread = h.thread; list = h.list; sems = h.sems }

  Keeps-destroy_new-IsBefore : (socket : ℕ) → Keeps IsBefore W (destroy_new d socket)
  Keeps-destroy_new-IsBefore socket =
      Keeps-destroy_new Keeps-destroy_tcb-IsBefore d socket
        λ _. record { run = λ s h. record { thread = h.thread; list = h.list; sems = h.sems } }

  Keeps-destroy_own-IsBefore : (p : ℕ) → Keeps IsBefore W (destroy_own d p)
  Keeps-destroy_own-IsBefore p =
      Keeps-destroy_own Keeps-destroy_tcb-IsBefore d
        (λ p g. record { run = λ s h. record { thread = h.thread; list = h.list; sems = h.sems } })
        p

  Keeps-destroy_exit-IsGone : (socket : ℕ) → Keeps IsGone W (destroy_exit d socket)
  Keeps-destroy_exit-IsGone socket =
      Keeps-destroy_exit Keeps-destroy_tcb-IsGone d socket
        λ _. record { run = λ s h. record { gone = h.gone; sems = h.sems } }

  Keeps-destroy_wakeup-IsGone : (p : ℕ) → Keeps IsGone W (destroy_wakeup d p)
  Keeps-destroy_wakeup-IsGone p =
      Keeps-destroy_wakeup Keeps-destroy_tcb-IsGone d
        (λ p g. record { run = λ s h. record { gone = h.gone; sems = h.sems } }) p

  never_ends :
      (p : ℕ) (s : Suse F) (g : Program)
      → s.programs p ≡ some g
      → t.socket ≡ g.socket
      → IsBefore s
      → NeverEnds (destroy_program d p s)
  unfolding destroy_program W
  never_ends p s g here own h = rw here (
      NeverEnds-bind IsBefore _ _
        (Keeps-lock-IsBefore.run _ (record { thread = h.thread; list = h.list; sems = h.sems }))
        λ _ s₁ h₁.
          NeverEnds-bind IsBefore _ _ ((Keeps-destroy_new-IsBefore g.socket).run s₁ h₁) λ _ s₂ h₂.
            NeverEnds-bind IsBefore _ _ ((Keeps-destroy_own-IsBefore p).run s₂ h₂) λ _ s₃ h₃.
              NeverEnds-bind IsGone _ _ (pass g.socket s₃ own h₃) λ _ s₄ h₄.
                NeverEnds-bind IsGone _ _ ((Keeps-destroy_exit-IsGone g.socket).run s₄ h₄)
                  λ _ s₅ h₅.
                    NeverEnds-bind IsGone _ _ ((Keeps-destroy_wakeup-IsGone p).run s₅ h₅)
                      λ _ s₆ h₆. leaves_never g.socket s₆ h₆)

-- destroy_program never ends for a program with a thread that is blocked on a semaphore: it reads
-- the thread that it has freed with the blocked list, or waits for a mutex. No pointer is in the
-- blocked list twice.
pub destroy_program-NeverEnds :
    {F : Type 0} (d : Decimal) (s : Suse F) (p q : ℕ) (g : Program) (t : Tcb F) (k j m : ℕ)
    (x : Semaforo)
    → s.programs p ≡ some g
    → s.tcbs q ≡ some t
    → t.socket ≡ g.socket
    → get_elem? s.blocked_list k ≡ some q
    → get_elem? s.semaforos j ≡ some x
    → get_elem? x.blocked m ≡ some q
    → IsDistinct s.blocked_list
    → NeverEnds (destroy_program d p s)
destroy_program-NeverEnds d s p q g t k j m x here there own in_list sem in_sem distinct =
    never_ends d q t s.blocked_list s.semaforos k j m x in_list sem in_sem distinct p s g here own
      (record { thread = inr there; list = refl; sems = refl })
