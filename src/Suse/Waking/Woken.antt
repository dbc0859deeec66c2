-- ===== src/Suse/Waking/Woken.antt =====
-- wakeup_threads as a whole.
use locomatch.Prelude.{
  ℕ, suc, ◌≡◌, ◌≢◌, refl, sym, ap, ◌∙◌, subst, Bool, true, false, List, [], ◌∷◌, ◌++◌, some, arith,
  eqb_refl, ne→eqb, length,
}
use locomatch.Suse.State.{Program, Suse, update}
use locomatch.Suse.Monad.{M, done, return, ◌>>◌}
use locomatch.Suse.Timing.{Env, F}
use locomatch.Suse.Wakeup.{wakeup_from, wakeup_threads, lock_wakeup, unlock_wakeup}
use locomatch.Suse.Waking.Listed.{IsIn, find_program-same}
use locomatch.Suse.Waking.Turn.{AreWaiting, IsAwaking, SameSockets-at}
use locomatch.Suse.Waking.Loop.{firsts, seconds, AreReady, IsLooped, loop}

module _ (env : Env) (p : ℕ) where
  pub record IsHalved (s s' : Suse (F env)) (g : Program) : Type 0 where
    pub program : Program
    pub here : s'.programs p ≡ some program
    pub queue : program.ready ≡ g.ready ++ firsts g.wakeup_list
    pub remaining : program.wakeup_list ≡ seconds g.wakeup_list
    pub counter : program.tcb_counter ≡ g.tcb_counter
    pub unlocked : program.wakeup_mutex ≡ false
    pub readies : AreReady env p s'.tcbs (firsts g.wakeup_list)
    pub others : (r : ℕ) → ((q : ℕ) → IsIn q (firsts g.wakeup_list) → q ≢ r) → s'.tcbs r ≡ s.tcbs r

  module _ (s : Suse (F env)) (g : Program) (unlocked : g.wakeup_mutex ≡ false) (a : ℕ)
      (as' : List ℕ) (list : g.wakeup_list ≡ a ∷ as')
      (h : IsAwaking env p s g (firsts (a ∷ as'))) where
    abbrev taken : Program
    taken = record g { wakeup_mutex = true }

    abbrev locked : Suse (F env)
    locked = record s { programs = update s.programs p taken }

    locks : lock_wakeup p s ≡ done tt locked
    unfolding lock_wakeup
    locks = rw h.program (rw unlocked refl)

    AreWaiting-locked :
        (l : List ℕ) → AreWaiting env p s g.socket l → AreWaiting env p locked g.socket l
    AreWaiting-locked [] w = tt
    AreWaiting-locked (q ∷ qs) w =
        let x = w.0 in
        (
          record {
            thread = x.thread;
            there = x.there;
            state = x.state;
            own = x.own;
            listed = x.listed;
          },
          w.1,
          AreWaiting-locked qs w.2,
        )

    awaking : IsAwaking env p locked taken (firsts (a ∷ as'))
    awaking = record {
      free = h.free;
      program = rw (eqb_refl p) refl;
      found =
          sym (
            find_program-same s.programs locked.programs s.clientes g.socket (
              SameSockets-at env p s.programs locked.programs g taken h.program
                (rw (eqb_refl p) refl) refl λ q differ. rw (ne→eqb p q differ) refl))
          ∙ h.found;
      live = h.live;
      waiting = AreWaiting-locked (firsts (a ∷ as')) h.waiting;
    }

    -- What wakeup_threads does behind lock_wakeup, by the list.
    abbrev by_list : List ℕ → M (F env) Bool
    by_list [] = unlock_wakeup p >> return false
    by_list (t ∷ ts) =
        wakeup_from env (suc (suc (length ts))) p 0 >> (unlock_wakeup p >> return true)

    opens : wakeup_threads env p s ≡ by_list g.wakeup_list locked
    unfolding wakeup_threads
    opens = rw (locks, eqb_refl p) refl

    halves :
        (s' : Suse (F env))
        → wakeup_from env (suc (suc (length as'))) p 0 locked ≡ done tt s'
        → IsLooped env p locked s' taken [] (a ∷ as')
        → (s'' : Suse (F env)) × (wakeup_threads env p s ≡ done true s'') × IsHalved s s'' g
    unfolding unlock_wakeup
    halves s' run r = (
      record s' { programs = update s'.programs p (record r.program { wakeup_mutex = false }) },
      opens ∙ ap (λ (l : List ℕ). by_list l locked) list ∙ rw (run, r.here) refl,
      record {
        program = record r.program { wakeup_mutex = false };
        here = rw (eqb_refl p) refl;
        queue = r.queue ∙ ap (λ (l : List ℕ). g.ready ++ firsts l) (sym list);
        remaining = r.remaining ∙ ap seconds (sym list);
        counter = r.counter;
        unlocked = refl;
        readies = subst (λ (l : List ℕ). AreReady env p s'.tcbs (firsts l)) (sym list) r.readies;
        others = λ n differ.
            r.others n (λ q k. differ q (subst (λ (l : List ℕ). IsIn q (firsts l)) (sym list) k));
      },
    )

  -- wakeup_threads ends and moves the first, third, fifth thread and so on of the wakeup list to
  -- ready, in their order and behind the ready threads there were; the second, fourth and so on stay
  -- on the list, no other thread is changed, and tcb_counter is as before. The wakeup list is not
  -- empty, its lock and the one of the scheduler's lists are free, the program is found by its
  -- socket, every pointer of the blocked list leads to a thread, and the first, third, fifth thread
  -- and so on are blocked, in the blocked list, of this program and with ids that differ.
  pub wakeup_threads-IsHalved :
      (s : Suse (F env)) (g : Program) (a : ℕ) (as' : List ℕ)
      → g.wakeup_mutex ≡ false
      → g.wakeup_list ≡ a ∷ as'
      → IsAwaking env p s g (firsts (a ∷ as'))
      → (s' : Suse (F env)) × (wakeup_threads env p s ≡ done true s') × IsHalved s s' g
  wakeup_threads-IsHalved s g a as' unlocked list h =
      let (s', run, r) =
        loop env p (suc (suc (length as'))) _ _ [] (a ∷ as') (omega arith) list
          (awaking s g unlocked a as' list h) in
      halves s g unlocked a as' list h s' run r
