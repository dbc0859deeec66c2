-- ===== src/Suse/Waking/Step.antt =====
-- A turn of the loop of wakeup_threads ends, and leaves what the next one needs.
use locomatch.Prelude.{
  ℕ, ◌+◌, ◌-◌, ◌≡◌, ◌⊎◌, inl, inr, refl, sym, ap, ◌∙◌, subst, true, false, List, [], ◌∷◌, ◌++◌,
  some, arith, ◌==◌, eqb_refl, ne→eqb, eqb→eq, eqb→ne, Bool-cases,
}
use locomatch.Suse.State.{ready, Tcb, Program, Suse, update}
use locomatch.Suse.Monad.{done}
use locomatch.Suse.Timing.{Env, F}
use locomatch.Suse.Lookup.{at, find_program}
use locomatch.Suse.Moves.{move_tcb_to}
use locomatch.Suse.Waking.Moved.{IsMoved, move_tcb_to-IsMoved}
use locomatch.Suse.Waking.Listed.{IsIn, IsLeft, remove_tcb-IsLeft, SameSockets, find_program-same}
use locomatch.Suse.Waking.Turn.{IsWaiting, IsAwaking, IsWoken, AreWaiting-kept, SameSockets-at}

module _ (env : Env) (p : ℕ) (s : Suse (F env)) (g : Program) (a : ℕ) (rest w : List ℕ)
    (h : IsAwaking env p s g (a ∷ rest)) where
  abbrev shortened : Program
  shortened = record g { wakeup_list = w }

  abbrev put : Suse (F env)
  put = record s { programs = update s.programs p shortened }

  x : IsWaiting env p s g.socket a
  x = h.waiting.0

  found_there : find_program put.programs s.clientes x.thread.socket ≡ at p
  found_there =
      ap (find_program put.programs s.clientes) x.own
      ∙ sym (
          find_program-same s.programs put.programs s.clientes g.socket (
            SameSockets-at env p s.programs put.programs g shortened h.program
              (rw (eqb_refl p) refl) refl λ q differ. rw (ne→eqb p q differ) refl))
      ∙ h.found

  -- Behind move_tcb_to, with the list `left` of blocked threads.
  woken :
      (left : List ℕ) (s' : Suse (F env))
      → move_tcb_to env a ready put ≡ done tt s'
      → IsLeft s.tcbs s.blocked_list left x.thread
      → IsMoved env a p shortened left x.thread put s'
      → (s'' : Suse (F env)) × IsWoken env p s s'' shortened a rest
  woken left s' run isLeft m = (
    record s' { programs = update s'.programs p finished },
    record {
      runs = λ k. rw (run, m.program, counted) refl;
      awaking = record {
        free = m.free;
        program = rw (eqb_refl p) refl;
        found =
            ap (λ (l : List ℕ). find_program (update s'.programs p finished) l g.socket) m.clientes
            ∙ sym (find_program-same s.programs _ s.clientes g.socket same_sockets)
            ∙ h.found;
        live = λ q k. by_thread q (subst (IsIn q) m.blocked_list k) (Bool-cases (a == q));
        waiting =
            AreWaiting-kept env p s (record s' { programs = update s'.programs p finished }) a
              x.thread x.there (λ r differ. m.others r differ)
              (subst (λ (l : List ℕ). IsLeft s.tcbs s.blocked_list l x.thread) (sym m.blocked_list)
                isLeft)
              g.socket rest h.waiting.1 h.waiting.2;
      };
      thread = m.moved;
      there = m.here;
      state = m.state;
      others = m.others;
    },
  )
    where
      finished : Program
      finished = record shortened { ready = g.ready ++ a ∷ []; tcb_counter = g.tcb_counter + 1 - 1 }

      counted : (g.tcb_counter + 1 == 0) ≡ false
      counted = ne→eqb (g.tcb_counter + 1) 0 (λ e. omega (arith, e))

      same_sockets : SameSockets s.programs (update s'.programs p finished)
      same_sockets =
          SameSockets-at env p s.programs (update s'.programs p finished) g finished h.program
            (rw (eqb_refl p) refl) refl
            λ q differ. rw (ne→eqb p q differ) (m.programs q differ ∙ rw (ne→eqb p q differ) refl)

      by_thread :
          (q : ℕ)
          → IsIn q left
          → ((a == q) ≡ true) ⊎ ((a == q) ≡ false)
          → (t : Tcb (F env)) × (s'.tcbs q ≡ some t)
      by_thread q k (inl e) =
          (m.moved, subst (λ (n : ℕ). s'.tcbs n ≡ some m.moved) (eqb→eq a q e) m.here)
      by_thread q k (inr e) =
          let (t, there) = h.live q (isLeft.within q k) in (t, m.others q (eqb→ne a q e) ∙ there)

  pub turn : (s' : Suse (F env)) × IsWoken env p s s' shortened a rest
  turn =
      let (left, listed, isLeft) =
        remove_tcb-IsLeft s.tcbs s.blocked_list a x.thread h.live x.listed x.there in
      let (s', run, m) =
        move_tcb_to-IsMoved env a p shortened left x.thread put h.free x.there x.state listed
          found_there (rw (eqb_refl p) refl) in
      woken left s' run isLeft m
