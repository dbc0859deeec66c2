-- ===== src/Suse/Waking/Loop.antt =====
-- wakeup_threads as a whole.
use locomatch.Prelude.{
  ℕ, zero, suc, ◌+◌, ◌<◌, ◌≤◌, ◌≡◌, ◌≢◌, inl, inr, refl, sym, ap, ◌∙◌, List, [], ◌∷◌, ◌++◌, Option,
  none, some, arith, length, get_elem?, append_assoc, append-nil, length-append,
}
use locomatch.Suse.State.{ready, Tcb, Program, Suse}
use locomatch.Suse.Monad.{M, done, return, ◌>>◌, put_program, wait_tcb_counter}
use locomatch.Suse.Timing.{Env, F}
use locomatch.Suse.Moves.{list_remove, move_tcb_to}
use locomatch.Suse.Wakeup.{wakeup_from}
use locomatch.Suse.Removal.{list_remove-append}
use locomatch.Suse.Waking.Listed.{IsIn}
use locomatch.Suse.Waking.Turn.{Apart-ne, IsAwaking, IsWoken}
use locomatch.Suse.Waking.Step.{turn}

-- The first, third and so on, and the others.
abbrev pub firsts : List ℕ → List ℕ
firsts [] = []
firsts (a ∷ []) = a ∷ []
firsts (a ∷ b ∷ rest) = a ∷ firsts rest

abbrev pub seconds : List ℕ → List ℕ
seconds [] = []
seconds (a ∷ []) = []
seconds (a ∷ b ∷ rest) = b ∷ seconds rest

module _ (env : Env) (p : ℕ) where
  abbrev pub AreReady : (ℕ → Option (Tcb (F env))) → List ℕ → Type 0
  AreReady tcbs [] = Unit {0}
  AreReady tcbs (q ∷ qs) =
      ((t : Tcb (F env)) × (tcbs q ≡ some t) × (t.state ≡ ready)) × AreReady tcbs qs

  -- The loop from position `length front` on, where `rest` is on the list behind `front`.
  pub record IsLooped (s s' : Suse (F env)) (g : Program) (front rest : List ℕ) : Type 0 where
    pub program : Program
    pub here : s'.programs p ≡ some program
    pub queue : program.ready ≡ g.ready ++ firsts rest
    pub remaining : program.wakeup_list ≡ front ++ seconds rest
    pub counter : program.tcb_counter ≡ g.tcb_counter
    pub readies : AreReady s'.tcbs (firsts rest)
    pub others : (r : ℕ) → ((q : ℕ) → IsIn q (firsts rest) → q ≢ r) → s'.tcbs r ≡ s.tcbs r

get_elem?-beyond : (xs : List ℕ) (i : ℕ) → length xs ≤ i → get_elem? xs i ≡ none
get_elem?-beyond [] i h = refl
get_elem?-beyond (x ∷ xs) zero h = absurd (omega (arith, h))
get_elem?-beyond (x ∷ xs) (suc i) h = get_elem?-beyond xs i (omega (arith, h))

get_elem?-middle :
    (front back : List ℕ) (a : ℕ) → get_elem? (front ++ a ∷ back) (length front) ≡ some a
get_elem?-middle [] back a = refl
get_elem?-middle (x ∷ front) back a = get_elem?-middle front back a

module _ (env : Env) (p : ℕ) where
  -- A turn of the loop, by what is at its position.
  abbrev at_place : ℕ → ℕ → Program → Option ℕ → M (F env) (Unit {0})
  at_place fuel i g none = return tt
  at_place fuel i g (some tcb) =
      put_program p (record g { wakeup_list = list_remove g.wakeup_list i })
      >> (move_tcb_to env tcb ready >> (wait_tcb_counter p >> wakeup_from env fuel p (i + 1)))

  opens :
      (fuel i : ℕ) (s : Suse (F env)) (g : Program)
      → s.programs p ≡ some g
      → wakeup_from env (suc fuel) p i s ≡ at_place fuel i g (get_elem? g.wakeup_list i) s
  unfolding wakeup_from
  opens fuel i s g here = rw here refl

  stop :
      (fuel i : ℕ) (s : Suse (F env)) (g : Program)
      → s.programs p ≡ some g
      → length g.wakeup_list ≤ i
      → wakeup_from env (suc fuel) p i s ≡ done tt s
  stop fuel i s g here end =
      opens fuel i s g here
      ∙ ap (λ (o : Option ℕ). at_place fuel i g o s) (get_elem?-beyond g.wakeup_list i end)

  -- A turn that finds the thread `a`.
  step :
      (fuel : ℕ) (s s' : Suse (F env)) (g : Program) (front back rest : List ℕ) (a : ℕ)
      → s.programs p ≡ some g
      → g.wakeup_list ≡ front ++ a ∷ back
      → IsWoken env p s s' (record g { wakeup_list = front ++ back }) a rest
      → wakeup_from env (suc fuel) p (length front) s ≡ wakeup_from env fuel p (length front + 1) s'
  step fuel s s' g front back rest a here list w =
      opens fuel (length front) s g here
      ∙ ap (λ (o : Option ℕ). at_place fuel (length front) g o s)
          (ap (λ (l : List ℕ). get_elem? l (length front)) list ∙ get_elem?-middle front back a)
      ∙ ap (λ (l : List ℕ). (put_program p (record g { wakeup_list = l }) >> later) s)
          (ap (λ (l : List ℕ). list_remove l (length front)) list ∙ list_remove-append front back a)
      ∙ w.runs (wakeup_from env fuel p (length front + 1))
    where
      later : M (F env) (Unit {0})
      later =
          move_tcb_to env a ready
          >> (wait_tcb_counter p >> wakeup_from env fuel p (length front + 1))

  abbrev pub Outcome : ℕ → Suse (F env) → Program → List ℕ → List ℕ → Type 0
  Outcome fuel s g front rest =
      (s' : Suse (F env)) × (wakeup_from env fuel p (length front) s ≡ done tt s')
      × IsLooped env p s s' g front rest

  pub loop :
      (fuel : ℕ) (s : Suse (F env)) (g : Program) (front rest : List ℕ)
      → length rest < fuel
      → g.wakeup_list ≡ front ++ rest
      → IsAwaking env p s g (firsts rest)
      → Outcome fuel s g front rest
  loop zero s g front rest enough list h = absurd (omega (arith, enough))
  loop (suc fuel) s g front [] enough list h = (
    s,
    stop fuel (length front) s g h.program (rw (list, append-nil front) (omega arith)),
    record {
      program = g;
      here = h.program;
      queue = sym (append-nil g.ready);
      remaining = list;
      counter = refl;
      readies = tt;
      others = λ r differ. refl;
    },
  )
  loop (suc zero) s g front (a ∷ []) enough list h = absurd (omega (arith, enough))
  loop (suc (suc fuel)) s g front (a ∷ []) enough list h =
      let (s', w) = turn env p s g a [] (front ++ []) h in
      (
        s',
        step (suc fuel) s s' g front [] [] a h.program list w
            ∙ stop fuel (length front + 1) s' _ w.awaking.program
                (rw (append-nil front) (omega arith)),
        record {
          program = _;
          here = w.awaking.program;
          queue = refl;
          remaining = refl;
          counter = omega arith;
          readies = ((w.thread, w.there, w.state), tt);
          others = λ r differ. w.others r (differ a (inl refl));
        },
      )
  loop (suc fuel) s g front (a ∷ b ∷ rest) enough list h =
      let (s', w) = turn env p s g a (firsts rest) (front ++ b ∷ rest) h in
      let (s'', run, r) =
        loop fuel s' _ (front ++ b ∷ []) rest (omega (arith, enough))
          (sym (append_assoc front (b ∷ []) rest)) w.awaking in
      (
        s'',
        step fuel s s' g front (b ∷ rest) (firsts rest) a h.program list w
            ∙ ap (λ (n : ℕ). wakeup_from env fuel p n s') (sym (length-append front (b ∷ [])))
            ∙ run,
        record {
          program = r.program;
          here = r.here;
          queue = r.queue ∙ append_assoc g.ready (a ∷ []) (firsts rest);
          remaining = r.remaining ∙ append_assoc front (b ∷ []) (seconds rest);
          counter = omega (arith, r.counter);
          readies = (
            (
              w.thread,
              r.others a (λ q k e.
                    Apart-ne env p s a q h.waiting.0.thread h.waiting.0.there (h.waiting.1 q k)
                      (sym e))
                  ∙ w.there,
              w.state,
            ),
            r.readies,
          );
          others =
              λ n differ. r.others n (λ q k. differ q (inr k)) ∙ w.others n (differ a (inl refl));
        },
      )
