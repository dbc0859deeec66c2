-- ===== src/Suse/Metrics/Reads.antt =====
-- Steps that end, and change nothing but how often the clock was read.
use locomatch.Prelude.{
  ℕ, suc, ◌+◌, ◌*◌, true, length, length-append, arith, [], ◌∷◌, ◌≡◌, refl, sym, ap, ◌∙◌, subst,
  false, List, Option, some,
}
use locomatch.Suse.State.{Tcb, Program, Suse}
use locomatch.Suse.Monad
use locomatch.Suse.Monad.{
  M, Out, done, ◌>>=◌, ◌>>◌, return, get, need, tcb_at, program_at, lock_state_list,
  unlock_state_list,
}
use locomatch.Suse.Metrics.{Line, with_state_lists, for_each}
use locomatch.Suse.Timing.{Env, F, gettimeofday}

abbrev pub All : {A : Type 0} → (A → Type 0) → List A → Type 0
All P [] = Unit {0}
All P (a ∷ as') = P a × All P as'

abbrev pub total : {A : Type 0} → (A → ℕ) → List A → ℕ
total size [] = 0
total size (a ∷ as') = size a + total size as'

pub total_const : {A : Type 0} (n : ℕ) (l : List A) → total (λ _. n) l ≡ n * length l
total_const n [] = omega arith
total_const n (a ∷ as') = grind (arith, total_const n as')

module _ {F : Type 0} where
  abbrev pub at_tick : Suse F → ℕ → Suse F
  at_tick s n = record s { ticks = n }

  -- From any tick of `s`, with a result that `Q` holds of.
  pub record Ended {A : Type 0} (s : Suse F) (Q : A → Type 0) (o : Out F A) : Type 0 where
    pub value : A
    pub tick : ℕ
    pub ends : o ≡ done value (at_tick s tick)
    pub holds : Q value

  pub record Reads {A : Type 0} (s : Suse F) (Q : A → Type 0) (m : M F A) : Type 0 where
    pub run : (k : ℕ) → Ended s Q (m (at_tick s k))

module _ {F : Type 0} {s : Suse F} where
  pub Reads-bind :
      {A B : Type 0} {m : M F A} {f : A → M F B} {Q : A → Type 0} {R : B → Type 0}
      → Reads s Q m
      → ((a : A) → Q a → Reads s R (f a))
      → Reads s R (m >>= f)
  Reads-bind {f = f} h g = record {
    run = λ k.
        let first = h.run k in
        let second = (g first.value first.holds).run first.tick in
        record {
          value = second.value;
          tick = second.tick;
          ends = ap (λ o. Monad.bind o f) first.ends ∙ second.ends;
          holds = second.holds;
        };
  }

  pub Reads-return : {A : Type 0} {Q : A → Type 0} (a : A) → Q a → Reads s Q (return a)
  Reads-return a q = record { run = λ k. record { value = a; tick = k; ends = refl; holds = q } }

  pub Reads-need :
      {A : Type 0} {Q : A → Type 0} (o : Option A) (a : A) → o ≡ some a → Q a → Reads s Q (need o)
  Reads-need o a e q = record {
    run = λ k. record { value = a; tick = k; ends = rw e refl; holds = q };
  }

  pub Reads-tcb_at :
      {Q : Tcb F → Type 0} (p : ℕ) (t : Tcb F) → s.tcbs p ≡ some t → Q t → Reads s Q (tcb_at p)
  Reads-tcb_at p t e q = record {
    run = λ k. record { value = t; tick = k; ends = rw e refl; holds = q };
  }

  pub Reads-program_at :
      {Q : Program → Type 0} (p : ℕ) (g : Program)
      → s.programs p ≡ some g
      → Q g
      → Reads s Q (program_at p)
  Reads-program_at p g e q = record {
    run = λ k. record { value = g; tick = k; ends = rw e refl; holds = q };
  }

  -- The program is known.
  pub Reads-program_bind :
      {B : Type 0} {R : B → Type 0} {f : Program → M F B} (p : ℕ) (g : Program)
      → s.programs p ≡ some g
      → Reads s R (f g)
      → Reads s R (program_at p >>= f)
  Reads-program_bind p g e h = record {
    run = λ k.
        let r = h.run k in
        record { value = r.value; tick = r.tick; ends = rw e r.ends; holds = r.holds };
  }

  -- The value is known.
  pub Reads-known :
      {A B : Type 0} {R : B → Type 0} {m : M F A} (f : A → M F B) (v : A)
      → Reads s (λ a. a ≡ v) m
      → Reads s R (f v)
      → Reads s R (m >>= f)
  Reads-known {A} {R = R} f v h g =
      Reads-bind {f = f} h λ a e. subst (λ (b : A). Reads s R (f b)) (sym e) g

  pub Reads-get :
      {B : Type 0} {R : B → Type 0} (f : Suse F → M F B)
      → ((k : ℕ) → Reads s R (f (at_tick s k)))
      → Reads s R (get >>= f)
  Reads-get f h = record { run = λ k. (h k).run k }

  -- The lock of the state lists is free, and is given back.
  pub Reads-locked :
      {A : Type 0} {Q : A → Type 0} (m : M F A)
      → s.state_list_mutex ≡ false
      → Reads (record s { state_list_mutex = true }) Q m
      → Reads s Q (with_state_lists m)
  unfolding with_state_lists
  Reads-locked m free h = record {
    run = λ k.
        let r = h.run k in
        record { value = r.value; tick = r.tick; ends = rw (free, r.ends) refl; holds = r.holds };
  }

  pub Reads-weaken :
      {A : Type 0} {Q R : A → Type 0} {m : M F A}
      → Reads s Q m
      → ((a : A) → Q a → R a)
      → Reads s R m
  Reads-weaken h f = record {
    run = λ k.
        let r = h.run k in
        record { value = r.value; tick = r.tick; ends = r.ends; holds = f r.value r.holds };
  }

  -- A loop that writes as many lines as `size` says of each element.
  pub Reads-for_each :
      {A : Type 0} (f : A → M F (List (Line F))) (Good : A → Type 0) (size : A → ℕ)
      → ((a : A) → Good a → Reads s (λ lines. length lines ≡ size a) (f a))
      → (as' : List A) → All Good as'
      → Reads s (λ lines. length lines ≡ total size as') (for_each f as')
  unfolding for_each
  Reads-for_each f Good size h [] good = Reads-return [] refl
  Reads-for_each f Good size h (a ∷ as') good = Reads-bind (h a good.0) λ lines e.
      Reads-bind (Reads-for_each f Good size h as' good.1)
        λ rest e'. Reads-return _ (omega (arith, length-append lines rest, e, e'))

module _ (env : Env) {s : Suse (F env)} where
  pub Reads-clock : Reads s (λ _. Unit {0}) (gettimeofday env)
  unfolding gettimeofday
  Reads-clock = record {
    run = λ k. record { value = env.time_at k; tick = suc k; ends = refl; holds = tt };
  }
