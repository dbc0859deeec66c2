-- ===== src/Suse/Waking/Turn.antt =====
-- A turn of the loop of wakeup_threads.
use locomatch.Prelude.{
  ℕ, ◌+◌, ◌-◌, ◌≡◌, ◌≢◌, ◌⊎◌, inl, inr, refl, sym, ◌∙◌, subst, false, List, [], ◌∷◌, ◌++◌, Option,
  none, some, ◌==◌, eqb→eq, eqb→ne, Option-cases, Bool-cases,
}
use locomatch.Suse.State.{ready, blocked, Tcb, Program, Suse}
use locomatch.Suse.Monad.{M, ◌>>◌, put_program, wait_tcb_counter}
use locomatch.Suse.Timing.{Env, F}
use locomatch.Suse.Lookup.{at, find_program}
use locomatch.Suse.Moves.{move_tcb_to}
use locomatch.Suse.Waking.Listed.{IsIn, AreLive, IsLeft, SameSockets}

module _ (env : Env) (p : ℕ) where
  -- The thread is blocked, and in the blocked list.
  pub record IsWaiting (s : Suse (F env)) (socket q : ℕ) : Type 0 where
    pub thread : Tcb (F env)
    pub there : s.tcbs q ≡ some thread
    pub state : thread.state ≡ blocked
    pub own : thread.socket ≡ socket
    pub listed : IsIn q s.blocked_list

  abbrev pub Apart : Suse (F env) → ℕ → ℕ → Type 0
  Apart s q r = (t u : Tcb (F env)) → s.tcbs q ≡ some t → s.tcbs r ≡ some u → t.tid ≢ u.tid

  abbrev pub AreWaiting : Suse (F env) → ℕ → List ℕ → Type 0
  AreWaiting s socket [] = Unit {0}
  AreWaiting s socket (q ∷ qs) =
      IsWaiting s socket q × ((r : ℕ) → IsIn r qs → Apart s q r) × AreWaiting s socket qs

  -- What a turn for the threads `l` needs of the scheduler.
  pub record IsAwaking (s : Suse (F env)) (g : Program) (l : List ℕ) : Type 0 where
    pub free : s.state_list_mutex ≡ false
    pub program : s.programs p ≡ some g
    pub found : find_program s.programs s.clientes g.socket ≡ at p
    pub live : AreLive s.tcbs s.blocked_list
    pub waiting : AreWaiting s g.socket l

  -- The outcome of a turn for the thread `a`, with the program left as `w`.
  pub record IsWoken (s s' : Suse (F env)) (g : Program) (a : ℕ) (rest : List ℕ) : Type 0 where
    pub runs :
        (k : M (F env) (Unit {0}))
        → (put_program p g >> (move_tcb_to env a ready >> (wait_tcb_counter p >> k))) s ≡ k s'
    pub awaking :
        IsAwaking s'
          (record g { ready = g.ready ++ a ∷ []; tcb_counter = g.tcb_counter + 1 - 1 })
          rest
    pub thread : Tcb (F env)
    pub there : s'.tcbs a ≡ some thread
    pub state : thread.state ≡ ready
    pub others : (r : ℕ) → a ≢ r → s'.tcbs r ≡ s.tcbs r

  -- A thread that is apart from another is another.
  pub Apart-ne :
      (s : Suse (F env)) (a r : ℕ) (t : Tcb (F env)) → s.tcbs a ≡ some t → Apart s a r → a ≢ r
  Apart-ne s a r t e apart same = apart t t e (subst (λ (n : ℕ). s.tcbs n ≡ some t) same e) refl

  -- What a turn for `a` changes nothing of.
  module _ (s s' : Suse (F env)) (a : ℕ) (t : Tcb (F env)) (here : s.tcbs a ≡ some t)
      (others : (r : ℕ) → a ≢ r → s'.tcbs r ≡ s.tcbs r)
      (left : IsLeft s.tcbs s.blocked_list s'.blocked_list t) where
    IsWaiting-kept : (socket r : ℕ) → Apart s a r → IsWaiting s socket r → IsWaiting s' socket r
    IsWaiting-kept socket r apart x = record {
      thread = x.thread;
      there = others r (Apart-ne s a r t here apart) ∙ x.there;
      state = x.state;
      own = x.own;
      listed = left.kept r x.thread x.listed x.there λ e. apart t x.thread here x.there (sym e);
    }

    Apart-kept : (q r : ℕ) → a ≢ q → a ≢ r → Apart s q r → Apart s' q r
    Apart-kept q r ne ne' apart u v e e' =
        apart u v (sym (others q ne) ∙ e) (sym (others r ne') ∙ e')

    pub AreWaiting-kept :
        (socket : ℕ) (rest : List ℕ)
        → ((r : ℕ) → IsIn r rest → Apart s a r)
        → AreWaiting s socket rest
        → AreWaiting s' socket rest
    AreWaiting-kept socket [] apart h = tt
    AreWaiting-kept socket (q ∷ qs) apart h = (
      IsWaiting-kept socket q (apart q (inl refl)) h.0,
      λ r k.
          Apart-kept q r (Apart-ne s a q t here (apart q (inl refl)))
            (Apart-ne s a r t here (apart r (inr k))) (h.1 r k),
      AreWaiting-kept socket qs (λ r k. apart r (inr k)) h.2,
    )

  -- Programs that differ at `p` only, where the socket is the same.
  pub SameSockets-at :
      (programs programs' : ℕ → Option Program) (g g' : Program)
      → programs p ≡ some g
      → programs' p ≡ some g'
      → g.socket ≡ g'.socket
      → ((q : ℕ) → p ≢ q → programs' q ≡ programs q)
      → SameSockets programs programs'
  SameSockets-at programs programs' g g' e e' same rest q = elim (Bool-cases (p == q)) [
    | inl is ↦
        subst
          (λ (r : ℕ).
            ((programs r ≡ none) × (programs' r ≡ none))
            ⊎ ((x x' : Program) × (programs r ≡ some x)
                × (programs' r ≡ some x')
                × (x.socket ≡ x'.socket)))
          (eqb→eq p q is) (inr (g, g', e, e', same))
    | inr differ ↦ elim (Option-cases (programs q)) [
      | inl gone ↦ inl (gone, rest q (eqb→ne p q differ) ∙ gone)
      | inr (x, there) ↦ inr (x, x, there, rest q (eqb→ne p q differ) ∙ there, refl)
    ]
  ]
