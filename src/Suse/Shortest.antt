-- ===== src/Suse/Shortest.antt =====
-- The choice of schedule_next_for: the shortest estimate, the first of those that share it.
use locomatch.Prelude.{
  ℕ, zero, suc, ◌+◌, ◌<◌, ◌≡◌, ◌≢◌, ◌⊎◌, inl, inr, refl, sym, true, false, List, [], ◌∷◌, Option,
  some, arith, get_elem?, Bool-cases,
}
use locomatch.Suse.State.{Tcb}
use locomatch.Suse.Timing.{Env, F, get_estimate}
use locomatch.Suse.Schedule.{best_from}

module _ (env : Env) (tcbs : ℕ → Option (Tcb (F env))) where
  open env use {floats}
  open env.floats use {lt, lt_irrefl, lt_trans}

  abbrev estimate : Tcb (F env) → F env
  estimate t = get_estimate env t.time

  -- Every pointer of the list leads to a thread.
  abbrev pub AllThere : List ℕ → Type 0
  AllThere ps = (j q : ℕ) → get_elem? ps j ≡ some q → (t : Tcb (F env)) × (tcbs q ≡ some t)

  -- No thread of the list has an estimate below `b`.
  abbrev pub NoneShorter : List ℕ → F env → Type 0
  NoneShorter ps b =
      (j q : ℕ) (t : Tcb (F env))
      → get_elem? ps j ≡ some q
      → tcbs q ≡ some t
      → lt (estimate t) b ≡ false

  -- The thread at `k` is the first of the list with the estimate `b'`, which beats `b`.
  pub record FirstWith (ps : List ℕ) (b b' : F env) (k : ℕ) : Type 0 where
    pub pointer : ℕ
    pub thread : Tcb (F env)
    pub listed : get_elem? ps k ≡ some pointer
    pub there : tcbs pointer ≡ some thread
    pub shortest : estimate thread ≡ b'
    pub beats : lt b' b ≡ true
    pub first :
        (j q : ℕ) (t : Tcb (F env))
        → j < k
        → get_elem? ps j ≡ some q
        → tcbs q ≡ some t
        → estimate t ≢ b'

  abbrev pub Choice : ℕ → List ℕ → F env → Option ℕ → F env → Option ℕ → Type 0
  Choice i ps b pos b' pos' =
      ((b' ≡ b) × (pos' ≡ pos)) ⊎ ((k : ℕ) × (pos' ≡ some (i + k)) × FirstWith ps b b' k)

  -- The outcome of the loop from index `i` on.
  pub record IsShortest (i : ℕ) (ps : List ℕ) (b : F env) (pos : Option ℕ) (b' : F env)
      (pos' : Option ℕ) : Type 0 where
    pub result : best_from env tcbs i ps b pos ≡ some (b', pos')
    pub none_shorter : NoneShorter ps b'
    pub chosen : Choice i ps b pos b' pos'

  -- What beats a bound that `e` does not reach is not `e`, and `e` is not below it.
  lt_kept : (e b b' : F env) → lt e b ≡ false → lt b' b ≡ true → lt e b' ≡ false
  lt_kept e b b' miss beats = elim (Bool-cases (lt e b')) [
    | inr fails ↦ fails
    | inl below ↦ let hit = lt_trans e b' b below beats in cc
  ]

  lt_asym : (a b : F env) → lt a b ≡ true → lt b a ≡ false
  lt_asym a b h = elim (Bool-cases (lt b a)) [
    | inr fails ↦ fails
    | inl below ↦ let hit = lt_trans a b a h below in let never = lt_irrefl a in cc
  ]

  -- A thread at the head of the list.
  NoneShorter-cons :
      (p : ℕ) (ps : List ℕ) (t : Tcb (F env)) (b : F env)
      → tcbs p ≡ some t
      → lt (estimate t) b ≡ false
      → NoneShorter ps b
      → NoneShorter (p ∷ ps) b
  NoneShorter-cons p ps t b at head tail zero q t' listed there =
      let same : t ≡ t' = cc in rw (sym same) head
  NoneShorter-cons p ps t b at head tail (suc j) q t' listed there = tail j q t' listed there

  FirstWith-cons :
      (p : ℕ) (ps : List ℕ) (t : Tcb (F env)) (b c b' : F env) (k : ℕ)
      → tcbs p ≡ some t
      → estimate t ≢ b'
      → lt b' c ≡ true
      → FirstWith ps b b' k
      → FirstWith (p ∷ ps) c b' (suc k)
  FirstWith-cons p ps t b c b' k at other beats f = record {
    pointer = f.pointer;
    thread = f.thread;
    listed = f.listed;
    there = f.there;
    shortest = f.shortest;
    beats = beats;
    first = before;
  }
    where
      before :
          (j q : ℕ) (t' : Tcb (F env))
          → j < suc k
          → get_elem? (p ∷ ps) j ≡ some q
          → tcbs q ≡ some t'
          → estimate t' ≢ b'
      before zero q t' below listed there = let same : t ≡ t' = cc in rw (sym same) other
      before (suc j) q t' below listed there = f.first j q t' (omega arith) listed there

  first_index : (i : ℕ) (pos' : Option ℕ) → pos' ≡ some i → pos' ≡ some (i + 0)
  first_index i pos' e = ground arith

  next_index : (i k : ℕ) (pos' : Option ℕ) → pos' ≡ some (i + 1 + k) → pos' ≡ some (i + suc k)
  next_index i k pos' e = ground arith

  IsShortest-hit :
      (i p : ℕ) (ps : List ℕ) (b : F env) (pos : Option ℕ) (t : Tcb (F env))
      → tcbs p ≡ some t
      → lt (estimate t) b ≡ true
      → (b' : F env) (pos' : Option ℕ) → IsShortest (i + 1) ps (estimate t) (some i) b' pos'
      → IsShortest i (p ∷ ps) b pos b' pos'
  unfolding best_from
  IsShortest-hit i p ps b pos t at hit b' pos' r = record {
    result = rw (best_from, at, hit) r.result;
    none_shorter = NoneShorter-cons p ps t b' at (head r.chosen) r.none_shorter;
    chosen = inr (choice r.chosen);
  }
    where
      head : Choice (i + 1) ps (estimate t) (some i) b' pos' → lt (estimate t) b' ≡ false
      head (inl (e, at')) = rw e (lt_irrefl (estimate t))
      head (inr (k, e, f)) = lt_asym b' (estimate t) f.beats

      choice :
          Choice (i + 1) ps (estimate t) (some i) b' pos'
          → (k : ℕ) × (pos' ≡ some (i + k)) × FirstWith (p ∷ ps) b b' k
      choice (inl (e, at')) = (
        0,
        first_index i pos' at',
        record {
          pointer = p;
          thread = t;
          listed = refl;
          there = at;
          shortest = sym e;
          beats = rw e hit;
          first = λ j q t' below. absurd (omega arith);
        },
      )
      choice (inr (k, e, f)) = (
        suc k,
        next_index i k pos' e,
        FirstWith-cons p ps t (estimate t) b b' k at
            (λ same. let never = lt_irrefl b' in let beats = f.beats in cc)
            (lt_trans b' (estimate t) b f.beats hit) f,
      )

  IsShortest-miss :
      (i p : ℕ) (ps : List ℕ) (b : F env) (pos : Option ℕ) (t : Tcb (F env))
      → tcbs p ≡ some t
      → lt (estimate t) b ≡ false
      → (b' : F env) (pos' : Option ℕ) → IsShortest (i + 1) ps b pos b' pos'
      → IsShortest i (p ∷ ps) b pos b' pos'
  unfolding best_from
  IsShortest-miss i p ps b pos t at miss b' pos' r = record {
    result = rw (best_from, at, miss) r.result;
    none_shorter = NoneShorter-cons p ps t b' at (head r.chosen) r.none_shorter;
    chosen = choice r.chosen;
  }
    where
      head : Choice (i + 1) ps b pos b' pos' → lt (estimate t) b' ≡ false
      head (inl (e, at')) = rw e miss
      head (inr (k, e, f)) = lt_kept (estimate t) b b' miss f.beats

      choice : Choice (i + 1) ps b pos b' pos' → Choice i (p ∷ ps) b pos b' pos'
      choice (inl same) = inl same
      choice (inr (k, e, f)) = inr (
        suc k,
        next_index i k pos' e,
        FirstWith-cons p ps t b b b' k at (λ same. let beats = f.beats in cc) f.beats f,
      )

  -- The loop of schedule_next_for ends with a best estimate that no ready thread beats, if every
  -- pointer of the ready list leads to a thread. Either it is the estimate to beat and no position
  -- was chosen, or it beats that one and the chosen position is the first in the list with it.
  pub best_from-IsShortest :
      (i : ℕ) (ps : List ℕ) (b : F env) (pos : Option ℕ)
      → AllThere ps
      → (b' : F env) × (pos' : Option ℕ) × IsShortest i ps b pos b' pos'
  unfolding best_from
  best_from-IsShortest i [] b pos h =
      (b, pos, record { result = refl; none_shorter = λ j q t e. cc; chosen = inl (refl, refl) })
  best_from-IsShortest i (p ∷ ps) b pos h =
      let (t, at) = h 0 p refl in
      elim (Bool-cases (lt (estimate t) b)) [
        | inl hit ↦
            let (b', pos', r) =
              best_from-IsShortest (i + 1) ps (estimate t) (some i) (λ j. h (suc j)) in
            (b', pos', IsShortest-hit i p ps b pos t at hit b' pos' r)
        | inr miss ↦
            let (b', pos', r) = best_from-IsShortest (i + 1) ps b pos (λ j. h (suc j)) in
            (b', pos', IsShortest-miss i p ps b pos t at miss b' pos' r)
      ]
