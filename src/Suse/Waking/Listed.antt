-- ===== src/Suse/Waking/Listed.antt =====
-- The lists and the programs that a thread is found in, as they change around it.
use locomatch.Prelude.{
  ℕ, ◌≡◌, ◌≢◌, ◌⊎◌, inl, inr, refl, sym, ap, ◌∙◌, subst, true, false, List, [], ◌∷◌, ◌++◌, Option,
  none, some, eqb_refl, arith,
}
use locomatch.Suse.State.{Tcb, Program}
use locomatch.Suse.Lookup.{find_program}
use locomatch.Suse.Moves.{remove_tcb}
use locomatch.Suse.Removal.{AllThere, NoneMatches, matches, remove_tcb-first}

abbrev pub IsIn : ℕ → List ℕ → Type 0
IsIn q [] = ⊥
IsIn q (x ∷ xs) = (x ≡ q) ⊎ IsIn q xs

IsIn-front : (q : ℕ) (xs ys : List ℕ) → IsIn q xs → IsIn q (xs ++ ys)
IsIn-front q [] ys h = absurd h
IsIn-front q (x ∷ xs) ys (inl e) = inl e
IsIn-front q (x ∷ xs) ys (inr h) = inr (IsIn-front q xs ys h)

IsIn-back : (q : ℕ) (xs ys : List ℕ) → IsIn q ys → IsIn q (xs ++ ys)
IsIn-back q [] ys h = h
IsIn-back q (x ∷ xs) ys h = inr (IsIn-back q xs ys h)

IsIn-split : (q : ℕ) (xs ys : List ℕ) → IsIn q (xs ++ ys) → IsIn q xs ⊎ IsIn q ys
IsIn-split q [] ys h = inr h
IsIn-split q (x ∷ xs) ys (inl e) = inl (inl e)
IsIn-split q (x ∷ xs) ys (inr h) = elim (IsIn-split q xs ys h) [
  | inl k ↦ inl (inr k)
  | inr k ↦ inr k
]

-- What is in a list around a place is in it with the place, and back if it is not what stands there.
IsIn-widen : (q x : ℕ) (xs ys : List ℕ) → IsIn q (xs ++ ys) → IsIn q (xs ++ x ∷ ys)
IsIn-widen q x xs ys h = elim (IsIn-split q xs ys h) [
  | inl k ↦ IsIn-front q xs (x ∷ ys) k
  | inr k ↦ IsIn-back q xs (x ∷ ys) (inr k)
]

IsIn-narrow : (q x : ℕ) (xs ys : List ℕ) → x ≢ q → IsIn q (xs ++ x ∷ ys) → IsIn q (xs ++ ys)
IsIn-narrow q x xs ys differ h = elim (IsIn-split q xs (x ∷ ys) h) [
  | inl k ↦ IsIn-front q xs ys k
  | inr (inl e) ↦ absurd (differ e)
  | inr (inr k) ↦ IsIn-back q xs ys k
]

module _ {F : Type 0} (tcbs : ℕ → Option (Tcb F)) where
  abbrev pub AreLive : List ℕ → Type 0
  AreLive l = (q : ℕ) → IsIn q l → (t : Tcb F) × (tcbs q ≡ some t)

  AreLive-AllThere : (tid socket : ℕ) (l : List ℕ) → AreLive l → AllThere tcbs tid socket l
  AreLive-AllThere tid socket [] h = tt
  AreLive-AllThere tid socket (p ∷ ps) h =
      (h p (inl refl), AreLive-AllThere tid socket ps (λ q k. h q (inr k)))

  -- A thread that matches contradicts a list in which none does.
  NoneMatches-IsIn :
      (tid socket : ℕ) (l : List ℕ) (q : ℕ) (t : Tcb F)
      → NoneMatches tcbs tid socket l
      → IsIn q l
      → tcbs q ≡ some t
      → matches tcbs tid socket t ≡ false
  NoneMatches-IsIn tid socket [] q t h k e = absurd k
  NoneMatches-IsIn tid socket (p ∷ ps) q t h (inl same) e =
      let here : tcbs q ≡ some h.0.0 = subst (λ (r : ℕ). tcbs r ≡ some h.0.0) same h.0.1 in
      let one : h.0.0 ≡ t = cc in subst (λ (u : Tcb F). matches tcbs tid socket u ≡ false) one h.0.2
  NoneMatches-IsIn tid socket (p ∷ ps) q t h (inr k) e = NoneMatches-IsIn tid socket ps q t h.1 k e

  contradicts : (t : Tcb F) → matches tcbs t.tid t.socket t ≡ false → ⊥
  contradicts t e =
      let hit : matches tcbs t.tid t.socket t ≡ true =
        rw (eqb_refl t.tid, eqb_refl t.socket) refl in
      cc

  matched :
      (r q : ℕ) (t u v : Tcb F)
      → q ≡ r
      → tcbs q ≡ some v
      → tcbs r ≡ some u
      → matches tcbs t.tid t.socket v ≡ true
      → u.tid ≡ t.tid
  matched r q t u v same e e' hit =
      let there : tcbs r ≡ some v = subst (λ (n : ℕ). tcbs n ≡ some v) same e in
      let one : v ≡ u = cc in
      let tids : v.tid ≡ t.tid = ground (arith, hit) in sym (ap (λ (w : Tcb F). w.tid) one) ∙ tids

  -- What remove_tcb leaves of a list with a thread.
  pub record IsLeft (l left : List ℕ) (t : Tcb F) : Type 0 where
    pub within : (q : ℕ) → IsIn q left → IsIn q l
    pub kept : (q : ℕ) (u : Tcb F) → IsIn q l → tcbs q ≡ some u → u.tid ≢ t.tid → IsIn q left

  pub remove_tcb-IsLeft :
      (l : List ℕ) (a : ℕ) (t : Tcb F)
      → AreLive l
      → IsIn a l
      → tcbs a ≡ some t
      → (left : List ℕ) × (remove_tcb tcbs l t.tid t.socket ≡ some left) × IsLeft l left t
  remove_tcb-IsLeft l a t live there here =
      elim (remove_tcb-first tcbs t.tid t.socket l (AreLive-AllThere t.tid t.socket l live)) [
        | inr (none_here, e) ↦
            absurd (contradicts t (NoneMatches-IsIn t.tid t.socket l a t none_here there here))
        | inl (front, q, back, split, e) ↦ (
          front ++ back,
          e,
          record {
            within = λ r k. subst (IsIn r) (sym split.joined) (IsIn-widen r q front back k);
            kept = λ r u k e' differ.
                IsIn-narrow r q front back
                  (λ same. differ (matched r q t u split.thread same split.there e' split.match))
                  (subst (IsIn r) split.joined k);
          },
        )
      ]

module _ (programs programs' : ℕ → Option Program) where
  abbrev pub SameSockets : Type 0
  SameSockets =
      (q : ℕ)
      → ((programs q ≡ none) × (programs' q ≡ none))
        ⊎ ((g g' : Program) × (programs q ≡ some g)
            × (programs' q ≡ some g')
            × (g.socket ≡ g'.socket))

  pub find_program-same :
      (clientes : List ℕ) (socket : ℕ)
      → SameSockets
      → find_program programs clientes socket ≡ find_program programs' clientes socket
  unfolding find_program
  find_program-same [] socket h = refl
  find_program-same (p ∷ ps) socket h = elim (h p) [
    | inl (e, e') ↦ rw (find_program, e, e') refl
    | inr (g, g', e, e', same) ↦ rw (find_program, e, e', same, find_program-same ps socket h) refl
  ]
