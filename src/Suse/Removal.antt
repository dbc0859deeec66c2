-- ===== src/Suse/Removal.antt =====
-- find_tcb_pos and list_remove together, as move_tcb_to uses them on its lists.
use locomatch.Prelude.{
  ℕ, suc, ◌+◌, ◌≡◌, ◌⊎◌, inl, inr, refl, ap, ◌∙◌, Bool, true, false, ◌&&◌, List, [], ◌∷◌, ◌++◌,
  Option, none, some, arith, ◌==◌, length, zero-add, Bool-cases,
}
use locomatch.Suse.State.{Tcb}
use locomatch.Suse.Lookup.{at, not_found, tcb_pos_from, find_tcb_pos}
use locomatch.Suse.Moves.{list_remove, remove_tcb}

pub list_remove-append :
    (xs ys : List ℕ) (q : ℕ) → list_remove (xs ++ q ∷ ys) (length xs) ≡ xs ++ ys
unfolding list_remove
list_remove-append [] ys q = refl
list_remove-append (x ∷ xs) ys q = ap (λ (l : List ℕ). x ∷ l) (list_remove-append xs ys q)

module _ {F : Type 0} (tcbs : ℕ → Option (Tcb F)) (tid socket : ℕ) where
  abbrev pub matches : Tcb F → Bool
  matches t = t.tid == tid && t.socket == socket

  -- Every pointer of the list leads to a thread.
  abbrev pub AllThere : List ℕ → Type 0
  AllThere [] = Unit {0}
  AllThere (p ∷ ps) = ((t : Tcb F) × (tcbs p ≡ some t)) × AllThere ps

  -- And none of these threads is the one.
  abbrev pub NoneMatches : List ℕ → Type 0
  NoneMatches [] = Unit {0}
  NoneMatches (p ∷ ps) = ((t : Tcb F) × (tcbs p ≡ some t) × (matches t ≡ false)) × NoneMatches ps

  -- The list in front of the thread, the thread, and the list behind it.
  pub record IsSplit (list front back : List ℕ) (pointer : ℕ) : Type 0 where
    pub joined : list ≡ front ++ pointer ∷ back
    pub thread : Tcb F
    pub there : tcbs pointer ≡ some thread
    pub match : matches thread ≡ true
    pub first : NoneMatches front

  abbrev Searched : ℕ → List ℕ → Type 0
  Searched i list =
      ((front : List ℕ) × (pointer : ℕ) × (back : List ℕ) × IsSplit list front back pointer
        × (tcb_pos_from tcbs i list tid socket ≡ at (i + length front)))
      ⊎ (NoneMatches list × (tcb_pos_from tcbs i list tid socket ≡ not_found))

  first_index : (i : ℕ) → at i ≡ at (i + 0)
  first_index i = ground arith

  next_index : (i k : ℕ) → at (i + 1 + k) ≡ at (i + suc k)
  next_index i k = ground arith

  tcb_pos_from-Searched : (i : ℕ) (list : List ℕ) → AllThere list → Searched i list
  unfolding tcb_pos_from
  tcb_pos_from-Searched i [] h = inr (tt, refl)
  tcb_pos_from-Searched i (p ∷ ps) ((t, there), h) = elim (Bool-cases (matches t)) [
    | inl hit ↦ inl (
      [],
      p,
      ps,
      record { joined = refl; thread = t; there = there; match = hit; first = tt },
      rw (tcb_pos_from, there, hit) (first_index i),
    )
    | inr miss ↦ elim (tcb_pos_from-Searched (i + 1) ps h) [
      | inl (front, q, back, s, e) ↦ inl (
        p ∷ front,
        q,
        back,
        record {
          joined = ap (λ (l : List ℕ). p ∷ l) s.joined;
          thread = s.thread;
          there = s.there;
          match = s.match;
          first = ((t, there, miss), s.first);
        },
        rw (tcb_pos_from, there, miss) (e ∙ next_index i (length front)),
      )
      | inr (none_here, e) ↦ inr (((t, there, miss), none_here), rw (tcb_pos_from, there, miss) e)
    ]
  ]

  remove_tcb-at :
      (list : List ℕ) (i : ℕ)
      → tcb_pos_from tcbs 0 list tid socket ≡ at i
      → remove_tcb tcbs list tid socket ≡ some (list_remove list i)
  unfolding remove_tcb find_tcb_pos
  remove_tcb-at list i e = rw (remove_tcb, e) refl

  -- move_tcb_to takes exactly the first thread with this id and socket out of a list and keeps the
  -- order of the others; it faults exactly where no thread of the list has them. Every pointer of
  -- the list leads to a thread.
  pub remove_tcb-first :
      (list : List ℕ)
      → AllThere list
      → ((front : List ℕ) × (pointer : ℕ) × (back : List ℕ) × IsSplit list front back pointer
          × (remove_tcb tcbs list tid socket ≡ some (front ++ back)))
        ⊎ (NoneMatches list × (remove_tcb tcbs list tid socket ≡ none))
  unfolding remove_tcb find_tcb_pos
  remove_tcb-first list h = elim (tcb_pos_from-Searched 0 list h) [
    | inl (front, q, back, s, e) ↦ inl (
      front,
      q,
      back,
      s,
      remove_tcb-at list (0 + length front) e
          ∙ ap (λ (k : ℕ). some (list_remove list k)) (zero-add (length front))
          ∙ ap (λ (l : List ℕ). some (list_remove l (length front))) s.joined
          ∙ ap (λ (l : List ℕ). some l) (list_remove-append front back q),
    )
    | inr (missing, e) ↦ inr (missing, rw (remove_tcb, e) refl)
  ]
