-- ===== src/Suse/Destroy/Filter.antt =====
-- list_remove_and_destroy_all_tcb_from_program as a filter.
use locomatch.Prelude.{
  ℕ, ◌+◌, ◌≡◌, ◌≢◌, refl, sym, ◌∙◌, List, [], ◌∷◌, ◌++◌, Option, none, some, length, get_elem?,
  if◌then◌else◌, ◌==◌, append_assoc, ne→eqb, subst, Bool, true, false, length-append,
}
use locomatch.Protocol.Decimal.{Decimal}
use locomatch.Suse.State.{Tcb, Suse}
use locomatch.Suse.Monad.{done}
use locomatch.Suse.Removal.{list_remove-append}
use locomatch.Suse.Destroy.{
  erase, destroy_tcb, positions_of, remove_from_back, list_remove_and_destroy_all_tcb_from_program,
}

module _ {F : Type 0} where
  -- The threads of a list that are not of the program on the socket, and those that are.
  abbrev pub others : (ℕ → Option (Tcb F)) → ℕ → List ℕ → List ℕ
  others tcbs socket [] = []
  others tcbs socket (p ∷ ps) =
      let rest = others tcbs socket ps in
      elim (tcbs p) [ none ↦ p ∷ rest | some t ↦ if t.socket == socket then rest else p ∷ rest ]

  abbrev pub mine : (ℕ → Option (Tcb F)) → ℕ → List ℕ → List ℕ
  mine tcbs socket [] = []
  mine tcbs socket (p ∷ ps) =
      let rest = mine tcbs socket ps in
      elim (tcbs p) [ none ↦ rest | some t ↦ if t.socket == socket then p ∷ rest else rest ]

  abbrev pub erase_all : (ℕ → Option (Tcb F)) → List ℕ → ℕ → Option (Tcb F)
  erase_all heap [] = heap
  erase_all heap (p ∷ ps) = erase (erase_all heap ps) p

  abbrev pub AllLive : (ℕ → Option (Tcb F)) → List ℕ → Type 0
  AllLive heap [] = Unit {0}
  AllLive heap (p ∷ ps) = ((t : Tcb F) × (heap p ≡ some t)) × AllLive heap ps

abbrev pub IsFresh : ℕ → List ℕ → Type 0
IsFresh p [] = Unit {0}
IsFresh p (q ∷ qs) = (q ≢ p) × IsFresh p qs

abbrev pub IsDistinct : List ℕ → Type 0
IsDistinct [] = Unit {0}
IsDistinct (p ∷ ps) = IsFresh p ps × IsDistinct ps

module _ {F : Type 0} where
  mine-IsFresh :
      (tcbs : ℕ → Option (Tcb F)) (socket p : ℕ) (ps : List ℕ)
      → IsFresh p ps
      → IsFresh p (mine tcbs socket ps)
  mine-IsFresh tcbs socket p [] h = tt
  mine-IsFresh tcbs socket p (q ∷ qs) h = by_thread (tcbs q) (mine-IsFresh tcbs socket p qs h.1)
    where
      by_socket :
          (b : Bool)
          → IsFresh p (mine tcbs socket qs)
          → IsFresh p (if b then q ∷ mine tcbs socket qs else mine tcbs socket qs)
      by_socket true rest = (h.0, rest)
      by_socket false rest = rest

      by_thread :
          (o : Option (Tcb F))
          → IsFresh p (mine tcbs socket qs)
          → IsFresh p (elim o [
            | none ↦ mine tcbs socket qs
            | some t ↦ if t.socket == socket then q ∷ mine tcbs socket qs else mine tcbs socket qs
          ])
      by_thread none rest = rest
      by_thread (some t) rest = by_socket (t.socket == socket) rest

  pub erase_all-fresh :
      (heap : ℕ → Option (Tcb F)) (p : ℕ) (ps : List ℕ)
      → IsFresh p ps
      → erase_all heap ps p ≡ heap p
  erase_all-fresh heap p [] h = refl
  erase_all-fresh heap p (q ∷ qs) h = rw (ne→eqb q p h.0) (erase_all-fresh heap p qs h.1)

get_elem?-front :
    (front back : List ℕ) (p : ℕ) → get_elem? (front ++ p ∷ back) (length front) ≡ some p
get_elem?-front [] back p = refl
get_elem?-front (x ∷ front) back p = get_elem?-front front back p

module _ {F : Type 0} (d : Decimal) (s : Suse F) (socket : ℕ) (whole : List ℕ) where
  open d use {itoa, atoi}

  -- What the two loops do from position `i` on, with `front` before it and `back` behind it.
  record IsRemoved (i : ℕ) (front back : List ℕ) : Type 0 where
    positions : List (List ℕ)
    found : positions_of d socket i back s ≡ done positions s
    removed :
        remove_from_back d positions whole s
        ≡ done
            (front ++ others s.tcbs socket back)
            (record s { tcbs = erase_all s.tcbs (mine s.tcbs socket back) })

  -- One thread in front of a back that the loops are right about.
  IsRemoved-cons :
      (front back : List ℕ) (p : ℕ) (t : Tcb F)
      → s.tcbs p ≡ some t
      → IsFresh p back
      → (b : Bool) → (t.socket == socket) ≡ b
      → IsRemoved (length front + 1) (front ++ p ∷ []) back
      → IsRemoved (length front) front (p ∷ back)
  unfolding positions_of remove_from_back destroy_tcb
  IsRemoved-cons front back p t here fresh true same rest = record {
    positions = (itoa (length front) ++ 0 ∷ []) ∷ rest.positions;
    found = rw (here, rest.found, same) refl;
    removed =
        rw
          (
            rest.removed,
            d.atoi-itoa (length front) [],
            append_assoc front (p ∷ []) (others s.tcbs socket back),
            get_elem?-front front (others s.tcbs socket back) p,
            erase_all-fresh s.tcbs p (mine s.tcbs socket back)
                (mine-IsFresh s.tcbs socket p back fresh),
            others,
            mine,
            here,
            same,
            list_remove-append front (others s.tcbs socket back) p,
          )
          refl;
  }
  IsRemoved-cons front back p t here fresh false same rest = record {
    positions = rest.positions;
    found = rw (here, rest.found, same) refl;
    removed =
        rest.removed
        ∙ rw (append_assoc front (p ∷ []) (others s.tcbs socket back), others, mine, here, same)
            refl;
  }

  IsRemoved-from :
      (front back : List ℕ)
      → whole ≡ front ++ back
      → AllLive s.tcbs back
      → IsDistinct back
      → IsRemoved (length front) front back
  unfolding positions_of remove_from_back
  IsRemoved-from front [] e h k = record { positions = []; found = refl; removed = rw e refl }
  IsRemoved-from front (p ∷ back) e h k = IsRemoved-cons front back p h.0.0 h.0.1 k.0 _ refl (
      subst (λ (i : ℕ). IsRemoved i (front ++ p ∷ []) back) (length-append front (p ∷ []))
        (IsRemoved-from (front ++ p ∷ []) back (e ∙ sym (append_assoc front (p ∷ []) back)) h.1
          k.1))

-- A call of list_remove_and_destroy_all_tcb_from_program leaves exactly the threads of the other
-- programs, in their order, frees exactly the program's own of the list, and changes nothing else,
-- if every pointer of the list leads to a thread and none is in it twice.
pub list_remove_and_destroy_all_eq :
    {F : Type 0} (d : Decimal) (s : Suse F) (lista : List ℕ) (socket : ℕ)
    → AllLive s.tcbs lista
    → IsDistinct lista
    → list_remove_and_destroy_all_tcb_from_program d lista socket s
      ≡ done
          (others s.tcbs socket lista)
          (record s { tcbs = erase_all s.tcbs (mine s.tcbs socket lista) })
unfolding list_remove_and_destroy_all_tcb_from_program
list_remove_and_destroy_all_eq d s lista socket h k =
    let r = IsRemoved-from d s socket lista [] lista refl h k in rw r.found r.removed
