-- ===== src/Suse/Destroy/Gone.antt =====
-- list_remove_and_destroy_all_tcb_from_program on a list with a thread that is freed.
use locomatch.Prelude.{
  ℕ, zero, suc, ◌+◌, ◌≡◌, ◌⊎◌, inl, inr, refl, List, [], ◌∷◌, Option, none, some, get_elem?,
  if◌then◌else◌, ◌==◌, arith, eqb_refl, Bool, true, false, Option-cases,
}
use locomatch.Protocol.Decimal.{Decimal}
use locomatch.Suse.State.{Tcb, Suse}
use locomatch.Suse.Monad
use locomatch.Suse.Monad.{M, Out, done, waits, fault, spins, modify, put_program, lock_state_list}
use locomatch.Suse.Keeps.{Ensures}
use locomatch.Suse.Destroy.{positions_of, list_remove_and_destroy_all_tcb_from_program}
use locomatch.Suse.Destroy.Filter.{mine, erase_all, AllLive}

module _ {F : Type 0} where
  -- It faults, waits or spins.
  abbrev pub NeverEnds : {A : Type 0} → Out F A → Type 0
  NeverEnds o = Ensures (λ _. ⊥) (λ _. Unit {0}) o

  pub NeverEnds-bind :
      {A B : Type 0} (P : Suse F → Type 0) (o : Out F A) (f : A → M F B)
      → Ensures P (λ _. Unit {0}) o
      → ((a : A) (s : Suse F) → P s → NeverEnds (f a s))
      → NeverEnds (Monad.bind o f)
  NeverEnds-bind P (done a s) f h k = k a s h
  NeverEnds-bind P (waits s) f h k = tt
  NeverEnds-bind P fault f h k = tt
  NeverEnds-bind P spins f h k = tt

module _ {F : Type 0} (d : Decimal) (q : ℕ) where
  -- A thread that is gone faults the first loop.
  positions_of-gone :
      (socket i : ℕ) (ps : List ℕ) (k : ℕ) (s : Suse F)
      → get_elem? ps k ≡ some q
      → s.tcbs q ≡ none
      → positions_of d socket i ps s ≡ fault
  unfolding positions_of
  positions_of-gone socket i [] k s e h = cc
  positions_of-gone socket i (p ∷ ps) zero s e h = let same : p ≡ q = cc in rw (same, h) refl
  positions_of-gone socket i (p ∷ ps) (suc k) s e h = elim (Option-cases (s.tcbs p)) [
    | inl gone ↦ rw gone refl
    | inr (t, here) ↦ rw (here, positions_of-gone socket (i + 1) ps k s e h) refl
  ]

  pub remove_and_destroy-gone :
      (lista : List ℕ) (socket k : ℕ) (s : Suse F)
      → get_elem? lista k ≡ some q
      → s.tcbs q ≡ none
      → list_remove_and_destroy_all_tcb_from_program d lista socket s ≡ fault
  unfolding list_remove_and_destroy_all_tcb_from_program
  remove_and_destroy-gone lista socket k s e h = rw (positions_of-gone socket 0 lista k s e h) refl

  -- Where the first loop ends, every pointer leads to a thread.
  pub live_or_fault :
      (socket i : ℕ) (ps : List ℕ) (s : Suse F)
      → AllLive s.tcbs ps ⊎ (positions_of d socket i ps s ≡ fault)
  unfolding positions_of
  live_or_fault socket i [] s = inl tt
  live_or_fault socket i (p ∷ ps) s = elim (Option-cases (s.tcbs p)) [
    | inl gone ↦ inr (rw gone refl)
    | inr (t, here) ↦ elim (live_or_fault socket (i + 1) ps s) [
      | inl live ↦ inl ((t, here), live)
      | inr bad ↦ inr (rw (here, bad) refl)
    ]
  ]

  -- The thread is freed with the others of its program.
  pub erase_all-mine :
      (tcbs : ℕ → Option (Tcb F)) (socket : ℕ) (t : Tcb F) (ps : List ℕ) (k : ℕ)
      → get_elem? ps k ≡ some q
      → tcbs q ≡ some t
      → t.socket ≡ socket
      → erase_all tcbs (mine tcbs socket ps) q ≡ none
  erase_all-mine tcbs socket t [] k e here own = cc
  erase_all-mine tcbs socket t (p ∷ ps) zero e here own =
      let same : p ≡ q = cc in rw (mine, same, here, own, eqb_refl socket, same, eqb_refl q) refl
  erase_all-mine tcbs socket t (p ∷ ps) (suc k) e here own =
      by_thread (tcbs p) (erase_all-mine tcbs socket t ps k e here own)
    where
      by_socket :
          (b : Bool)
          → erase_all tcbs (mine tcbs socket ps) q ≡ none
          → erase_all tcbs (if b then p ∷ mine tcbs socket ps else mine tcbs socket ps) q ≡ none
      by_socket true gone = ground (arith, gone)
      by_socket false gone = gone

      by_thread :
          (o : Option (Tcb F))
          → erase_all tcbs (mine tcbs socket ps) q ≡ none
          → erase_all tcbs
              (elim o [
                | none ↦ mine tcbs socket ps
                | some t' ↦
                    if t'.socket == socket then p ∷ mine tcbs socket ps else mine tcbs socket ps
              ])
              q
            ≡ none
      by_thread none gone = gone
      by_thread (some t') gone = by_socket (t'.socket == socket) gone
