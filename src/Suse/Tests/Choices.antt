-- ===== src/Suse/Tests/Choices.antt =====
-- The choice of the next thread, and the removal from a list, at concrete threads.
use locomatch.Prelude.{ℕ, ◌-◌, ◌≡◌, refl, [], ◌∷◌, none}
use locomatch.Suse.Moves.{remove_tcb}
use locomatch.Suse.Shortest.{IsShortest, best_from-IsShortest}
use locomatch.Suse.State.{ready, Tcb}
use locomatch.Prelude.{List, some, Option}
use locomatch.Prelude.{◌≡◌, ◌++◌, ◌⊎◌, ◌-◌, none, refl}
use locomatch.Suse.Moves.{remove_tcb}
use locomatch.Suse.Removal.{IsSplit, NoneMatches, remove_tcb-first}
use locomatch.Suse.Tests.{entorno, basura}

-- Two ready threads; the second has the shorter estimate.
abbrev con_burst : ℕ → Tcb ℕ
con_burst burst = record {
  socket = 9;
  tid = burst;
  state = ready;
  time = record basura { last_burst = burst };
  joined = [];
}

abbrev hilos : ℕ → Option (Tcb ℕ)
hilos p = some (con_burst (10 - p))

best_from-IsShortest_example :
    (b' : ℕ) × (pos' : Option ℕ) × IsShortest entorno hilos 0 (3 ∷ 4 ∷ []) 1000000 none b' pos'
best_from-IsShortest_example =
    best_from-IsShortest entorno hilos 0 (3 ∷ 4 ∷ []) 1000000 none
      λ j q e. (con_burst (10 - q), refl)

-- Thread 6 is at address 4.
remove_tcb-first_example :
    ((front : List ℕ) × (pointer : ℕ) × (back : List ℕ) × IsSplit hilos 6 9
        (3 ∷ 4 ∷ 5 ∷ [])
        front
        back
        pointer
      × (remove_tcb hilos (3 ∷ 4 ∷ 5 ∷ []) 6 9 ≡ some (front ++ back)))
    ⊎ (NoneMatches hilos 6 9 (3 ∷ 4 ∷ 5 ∷ []) × (remove_tcb hilos (3 ∷ 4 ∷ 5 ∷ []) 6 9 ≡ none))
remove_tcb-first_example =
    remove_tcb-first hilos 6 9 (3 ∷ 4 ∷ 5 ∷ [])
      ((con_burst 7, refl), ((con_burst 6, refl), ((con_burst 5, refl), tt)))
