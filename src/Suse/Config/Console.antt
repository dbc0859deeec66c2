-- ===== src/Suse/Config/Console.antt =====
-- The console ends with the first line that starts with "salir".
use locomatch.Prelude.{
  ℕ, zero, suc, ◌+◌, ◌<◌, ◌≤◌, ◌≡◌, ◌≢◌, refl, sym, ap, ◌∙◌, subst, Bool, List, [], ◌∷◌, ◌++◌,
  Option, none, some, arith, append_assoc, append-nil,
}
use locomatch.Suse.Config.{Command, clear, salir, other, command, init_console}

module _ (starts_with : List ℕ → List ℕ → Bool) (readline : ℕ → Option (List ℕ)) where
  -- The lines of `k` calls from the n-th on, without the NULLs.
  abbrev pub lines_from : ℕ → ℕ → List (List ℕ)
  lines_from n zero = []
  lines_from n (suc k) =
      let rest = lines_from (suc n) k in elim (readline n) [ none ↦ rest | some l ↦ l ∷ rest ]

  abbrev pub Quits : ℕ → Type 0
  Quits n = (linea : List ℕ) × (readline n ≡ some linea) × (command starts_with linea ≡ salir)

  abbrev pub StaysOpen : ℕ → Type 0
  StaysOpen n = (linea : List ℕ) → readline n ≡ some linea → command starts_with linea ≢ salir

  -- A turn that does not end the console.
  turn_on :
      (fuel n : ℕ) (history : List (List ℕ)) (o : Option (List ℕ))
      → readline n ≡ o
      → StaysOpen n
      → init_console starts_with readline (suc fuel) n history
        ≡ init_console starts_with readline fuel
            (suc n)
            (history ++ elim o [ none ↦ [] | some l ↦ l ∷ [] ])
  unfolding init_console
  turn_on fuel n history none e open_still = rw (init_console, e, append-nil history) refl
  turn_on fuel n history (some l) e open_still = by_command (command starts_with l) refl
    where
      by_command :
          (c : Command)
          → command starts_with l ≡ c
          → init_console starts_with readline (suc fuel) n history
            ≡ init_console starts_with readline fuel (suc n) (history ++ l ∷ [])
      by_command clear c = rw (init_console, e, c) refl
      by_command salir c = absurd (open_still l e c)
      by_command other c = rw (init_console, e, c) refl

  quit_now :
      (fuel n : ℕ) (history : List (List ℕ))
      → Quits n
      → init_console starts_with readline (suc fuel) n history ≡ some history
  unfolding init_console
  quit_now fuel n history (l, e, c) = rw (init_console, e, c) refl

  ends_from :
      (k fuel n : ℕ) (history : List (List ℕ))
      → Quits (n + k)
      → ((j : ℕ) → j < k → StaysOpen (n + j))
      → k < fuel
      → init_console starts_with readline fuel n history ≡ some (history ++ lines_from n k)
  ends_from k zero n history quits before less = absurd (omega (arith, less))
  ends_from zero (suc fuel) n history quits before less =
      quit_now fuel n history (subst Quits (omega arith) quits)
      ∙ ap (λ (l : List (List ℕ)). some l) (sym (append-nil history))
  ends_from (suc k) (suc fuel) n history quits before less =
      turn_on fuel n history (readline n) refl
        (subst StaysOpen (omega arith) (before 0 (omega arith)))
      ∙ ends_from k fuel (suc n) _ (subst Quits (omega arith) quits)
          (λ j low. subst StaysOpen (omega arith) (before (suc j) (omega (arith, low))))
          (omega (arith, less))
      ∙ ap (λ (l : List (List ℕ)). some l) (joined (readline n))
    where
      joined :
          (o : Option (List ℕ))
          → history ++ elim o [ none ↦ [] | some l ↦ l ∷ [] ] ++ lines_from (suc n) k
            ≡ history ++ elim o [ none ↦ lines_from (suc n) k | some l ↦ l ∷ lines_from (suc n) k ]
      joined none = ap (λ (l : List (List ℕ)). l ++ lines_from (suc n) k) (append-nil history)
      joined (some l) = append_assoc history (l ∷ []) (lines_from (suc n) k)

  stays_from :
      (k fuel n : ℕ) (history : List (List ℕ))
      → ((j : ℕ) → j < k → StaysOpen (n + j))
      → fuel ≤ k
      → init_console starts_with readline fuel n history ≡ none
  unfolding init_console
  stays_from k zero n history before less = refl
  stays_from zero (suc fuel) n history before less = absurd (omega (arith, less))
  stays_from (suc k) (suc fuel) n history before less =
      turn_on fuel n history (readline n) refl
        (subst StaysOpen (omega arith) (before 0 (omega arith)))
      ∙ stays_from k fuel (suc n) _
          (λ j low. subst StaysOpen (omega arith) (before (suc j) (omega (arith, low))))
          (omega (arith, less))

  -- The console sets endsuse in its turn `k`, with the earlier lines in the history, and in none of
  -- the turns before, if the line of that turn is the first that starts with "salir"; a NULL of
  -- readline takes a turn as well.
  pub init_console_ends :
      (k : ℕ)
      → Quits k
      → ((j : ℕ) → j < k → StaysOpen j)
      → (fuel : ℕ)
      → (k < fuel → init_console starts_with readline fuel 0 [] ≡ some (lines_from 0 k))
        × (fuel ≤ k → init_console starts_with readline fuel 0 [] ≡ none)
  init_console_ends k quits before fuel = (
    ends_from k fuel 0 [] (subst Quits (omega arith) quits) open_still,
    stays_from k fuel 0 [] open_still,
  )
    where
      open_still : (j : ℕ) → j < k → StaysOpen (0 + j)
      open_still j low = subst StaysOpen (omega arith) (before j low)
