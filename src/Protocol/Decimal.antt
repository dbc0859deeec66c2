-- ===== src/Protocol/Decimal.antt =====
-- string_itoa of the commons library and atoi of the C library.
use locomatch.Prelude.{ℕ, ◌≤◌, ◌<◌, ◌≡◌, List, ◌∷◌, ◌++◌, length}

-- `itoa n` is the text of `n` without its terminating zero. `atoi` reads a number from the start of
-- an area and stops at the zero. A text of three characters is enough below 1000.
pub record Decimal : Type 0 where
  pub itoa : ℕ → List ℕ
  pub atoi : List ℕ → ℕ
  pub atoi-itoa : (n : ℕ) (beyond : List ℕ) → atoi (itoa n ++ 0 ∷ beyond) ≡ n
  pub length-itoa : (n : ℕ) → n < 1000 → length (itoa n) ≤ 3
