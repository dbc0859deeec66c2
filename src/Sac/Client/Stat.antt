-- ===== src/Sac/Client/Stat.antt =====
-- getattr from end to end: what the client fills in for the node that the server finds.
use locomatch.Prelude.{ℕ, zero, suc, ◌^◌, ◌<◌, List, Option, length}
use locomatch.Prelude.Maybe.{◌>>=◌}
use locomatch.Sac.Server.{Entorno, Servidor, action_getattr}
use locomatch.Sac.Client.{Attributes, no_entry, directory, regular, getattr_answer}
use locomatch.Sac.Client.Words.{IsWord, SplitsWords}

-- The kind of a node and, for a file, its size.
abbrev pub kind : ℕ → ℕ → Attributes
kind zero size = regular size
kind (suc zero) size = regular size
kind (suc (suc zero)) size = directory
kind _ size = no_entry

-- A size of up to four digits.
pub record IsSmall (e : Entorno) (size : ℕ) : Type 0 where
  pub fits : size < 2 ^ 31
  pub short : length (e.decimal.itoa size) < 5
  pub digits : IsWord (e.decimal.itoa size)

module _ (e : Entorno) (split : SplitsWords e.string_split) where
  -- The client's stat of a path.
  abbrev pub stat : Servidor → List ℕ → Option Attributes
  stat s path = action_getattr e s path >>= λ t. getattr_answer e t
