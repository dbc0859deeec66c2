-- ===== src/Suse/Floats.antt =====
-- The C type float, and what the scheduler needs to know of it.
use locomatch.Prelude.{Bool, true, false, ◌≡◌}
use locomatch.Prelude.Int.{ℤ}

-- `lt` is the operator <. IEEE numbers meet both laws, NaN included.
pub record Floats : Type 1 where
  pub Float : Type 0
  pub of_int : ℤ → Float
  pub flt_max : Float
  pub add : Float → Float → Float
  pub sub : Float → Float → Float
  pub mul : Float → Float → Float
  pub div : Float → Float → Float
  pub lt : Float → Float → Bool
  pub eq : Float → Float → Bool
  pub lt_irrefl : (a : Float) → lt a a ≡ false
  pub lt_trans : (a b c : Float) → lt a b ≡ true → lt b c ≡ true → lt a c ≡ true
