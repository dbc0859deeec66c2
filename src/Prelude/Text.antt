-- ===== src/Prelude/Text.antt =====
-- C strings: a text is its characters without the terminating zero.
use Prim.Native.Nat.{ℕ}
use mathlib.Core.Path.{◌≡◌, refl}
use mathlib.Core.Logic.{◌≢◌}
use mathlib.Core.Bool.{Bool, true, false, ◌&&◌}
use mathlib.Core.List.{List, [], ◌∷◌, ◌++◌}
use mathlib.Core.Option.{Option, none, some}
use native.Mathlib.Omega.{arith}
use locomatch.Prelude.Tests.{◌==◌, if◌then◌else◌, ne→eqb, eqb→eq, eqb_refl}
use locomatch.Prelude.Maybe.{◌>>=◌}

-- `strcmp(a, b) == 0`, of two texts.
unfoldable pub strcmp : List ℕ → List ℕ → Bool
strcmp [] [] = true
strcmp (a ∷ as') (b ∷ bs) = a == b && strcmp as' bs
strcmp _ _ = false

-- The text up to its terminating zero; `none` is a read past the area.
unfoldable pub strdup : List ℕ → Option (List ℕ)
strdup [] = none
strdup (c ∷ cs) = if c == 0 then some [] else (do rest ← strdup cs; some (c ∷ rest))

-- A text without a zero in it.
abbrev pub IsText : List ℕ → Type 0
IsText [] = Unit {0}
IsText (c ∷ cs) = (c ≢ 0) × IsText cs

pub strdup-text : (cs rest : List ℕ) → IsText cs → strdup (cs ++ 0 ∷ rest) ≡ some cs
unfolding strdup
strdup-text [] rest h = refl
strdup-text (c ∷ cs) rest h = rw (ne→eqb c 0 h.0, strdup-text cs rest h.1)

pub strcmp_refl : (a : List ℕ) → strcmp a a ≡ true
unfolding strcmp
strcmp_refl [] = refl
strcmp_refl (x ∷ xs) = rw (eqb_refl x, strcmp_refl xs)

pub strcmp→eq : (a b : List ℕ) → strcmp a b ≡ true → a ≡ b
unfolding strcmp
strcmp→eq [] [] h = refl
strcmp→eq [] (y ∷ ys) h = cc
strcmp→eq (x ∷ xs) [] h = cc
strcmp→eq (x ∷ xs) (y ∷ ys) h = ground (arith, eqb→eq x y, strcmp→eq xs ys)
