-- ===== src/Sockets/Bytes.antt =====
-- An `int` in memory: four bytes, the least significant first, as memcpy moves it between a
-- variable and a buffer. An `int` is its bit pattern, a number below 2 ^ 32.
use locomatch.Prelude.{
  ℕ, ◌+◌, ◌*◌, ◌/◌, ◌%◌, ◌^◌, ◌<◌, ◌≡◌, refl, List, [], ◌∷◌, ◌++◌, Option, none, some, arith, leb,
  if◌then◌else◌, length, length-append, take, take-append,
}

-- sizeof(int)
abbrev pub sizeof_int : ℕ
sizeof_int = 4

unfoldable pub int_bytes : ℕ → List ℕ
int_bytes n = n % 256 ∷ n / 256 % 256 ∷ n / 65536 % 256 ∷ n / 16777216 % 256 ∷ []

-- The `int` at the start of a memory area; `none` is a read past its end.
unfoldable pub load_int : List ℕ → Option ℕ
load_int (a ∷ b ∷ c ∷ d ∷ rest) = some (a + 256 * b + 65536 * c + 16777216 * d)
load_int _ = none

pub load_int-int_bytes :
    (n : ℕ) (rest : List ℕ) → n < 2 ^ 32 → load_int (int_bytes n ++ rest) ≡ some n
unfolding load_int int_bytes
load_int-int_bytes n rest h = ground arith

-- memcpy of `n` bytes out of an area; `none` is a read past its end.
unfoldable pub memcpy : List ℕ → ℕ → Option (List ℕ)
memcpy area n = if leb n (length area) then some (take n area) else none

pub memcpy-append : (xs ys : List ℕ) → memcpy (xs ++ ys) (length xs) ≡ some xs
unfolding memcpy
memcpy-append xs ys = ground (arith, length-append xs ys, take-append xs ys)

pub length-int_bytes : (n : ℕ) → length (int_bytes n) ≡ sizeof_int
unfolding int_bytes
length-int_bytes n = refl
