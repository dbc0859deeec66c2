-- ===== src/Sac/Tests/Bits.antt =====
-- A bit array over bytes, the least significant bit first, and a disk with a bitmap of one byte.
use locomatch.Prelude.{
  ℕ, zero, suc, ◌+◌, ◌-◌, ◌*◌, ◌/◌, ◌%◌, ◌<◌, ◌≡◌, ◌≢◌, ◌⊎◌, refl, ap, Bool, true, false, List, [],
  ◌∷◌, some, arith, length, ◌==◌, ltb, if◌then◌else◌, inl, inr, Bool-cases, ltb→le,
}
use locomatch.Prelude.Int.{negsuc}
use locomatch.Sac.Blocks.{BitArray, Geometry, node_table, AllOccupied, find_free_block}
use locomatch.Sac.Blocks.Taken.{Taken, disk, find_free_block-Taken}

abbrev pub bit : ℕ → ℕ → Bool
bit v zero = v % 2 == 1
bit v (suc j) = bit (v / 2) j

abbrev with_bit : ℕ → ℕ → ℕ
with_bit v zero = v / 2 * 2 + 1
with_bit v (suc j) = with_bit (v / 2) j * 2 + v % 2

pub half : (a b : ℕ) → b < 2 → (a * 2 + b) / 2 ≡ a
half a b h = omega arith

bit-with_bit : (v i : ℕ) → bit (with_bit v i) i ≡ true
bit-with_bit v zero = ground arith
bit-with_bit v (suc i) =
    rw (half (with_bit (v / 2) i) (v % 2) (omega arith)) (bit-with_bit (v / 2) i)

bit-with_bit_ne : (v i j : ℕ) → i ≢ j → bit (with_bit v i) j ≡ bit v j
bit-with_bit_ne v zero zero h = absurd (h refl)
bit-with_bit_ne v zero (suc j) h = rw (half (v / 2) 1 (omega arith)) refl
bit-with_bit_ne v (suc i) zero h = ap (λ (k : ℕ). k == 1) (low)
  where
    low : (with_bit (v / 2) i * 2 + v % 2) % 2 ≡ v % 2
    low = omega arith
bit-with_bit_ne v (suc i) (suc j) h =
    rw (half (with_bit (v / 2) i) (v % 2) (omega arith))
      (bit-with_bit_ne (v / 2) i j (λ e. h (ap suc e)))

abbrev pub test : List ℕ → ℕ → Bool
test [] i = false
test (v ∷ vs) i = let later = test vs (i - 8) in if ltb i 8 then bit v i else later

abbrev put : List ℕ → ℕ → List ℕ
put [] i = []
put (v ∷ vs) i = let later = put vs (i - 8) in if ltb i 8 then with_bit v i ∷ vs else v ∷ later

pub test-put : (vs : List ℕ) (i : ℕ) → i < 8 * length vs → test (put vs i) i ≡ true
test-put [] i h = absurd (omega (arith, h))
test-put (v ∷ vs) i h = elim (Bool-cases (ltb i 8)) [
  | inl here ↦ rw here (rw here (bit-with_bit v i))
  | inr there ↦ rw there (rw there (test-put vs (i - 8) (omega (arith, h, ltb→le i 8 there))))
]

pub test-put_ne : (vs : List ℕ) (i j : ℕ) → i ≢ j → test (put vs i) j ≡ test vs j
test-put_ne [] i j h = refl
test-put_ne (v ∷ vs) i j h = elim (Bool-cases (ltb i 8)) [
  | inl here ↦ elim (Bool-cases (ltb j 8)) [
    | inl same ↦ rw here (rw same (bit-with_bit_ne v i j h))
    | inr other ↦ rw here (rw other refl)
  ]
  | inr there ↦ elim (Bool-cases (ltb j 8)) [
    | inl same ↦ rw there (rw same refl)
    | inr other ↦ rw there (
        rw other (
          test-put_ne vs (i - 8) (j - 8)
            (λ e. h (omega (arith, e, ltb→le i 8 there, ltb→le j 8 other)))))
  ]
]

pub length-put : (vs : List ℕ) (i : ℕ) → length (put vs i) ≡ length vs
length-put [] i = refl
length-put (v ∷ vs) i = ground (arith, length-put vs (i - 8))

abbrev pub bits : BitArray
bits = record {
  test_bit = test;
  set_bit = put;
  test_bit-set_bit = test-put;
  test_bit-set_bit_ne = test-put_ne;
  length-set_bit = length-put;
}

-- Blocks 0 to 3 are occupied; the node table is the blocks 2 to 5.
abbrev pub geometria : Geometry
geometria = record {
  bitmap_start = 0;
  bitmap_size_bytes = 1;
  node_table_start = 2;
  node_table_end = 5;
  data_blocks_start = 6;
  data_blocks_end = 7;
}

find_free_block-Taken_example :
    Taken bits geometria [] (15 ∷ []) (9 ∷ []) node_table
    ⊎ (AllOccupied bits (15 ∷ []) 2 6
        × (find_free_block bits geometria (disk [] (15 ∷ []) (9 ∷ [])) node_table
            ≡ some (negsuc 0)))
find_free_block-Taken_example =
    find_free_block-Taken bits node_table (record { placed = refl; sized = refl }) (omega arith)
      (omega arith)
