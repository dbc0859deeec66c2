-- ===== src/Sac/Blocks.antt =====
-- Free blocks of fileSystem/sac/sac_servidor/sac_servidor.c: find_free_block and
-- set_block_as_occupied. The disk is its bytes; `none` is a disk that ends within the bitmap.
pub mod Taken
use locomatch.Prelude.{
  ℕ, zero, suc, ◌+◌, ◌-◌, ◌*◌, ◌≤◌, ◌<◌, ◌≡◌, ◌≢◌, ◌⊎◌, inl, inr, refl, sym, ap, ◌∙◌, subst, Bool,
  true, false, List, [], ◌∷◌, ◌++◌, Option, none, some, arith, append_assoc, if◌then◌else◌, length,
  length-append, take, drop, take-append, drop-append, Bool-cases, ltb, ltb→lt, ltb→le,
}
use locomatch.Prelude.Int.{ℤ, pos, negsuc}
use locomatch.Prelude.Maybe.{◌>>=◌}
use locomatch.Sockets.Bytes.{memcpy, memcpy-append}

-- The bit arrays of the commons library over some bytes: bitarray_test_bit, bitarray_set_bit.
pub record BitArray : Type 0 where
  pub test_bit : List ℕ → ℕ → Bool
  pub set_bit : List ℕ → ℕ → List ℕ
  pub test_bit-set_bit :
      (bits : List ℕ) (i : ℕ) → i < 8 * length bits → test_bit (set_bit bits i) i ≡ true
  pub test_bit-set_bit_ne :
      (bits : List ℕ) (i j : ℕ) → i ≢ j → test_bit (set_bit bits i) j ≡ test_bit bits j
  pub length-set_bit : (bits : List ℕ) (i : ℕ) → length (set_bit bits i) ≡ length bits

-- BLOCK_SIZE
abbrev pub block_size : ℕ
block_size = 4096

-- The globals that say where things are on the disk.
pub record Geometry : Type 0 where
  pub bitmap_start : ℕ
  pub bitmap_size_bytes : ℕ
  pub node_table_start : ℕ
  pub node_table_end : ℕ
  pub data_blocks_start : ℕ
  pub data_blocks_end : ℕ

-- The argument `area`: 0 or 1.
pub data Area : Type 0 where
  node_table data_blocks : Area

abbrev pub area_start : Geometry → Area → ℕ
area_start g node_table = g.node_table_start
area_start g data_blocks = g.data_blocks_start

abbrev pub area_end : Geometry → Area → ℕ
area_end g node_table = g.node_table_end
area_end g data_blocks = g.data_blocks_end

unfoldable pub read_bitmap : Geometry → List ℕ → Option (List ℕ)
read_bitmap g disco = memcpy (drop (g.bitmap_start * block_size) disco) g.bitmap_size_bytes

unfoldable pub write_bitmap : Geometry → List ℕ → List ℕ → List ℕ
write_bitmap g disco bits =
    take (g.bitmap_start * block_size) disco
    ++ (bits ++ drop (g.bitmap_start * block_size + g.bitmap_size_bytes) disco)

module _ (b : BitArray) where
  open b use {test_bit, set_bit}

  -- `for(int i = area_start; i<=area_end; i++)`: the rounds left, and the index.
  unfoldable pub find_from : List ℕ → ℕ → ℕ → ℤ
  find_from bitmap zero i = negsuc 0
  find_from bitmap (suc rounds) i =
      let rest = find_from bitmap rounds (i + 1) in if test_bit bitmap i then rest else pos i

  unfoldable pub find_free_block : Geometry → List ℕ → Area → Option ℤ
  unfolding read_bitmap
  find_free_block g disco area = do
    bitmap ← read_bitmap g disco
    some (find_from bitmap (area_end g area + 1 - area_start g area) (area_start g area))

  -- What the function prints is left out.
  unfoldable pub set_block_as_occupied : Geometry → List ℕ → ℕ → Option (List ℕ)
  unfolding read_bitmap write_bitmap
  set_block_as_occupied g disco block_number = do
    bitmap ← read_bitmap g disco
    some (write_bitmap g disco (set_bit bitmap block_number))

  -- Every block from `i` up to `n` is occupied.
  abbrev pub AllOccupied : List ℕ → ℕ → ℕ → Type 0
  AllOccupied bits i n = (j : ℕ) → i ≤ j → j < n → test_bit bits j ≡ true

  AllOccupied-next :
      (bits : List ℕ) (i n : ℕ)
      → test_bit bits i ≡ true
      → AllOccupied bits (i + 1) n
      → AllOccupied bits i n
  AllOccupied-next bits i n here later j a h = elim (Bool-cases (ltb i j)) [
    | inl above ↦ later j (omega (arith, ltb→lt i j above)) h
    | inr below ↦
        let same : i ≡ j = omega (arith, a, ltb→le i j below) in
        subst (λ (k : ℕ). test_bit bits k ≡ true) same here
  ]

  find_from-first :
      (bits : List ℕ) (rounds i : ℕ)
      → ((k : ℕ) × (i ≤ k)
          × (k < i + rounds)
          × (test_bit bits k ≡ false)
          × AllOccupied bits i k
          × (find_from bits rounds i ≡ pos k))
        ⊎ (AllOccupied bits i (i + rounds) × (find_from bits rounds i ≡ negsuc 0))
  unfolding find_from
  find_from-first bits zero i = inr ((λ j a h. absurd (omega arith)), refl)
  find_from-first bits (suc rounds) i = elim (Bool-cases (test_bit bits i)) [
    | inr free ↦ inl (
      i,
      omega arith,
      omega arith,
      free,
      (λ j a h. absurd (omega arith)),
      rw (find_from, free) refl,
    )
    | inl used ↦ elim (find_from-first bits rounds (i + 1)) [
      | inl (k, a, h, free, before, e) ↦ inl (
        k,
        omega (arith, a),
        omega (arith, h),
        free,
        AllOccupied-next bits i k used before,
        rw (find_from, used) e,
      )
      | inr (all, e) ↦ inr (
        AllOccupied-next bits i (i + suc rounds) used (λ j a h. all j a (omega (arith, h))),
        rw (find_from, used) e,
      )
    ]
  ]
