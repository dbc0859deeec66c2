-- ===== src/Sac/Tests/Formatting.antt =====
-- The geometry and the formatting of a disk, the loops over an offset and a new node.
use locomatch.Prelude.{
  ℕ, some, ◌^◌, zero, suc, ◌+◌, ◌-◌, ◌*◌, ◌/◌, ◌%◌, ◌<◌, ◌≡◌, ◌≢◌, ◌⊎◌, refl, ap, ◌∙◌, false, List,
  [], ◌∷◌, none, arith, replicate, ◌==◌, if◌then◌else◌, length, length-replicate, ltb, Bool-cases,
  inl, inr, ltb→le,
}
use locomatch.Sockets.Bytes.{int_bytes}
use locomatch.Sac.Blocks.{Geometry, AllOccupied}
use locomatch.Sac.Blocks.Taken.{disk}
use locomatch.Sac.Server.{Servidor}
use locomatch.Sac.Server.Create.{accepted, new_node, finish}
use locomatch.Sac.Server.Creation.{HasTable, Created, finish-Created}
use locomatch.Sac.Server.Read.{skip_blocks}
use locomatch.Sac.Server.Loops.{skip_blocks_eq}
use locomatch.Sac.Disk.Layout.{IsNode}
use locomatch.Sac.Format.{CleanBit, layout, geometry}
use locomatch.Sac.Format.Areas.{Areas, layout-Areas}
use locomatch.Sac.Format.Formatted.{Formatted, write_format-Formatted}
use locomatch.Sac.Tests.Bits.{bit, half, test, bits, geometria}
use locomatch.Sac.Tests.Nodes.{nodo, nodo-IsNode}
use locomatch.Sac.Tests.Environment.{entorno}

skip_blocks_eq_example : skip_blocks 4096 4096 0 ≡ (0 + 4095 / 4096, 4096 - 4095 / 4096 * 4096)
skip_blocks_eq_example = skip_blocks_eq 4096 4096 0 (omega arith)

-- 4 GiB and 128 MiB.
layout-Areas_example :
    (g : Geometry) × (geometry (layout (2 ^ 32 + 134217728)) ≡ some g) × Areas 134217728 g
layout-Areas_example = layout-Areas (2 ^ 32 + 134217728) 134217728 refl (omega arith)

-- A node table with free blocks, and a new file "a" in the root directory.
tabla : HasTable geometria [] (15 ∷ []) []
tabla = record {
  is_disk = record { placed = refl; sized = refl };
  apart = omega arith;
  room = omega arith;
  ordered = omega arith;
}

nuevo : IsNode (new_node entorno 1 (b'a' ∷ []) 0)
unfolding new_node int_bytes
nuevo = record {
  name_size = refl;
  parent_fits = omega arith;
  size_fits = omega arith;
  created_size = refl;
  modified_size = refl;
  blocks_size = refl;
}

abbrev servidor : Servidor
servidor = record { geometry = geometria; disco = disk [] (15 ∷ []) []; opened = [] }

finish-Created_example :
    Created entorno servidor (15 ∷ []) 1 (b'a' ∷ []) 0
    ⊎ (AllOccupied bits (15 ∷ []) 2 6 × (finish entorno 1 servidor (accepted (b'a' ∷ []) 0) ≡ none))
finish-Created_example = finish-Created tabla entorno [] 1 (b'a' ∷ []) 0 nuevo

-- Clean bits.
abbrev without_bit : ℕ → ℕ → ℕ
without_bit v zero = v / 2 * 2
without_bit v (suc j) = without_bit (v / 2) j * 2 + v % 2

bit-without_bit : (v i : ℕ) → bit (without_bit v i) i ≡ false
bit-without_bit v zero = ground arith
bit-without_bit v (suc i) =
    ap (λ (k : ℕ). bit k i) (half (without_bit (v / 2) i) (v % 2) (omega arith))
    ∙ bit-without_bit (v / 2) i

bit-without_bit_ne : (v i j : ℕ) → i ≢ j → bit (without_bit v i) j ≡ bit v j
bit-without_bit_ne v zero zero h = absurd (h refl)
bit-without_bit_ne v zero (suc j) h = ap (λ (k : ℕ). bit k j) (even (v / 2))
  where
    even : (a : ℕ) → a * 2 / 2 ≡ a
    even a = omega arith
bit-without_bit_ne v (suc i) zero h = ap (λ (k : ℕ). k == 1) low
  where
    low : (without_bit (v / 2) i * 2 + v % 2) % 2 ≡ v % 2
    low = omega arith
bit-without_bit_ne v (suc i) (suc j) h =
    ap (λ (k : ℕ). bit k j) (half (without_bit (v / 2) i) (v % 2) (omega arith))
    ∙ bit-without_bit_ne (v / 2) i j (λ e. h (ap suc e))

abbrev clean : List ℕ → ℕ → List ℕ
clean [] i = []
clean (v ∷ vs) i =
    let later = clean vs (i - 8) in if ltb i 8 then without_bit v i ∷ vs else v ∷ later

test-clean : (vs : List ℕ) (i : ℕ) → i < 8 * length vs → test (clean vs i) i ≡ false
test-clean [] i h = absurd (omega (arith, h))
test-clean (v ∷ vs) i h = elim (Bool-cases (ltb i 8)) [
  | inl here ↦ rw here (rw here (bit-without_bit v i))
  | inr there ↦ rw there (rw there (test-clean vs (i - 8) (omega (arith, h, ltb→le i 8 there))))
]

test-clean_ne : (vs : List ℕ) (i j : ℕ) → i ≢ j → test (clean vs i) j ≡ test vs j
test-clean_ne [] i j h = refl
test-clean_ne (v ∷ vs) i j h = elim (Bool-cases (ltb i 8)) [
  | inl here ↦ elim (Bool-cases (ltb j 8)) [
    | inl same ↦ rw here (rw same (bit-without_bit_ne v i j h))
    | inr other ↦ rw here (rw other refl)
  ]
  | inr there ↦ elim (Bool-cases (ltb j 8)) [
    | inl same ↦ rw there (rw same refl)
    | inr other ↦ rw there (
        rw other (
          test-clean_ne vs (i - 8) (j - 8)
            (λ e. h (omega (arith, e, ltb→le i 8 there, ltb→le j 8 other)))))
  ]
]

length-clean : (vs : List ℕ) (i : ℕ) → length (clean vs i) ≡ length vs
length-clean [] i = refl
length-clean (v ∷ vs) i = ground (arith, length-clean vs (i - 8))

limpiar : CleanBit bits
limpiar = record {
  clean_bit = clean;
  test_bit-clean_bit = test-clean;
  test_bit-clean_bit_ne = test-clean_ne;
  length-clean_bit = length-clean;
}

-- A disk with a header, a block of bitmap and nothing behind it yet.
abbrev entera : Geometry
entera = record {
  bitmap_start = 1;
  bitmap_size_bytes = 4096;
  node_table_start = 2;
  node_table_end = 1025;
  data_blocks_start = 1026;
  data_blocks_end = 32767;
}

con_bitmap : HasTable entera (replicate 4096 0) (replicate 4096 255) []
con_bitmap = record {
  is_disk = record {
    placed = length-replicate {A = ℕ} 4096 0;
    sized = length-replicate {A = ℕ} 4096 255;
  };
  apart = omega arith;
  room = omega (arith, length-replicate {A = ℕ} 4096 255);
  ordered = omega arith;
}

write_format-Formatted_example :
    Formatted bits limpiar entera
      (replicate 4096 7)
      (disk (replicate 4096 0) (replicate 4096 255) [])
      (nodo 2 b'r' 0)
write_format-Formatted_example =
    write_format-Formatted bits limpiar con_bitmap (replicate 4096 7) (nodo 2 b'r' 0)
      (length-replicate {A = ℕ} 4096 7) (omega arith) (nodo-IsNode 2 b'r' 0 (omega arith))
