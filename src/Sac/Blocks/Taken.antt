-- ===== src/Sac/Blocks/Taken.antt =====
-- A free block is found, and then it is occupied and no other is.
use locomatch.Prelude.{
  ℕ, ◌+◌, ◌-◌, ◌*◌, ◌≤◌, ◌<◌, ◌≡◌, ◌≢◌, ◌⊎◌, inl, inr, refl, sym, ap, ◌∙◌, true, false, List, ◌++◌,
  some, arith, append_assoc, length, length-append, drop, take-append, drop-append,
}
use locomatch.Prelude.Int.{pos, negsuc}
use locomatch.Sockets.Bytes.{memcpy-append}
use locomatch.Sac.Blocks.{
  BitArray, block_size, Geometry, Area, area_start, area_end, read_bitmap, write_bitmap,
  find_free_block, set_block_as_occupied, AllOccupied, find_from-first,
}

-- The disk with the bitmap in its place.
pub record IsDisk (g : Geometry) (front bits back : List ℕ) : Type 0 where
  pub placed : length front ≡ g.bitmap_start * block_size
  pub sized : length bits ≡ g.bitmap_size_bytes

abbrev pub disk : List ℕ → List ℕ → List ℕ → List ℕ
disk front bits back = front ++ (bits ++ back)

module _ {g : Geometry} {front bits back : List ℕ} (d : IsDisk g front bits back) where
  pub read_bitmap-disk : read_bitmap g (disk front bits back) ≡ some bits
  unfolding read_bitmap
  read_bitmap-disk =
      rw (sym d.placed, drop-append front (bits ++ back), sym d.sized) (memcpy-append bits back)

  pub write_bitmap-disk :
      (new_bits : List ℕ)
      → write_bitmap g (disk front bits back) new_bits ≡ disk front new_bits back
  unfolding write_bitmap
  write_bitmap-disk new_bits =
      rw (sym d.placed, sym d.sized, take-append front (bits ++ back))
        (ap (λ (l : List ℕ). front ++ (new_bits ++ l)) behind)
    where
      behind : drop (length front + length bits) (front ++ (bits ++ back)) ≡ back
      behind =
          rw (sym (append_assoc front bits back), sym (length-append front bits))
            (drop-append (front ++ bits) back)

-- The first free block of the area, and the disk where it is occupied.
pub record Taken (b : BitArray) (g : Geometry) (front bits back : List ℕ) (area : Area)
    : Type 0 where
  pub number : ℕ
  pub inside : (area_start g area ≤ number) × (number ≤ area_end g area)
  pub was_free : b.test_bit bits number ≡ false
  pub first : AllOccupied b bits (area_start g area) number
  pub found : find_free_block b g (disk front bits back) area ≡ some (pos number)
  pub bits_after : List ℕ
  pub result :
      set_block_as_occupied b g (disk front bits back) number ≡ some (disk front bits_after back)
  pub still_disk : IsDisk g front bits_after back
  pub occupied : b.test_bit bits_after number ≡ true
  pub others : (j : ℕ) → number ≢ j → b.test_bit bits_after j ≡ b.test_bit bits j

-- find_free_block gives the first free block of the area, and set_block_as_occupied then occupies
-- that block and changes no other block and no byte outside the bitmap; where every block of the
-- area is occupied, find_free_block gives -1. The bitmap lies on the disk and has a bit for each
-- block of the area, and the area does not end in front of its start.
pub find_free_block-Taken :
    (b : BitArray) {g : Geometry} {front bits back : List ℕ} (area : Area)
    → IsDisk g front bits back
    → area_end g area < 8 * length bits
    → area_start g area ≤ area_end g area
    → Taken b g front bits back area
      ⊎ (AllOccupied b bits (area_start g area) (area_end g area + 1)
          × (find_free_block b g (disk front bits back) area ≡ some (negsuc 0)))
unfolding find_free_block set_block_as_occupied
find_free_block-Taken b {g} {front} {bits} {back} area d room ordered =
    elim (find_from-first b bits (area_end g area + 1 - area_start g area) (area_start g area)) [
      | inl (k, low, high, free, before, e) ↦ inl (record {
        number = k;
        inside = (low, omega (arith, high));
        was_free = free;
        first = before;
        found = rw (read_bitmap-disk d, e) refl;
        bits_after = b.set_bit bits k;
        result = rw (read_bitmap-disk d, write_bitmap-disk d (b.set_bit bits k)) refl;
        still_disk = record { placed = d.placed; sized = b.length-set_bit bits k ∙ d.sized };
        occupied = b.test_bit-set_bit bits k (omega (arith, high, room));
        others = λ j. b.test_bit-set_bit_ne bits k j;
      })
      | inr (all, e) ↦ inr ((λ j a h. all j a (omega (arith, h))), rw (read_bitmap-disk d, e) refl)
    ]
