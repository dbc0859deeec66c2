-- ===== src/Sac/Format/Formatted.antt =====
-- What format_disk leaves on a disk.
use locomatch.Prelude.{
  ℕ, zero, suc, ◌+◌, ◌-◌, ◌*◌, ◌≡◌, ◌≤◌, ◌<◌, refl, ap, ◌∙◌, true, false, List, ◌++◌, some, arith,
  length, length-append, take, drop, length-take, length-drop, le→leb,
}
use locomatch.Sockets.Bytes.{memcpy}
use locomatch.Sac.Blocks.{BitArray, block_size, Geometry, read_bitmap, set_block_as_occupied}
use locomatch.Sac.Blocks.Taken.{IsDisk, disk, read_bitmap-disk, write_bitmap-disk}
use locomatch.Sac.Disk.{Node, read_at, read_node, write_node}
use locomatch.Sac.Disk.Layout.{IsNode, read_node-write_node}
use locomatch.Sac.Server.Creation.{HasTable, read_bitmap-write_node}
use locomatch.Sac.Format.{CleanBit, clean_from, format_bitmap_nodetable, write_format}
use locomatch.Sac.Format.Cleaned.{clean_from-Cleaned}

-- Blocks 0 to 2 are occupied, all others free, and the first block of the node table holds the node.
pub record Formatted (b : BitArray) (c : CleanBit b) (g : Geometry) (basura disco : List ℕ)
    (root : Node) : Type 0 where
  pub after : List ℕ
  pub result : write_format b c basura g disco root ≡ some after
  pub root_there : read_node after g.node_table_start ≡ some root
  pub bits_after : List ℕ
  pub bitmap : read_bitmap g after ≡ some bits_after
  pub occupied : (j : ℕ) → j < 3 → b.test_bit bits_after j ≡ true
  pub free : (j : ℕ) → 3 ≤ j → j < 8 * g.bitmap_size_bytes → b.test_bit bits_after j ≡ false

module _ (b : BitArray) (c : CleanBit b) {g : Geometry} {front bits back : List ℕ}
    (t : HasTable g front bits back) where
  set_block-disk :
      (some_bits : List ℕ) (n : ℕ)
      → IsDisk g front some_bits back
      → set_block_as_occupied b g (disk front some_bits back) n
        ≡ some (disk front (b.set_bit some_bits n) back)
  unfolding set_block_as_occupied
  set_block-disk some_bits n d =
      rw (read_bitmap-disk d, write_bitmap-disk d (b.set_bit some_bits n)) refl

  -- The cleaned bitmap is written over the old one.
  format_bitmap-disk :
      (basura : List ℕ)
      → length basura ≡ g.bitmap_size_bytes
      → block_size ≤ g.bitmap_size_bytes
      → (cleaned : List ℕ) × (format_bitmap_nodetable b c basura g (disk front bits back)
          ≡ some (disk front cleaned back))
        × (length cleaned ≡ g.bitmap_size_bytes)
        × ((j : ℕ) → 2 ≤ j → j < 8 * g.bitmap_size_bytes → b.test_bit cleaned j ≡ false)
  unfolding format_bitmap_nodetable read_at memcpy
  format_bitmap-disk basura size enough =
      let d = t.is_disk in
      let area : List ℕ = drop (g.bitmap_start * block_size) (disk front bits back) in
      let whole : List ℕ = take block_size area ++ drop block_size basura in
      let fits : block_size ≤ length area = omega (
        arith,
        enough,
        d.placed,
        d.sized,
        length-drop (g.bitmap_start * block_size) (disk front bits back),
        length-append front (bits ++ back),
        length-append bits back,
      ) in
      let measured : length whole ≡ g.bitmap_size_bytes = omega (
        arith,
        size,
        enough,
        length-append (take block_size area) (drop block_size basura),
        length-take block_size area fits,
        length-drop block_size basura,
      ) in
      let rounds : ℕ = g.bitmap_size_bytes * 8 - 1 + 1 - 2 in
      let result = clean_from-Cleaned b c rounds 2 whole (omega (arith, measured, enough)) in
      (
        clean_from b c rounds 2 whole,
        rw (le→leb block_size g.bitmap_size_bytes enough, le→leb block_size (length area) fits)
            (ap (λ (l : List ℕ). some l) (write_bitmap-disk d (clean_from b c rounds 2 whole))),
        result.same_length ∙ measured,
        λ j low high. result.clean j low (omega (arith, high, enough)),
      )

  -- The three blocks of the header, the bitmap and the root directory.
  set_first :
      (cleaned : List ℕ)
      → length cleaned ≡ g.bitmap_size_bytes
      → block_size ≤ g.bitmap_size_bytes
      → (j : ℕ) → j < 3
      → b.test_bit (b.set_bit (b.set_bit (b.set_bit cleaned 0) 1) 2) j ≡ true
  set_first cleaned size enough zero h =
      b.test_bit-set_bit_ne _ 2 0 (omega arith)
      ∙ b.test_bit-set_bit_ne _ 1 0 (omega arith)
      ∙ b.test_bit-set_bit cleaned 0 (omega (arith, size, enough))
  set_first cleaned size enough (suc zero) h =
      b.test_bit-set_bit_ne _ 2 1 (omega arith)
      ∙ b.test_bit-set_bit _ 1 (omega (arith, size, enough, b.length-set_bit cleaned 0))
  set_first cleaned size enough (suc (suc zero)) h = b.test_bit-set_bit _ 2 (
      omega
        (arith, size, enough, b.length-set_bit cleaned 0, b.length-set_bit (b.set_bit cleaned 0) 1))
  set_first cleaned size enough (suc (suc (suc j))) h = absurd (omega (arith, h))

  -- Formatting succeeds and leaves blocks 0, 1 and 2 occupied, every other block that has a bit free
  -- and the given node in the first block of the node table. The bitmap has at least a block's bytes
  -- and lies in front of the node table, malloc gave memory of its size, and the node's fields have
  -- the sizes of the struct.
  pub write_format-Formatted :
      (basura : List ℕ) (root : Node)
      → length basura ≡ g.bitmap_size_bytes
      → block_size ≤ g.bitmap_size_bytes
      → IsNode root
      → Formatted b c g basura (disk front bits back) root
  unfolding write_format
  write_format-Formatted basura root size enough sized =
      let (cleaned, formatted, measured, clean) = format_bitmap-disk basura size enough in
      let two : List ℕ = b.set_bit (b.set_bit cleaned 0) 1 in
      let final : List ℕ = b.set_bit two 2 in
      let at : (l : List ℕ) → length l ≡ g.bitmap_size_bytes → IsDisk g front l back =
        λ l e. record { placed = t.is_disk.placed; sized = e } in
      let one_size : length (b.set_bit cleaned 0) ≡ g.bitmap_size_bytes =
        b.length-set_bit cleaned 0 ∙ measured in
      let two_size : length two ≡ g.bitmap_size_bytes = b.length-set_bit _ 1 ∙ one_size in
      let final_size : length final ≡ g.bitmap_size_bytes = b.length-set_bit two 2 ∙ two_size in
      record {
        after = write_node (disk front final back) g.node_table_start root;
        result =
            rw (formatted, set_block-disk cleaned 0 (at cleaned measured))
              (rw (set_block-disk _ 1 (at _ one_size), set_block-disk two 2 (at two two_size))
                refl);
        root_there = (read_node-write_node (disk front final back) g.node_table_start root sized).0;
        bits_after = final;
        bitmap =
            read_bitmap-write_node t final g.node_table_start root (at final final_size)
              (omega arith);
        occupied = set_first cleaned measured enough;
        free = λ j low high.
            b.test_bit-set_bit_ne two 2 j (omega (arith, low))
            ∙ b.test_bit-set_bit_ne _ 1 j (omega (arith, low))
            ∙ b.test_bit-set_bit_ne cleaned 0 j (omega (arith, low))
            ∙ clean j (omega (arith, low)) high;
      }
