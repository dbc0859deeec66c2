-- ===== src/Sac/Format/Areas.antt =====
-- Where format_disk places the parts of the disk, by the size that it takes the disk to have.
use locomatch.Prelude.{ℕ, ◌+◌, ◌-◌, ◌*◌, ◌/◌, ◌%◌, ◌^◌, ◌≡◌, ◌≤◌, ◌<◌, arith, refl, ap, ◌∙◌, some}
use locomatch.Prelude.Int.{ℤ, pos, ◌+ℤ◌, ◌-ℤ◌}
use mathlib.Core.Logic.{◌↔◌}
use locomatch.Sac.Blocks.{block_size, Geometry}
use locomatch.Sac.Format.{int_of, layout_of, layout, geometry}

-- Ints that are not negative.
pos_add : (a b : ℕ) → pos a +ℤ pos b ≡ pos (a + b)
unfolding ◌+ℤ◌
pos_add a b = ground arith

pos_sub : (a b : ℕ) → b ≤ a → pos a -ℤ pos b ≡ pos (a - b)
unfolding ◌-ℤ◌
pos_sub a b h = ground (arith, h)

abbrev bitmap_blocks : ℕ → ℕ
bitmap_blocks d = d / block_size / 8 / block_size

-- The layout of a disk with data blocks.
abbrev places : ℕ → Geometry
places d = record {
  bitmap_start = 1;
  bitmap_size_bytes = d / block_size / 8;
  node_table_start = 1 + bitmap_blocks d;
  node_table_end = 1024 + bitmap_blocks d;
  data_blocks_start = 1025 + bitmap_blocks d;
  data_blocks_end = d / block_size - 1;
}

-- The ints of format_disk, by the blocks `q` of the disk and `b` of the bitmap.
sum_less : (a b c d : ℕ) → d + c ≡ a + b → pos a +ℤ pos b -ℤ pos c ≡ pos d
sum_less a b c d e =
    ap (λ (z : ℤ). z -ℤ pos c) (pos_add a b)
    ∙ pos_sub (a + b) c (omega (arith, e))
    ∙ ap pos (omega (arith, e))

sum : (a b c : ℕ) → c ≡ a + b → pos a +ℤ pos b ≡ pos c
sum a b c e = pos_add a b ∙ ap pos (omega (arith, e))

less : (a b c : ℕ) → c + b ≡ a → pos a -ℤ pos b ≡ pos c
less a b c e = pos_sub a b (omega (arith, e)) ∙ ap pos (omega (arith, e))

layout_of-places :
    (d : ℕ)
    → 1026 + bitmap_blocks d ≤ d / block_size
    → geometry (layout_of (pos d)) ≡ some (places d)
unfolding layout_of geometry
layout_of-places d h =
    let q = d / block_size in
    let b = bitmap_blocks d in
    rw
      (
        sum_less 1 b 1 b (omega arith),
        sum b 1 (1 + b) (omega arith),
        sum_less (1 + b) 1024 1 (1024 + b) (omega arith),
        sum (1024 + b) 1 (1025 + b) (omega arith),
        less q 1 (q - 1) (omega (arith, h)),
        less (q - 1) b (q - 1 - b) (omega (arith, h)),
        less (q - 1 - b) 1024 (q - 1 - b - 1024) (omega (arith, h)),
        sum_less (1025 + b) (q - 1 - b - 1024) 1 (q - 1) (omega (arith, h)),
      )
      refl

-- The parts in their order.
pub record Areas (disk_size_bytes : ℕ) (g : Geometry) : Type 0 where
  pub bitmap_apart :
      (g.bitmap_start * block_size + g.bitmap_size_bytes ≤ g.node_table_start * block_size)
      ↔ (disk_size_bytes / block_size / 8 % block_size ≡ 0)
  pub node_table_size : g.node_table_start + 1024 ≡ g.data_blocks_start
  pub node_table_before : g.node_table_end < g.data_blocks_start
  pub data_blocks_inside : g.data_blocks_end < disk_size_bytes / block_size
  pub second_block :
      (g.node_table_start ≡ 2) ↔ (2 ^ 27 ≤ disk_size_bytes × disk_size_bytes < 2 ^ 28)

areas : (d : ℕ) → 1026 + bitmap_blocks d ≤ d / block_size → Areas d (places d)
areas d h = record {
  bitmap_apart = ((λ a. omega (arith, a)), (λ a. omega (arith, a)));
  node_table_size = omega arith;
  node_table_before = omega arith;
  data_blocks_inside = omega (arith, h);
  second_block = ((λ a. (omega (arith, a), omega (arith, a))), (λ a. omega (arith, a.0, a.1)));
}

-- The size of the disk counts as it fits an int. Where that is not negative and gives data blocks, no
-- part is in front of the disk, the node table has 1024 blocks, and the data blocks follow it and end
-- within that size. The bitmap ends in front of the node table exactly where it fills its blocks, and
-- the node table starts at block 2, where find_node takes it to start, exactly where that size is from
-- 128 MiB to below 256 MiB.
pub layout-Areas :
    (st_size disk_size_bytes : ℕ)
    → int_of st_size ≡ pos disk_size_bytes
    → 1026 + disk_size_bytes / block_size / 8 / block_size ≤ disk_size_bytes / block_size
    → (g : Geometry) × (geometry (layout st_size) ≡ some g) × Areas disk_size_bytes g
unfolding layout
layout-Areas st_size d e h =
    (places d, ap (λ (z : ℤ). geometry (layout_of z)) e ∙ layout_of-places d h, areas d h)
