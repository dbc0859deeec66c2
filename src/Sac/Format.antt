-- ===== src/Sac/Format.antt =====
-- The formatting of the disk in fileSystem/sac/sac_servidor/sac_servidor.c: format_disk and
-- format_bitmap_nodetable. `none` is a disk that ends too early, or one of which a part would be in
-- front of its start, as where the size is negative as an int.
pub mod Areas
pub mod Cleaned
pub mod Formatted
use locomatch.Prelude.{
  ℕ, suc, zero, ◌+◌, ◌-◌, ◌*◌, ◌/◌, ◌%◌, ◌^◌, ltb, ◌≤◌, ◌<◌, ◌≡◌, ◌≢◌, Bool, true, false, List, [],
  ◌∷◌, ◌++◌, Option, none, some, length, take, drop, leb, ◌==◌, if◌then◌else◌,
}
use locomatch.Prelude.Int.{ℤ, pos, negsuc, ◌+ℤ◌, ◌-ℤ◌}
use locomatch.Prelude.Maybe.{◌>>=◌}
use locomatch.Prelude.Text.{strcmp}
use locomatch.Sockets.Bytes.{int_bytes}
use locomatch.Sac.Blocks.{BitArray, block_size, Geometry, write_bitmap, set_block_as_occupied}
use locomatch.Sac.Disk.{Node, read_at, read_node, write_node}
use locomatch.Sac.Lookup.{node_name}

-- bitarray_clean_bit of the commons library.
pub record CleanBit (b : BitArray) : Type 0 where
  pub clean_bit : List ℕ → ℕ → List ℕ
  pub test_bit-clean_bit :
      (bits : List ℕ) (i : ℕ) → i < 8 * length bits → b.test_bit (clean_bit bits i) i ≡ false
  pub test_bit-clean_bit_ne :
      (bits : List ℕ) (i j : ℕ) → i ≢ j → b.test_bit (clean_bit bits i) j ≡ b.test_bit bits j
  pub length-clean_bit : (bits : List ℕ) (i : ℕ) → length (clean_bit bits i) ≡ length bits

abbrev pub header_size_blocks : ℕ
header_size_blocks = 1

abbrev pub node_table_size_blocks : ℕ
node_table_size_blocks = 1024

-- `int disk_size_bytes = st.st_size`: the low 32 bits, with their sign.
abbrev pub int_of : ℕ → ℤ
int_of st_size =
    let low = st_size % 2 ^ 32 in if ltb low (2 ^ 31) then pos low else negsuc (2 ^ 32 - 1 - low)

-- The quotient of an int, which C rounds towards 0.
infixl 70 ◌/ℤ◌
abbrev pub ◌/ℤ◌ : ℤ → ℕ → ℤ
pos n /ℤ k = pos (n / k)
negsuc n /ℤ k = pos 0 -ℤ pos (suc n / k)

-- The globals that format_disk sets, which are ints.
pub record Layout : Type 0 where
  pub bitmap_start : ℤ
  pub bitmap_size_bytes : ℤ
  pub node_table_start : ℤ
  pub node_table_end : ℤ
  pub data_blocks_start : ℤ
  pub data_blocks_end : ℤ

-- Where things are on a disk of this size. The rounding of the bitmap's size, which is an int
-- already, changes nothing.
unfoldable pub layout_of : ℤ → Layout
layout_of disk_size_bytes =
    let bitmap_size_bytes = disk_size_bytes /ℤ block_size /ℤ 8 in
    let bitmap_size_blocks = bitmap_size_bytes /ℤ block_size in
    let bitmap_end = pos 1 +ℤ bitmap_size_blocks -ℤ pos 1 in
    let node_table_start = bitmap_end +ℤ pos 1 in
    let node_table_end = node_table_start +ℤ pos node_table_size_blocks -ℤ pos 1 in
    let data_blocks_size_blocks =
      disk_size_bytes /ℤ block_size
      -ℤ pos header_size_blocks
      -ℤ bitmap_size_blocks
      -ℤ pos node_table_size_blocks in
    let data_blocks_start = node_table_end +ℤ pos 1 in
    record {
      bitmap_start = pos 1;
      bitmap_size_bytes = bitmap_size_bytes;
      node_table_start = node_table_start;
      node_table_end = node_table_end;
      data_blocks_start = data_blocks_start;
      data_blocks_end = data_blocks_start +ℤ data_blocks_size_blocks -ℤ pos 1;
    }

-- From the size of the disk's file on.
unfoldable pub layout : ℕ → Layout
layout st_size = layout_of (int_of st_size)

-- The layout where nothing of it is negative; what becomes of the others is left out.
abbrev pub natural : ℤ → Option ℕ
natural (pos n) = some n
natural (negsuc n) = none

unfoldable pub geometry : Layout → Option Geometry
geometry l = do
  bitmap_start ← natural l.bitmap_start
  bitmap_size_bytes ← natural l.bitmap_size_bytes
  node_table_start ← natural l.node_table_start
  node_table_end ← natural l.node_table_end
  data_blocks_start ← natural l.data_blocks_start
  data_blocks_end ← natural l.data_blocks_end
  some (record {
    bitmap_start = bitmap_start;
    bitmap_size_bytes = bitmap_size_bytes;
    node_table_start = node_table_start;
    node_table_end = node_table_end;
    data_blocks_start = data_blocks_start;
    data_blocks_end = data_blocks_end;
  })

-- The node of the root directory, with what the stack held.
unfoldable pub root_node : List ℕ → List ℕ → List ℕ → Node
root_node time name_basura blocks_basura = record {
  state = 2;
  fname = b'r' ∷ b'o' ∷ b'o' ∷ b't' ∷ drop 4 name_basura;
  parent_block = 0;
  filesize = 0;
  created = time;
  modified = time;
  blocks = int_bytes 0 ++ drop 4 blocks_basura;
}

module _ (b : BitArray) (c : CleanBit b) where
  -- `for(int i = area_start; i<=area_end ;i++)`: the rounds left, and the index.
  unfoldable pub clean_from : ℕ → ℕ → List ℕ → List ℕ
  clean_from zero i bitarray = bitarray
  clean_from (suc rounds) i bitarray =
      let cleaned = if b.test_bit bitarray i then c.clean_bit bitarray i else bitarray in
      clean_from rounds (i + 1) cleaned

  -- One block of the bitmap is read, into memory of the bitmap's size; the rest of it is what malloc
  -- left.
  unfoldable pub format_bitmap_nodetable : List ℕ → Geometry → List ℕ → Option (List ℕ)
  unfolding clean_from
  format_bitmap_nodetable basura g disco =
      let formatted : Option (List ℕ) = do
        bitmap_block ← read_at disco (g.bitmap_start * block_size) block_size
        let bitmap_blocks = bitmap_block ++ drop block_size basura
        let area_start : ℕ = 2
        let area_end : ℕ = g.bitmap_size_bytes * 8 - 1
        some
            (write_bitmap g disco (clean_from (area_end + 1 - area_start) area_start bitmap_blocks))
      in if leb block_size g.bitmap_size_bytes then formatted else none

  -- The branch that formats.
  unfoldable pub write_format : List ℕ → Geometry → List ℕ → Node → Option (List ℕ)
  unfolding format_bitmap_nodetable
  write_format basura g disco file_node = do
    cleaned ← format_bitmap_nodetable basura g disco
    with_header ← set_block_as_occupied b g cleaned 0
    with_bitmap ← set_block_as_occupied b g with_header 1
    with_root ← set_block_as_occupied b g with_bitmap 2
    some (write_node with_root g.node_table_start file_node)

  -- A disk whose first node is named root is left alone.
  unfoldable pub format_disk :
      List ℕ → List ℕ → List ℕ → List ℕ → List ℕ → Option (Geometry × List ℕ)
  unfolding write_format node_name root_node
  format_disk basura time name_basura blocks_basura disco = do
    let file_node = root_node time name_basura blocks_basura
    g ← geometry (layout (length disco))
    first_node ← read_node disco g.node_table_start
    fname ← node_name first_node
    let formatted : Option (Geometry × List ℕ) = do
      disco_after ← write_format basura g disco file_node
      some (g, disco_after)
    (if strcmp fname (b'r' ∷ b'o' ∷ b'o' ∷ b't' ∷ []) then some (g, disco) else formatted)
