-- ===== src/Sac/Disk.antt =====
-- The disk of fileSystem/sac/sac_servidor: the file disco.bin as its bytes, and struct sac_file_t,
-- which fills a block. A `none` is a file that ends within what is read.
pub mod Layout
use locomatch.Prelude.{
  ℕ, ◌+◌, ◌-◌, ◌*◌, ◌/◌, ◌%◌, ◌^◌, List, [], ◌∷◌, ◌++◌, Option, none, some, leb, if◌then◌else◌,
  length, take, drop, replicate,
}
use locomatch.Prelude.Maybe.{◌>>=◌}
use locomatch.Sockets.Bytes.{int_bytes, load_int, memcpy}
use locomatch.Sac.Blocks.{block_size}

-- struct sac_file_t. The two times and the blocks are kept as their bytes; the fields of 1, 71, 4,
-- 4, 8, 8 and 4000 bytes follow each other without padding.
pub record Node : Type 0 where
  pub state : ℕ
  pub fname : List ℕ
  pub parent_block : ℕ
  pub filesize : ℕ
  pub created : List ℕ
  pub modified : List ℕ
  pub blocks : List ℕ

-- The struct in memory.
unfoldable pub node_bytes : Node → List ℕ
node_bytes n =
    n.state
    ∷ (n.fname
        ++ (int_bytes n.parent_block
            ++ (int_bytes n.filesize ++ (n.created ++ (n.modified ++ n.blocks)))))

-- The first bytes of an area, and the others.
unfoldable pub field : ℕ → List ℕ → Option (List ℕ × List ℕ)
field n area = do bytes ← memcpy area n; some (bytes, drop n area)

unfoldable pub int_field : List ℕ → Option (ℕ × List ℕ)
int_field area = do n ← load_int area; some (n, drop 4 area)

unfoldable pub byte_field : List ℕ → Option (ℕ × List ℕ)
byte_field [] = none
byte_field (b ∷ rest) = some (b, rest)

-- The struct that some memory holds.
unfoldable pub node_of : List ℕ → Option Node
node_of bytes = do
  (state, b₁) ← byte_field bytes
  (fname, b₂) ← field 71 b₁
  (parent_block, b₃) ← int_field b₂
  (filesize, b₄) ← int_field b₃
  (created, b₅) ← field 8 b₄
  (modified, b₆) ← field 8 b₅
  (blocks, b₇) ← field 4000 b₆
  some (record {
    state = state;
    fname = fname;
    parent_block = parent_block;
    filesize = filesize;
    created = created;
    modified = modified;
    blocks = blocks;
  })

-- fseek and fread of `n` bytes.
unfoldable pub read_at : List ℕ → ℕ → ℕ → Option (List ℕ)
read_at disco position n = memcpy (drop position disco) n

-- fseek and fwrite; a gap behind the end of the file is filled with zeros.
unfoldable pub write_at : List ℕ → ℕ → List ℕ → List ℕ
write_at disco position bytes =
    take position (disco ++ replicate (position - length disco) 0)
    ++ (bytes ++ drop (position + length bytes) disco)

-- The node in a block.
unfoldable pub read_node : List ℕ → ℕ → Option Node
unfolding read_at
read_node disco block = do bytes ← read_at disco (block * block_size) block_size; node_of bytes

unfoldable pub write_node : List ℕ → ℕ → Node → List ℕ
unfolding write_at
write_node disco block node = write_at disco (block * block_size) (node_bytes node)
