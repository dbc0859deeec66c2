-- ===== src/Sac/Server/Read.antt =====
-- action_read and read_block of fileSystem/sac/sac_servidor/sac_servidor.c. Offsets and sizes are
-- the numbers that atoi gives for texts of digits.
use locomatch.Prelude.{
  ℕ, suc, zero, ◌+◌, ◌-◌, ◌*◌, ◌^◌, List, [], ◌∷◌, ◌++◌, Option, none, some, length, drop, ltb, leb,
  ◌==◌, if◌then◌else◌,
}
use locomatch.Prelude.Maybe.{◌>>=◌}
use locomatch.Prelude.Text.{strcmp, strdup}
use locomatch.Sockets.Bytes.{load_int}
use locomatch.Sac.Blocks.{block_size}
use locomatch.Sac.OpenedFiles.{is_file_opened}
use locomatch.Sac.Disk.{Node, read_at, read_node}
use locomatch.Sac.Lookup.{root, check_node_state}
use locomatch.Sac.Server.{Entorno, read_array, Servidor, eisdir, ebadf, locate}

-- package_read, with the texts of the numbers.
pub record PackageRead : Type 0 where
  pub path : List ℕ
  pub size : List ℕ
  pub offset : List ℕ

abbrev pub emptyfile : List ℕ
emptyfile = b'e' ∷ b'm' ∷ b'p' ∷ b't' ∷ b'y' ∷ b'f' ∷ b'i' ∷ b'l' ∷ b'e' ∷ []

abbrev pub eoverflow : List ℕ
eoverflow = b'E' ∷ b'O' ∷ b'V' ∷ b'E' ∷ b'R' ∷ b'F' ∷ b'L' ∷ b'O' ∷ b'W' ∷ []

-- The bytes without a terminating zero.
unfoldable pub read_block : List ℕ → ℕ → ℕ → Option (List ℕ)
unfolding read_at
read_block disco block offset = read_at disco (block_size * block + offset) (block_size - offset)

-- `while(offset_d > BLOCK_SIZE)`: the rounds left; the block's index and the offset in it.
unfoldable pub skip_blocks : ℕ → ℕ → ℕ → ℕ × ℕ
skip_blocks zero offset_d i = (i, offset_d)
skip_blocks (suc rounds) offset_d i =
    let rest = skip_blocks rounds (offset_d - block_size) (i + 1) in
    if ltb block_size offset_d then rest else (i, offset_d)

-- The array `blocks` on the stack: as many bytes of the node's as there are in front of a zero.
unfoldable pub copied_blocks : Entorno → Node → Option (List ℕ)
unfolding strdup
copied_blocks e file_node = do
  copied ← strdup file_node.blocks
  some (copied ++ drop (length copied) (e.basura read_array))

module _ (disco blocks : List ℕ) (size_d : ℕ) where
  -- `while(blocks[i] != '\0')`: the entries left. size_to_read and temporal_read only matter to a
  -- malloc whose result is given up.
  unfoldable pub read_blocks : ℕ → ℕ → ℕ → List ℕ → Option (List ℕ)
  unfolding read_block
  read_blocks zero i offset_d buff = none
  read_blocks (suc entries) i offset_d buff = do
    block ← load_int (drop (4 * i) blocks)
    let more : Option (List ℕ) = do
      temporal_buff ← read_block disco block offset_d
      text ← strdup temporal_buff
      let rest = read_blocks entries (i + 1) 0 (buff ++ text)
      (if leb (length (buff ++ text)) size_d then rest else none)
    (if block == 0 then some buff else more)

module _ (e : Entorno) where
  open e use {decimal}
  open decimal use {atoi}

  -- From the reading of the node on.
  unfoldable pub read_opened : Servidor → ℕ → PackageRead → Option (List ℕ)
  read_opened s file_node_number request = do
    file_node ← read_node s.disco file_node_number
    blocks ← copied_blocks e file_node
    first ← load_int blocks
    let offset_d = atoi (request.offset ++ 0 ∷ [])
    let size_d = atoi (request.size ++ 0 ∷ [])
    let (i, offset) = skip_blocks offset_d offset_d 0
    let content = read_blocks s.disco blocks size_d (1000 - i) i offset []
    let fits = if ltb file_node.filesize (offset_d + size_d) then some eoverflow else content
    let added = if ltb (offset_d + size_d) (2 ^ 31) then fits else none
    (if first == 0 then some emptyfile else added)

  unfoldable pub action_read : Servidor → PackageRead → Option (List ℕ)
  unfolding read_opened is_file_opened
  action_read s request =
      let found : Option (List ℕ) = do
        file_node_number ← locate e s request.path
        let existing : Option (List ℕ) = do
          file_state ← check_node_state s.disco file_node_number
          let content = read_opened s file_node_number request
          let opened = if is_file_opened s.opened file_node_number == 0 then some ebadf else content
          let not_deleted = if file_state == 2 then some eisdir else opened
          (if file_state == 0 then some ebadf else not_deleted)
        (if file_node_number == 0 then some ebadf else existing)
      in if strcmp request.path root then some eisdir else found
