-- ===== src/Sac/Server/Write.antt =====
-- action_write and write_block of fileSystem/sac/sac_servidor/sac_servidor.c, where an int holds a
-- pointer. Offsets and sizes are the numbers that atoi gives for texts of
-- digits, with a sum below 2 ^ 31. The copy of the blocks on the stack is not used.
use locomatch.Prelude.{
  ℕ, suc, zero, ◌+◌, ◌-◌, ◌*◌, ◌/◌, ◌%◌, List, [], ◌∷◌, ◌++◌, Option, none, some, length, take,
  drop, ltb, leb, ◌==◌, if◌then◌else◌,
}
use locomatch.Prelude.Int.{pos, negsuc}
use locomatch.Prelude.Maybe.{◌>>=◌}
use locomatch.Prelude.Text.{strcmp, strdup}
use locomatch.Sockets.Bytes.{load_int, int_bytes}
use locomatch.Sac.Blocks.{block_size, data_blocks, find_free_block, set_block_as_occupied}
use locomatch.Sac.OpenedFiles.{is_file_opened}
use locomatch.Sac.Disk.{Node, write_at, read_node, write_node}
use locomatch.Sac.Lookup.{root, check_node_state}
use locomatch.Sac.Server.{
  Entorno, write_string, Servidor, eisdir, ebadf, sprintf, print_int, locate,
}

-- package_write, with the texts of the numbers.
pub record PackageWrite : Type 0 where
  pub path : List ℕ
  pub buf : List ℕ
  pub size_s : List ℕ
  pub offset_s : List ℕ

unfoldable pub write_block : List ℕ → ℕ → ℕ → List ℕ → List ℕ
unfolding write_at
write_block disco block_number offset string =
    write_at disco (block_size * block_number + offset) string

-- `while(offset_d >= BLOCK_SIZE)`: the rounds left; the block's position and the offset in it.
unfoldable pub advance : ℕ → ℕ → ℕ → ℕ × ℕ
advance zero offset_d block_position = (block_position, offset_d)
advance (suc rounds) offset_d block_position =
    let rest = advance rounds (offset_d - block_size) (block_position + 1) in
    if leb block_size offset_d then rest else (block_position, offset_d)

-- The first position with a zero, of the entries left.
unfoldable pub last_position : List ℕ → ℕ → ℕ → Option ℕ
last_position blocks zero i = none
last_position blocks (suc entries) i = do
  block ← load_int (drop (4 * i) blocks)
  let rest = last_position blocks entries (i + 1)
  (if block == 0 then some i else rest)

-- blocks[i] = block
unfoldable pub set_block : List ℕ → ℕ → ℕ → List ℕ
set_block blocks i block = take (4 * i) blocks ++ (int_bytes block ++ drop (4 * i + 4) blocks)

-- The number of blocks that hold so many bytes.
unfoldable pub blocks_count : ℕ → ℕ
blocks_count filesize = filesize / block_size + (if filesize % block_size == 0 then 0 else 1)

module _ (e : Entorno) where
  open e use {decimal, bits, time, basura}
  open decimal use {atoi}

  -- The loop that adds blocks; last_block_position stays. The bit array has no bit -1.
  unfoldable pub add_blocks : ℕ → Servidor → ℕ → List ℕ → Option (List ℕ × List ℕ)
  add_blocks zero s last_block_position blocks = some (s.disco, blocks)
  add_blocks (suc b) s last_block_position blocks = do
    free_block ← find_free_block bits s.geometry s.disco data_blocks
    elim free_block [
      | pos block ↦ do
        disco ← set_block_as_occupied bits s.geometry s.disco block
        let next =
            set_block (set_block blocks last_block_position block) (last_block_position + 1) 0
        let rest = add_blocks b (record s { disco = disco }) last_block_position next
        (if ltb (last_block_position + 1) 1000 then rest else none)
      | negsuc n ↦ none
    ]

  -- strncpy of `n` characters at this position of the text, and what strlen then finds: behind a
  -- text without an end lies the last byte that malloc left.
  unfoldable pub temporal_string : List ℕ → ℕ → ℕ → Option (List ℕ)
  temporal_string buf amount_written n =
      let rest = drop amount_written buf in
      let full = strdup (take n rest ++ drop n (basura write_string)) in
      if leb amount_written (length buf)
      then (if ltb (length rest) n then some rest else full)
      else none

  -- `while(size_to_write != 0)`. Once more is written than was left, temporal_write is negative:
  -- malloc gives NULL, to which strncpy then writes.
  unfoldable pub write_loop : ℕ → List ℕ → ℕ → ℕ → List ℕ → ℕ → ℕ → ℕ → Option (List ℕ × ℕ)
  unfolding write_block temporal_string
  write_loop zero disco block offset_d buf amount_written size_to_write temporal_write = none
  write_loop (suc fuel) disco block offset_d buf amount_written size_to_write temporal_write =
      let more : Option (List ℕ × ℕ) = do
        string ← temporal_string buf amount_written temporal_write
        let left = size_to_write - temporal_write
        let temporal = if leb block_size left then block_size else left
        let rest =
            write_loop fuel (write_block disco block offset_d string) block offset_d buf
              (amount_written + temporal_write) left temporal
        (if ltb size_to_write temporal_write then none else rest)
      in if size_to_write == 0 then some (disco, amount_written) else more

  -- The blocks that a larger file needs; the disk and the node's blocks after it.
  unfoldable pub grow : Servidor → Node → ℕ → Option (List ℕ × List ℕ)
  unfolding add_blocks last_position blocks_count
  grow s file_node new_file_size =
      let larger : Option (List ℕ × List ℕ) = do
        last_block_position ← last_position file_node.blocks 1000 0
        add_blocks (blocks_count new_file_size - blocks_count file_node.filesize) s
            last_block_position file_node.blocks
      in if ltb file_node.filesize new_file_size then larger else some (s.disco, file_node.blocks)

  -- From the reading of the node on.
  unfoldable pub write_opened : Servidor → ℕ → PackageWrite → Option (List ℕ × Servidor)
  write_opened s file_node_number request = do
    file_node ← read_node s.disco file_node_number
    let offset = atoi (request.offset_s ++ 0 ∷ [])
    let size_d = atoi (request.size_s ++ 0 ∷ [])
    let offset_d = if ltb file_node.filesize offset then file_node.filesize else offset
    let new_file_size =
        if ltb file_node.filesize (offset_d + size_d) then offset_d + size_d else file_node.filesize
    let (block_position, in_block) = advance offset_d offset_d 0
    (disco, blocks) ← grow s file_node new_file_size
    block ← load_int (drop (4 * block_position) blocks)
    (disco_after, amount_written) ←
        write_loop (size_d + 1) disco block in_block request.buf 0 size_d (block_size - in_block)
    let node_after = record file_node { filesize = new_file_size; modified = time; blocks = blocks }
    response ← sprintf 10 (print_int e amount_written)
    some (response, record s { disco = write_node disco_after file_node_number node_after })

  unfoldable pub action_write : Servidor → PackageWrite → Option (List ℕ × Servidor)
  action_write s request =
      let found : Option (List ℕ × Servidor) = do
        file_node_number ← locate e s request.path
        let existing : Option (List ℕ × Servidor) = do
          file_state ← check_node_state s.disco file_node_number
          let written = write_opened s file_node_number request
          let opened =
              if is_file_opened s.opened file_node_number == 0 then some (ebadf, s) else written
          let not_deleted = if file_state == 2 then some (eisdir, s) else opened
          (if file_state == 0 then some (ebadf, s) else not_deleted)
        (if file_node_number == 0 then some (ebadf, s) else existing)
      in if strcmp request.path root then some (eisdir, s) else found
