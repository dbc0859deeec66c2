-- ===== src/Sac/Server/Create.antt =====
-- action_mknod and action_mkdir of fileSystem/sac/sac_servidor/sac_servidor.c. Both check the same
-- conditions, up to the state that a node with the same path may not have, and then make a node.
use locomatch.Prelude.{
  ℕ, ◌+◌, ◌-◌, Bool, ◌||◌, List, [], ◌∷◌, ◌++◌, Option, none, some, length, get_elem?, drop, ltb,
  leb, ◌==◌, if◌then◌else◌,
}
use locomatch.Prelude.Int.{pos, negsuc}
use locomatch.Prelude.Maybe.{◌>>=◌}
use locomatch.Sockets.Bytes.{int_bytes}
use locomatch.Sac.Blocks.{node_table, find_free_block, set_block_as_occupied}
use locomatch.Sac.OpenedFiles.{max_filename_length}
use locomatch.Sac.Disk.{Node, write_node}
use locomatch.Sac.Lookup.{check_node_state}
use locomatch.Sac.Server.{Entorno, new_node_name, new_node_blocks, Servidor, enoent, locate}

abbrev pub eexist : List ℕ
eexist = b'E' ∷ b'E' ∷ b'X' ∷ b'I' ∷ b'S' ∷ b'T' ∷ []

abbrev pub enametoolong : List ℕ
enametoolong =
    b'E' ∷ b'N' ∷ b'A' ∷ b'M' ∷ b'E' ∷ b'T' ∷ b'O' ∷ b'O' ∷ b'L' ∷ b'O' ∷ b'N' ∷ b'G' ∷ []

abbrev pub enotdir : List ℕ
enotdir = b'E' ∷ b'N' ∷ b'O' ∷ b'T' ∷ b'D' ∷ b'I' ∷ b'R' ∷ []

-- What the checks of a request come to: an answer at once, or the name of the new node and the
-- block of its directory.
pub data Checked : Type 0 where
  refused : List ℕ → Checked
  accepted : List ℕ → ℕ → Checked

-- How a request ends: with an answer, or in the fseek on the node as if it were a file, with the
-- disk as it is then.
pub data Ended : Type 0 where
  answered : List ℕ → Ended
  crashed : List ℕ → Ended

-- The components with a slash behind each.
unfoldable pub with_slashes : List (List ℕ) → List ℕ
with_slashes [] = []
with_slashes (t ∷ ts) = t ++ b'/' ∷ with_slashes ts

-- The first components, all but the last one.
unfoldable pub directories : List (List ℕ) → List (List ℕ)
directories [] = []
directories (t ∷ []) = []
directories (t ∷ u ∷ us) = t ∷ directories (u ∷ us)

module _ (e : Entorno) where
  open e use {string_split, bits, time, basura}

  -- The directory of a path with several components, in an area of the path's size without the name.
  unfoldable pub check_directory : Servidor → List ℕ → List (List ℕ) → List ℕ → Option Checked
  unfolding with_slashes directories
  check_directory s path path_array file_name =
      let aux_path = b'/' ∷ with_slashes (directories path_array) in
      let searched : Option Checked = do
        directory_node_number ← locate e s aux_path
        let existing : Option Checked = do
          directory_state ← check_node_state s.disco directory_node_number
          some (
              if directory_state == 2
              then accepted file_name directory_node_number
              else refused enotdir)
        (if directory_node_number == 0 then some (refused enoent) else existing)
      in if leb (length aux_path + length file_name) (length path) then searched else none

  -- The name and the directory. The components of "/" are read before the array's start.
  unfoldable pub check_name : Servidor → List ℕ → Option Checked
  unfolding check_directory
  check_name s path = do
    let path_array = string_split path b'/'
    file_name ←
        (if length path_array == 0 then none else get_elem? path_array (length path_array - 1))
    let nested = check_directory s path path_array file_name
    let short = if length path_array == 1 then some (accepted file_name 0) else nested
    (if ltb max_filename_length (length file_name) then some (refused enametoolong) else short)

  -- The checks in front of find_free_block; `taken` says which states of a node with the same path
  -- are refused.
  unfoldable pub check_request : (ℕ → Bool) → Servidor → List ℕ → Option Checked
  unfolding check_name
  check_request taken s path = do
    file_node_number ← locate e s path
    let existing : Option Checked = do
      file_state ← check_node_state s.disco file_node_number
      let free = check_name s path
      (if taken file_state then some (refused eexist) else free)
    let named = check_name s path
    (if file_node_number == 0 then named else existing)

  -- The new node. Its name has no terminating zero, and only one block is set.
  unfoldable pub new_node : ℕ → List ℕ → ℕ → Node
  new_node state file_name directory_node_number = record {
    state = state;
    fname = file_name ++ drop (length file_name) (basura new_node_name);
    parent_block = directory_node_number;
    filesize = 0;
    created = time;
    modified = time;
    blocks = int_bytes 0 ++ drop 4 (basura new_node_blocks);
  }

  -- From find_free_block up to the writing of the new node: its block and the disk. With no free
  -- block, bit -1 of the bit array is set.
  unfoldable pub create_node : ℕ → Servidor → List ℕ → ℕ → Option (ℕ × List ℕ)
  unfolding new_node
  create_node state s file_name directory_node_number = do
    free_block ← find_free_block bits s.geometry s.disco node_table
    elim free_block [
      | pos block ↦ do
        disco ← set_block_as_occupied bits s.geometry s.disco block
        some (block, write_node disco block (new_node state file_name directory_node_number))
      | negsuc n ↦ none
    ]

  unfoldable pub finish : ℕ → Servidor → Checked → Option Ended
  unfolding create_node
  finish state s (refused response) = some (answered response)
  finish state s (accepted file_name directory_node_number) = do
    (block, disco) ← create_node state s file_name directory_node_number
    some (crashed disco)

  -- state 1 or 0
  unfoldable pub is_file : ℕ → Bool
  is_file file_state = file_state == 1 || file_state == 0

  unfoldable pub action_mknod : Servidor → List ℕ → Option Ended
  unfolding check_request finish is_file
  action_mknod s path = do checked ← check_request is_file s path; finish 1 s checked

  unfoldable pub action_mkdir : Servidor → List ℕ → Option Ended
  unfolding check_request finish
  action_mkdir s path = do
    checked ← check_request (λ file_state. file_state == 2) s path
    finish 2 s checked
