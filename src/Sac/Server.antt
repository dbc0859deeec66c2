-- ===== src/Sac/Server.antt =====
-- The requests of fileSystem/sac/sac_servidor/sac_servidor.c: action_getattr, action_open,
-- action_opendir, action_readdir. `none` is undefined behaviour, or a disk that ends too early.
pub mod Read
pub mod Write
pub mod Create
pub mod Opening
pub mod Loops
pub mod Writing
pub mod Reading
pub mod OpenRead
pub mod Creation
use locomatch.Prelude.{
  ℕ, suc, zero, ◌+◌, ◌-◌, ◌^◌, ◌%◌, ◌<◌, ◌≡◌, refl, arith, lt→ltb, Bool, true, false, ◌||◌, List,
  [], ◌∷◌, ◌++◌, Option, none, some, length, drop, ltb, leb, ◌==◌, if◌then◌else◌,
}
use locomatch.Prelude.Maybe.{◌>>=◌}
use locomatch.Prelude.Text.{strcmp}
use locomatch.Protocol.Decimal.{Decimal}
use locomatch.Sac.Blocks.{BitArray, Geometry}
use locomatch.Sac.OpenedFiles.{OpenedFile, max_filename_length, insert_to_opened_files_table}
use locomatch.Sac.Disk.{Node, read_node}
use locomatch.Sac.Lookup.{Split, node_name, root, search_for_file, check_node_state}

-- The memory that is read before it is written.
pub data Place : Type 0 where
  opened_file_name new_entry_name : Place
  new_node_name new_node_blocks read_array write_string : Place

-- What the server takes from the libraries: string_split, numbers as texts, bit arrays, the time as
-- it is kept in a node, and what each place in memory held before.
pub record Entorno : Type 0 where
  pub string_split : Split
  pub decimal : Decimal
  pub bits : BitArray
  pub time : List ℕ
  pub basura : Place → List ℕ

-- The disk, its geometry and the table of opened files.
pub record Servidor : Type 0 where
  pub geometry : Geometry
  pub disco : List ℕ
  pub opened : List OpenedFile

-- package_open and package_opendir. Of the flags the handlers keep the address.
pub record PackageOpen : Type 0 where
  pub path : List ℕ
  pub flags : ℕ

-- The answers.
abbrev pub s_ifdir : List ℕ
s_ifdir = b'S' ∷ b'_' ∷ b'I' ∷ b'F' ∷ b'D' ∷ b'I' ∷ b'R' ∷ []

abbrev pub s_ifreg : List ℕ
s_ifreg = b'S' ∷ b'_' ∷ b'I' ∷ b'F' ∷ b'R' ∷ b'E' ∷ b'G' ∷ b' ' ∷ []

abbrev pub enoent : List ℕ
enoent = b'E' ∷ b'N' ∷ b'O' ∷ b'E' ∷ b'N' ∷ b'T' ∷ []

abbrev pub minus_enoent : List ℕ
minus_enoent = b'-' ∷ enoent

abbrev pub eisdir : List ℕ
eisdir = b'E' ∷ b'I' ∷ b'S' ∷ b'D' ∷ b'I' ∷ b'R' ∷ []

abbrev pub ebadf : List ℕ
ebadf = b'E' ∷ b'B' ∷ b'A' ∷ b'D' ∷ b'F' ∷ []

-- sprintf into an area of `size` bytes.
unfoldable pub sprintf : ℕ → List ℕ → Option (List ℕ)
sprintf size text = if ltb (length text) size then some text else none

module _ (e : Entorno) where
  open e use {string_split, decimal, basura}
  open decimal use {itoa}

  -- "%d" reads an int: the low 32 bits of a size_t, an off_t or a uint32_t, with their sign.
  unfoldable pub print_int : ℕ → List ℕ
  print_int n =
      let low = n % 2 ^ 32 in if ltb low (2 ^ 31) then itoa low else b'-' ∷ itoa (2 ^ 32 - low)

  pub print_int-small : (n : ℕ) → n < 2 ^ 31 → print_int n ≡ itoa n
  unfolding print_int
  print_int-small n h =
      let same : n % 2 ^ 32 ≡ n = omega arith in rw (same, lt→ltb n (2 ^ 31) h) refl

  unfoldable pub locate : Servidor → List ℕ → Option ℕ
  locate s path = search_for_file string_split s.geometry.node_table_start s.disco path

  -- The branches for a node that was found.
  unfoldable pub attributes : Node → Option (List ℕ)
  unfolding print_int sprintf
  attributes file_node =
      let regular : Option (List ℕ) = do
        file_size_s ← sprintf 5 (print_int file_node.filesize)
        some (s_ifreg ++ file_size_s)
      in if file_node.state == 0 || file_node.state == 1
        then regular
        else (if file_node.state == 2 then some s_ifdir else some minus_enoent)

  unfoldable pub action_getattr : Servidor → List ℕ → Option (List ℕ)
  unfolding attributes
  action_getattr s path =
      let found : Option (List ℕ) = do
        file_node_number ← locate s path
        let existing : Option (List ℕ) = do
          file_node ← read_node s.disco file_node_number
          attributes file_node
        if file_node_number == 0 then some minus_enoent else existing
      in if strcmp path root then some s_ifdir else found

  -- The name of a new entry: strlen bytes of the node's name over what malloc left.
  unfoldable pub opened_name : Node → Option (List ℕ)
  unfolding node_name
  opened_name file_node = do
    fname ← node_name file_node
    (if leb (length fname) max_filename_length
        then some (fname ++ drop (length fname) (basura opened_file_name))
        else none)

  -- The end of action_open and of action_opendir, which does not set node_block. The fd of the new
  -- entry is set by the insertion.
  unfoldable pub add_opened_file : Servidor → ℕ → ℕ → ℕ → ℕ → Option (List ℕ × Servidor)
  unfolding opened_name sprintf
  add_opened_file s flags file_state file_node_number node_block = do
    file_node ← read_node s.disco file_node_number
    fname ← opened_name file_node
    let opened_file : OpenedFile = record {
      fd = 0;
      node_block = node_block;
      mode = flags % 2 ^ 8;
      state = file_state;
      fname = fname;
      parent_block = file_node.parent_block;
    }
    (file_descriptor, table) ←
        insert_to_opened_files_table (basura new_entry_name) s.opened opened_file
    file_descriptor_s ← sprintf 5 (print_int file_descriptor)
    some (file_descriptor_s, record s { opened = table })

  unfoldable pub action_open : Servidor → PackageOpen → Option (List ℕ × Servidor)
  unfolding add_opened_file
  action_open s request =
      let found : Option (List ℕ × Servidor) = do
        file_node_number ← locate s request.path
        let existing : Option (List ℕ × Servidor) = do
          file_state ← check_node_state s.disco file_node_number
          let file = add_opened_file s request.flags file_state file_node_number file_node_number
          let not_deleted = if file_state == 2 then some (eisdir, s) else file
          if file_state == 0 then some (minus_enoent, s) else not_deleted
        if file_node_number == 0 then some (minus_enoent, s) else existing
      in if strcmp request.path root then some (eisdir, s) else found

  -- The field node_block of the new entry is what malloc left.
  unfoldable pub action_opendir : ℕ → Servidor → PackageOpen → Option (List ℕ × Servidor)
  unfolding add_opened_file
  action_opendir node_block s request =
      let found : Option (List ℕ × Servidor) = do
        file_node_number ← locate s request.path
        let existing : Option (List ℕ × Servidor) = do
          file_state ← check_node_state s.disco file_node_number
          let directory = add_opened_file s request.flags file_state file_node_number node_block
          let not_deleted = if file_state == 1 then some (eisdir, s) else directory
          if file_state == 0 then some (minus_enoent, s) else not_deleted
        if file_node_number == 0 then some (minus_enoent, s) else existing
      in if strcmp request.path root then some (eisdir, s) else found

  -- strcmp(directory_node.blocks[i], '\0') reads a text at NULL.
  unfoldable pub search_for_dir_childs2 : Servidor → ℕ → Option (List ℕ)
  search_for_dir_childs2 s dir_node_number = do
    directory_node ← read_node s.disco dir_node_number
    none

  unfoldable pub action_readdir : Servidor → List ℕ → Option (List ℕ)
  unfolding search_for_dir_childs2
  action_readdir s path = do
    dir_node_number ← locate s path
    let existing : Option (List ℕ) = do
      dir_state ← check_node_state s.disco dir_node_number
      let childs = search_for_dir_childs2 s dir_node_number
      if dir_state == 0 || dir_state == 1 then some ebadf else childs
    if dir_node_number == 0 then some ebadf else existing
