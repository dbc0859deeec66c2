-- ===== src/Sac/Client.antt =====
-- The file system's client, fileSystem/sac/sac_cli/sac_cli.c: the message of each FUSE operation and
-- what it makes of the answer. `none` is undefined behaviour.
pub mod Words
pub mod RoundTrip
pub mod Stat
pub mod OpenRead
use locomatch.Prelude.{
  ℕ, suc, zero, ◌+◌, Bool, true, false, List, [], ◌∷◌, ◌++◌, Option, none, some, if◌then◌else◌, map,
}
use locomatch.Prelude.Maybe.{◌>>=◌}
use locomatch.Prelude.Text.{strcmp}
use locomatch.Sac.Server.{Entorno, s_ifdir, enoent, minus_enoent, eisdir, ebadf, sprintf, print_int}
use locomatch.Sac.Server.Read.{emptyfile, eoverflow}
use locomatch.Sac.Server.Create.{eexist, enametoolong, enotdir}
use locomatch.Sac.Parser.{
  open_name, read_name, getattr_name, mknod_name, mkdir_name, write_name, opendir_name,
  readdir_name,
}

-- The value of errno with which an operation returns -1.
pub data Errno : Type 0 where
  e_isdir e_noent e_badf e_overflow e_exist e_nametoolong e_notdir : Errno

-- What an operation returns.
pub data Returned : Type 0 where
  failed : Errno → Returned
  returned : ℕ → Returned

-- What sac_getattr returns, and the fields of the stat that it fills.
pub data Attributes : Type 0 where
  no_entry directory : Attributes
  regular : ℕ → Attributes

-- The code of an answer that reports an error, of the table's first that matches.
unfoldable pub report : List (List ℕ × Errno) → List ℕ → Returned → Returned
report [] response otherwise = otherwise
report ((text, code) ∷ table) response otherwise =
    let rest = report table response otherwise in if strcmp response text then failed code else rest

-- The messages: the words that strcat joins, with a space between.
unfoldable pub path_message : List ℕ → List ℕ → List ℕ
path_message name path = name ++ b' ' ∷ path

unfoldable pub getattr_message : List ℕ → List ℕ
unfolding path_message
getattr_message path = path_message getattr_name path

unfoldable pub mknod_message : List ℕ → List ℕ
unfolding path_message
mknod_message path = path_message mknod_name path

unfoldable pub mkdir_message : List ℕ → List ℕ
unfolding path_message
mkdir_message path = path_message mkdir_name path

unfoldable pub readdir_message : List ℕ → List ℕ
unfolding path_message
readdir_message path = path_message readdir_name path

module _ (e : Entorno) where
  open e use {string_split, decimal}
  open decimal use {atoi}

  unfoldable pub flags_message : List ℕ → List ℕ → ℕ → Option (List ℕ)
  unfolding print_int sprintf
  flags_message name path flags = do
    flags_s ← sprintf 10 (print_int e flags)
    some (name ++ b' ' ∷ (path ++ b' ' ∷ flags_s))

  unfoldable pub open_message : List ℕ → ℕ → Option (List ℕ)
  unfolding flags_message
  open_message path flags = flags_message open_name path flags

  unfoldable pub opendir_message : List ℕ → ℕ → Option (List ℕ)
  unfolding flags_message
  opendir_message path flags = flags_message opendir_name path flags

  unfoldable pub read_message : List ℕ → ℕ → ℕ → Option (List ℕ)
  unfolding print_int sprintf
  read_message path size offset = do
    size_s ← sprintf 16 (print_int e size)
    offset_s ← sprintf 16 (print_int e offset)
    some (read_name ++ b' ' ∷ (path ++ b' ' ∷ (size_s ++ b' ' ∷ offset_s)))

  -- `buf` as a text, whatever the size.
  unfoldable pub write_message : List ℕ → List ℕ → ℕ → ℕ → Option (List ℕ)
  unfolding print_int sprintf
  write_message path buf size offset = do
    size_s ← sprintf 16 (print_int e size)
    offset_s ← sprintf 16 (print_int e offset)
    some (write_name ++ b' ' ∷ (path ++ b' ' ∷ (buf ++ b' ' ∷ (size_s ++ b' ' ∷ offset_s))))

  -- The answers. The descriptor is only read from an empty text.
  unfoldable pub open_answer : List ℕ → Returned
  unfolding report
  open_answer response_buff =
      let file_descriptor = if strcmp response_buff [] then atoi (response_buff ++ 0 ∷ []) else 0 in
      report ((eisdir, e_isdir) ∷ (minus_enoent, e_noent) ∷ []) response_buff
        (returned file_descriptor)

  unfoldable pub opendir_answer : List ℕ → Returned
  unfolding report
  opendir_answer response_buff =
      let file_descriptor = if strcmp response_buff [] then atoi (response_buff ++ 0 ∷ []) else 0 in
      report ((eisdir, e_isdir) ∷ (minus_enoent, e_noent) ∷ []) response_buff
        (returned file_descriptor)

  -- What is read is the address of the buffer.
  unfoldable pub read_answer : ℕ → List ℕ → Returned
  unfolding report
  read_answer address buf =
      let content = if strcmp buf emptyfile then returned 0 else returned address in
      report ((eisdir, e_isdir) ∷ (ebadf, e_badf) ∷ (eoverflow, e_overflow) ∷ []) buf content

  -- The errors are looked for in what was written, not in the answer.
  unfoldable pub write_answer : List ℕ → List ℕ → Returned
  unfolding report
  write_answer buf response_buff =
      report ((eisdir, e_isdir) ∷ (ebadf, e_badf) ∷ []) buf
        (returned (atoi (response_buff ++ 0 ∷ [])))

  unfoldable pub mknod_answer : List ℕ → Returned
  unfolding report
  mknod_answer response_buff =
      report
        ((eexist, e_exist)
          ∷ (enametoolong, e_nametoolong)
          ∷ (enoent, e_noent)
          ∷ (enotdir, e_notdir)
          ∷ [])
        response_buff (returned 0)

  unfoldable pub mkdir_answer : List ℕ → Returned
  unfolding report
  mkdir_answer response_buff =
      report
        ((eexist, e_exist)
          ∷ (enametoolong, e_nametoolong)
          ∷ (enoent, e_noent)
          ∷ (enotdir, e_notdir)
          ∷ [])
        response_buff (returned 0)

  -- The parts of an answer that is not a fixed one.
  unfoldable pub regular_answer : List (List ℕ) → Option Attributes
  regular_answer [] = none
  regular_answer (kind ∷ rest) =
      let size : Option Attributes = elim rest [
        | [] ↦ none
        | file_size ∷ others ↦ some (regular (atoi (file_size ++ 0 ∷ [])))
      ] in
      if strcmp kind (b'S' ∷ b'_' ∷ b'I' ∷ b'F' ∷ b'R' ∷ b'E' ∷ b'G' ∷ [])
      then size
      else some no_entry

  unfoldable pub getattr_answer : List ℕ → Option Attributes
  unfolding regular_answer
  getattr_answer response_buff =
      let other = regular_answer (string_split response_buff b' ') in
      let found = if strcmp response_buff s_ifdir then some directory else other in
      if strcmp response_buff minus_enoent then some no_entry else found

  -- The names that the filler is called with; `none` is the error EBADF.
  unfoldable pub readdir_answer : List ℕ → Option (List (List ℕ))
  readdir_answer response_buff =
      let dots = (b'.' ∷ []) ∷ (b'.' ∷ b'.' ∷ []) ∷ [] in
      let children = some (dots ++ string_split response_buff b'/') in
      let filled = if strcmp response_buff ebadf then none else children in
      if strcmp response_buff [] then some dots else filled
