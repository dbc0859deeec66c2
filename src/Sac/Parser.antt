-- ===== src/Sac/Parser.antt =====
-- parse_input of fileSystem/sac/sac_servidor/parser.c: a message is split into parameters and
-- handled. `none` is undefined behaviour.
pub mod Kept
pub mod Served
pub mod Refused
use locomatch.Prelude.{
  ℕ, Bool, true, false, not, ◌||◌, List, [], ◌∷◌, ◌++◌, Option, none, some, ◌==◌, if◌then◌else◌,
}
use locomatch.Prelude.Maybe.{◌>>=◌}
use locomatch.Prelude.Text.{strcmp}
use locomatch.Sac.Server.{
  Entorno, Servidor, action_getattr, action_open, action_opendir, action_readdir,
}
use locomatch.Sac.Server.Read.{action_read}
use locomatch.Sac.Server.Write.{action_write}
use locomatch.Sac.Server.Create.{Ended, answered, crashed, action_mknod, action_mkdir}

-- The names of the instructions.
abbrev pub open_name : List ℕ
open_name = b'o' ∷ b'p' ∷ b'e' ∷ b'n' ∷ []

abbrev pub read_name : List ℕ
read_name = b'r' ∷ b'e' ∷ b'a' ∷ b'd' ∷ []

abbrev pub getattr_name : List ℕ
getattr_name = b'g' ∷ b'e' ∷ b't' ∷ b'a' ∷ b't' ∷ b't' ∷ b'r' ∷ []

abbrev pub mknod_name : List ℕ
mknod_name = b'm' ∷ b'k' ∷ b'n' ∷ b'o' ∷ b'd' ∷ []

abbrev pub mkdir_name : List ℕ
mkdir_name = b'm' ∷ b'k' ∷ b'd' ∷ b'i' ∷ b'r' ∷ []

abbrev pub write_name : List ℕ
write_name = b'w' ∷ b'r' ∷ b'i' ∷ b't' ∷ b'e' ∷ []

abbrev pub opendir_name : List ℕ
opendir_name = b'o' ∷ b'p' ∷ b'e' ∷ b'n' ∷ b'd' ∷ b'i' ∷ b'r' ∷ []

abbrev pub readdir_name : List ℕ
readdir_name = b'r' ∷ b'e' ∷ b'a' ∷ b'd' ∷ b'd' ∷ b'i' ∷ b'r' ∷ []

-- The answers to a message that is not handled.
abbrev pub wrong_number : List ℕ
wrong_number =
    b'N' ∷ b'u' ∷ b'm' ∷ b'e' ∷ b'r' ∷ b'o' ∷ b' ' ∷ b'd' ∷ b'e' ∷ b' ' ∷ b'p' ∷ b'a' ∷ b'r' ∷ b'a'
    ∷ b'm' ∷ b'e' ∷ b't' ∷ b'r' ∷ b'o' ∷ b's' ∷ b' ' ∷ b'i' ∷ b'n' ∷ b'c' ∷ b'o' ∷ b'r' ∷ b'r'
    ∷ b'e' ∷ b'c' ∷ b't' ∷ b'o' ∷ b's' ∷ b'\n' ∷ []

abbrev pub malformed_parameter : List ℕ
malformed_parameter =
    b'P' ∷ b'a' ∷ b'r' ∷ b'a' ∷ b'm' ∷ b'e' ∷ b't' ∷ b'r' ∷ b'o' ∷ b' ' ∷ b'm' ∷ b'a' ∷ b'l' ∷ b'f'
    ∷ b'o' ∷ b'r' ∷ b'm' ∷ b'a' ∷ b'd' ∷ b'o' ∷ b'.' ∷ b'\n' ∷ []

abbrev pub not_an_instruction : List ℕ
not_an_instruction =
    b'N' ∷ b'o' ∷ b' ' ∷ b'e' ∷ b's' ∷ b' ' ∷ b'u' ∷ b'n' ∷ b'a' ∷ b' ' ∷ b'i' ∷ b'n' ∷ b's' ∷ b't'
    ∷ b'r' ∷ b'u' ∷ b'c' ∷ b'c' ∷ b'i' ∷ b'o' ∷ b'n' ∷ b' ' ∷ b'v' ∷ b'a' ∷ b'l' ∷ b'i' ∷ b'd'
    ∷ b'a' ∷ b'\n' ∷ []

-- The loop over the characters: inside quotes or not, and whether the last one became a bar. A run
-- of spaces and ends of line outside quotes becomes one bar.
unfoldable pub separate : Bool → Bool → List ℕ → List ℕ
separate open_text last_was_null [] = []
separate true last_was_null (c ∷ cs) = c ∷ separate (not (c == b'"')) last_was_null cs
separate false last_was_null (c ∷ cs) =
    let rest = separate false true cs in
    let separator = if last_was_null then rest else b'|' ∷ rest in
    let other = c ∷ separate (c == b'"') false cs in
    if c == b'\n' || c == b' ' then separator else other

-- The parameters without their quotes, or one that opens a quote and does not end in one.
pub data Parameters : Type 0 where
  malformed : Parameters
  parameters : List (List ℕ) → Parameters

-- The text in front of a quote at the end; for a single quote a negative number of bytes is copied.
unfoldable pub quoted : List ℕ → Option Parameters
quoted [] = none
quoted (c ∷ []) = some (if c == b'"' then parameters ([] ∷ []) else malformed)
quoted (c ∷ d ∷ cs) = do
  rest ← quoted (d ∷ cs)
  elim rest [
    | malformed ↦ some malformed
    | parameters [] ↦ none
    | parameters (t ∷ ts) ↦ some (parameters ((c ∷ t) ∷ ts))
  ]

unfoldable pub unquote_parameter : List ℕ → Option Parameters
unfolding quoted
unquote_parameter [] = some (parameters ([] ∷ []))
unquote_parameter (c ∷ cs) = if c == b'"' then quoted cs else some (parameters ((c ∷ cs) ∷ []))

unfoldable pub join_parameters : Parameters → Parameters → Parameters
join_parameters malformed rest = malformed
join_parameters (parameters ts) malformed = malformed
join_parameters (parameters ts) (parameters us) = parameters (ts ++ us)

-- `while (parameters[parameters_length] != NULL)`, which a malformed parameter ends.
unfoldable pub unquote_parameters : List (List ℕ) → Option Parameters
unfolding unquote_parameter join_parameters
unquote_parameters [] = some (parameters [])
unquote_parameters (t ∷ ts) = do
  first ← unquote_parameter t
  elim first [
    | malformed ↦ some malformed
    | parameters us ↦ do rest ← unquote_parameters ts; some (join_parameters (parameters us) rest)
  ]

-- The environment, the address of the text of the flags, and what is left in a new entry's
-- node_block.
module _ (e : Entorno) (flags node_block : ℕ) (s : Servidor) where
  open e use {string_split}

  -- A handler that changes nothing.
  unfoldable pub unchanged : Option (List ℕ) → Option (List ℕ × Servidor)
  unchanged answer = do response ← answer; some (response, s)

  unfoldable pub survived : Option Ended → Option (List ℕ × Servidor)
  survived none = none
  survived (some (answered response)) = some (response, s)
  survived (some (crashed disco)) = none

  -- The cases of parse_input, with the number of parameters of each.
  unfoldable pub handle_open : List (List ℕ) → Option (List ℕ × Servidor)
  handle_open (instruction ∷ path ∷ mode ∷ []) =
      action_open e s (record { path = path; flags = flags })
  handle_open _ = some (wrong_number, s)

  unfoldable pub handle_read : List (List ℕ) → Option (List ℕ × Servidor)
  unfolding unchanged
  handle_read (instruction ∷ path ∷ size ∷ offset ∷ []) =
      unchanged (action_read e s (record { path = path; size = size; offset = offset }))
  handle_read _ = some (wrong_number, s)

  unfoldable pub handle_getattr : List (List ℕ) → Option (List ℕ × Servidor)
  unfolding unchanged
  handle_getattr (instruction ∷ path ∷ []) = unchanged (action_getattr e s path)
  handle_getattr _ = some (wrong_number, s)

  unfoldable pub handle_mknod : List (List ℕ) → Option (List ℕ × Servidor)
  unfolding survived
  handle_mknod (instruction ∷ path ∷ []) = survived (action_mknod e s path)
  handle_mknod _ = some (wrong_number, s)

  unfoldable pub handle_mkdir : List (List ℕ) → Option (List ℕ × Servidor)
  unfolding survived
  handle_mkdir (instruction ∷ path ∷ []) = survived (action_mkdir e s path)
  handle_mkdir _ = some (wrong_number, s)

  unfoldable pub handle_write : List (List ℕ) → Option (List ℕ × Servidor)
  handle_write (instruction ∷ path ∷ buf ∷ size_s ∷ offset_s ∷ []) =
      action_write e s (record { path = path; buf = buf; size_s = size_s; offset_s = offset_s })
  handle_write _ = some (wrong_number, s)

  unfoldable pub handle_opendir : List (List ℕ) → Option (List ℕ × Servidor)
  handle_opendir (instruction ∷ path ∷ mode ∷ []) =
      action_opendir e node_block s (record { path = path; flags = flags })
  handle_opendir _ = some (wrong_number, s)

  unfoldable pub handle_readdir : List (List ℕ) → Option (List ℕ × Servidor)
  unfolding unchanged
  handle_readdir (instruction ∷ path ∷ []) = unchanged (action_readdir e s path)
  handle_readdir _ = some (wrong_number, s)

  -- The comparisons with the first parameter.
  unfoldable pub dispatch : List ℕ → List (List ℕ) → Option (List ℕ × Servidor)
  unfolding handle_open handle_read handle_getattr handle_mknod handle_mkdir handle_write
      handle_opendir handle_readdir
  dispatch instruction ps =
      if strcmp instruction open_name
      then handle_open ps
      else (if strcmp instruction read_name
          then handle_read ps
          else (if strcmp instruction getattr_name
              then handle_getattr ps
              else (if strcmp instruction mknod_name
                  then handle_mknod ps
                  else (if strcmp instruction mkdir_name
                      then handle_mkdir ps
                      else (if strcmp instruction write_name
                          then handle_write ps
                          else (if strcmp instruction opendir_name
                              then handle_opendir ps
                              else (if strcmp instruction readdir_name
                                  then handle_readdir ps
                                  else some (not_an_instruction, s))))))))

  unfoldable pub handle : Parameters → Option (List ℕ × Servidor)
  unfolding dispatch
  handle malformed = some (malformed_parameter, s)
  handle (parameters []) = some ([], s)
  handle (parameters (instruction ∷ ps)) = dispatch instruction (instruction ∷ ps)

  unfoldable pub parse_input : List ℕ → Option (List ℕ × Servidor)
  unfolding separate unquote_parameters handle
  parse_input instr_buff = do
    ps ← unquote_parameters (string_split (separate false false instr_buff) b'|')
    handle ps
