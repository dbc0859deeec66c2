-- ===== src/Sac/Client/RoundTrip.antt =====
-- Every message of the client is handled by the server as the operation it was made for.
use locomatch.Prelude.{
  ℕ, ◌^◌, ◌≡◌, ◌<◌, refl, false, List, [], ◌∷◌, ◌++◌, Option, some, lt→ltb, length,
}
use locomatch.Prelude.Text.{strcmp}
use locomatch.Sac.Server.{
  Entorno, Servidor, action_getattr, action_open, action_opendir, action_readdir, sprintf,
  print_int, print_int-small,
}
use locomatch.Sac.Server.Read.{action_read}
use locomatch.Sac.Server.Write.{action_write}
use locomatch.Sac.Server.Create.{action_mknod, action_mkdir}
use locomatch.Sac.Parser.{
  open_name, read_name, getattr_name, mknod_name, mkdir_name, write_name, opendir_name,
  readdir_name, parameters, unchanged, survived, handle_open, handle_read, handle_getattr,
  handle_mknod, handle_mkdir, handle_write, handle_opendir, handle_readdir, dispatch, handle,
  parse_input,
}
use locomatch.Sac.Client.{
  path_message, getattr_message, mknod_message, mkdir_message, readdir_message, flags_message,
  open_message, opendir_message, read_message, write_message,
}
use locomatch.Sac.Client.Words.{
  IsWord, AreWords, joined, SplitsWords, separate-joined, unquote_parameters-words, is_word→IsWord,
}

-- An operation of the file system with its arguments.
pub data Request : Type 0 where
  getattr mknod mkdir readdir : List ℕ → Request
  open_file open_dir : List ℕ → ℕ → Request
  read_file : List ℕ → ℕ → ℕ → Request
  write_file : List ℕ → List ℕ → ℕ → ℕ → Request

-- The number's text is a word that fits the area.
pub record Fits (e : Entorno) (size n : ℕ) : Type 0 where
  pub short : length (print_int e n) < size
  pub digits : IsWord (print_int e n)

-- A size or an offset below 2 GiB, whose text is a word that fits the area.
pub record IsCarried (e : Entorno) (n : ℕ) : Type 0 where
  pub small : n < 2 ^ 31
  pub short : length (e.decimal.itoa n) < 16
  pub digits : IsWord (e.decimal.itoa n)

sprintf-carried :
    (e : Entorno) (n : ℕ) → IsCarried e n → sprintf 16 (print_int e n) ≡ some (e.decimal.itoa n)
unfolding sprintf
sprintf-carried e n h =
    rw (print_int-small e n h.small, lt→ltb (length (e.decimal.itoa n)) 16 h.short) refl

module _ (e : Entorno) where
  open e use {decimal}
  open decimal use {itoa, atoi}

  -- The message of an operation.
  abbrev pub message : Request → Option (List ℕ)
  message (getattr path) = some (getattr_message path)
  message (mknod path) = some (mknod_message path)
  message (mkdir path) = some (mkdir_message path)
  message (readdir path) = some (readdir_message path)
  message (open_file path flags) = open_message e path flags
  message (open_dir path flags) = opendir_message e path flags
  message (read_file path size offset) = read_message e path size offset
  message (write_file path buf size offset) = write_message e path buf size offset

  -- The texts are words and the numbers fit.
  abbrev pub IsSendable : Request → Type 0
  IsSendable (getattr path) = IsWord path
  IsSendable (mknod path) = IsWord path
  IsSendable (mkdir path) = IsWord path
  IsSendable (readdir path) = IsWord path
  IsSendable (open_file path flags) = IsWord path × Fits e 10 flags
  IsSendable (open_dir path flags) = IsWord path × Fits e 10 flags
  IsSendable (read_file path size offset) = IsWord path × (IsCarried e size × IsCarried e offset)
  IsSendable (write_file path buf size offset) =
      IsWord path × (IsWord buf × (IsCarried e size × IsCarried e offset))

  -- The server's side of an operation.
  abbrev pub perform : ℕ → ℕ → Servidor → Request → Option (List ℕ × Servidor)
  perform address node_block s (getattr path) =
      unchanged e address node_block s (action_getattr e s path)
  perform address node_block s (mknod path) =
      survived e address node_block s (action_mknod e s path)
  perform address node_block s (mkdir path) =
      survived e address node_block s (action_mkdir e s path)
  perform address node_block s (readdir path) =
      unchanged e address node_block s (action_readdir e s path)
  perform address node_block s (open_file path flags) =
      action_open e s (record { path = path; flags = address })
  perform address node_block s (open_dir path flags) =
      action_opendir e node_block s (record { path = path; flags = address })
  perform address node_block s (read_file path size offset) =
      unchanged e address node_block s
        (action_read e s (record { path = path; size = itoa size; offset = itoa offset }))
  perform address node_block s (write_file path buf size offset) =
      action_write e s
        (record { path = path; buf = buf; size_s = itoa size; offset_s = itoa offset })

  -- What the handlers read from the texts of a size and an offset.
  abbrev pub AreNumbers : ℕ → ℕ → Type 0
  AreNumbers size offset =
      (atoi (itoa size ++ 0 ∷ []) ≡ size) × (atoi (itoa offset ++ 0 ∷ []) ≡ offset)

  abbrev pub IsMeant : Request → Type 0
  IsMeant (read_file path size offset) = AreNumbers size offset
  IsMeant (write_file path buf size offset) = AreNumbers size offset
  IsMeant request = Unit {0}

  numbers : (size offset : ℕ) → AreNumbers size offset
  numbers size offset = (decimal.atoi-itoa size [], decimal.atoi-itoa offset [])

  module _ (split : SplitsWords e.string_split) (address node_block : ℕ) (s : Servidor) where
    open split use {split-joined}

    pub parse_input-joined :
        (w : List ℕ) (ws : List (List ℕ))
        → AreWords (w ∷ ws)
        → parse_input e address node_block s (joined b' ' w ws)
          ≡ handle e address node_block s (parameters (w ∷ ws))
    unfolding parse_input
    parse_input-joined w ws h =
        rw (separate-joined w ws false h)
          (rw (split-joined w ws h) (rw (unquote_parameters-words (w ∷ ws) h) refl))

    -- The server handles the message of an operation of the client's as that operation, with the
    -- same path and text, and its handlers read the same size and offset from their texts; the flags
    -- are kept as an address. The message can be sent when its texts are words, its size and offset
    -- are below 2 GiB, and its numbers fit the areas that they are printed into.
    pub parse_input-message :
        (r : Request)
        → IsSendable r
        → (text : List ℕ) × (message r ≡ some text)
          × (parse_input e address node_block s text ≡ perform address node_block s r)
          × IsMeant r
    unfolding getattr_message mknod_message mkdir_message readdir_message path_message handle
        dispatch strcmp handle_getattr handle_mknod handle_mkdir handle_readdir handle_open
        handle_opendir handle_read handle_write open_message opendir_message flags_message
        read_message write_message sprintf
    parse_input-message (getattr path) h = (
      _,
      refl,
      parse_input-joined getattr_name (path ∷ []) (is_word→IsWord getattr_name refl, (h, tt)),
      tt,
    )
    parse_input-message (mknod path) h = (
      _,
      refl,
      parse_input-joined mknod_name (path ∷ []) (is_word→IsWord mknod_name refl, (h, tt)),
      tt,
    )
    parse_input-message (mkdir path) h = (
      _,
      refl,
      parse_input-joined mkdir_name (path ∷ []) (is_word→IsWord mkdir_name refl, (h, tt)),
      tt,
    )
    parse_input-message (readdir path) h = (
      _,
      refl,
      parse_input-joined readdir_name (path ∷ []) (is_word→IsWord readdir_name refl, (h, tt)),
      tt,
    )
    parse_input-message (open_file path flags) (h, f) = (
      _,
      rw (lt→ltb (length (print_int e flags)) 10 f.short) refl,
      parse_input-joined open_name (path ∷ print_int e flags ∷ [])
          (is_word→IsWord open_name refl, (h, (f.digits, tt))),
      tt,
    )
    parse_input-message (open_dir path flags) (h, f) = (
      _,
      rw (lt→ltb (length (print_int e flags)) 10 f.short) refl,
      parse_input-joined opendir_name (path ∷ print_int e flags ∷ [])
          (is_word→IsWord opendir_name refl, (h, (f.digits, tt))),
      tt,
    )
    parse_input-message (read_file path size offset) (h, (f, g)) = (
      _,
      rw (sprintf-carried e size f, sprintf-carried e offset g) refl,
      parse_input-joined read_name (path ∷ e.decimal.itoa size ∷ e.decimal.itoa offset ∷ [])
          (is_word→IsWord read_name refl, (h, (f.digits, (g.digits, tt)))),
      numbers size offset,
    )
    parse_input-message (write_file path buf size offset) (h, (b, (f, g))) = (
      _,
      rw (sprintf-carried e size f, sprintf-carried e offset g) refl,
      parse_input-joined write_name (path ∷ buf ∷ e.decimal.itoa size ∷ e.decimal.itoa offset ∷ [])
          (is_word→IsWord write_name refl, (h, (b, (f.digits, (g.digits, tt))))),
      numbers size offset,
    )
