-- ===== src/Sac/Client/OpenRead.antt =====
-- The messages that open a file and read from it, one after the other, up to the server's answers.
use locomatch.Prelude.{ℕ, ◌+◌, ◌-◌, ◌*◌, ◌/◌, ◌≡◌, ◌≤◌, ◌<◌, ◌∙◌, refl, List, Option, some, length}
use locomatch.Sac.OpenedFiles.{Numbered}
use locomatch.Sac.Server.{Entorno, Servidor}
use locomatch.Sac.Server.Opening.{IsFile}
use locomatch.Sac.Server.Reading.{Content, concat, IsRequest}
use locomatch.Sac.Server.OpenRead.{open_read_texts}
use locomatch.Sac.Parser.{unchanged, parse_input}
use locomatch.Sac.Client.Words.{SplitsWords}
use locomatch.Sac.Client.RoundTrip.{open_file, read_file, message, IsSendable, parse_input-message}

-- What reading gives is answered, and the server is as it was.
unchanged_answer :
    (e : Entorno) (address node_block : ℕ) (s : Servidor) (answer : Option (List ℕ)) (text : List ℕ)
    → answer ≡ some text
    → unchanged e address node_block s answer ≡ some (text, s)
unfolding unchanged
unchanged_answer e address node_block s answer text h = rw h refl

-- The two messages, and what the server answers to them.
pub record Answered (e : Entorno) (address node_block : ℕ) (s : Servidor) (path : List ℕ)
    (flags size offset : ℕ) (texts : List (List ℕ)) : Type 0 where
  pub opening : List ℕ
  pub reading : List ℕ
  pub after : Servidor
  pub opens : message e (open_file path flags) ≡ some opening
  pub reads : message e (read_file path size offset) ≡ some reading
  pub descriptor :
      parse_input e address node_block s opening
      ≡ some (e.decimal.itoa (length s.opened + 1), after)
  pub content : parse_input e address node_block after reading ≡ some (concat texts, after)

-- The server answers the message that sac_open sends for a regular file with the next descriptor, and
-- the message that sac_read then sends for it with the texts of the file's blocks from the offset on,
-- one after the other, each up to its first zero, whatever the two functions make of the answers. The
-- messages can be sent; the descriptors count up from 1 and fewer than 999 files are opened; the read
-- stays within the file, the blocks that arrive on the stack end in an entry 0 and can be read, the
-- texts are no longer than the size, and with the blocks in front of the offset they are fewer than
-- 1000.
pub open_read-Answered :
    {e : Entorno} {s : Servidor} {path : List ℕ} {block offset size flags : ℕ}
    {texts : List (List ℕ)}
    → SplitsWords e.string_split
    → (address node_block : ℕ) → IsSendable e (open_file path flags)
    → IsSendable e (read_file path size offset)
    → IsFile e s path block
    → Numbered 1 s.opened
    → length s.opened + 1 < 1000
    → (r : IsRequest e s block offset size
        (record { path = path; size = e.decimal.itoa size; offset = e.decimal.itoa offset }))
    → Content s.disco r.blocks ((offset - 1) / 4096) (offset - (offset - 1) / 4096 * 4096) texts
    → length texts + (offset - 1) / 4096 < 1000
    → length (concat texts) ≤ size
    → Answered e address node_block s path flags size offset texts
open_read-Answered {e} {s} {path} {block} {offset} {size} {flags} {texts} split address node_block
      can_open can_read f counted few_open r c few fits =
    let (after, opened, read) =
      open_read_texts f counted few_open address (e.decimal.itoa size) (e.decimal.itoa offset) r c
        few fits in
    let (opening, opens, first, _) =
      parse_input-message e split address node_block s (open_file path flags) can_open in
    let (reading, reads, second, _) =
      parse_input-message e split address node_block after (read_file path size offset) can_read in
    record {
      opening = opening;
      reading = reading;
      after = after;
      opens = opens;
      reads = reads;
      descriptor = first ∙ opened;
      content = second ∙ unchanged_answer e address node_block after _ (concat texts) read;
    }
