-- ===== src/Sac/Server/OpenRead.antt =====
-- A file that is opened and then read.
use locomatch.Prelude.{ℕ, ◌+◌, ◌-◌, ◌*◌, ◌/◌, ◌≡◌, ◌≤◌, ◌<◌, ◌∙◌, ap, List, some, length}
use locomatch.Sac.OpenedFiles.{Numbered}
use locomatch.Sac.Server.{Entorno, Servidor, action_open}
use locomatch.Sac.Server.Opening.{IsFile, action_open-Opened}
use locomatch.Sac.Server.Read.{PackageRead, read_opened, action_read}
use locomatch.Sac.Server.Reading.{Content, concat, IsRequest, read_opened_texts}

-- Reading only looks at the disk.
read_opened_disk :
    (e : Entorno) (s s' : Servidor) (block : ℕ) (request : PackageRead)
    → s'.disco ≡ s.disco
    → read_opened e s' block request ≡ read_opened e s block request
unfolding read_opened
read_opened_disk e s s' block request same =
    ap (λ (d : List ℕ). read_opened e (record s { disco = d }) block request) same

-- action_open of a regular file gives the next descriptor, and action_read of its path then the
-- texts of the file's blocks from the offset on, one after the other, each up to its first zero. The
-- descriptors count up from 1 and fewer than 999 files are opened; the read stays within the file,
-- the blocks that arrive on the stack end in an entry 0 and can be read, the texts are no longer than
-- the size, and with the blocks in front of the offset they are fewer than 1000.
pub open_read_texts :
    {e : Entorno} {s : Servidor} {path : List ℕ} {block offset size : ℕ} {texts : List (List ℕ)}
    → IsFile e s path block
    → Numbered 1 s.opened
    → length s.opened + 1 < 1000
    → (flags : ℕ) (size_text offset_text : List ℕ)
      (r : IsRequest e s block offset size
        (record { path = path; size = size_text; offset = offset_text }))
    → Content s.disco r.blocks ((offset - 1) / 4096) (offset - (offset - 1) / 4096 * 4096) texts
    → length texts + (offset - 1) / 4096 < 1000
    → length (concat texts) ≤ size
    → (after : Servidor) × (action_open e s (record { path = path; flags = flags })
        ≡ some (e.decimal.itoa (length s.opened + 1), after))
      × (action_read e after (record { path = path; size = size_text; offset = offset_text })
          ≡ some (concat texts))
open_read_texts {e = e} {s = s} f counted few_open flags size_text offset_text r c few fits =
    let o = action_open-Opened e f flags counted few_open in
    (
      o.after,
      o.result,
      o.readable size_text offset_text
          ∙ read_opened_disk e s o.after _ _ o.same_disk
          ∙ read_opened_texts r c few fits,
    )
