-- ===== src/Sac/Server/Reading.antt =====
-- What action_read gives: the texts of a file's blocks, one after the other.
use locomatch.Prelude.{
  ℕ, zero, suc, ◌+◌, ◌-◌, ◌*◌, ◌/◌, ◌^◌, ◌≡◌, ◌≤◌, ◌<◌, sym, ap, ◌∙◌, false, List, [], ◌∷◌, ◌++◌,
  some, arith, length, length-append, drop, append_assoc, append-nil, zero-add, le→leb, lt→ltb,
  le→ltb, ◌==◌,
}
use locomatch.Prelude.Text.{strdup}
use locomatch.Sockets.Bytes.{load_int}
use locomatch.Sac.Disk.{Node, read_node}
use locomatch.Sac.Server.{Entorno, Servidor}
use locomatch.Sac.Server.Read.{PackageRead, read_block, copied_blocks, read_blocks, read_opened}
use locomatch.Sac.Server.Loops.{skip_blocks_eq}

-- The texts in the blocks of the array from an index on, the first one from an offset on, up to the
-- entry 0.
pub data Content (disco blocks : List ℕ) : ℕ → ℕ → List (List ℕ) → Type 0 where
  ended :
      {i offset : ℕ} → load_int (drop (4 * i) blocks) ≡ some 0 → Content disco blocks i offset []
  block_text :
      {i offset : ℕ} {texts : List (List ℕ)} (block : ℕ) (bytes text : List ℕ)
      → load_int (drop (4 * i) blocks) ≡ some block
      → (block == 0) ≡ false
      → read_block disco block offset ≡ some bytes
      → strdup bytes ≡ some text
      → Content disco blocks (i + 1) 0 texts
      → Content disco blocks i offset (text ∷ texts)

abbrev pub concat : List (List ℕ) → List ℕ
concat [] = []
concat (t ∷ ts) = t ++ concat ts

module _ (disco blocks : List ℕ) (size_d : ℕ) where
  read_blocks-Content :
      (entries : ℕ) {i offset : ℕ} {texts : List (List ℕ)} (buff : List ℕ)
      → Content disco blocks i offset texts
      → length texts < entries
      → length (buff ++ concat texts) ≤ size_d
      → read_blocks disco blocks size_d entries i offset buff ≡ some (buff ++ concat texts)
  unfolding read_blocks
  read_blocks-Content zero buff c h fits = elim h [ ]
  read_blocks-Content (suc entries) buff (ended last) h fits =
      rw last (ap (λ (l : List ℕ). some l) (sym (append-nil buff)))
  read_blocks-Content (suc entries) buff
        (block_text {texts = texts} block bytes text at more read ends c) h fits =
      let regroup = append_assoc buff text (concat texts) in
      let whole : length (buff ++ text) + length (concat texts) ≤ size_d =
        omega (arith, fits, ap length regroup, length-append (buff ++ text) (concat texts)) in
      rw at (
        rw more (
          rw read (
            rw ends (
              rw (le→leb (length (buff ++ text)) size_d (omega (arith, whole))) (
                read_blocks-Content entries (buff ++ text) c (omega (arith, h))
                  (omega (arith, whole, length-append (buff ++ text) (concat texts)))
                ∙ ap (λ (l : List ℕ). some l) regroup)))))

-- A file with a block, and a request within it.
pub record IsRequest (e : Entorno) (s : Servidor) (file_node offset size : ℕ)
    (request : PackageRead) : Type 0 where
  pub node : Node
  pub blocks : List ℕ
  pub first : ℕ
  pub there : read_node s.disco file_node ≡ some node
  pub copied : copied_blocks e node ≡ some blocks
  pub first_entry : load_int blocks ≡ some first
  pub has_block : (first == 0) ≡ false
  pub offset_text : e.decimal.atoi (request.offset ++ 0 ∷ []) ≡ offset
  pub size_text : e.decimal.atoi (request.size ++ 0 ∷ []) ≡ size
  pub inside : offset + size ≤ node.filesize
  pub small : offset + size < 2 ^ 31

-- A read of an open file gives the texts of its blocks from the offset on, one after the other, each
-- up to its first zero. The request stays within the file, the blocks that arrive on the stack end
-- in an entry 0 and each of them can be read, the texts are no longer than the size, and with the
-- blocks in front of the offset they are fewer than 1000.
pub read_opened_texts :
    {e : Entorno} {s : Servidor} {file_node offset size : ℕ} {request : PackageRead}
    {texts : List (List ℕ)} (r : IsRequest e s file_node offset size request)
    → Content s.disco r.blocks ((offset - 1) / 4096) (offset - (offset - 1) / 4096 * 4096) texts
    → length texts + (offset - 1) / 4096 < 1000
    → length (concat texts) ≤ size
    → read_opened e s file_node request ≡ some (concat texts)
unfolding read_opened
read_opened_texts {s = s} {offset = offset} {size = size} r c few fits =
    rw (r.there, r.copied)
      (rw (r.first_entry, r.has_block)
        (rw (r.offset_text, r.size_text)
          (rw
            (
              lt→ltb (offset + size) (2 ^ 31) r.small,
              le→ltb r.node.filesize (offset + size) r.inside,
            )
            (rw (skip_blocks_eq offset offset 0 (omega arith)) (
              rw (zero-add ((offset - 1) / 4096)) (
                read_blocks-Content s.disco r.blocks size (1000 - (offset - 1) / 4096) [] c
                  (omega (arith, few)) fits))))))
