-- ===== src/Sac/Server/Writing.antt =====
-- The loop of action_write that writes: how it ends, and where it crashes.
use locomatch.Prelude.{
  ℕ, suc, zero, ◌+◌, ◌-◌, ◌*◌, ◌%◌, ◌≡◌, ◌<◌, ◌⊎◌, refl, ap, ◌∙◌, false, List, [], ◌∷◌, ◌++◌,
  Option, none, some, arith, ltb, lt→ltb, ◌==◌, ne→eqb, if◌then◌else◌,
}
use locomatch.Prelude.Maybe.{◌>>=◌, bind_none}
use locomatch.Prelude.Text.{strcmp}
use locomatch.Sockets.Bytes.{load_int}
use locomatch.Prelude.{drop}
use locomatch.Sac.Blocks.{block_size}
use locomatch.Sac.OpenedFiles.{is_file_opened}
use locomatch.Sac.Disk.{Node, read_node}
use locomatch.Sac.Lookup.{root, check_node_state}
use locomatch.Sac.Server.{Entorno, Servidor, locate}
use locomatch.Sac.Server.Write.{
  PackageWrite, advance, grow, temporal_string, write_loop, write_opened, action_write,
}
use locomatch.Sac.Server.Loops.{advance_eq}

none-bind : {A B : Type 0} {o : Option A} (f : A → Option B) → o ≡ none → (o >>= f) ≡ none
none-bind f h = rw h refl

module _ (e : Entorno) where
  -- There is something to write in this round, if anything is left.
  abbrev Goes : ℕ → ℕ → Type 0
  Goes size temporal = (size ≡ 0) ⊎ (0 < temporal)

  -- A round that would write more than is left is the last one.
  write_loop_short :
      (fuel : ℕ) (disco : List ℕ) (block offset : ℕ) (buf : List ℕ) (amount size temporal : ℕ)
      → 0 < size
      → size < temporal
      → write_loop e fuel disco block offset buf amount size temporal ≡ none
  unfolding write_loop
  write_loop_short zero disco block offset buf amount size temporal h short = refl
  write_loop_short (suc fuel) disco block offset buf amount size temporal h short =
      rw (ne→eqb size 0 (omega (arith, h))) (
        bind_none (temporal_string e buf amount temporal) _
          (λ string. rw (lt→ltb size temporal short) refl))

-- A regular file in a block of the node table, at a path, and open.
pub record IsOpenFile (e : Entorno) (s : Servidor) (path : List ℕ) (block : ℕ) (node : Node)
    : Type 0 where
  pub not_root : strcmp path root ≡ false
  pub located : locate e s path ≡ some block
  pub not_missing : (block == 0) ≡ false
  pub there : read_node s.disco block ≡ some node
  pub regular : node.state ≡ 1
  pub is_open : (is_file_opened s.opened block == 0) ≡ false

-- The smaller one of the offset of a request and the size of the file.
unfoldable pub start_of_write : Entorno → Node → PackageWrite → ℕ
start_of_write e node request =
    let offset = e.decimal.atoi (request.offset_s ++ 0 ∷ []) in
    if ltb node.filesize offset then node.filesize else offset

module _ (e : Entorno) {s : Servidor} {block : ℕ} {node : Node} (request : PackageWrite)
    (f : IsOpenFile e s request.path block node) where
  state_there : check_node_state s.disco block ≡ some 1
  unfolding check_node_state
  state_there = rw f.there (ap (λ (n : ℕ). some n) f.regular)

  passes : action_write e s request ≡ write_opened e s block request
  unfolding action_write
  passes = rw (f.not_root, f.located) (rw (f.not_missing, state_there) (rw f.is_open refl))

  -- action_write crashes on every write to an open file that ends in front of the end of its first
  -- block: the size is positive, and with the offset in the block it is below the size of a block.
  pub action_write_short :
      0 < e.decimal.atoi (request.size_s ++ 0 ∷ [])
      → start_of_write e node request % block_size + e.decimal.atoi (request.size_s ++ 0 ∷ [])
        < block_size
      → action_write e s request ≡ none
  unfolding write_opened start_of_write
  action_write_short some_bytes short =
      passes
      ∙ rw f.there (
          bind_none (grow e s node _) _ (λ grown.
            bind_none (load_int (drop (4 * (advance start start 0).0) grown.1)) _ (λ first.
              none-bind _ (
                write_loop_short e (size + 1) grown.0 first in_block request.buf 0 size
                  (block_size - in_block) some_bytes (omega (arith, short, remainder))))))
    where
      start : ℕ
      start = start_of_write e node request

      size : ℕ
      size = e.decimal.atoi (request.size_s ++ 0 ∷ [])

      in_block : ℕ
      in_block = (advance start start 0).1

      remainder : in_block ≡ start % 4096
      remainder = ap (λ (p : ℕ × ℕ). p.1) (advance_eq start start 0 (omega arith))
