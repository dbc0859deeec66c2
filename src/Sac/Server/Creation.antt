-- ===== src/Sac/Server/Creation.antt =====
-- What action_mknod and action_mkdir write: a node in the first free block of the node table.
use locomatch.Prelude.{
  ℕ, ◌+◌, ◌-◌, ◌*◌, ◌≡◌, ◌≢◌, ◌≤◌, ◌<◌, ◌⊎◌, inl, inr, refl, sym, ap, ◌∙◌, true, false, List, ◌++◌,
  none, some, arith, length, length-append, drop, drop-append_beyond,
}
use locomatch.Prelude.Maybe.{◌>>=◌}
use locomatch.Sockets.Bytes.{memcpy}
use locomatch.Sac.Blocks.{block_size, Geometry, node_table, read_bitmap, AllOccupied}
use locomatch.Sac.Blocks.Taken.{IsDisk, disk, read_bitmap-disk, find_free_block-Taken}
use locomatch.Sac.OpenedFiles.{OpenedFile}
use locomatch.Sac.Disk.{Node, node_of, read_at, read_node, write_node}
use locomatch.Sac.Disk.Layout.{IsNode, read_at-write_at_before, read_node-write_node}
use locomatch.Sac.Server.{Entorno, Servidor}
use locomatch.Sac.Server.Create.{crashed, accepted, new_node, create_node, finish}

-- A disk with its bitmap in front of the node table, and a bit for each node.
pub record HasTable (g : Geometry) (front bits back : List ℕ) : Type 0 where
  pub is_disk : IsDisk g front bits back
  pub apart : g.bitmap_start * block_size + g.bitmap_size_bytes ≤ g.node_table_start * block_size
  pub room : g.node_table_end < 8 * length bits
  pub ordered : g.node_table_start ≤ g.node_table_end

-- The new node and what else is on the disk.
pub record Created (e : Entorno) (s : Servidor) (bits : List ℕ) (state : ℕ) (name : List ℕ)
    (directory : ℕ) : Type 0 where
  pub new_block : ℕ
  pub inside : (s.geometry.node_table_start ≤ new_block) × (new_block ≤ s.geometry.node_table_end)
  pub was_free : e.bits.test_bit bits new_block ≡ false
  pub first : AllOccupied e.bits bits s.geometry.node_table_start new_block
  pub after : List ℕ
  pub result : finish e state s (accepted name directory) ≡ some (crashed after)
  pub node : read_node after new_block ≡ some (new_node e state name directory)
  pub other_nodes :
      (other : ℕ)
      → other ≢ new_block
      → s.geometry.node_table_start ≤ other
      → other * block_size + block_size ≤ length s.disco
      → read_node after other ≡ read_node s.disco other
  pub bits_after : List ℕ
  pub bitmap : read_bitmap s.geometry after ≡ some bits_after
  pub occupied : e.bits.test_bit bits_after new_block ≡ true
  pub other_bits : (j : ℕ) → new_block ≢ j → e.bits.test_bit bits_after j ≡ e.bits.test_bit bits j

module _ {g : Geometry} {front bits back : List ℕ} (t : HasTable g front bits back) where
  -- A change of the bitmap alone does not reach the nodes.
  read_node-bitmap :
      (new_bits : List ℕ) (block : ℕ)
      → IsDisk g front new_bits back
      → g.node_table_start ≤ block
      → read_node (disk front new_bits back) block ≡ read_node (disk front bits back) block
  unfolding read_node read_at
  read_node-bitmap new_bits block d low =
      ap (λ (l : List ℕ). memcpy l block_size >>= node_of)
        (behind new_bits d ∙ sym (behind bits t.is_disk))
    where
      k : ℕ
      k = block * block_size - (g.bitmap_start * block_size + g.bitmap_size_bytes)

      behind :
          (some_bits : List ℕ)
          → IsDisk g front some_bits back
          → drop (block * block_size) (disk front some_bits back) ≡ drop k back
      behind some_bits i =
          ap (λ (p : ℕ). drop p (disk front some_bits back)) (split some_bits i)
          ∙ drop-append_beyond (length some_bits + k) front (some_bits ++ back)
          ∙ drop-append_beyond k some_bits back
        where
          split :
              (some_bits : List ℕ)
              → IsDisk g front some_bits back
              → block * block_size ≡ length front + (length some_bits + k)
          split some_bits i = omega (arith, i.placed, i.sized, t.apart, low)

  -- A node in the table leaves the bitmap.
  pub read_bitmap-write_node :
      (new_bits : List ℕ) (block : ℕ) (node : Node)
      → IsDisk g front new_bits back
      → g.node_table_start ≤ block
      → read_bitmap g (write_node (disk front new_bits back) block node) ≡ some new_bits
  unfolding read_bitmap write_node read_at
  read_bitmap-write_node new_bits block node d low =
      read_at-write_at_before (disk front new_bits back) (block * block_size) _
        (g.bitmap_start * block_size) g.bitmap_size_bytes
        (omega (
          arith,
          d.placed,
          d.sized,
          length-append front (new_bits ++ back),
          length-append new_bits back,
        ))
        (omega (arith, t.apart, low))
      ∙ read_bitmap-disk d

  -- A request that passed the checks writes its node to the first free block of the node table,
  -- occupies that block and changes no other node of the table and no other bit, and then crashes in
  -- the fseek on a node; where no block of the table is free, nothing is defined. The bitmap lies in
  -- front of the node table and has a bit for each of its blocks, and the node's fields have the
  -- sizes of the struct.
  pub finish-Created :
      (e : Entorno) (opened : List OpenedFile) (state : ℕ) (name : List ℕ) (directory : ℕ)
      → IsNode (new_node e state name directory)
      → (let s : Servidor = record {
        geometry = g;
        disco = disk front bits back;
        opened = opened;
      } in
          Created e s bits state name directory
          ⊎ (AllOccupied e.bits bits g.node_table_start (g.node_table_end + 1)
              × (finish e state s (accepted name directory) ≡ none)))
  unfolding finish create_node
  finish-Created e opened state name directory sized =
      elim (find_free_block-Taken e.bits node_table t.is_disk t.room t.ordered) [
        | inr (all, missing) ↦ inr (all, rw missing refl)
        | inl taken ↦
            let written =
              write_node (disk front taken.bits_after back) taken.number
                (new_node e state name directory) in
            let kept =
              read_node-write_node (disk front taken.bits_after back) taken.number
                (new_node e state name directory) sized in
            inl (record {
              new_block = taken.number;
              inside = taken.inside;
              was_free = taken.was_free;
              first = taken.first;
              after = written;
              result = rw (taken.found, taken.result) refl;
              node = kept.0;
              other_nodes = λ other differs low on_disk.
                  kept.1 other differs (same_length taken.bits_after taken.still_disk other on_disk)
                  ∙ read_node-bitmap taken.bits_after other taken.still_disk low;
              bits_after = taken.bits_after;
              bitmap =
                  read_bitmap-write_node taken.bits_after taken.number _ taken.still_disk
                    taken.inside.0;
              occupied = taken.occupied;
              other_bits = taken.others;
            })
      ]
    where
      same_length :
          (new_bits : List ℕ)
          → IsDisk g front new_bits back
          → (other : ℕ) → other * block_size + block_size ≤ length (disk front bits back)
          → other * block_size + block_size ≤ length (disk front new_bits back)
      same_length new_bits d other h = omega (
        arith,
        h,
        d.sized,
        t.is_disk.sized,
        length-append front (new_bits ++ back),
        length-append new_bits back,
        length-append front (bits ++ back),
        length-append bits back,
      )
