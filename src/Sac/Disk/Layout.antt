-- ===== src/Sac/Disk/Layout.antt =====
-- A node that is written to a block is read back, and no other block changes.
use locomatch.Prelude.{
  ltb, ltb→lt, ltb→le, Bool-cases, inl, inr, ℕ, ◌+◌, ◌-◌, ◌*◌, ◌≤◌, ◌<◌, ◌≡◌, ◌≢◌, ◌^◌, sym, ap,
  ◌∙◌, List, [], ◌++◌, some, arith, append-nil, length, length-append, take, drop, replicate,
  length-replicate, drop-append, length-take, take-drop, length-drop, drop-append_within,
  drop-append_beyond, take-append_within, drop-drop,
}
use locomatch.Prelude.Maybe.{◌>>=◌}
use locomatch.Sockets.Bytes.{int_bytes, load_int-int_bytes, length-int_bytes, memcpy, memcpy-append}
use locomatch.Sac.Blocks.{block_size}
use locomatch.Sac.Disk.{
  Node, node_bytes, node_of, field, int_field, byte_field, read_at, write_at, read_node, write_node,
}

-- The fields have the sizes of the struct.
pub record IsNode (n : Node) : Type 0 where
  pub name_size : length n.fname ≡ 71
  pub parent_fits : n.parent_block < 2 ^ 32
  pub size_fits : n.filesize < 2 ^ 32
  pub created_size : length n.created ≡ 8
  pub modified_size : length n.modified ≡ 8
  pub blocks_size : length n.blocks ≡ 4000

field-append : (xs ys : List ℕ) (n : ℕ) → length xs ≡ n → field n (xs ++ ys) ≡ some (xs, ys)
unfolding field
field-append xs ys n h = rw (sym h, memcpy-append xs ys, drop-append xs ys)

int_field-int_bytes :
    (n : ℕ) (ys : List ℕ) → n < 2 ^ 32 → int_field (int_bytes n ++ ys) ≡ some (n, ys)
unfolding int_field int_bytes
int_field-int_bytes n ys h =
    rw (load_int-int_bytes n ys h) (ap (λ (l : List ℕ). some (n, l)) (drop-append (int_bytes n) ys))

field_all : (xs : List ℕ) (n : ℕ) → length xs ≡ n → field n xs ≡ some (xs, [])
field_all xs n h = ap (field n) (sym (append-nil xs)) ∙ field-append xs [] n h

node_of-node_bytes : (n : Node) → IsNode n → node_of (node_bytes n) ≡ some n
unfolding node_of node_bytes byte_field
node_of-node_bytes n h = rw (field-append n.fname _ 71 h.name_size) (
    rw (int_field-int_bytes n.parent_block _ h.parent_fits) (
      rw (int_field-int_bytes n.filesize _ h.size_fits) (
        rw (field-append n.created _ 8 h.created_size) (
          rw (field-append n.modified _ 8 h.modified_size)
            (rw (field_all n.blocks 4000 h.blocks_size))))))

pub length-node_bytes : (n : Node) → IsNode n → length (node_bytes n) ≡ block_size
unfolding node_bytes
length-node_bytes n h = omega (
  arith,
  h.name_size,
  h.created_size,
  h.modified_size,
  h.blocks_size,
  length-append n.fname (
      int_bytes n.parent_block
      ++ (int_bytes n.filesize ++ (n.created ++ (n.modified ++ n.blocks)))),
  length-append (int_bytes n.parent_block)
      (int_bytes n.filesize ++ (n.created ++ (n.modified ++ n.blocks))),
  length-append (int_bytes n.filesize) (n.created ++ (n.modified ++ n.blocks)),
  length-append n.created (n.modified ++ n.blocks),
  length-append n.modified n.blocks,
  length-int_bytes n.parent_block,
  length-int_bytes n.filesize,
)

length-padded :
    (disco : List ℕ) (position : ℕ)
    → position ≤ length (disco ++ replicate (position - length disco) 0)
length-padded disco position = omega (
  arith,
  length-append disco (replicate (position - length disco) 0),
  length-replicate {A = ℕ} (position - length disco) 0,
)

-- What is written is read back.
read_at-write_at :
    (disco : List ℕ) (position : ℕ) (bytes : List ℕ)
    → read_at (write_at disco position bytes) position (length bytes) ≡ some bytes
unfolding read_at write_at
read_at-write_at disco position bytes = rw (reached) (memcpy-append bytes _)
  where
    front : List ℕ
    front = take position (disco ++ replicate (position - length disco) 0)

    reached :
        drop position (front ++ (bytes ++ drop (position + length bytes) disco))
        ≡ bytes ++ drop (position + length bytes) disco
    reached =
        ap (λ (k : ℕ). drop k (front ++ (bytes ++ drop (position + length bytes) disco)))
          (sym (length-take position _ (length-padded disco position)))
        ∙ drop-append front _

memcpy-append_within : (xs ys : List ℕ) (n : ℕ) → n ≤ length xs → memcpy (xs ++ ys) n ≡ memcpy xs n
unfolding memcpy
memcpy-append_within xs ys n h = ground (arith, length-append xs ys, take-append_within n xs ys)

read_at-append :
    (xs ys : List ℕ) (position n : ℕ)
    → position + n ≤ length xs
    → read_at (xs ++ ys) position n ≡ read_at xs position n
unfolding read_at
read_at-append xs ys position n h =
    ap (λ (l : List ℕ). memcpy l n) (drop-append_within position xs ys (omega arith))
    ∙ memcpy-append_within (drop position xs) ys n (omega (arith, length-drop position xs))

-- A read in front of what is written, or behind it, is not affected.
pub read_at-write_at_before :
    (disco : List ℕ) (position : ℕ) (bytes : List ℕ) (p n : ℕ)
    → p + n ≤ length disco
    → p + n ≤ position
    → read_at (write_at disco position bytes) p n ≡ read_at disco p n
unfolding write_at
read_at-write_at_before disco position bytes p n inside before =
    read_at-append front _ p n (omega (arith, size, before))
    ∙ sym (read_at-append front (drop position padded) p n (omega (arith, size, before)))
    ∙ ap (λ (l : List ℕ). read_at l p n) (take-drop position padded)
    ∙ read_at-append disco _ p n inside
  where
    padded : List ℕ
    padded = disco ++ replicate (position - length disco) 0

    front : List ℕ
    front = take position padded

    size : length front ≡ position
    size = length-take position padded (length-padded disco position)

pub read_at-write_at_behind :
    (disco : List ℕ) (position : ℕ) (bytes : List ℕ) (p n : ℕ)
    → position + length bytes ≤ p
    → read_at (write_at disco position bytes) p n ≡ read_at disco p n
unfolding write_at read_at
read_at-write_at_behind disco position bytes p n behind =
    ap (λ (l : List ℕ). memcpy l n)
      (ap (λ (k : ℕ). drop k (front ++ (bytes ++ rest))) split
        ∙ drop-append_beyond (length bytes + k) front (bytes ++ rest)
        ∙ drop-append_beyond k bytes rest
        ∙ drop-drop k (position + length bytes) disco
        ∙ ap (λ (k : ℕ). drop k disco) there)
  where
    front : List ℕ
    front = take position (disco ++ replicate (position - length disco) 0)

    rest : List ℕ
    rest = drop (position + length bytes) disco

    k : ℕ
    k = p - (position + length bytes)

    split : p ≡ length front + (length bytes + k)
    split = omega (arith, length-take position _ (length-padded disco position))

    there : position + length bytes + k ≡ p
    there = omega arith

-- A node that is written to a block is read back from it, and the node of every other block that
-- lies on the disk is as before. The node's fields have the sizes of the struct.
pub read_node-write_node :
    (disco : List ℕ) (block : ℕ) (node : Node)
    → IsNode node
    → (read_node (write_node disco block node) block ≡ some node)
      × ((other : ℕ)
          → other ≢ block
          → other * block_size + block_size ≤ length disco
          → read_node (write_node disco block node) other ≡ read_node disco other)
unfolding read_node write_node
read_node-write_node disco block node h = (
  ap (λ (n : ℕ). read_at written (block * block_size) n >>= node_of) (sym size)
      ∙ ap (λ o. o >>= node_of) (read_at-write_at disco (block * block_size) (node_bytes node))
      ∙ node_of-node_bytes node h,
  λ other differs inside.
      ap (λ o. o >>= node_of)
        (elim (Bool-cases (ltb other block)) [
          | inl before ↦
              read_at-write_at_before disco (block * block_size) (node_bytes node)
                (other * block_size) block_size inside (omega (arith, ltb→lt other block before))
          | inr behind ↦
              read_at-write_at_behind disco (block * block_size) (node_bytes node)
                (other * block_size) block_size (omega (arith, size, ltb→le other block behind))
        ]),
)
  where
    written : List ℕ
    written = write_node disco block node

    size : length (node_bytes node) ≡ block_size
    size = length-node_bytes node h
