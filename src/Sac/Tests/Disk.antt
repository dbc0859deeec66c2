-- ===== src/Sac/Tests/Disk.antt =====
-- A disk of zeros with the file "a" in the first block of its node table. The file has four bytes
-- in block 1026, the first of the data.
use locomatch.Prelude.{
  ℕ, zero, suc, ◌+◌, ◌-◌, ◌*◌, ◌<◌, ◌≤◌, ◌≡◌, ◌≢◌, inl, inr, refl, ap, ◌∙◌, List, [], ◌∷◌, some,
  arith, replicate, ◌==◌, length-replicate, take, drop, le→leb, Bool-cases, eqb→eq, eqb→ne,
}
use locomatch.Prelude.Maybe.{◌>>=◌}
use locomatch.Prelude.Text.{strdup}
use locomatch.Sockets.Bytes.{memcpy, load_int}
use locomatch.Sac.Blocks.{block_size}
use locomatch.Sac.Disk.{
  Node, node_bytes, node_of, field, int_field, byte_field, read_at, read_node, write_node,
}
use locomatch.Sac.Disk.Layout.{
  IsNode, length-node_bytes, read_at-write_at_behind, read_node-write_node,
}
use locomatch.Sac.Lookup.{node_name}
use locomatch.Sac.Lookup.Climbing.{IsReadable}
use locomatch.Sac.Tests.Nodes.{nodo}

drop-replicate : (n m : ℕ) (a : ℕ) → drop n (replicate m a) ≡ replicate (m - n) a
drop-replicate zero m a = ap (λ (k : ℕ). replicate k a) same
  where
    same : m ≡ m - 0
    same = omega arith
drop-replicate (suc n) zero a = ap (λ (k : ℕ). replicate k a) nothing
  where
    nothing : 0 ≡ 0 - suc n
    nothing = omega arith
drop-replicate (suc n) (suc m) a = drop-replicate n m a ∙ ap (λ (k : ℕ). replicate k a) shift
  where
    shift : m - n ≡ suc m - suc n
    shift = omega arith

take-replicate : (n m : ℕ) (a : ℕ) → n ≤ m → take n (replicate m a) ≡ replicate n a
take-replicate zero m a h = refl
take-replicate (suc n) zero a h = elim h [ ]
take-replicate (suc n) (suc m) a h = ap (λ (l : List ℕ). a ∷ l) (take-replicate n m a (omega arith))

-- Reading zeros.
read_at-zeros : (m p n : ℕ) → p + n ≤ m → read_at (replicate m 0) p n ≡ some (replicate n 0)
unfolding read_at memcpy
read_at-zeros m p n h =
    rw
      (
        drop-replicate p m 0,
        length-replicate {A = ℕ} (m - p) 0,
        le→leb n (m - p) (omega (arith, h)),
      )
      (ap (λ (l : List ℕ). some l) (take-replicate n (m - p) 0 (omega (arith, h))))

abbrev pub nada : Node
nada = nodo 0 0 0

node_of-zeros : node_of (replicate 4096 0) ≡ some nada
unfolding node_of byte_field field int_field load_int memcpy
node_of-zeros = refl

read_node-zeros :
    (m block : ℕ)
    → block * block_size + block_size ≤ m
    → read_node (replicate m 0) block ≡ some nada
unfolding read_node
read_node-zeros m block h =
    ap (λ o. o >>= node_of) (read_at-zeros m (block * block_size) block_size h) ∙ node_of-zeros

abbrev pub archivo : Node
archivo = record (nodo 1 b'a' 0) { filesize = 4; blocks = 2 ∷ 4 ∷ replicate 3998 0 }

archivo-IsNode : IsNode archivo
archivo-IsNode = record {
  name_size = refl;
  parent_fits = omega arith;
  size_fits = omega arith;
  created_size = refl;
  modified_size = refl;
  blocks_size = refl;
}

-- The disk, of some size.
abbrev pub disk_of : ℕ → List ℕ
disk_of m = write_node (replicate m 0) 2 archivo

module _ (m : ℕ) (h : 1026 * 4096 ≤ m) where
  pub file_there : read_node (disk_of m) 2 ≡ some archivo
  file_there = (read_node-write_node (replicate m 0) 2 archivo archivo-IsNode).0

  pub others_there :
      (block : ℕ) → block ≢ 2 → block < 1026 → read_node (disk_of m) block ≡ some nada
  others_there block other low =
      (read_node-write_node (replicate m 0) 2 archivo archivo-IsNode).1 block other
        (omega (arith, low, h, length-replicate {A = ℕ} m 0))
      ∙ read_node-zeros m block (omega (arith, low, h))

  pub disk_of-IsReadable : IsReadable (read_node (disk_of m)) 1026
  unfolding node_name node_bytes strdup
  disk_of-IsReadable = record {
    readable = λ block low. elim (Bool-cases (block == 2)) [
      | inl two ↦ (
        archivo,
        b'a' ∷ [],
        ap (read_node (disk_of m)) (eqb→eq block 2 two) ∙ file_there,
        refl,
        omega arith,
      )
      | inr other ↦ (nada, [], others_there block (eqb→ne block 2 other) low, refl, omega arith)
    ];
  }

  pub data_there :
      1027 * 4096 ≤ m → read_at (disk_of m) (1026 * 4096) 4096 ≡ some (replicate 4096 0)
  unfolding write_node
  data_there room =
      read_at-write_at_behind (replicate m 0) 8192 (node_bytes archivo) (1026 * 4096) 4096
        (omega (arith, length-node_bytes archivo archivo-IsNode))
      ∙ read_at-zeros m (1026 * 4096) 4096 (omega (arith, room))
