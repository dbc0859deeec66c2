-- ===== src/Sac/Tests/Nodes.antt =====
-- A node table with the directory "a" in block 2 and the file "/a/b" in block 3.
use locomatch.Prelude.{
  ℕ, ◌+◌, ◌*◌, ◌≤◌, length-replicate, ◌<◌, ◌^◌, ◌≡◌, ◌≢◌, ◌⊎◌, refl, inl, inr, List, [], ◌∷◌,
  Option, some, arith, replicate, ◌==◌, if◌then◌else◌, length, Bool-cases,
}
use locomatch.Prelude.Text.{strdup}
use locomatch.Sac.Disk.{Node, node_bytes, read_node, write_node}
use locomatch.Sac.Disk.Layout.{IsNode, read_node-write_node}
use locomatch.Sac.Lookup.{node_name, find_node}
use locomatch.Sac.Blocks.{block_size}
use locomatch.Sac.Lookup.Climbing.{IsReadable}
use locomatch.Sac.Lookup.Table.{NoneNamed}
use locomatch.Sac.Lookup.Found.{IsFound, IsShadowed, find_node_outcome}

abbrev pub nodo : ℕ → ℕ → ℕ → Node
nodo state letter parent = record {
  state = state;
  fname = letter ∷ replicate 70 0;
  parent_block = parent;
  filesize = 0;
  created = replicate 8 0;
  modified = replicate 8 0;
  blocks = replicate 4000 0;
}

-- Three blocks.
abbrev disco : List ℕ
disco = replicate 12288 7

pub nodo-IsNode : (state letter parent : ℕ) → parent < 2 ^ 32 → IsNode (nodo state letter parent)
nodo-IsNode state letter parent h = record {
  name_size = refl;
  parent_fits = h;
  size_fits = omega arith;
  created_size = refl;
  modified_size = refl;
  blocks_size = length-replicate {A = ℕ} 4000 0;
}

read_node-write_node_example :
    (read_node (write_node disco 2 (nodo 1 b'a' 0)) 2 ≡ some (nodo 1 b'a' 0))
    × ((other : ℕ)
        → other ≢ 2
        → other * block_size + block_size ≤ length disco
        → read_node (write_node disco 2 (nodo 1 b'a' 0)) other ≡ read_node disco other)
read_node-write_node_example =
    read_node-write_node disco 2 (nodo 1 b'a' 0) (nodo-IsNode 1 b'a' 0 (omega arith))

abbrev nodes : ℕ → Option Node
nodes block =
    if block == 3
    then some (nodo 1 b'b' 2)
    else (if block == 2 then some (nodo 2 b'a' 0) else some (nodo 0 0 0))

nodes-IsReadable : IsReadable nodes 1026
unfolding node_name node_bytes strdup
nodes-IsReadable = record {
  readable = λ block h. elim (Bool-cases (block == 3)) [
    | inl three ↦ (nodo 1 b'b' 2, b'b' ∷ [], rw three refl, refl, omega arith)
    | inr other ↦ elim (Bool-cases (block == 2)) [
      | inl two ↦ (nodo 2 b'a' 0, b'a' ∷ [], rw (other, two) refl, refl, omega arith)
      | inr third ↦ (nodo 0 0 0, [], rw (other, third) refl, refl, omega arith)
    ]
  ];
}

abbrev path : List (List ℕ)
path = (b'a' ∷ []) ∷ (b'b' ∷ []) ∷ []

find_node_outcome_example :
    ((block : ℕ) × IsFound nodes path (b'b' ∷ []) block × (find_node nodes 2 path ≡ some block))
    ⊎ ((NoneNamed nodes (b'b' ∷ []) 2 1026 ⊎ IsShadowed nodes path (b'b' ∷ []))
        × (find_node nodes 2 path ≡ some 0))
find_node_outcome_example =
    find_node_outcome nodes-IsReadable path 1 (b'b' ∷ []) refl refl (omega arith)
