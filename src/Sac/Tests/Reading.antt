-- ===== src/Sac/Tests/Reading.antt =====
-- A file with the text "hola" in block 1 and its node in block 2.
use locomatch.Prelude.{
  ℕ, ◌≡◌, refl, List, [], ◌∷◌, ◌++◌, some, arith, replicate, length-replicate, sym, ap, ◌∙◌, length,
  length-append, drop, drop-append, append-nil,
}
use locomatch.Prelude.Text.{strdup}
use locomatch.Sockets.Bytes.{load_int, memcpy, memcpy-append}
use locomatch.Sac.Disk.{Node, read_at, write_node, node_bytes}
use locomatch.Sac.Disk.Layout.{IsNode, read_at-write_at_before, read_node-write_node}
use locomatch.Sac.Server.{Servidor}
use locomatch.Sac.Server.Read.{PackageRead, read_block, copied_blocks, read_opened}
use locomatch.Sac.Server.Reading.{Content, ended, block_text, IsRequest, read_opened_texts}
use locomatch.Sac.Tests.Environment.{entorno}
use locomatch.Sac.Tests.Server.{geometria}

abbrev texto : List ℕ
texto = b'h' ∷ b'o' ∷ b'l' ∷ b'a' ∷ []

abbrev con_texto : Node
con_texto = record {
  state = 1;
  fname = b'a' ∷ replicate 70 0;
  parent_block = 0;
  filesize = 4;
  created = replicate 8 0;
  modified = replicate 8 0;
  blocks = 1 ∷ replicate 3999 0;
}

con_texto-IsNode : IsNode con_texto
con_texto-IsNode = record {
  name_size = refl;
  parent_fits = omega arith;
  size_fits = omega arith;
  created_size = refl;
  modified_size = refl;
  blocks_size = refl;
}

-- The first two blocks.
abbrev antes : List ℕ
antes = replicate 4096 0 ++ (texto ++ replicate 4092 0)

abbrev servidor : Servidor
servidor = record { geometry = geometria; disco = write_node antes 2 con_texto; opened = [] }

abbrev leer : PackageRead
leer = record { path = b'/' ∷ b'a' ∷ []; size = b'4' ∷ []; offset = b'0' ∷ [] }

-- What malloc left on the stack is zeros.
abbrev bloques : List ℕ
bloques = 1 ∷ replicate 3999 0

pedido : IsRequest entorno servidor 2 0 4 leer
unfolding copied_blocks load_int strdup
pedido = record {
  node = con_texto;
  blocks = bloques;
  first = 1;
  there = (read_node-write_node antes 2 con_texto con_texto-IsNode).0;
  copied = refl;
  first_entry = refl;
  has_block = refl;
  offset_text = refl;
  size_text = refl;
  inside = omega arith;
  small = omega arith;
}

length-antes : length antes ≡ 8192
length-antes = omega (
  arith,
  length-append (replicate 4096 0) (texto ++ replicate 4092 0),
  length-append texto (replicate 4092 0),
  length-replicate {A = ℕ} 4096 0,
  length-replicate {A = ℕ} 4092 0,
)

-- The text is read from its block.
bloque :
    (size : ℕ) (before behind : List ℕ)
    → length before ≡ size
    → read_at (before ++ behind) size (length behind) ≡ some behind
unfolding read_at
bloque size before behind h =
    ap (λ (l : List ℕ). memcpy l (length behind))
      (ap (λ (n : ℕ). drop n (before ++ behind)) (sym h) ∙ drop-append before behind)
    ∙ ap (λ (l : List ℕ). memcpy l (length behind)) (sym (append-nil behind))
    ∙ memcpy-append behind []

leido : read_block servidor.disco 1 0 ≡ some (texto ++ replicate 4092 0)
unfolding read_block write_node
leido =
    read_at-write_at_before antes 8192 (node_bytes con_texto) 4096 4096
      (omega (arith, length-antes)) (omega arith)
    ∙ ap (read_at antes 4096) (sym size)
    ∙ bloque 4096 (replicate 4096 0) (texto ++ replicate 4092 0) (length-replicate {A = ℕ} 4096 0)
  where
    size : length (texto ++ replicate 4092 0) ≡ 4096
    size = omega (arith, length-append texto (replicate 4092 0), length-replicate {A = ℕ} 4092 0)

contenido : Content servidor.disco bloques 0 0 (texto ∷ [])
unfolding load_int strdup
contenido = block_text 1 (texto ++ replicate 4092 0) texto refl refl leido refl (ended refl)

read_opened_texts_example : read_opened entorno servidor 2 leer ≡ some texto
unfolding pedido
read_opened_texts_example = read_opened_texts pedido contenido (omega arith) (omega arith)
