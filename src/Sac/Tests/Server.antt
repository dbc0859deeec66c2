-- ===== src/Sac/Tests/Server.antt =====
-- Requests for the file "/a" on a disk that holds it.
use locomatch.Prelude.{
  ℕ, ◌*◌, ◌<◌, ◌≤◌, ◌≡◌, inl, inr, refl, ap, ◌∙◌, List, [], ◌∷◌, none, some, arith, ◌==◌,
  Bool-cases, eqb→eq, eqb→ne,
}
use locomatch.Prelude.Text.{strcmp, strdup}
use locomatch.Sac.Blocks.{Geometry}
use locomatch.Sac.OpenedFiles.{OpenedFile, is_file_opened, strlen}
use locomatch.Sac.Disk.{read_node, node_bytes}
use locomatch.Sac.Lookup.{node_name, parse_path, find_node, search_for_file}
use locomatch.Sac.Lookup.Climbing.{IsNamed}
use locomatch.Sac.Lookup.Found.{find_node_outcome}
use locomatch.Sac.Server.{Servidor, locate}
use locomatch.Sac.Server.Opening.{IsFile, Opened, action_open-Opened}
use locomatch.Sac.Server.Write.{PackageWrite, action_write}
use locomatch.Sac.Server.Writing.{IsOpenFile, start_of_write, action_write_short}
use locomatch.Sac.Tests.Environment.{string_split, entorno}
use locomatch.Sac.Tests.Disk.{nada, archivo, disk_of, file_there, others_there, disk_of-IsReadable}

-- One block for the bitmap.
abbrev pub geometria : Geometry
geometria = record {
  bitmap_start = 1;
  bitmap_size_bytes = 4096;
  node_table_start = 2;
  node_table_end = 1025;
  data_blocks_start = 1026;
  data_blocks_end = 32767;
}

abbrev pub servidor : ℕ → List OpenedFile → Servidor
servidor m opened = record { geometry = geometria; disco = disk_of m; opened = opened }

abbrev pub path : List ℕ
path = b'/' ∷ b'a' ∷ []

abbrev path_array : List (List ℕ)
path_array = (b'a' ∷ []) ∷ []

parsed : parse_path string_split path ≡ some path_array
unfolding parse_path
parsed = refl

archivo-named : node_name archivo ≡ some (b'a' ∷ [])
unfolding node_name node_bytes strdup
archivo-named = refl

nada-named : node_name nada ≡ some []
unfolding node_name node_bytes strdup
nada-named = refl

module _ (m : ℕ) (h : 1026 * 4096 ≤ m) where
  only_two :
      (block : ℕ) → block < 1026 → IsNamed (read_node (disk_of m)) block (b'a' ∷ []) → block ≡ 2
  only_two block low (n, there, named) = elim (Bool-cases (block == 2)) [
    | inl two ↦ eqb→eq block 2 two
    | inr other ↦
        let zeros = others_there m h block (eqb→ne block 2 other) low in
        let unnamed = nada-named in cc
  ]

  found : find_node (read_node (disk_of m)) 2 path_array ≡ some 2
  found =
      elim (find_node_outcome (disk_of-IsReadable m h) path_array 0 (b'a' ∷ []) refl refl
        (omega arith)) [
          | inl (block, is, run) ↦
              run ∙ ap (λ (b : ℕ). some b) (only_two block is.0.inside is.0.named)
          | inr (inl never, run) ↦
              absurd (never 2 (omega arith) (omega arith) (archivo, file_there m h, archivo-named))
          | inr (inr (block, last, no_way), run) ↦
              let two = only_two block last.inside last.named in
              absurd (
                no_way (
                  (λ z. absurd (omega (arith, z, two))),
                  (
                    archivo,
                    b'a' ∷ [],
                    ap (read_node (disk_of m)) two ∙ file_there m h,
                    archivo-named,
                    refl,
                    refl,
                  ),
                ))
        ]

  located : (opened : List OpenedFile) → locate entorno (servidor m opened) path ≡ some 2
  unfolding locate search_for_file strcmp
  located opened = rw (parsed, found) refl

abbrev pub tamanio : ℕ
tamanio = 1027 * 4096

pub path-IsFile : IsFile entorno (servidor tamanio []) path 2
unfolding strcmp strlen
path-IsFile = record {
  node = archivo;
  name = b'a' ∷ [];
  size = 1;
  not_root = refl;
  located = located tamanio (omega arith) [];
  not_missing = refl;
  there = file_there tamanio (omega arith);
  regular = refl;
  named = archivo-named;
  name_fits = omega arith;
  name_ends = refl;
}

action_open-Opened_example : Opened entorno (servidor tamanio []) path 77 2
action_open-Opened_example = action_open-Opened entorno path-IsFile 77 tt (omega arith)

-- The opened file.
abbrev abierto : OpenedFile
abierto = record {
  fd = 1;
  node_block = 2;
  mode = 0;
  state = 1;
  fname = b'a' ∷ 0 ∷ [];
  parent_block = 0;
}

path-IsOpenFile : IsOpenFile entorno (servidor tamanio (abierto ∷ [])) path 2 archivo
unfolding strcmp is_file_opened
path-IsOpenFile = record {
  not_root = refl;
  located = located tamanio (omega arith) (abierto ∷ []);
  not_missing = refl;
  there = file_there tamanio (omega arith);
  regular = refl;
  is_open = refl;
}

-- The text "hola" at the start of the file.
abbrev hola : PackageWrite
hola = record {
  path = path;
  buf = b'h' ∷ b'o' ∷ b'l' ∷ b'a' ∷ [];
  size_s = b'4' ∷ [];
  offset_s = b'0' ∷ [];
}

action_write_short_example : action_write entorno (servidor tamanio (abierto ∷ [])) hola ≡ none
unfolding start_of_write
action_write_short_example =
    action_write_short entorno hola path-IsOpenFile (omega arith) (omega arith)
