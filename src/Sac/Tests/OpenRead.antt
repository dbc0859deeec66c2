-- ===== src/Sac/Tests/OpenRead.antt =====
-- The file "/a" is opened and read.
use locomatch.Prelude.{ℕ, refl, List, [], ◌∷◌, arith, replicate}
use locomatch.Prelude.Text.{strdup}
use locomatch.Sockets.Bytes.{load_int}
use locomatch.Sac.Server.Read.{PackageRead, read_block, copied_blocks}
use locomatch.Sac.Server.Reading.{Content, ended, block_text, IsRequest}
use locomatch.Sac.Server.{print_int}
use locomatch.Sac.Client.Words.{is_word→IsWord}
use locomatch.Sac.Client.OpenRead.{Answered, open_read-Answered}
use locomatch.Sac.Tests.Environment.{splits, entorno}
use locomatch.Sac.Tests.Disk.{disk_of, archivo, file_there, data_there}
use locomatch.Sac.Tests.Server.{servidor, tamanio, path, path-IsFile}

-- Four bytes from the start.
abbrev leer : PackageRead
leer = record { path = path; size = b'4' ∷ []; offset = b'0' ∷ [] }

abbrev bloques : List ℕ
bloques = 2 ∷ 4 ∷ replicate 3998 0

pedido : IsRequest entorno (servidor tamanio []) 2 0 4 leer
unfolding copied_blocks load_int strdup
pedido = record {
  node = archivo;
  blocks = bloques;
  first = 1026;
  there = file_there tamanio (omega arith);
  copied = refl;
  first_entry = refl;
  has_block = refl;
  offset_text = refl;
  size_text = refl;
  inside = omega arith;
  small = omega arith;
}

contenido : Content (disk_of tamanio) bloques 0 0 ([] ∷ [])
unfolding load_int strdup read_block
contenido =
    block_text 1026 (replicate 4096 0) [] refl refl (data_there tamanio (omega arith) (omega arith))
      refl (ended refl)

open_read-Answered_example : Answered entorno 77 3 (servidor tamanio []) path 5 4 0 ([] ∷ [])
unfolding pedido print_int
open_read-Answered_example =
    open_read-Answered splits 77 3
      (
        is_word→IsWord path refl,
        record { short = omega arith; digits = is_word→IsWord (b'5' ∷ []) refl },
      )
      (
        is_word→IsWord path refl,
        (
          record {
            small = omega arith;
            short = omega arith;
            digits = is_word→IsWord (b'4' ∷ []) refl;
          },
          record {
            small = omega arith;
            short = omega arith;
            digits = is_word→IsWord (b'0' ∷ []) refl;
          },
        ),
      )
      path-IsFile tt (omega arith) pedido contenido (omega arith) (omega arith)
