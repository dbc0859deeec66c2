-- ===== src/Sockets/Packet.antt =====
-- t_paquete: crear_buffer, crear_paquete, agregar_a_paquete, serializar_paquete.
use locomatch.Prelude.{
  ℕ, ◌+◌, ◌≡◌, refl, List, [], ◌∷◌, ◌++◌, Option, some, arith, append_assoc, append-nil, length,
  length-append, length-take, take, take_all, ◌≤◌,
}
use locomatch.Prelude.Maybe.{◌>>=◌}
use locomatch.Sockets.Bytes.{sizeof_int, int_bytes, length-int_bytes, memcpy}

-- t_buffer
pub record Buffer : Type 0 where
  pub size : ℕ
  pub stream : List ℕ

-- t_paquete
pub record Paquete : Type 0 where
  pub codigo_operacion : ℕ
  pub buffer : Buffer

unfoldable pub crear_buffer : Buffer
crear_buffer = record { size = 0; stream = [] }

unfoldable pub crear_paquete : ℕ → Paquete
unfolding crear_buffer
crear_paquete op_code = record { codigo_operacion = op_code; buffer = crear_buffer }

-- The buffer after realloc and the two memcpy at its old end.
extend : Buffer → List ℕ → ℕ → Buffer
extend buffer bytes tamanio = record {
  size = size + (tamanio + sizeof_int);
  stream = take size stream ++ (int_bytes tamanio ++ bytes);
}
  where
    open buffer use {size, stream}

-- `valor` is the memory from the value's address on; `none` is a read past its end.
unfoldable pub agregar_a_paquete : Paquete → List ℕ → ℕ → Option Paquete
unfolding extend
agregar_a_paquete paquete valor tamanio = do
  bytes ← memcpy valor tamanio
  some (record paquete { buffer = extend paquete.buffer bytes tamanio })

unfoldable pub serializar_paquete : Paquete → List ℕ
serializar_paquete paquete =
    int_bytes paquete.codigo_operacion
    ++ (int_bytes paquete.buffer.size ++ take paquete.buffer.size paquete.buffer.stream)

-- A packet whose values are added one by one, each with its exact length, as every caller does.
unfoldable pub agregar_todos : Paquete → List (List ℕ) → Option Paquete
agregar_todos paquete [] = some paquete
agregar_todos paquete (v ∷ vs) = do
  siguiente ← agregar_a_paquete paquete v (length v)
  agregar_todos siguiente vs

-- The wire form of a list of values.
abbrev pub campos : List (List ℕ) → List ℕ
campos [] = []
campos (v ∷ vs) = int_bytes (length v) ++ (v ++ campos vs)

-- A buffer's size is the length of its stream.
abbrev pub IsSized : Paquete → Type 0
IsSized p = p.buffer.size ≡ length p.buffer.stream

abbrev pub with_stream : ℕ → List ℕ → Paquete
with_stream code xs = record {
  codigo_operacion = code;
  buffer = record { size = length xs; stream = xs };
}

-- A value is added with its length in front.
pub agregar_a_paquete-area :
    (code : ℕ) (xs area : List ℕ) (n : ℕ)
    → n ≤ length area
    → agregar_a_paquete (with_stream code xs) area n
      ≡ some (with_stream code (xs ++ (int_bytes n ++ take n area)))
unfolding agregar_a_paquete memcpy
agregar_a_paquete-area code xs area n h = ground (
  arith,
  take_all (length xs) xs,
  length-append xs (int_bytes n ++ take n area),
  length-append (int_bytes n) (take n area),
  length-take n area,
  length-int_bytes n,
)

pub campos-append : (vs ws : List (List ℕ)) → campos (vs ++ ws) ≡ campos vs ++ campos ws
campos-append [] ws = refl
campos-append (v ∷ vs) ws = rw (campos-append vs ws) (simp append_assoc)

-- One more value at the end of a packet.
pub agregar_a_paquete-campos :
    (code : ℕ) (vs : List (List ℕ)) (area : List ℕ) (n : ℕ)
    → n ≤ length area
    → agregar_a_paquete (with_stream code (campos vs)) area n
      ≡ some (with_stream code (campos (vs ++ take n area ∷ [])))
agregar_a_paquete-campos code vs area n h =
    rw (agregar_a_paquete-area code (campos vs) area n h, campos-append vs (take n area ∷ []))
      (rw (length-take n area h, append-nil (take n area)))

pub agregar_todos-campos :
    (code : ℕ) (xs : List ℕ) (vs : List (List ℕ))
    → agregar_todos (with_stream code xs) vs ≡ some (with_stream code (xs ++ campos vs))
unfolding agregar_todos
agregar_todos-campos code xs [] = rw (append-nil xs)
agregar_todos-campos code xs (v ∷ vs) =
    rw
      (
        agregar_a_paquete-area code xs v (length v) (omega arith),
        take_all (length v) v (omega arith),
      )
      (rw (agregar_todos-campos code (xs ++ (int_bytes (length v) ++ v)) vs) (simp append_assoc))
