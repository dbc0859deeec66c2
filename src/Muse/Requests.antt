-- ===== src/Muse/Requests.antt =====
-- lib/libMUSE/libmuse.c: muse_init and the calls of the memory's client library, on the socket that
-- it keeps in a global. A call gives the bytes that it sends, what it returns, and the socket behind
-- the answer. `none` is a read past the memory.
pub mod Values
pub mod Framed
pub mod Received
mod Tests
use locomatch.Prelude.{
  ℕ, ◌%◌, ◌/◌, ◌^◌, true, List, [], ◌∷◌, ◌++◌, Option, some, ◌==◌, if◌then◌else◌,
}
use locomatch.Prelude.Maybe.{◌>>=◌}
use locomatch.Sockets.Bytes.{sizeof_int, int_bytes}
use locomatch.Sockets.Packet.{Paquete, crear_paquete, agregar_a_paquete}
use locomatch.Sockets.Channel.{
  Memory, Socket, enviar_paquete, recibir_buffer, recibir_mensaje, minus_one, cerrar,
}
use locomatch.Protocol.Decimal.{Decimal}

abbrev pub muse_alloc_code : ℕ
muse_alloc_code = 9

abbrev pub muse_free_code : ℕ
muse_free_code = 10

abbrev pub muse_get_code : ℕ
muse_get_code = 11

abbrev pub muse_cpy_code : ℕ
muse_cpy_code = 12

abbrev pub muse_map_code : ℕ
muse_map_code = 13

abbrev pub muse_sync_code : ℕ
muse_sync_code = 14

abbrev pub muse_unmap_code : ℕ
muse_unmap_code = 15

-- sizeof(size_t)
abbrev pub sizeof_size : ℕ
sizeof_size = 8

-- A pointer or a size_t in memory.
abbrev pub word_bytes : ℕ → List ℕ
word_bytes n = int_bytes n ++ int_bytes (n / 2 ^ 32)

-- By what crear_conexion_con_servidor returns.
abbrev pub muse_init : ℕ → ℕ
muse_init socket_cliente = if socket_cliente == 0 then minus_one else 0

abbrev pub muse_close : Socket → Socket
muse_close socket_cliente = cerrar socket_cliente

module _ (d : Decimal) (beyond : List ℕ) (m : Memory) where
  open d use {itoa, atoi}

  -- The memory from the text of string_itoa on, which takes an int.
  abbrev pub texto : ℕ → List ℕ
  texto n = itoa (n % 2 ^ 32) ++ 0 ∷ beyond

  -- recibir_buffer and atoi, at the end of a call.
  unfoldable pub leer_respuesta : Socket → Option (ℕ × Socket)
  leer_respuesta s = do (rta, s') ← recibir_buffer m s; some (atoi rta.stream, s')

  -- enviar_paquete and what follows it.
  unfoldable pub consultar : Paquete → Socket → Option (List ℕ × ℕ × Socket)
  consultar paquete s = do
    bytes ← enviar_paquete true paquete []
    (rta, s') ← leer_respuesta s
    some (bytes, rta, s')

  unfoldable pub muse_alloc : ℕ → Socket → Option (List ℕ × ℕ × Socket)
  muse_alloc tam s = do
    paquete ← agregar_a_paquete (crear_paquete muse_alloc_code) (texto tam) sizeof_int
    consultar paquete s

  -- It has no answer and returns nothing.
  unfoldable pub muse_free : ℕ → Option (List ℕ)
  muse_free dir = do
    paquete ← agregar_a_paquete (crear_paquete muse_free_code) (texto dir) sizeof_int
    enviar_paquete true paquete []

  unfoldable pub muse_get : ℕ → ℕ → ℕ → Socket → Option (List ℕ × ℕ × Socket)
  muse_get dst src n s = do
    uno ← agregar_a_paquete (crear_paquete muse_get_code) (word_bytes dst) sizeof_int
    dos ← agregar_a_paquete uno (texto src) sizeof_int
    tres ← agregar_a_paquete dos (texto n) sizeof_size
    consultar tres s

  unfoldable pub muse_cpy : ℕ → ℕ → ℕ → Socket → Option (List ℕ × ℕ × Socket)
  muse_cpy dst src n s = do
    uno ← agregar_a_paquete (crear_paquete muse_cpy_code) (texto dst) sizeof_int
    dos ← agregar_a_paquete uno (word_bytes src) sizeof_int
    tres ← agregar_a_paquete dos (texto n) sizeof_int
    consultar tres s

  -- `path` is the address of the path.
  unfoldable pub muse_map : ℕ → ℕ → ℕ → Socket → Option (List ℕ × ℕ × Socket)
  muse_map path longitud flags s = do
    uno ← agregar_a_paquete (crear_paquete muse_map_code) (word_bytes path) sizeof_int
    dos ← agregar_a_paquete uno (texto longitud) sizeof_size
    tres ← agregar_a_paquete dos (texto flags) sizeof_int
    consultar tres s

  unfoldable pub muse_sync : ℕ → ℕ → Socket → Option (List ℕ × ℕ × Socket)
  muse_sync addr len s = do
    uno ← agregar_a_paquete (crear_paquete muse_sync_code) (int_bytes addr) sizeof_int
    dos ← agregar_a_paquete uno (word_bytes len) sizeof_size
    consultar dos s

  unfoldable pub muse_unmap : ℕ → Socket → Option (List ℕ × ℕ × Socket)
  muse_unmap dir s = do
    paquete ← agregar_a_paquete (crear_paquete muse_unmap_code) (int_bytes dir) sizeof_int
    bytes ← enviar_paquete true paquete []
    (mensaje, s') ← recibir_mensaje m s
    (rta, s'') ← leer_respuesta s'
    some (bytes, rta, s'')
