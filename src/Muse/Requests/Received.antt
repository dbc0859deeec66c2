-- ===== src/Muse/Requests/Received.antt =====
-- What the other end reads of the calls of libmuse.c, and what they make of the answer.
use locomatch.Prelude.{ℕ, ◌^◌, ◌≤◌, ◌<◌, ◌≡◌, refl, List, ◌++◌, Option, some, length}
use locomatch.Prelude.Maybe.{◌>>=◌}
use locomatch.Sockets.Channel.{Memory, Socket, recibir_operacion, recibir_paquete}
use locomatch.Sockets.RoundTrip.{llega, trama, recibir_operacion-trama, recibir_paquete-campos}
use locomatch.Protocol.Decimal.{Decimal}
use locomatch.Muse.Requests.Values.{
  Llamada, codigo, codigo-int, IsShort, valores, AreRead, valores-AreRead, length-valores,
}
use locomatch.Muse.Requests.Framed.{llamar, entrada, resultado, framed}

module _ (d : Decimal) (beyond : List ℕ) (m : Memory) (room : 7 ≤ length beyond) where
  open d use {itoa, atoi}

  -- A request as the other end reads it.
  abbrev pub recibida : List ℕ → Option (ℕ × List (List ℕ) × Socket)
  recibida bytes = do
    (codigo_operacion, s) ← recibir_operacion m (llega bytes)
    (parametros, s') ← recibir_paquete m s
    some (codigo_operacion, parametros, s')

  recibida-trama :
      (llamada : Llamada) (more : List ℕ)
      → recibida (trama (codigo llamada) (valores d beyond m room llamada) ++ more)
        ≡ some (codigo llamada, valores d beyond m room llamada, llega more)
  recibida-trama llamada more =
      rw
        (
          recibir_operacion-trama m (codigo llamada) (valores d beyond m room llamada) more
              (codigo-int llamada),
          recibir_paquete-campos m (valores d beyond m room llamada) more
              (length-valores d beyond m room llamada),
        )
        refl

  -- The other end reads a call of the library as this call, with the numbers that are sent as text and
  -- the low halves of the pointers, and what follows stays on the connection; the call returns the
  -- number of the answer's text (muse_free none, here 0) and leaves what follows the answer, in front
  -- of which muse_unmap reads a message. The numbers that are sent as text are below 1000, seven bytes
  -- can be read behind each text, and the messages are shorter than 2 ^ 31 bytes.
  pub llamar-AreRead :
      (llamada : Llamada) (mensaje rta rest more : List ℕ)
      → IsShort llamada
      → length mensaje < 2 ^ 31
      → length rta < 2 ^ 31
      → (bytes : List ℕ) × (vs : List (List ℕ)) × (llamar d beyond m room llamada
            (llega (entrada d beyond m room llamada mensaje rta rest))
          ≡ some (bytes, resultado d beyond m room llamada rta, llega rest))
        × (recibida (bytes ++ more) ≡ some (codigo llamada, vs, llega more))
        × AreRead d beyond m room llamada vs
  llamar-AreRead llamada mensaje rta rest more short_numbers h k = (
    trama (codigo llamada) (valores d beyond m room llamada),
    valores d beyond m room llamada,
    framed d beyond m room mensaje rta rest h k llamada,
    recibida-trama llamada more,
    valores-AreRead d beyond m room llamada short_numbers,
  )
