-- ===== src/Sockets/Channel.antt =====
-- Both ends of a connection: enviar_mensaje, enviar_operacion, enviar_paquete, recibir_operacion,
-- recibir_buffer, recibir_mensaje, recibir_paquete.
--
-- A socket is the bytes that still arrive on it before the peer closes. recv with MSG_WAITALL
-- takes as many bytes as were asked for, fewer only at the end of the stream, and -1 on an error.
use locomatch.Prelude.{
  ℕ, zero, suc, ◌+◌, ◌-◌, ◌^◌, ◌≡◌, Bool, true, false, List, [], ◌∷◌, ◌++◌, Option, none, some, ltb,
  if◌then◌else◌, length, take, drop,
}
use locomatch.Prelude.Maybe.{◌>>=◌}
use locomatch.Sockets.Bytes.{sizeof_int, int_bytes, load_int, memcpy}
use locomatch.Sockets.Packet.{Buffer, Paquete, serializar_paquete}

pub record Socket : Type 0 where
  pub incoming : List ℕ
  pub broken : Bool
  pub closed : Bool

-- What uninitialised variables and malloc'd areas hold before the code writes them.
pub record Memory : Type 0 where
  pub entero : List ℕ
  pub malloc : ℕ → List ℕ
  pub malloc_size : (n : ℕ) → length (malloc n) ≡ n

pub data Recv : Type 0 where
  got : List ℕ → Recv
  failed : Recv

recv : Socket → ℕ → Recv × Socket
recv s n =
    if s.broken
    then (failed, s)
    else (got (take n incoming), record s { incoming = drop n incoming })
  where
    open s use {incoming}

-- The bytes received over what the area held.
overlay : Recv → List ℕ → List ℕ
overlay failed old = old
overlay (got bytes) old = bytes ++ drop (length bytes) old

-- The int -1.
abbrev pub minus_one : ℕ
minus_one = 2 ^ 32 - 1

abbrev pub is_negative : ℕ → Bool
is_negative n = if ltb n (2 ^ 31) then false else true

pub cerrar : Socket → Socket
cerrar s = record s { closed = true }

-- The test `aux > 0`.
abbrev received : Recv → Bool
received failed = false
received (got []) = false
received (got (b ∷ bytes)) = true

unfoldable pub recibir_operacion : Memory → Socket → Option (ℕ × Socket)
unfolding recv overlay cerrar
recibir_operacion m s =
    let (aux, s') = recv s sizeof_int in
    if received aux
    then (do cod_op ← load_int (overlay aux m.entero); some (cod_op, s'))
    else some (minus_one, cerrar s')

-- A negative size is not followed further: malloc and recv then get a huge length.
unfoldable pub recibir_buffer : Memory → Socket → Option (Buffer × Socket)
unfolding recv overlay
recibir_buffer m s = do
  let (first, s') = recv s sizeof_int
  size ← load_int (overlay first m.entero)
  let (second, s'') = recv s' size
  if is_negative size
      then none
      else some (record { size = size; stream = overlay second (m.malloc size) }, s'')

-- `while(desplazamiento < size)`, with fuel; `none` is a read past the buffer or no fuel left.
unfoldable pub leer_valores : ℕ → Buffer → ℕ → List (List ℕ) → Option (List (List ℕ))
leer_valores zero buffer desplazamiento valores = none
leer_valores (suc fuel) buffer desplazamiento valores =
    let vuelta : Option (List (List ℕ)) = do
      tamanio ← load_int (drop desplazamiento buffer.stream)
      let inicio = desplazamiento + sizeof_int
      valor ← memcpy (drop inicio buffer.stream) tamanio
      leer_valores fuel buffer (inicio + tamanio) (valores ++ valor ∷ [])
    in if ltb desplazamiento buffer.size then vuelta else some valores

unfoldable pub recibir_paquete : Memory → Socket → Option (List (List ℕ) × Socket)
recibir_paquete m s = do
  (buffer, s') ← recibir_buffer m s
  valores ← leer_valores (suc buffer.size) buffer 0 []
  some (valores, s')

-- The text that recibir_mensaje prints is the buffer.
unfoldable pub recibir_mensaje : Memory → Socket → Option (List ℕ × Socket)
recibir_mensaje m s = do (buffer, s') ← recibir_buffer m s; some (buffer.stream, s')

-- send: `sent` says whether the call succeeds; the bytes join those already under way.
unfoldable pub enviar_paquete : Bool → Paquete → List ℕ → Option (List ℕ)
enviar_paquete sent paquete transit =
    if sent then some (transit ++ serializar_paquete paquete) else none

-- Returns 0, or -1 with nothing sent.
unfoldable pub enviar_operacion : Bool → ℕ → List ℕ → ℕ × List ℕ
enviar_operacion sent op_code transit =
    if sent then (0, transit ++ int_bytes op_code) else (minus_one, transit)

-- strlen(mensaje) + 1 bytes, the terminating zero among them.
unfoldable pub enviar_mensaje : Bool → ℕ → List ℕ → List ℕ → Option (List ℕ)
enviar_mensaje sent op_code mensaje transit = enviar_paquete sent paquete transit
  where
    paquete : Paquete
    paquete = record {
      codigo_operacion = op_code;
      buffer = record { size = length mensaje + 1; stream = mensaje ++ 0 ∷ [] };
    }
