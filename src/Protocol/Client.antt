-- ===== src/Protocol/Client.antt =====
-- lib/hilolay/hilolay_alumnos.c: suse_create, suse_schedule_next, suse_join, suse_close,
-- suse_wait, suse_signal. Each returns the bytes that it sends; `none` is a read past the memory.
use locomatch.Prelude.{
  ℕ, ◌+◌, true, List, [], ◌∷◌, ◌++◌, Option, none, some, length, get_elem?, ◌==◌, if◌then◌else◌,
}
use locomatch.Prelude.Maybe.{◌>>=◌}
use locomatch.Sockets.Bytes.{sizeof_int}
use locomatch.Sockets.Packet.{crear_paquete, agregar_a_paquete}
use locomatch.Sockets.Channel.{
  Memory, Socket, enviar_paquete, enviar_operacion, recibir_operacion, recibir_paquete, minus_one,
}
use locomatch.Protocol.Codes.{
  Pedido, create, schedule_next, wait, signal, join, close, desconectado, desconocido,
  suse_create_code, suse_schedule_next_code, suse_schedule_next_return_code, suse_wait_code,
  suse_signal_code, suse_join_code, suse_close_code,
}
use locomatch.Protocol.Decimal.{Decimal}

module _ (d : Decimal) (beyond : List ℕ) where
  open d use {itoa, atoi}

  -- The memory from a number's text on: the text, its zero and what lies `beyond`.
  abbrev pub threadid : ℕ → List ℕ
  threadid tid = itoa tid ++ 0 ∷ beyond

  unfoldable pub suse_create : ℕ → Option (List ℕ)
  suse_create tid = do
    paquete ← agregar_a_paquete (crear_paquete suse_create_code) (threadid tid) sizeof_int
    enviar_paquete true paquete []

  unfoldable pub suse_join : ℕ → Option (List ℕ)
  suse_join tid = do
    paquete ← agregar_a_paquete (crear_paquete suse_join_code) (threadid tid) sizeof_int
    enviar_paquete true paquete []

  unfoldable pub suse_close : ℕ → Option (List ℕ)
  suse_close tid = do
    paquete ← agregar_a_paquete (crear_paquete suse_close_code) (threadid tid) sizeof_int
    enviar_paquete true paquete []

  unfoldable pub suse_wait : ℕ → List ℕ → Option (List ℕ)
  suse_wait tid sem_name = do
    paquete ← agregar_a_paquete (crear_paquete suse_wait_code) (threadid tid) sizeof_int
    completo ← agregar_a_paquete paquete (sem_name ++ 0 ∷ beyond) (length sem_name + 1)
    enviar_paquete true completo []

  unfoldable pub suse_signal : ℕ → List ℕ → Option (List ℕ)
  suse_signal tid sem_name = do
    paquete ← agregar_a_paquete (crear_paquete suse_signal_code) (threadid tid) sizeof_int
    completo ← agregar_a_paquete paquete (sem_name ++ 0 ∷ beyond) (length sem_name + 1)
    enviar_paquete true completo []

  -- The request of suse_schedule_next.
  unfoldable pub pedir_siguiente : List ℕ
  pedir_siguiente = (enviar_operacion true suse_schedule_next_code []).1

  -- Its reading of the answer: the thread to run, or -1.
  unfoldable pub leer_siguiente : Memory → Socket → Option (ℕ × Socket)
  leer_siguiente m s = do
    (codigo, s') ← recibir_operacion m s
    let leer : Option (ℕ × Socket) = do
      (parametros, s'') ← recibir_paquete m s'
      tid ← get_elem? parametros 0
      some (atoi tid, s'')
    if codigo == suse_schedule_next_return_code then leer else some (minus_one, s')

  -- The bytes of a request. The last two are no calls of the client.
  abbrev pub enviar : Pedido → Option (List ℕ)
  enviar (create tid) = suse_create tid
  enviar schedule_next = some pedir_siguiente
  enviar (wait tid sem_name) = suse_wait tid sem_name
  enviar (signal tid sem_name) = suse_signal tid sem_name
  enviar (join tid) = suse_join tid
  enviar (close tid) = suse_close tid
  enviar desconectado = none
  enviar (desconocido codigo) = none
