-- ===== src/Protocol/Server.antt =====
-- The reading half of schedule_short_term in planificacion/suse/suse_scheduler.c, and the answer
-- that notify_program writes.
use locomatch.Prelude.{ℕ, true, List, [], ◌∷◌, ◌++◌, Option, some, get_elem?, ◌==◌, if◌then◌else◌}
use locomatch.Prelude.Maybe.{◌>>=◌}
use locomatch.Prelude.Text.{strdup}
use locomatch.Sockets.Bytes.{sizeof_int}
use locomatch.Sockets.Packet.{crear_paquete, agregar_a_paquete}
use locomatch.Sockets.Channel.{
  Memory, Socket, recibir_operacion, recibir_paquete, enviar_paquete, minus_one,
}
use locomatch.Protocol.Codes.{
  Pedido, create, schedule_next, wait, signal, join, close, desconectado, desconocido,
  suse_create_code, suse_schedule_next_code, suse_schedule_next_return_code, suse_wait_code,
  suse_signal_code, suse_join_code, suse_close_code,
}
use locomatch.Protocol.Decimal.{Decimal}

module _ (d : Decimal) (m : Memory) where
  open d use {itoa, atoi}

  -- recibir_paquete and the thread id, the first parameter.
  unfoldable pub leer_tid : Socket → (ℕ → Pedido) → Option (Pedido × Socket)
  leer_tid s pedido = do
    (parametros, s') ← recibir_paquete m s
    tid ← get_elem? parametros 0
    some (pedido (atoi tid), s')

  -- Likewise with the semaphore's name, the second.
  unfoldable pub leer_tid_sem : Socket → (ℕ → List ℕ → Pedido) → Option (Pedido × Socket)
  leer_tid_sem s pedido = do
    (parametros, s') ← recibir_paquete m s
    tid ← get_elem? parametros 0
    nombre ← get_elem? parametros 1
    sem ← strdup nombre
    some (pedido (atoi tid) sem, s')

  -- The switch on the operation code.
  unfoldable pub leer_parametros : ℕ → Socket → Option (Pedido × Socket)
  leer_parametros codigo s =
      if codigo == suse_create_code
      then leer_tid s create
      else if codigo == suse_schedule_next_code
      then some (schedule_next, s)
      else if codigo == suse_wait_code
      then leer_tid_sem s wait
      else if codigo == suse_signal_code
      then leer_tid_sem s signal
      else if codigo == suse_join_code
      then leer_tid s join
      else if codigo == suse_close_code
      then leer_tid s close
      else if codigo == minus_one
      then some (desconectado, s)
      else some (desconocido codigo, s)

  unfoldable pub leer_pedido : Socket → Option (Pedido × Socket)
  leer_pedido s = do (codigo, s') ← recibir_operacion m s; leer_parametros codigo s'

-- notify_program with SUSE_SCHEDULE_NEXT: `beyond` is the memory after the number's text.
unfoldable pub responder_siguiente : Decimal → List ℕ → ℕ → Option (List ℕ)
responder_siguiente d beyond tid = do
  reply ←
      agregar_a_paquete (crear_paquete suse_schedule_next_return_code) (d.itoa tid ++ 0 ∷ beyond)
        sizeof_int
  enviar_paquete true reply []
