-- ===== src/Protocol/RoundTrip.antt =====
-- Each request of lib/hilolay is read by the scheduler as it was meant.
use locomatch.Prelude.{
  ℕ, suc, ◌+◌, ◌-◌, ◌^◌, ◌≤◌, ◌<◌, ◌≡◌, ap, ◌∙◌, List, [], ◌∷◌, ◌++◌, Option, some, arith, length,
  length-append, length-take, take, take_past,
}
use locomatch.Prelude.Maybe.{◌>>=◌}
use locomatch.Prelude.Text.{IsText, strdup-text}
use locomatch.Sockets.Bytes.{sizeof_int, int_bytes, length-int_bytes}
use locomatch.Sockets.Packet.{
  crear_paquete, agregar_a_paquete, agregar_a_paquete-campos, with_stream, campos, campos-append,
}
use locomatch.Sockets.Channel.{Memory, Socket, enviar_operacion}
use locomatch.Sockets.RoundTrip.{
  llega, trama, enviar_paquete-trama, recibir_operacion-trama, recibir_paquete-campos,
  recibir_operacion-int_bytes,
}
use locomatch.Protocol.Codes.{
  Pedido, create, schedule_next, wait, signal, join, close, desconectado, desconocido,
  suse_create_code, suse_schedule_next_code, suse_schedule_next_return_code, suse_wait_code,
  suse_signal_code, suse_join_code, suse_close_code,
}
use locomatch.Protocol.Decimal.{Decimal}
use locomatch.Protocol.Client.{
  threadid, suse_create, suse_join, suse_close, suse_wait, suse_signal, enviar, pedir_siguiente,
  leer_siguiente,
}
use locomatch.Protocol.Server.{
  leer_tid, leer_tid_sem, leer_parametros, leer_pedido, responder_siguiente,
}

module _ (d : Decimal) (beyond : List ℕ) (room : 3 ≤ length beyond) where
  open d use {itoa, atoi}

  -- The four bytes that are sent of a number's text.
  abbrev campo : ℕ → List ℕ
  campo tid = take sizeof_int (threadid d beyond tid)

  area : (tid : ℕ) → sizeof_int ≤ length (threadid d beyond tid)
  area tid = omega (arith, length-append (itoa tid) (0 ∷ beyond))

  length-campo : (tid : ℕ) → length (campo tid) ≡ 4
  length-campo tid = length-take 4 (threadid d beyond tid) (area tid)

  atoi-campo : (tid : ℕ) → tid < 1000 → atoi (campo tid) ≡ tid
  atoi-campo tid h =
      rw (take_past 4 (itoa tid) beyond 0 (omega (arith, d.length-itoa tid h))) (d.atoi-itoa tid _)

  -- crear_paquete and the first agregar_a_paquete of every request.
  con_tid :
      (code tid : ℕ)
      → agregar_a_paquete (crear_paquete code) (threadid d beyond tid) sizeof_int
        ≡ some (with_stream code (campos (campo tid ∷ [])))
  unfolding crear_paquete
  con_tid code tid = agregar_a_paquete-campos code [] (threadid d beyond tid) 4 (area tid)

  -- The values of suse_wait and suse_signal.
  abbrev con_nombre : ℕ → List ℕ → List (List ℕ)
  con_nombre tid sem = campo tid ∷ (sem ++ 0 ∷ []) ∷ []

  take_nombre : (sem : List ℕ) → take (length sem + 1) (sem ++ 0 ∷ beyond) ≡ sem ++ 0 ∷ []
  take_nombre sem =
      take_past (length sem + 1) sem beyond 0 (omega arith)
      ∙ ap (λ (k : ℕ). sem ++ 0 ∷ take k beyond) none_left
    where
      none_left : length sem + 1 - suc (length sem) ≡ 0
      none_left = omega arith

  con_sem :
      (code tid : ℕ) (sem : List ℕ)
      → agregar_a_paquete
          (with_stream code (campos (campo tid ∷ [])))
          (sem ++ 0 ∷ beyond)
          (length sem + 1)
        ≡ some (with_stream code (campos (con_nombre tid sem)))
  con_sem code tid sem =
      agregar_a_paquete-campos code (campo tid ∷ []) (sem ++ 0 ∷ beyond) (length sem + 1)
        (omega (arith, length-append sem (0 ∷ beyond)))
      ∙ ap (λ v. some (with_stream code (campos (campo tid ∷ v ∷ [])))) (take_nombre sem)

  -- The bytes of each request.
  ruleset paso = (con_tid, con_sem, enviar_paquete-trama)

  create-trama :
      (tid : ℕ) → suse_create d beyond tid ≡ some (trama suse_create_code (campo tid ∷ []))
  unfolding suse_create
  create-trama tid = simp paso

  join-trama : (tid : ℕ) → suse_join d beyond tid ≡ some (trama suse_join_code (campo tid ∷ []))
  unfolding suse_join
  join-trama tid = simp paso

  close-trama : (tid : ℕ) → suse_close d beyond tid ≡ some (trama suse_close_code (campo tid ∷ []))
  unfolding suse_close
  close-trama tid = simp paso

  wait-trama :
      (tid : ℕ) (sem : List ℕ)
      → suse_wait d beyond tid sem ≡ some (trama suse_wait_code (con_nombre tid sem))
  unfolding suse_wait
  wait-trama tid sem = simp paso

  signal-trama :
      (tid : ℕ) (sem : List ℕ)
      → suse_signal d beyond tid sem ≡ some (trama suse_signal_code (con_nombre tid sem))
  unfolding suse_signal
  signal-trama tid sem = simp paso

  module _ (m : Memory) where
    length-campos_tid : (tid : ℕ) → length (campos (campo tid ∷ [])) ≡ 8
    length-campos_tid tid = omega (
      arith,
      length-append (int_bytes (length (campo tid))) (campo tid ++ []),
      length-int_bytes (length (campo tid)),
      length-append (campo tid) [],
      length-campo tid,
    )

    length-campos_nombre :
        (tid : ℕ) (sem : List ℕ) → length (campos (con_nombre tid sem)) ≡ 13 + length sem
    length-campos_nombre tid sem = omega (
      arith,
      ap length (campos-append (campo tid ∷ []) ((sem ++ 0 ∷ []) ∷ [])),
      length-append (campos (campo tid ∷ [])) (campos ((sem ++ 0 ∷ []) ∷ [])),
      length-campos_tid tid,
      length-append (int_bytes (length (sem ++ 0 ∷ []))) ((sem ++ 0 ∷ []) ++ []),
      length-int_bytes (length (sem ++ 0 ∷ [])),
      length-append (sem ++ 0 ∷ []) [],
      length-append sem (0 ∷ []),
    )

    leer_tid-campo :
        (pedido : ℕ → Pedido) (tid : ℕ) (rest : List ℕ)
        → tid < 1000
        → let vs = campo tid ∷ [] in
          leer_tid d m (llega (int_bytes (length (campos vs)) ++ (campos vs ++ rest))) pedido
          ≡ some (pedido tid, llega rest)
    unfolding leer_tid
    leer_tid-campo pedido tid rest h =
        rw (recibir_paquete-campos m (campo tid ∷ []) rest (omega (arith, length-campos_tid tid)))
          (rw (atoi-campo tid h))

    leer_tid_sem-campo :
        (pedido : ℕ → List ℕ → Pedido) (tid : ℕ) (sem rest : List ℕ)
        → tid < 1000
        → IsText sem
        → length sem < 2 ^ 30
        → let vs = con_nombre tid sem in
          leer_tid_sem d m (llega (int_bytes (length (campos vs)) ++ (campos vs ++ rest))) pedido
          ≡ some (pedido tid sem, llega rest)
    unfolding leer_tid_sem
    leer_tid_sem-campo pedido tid sem rest h t l =
        rw
          (recibir_paquete-campos m (con_nombre tid sem) rest
            (omega (arith, length-campos_nombre tid sem)))
          (rw (strdup-text sem [] t) (rw (atoi-campo tid h)))

    -- What the client may ask: thread ids below 1000 and proper names.
    abbrev pub IsEnviable : Pedido → Type 0
    IsEnviable (create tid) = tid < 1000
    IsEnviable schedule_next = Unit {0}
    IsEnviable (wait tid sem) = (tid < 1000) × IsText sem × (length sem < 2 ^ 30)
    IsEnviable (signal tid sem) = (tid < 1000) × IsText sem × (length sem < 2 ^ 30)
    IsEnviable (join tid) = tid < 1000
    IsEnviable (close tid) = tid < 1000
    IsEnviable desconectado = ⊥
    IsEnviable (desconocido codigo) = ⊥

    -- A request sent and then read by one turn of the server.
    abbrev pub atender : Pedido → List ℕ → Option (Pedido × Socket)
    atender pedido rest = do bytes ← enviar d beyond pedido; leer_pedido d m (llega (bytes ++ rest))

    -- Every call of the client library is read by the scheduler as the same request with the same
    -- thread id and semaphore name, and what follows stays on the connection, if the id is below
    -- 1000, the name has no zero and fewer than 2 ^ 30 characters, and three more bytes can be
    -- read behind the id's text.
    pub leer_pedido-enviar :
        (pedido : Pedido) (rest : List ℕ)
        → IsEnviable pedido
        → atender pedido rest ≡ some (pedido, llega rest)
    unfolding leer_pedido leer_parametros pedir_siguiente enviar_operacion
    leer_pedido-enviar (create tid) rest h = rw (create-trama tid) (
        rw (recibir_operacion-trama m suse_create_code (campo tid ∷ []) rest (omega arith))
          (leer_tid-campo create tid rest h))
    leer_pedido-enviar schedule_next rest h =
        rw (recibir_operacion-int_bytes m suse_schedule_next_code rest (omega arith))
    leer_pedido-enviar (wait tid sem) rest h = rw (wait-trama tid sem) (
        rw (recibir_operacion-trama m suse_wait_code (con_nombre tid sem) rest (omega arith))
          (leer_tid_sem-campo wait tid sem rest h.0 h.1 h.2))
    leer_pedido-enviar (signal tid sem) rest h = rw (signal-trama tid sem) (
        rw (recibir_operacion-trama m suse_signal_code (con_nombre tid sem) rest (omega arith))
          (leer_tid_sem-campo signal tid sem rest h.0 h.1 h.2))
    leer_pedido-enviar (join tid) rest h = rw (join-trama tid) (
        rw (recibir_operacion-trama m suse_join_code (campo tid ∷ []) rest (omega arith))
          (leer_tid-campo join tid rest h))
    leer_pedido-enviar (close tid) rest h = rw (close-trama tid) (
        rw (recibir_operacion-trama m suse_close_code (campo tid ∷ []) rest (omega arith))
          (leer_tid-campo close tid rest h))
    leer_pedido-enviar desconectado rest h = absurd h
    leer_pedido-enviar (desconocido codigo) rest h = absurd h

    respuesta-trama :
        (tid : ℕ)
        → responder_siguiente d beyond tid
          ≡ some (trama suse_schedule_next_return_code (campo tid ∷ []))
    unfolding responder_siguiente
    respuesta-trama tid = simp paso

    -- The thread that notify_program announces is the one that suse_schedule_next returns, and
    -- what follows stays on the connection, if its id is below 1000 and three more bytes can be
    -- read behind its text.
    pub leer_siguiente-responder_siguiente :
        (tid : ℕ) (rest : List ℕ)
        → tid < 1000
        → (responder_siguiente d beyond tid >>= λ bytes.
            leer_siguiente d beyond m (llega (bytes ++ rest)))
          ≡ some (tid, llega rest)
    unfolding leer_siguiente
    leer_siguiente-responder_siguiente tid rest h = rw (respuesta-trama tid) (
        rw
          (recibir_operacion-trama m suse_schedule_next_return_code (campo tid ∷ []) rest
            (omega arith))
          (rw
            (recibir_paquete-campos m (campo tid ∷ []) rest (omega (arith, length-campos_tid tid)))
            (rw (atoi-campo tid h))))
