-- ===== src/Muse/Requests/Framed.antt =====
-- The bytes that the calls of libmuse.c send, and what they return.
use locomatch.Prelude.{
  ℕ, ◌/◌, ◌^◌, ◌≤◌, ◌<◌, ◌≡◌, refl, sym, ap, ◌∙◌, List, [], ◌∷◌, ◌++◌, Option, some, arith,
  append-nil, length, length-append, take-append,
}
use locomatch.Prelude.Maybe.{◌>>=◌}
use locomatch.Sockets.Bytes.{int_bytes, length-int_bytes}
use locomatch.Sockets.Packet.{
  crear_paquete, agregar_a_paquete, agregar_a_paquete-campos, with_stream, campos,
}
use locomatch.Sockets.Channel.{Memory, Socket, recibir_mensaje}
use locomatch.Sockets.RoundTrip.{llega, trama, enviar_paquete-trama, recibir_buffer-bytes}
use locomatch.Protocol.Decimal.{Decimal}
use locomatch.Muse.Requests.{
  muse_alloc_code, muse_free_code, muse_get_code, muse_cpy_code, muse_map_code, muse_sync_code,
  muse_unmap_code, word_bytes, texto, leer_respuesta, consultar, muse_alloc, muse_free, muse_get,
  muse_cpy, muse_map, muse_sync, muse_unmap,
}
use locomatch.Muse.Requests.Values.{
  Llamada, alloc, free, get, cpy, map, sync, unmap, codigo, prefijo, fits, valores,
}

module _ (d : Decimal) (beyond : List ℕ) (m : Memory) (room : 7 ≤ length beyond) where
  open d use {itoa, atoi}

  -- A message of the server's in front of `rest`.
  abbrev pub con_mensaje : List ℕ → List ℕ → List ℕ
  con_mensaje texto rest = int_bytes (length texto) ++ (texto ++ rest)

  leer_respuesta-mensaje :
      (rta rest : List ℕ)
      → length rta < 2 ^ 31
      → leer_respuesta d beyond m (llega (con_mensaje rta rest)) ≡ some (atoi rta, llega rest)
  unfolding leer_respuesta
  leer_respuesta-mensaje rta rest h = rw (recibir_buffer-bytes m rta rest h)

  consultar-mensaje :
      (code : ℕ) (vs : List (List ℕ)) (rta rest : List ℕ)
      → length rta < 2 ^ 31
      → consultar d beyond m (with_stream code (campos vs)) (llega (con_mensaje rta rest))
        ≡ some (trama code vs, atoi rta, llega rest)
  unfolding consultar
  consultar-mensaje code vs rta rest h =
      rw (enviar_paquete-trama code vs, leer_respuesta-mensaje rta rest h) refl

  vacio : (code : ℕ) → crear_paquete code ≡ with_stream code (campos [])
  unfolding crear_paquete
  vacio code = refl

  texto-campos :
      (code : ℕ) (vs : List (List ℕ)) (k n : ℕ)
      → k ≤ 8
      → agregar_a_paquete (with_stream code (campos vs)) (texto d beyond m n) k
        ≡ some (with_stream code (campos (vs ++ prefijo d beyond m room k n ∷ [])))
  texto-campos code vs k n h =
      agregar_a_paquete-campos code vs (texto d beyond m n) k (fits d beyond m room k n h)

  int-campos :
      (code : ℕ) (vs : List (List ℕ)) (n : ℕ) (rest : List ℕ)
      → agregar_a_paquete (with_stream code (campos vs)) (int_bytes n ++ rest) 4
        ≡ some (with_stream code (campos (vs ++ int_bytes n ∷ [])))
  int-campos code vs n rest =
      agregar_a_paquete-campos code vs (int_bytes n ++ rest) 4
        (omega (arith, length-append (int_bytes n) rest, length-int_bytes n))
      ∙ ap (λ (v : List ℕ). some (with_stream code (campos (vs ++ v ∷ []))))
          (rw (length-int_bytes n) at (take-append (int_bytes n) rest))

  entero-campos :
      (code : ℕ) (vs : List (List ℕ)) (n : ℕ)
      → agregar_a_paquete (with_stream code (campos vs)) (int_bytes n) 4
        ≡ some (with_stream code (campos (vs ++ int_bytes n ∷ [])))
  entero-campos code vs n =
      ap (λ (v : List ℕ). agregar_a_paquete (with_stream code (campos vs)) v 4)
        (sym (append-nil (int_bytes n)))
      ∙ int-campos code vs n []

  -- A call, with what it returns; muse_free returns nothing, here 0.
  abbrev pub llamar : Llamada → Socket → Option (List ℕ × ℕ × Socket)
  llamar (alloc tam) s = muse_alloc d beyond m tam s
  llamar (free dir) s = do bytes ← muse_free d beyond m dir; some (bytes, 0, s)
  llamar (get dst src n) s = muse_get d beyond m dst src n s
  llamar (cpy dst src n) s = muse_cpy d beyond m dst src n s
  llamar (map path longitud flags) s = muse_map d beyond m path longitud flags s
  llamar (sync addr len) s = muse_sync d beyond m addr len s
  llamar (unmap dir) s = muse_unmap d beyond m dir s

  -- What comes from the server: muse_unmap reads a message in front of its answer.
  abbrev pub entrada : Llamada → List ℕ → List ℕ → List ℕ → List ℕ
  entrada (free dir) mensaje rta rest = rest
  entrada (unmap dir) mensaje rta rest = con_mensaje mensaje (con_mensaje rta rest)
  entrada llamada mensaje rta rest = con_mensaje rta rest

  abbrev pub resultado : Llamada → List ℕ → ℕ
  resultado (free dir) rta = 0
  resultado llamada rta = atoi rta

  module _ (mensaje rta rest : List ℕ) (h : length mensaje < 2 ^ 31) (k : length rta < 2 ^ 31) where
    abbrev Framed : Llamada → Type 0
    Framed llamada =
        llamar llamada (llega (entrada llamada mensaje rta rest))
        ≡ some (
          trama (codigo llamada) (valores d beyond m room llamada),
          resultado llamada rta,
          llega rest,
        )

    alloc-Framed : (tam : ℕ) → Framed (alloc tam)
    unfolding muse_alloc
    alloc-Framed tam =
        rw (vacio muse_alloc_code, texto-campos muse_alloc_code [] 4 tam (omega arith))
          (consultar-mensaje muse_alloc_code (valores d beyond m room (alloc tam)) rta rest k)

    free-Framed : (dir : ℕ) → Framed (free dir)
    unfolding muse_free
    free-Framed dir =
        rw (vacio muse_free_code, texto-campos muse_free_code [] 4 dir (omega arith))
          (rw (enviar_paquete-trama muse_free_code (valores d beyond m room (free dir))) refl)

    get-Framed : (dst src n : ℕ) → Framed (get dst src n)
    unfolding muse_get
    get-Framed dst src n =
        rw
          (
            vacio muse_get_code,
            int-campos muse_get_code [] dst (int_bytes (dst / 2 ^ 32)),
            texto-campos muse_get_code (int_bytes dst ∷ []) 4 src (omega arith),
            texto-campos muse_get_code (int_bytes dst ∷ prefijo d beyond m room 4 src ∷ []) 8 n
                (omega arith),
          )
          (consultar-mensaje muse_get_code (valores d beyond m room (get dst src n)) rta rest k)

    cpy-Framed : (dst src n : ℕ) → Framed (cpy dst src n)
    unfolding muse_cpy
    cpy-Framed dst src n =
        rw
          (
            vacio muse_cpy_code,
            texto-campos muse_cpy_code [] 4 dst (omega arith),
            int-campos muse_cpy_code (prefijo d beyond m room 4 dst ∷ []) src
                (int_bytes (src / 2 ^ 32)),
            texto-campos muse_cpy_code (prefijo d beyond m room 4 dst ∷ int_bytes src ∷ []) 4 n
                (omega arith),
          )
          (consultar-mensaje muse_cpy_code (valores d beyond m room (cpy dst src n)) rta rest k)

    map-Framed : (path longitud flags : ℕ) → Framed (map path longitud flags)
    unfolding muse_map
    map-Framed path longitud flags =
        rw
          (
            vacio muse_map_code,
            int-campos muse_map_code [] path (int_bytes (path / 2 ^ 32)),
            texto-campos muse_map_code (int_bytes path ∷ []) 8 longitud (omega arith),
            texto-campos muse_map_code (int_bytes path ∷ prefijo d beyond m room 8 longitud ∷ []) 4
                flags (omega arith),
          )
          (consultar-mensaje muse_map_code (valores d beyond m room (map path longitud flags)) rta
            rest k)

    word-campos :
        (code : ℕ) (vs : List (List ℕ)) (n : ℕ)
        → agregar_a_paquete (with_stream code (campos vs)) (word_bytes n) 8
          ≡ some (with_stream code (campos (vs ++ word_bytes n ∷ [])))
    unfolding int_bytes
    word-campos code vs n = agregar_a_paquete-campos code vs (word_bytes n) 8 (omega arith)

    sync-Framed : (addr len : ℕ) → Framed (sync addr len)
    unfolding muse_sync
    sync-Framed addr len =
        rw
          (
            vacio muse_sync_code,
            entero-campos muse_sync_code [] addr,
            word-campos muse_sync_code (int_bytes addr ∷ []) len,
          )
          (consultar-mensaje muse_sync_code (valores d beyond m room (sync addr len)) rta rest k)

    unmap-Framed : (dir : ℕ) → Framed (unmap dir)
    unfolding muse_unmap recibir_mensaje
    unmap-Framed dir =
        rw
          (
            vacio muse_unmap_code,
            entero-campos muse_unmap_code [] dir,
            enviar_paquete-trama muse_unmap_code (valores d beyond m room (unmap dir)),
            recibir_buffer-bytes m mensaje (con_mensaje rta rest) h,
          )
          (rw (leer_respuesta-mensaje rta rest k) refl)

    pub framed : (llamada : Llamada) → Framed llamada
    framed (alloc tam) = alloc-Framed tam
    framed (free dir) = free-Framed dir
    framed (get dst src n) = get-Framed dst src n
    framed (cpy dst src n) = cpy-Framed dst src n
    framed (map path longitud flags) = map-Framed path longitud flags
    framed (sync addr len) = sync-Framed addr len
    framed (unmap dir) = unmap-Framed dir
