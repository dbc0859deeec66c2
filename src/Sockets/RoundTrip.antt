-- ===== src/Sockets/RoundTrip.antt =====
-- What one end sends with crear_paquete, agregar_a_paquete and enviar_paquete, the other end reads
-- with recibir_operacion and recibir_paquete.
use locomatch.Prelude.{
  ℕ, zero, suc, ◌+◌, ◌^◌, ◌<◌, ◌≡◌, refl, true, false, List, [], ◌∷◌, ◌++◌, Option, some, arith,
  append_assoc, append-nil, length, length-append, take, drop, take-append, drop-append, take_all,
  drop_all, lt→ltb, le→ltb, ltb, sym, ap, ◌∙◌,
}
use locomatch.Prelude.Maybe.{◌>>=◌}
use locomatch.Sockets.Bytes.{
  int_bytes, load_int, load_int-int_bytes, length-int_bytes, memcpy-append,
}
use locomatch.Sockets.Packet.{
  Buffer, crear_paquete, agregar_todos, agregar_todos-campos, campos, with_stream,
  serializar_paquete,
}
use locomatch.Sockets.Channel.{
  Memory, Socket, recibir_operacion, recibir_buffer, leer_valores, recibir_paquete, enviar_paquete,
}

-- An open socket on which these bytes arrive.
abbrev pub llega : List ℕ → Socket
llega bytes = record { incoming = bytes; broken = false; closed = false }

abbrev pub buffer_de : List ℕ → Buffer
buffer_de bytes = record { size = length bytes; stream = bytes }

int_bytes_parts :
    (n : ℕ) (rest : List ℕ)
    → n < 2 ^ 32
    → (load_int (int_bytes n ++ rest) ≡ some n)
      × (take 4 (int_bytes n ++ rest) ≡ int_bytes n)
      × (drop 4 (int_bytes n ++ rest) ≡ rest)
int_bytes_parts n rest h = (
  load_int-int_bytes n rest h,
  rw (length-int_bytes n) at (take-append (int_bytes n) rest),
  rw (length-int_bytes n) at (drop-append (int_bytes n) rest),
)

pub recibir_operacion-int_bytes :
    (m : Memory) (op : ℕ) (rest : List ℕ)
    → op < 2 ^ 32
    → recibir_operacion m (llega (int_bytes op ++ rest)) ≡ some (op, llega rest)
unfolding recibir_operacion int_bytes
recibir_operacion-int_bytes m op rest h = rw (load_int-int_bytes op (drop 4 m.entero) h)

pub recibir_buffer-bytes :
    (m : Memory) (bytes rest : List ℕ)
    → length bytes < 2 ^ 31
    → recibir_buffer m (llega (int_bytes (length bytes) ++ (bytes ++ rest)))
      ≡ some (buffer_de bytes, llega rest)
unfolding recibir_buffer
recibir_buffer-bytes m bytes rest h =
    let parts = int_bytes_parts (length bytes) (bytes ++ rest) (omega arith) in
    rw (parts.1, parts.2, load_int-int_bytes (length bytes) _ (omega arith))
      (rw (lt→ltb _ _ h, take-append bytes rest, drop-append bytes rest)
        (rw tail_empty (rw (append-nil bytes))))
  where
    tail_empty : drop (length bytes) (m.malloc (length bytes)) ≡ []
    tail_empty =
        drop_all (length bytes) (m.malloc (length bytes))
          (omega (arith, m.malloc_size (length bytes)))

drop_past : (xs ys zs : List ℕ) (n : ℕ) → zs ≡ xs ++ ys → n ≡ length xs → drop n zs ≡ ys
drop_past xs ys zs n e l = rw (e, l) (drop-append xs ys)

regroup : (pre b v c : List ℕ) → pre ++ (b ++ (v ++ c)) ≡ (pre ++ (b ++ v)) ++ c
regroup pre b v c = simp append_assoc

-- The loop stands at `desplazamiento`, with the values `hechos` read and `vs` still to read.
leer_valores-campos :
    (fuel : ℕ) (stream pre : List ℕ) (vs hechos : List (List ℕ)) (desplazamiento : ℕ)
    → stream ≡ pre ++ campos vs
    → desplazamiento ≡ length pre
    → length (campos vs) < fuel
    → length (campos vs) < 2 ^ 31
    → leer_valores fuel (buffer_de stream) desplazamiento hechos ≡ some (hechos ++ vs)
unfolding leer_valores
leer_valores-campos zero stream pre vs hechos d e l h k = elim h [ ]
leer_valores-campos (suc fuel) stream pre [] hechos d e l h k =
    let done : ltb d (length stream) ≡ false =
      le→ltb _ _ (omega (arith, ap length e, length-append pre [])) in
    rw done (rw (append-nil hechos))
leer_valores-campos (suc fuel) stream pre (v ∷ vs) hechos d e l h k =
    let b = int_bytes (length v) in
    let ib : length b ≡ 4 = length-int_bytes (length v) in
    let l₁ : length (b ++ (v ++ campos vs)) ≡ 4 + (length v + length (campos vs)) =
      omega (arith, ib, length-append b (v ++ campos vs), length-append v (campos vs)) in
    let more : ltb d (length stream) ≡ true =
      lt→ltb _ _ (omega (arith, ap length e, length-append pre (b ++ (v ++ campos vs)), l₁)) in
    let here : drop d stream ≡ b ++ (v ++ campos vs) = drop_past pre _ stream d e l in
    let then_v : drop (d + 4) stream ≡ v ++ campos vs =
      drop_past (pre ++ b) _ stream (d + 4) (e ∙ sym (append_assoc pre b (v ++ campos vs)))
        (omega (arith, ib, length-append pre b)) in
    rw (more, here, load_int-int_bytes (length v) (v ++ campos vs) (omega arith))
      (rw (then_v, memcpy-append v (campos vs))
        (leer_valores-campos fuel stream (pre ++ (b ++ v)) vs (hechos ++ v ∷ []) (d + 4 + length v)
            (e ∙ regroup pre b v (campos vs))
            (omega (arith, ib, length-append pre (b ++ v), length-append b v)) (omega arith)
            (omega arith)
          ∙ ap some (append_assoc hechos (v ∷ []) vs)))

pub recibir_paquete-campos :
    (m : Memory) (vs : List (List ℕ)) (rest : List ℕ)
    → length (campos vs) < 2 ^ 31
    → recibir_paquete m (llega (int_bytes (length (campos vs)) ++ (campos vs ++ rest)))
      ≡ some (vs, llega rest)
unfolding recibir_paquete
recibir_paquete-campos m vs rest h = rw (recibir_buffer-bytes m (campos vs) rest h) (
    rw (
      leer_valores-campos (suc (length (campos vs))) (campos vs) [] vs [] 0 refl refl (omega arith)
        h))

-- The bytes of a packet with an operation code and values.
abbrev pub trama : ℕ → List (List ℕ) → List ℕ
trama code vs = int_bytes code ++ (int_bytes (length (campos vs)) ++ campos vs)

pub enviar_paquete-trama :
    (code : ℕ) (vs : List (List ℕ))
    → enviar_paquete true (with_stream code (campos vs)) [] ≡ some (trama code vs)
unfolding enviar_paquete serializar_paquete
enviar_paquete-trama code vs = rw (take_all (length (campos vs)) (campos vs) (omega arith))

pub recibir_operacion-trama :
    (m : Memory) (code : ℕ) (vs : List (List ℕ)) (rest : List ℕ)
    → code < 2 ^ 32
    → recibir_operacion m (llega (trama code vs ++ rest))
      ≡ some (code, llega (int_bytes (length (campos vs)) ++ (campos vs ++ rest)))
recibir_operacion-trama m code vs rest h = rw (regrouped) (recibir_operacion-int_bytes m code _ h)
  where
    regrouped :
        trama code vs ++ rest
        ≡ int_bytes code ++ (int_bytes (length (campos vs)) ++ (campos vs ++ rest))
    regrouped = simp append_assoc

-- One packet from crear_paquete to recibir_paquete, over a connection that then brings `rest`.
abbrev pub conversacion : Memory → ℕ → List (List ℕ) → List ℕ → Option (ℕ × List (List ℕ) × Socket)
conversacion m code vs rest = do
  paquete ← agregar_todos (crear_paquete code) vs
  bytes ← enviar_paquete true paquete []
  (op, s) ← recibir_operacion m (llega (bytes ++ rest))
  (valores, s') ← recibir_paquete m s
  some (op, valores, s')

-- A packet built value by value and sent is received with its operation code and with the same
-- values in the same order, and the bytes behind it stay on the connection, if the code fits an
-- int and the packet's stream is shorter than 2 ^ 31 bytes.
pub recibir_paquete-enviar_paquete :
    (m : Memory) (code : ℕ) (vs : List (List ℕ)) (rest : List ℕ)
    → code < 2 ^ 32
    → length (campos vs) < 2 ^ 31
    → conversacion m code vs rest ≡ some (code, vs, llega rest)
unfolding crear_paquete
recibir_paquete-enviar_paquete m code vs rest hc hv = rw (agregar_todos-campos code [] vs) (
    rw (enviar_paquete-trama code vs)
      (rw (recibir_operacion-trama m code vs rest hc) (rw (recibir_paquete-campos m vs rest hv))))
