-- ===== src/Sockets/Tests.antt =====
-- Packets at concrete inputs.
use locomatch.Prelude.{ℕ, ◌≡◌, List, [], ◌∷◌, some, arith, replicate, length-replicate}
use locomatch.Sockets.Channel.{Memory}
use locomatch.Sockets.Bytes.{int_bytes}
use locomatch.Sockets.RoundTrip.{llega, conversacion, recibir_paquete-enviar_paquete}

abbrev memoria : Memory
memoria = record {
  entero = replicate 4 170;
  malloc = λ n. replicate n 170;
  malloc_size = λ n. length-replicate n 170;
}

-- The values "7" and "ab", each with its zero.
abbrev valores : List (List ℕ)
valores = (55 ∷ 0 ∷ []) ∷ (97 ∷ 98 ∷ 0 ∷ []) ∷ []

recibir_paquete-enviar_paquete_example :
    conversacion memoria 5 valores (1 ∷ 2 ∷ []) ≡ some (5, valores, llega (1 ∷ 2 ∷ []))
unfolding int_bytes
recibir_paquete-enviar_paquete_example =
    recibir_paquete-enviar_paquete memoria 5 valores (1 ∷ 2 ∷ []) (omega arith) (omega arith)
