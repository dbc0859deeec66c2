-- ===== src/Muse/Requests/Tests.antt =====
-- Calls of the memory's client library at concrete numbers.
use locomatch.Prelude.{ℕ, ◌+◌, ◌^◌, ◌≡◌, List, [], ◌∷◌, ◌++◌, some, arith}
use locomatch.Sockets.RoundTrip.{llega}
use locomatch.Protocol.Tests.{decimal, memoria}
use locomatch.Muse.Requests.Values.{get, AreRead}
use locomatch.Muse.Requests.Framed.{llamar, con_mensaje}
use locomatch.Muse.Requests.Received.{recibida, llamar-AreRead}

abbrev lejos : List ℕ
lejos = 0 ∷ 0 ∷ 0 ∷ 0 ∷ 0 ∷ 0 ∷ 0 ∷ []

-- Sixteen bytes from 100 to a pointer above 2 ^ 32; the answer is "0".
llamar-AreRead_example :
    (bytes : List ℕ) × (vs : List (List ℕ)) × (llamar decimal lejos memoria
        (omega arith)
        (get (2 ^ 32 + 7) 100 16)
        (llega (con_mensaje decimal lejos memoria (omega arith) (48 ∷ 0 ∷ []) (5 ∷ [])))
      ≡ some (bytes, decimal.atoi (48 ∷ 0 ∷ []), llega (5 ∷ [])))
    × (recibida decimal lejos memoria (omega arith) (bytes ++ 1 ∷ [])
        ≡ some (11, vs, llega (1 ∷ [])))
    × AreRead decimal lejos memoria (omega arith) (get (2 ^ 32 + 7) 100 16) vs
llamar-AreRead_example =
    llamar-AreRead decimal lejos memoria (omega arith) (get (2 ^ 32 + 7) 100 16) [] (48 ∷ 0 ∷ [])
      (5 ∷ []) (1 ∷ []) (omega arith, omega arith) (omega arith) (omega arith)
