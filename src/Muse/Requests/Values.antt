-- ===== src/Muse/Requests/Values.antt =====
-- The calls of libmuse.c and the values of their packets.
use locomatch.Prelude.{
  ℕ, ◌+◌, ◌%◌, ◌/◌, ◌^◌, ◌≤◌, ◌<◌, ◌≡◌, refl, ap, ◌∙◌, List, [], ◌∷◌, ◌++◌, some, arith, append-nil,
  length, length-append, length-take, take, take_past,
}
use locomatch.Sockets.Bytes.{int_bytes, load_int, length-int_bytes}
use locomatch.Sockets.Packet.{campos}
use locomatch.Sockets.Channel.{Memory}
use locomatch.Protocol.Decimal.{Decimal}
use locomatch.Muse.Requests.{
  muse_alloc_code, muse_free_code, muse_get_code, muse_cpy_code, muse_map_code, muse_sync_code,
  muse_unmap_code, word_bytes, texto,
}

-- The calls of the library.
pub data Llamada : Type 0 where
  alloc : (tam : ℕ) → Llamada
  free : (dir : ℕ) → Llamada
  get : (dst src n : ℕ) → Llamada
  cpy : (dst src n : ℕ) → Llamada
  map : (path longitud flags : ℕ) → Llamada
  sync : (addr len : ℕ) → Llamada
  unmap : (dir : ℕ) → Llamada

abbrev pub codigo : Llamada → ℕ
codigo (alloc tam) = muse_alloc_code
codigo (free dir) = muse_free_code
codigo (get dst src n) = muse_get_code
codigo (cpy dst src n) = muse_cpy_code
codigo (map path longitud flags) = muse_map_code
codigo (sync addr len) = muse_sync_code
codigo (unmap dir) = muse_unmap_code

-- The numbers that are sent as text are below 1000.
abbrev pub IsShort : Llamada → Type 0
IsShort (alloc tam) = tam < 1000
IsShort (free dir) = dir < 1000
IsShort (get dst src n) = (src < 1000) × (n < 1000)
IsShort (cpy dst src n) = (dst < 1000) × (n < 1000)
IsShort (map path longitud flags) = (longitud < 1000) × (flags < 1000)
IsShort (sync addr len) = Unit {0}
IsShort (unmap dir) = Unit {0}

pub codigo-int : (llamada : Llamada) → codigo llamada < 2 ^ 32
codigo-int (alloc tam) = omega arith
codigo-int (free dir) = omega arith
codigo-int (get dst src n) = omega arith
codigo-int (cpy dst src n) = omega arith
codigo-int (map path longitud flags) = omega arith
codigo-int (sync addr len) = omega arith
codigo-int (unmap dir) = omega arith

load_int-low : (n : ℕ) (rest : List ℕ) → load_int (int_bytes n ++ rest) ≡ some (n % 2 ^ 32)
unfolding load_int int_bytes
load_int-low n rest = ap some (omega arith)

module _ (d : Decimal) (beyond : List ℕ) (m : Memory) (room : 7 ≤ length beyond) where
  open d use {itoa, atoi}

  -- The first `k` bytes of a number's text.
  abbrev pub prefijo : ℕ → ℕ → List ℕ
  prefijo k n = take k (texto d beyond m n)

  pub fits : (k n : ℕ) → k ≤ 8 → k ≤ length (texto d beyond m n)
  fits k n h = omega (arith, length-append (itoa (n % 2 ^ 32)) (0 ∷ beyond))

  length-prefijo : (k n : ℕ) → k ≤ 8 → length (prefijo k n) ≡ k
  length-prefijo k n h = length-take k (texto d beyond m n) (fits k n h)

  atoi-prefijo : (k n : ℕ) → 4 ≤ k → n < 1000 → atoi (prefijo k n) ≡ n
  atoi-prefijo k n h small =
      ap (λ (j : ℕ). atoi (take k (itoa j ++ 0 ∷ beyond))) same
      ∙ ap atoi (take_past k (itoa n) beyond 0 (omega (arith, d.length-itoa n small)))
      ∙ d.atoi-itoa n _
    where
      same : n % 2 ^ 32 ≡ n
      same = omega arith

  -- The values of a call's packet.
  abbrev pub valores : Llamada → List (List ℕ)
  valores (alloc tam) = prefijo 4 tam ∷ []
  valores (free dir) = prefijo 4 dir ∷ []
  valores (get dst src n) = int_bytes dst ∷ prefijo 4 src ∷ prefijo 8 n ∷ []
  valores (cpy dst src n) = prefijo 4 dst ∷ int_bytes src ∷ prefijo 4 n ∷ []
  valores (map path longitud flags) = int_bytes path ∷ prefijo 8 longitud ∷ prefijo 4 flags ∷ []
  valores (sync addr len) = int_bytes addr ∷ word_bytes len ∷ []
  valores (unmap dir) = int_bytes dir ∷ []

  -- A value that is an address or the low half of one.
  abbrev IsLow : List ℕ → ℕ → Type 0
  IsLow v n = load_int v ≡ some (n % 2 ^ 32)

  -- Texts arrive with their number, pointers with their low half.
  abbrev pub AreRead : Llamada → List (List ℕ) → Type 0
  AreRead (alloc tam) (a ∷ []) = atoi a ≡ tam
  AreRead (free dir) (a ∷ []) = atoi a ≡ dir
  AreRead (get dst src n) (a ∷ b ∷ c ∷ []) = IsLow a dst × (atoi b ≡ src) × (atoi c ≡ n)
  AreRead (cpy dst src n) (a ∷ b ∷ c ∷ []) = (atoi a ≡ dst) × IsLow b src × (atoi c ≡ n)
  AreRead (map path longitud flags) (a ∷ b ∷ c ∷ []) =
      IsLow a path × (atoi b ≡ longitud) × (atoi c ≡ flags)
  AreRead (sync addr len) (a ∷ b ∷ []) =
      IsLow a addr × (b ≡ int_bytes len ++ int_bytes (len / 2 ^ 32))
  AreRead (unmap dir) (a ∷ []) = IsLow a dir
  AreRead llamada _ = ⊥

  low : (n : ℕ) → IsLow (int_bytes n) n
  low n = rw (append-nil (int_bytes n)) at (load_int-low n [])

  pub valores-AreRead : (llamada : Llamada) → IsShort llamada → AreRead llamada (valores llamada)
  valores-AreRead (alloc tam) h = atoi-prefijo 4 tam (omega arith) h
  valores-AreRead (free dir) h = atoi-prefijo 4 dir (omega arith) h
  valores-AreRead (get dst src n) h =
      (low dst, atoi-prefijo 4 src (omega arith) h.0, atoi-prefijo 8 n (omega arith) h.1)
  valores-AreRead (cpy dst src n) h =
      (atoi-prefijo 4 dst (omega arith) h.0, low src, atoi-prefijo 4 n (omega arith) h.1)
  valores-AreRead (map path longitud flags) h =
      (low path, atoi-prefijo 8 longitud (omega arith) h.0, atoi-prefijo 4 flags (omega arith) h.1)
  valores-AreRead (sync addr len) h = (low addr, refl)
  valores-AreRead (unmap dir) h = low dir

  -- The lengths of a packet's fields.
  length-campo :
      (v : List ℕ) (vs : List (List ℕ))
      → length (campos (v ∷ vs)) ≡ 4 + length v + length (campos vs)
  length-campo v vs = omega (
    arith,
    length-append (int_bytes (length v)) (v ++ campos vs),
    length-int_bytes (length v),
    length-append v (campos vs),
  )

  length-three :
      (u v w : List ℕ)
      → length u ≤ 8
      → length v ≤ 8
      → length w ≤ 8
      → length (campos (u ∷ v ∷ w ∷ [])) < 2 ^ 31
  length-three u v w h k l =
      omega (arith, length-campo u (v ∷ w ∷ []), length-campo v (w ∷ []), length-campo w [])

  short : (k n : ℕ) → k ≤ 8 → length (prefijo k n) ≤ 8
  short k n h = omega (arith, length-prefijo k n h)

  short_int : (n : ℕ) → length (int_bytes n) ≤ 8
  short_int n = omega (arith, length-int_bytes n)

  short_one : (v : List ℕ) → length v ≤ 8 → length (campos (v ∷ [])) < 2 ^ 31
  short_one v h = omega (arith, length-campo v [])

  pub length-valores : (llamada : Llamada) → length (campos (valores llamada)) < 2 ^ 31
  length-valores (alloc tam) = short_one (prefijo 4 tam) (short 4 tam (omega arith))
  length-valores (free dir) = short_one (prefijo 4 dir) (short 4 dir (omega arith))
  length-valores (get dst src n) =
      length-three (int_bytes dst) (prefijo 4 src) (prefijo 8 n) (short_int dst)
        (short 4 src (omega arith)) (short 8 n (omega arith))
  length-valores (cpy dst src n) =
      length-three (prefijo 4 dst) (int_bytes src) (prefijo 4 n) (short 4 dst (omega arith))
        (short_int src) (short 4 n (omega arith))
  length-valores (map path longitud flags) =
      length-three (int_bytes path) (prefijo 8 longitud) (prefijo 4 flags) (short_int path)
        (short 8 longitud (omega arith)) (short 4 flags (omega arith))
  length-valores (sync addr len) = omega (
    arith,
    length-campo (int_bytes addr) (word_bytes len ∷ []),
    length-campo (word_bytes len) [],
    length-int_bytes addr,
    length-append (int_bytes len) (int_bytes (len / 2 ^ 32)),
    length-int_bytes len,
    length-int_bytes (len / 2 ^ 32),
  )
  length-valores (unmap dir) = short_one (int_bytes dir) (short_int dir)
