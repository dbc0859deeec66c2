-- ===== src/Protocol/Tests.antt =====
-- A conversion of numbers to text and back, and requests sent with it.
use locomatch.Prelude.{
  ℕ, zero, suc, ◌+◌, ◌-◌, ◌*◌, ◌/◌, ◌%◌, ◌≤◌, ◌<◌, ◌≡◌, ◌∙◌, ap, List, [], ◌∷◌, ◌++◌, some, arith,
  append_assoc, length, length-append, ltb, leb, lt→ltb, Bool-cases, inl, inr, ltb→lt, ltb→le,
  if◌then◌else◌, ◌&&◌, replicate, length-replicate, le→leb, zero-add,
}
use locomatch.Prelude.Maybe.{◌>>=◌}
use locomatch.Sockets.Channel.{Memory}
use locomatch.Sockets.RoundTrip.{llega}
use locomatch.Protocol.Codes.{Pedido, wait}
use locomatch.Protocol.Decimal.{Decimal}
use locomatch.Protocol.Client.{leer_siguiente}
use locomatch.Protocol.Server.{responder_siguiente}
use locomatch.Protocol.RoundTrip.{atender, leer_pedido-enviar, leer_siguiente-responder_siguiente}

-- The digits of `n`, with fuel.
abbrev digitos : ℕ → ℕ → List ℕ
digitos zero n = []
digitos (suc f) n =
    let antes = digitos f (n / 10) in
    if ltb n 10 then (48 + n) ∷ [] else antes ++ (48 + n % 10) ∷ []

abbrev leer_desde : ℕ → List ℕ → ℕ
leer_desde acc [] = acc
leer_desde acc (c ∷ cs) =
    let siguiente = leer_desde (acc * 10 + (c - 48)) cs in
    if leb 48 c && ltb c 58 then siguiente else acc

leer_desde-digito :
    (acc k : ℕ) (cs : List ℕ)
    → k < 10
    → leer_desde acc ((48 + k) ∷ cs) ≡ leer_desde (acc * 10 + k) cs
leer_desde-digito acc k cs h =
    rw (le→leb 48 (48 + k) (omega arith), lt→ltb (48 + k) 58 (omega arith))
      (ap (λ (j : ℕ). leer_desde (acc * 10 + j) cs) value)
  where
    value : 48 + k - 48 ≡ k
    value = omega arith

pub leer_desde-digitos :
    (f n : ℕ) (rest : List ℕ) → n < f → leer_desde 0 (digitos f n ++ rest) ≡ leer_desde n rest
leer_desde-digitos zero n rest h = elim h [ ]
leer_desde-digitos (suc f) n rest h = elim (Bool-cases (ltb n 10)) [
  | inl one ↦ rw one (
      leer_desde-digito 0 n rest (ltb→lt n 10 one) ∙ ap (λ (j : ℕ). leer_desde j rest) (zero-add n))
  | inr many ↦
      let bound = ltb→le n 10 many in
      rw many (
        ap (leer_desde 0) (append_assoc (digitos f (n / 10)) ((48 + n % 10) ∷ []) rest)
        ∙ leer_desde-digitos f (n / 10) ((48 + n % 10) ∷ rest) (omega arith)
        ∙ leer_desde-digito (n / 10) (n % 10) rest (omega arith)
        ∙ ap (λ (j : ℕ). leer_desde j rest) (recompose))
]
  where
    recompose : n / 10 * 10 + n % 10 ≡ n
    recompose = omega arith

-- At most `k` digits below `10 ^ k`, here by its tenths.
length-digitos_step :
    (k f n : ℕ) → (10 ≤ n → length (digitos f (n / 10)) ≤ k) → length (digitos (suc f) n) ≤ suc k
length-digitos_step k f n h =
    ground (arith, h, length-append (digitos f (n / 10)) ((48 + n % 10) ∷ []))

length-digitos_one : (f n : ℕ) → n < 10 → length (digitos f n) ≤ 1
length-digitos_one zero n h = omega arith
length-digitos_one (suc f) n h = length-digitos_step 0 f n (λ b. absurd (omega arith))

length-digitos_two : (f n : ℕ) → n < 100 → length (digitos f n) ≤ 2
length-digitos_two zero n h = omega arith
length-digitos_two (suc f) n h =
    length-digitos_step 1 f n (λ b. length-digitos_one f (n / 10) (omega arith))

pub length-digitos : (f n : ℕ) → n < 1000 → length (digitos f n) ≤ 3
length-digitos zero n h = omega arith
length-digitos (suc f) n h =
    length-digitos_step 2 f n (λ b. length-digitos_two f (n / 10) (omega arith))

abbrev pub decimal : Decimal
decimal = record {
  itoa = λ n. digitos (suc n) n;
  atoi = leer_desde 0;
  atoi-itoa = λ n beyond. leer_desde-digitos (suc n) n (0 ∷ beyond) (omega arith);
  length-itoa = λ n. length-digitos (suc n) n;
}

abbrev pub memoria : Memory
memoria = record {
  entero = replicate 4 170;
  malloc = λ n. replicate n 170;
  malloc_size = λ n. length-replicate n 170;
}

abbrev detras : List ℕ
detras = 7 ∷ 8 ∷ 9 ∷ []

-- Thread 12 waits on the semaphore "ab".
abbrev espera : Pedido
espera = wait 12 (97 ∷ 98 ∷ [])

leer_pedido-enviar_example :
    atender decimal detras (omega arith) memoria espera (1 ∷ []) ≡ some (espera, llega (1 ∷ []))
leer_pedido-enviar_example =
    leer_pedido-enviar decimal detras (omega arith) memoria espera (1 ∷ [])
      (omega arith, (λ e. cc, (λ e. cc, tt)), omega arith)

leer_siguiente-responder_siguiente_example :
    (responder_siguiente decimal detras 12 >>= λ bytes.
    leer_siguiente decimal detras memoria (llega (bytes ++ [])))
    ≡ some (12, llega [])
leer_siguiente-responder_siguiente_example =
    leer_siguiente-responder_siguiente decimal detras (omega arith) memoria 12 [] (omega arith)
