-- ===== src/Sac/Tests/Environment.antt =====
-- What the server takes from the libraries, at concrete functions, and messages sent with it.
use locomatch.Prelude.{
  ℕ, ◌≡◌, refl, ap, ◌∙◌, false, List, [], ◌∷◌, ◌++◌, some, arith, replicate, ◌==◌, if◌then◌else◌,
  eqb_refl,
}
use locomatch.Protocol.Tests.{decimal}
use locomatch.Sac.Tests.Bits.{bits, geometria}
use locomatch.Sac.Lookup.{Split}
use locomatch.Sac.Server.{
  Place, opened_file_name, new_entry_name, new_node_name, new_node_blocks, read_array, write_string,
  Entorno, Servidor,
}
use locomatch.Sac.Parser.{parse_input}
use locomatch.Sac.Client.Words.{AreLetters, AreWords, joined, SplitsWords, is_word→IsWord}
use locomatch.Sac.Client.RoundTrip.{
  Request, write_file, message, perform, IsMeant, parse_input-message,
}

-- The texts between the separators, and then only those that are not empty.
abbrev delante : ℕ → List (List ℕ) → List (List ℕ)
delante c [] = (c ∷ []) ∷ []
delante c (t ∷ ts) = (c ∷ t) ∷ ts

abbrev partir : ℕ → List ℕ → List (List ℕ)
partir separador [] = [] ∷ []
partir separador (c ∷ cs) =
    let rest = partir separador cs in if c == separador then [] ∷ rest else delante c rest

abbrev sin_vacios : List (List ℕ) → List (List ℕ)
sin_vacios [] = []
sin_vacios ([] ∷ ts) = sin_vacios ts
sin_vacios ((c ∷ cs) ∷ ts) = (c ∷ cs) ∷ sin_vacios ts

abbrev pub string_split : Split
string_split texto separador = sin_vacios (partir separador texto)

-- No character of the text is the separator.
abbrev Without : ℕ → List ℕ → Type 0
Without separador [] = Unit {0}
Without separador (c ∷ cs) = ((c == separador) ≡ false) × Without separador cs

partir-last : (s : ℕ) (w : List ℕ) → Without s w → partir s w ≡ w ∷ []
partir-last s [] h = refl
partir-last s (c ∷ cs) (d, h) = rw (d, partir-last s cs h) refl

partir-word : (s : ℕ) (w rest : List ℕ) → Without s w → partir s (w ++ s ∷ rest) ≡ w ∷ partir s rest
partir-word s [] rest h = rw (eqb_refl s) refl
partir-word s (c ∷ cs) rest (d, h) = rw (d, partir-word s cs rest h) refl

AreLetters-bar : (w : List ℕ) → AreLetters w → Without b'|' w
AreLetters-bar [] h = tt
AreLetters-bar (c ∷ cs) (l, h) = (l.not_bar, AreLetters-bar cs h)

AreLetters-space : (w : List ℕ) → AreLetters w → Without b' ' w
AreLetters-space [] h = tt
AreLetters-space (c ∷ cs) (l, h) = (l.not_space, AreLetters-space cs h)

split_words :
    (s : ℕ)
    → ((w : List ℕ) → AreLetters w → Without s w)
    → (w : List ℕ) (ws : List (List ℕ)) → AreWords (w ∷ ws)
    → string_split (joined s w ws) s ≡ w ∷ ws
split_words s apart [] ws (h, hs) = elim h [ ]
split_words s apart (c ∷ cs) [] (h, hs) = ap sin_vacios (partir-last s (c ∷ cs) (apart (c ∷ cs) h))
split_words s apart (c ∷ cs) (v ∷ vs) (h, hs) =
    ap sin_vacios (partir-word s (c ∷ cs) (joined s v vs) (apart (c ∷ cs) h))
    ∙ ap (λ (l : List (List ℕ)). (c ∷ cs) ∷ l) (split_words s apart v vs hs)

pub splits : SplitsWords string_split
splits = record {
  split-joined = split_words b'|' AreLetters-bar;
  split-joined_space = split_words b' ' AreLetters-space;
}

abbrev basura : Place → List ℕ
basura opened_file_name = replicate 71 0
basura new_entry_name = replicate 71 0
basura new_node_name = replicate 71 7
basura new_node_blocks = replicate 4000 7
basura read_array = replicate 4000 0
basura write_string = replicate 4097 0

abbrev pub entorno : Entorno
entorno = record {
  string_split = string_split;
  decimal = decimal;
  bits = bits;
  time = replicate 8 0;
  basura = basura;
}

abbrev vacio : Servidor
vacio = record { geometry = geometria; disco = []; opened = [] }

-- "/a" is written 12 bytes at 5.
abbrev escribir : Request
escribir = write_file (b'/' ∷ b'a' ∷ []) (b'x' ∷ b'y' ∷ []) 12 5

parse_input-message_example :
    (text : List ℕ) × (message entorno escribir ≡ some text)
    × (parse_input entorno 77 3 vacio text ≡ perform entorno 77 3 vacio escribir)
    × IsMeant entorno escribir
parse_input-message_example = parse_input-message entorno splits 77 3 vacio escribir (
  is_word→IsWord (b'/' ∷ b'a' ∷ []) refl,
  (
    is_word→IsWord (b'x' ∷ b'y' ∷ []) refl,
    (
      record {
        small = omega arith;
        short = omega arith;
        digits = is_word→IsWord (b'1' ∷ b'2' ∷ []) refl;
      },
      record { small = omega arith; short = omega arith; digits = is_word→IsWord (b'5' ∷ []) refl },
    ),
  ),
)
