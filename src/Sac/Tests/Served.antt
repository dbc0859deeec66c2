-- ===== src/Sac/Tests/Served.antt =====
-- The message that opens the file "/a", after the server has started.
use locomatch.Prelude.{ℕ, ◌≡◌, ◌∙◌, refl, List, [], ◌∷◌, Option, some, arith}
use locomatch.Sac.Server.{print_int, action_open}
use locomatch.Sac.Server.Opening.{Opened, action_open-Opened}
use locomatch.Prelude.Text.{strcmp}
use locomatch.Sac.Parser.{read_name, wrong_number, dispatch, parse_input}
use locomatch.Sac.Parser.Refused.{dispatch-refused}
use locomatch.Sac.Parser.Served.{Served, start, message, Stays, Served-Stays}
use locomatch.Sac.Client.Words.{is_word→IsWord}
use locomatch.Sac.Client.RoundTrip.{open_file, parse_input-message}
use locomatch.Sac.Tests.Environment.{splits, entorno}
use locomatch.Sac.Tests.Server.{servidor, tamanio, path, path-IsFile}

opening : Opened entorno (servidor tamanio []) path 77 2
opening = action_open-Opened entorno path-IsFile 77 tt (omega arith)

opening_message :
    (text : List ℕ) × (parse_input entorno 77 3 (servidor tamanio []) text
      ≡ action_open entorno (servidor tamanio []) (record { path = path; flags = 77 }))
unfolding print_int
opening_message =
    let (text, sent, handled, meant) =
      parse_input-message entorno splits 77 3 (servidor tamanio []) (open_file path 5) (
        is_word→IsWord path refl,
        record { short = omega arith; digits = is_word→IsWord (b'5' ∷ []) refl },
      ) in
    (text, handled)

opening-Served : Served entorno (servidor tamanio []) 1 opening.after
opening-Served =
    message 77 3 opening_message.0 _ opening.after start (opening_message.1 ∙ opening.result)

Served-Stays_example : Stays 1 (servidor tamanio []) opening.after
Served-Stays_example = Served-Stays opening-Served tt (omega arith)

-- "read" without its other words.
dispatch-refused_example :
    dispatch entorno 77 3 (servidor tamanio []) read_name (read_name ∷ [])
    ≡ some (wrong_number, servidor tamanio [])
unfolding strcmp
dispatch-refused_example =
    dispatch-refused entorno 77 3 (servidor tamanio []) read_name (read_name ∷ [])
      (λ z. let n = some_injective z in absurd (omega (arith, n)))
  where
    some_injective : {a b : ℕ} → Path (Option ℕ) (some a) (some b) → a ≡ b
    some_injective e = cc
