-- ===== src/Sac/Client/Words.antt =====
-- Words without a space, a quote or a bar: the server finds them again in a message.
use locomatch.Prelude.{
  ℕ, ◌≡◌, refl, sym, ap, ◌∙◌, Bool, true, false, List, [], ◌∷◌, ◌++◌, some, ◌==◌, not, ◌&&◌,
  append-nil,
}
use locomatch.Sac.Lookup.{Split}
use locomatch.Sac.Parser.{
  separate, parameters, unquote_parameter, unquote_parameters, join_parameters,
}

-- The characters that do not stand in a word.
pub record IsLetter (c : ℕ) : Type 0 where
  pub not_newline : (c == b'\n') ≡ false
  pub not_space : (c == b' ') ≡ false
  pub not_quote : (c == b'"') ≡ false
  pub not_bar : (c == b'|') ≡ false

abbrev pub AreLetters : List ℕ → Type 0
AreLetters [] = Unit {0}
AreLetters (c ∷ cs) = IsLetter c × AreLetters cs

-- At least one letter.
abbrev pub IsWord : List ℕ → Type 0
IsWord [] = ⊥
IsWord (c ∷ cs) = IsLetter c × AreLetters cs

abbrev pub AreWords : List (List ℕ) → Type 0
AreWords [] = Unit {0}
AreWords (w ∷ ws) = IsWord w × AreWords ws

-- The words with a character between them.
abbrev pub joined : ℕ → List ℕ → List (List ℕ) → List ℕ
joined c w [] = w
joined c w (v ∷ vs) = w ++ c ∷ joined c v vs

-- string_split takes apart what is joined by the separator.
pub record SplitsWords (string_split : Split) : Type 0 where
  pub split-joined :
      (w : List ℕ) (ws : List (List ℕ))
      → AreWords (w ∷ ws)
      → string_split (joined b'|' w ws) b'|' ≡ w ∷ ws
  pub split-joined_space :
      (w : List ℕ) (ws : List (List ℕ))
      → AreWords (w ∷ ws)
      → string_split (joined b' ' w ws) b' ' ≡ w ∷ ws

separate-letters :
    (cs rest : List ℕ)
    → AreLetters cs
    → separate false false (cs ++ rest) ≡ cs ++ separate false false rest
unfolding separate
separate-letters [] rest h = refl
separate-letters (c ∷ cs) rest (l, h) =
    rw (l.not_newline, l.not_space, l.not_quote)
      (ap (λ (s : List ℕ). c ∷ s) (separate-letters cs rest h))

separate-word :
    (w rest : List ℕ) (last : Bool)
    → IsWord w
    → separate false last (w ++ rest) ≡ w ++ separate false false rest
unfolding separate
separate-word [] rest last h = elim h [ ]
separate-word (c ∷ cs) rest last (l, h) =
    rw (l.not_newline, l.not_space, l.not_quote)
      (ap (λ (s : List ℕ). c ∷ s) (separate-letters cs rest h))

-- The spaces between words become bars.
pub separate-joined :
    (w : List ℕ) (ws : List (List ℕ)) (last : Bool)
    → AreWords (w ∷ ws)
    → separate false last (joined b' ' w ws) ≡ joined b'|' w ws
unfolding separate
separate-joined w [] last (h, hs) =
    ap (separate false last) (sym (append-nil w)) ∙ separate-word w [] last h ∙ append-nil w
separate-joined w (v ∷ vs) last (h, hs) =
    separate-word w (b' ' ∷ joined b' ' v vs) last h
    ∙ ap (λ (s : List ℕ). w ++ b'|' ∷ s) (separate-joined v vs true hs)

-- Words have no quotes to take off.
pub unquote_parameters-words :
    (ws : List (List ℕ)) → AreWords ws → unquote_parameters ws ≡ some (parameters ws)
unfolding unquote_parameters unquote_parameter join_parameters
unquote_parameters-words [] h = refl
unquote_parameters-words ([] ∷ ws) (h, hs) = elim h [ ]
unquote_parameters-words ((c ∷ cs) ∷ ws) ((l, h), hs) =
    rw (l.not_quote, unquote_parameters-words ws hs) refl

-- A test for words, for those that are written out.
abbrev all_letters : List ℕ → Bool
all_letters [] = true
all_letters (c ∷ cs) =
    (not (c == b'\n') && (not (c == b' ') && (not (c == b'"') && not (c == b'|'))))
    && all_letters cs

abbrev pub is_word : List ℕ → Bool
is_word [] = false
is_word (c ∷ cs) = all_letters (c ∷ cs)

-- The parts of a test for a letter.
letter :
    (a b c d rest : Bool)
    → ((not a && (not b && (not c && not d))) && rest) ≡ true
    → (a ≡ false) × (b ≡ false) × (c ≡ false) × (d ≡ false) × (rest ≡ true)
letter false false false false true h = (refl, refl, refl, refl, refl)
letter true b c d rest h = cc
letter false true c d rest h = cc
letter false false true d rest h = cc
letter false false false true rest h = cc
letter false false false false false h = cc

all_letters→AreLetters : (cs : List ℕ) → all_letters cs ≡ true → AreLetters cs
all_letters→AreLetters [] h = tt
all_letters→AreLetters (c ∷ cs) h =
    let (newline, space, quote, bar, rest) =
      letter (c == b'\n') (c == b' ') (c == b'"') (c == b'|') (all_letters cs) h in
    (
      record { not_newline = newline; not_space = space; not_quote = quote; not_bar = bar },
      all_letters→AreLetters cs rest,
    )

pub is_word→IsWord : (w : List ℕ) → is_word w ≡ true → IsWord w
is_word→IsWord [] h = cc
is_word→IsWord (c ∷ cs) h = all_letters→AreLetters (c ∷ cs) h
