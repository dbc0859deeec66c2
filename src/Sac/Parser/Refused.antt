-- ===== src/Sac/Parser/Refused.antt =====
-- Messages that parse_input does not hand to a handler.
use locomatch.Prelude.{
  ℕ, ◌≡◌, ◌≢◌, refl, ap, ◌∙◌, Bool, true, false, List, [], ◌∷◌, Option, none, some, length,
  if◌then◌else◌,
}
use locomatch.Prelude.Text.{strcmp}
use locomatch.Sac.Server.{Entorno, Servidor}
use locomatch.Sac.Parser.{
  open_name, read_name, getattr_name, mknod_name, mkdir_name, write_name, opendir_name,
  readdir_name, wrong_number, not_an_instruction, handle_open, handle_read, handle_getattr,
  handle_mknod, handle_mkdir, handle_write, handle_opendir, handle_readdir, dispatch,
}

-- The number of words in a message with this instruction.
abbrev pub words : List ℕ → Option ℕ
words instruction =
    if strcmp instruction open_name
    then some 3
    else (if strcmp instruction read_name
        then some 4
        else (if strcmp instruction getattr_name
            then some 2
            else (if strcmp instruction mknod_name
                then some 2
                else (if strcmp instruction mkdir_name
                    then some 2
                    else (if strcmp instruction write_name
                        then some 5
                        else (if strcmp instruction opendir_name
                            then some 3
                            else (if strcmp instruction readdir_name then some 2 else none)))))))

-- The answer to another number of words.
abbrev pub refusal : Option ℕ → List ℕ
refusal none = not_an_instruction
refusal (some n) = wrong_number

-- Another number of words is refused, and so is no instruction.
record IsRefused (s : Servidor) (given : ℕ) (expected : Option ℕ)
    (result : Option (List ℕ × Servidor)) : Type 0 where
  unknown : expected ≡ none → result ≡ some (not_an_instruction, s)
  wrong : (n : ℕ) → expected ≡ some n → n ≢ given → result ≡ some (wrong_number, s)

module _ (s : Servidor) (given : ℕ) where
  IsRefused-if :
      (test : Bool) {m k : Option ℕ} (x y : Option (List ℕ × Servidor))
      → IsRefused s given m x
      → IsRefused s given k y
      → IsRefused s given (if test then m else k) (if test then x else y)
  IsRefused-if true x y a b = a
  IsRefused-if false x y a b = b

  IsRefused-number :
      (k : ℕ) (x : Option (List ℕ × Servidor))
      → (k ≢ given → x ≡ some (wrong_number, s))
      → IsRefused s given (some k) x
  IsRefused-number k x h = record {
    unknown = λ e. cc;
    wrong = λ n e differs. let same : n ≡ k = cc in h (λ z. differs (same ∙ z));
  }

module _ (e : Entorno) (flags node_block : ℕ) (s : Servidor) where
  handle_open-refused :
      (ps : List (List ℕ))
      → 3 ≢ length ps
      → handle_open e flags node_block s ps ≡ some (wrong_number, s)
  unfolding handle_open
  handle_open-refused [] h = refl
  handle_open-refused (a ∷ []) h = refl
  handle_open-refused (a ∷ b ∷ []) h = refl
  handle_open-refused (a ∷ b ∷ c ∷ []) h = absurd (h refl)
  handle_open-refused (a ∷ b ∷ c ∷ d ∷ rest) h = refl

  handle_read-refused :
      (ps : List (List ℕ))
      → 4 ≢ length ps
      → handle_read e flags node_block s ps ≡ some (wrong_number, s)
  unfolding handle_read
  handle_read-refused [] h = refl
  handle_read-refused (a ∷ []) h = refl
  handle_read-refused (a ∷ b ∷ []) h = refl
  handle_read-refused (a ∷ b ∷ c ∷ []) h = refl
  handle_read-refused (a ∷ b ∷ c ∷ d ∷ []) h = absurd (h refl)
  handle_read-refused (a ∷ b ∷ c ∷ d ∷ f ∷ rest) h = refl

  handle_getattr-refused :
      (ps : List (List ℕ))
      → 2 ≢ length ps
      → handle_getattr e flags node_block s ps ≡ some (wrong_number, s)
  unfolding handle_getattr
  handle_getattr-refused [] h = refl
  handle_getattr-refused (a ∷ []) h = refl
  handle_getattr-refused (a ∷ b ∷ []) h = absurd (h refl)
  handle_getattr-refused (a ∷ b ∷ c ∷ rest) h = refl

  handle_mknod-refused :
      (ps : List (List ℕ))
      → 2 ≢ length ps
      → handle_mknod e flags node_block s ps ≡ some (wrong_number, s)
  unfolding handle_mknod
  handle_mknod-refused [] h = refl
  handle_mknod-refused (a ∷ []) h = refl
  handle_mknod-refused (a ∷ b ∷ []) h = absurd (h refl)
  handle_mknod-refused (a ∷ b ∷ c ∷ rest) h = refl

  handle_mkdir-refused :
      (ps : List (List ℕ))
      → 2 ≢ length ps
      → handle_mkdir e flags node_block s ps ≡ some (wrong_number, s)
  unfolding handle_mkdir
  handle_mkdir-refused [] h = refl
  handle_mkdir-refused (a ∷ []) h = refl
  handle_mkdir-refused (a ∷ b ∷ []) h = absurd (h refl)
  handle_mkdir-refused (a ∷ b ∷ c ∷ rest) h = refl

  handle_write-refused :
      (ps : List (List ℕ))
      → 5 ≢ length ps
      → handle_write e flags node_block s ps ≡ some (wrong_number, s)
  unfolding handle_write
  handle_write-refused [] h = refl
  handle_write-refused (a ∷ []) h = refl
  handle_write-refused (a ∷ b ∷ []) h = refl
  handle_write-refused (a ∷ b ∷ c ∷ []) h = refl
  handle_write-refused (a ∷ b ∷ c ∷ d ∷ []) h = refl
  handle_write-refused (a ∷ b ∷ c ∷ d ∷ f ∷ []) h = absurd (h refl)
  handle_write-refused (a ∷ b ∷ c ∷ d ∷ f ∷ g ∷ rest) h = refl

  handle_opendir-refused :
      (ps : List (List ℕ))
      → 3 ≢ length ps
      → handle_opendir e flags node_block s ps ≡ some (wrong_number, s)
  unfolding handle_opendir
  handle_opendir-refused [] h = refl
  handle_opendir-refused (a ∷ []) h = refl
  handle_opendir-refused (a ∷ b ∷ []) h = refl
  handle_opendir-refused (a ∷ b ∷ c ∷ []) h = absurd (h refl)
  handle_opendir-refused (a ∷ b ∷ c ∷ d ∷ rest) h = refl

  handle_readdir-refused :
      (ps : List (List ℕ))
      → 2 ≢ length ps
      → handle_readdir e flags node_block s ps ≡ some (wrong_number, s)
  unfolding handle_readdir
  handle_readdir-refused [] h = refl
  handle_readdir-refused (a ∷ []) h = refl
  handle_readdir-refused (a ∷ b ∷ []) h = absurd (h refl)
  handle_readdir-refused (a ∷ b ∷ c ∷ rest) h = refl

  dispatch-IsRefused :
      (instruction : List ℕ) (ps : List (List ℕ))
      → IsRefused s (length ps) (words instruction) (dispatch e flags node_block s instruction ps)
  unfolding dispatch
  dispatch-IsRefused instruction ps =
      IsRefused-if s _ _ _ _ (IsRefused-number s _ 3 _ (handle_open-refused ps)) (
        IsRefused-if s _ _ _ _ (IsRefused-number s _ 4 _ (handle_read-refused ps)) (
          IsRefused-if s _ _ _ _ (IsRefused-number s _ 2 _ (handle_getattr-refused ps)) (
            IsRefused-if s _ _ _ _ (IsRefused-number s _ 2 _ (handle_mknod-refused ps)) (
              IsRefused-if s _ _ _ _ (IsRefused-number s _ 2 _ (handle_mkdir-refused ps)) (
                IsRefused-if s _ _ _ _ (IsRefused-number s _ 5 _ (handle_write-refused ps)) (
                  IsRefused-if s _ _ _ _ (IsRefused-number s _ 3 _ (handle_opendir-refused ps)) (
                    IsRefused-if s _ _ _ _ (IsRefused-number s _ 2 _ (handle_readdir-refused ps))
                      (record { unknown = λ z. refl; wrong = λ n z differs. cc }))))))))

  refused :
      (given : ℕ) (expected : Option ℕ) (result : Option (List ℕ × Servidor))
      → IsRefused s given expected result
      → expected ≢ some given
      → result ≡ some (refusal expected, s)
  refused given none result r h = r.unknown refl
  refused given (some n) result r h = r.wrong n refl (λ z. h (ap some z))

  -- A message with the wrong number of words for its instruction is answered by saying so, one whose
  -- first word is no instruction by saying that, and nothing changes.
  pub dispatch-refused :
      (instruction : List ℕ) (ps : List (List ℕ))
      → words instruction ≢ some (length ps)
      → dispatch e flags node_block s instruction ps ≡ some (refusal (words instruction), s)
  dispatch-refused instruction ps =
      refused (length ps) (words instruction) (dispatch e flags node_block s instruction ps)
        (dispatch-IsRefused instruction ps)
