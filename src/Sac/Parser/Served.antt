-- ===== src/Sac/Parser/Served.antt =====
-- Messages that are handled one after the other.
use locomatch.Prelude.{
  ℕ, suc, ◌+◌, ◌^◌, ◌≡◌, ◌≢◌, ◌≤◌, ◌<◌, refl, sym, ◌∙◌, List, [], ◌∷◌, Option, none, some, arith,
  length,
}
use locomatch.Sac.OpenedFiles.{is_file_opened, Numbered}
use locomatch.Sac.Server.{Entorno, Servidor}
use locomatch.Sac.Server.Create.{Ended, answered, crashed}
use locomatch.Sac.Parser.{
  Parameters, malformed, parameters, unchanged, survived, handle_open, handle_read, handle_getattr,
  handle_mknod, handle_mkdir, handle_write, handle_opendir, handle_readdir, dispatch, handle,
  parse_input,
}
use locomatch.Sac.Parser.Kept.{
  Kept, Kept-same, AllKept, AllKept-none, AllKept-bind, AllKept-if, AllKept-here, AllKept-open,
  AllKept-opendir, AllKept-write,
}

module _ (e : Entorno) (flags node_block : ℕ) (s : Servidor) where
  AllKept-unchanged : (answer : Option (List ℕ)) → AllKept s (unchanged e flags node_block s answer)
  unfolding unchanged
  AllKept-unchanged none = AllKept-none s
  AllKept-unchanged (some text) = AllKept-here s text

  AllKept-survived : (ended : Option Ended) → AllKept s (survived e flags node_block s ended)
  unfolding survived
  AllKept-survived none = AllKept-none s
  AllKept-survived (some (answered text)) = AllKept-here s text
  AllKept-survived (some (crashed disco)) = AllKept-none s

  -- Any number of parameters.
  AllKept-handle_open : (ps : List (List ℕ)) → AllKept s (handle_open e flags node_block s ps)
  unfolding handle_open
  AllKept-handle_open [] = AllKept-here s _
  AllKept-handle_open (a ∷ []) = AllKept-here s _
  AllKept-handle_open (a ∷ b ∷ []) = AllKept-here s _
  AllKept-handle_open (a ∷ b ∷ c ∷ []) = AllKept-open s e _
  AllKept-handle_open (a ∷ b ∷ c ∷ d ∷ rest) = AllKept-here s _

  AllKept-handle_read : (ps : List (List ℕ)) → AllKept s (handle_read e flags node_block s ps)
  unfolding handle_read
  AllKept-handle_read [] = AllKept-here s _
  AllKept-handle_read (a ∷ []) = AllKept-here s _
  AllKept-handle_read (a ∷ b ∷ []) = AllKept-here s _
  AllKept-handle_read (a ∷ b ∷ c ∷ []) = AllKept-here s _
  AllKept-handle_read (a ∷ b ∷ c ∷ d ∷ []) = AllKept-unchanged _
  AllKept-handle_read (a ∷ b ∷ c ∷ d ∷ e ∷ rest) = AllKept-here s _

  AllKept-handle_getattr : (ps : List (List ℕ)) → AllKept s (handle_getattr e flags node_block s ps)
  unfolding handle_getattr
  AllKept-handle_getattr [] = AllKept-here s _
  AllKept-handle_getattr (a ∷ []) = AllKept-here s _
  AllKept-handle_getattr (a ∷ b ∷ []) = AllKept-unchanged _
  AllKept-handle_getattr (a ∷ b ∷ c ∷ rest) = AllKept-here s _

  AllKept-handle_mknod : (ps : List (List ℕ)) → AllKept s (handle_mknod e flags node_block s ps)
  unfolding handle_mknod
  AllKept-handle_mknod [] = AllKept-here s _
  AllKept-handle_mknod (a ∷ []) = AllKept-here s _
  AllKept-handle_mknod (a ∷ b ∷ []) = AllKept-survived _
  AllKept-handle_mknod (a ∷ b ∷ c ∷ rest) = AllKept-here s _

  AllKept-handle_mkdir : (ps : List (List ℕ)) → AllKept s (handle_mkdir e flags node_block s ps)
  unfolding handle_mkdir
  AllKept-handle_mkdir [] = AllKept-here s _
  AllKept-handle_mkdir (a ∷ []) = AllKept-here s _
  AllKept-handle_mkdir (a ∷ b ∷ []) = AllKept-survived _
  AllKept-handle_mkdir (a ∷ b ∷ c ∷ rest) = AllKept-here s _

  AllKept-handle_write : (ps : List (List ℕ)) → AllKept s (handle_write e flags node_block s ps)
  unfolding handle_write
  AllKept-handle_write [] = AllKept-here s _
  AllKept-handle_write (a ∷ []) = AllKept-here s _
  AllKept-handle_write (a ∷ b ∷ []) = AllKept-here s _
  AllKept-handle_write (a ∷ b ∷ c ∷ []) = AllKept-here s _
  AllKept-handle_write (a ∷ b ∷ c ∷ d ∷ []) = AllKept-here s _
  AllKept-handle_write (a ∷ b ∷ c ∷ d ∷ f ∷ []) = AllKept-write s e _
  AllKept-handle_write (a ∷ b ∷ c ∷ d ∷ f ∷ g ∷ rest) = AllKept-here s _

  AllKept-handle_opendir : (ps : List (List ℕ)) → AllKept s (handle_opendir e flags node_block s ps)
  unfolding handle_opendir
  AllKept-handle_opendir [] = AllKept-here s _
  AllKept-handle_opendir (a ∷ []) = AllKept-here s _
  AllKept-handle_opendir (a ∷ b ∷ []) = AllKept-here s _
  AllKept-handle_opendir (a ∷ b ∷ c ∷ []) = AllKept-opendir s e node_block _
  AllKept-handle_opendir (a ∷ b ∷ c ∷ d ∷ rest) = AllKept-here s _

  AllKept-handle_readdir : (ps : List (List ℕ)) → AllKept s (handle_readdir e flags node_block s ps)
  unfolding handle_readdir
  AllKept-handle_readdir [] = AllKept-here s _
  AllKept-handle_readdir (a ∷ []) = AllKept-here s _
  AllKept-handle_readdir (a ∷ b ∷ []) = AllKept-unchanged _
  AllKept-handle_readdir (a ∷ b ∷ c ∷ rest) = AllKept-here s _

  AllKept-dispatch :
      (instruction : List ℕ) (ps : List (List ℕ))
      → AllKept s (dispatch e flags node_block s instruction ps)
  unfolding dispatch
  AllKept-dispatch instruction ps =
      search
        (
          AllKept-if, AllKept-here, AllKept-handle_open, AllKept-handle_read,
          AllKept-handle_getattr, AllKept-handle_mknod, AllKept-handle_mkdir, AllKept-handle_write,
          AllKept-handle_opendir, AllKept-handle_readdir,
        )
        depth 12

  AllKept-handle : (ps : Parameters) → AllKept s (handle e flags node_block s ps)
  unfolding handle
  AllKept-handle malformed = AllKept-here s _
  AllKept-handle (parameters []) = AllKept-here s _
  AllKept-handle (parameters (instruction ∷ ps)) = AllKept-dispatch instruction (instruction ∷ ps)

  pub AllKept-message : (text : List ℕ) → AllKept s (parse_input e flags node_block s text)
  unfolding parse_input
  AllKept-message text = AllKept-bind s _ _ (λ ps r. AllKept-handle ps)

-- From the first state, as many messages are handled one after the other; each has the address of
-- its flags and what is left in a new entry.
pub data Served (e : Entorno) (s : Servidor) : ℕ → Servidor → Type 0 where
  start : Served e s 0 s
  message :
      {n : ℕ} {s' : Servidor} (flags node_block : ℕ) (text answer : List ℕ) (s'' : Servidor)
      → Served e s n s'
      → parse_input e flags node_block s' text ≡ some (answer, s'')
      → Served e s (suc n) s''

Kept-next : {n : ℕ} {s s' s'' : Servidor} → Kept n s s' → Kept 1 s' s'' → Kept (suc n) s s''
Kept-next k l = record {
  geometry = l.geometry ∙ k.geometry;
  opened_more = λ h b.
      let fewer = k.opened_more h (omega (arith, b)) in
      omega
        (arith, fewer, l.opened_more (k.numbered h (omega (arith, b))) (omega (arith, b, fewer)));
  numbered = λ h b.
      l.numbered (k.numbered h (omega (arith, b)))
        (omega (arith, b, k.opened_more h (omega (arith, b))));
  stays = λ h b node before.
      let same = k.stays h (omega (arith, b)) node before in
      l.stays (k.numbered h (omega (arith, b)))
        (omega (arith, b, k.opened_more h (omega (arith, b)))) node (λ z. before (sym same ∙ z))
      ∙ same;
}

Served-Kept : {e : Entorno} {s : Servidor} {n : ℕ} {s' : Servidor} → Served e s n s' → Kept n s s'
Served-Kept start = Kept-same 0 refl refl
Served-Kept (message flags node_block text answer s'' before e') =
    Kept-next (Served-Kept before) ((AllKept-message _ flags node_block _ text).kept answer s'' e')

-- The geometry is the same, at most `n` files are opened, the descriptors count up from 1, and a file
-- that is open keeps its descriptor.
pub record Stays (n : ℕ) (s s' : Servidor) : Type 0 where
  pub same_geometry : s'.geometry ≡ s.geometry
  pub at_most : length s'.opened ≤ length s.opened + n
  pub counted : Numbered 1 s'.opened
  pub same_descriptor :
      (node : ℕ)
      → is_file_opened s.opened node ≢ 0
      → is_file_opened s'.opened node ≡ is_file_opened s.opened node

-- Through any messages that are answered, the geometry of the disk stays, at most one file is opened
-- by each, the descriptors keep counting up from 1 and a file that is open keeps its descriptor. The
-- descriptors count up from 1 at the start, and the files opened there and the messages are fewer
-- than 2 ^ 16.
pub Served-Stays :
    {e : Entorno} {s : Servidor} {n : ℕ} {s' : Servidor}
    → Served e s n s'
    → Numbered 1 s.opened
    → length s.opened + n < 2 ^ 16
    → Stays n s s'
Served-Stays served h b =
    let k = Served-Kept served in
    record {
      same_geometry = k.geometry;
      at_most = k.opened_more h b;
      counted = k.numbered h b;
      same_descriptor = k.stays h b;
    }
