-- ===== src/Suse/Destroy/Keeps.antt =====
-- destroy_program's steps keep what destroy_tcb keeps.
use locomatch.Prelude.{ℕ, ◌+◌, List, [], ◌∷◌, Option, none, some}
use locomatch.Protocol.Decimal.{Decimal}
use locomatch.Suse.State.{Program, Suse}
use locomatch.Suse.Monad.{modify, put_program}
use locomatch.Suse.Keeps.{
  Keeps, Keeps-bind, Keeps-need, Keeps-return, Keeps-get, Keeps-tcb_at, Keeps-program_at,
}
use locomatch.Suse.Destroy.{
  destroy_tcb, destroy_each, destroy_exec, positions_of, remove_from_back,
  list_remove_and_destroy_all_tcb_from_program, destroy_new, destroy_own, destroy_exit,
  destroy_wakeup,
}

module _ {F : Type 0} {P W : Suse F → Type 0} (destroys : (p : ℕ) → Keeps P W (destroy_tcb p)) where
  Keeps-destroy_each : (ps : List ℕ) → Keeps P W (destroy_each ps)
  unfolding destroy_each
  Keeps-destroy_each [] = Keeps-return tt
  Keeps-destroy_each (p ∷ ps) = Keeps-bind (destroys p) λ _. Keeps-destroy_each ps

  Keeps-destroy_exec : (o : Option ℕ) → Keeps P W (destroy_exec o)
  unfolding destroy_exec
  Keeps-destroy_exec none = Keeps-return tt
  Keeps-destroy_exec (some p) = destroys p

  module _ (d : Decimal) where
    Keeps-positions_of : (socket i : ℕ) (ps : List ℕ) → Keeps P W (positions_of d socket i ps)
    unfolding positions_of
    Keeps-positions_of socket i [] = Keeps-return []
    Keeps-positions_of socket i (p ∷ ps) =
        Keeps-bind (Keeps-tcb_at p)
          λ t. Keeps-bind (Keeps-positions_of socket (i + 1) ps) λ rest. Keeps-return _

    Keeps-remove_from_back :
        (pos : List (List ℕ)) (lista : List ℕ) → Keeps P W (remove_from_back d pos lista)
    unfolding remove_from_back
    Keeps-remove_from_back [] lista = Keeps-return lista
    Keeps-remove_from_back (x ∷ pos) lista =
        Keeps-bind (Keeps-remove_from_back pos lista)
          λ left. Keeps-bind (Keeps-need _) λ p. Keeps-bind (destroys p) λ _. Keeps-return _

    pub Keeps-remove_and_destroy :
        (lista : List ℕ) (socket : ℕ)
        → Keeps P W (list_remove_and_destroy_all_tcb_from_program d lista socket)
    unfolding list_remove_and_destroy_all_tcb_from_program
    Keeps-remove_and_destroy lista socket =
        Keeps-bind (Keeps-positions_of socket 0 lista) λ pos. Keeps-remove_from_back pos lista

    pub Keeps-destroy_new :
        (socket : ℕ)
        → ((l : List ℕ) → Keeps P W (modify λ s. record s { new_list = l }))
        → Keeps P W (destroy_new d socket)
    unfolding destroy_new
    Keeps-destroy_new socket put =
        Keeps-bind Keeps-get λ s. Keeps-bind (Keeps-remove_and_destroy s.new_list socket) put

    pub Keeps-destroy_exit :
        (socket : ℕ)
        → ((l : List ℕ) → Keeps P W (modify λ s. record s { exit_list = l }))
        → Keeps P W (destroy_exit d socket)
    unfolding destroy_exit
    Keeps-destroy_exit socket put =
        Keeps-bind Keeps-get λ s. Keeps-bind (Keeps-remove_and_destroy s.exit_list socket) put

    module _ (put : (p : ℕ) (g : Program) → Keeps P W (put_program p g)) (p : ℕ) where
      pub Keeps-destroy_own : Keeps P W (destroy_own d p)
      unfolding destroy_own
      Keeps-destroy_own = Keeps-bind (Keeps-program_at p) λ g.
          Keeps-bind (Keeps-destroy_each g.ready)
            λ _. Keeps-bind (put p _) λ _. Keeps-destroy_exec g.exec

      pub Keeps-destroy_wakeup : Keeps P W (destroy_wakeup d p)
      unfolding destroy_wakeup
      Keeps-destroy_wakeup =
          Keeps-bind (Keeps-program_at p)
            λ g. Keeps-bind (Keeps-destroy_each g.wakeup_list) λ _. put p _
