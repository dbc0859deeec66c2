-- ===== src/Suse/Metrics/Counts.antt =====
-- find_all_my_shared_threads and get_list_size_for.
use locomatch.Prelude.{ℕ, suc, List, [], ◌∷◌, ◌++◌, ◌==◌, if◌then◌else◌}
use locomatch.Prelude.Int.{ℤ, pos, negsuc}
use locomatch.Suse.State.{ThreadState, new, blocked, exit}
use locomatch.Suse.Monad.{M, ◌>>=◌, return, get, tcb_at, program_at}

module _ {F : Type 0} where
  -- A loop over one of the lists: the threads with the socket, in their order.
  unfoldable pub threads_of : ℕ → List ℕ → M F (List ℕ)
  threads_of socket [] = return []
  threads_of socket (p ∷ ps) = do
    tcb ← tcb_at p
    rest ← threads_of socket ps
    return (if tcb.socket == socket then p ∷ rest else rest)

  unfoldable pub find_all_my_shared_threads : ℕ → M F (List ℕ)
  find_all_my_shared_threads p = do
    program ← program_at p
    s ← get
    news ← threads_of program.socket s.new_list
    blockeds ← threads_of program.socket s.blocked_list
    exits ← threads_of program.socket s.exit_list
    return (news ++ blockeds ++ exits)

  -- The loop of get_list_size_for.
  unfoldable pub count_of : ℕ → List ℕ → M F ℕ
  count_of socket [] = return 0
  count_of socket (p ∷ ps) = do
    tcb ← tcb_at p
    size ← count_of socket ps
    return (if tcb.socket == socket then suc size else size)

  abbrev pub size_in : ℕ → List ℕ → M F ℤ
  size_in p lista = do
    program ← program_at p
    size ← count_of program.socket lista
    return (pos size)

  unfoldable pub get_list_size_for : ℕ → ThreadState → M F ℤ
  unfolding count_of
  get_list_size_for p new = do s ← get; size_in p s.new_list
  get_list_size_for p blocked = do s ← get; size_in p s.blocked_list
  get_list_size_for p exit = do s ← get; size_in p s.exit_list
  get_list_size_for p _ = return (negsuc 0)
