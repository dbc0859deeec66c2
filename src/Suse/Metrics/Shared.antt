-- ===== src/Suse/Metrics/Shared.antt =====
-- The threads that find_all_my_shared_threads collects are those that get_list_size_for counts.
use locomatch.Prelude.{
  ℕ, ◌+◌, ◌≡◌, refl, List, [], ◌∷◌, ◌++◌, some, length, length-append, arith, ◌==◌, Bool-cases, inl,
  inr,
}
use locomatch.Prelude.Int.{pos}
use locomatch.Suse.State.{new, blocked, exit, Program, Suse}
use locomatch.Suse.Monad.{done}
use locomatch.Suse.Destroy.Filter.{mine, AllLive}
use locomatch.Suse.Metrics.Counts.{
  threads_of, find_all_my_shared_threads, count_of, get_list_size_for,
}

module _ {F : Type 0} (s : Suse F) (socket : ℕ) where
  pub threads_of-mine :
      (l : List ℕ) → AllLive s.tcbs l → threads_of socket l s ≡ done (mine s.tcbs socket l) s
  unfolding threads_of
  threads_of-mine [] h = refl
  threads_of-mine (p ∷ ps) h = elim (Bool-cases (h.0.0.socket == socket)) [
    | inl e ↦ rw (mine, h.0.1, threads_of-mine ps h.1, e) refl
    | inr e ↦ rw (mine, h.0.1, threads_of-mine ps h.1, e) refl
  ]

  pub count_of-mine :
      (l : List ℕ) → AllLive s.tcbs l → count_of socket l s ≡ done (length (mine s.tcbs socket l)) s
  unfolding count_of
  count_of-mine [] h = refl
  count_of-mine (p ∷ ps) h = elim (Bool-cases (h.0.0.socket == socket)) [
    | inl e ↦ rw (mine, h.0.1, count_of-mine ps h.1, e) refl
    | inr e ↦ rw (mine, h.0.1, count_of-mine ps h.1, e) refl
  ]

-- Every pointer of the lists that the programs share leads to a thread.
pub record IsLive {F : Type 0} (s : Suse F) : Type 0 where
  pub news : AllLive s.tcbs s.new_list
  pub blockeds : AllLive s.tcbs s.blocked_list
  pub exits : AllLive s.tcbs s.exit_list

pub record IsCounted {F : Type 0} (p socket : ℕ) (s : Suse F) : Type 0 where
  pub found : List ℕ
  pub news : ℕ
  pub blockeds : ℕ
  pub exits : ℕ
  pub finds : find_all_my_shared_threads p s ≡ done found s
  pub filtered :
      found
      ≡ mine s.tcbs socket s.new_list
        ++ mine s.tcbs socket s.blocked_list
        ++ mine s.tcbs socket s.exit_list
  pub size_new : get_list_size_for p new s ≡ done (pos news) s
  pub size_blocked : get_list_size_for p blocked s ≡ done (pos blockeds) s
  pub size_exit : get_list_size_for p exit s ≡ done (pos exits) s
  pub counted : length found ≡ news + blockeds + exits

-- find_all_my_shared_threads gives the program's threads of the new, blocked and exit lists, in
-- this order, and they are exactly as many as get_list_size_for counts in the three lists. Every
-- pointer of the lists leads to a thread.
pub find_all_my_shared_threads-IsCounted :
    {F : Type 0} (s : Suse F) (p : ℕ) (g : Program)
    → s.programs p ≡ some g
    → IsLive s
    → IsCounted p g.socket s
unfolding find_all_my_shared_threads get_list_size_for
find_all_my_shared_threads-IsCounted s p g here live = record {
  found =
      mine s.tcbs g.socket s.new_list
      ++ mine s.tcbs g.socket s.blocked_list
      ++ mine s.tcbs g.socket s.exit_list;
  news = length (mine s.tcbs g.socket s.new_list);
  blockeds = length (mine s.tcbs g.socket s.blocked_list);
  exits = length (mine s.tcbs g.socket s.exit_list);
  finds =
      rw
        (
          here,
          threads_of-mine s g.socket s.new_list live.news,
          threads_of-mine s g.socket s.blocked_list live.blockeds,
          threads_of-mine s g.socket s.exit_list live.exits,
        )
        refl;
  filtered = refl;
  size_new = rw (here, count_of-mine s g.socket s.new_list live.news) refl;
  size_blocked = rw (here, count_of-mine s g.socket s.blocked_list live.blockeds) refl;
  size_exit = rw (here, count_of-mine s g.socket s.exit_list live.exits) refl;
  counted = omega (
    arith,
    length-append (mine s.tcbs g.socket s.new_list ++ mine s.tcbs g.socket s.blocked_list)
        (mine s.tcbs g.socket s.exit_list),
    length-append (mine s.tcbs g.socket s.new_list) (mine s.tcbs g.socket s.blocked_list),
  );
}
