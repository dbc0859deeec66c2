-- ===== src/Suse/Tests/Waking.antt =====
-- A program with three blocked threads on its wakeup list.
use locomatch.Prelude.{
  ℕ, ◌≡◌, inl, inr, refl, sym, ap, subst, ◌∙◌, true, false, [], ◌∷◌, none, some, arith,
}
use locomatch.Prelude.Int.{pos}
use locomatch.Suse.State.{blocked, Tcb, Program, Suse, update}
use locomatch.Suse.Monad.{done}
use locomatch.Suse.Lookup.{find_program}
use locomatch.Suse.Wakeup.{wakeup_threads}
use locomatch.Suse.Waking.Listed.{IsIn, AreLive}
use locomatch.Suse.Waking.Turn.{Apart, IsAwaking}
use locomatch.Suse.Waking.Woken.{IsHalved, wakeup_threads-IsHalved}
use locomatch.Suse.Tests.{entorno}
use locomatch.Suse.Tests.Reports.{hilo_de}

abbrev en_espera : Program
en_espera = record {
  id = 1;
  socket = 9;
  ready = [];
  exec = none;
  main_loaded_mutex = false;
  tcb_counter = 0;
  wakeup_mutex = false;
  wakeup_list = 0 ∷ 1 ∷ 2 ∷ [];
  close = false;
}

abbrev dormidos : Suse ℕ
dormidos = record {
  tcbs =
      update (update (update (λ p. none) 0 (hilo_de 9 0 blocked)) 1 (hilo_de 9 1 blocked)) 2
        (hilo_de 9 2 blocked);
  next_tcb = 3;
  programs = update (λ p. none) 0 en_espera;
  clientes = 0 ∷ [];
  semaforos = [];
  new_list = [];
  blocked_list = 0 ∷ 1 ∷ 2 ∷ [];
  exit_list = [];
  multiprog_degree = pos 0;
  available_multiprog = 2;
  new_counter = 0;
  state_list_mutex = false;
  ticks = 0;
  sent = [];
}

dormidos-AreLive : AreLive dormidos.tcbs dormidos.blocked_list
dormidos-AreLive q (inl e) = (hilo_de 9 0 blocked, rw (sym e) refl)
dormidos-AreLive q (inr (inl e)) = (hilo_de 9 1 blocked, rw (sym e) refl)
dormidos-AreLive q (inr (inr (inl e))) = (hilo_de 9 2 blocked, rw (sym e) refl)
dormidos-AreLive q (inr (inr (inr h))) = absurd h

zero-Apart : (r : ℕ) → IsIn r (2 ∷ []) → Apart entorno 0 dormidos 0 r
zero-Apart r (inl two) t u e e' same =
    let there : some (hilo_de 9 2 blocked) ≡ some u =
      subst (λ (n : ℕ). dormidos.tcbs n ≡ some u) (sym two) e' in
    let first : hilo_de 9 0 blocked ≡ t = cc in
    let second : hilo_de 9 2 blocked ≡ u = cc in
    let ids : 0 ≡ 2 =
      ap (λ (h : Tcb ℕ). h.tid) first ∙ same ∙ sym (ap (λ (h : Tcb ℕ). h.tid) second) in
    omega (arith, ids)
zero-Apart r (inr h) t u e e' same = absurd h

dormidos-IsAwaking : IsAwaking entorno 0 dormidos en_espera (0 ∷ 2 ∷ [])
unfolding find_program
dormidos-IsAwaking = record {
  free = refl;
  program = refl;
  found = refl;
  live = dormidos-AreLive;
  waiting = (
    record {
      thread = hilo_de 9 0 blocked;
      there = refl;
      state = refl;
      own = refl;
      listed = inl refl;
    },
    zero-Apart,
    (
      record {
        thread = hilo_de 9 2 blocked;
        there = refl;
        state = refl;
        own = refl;
        listed = inr (inr (inl refl));
      },
      (λ r h. absurd h),
      tt,
    ),
  );
}

wakeup_threads-IsHalved_example :
    (s' : Suse ℕ) × (wakeup_threads entorno 0 dormidos ≡ done true s')
    × IsHalved entorno 0 dormidos s' en_espera
wakeup_threads-IsHalved_example =
    wakeup_threads-IsHalved entorno 0 dormidos en_espera 0 (1 ∷ 2 ∷ []) refl refl dormidos-IsAwaking
