-- ===== src/Suse/Reach.antt =====
-- What the scheduler's loops reach: sequences of turns, of any programs in any order.
use locomatch.Prelude.{ℕ, ◌≡◌, Bool, subst}
use locomatch.Suse.State.{Suse}
use locomatch.Suse.Monad.{done, waits}
use locomatch.Suse.Timing.{Env, F}
use locomatch.Suse.Turns.{long_term_turn, short_term_turn}
use locomatch.Suse.Keeps.{Ensures}
use locomatch.Suse.Keeps.Requests.{TurnRules}
use locomatch.Suse.Keeps.Turns.{Keeps-long_term_turn, Keeps-short_term_turn}
use locomatch.Protocol.Codes.{Pedido}

-- A turn of a loop of the scheduler, by any thread: it ends, or its thread waits in the state that
-- it has reached.
pub data Turn (env : Env) : Suse (F env) → Suse (F env) → Type 0 where
  short_term :
      (endsuse : Bool) (fuel p : ℕ) (pedido : Pedido) {s t : Suse (F env)}
      → short_term_turn env endsuse fuel p pedido s ≡ done tt t
      → Turn env s t
  short_term_waits :
      (endsuse : Bool) (fuel p : ℕ) (pedido : Pedido) {s t : Suse (F env)}
      → short_term_turn env endsuse fuel p pedido s ≡ waits t
      → Turn env s t
  long_term :
      (endsuse : Bool) {s t : Suse (F env)}
      → long_term_turn env endsuse s ≡ done tt t
      → Turn env s t
  long_term_waits :
      (endsuse : Bool) {s t : Suse (F env)} → long_term_turn env endsuse s ≡ waits t → Turn env s t

pub data Turns (env : Env) (s : Suse (F env)) : Suse (F env) → Type 0 where
  here : Turns env s s
  next : {t u : Suse (F env)} → Turns env s t → Turn env t u → Turns env s u

module _ {env : Env} {P : Suse (F env) → Type 0} (r : TurnRules env P P) where
  pub Turn-keeps : {s t : Suse (F env)} → Turn env s t → P s → P t
  Turn-keeps {s} (short_term endsuse fuel p pedido e) h =
      subst (Ensures P P) e ((Keeps-short_term_turn r endsuse fuel p pedido).run s h)
  Turn-keeps {s} (short_term_waits endsuse fuel p pedido e) h =
      subst (Ensures P P) e ((Keeps-short_term_turn r endsuse fuel p pedido).run s h)
  Turn-keeps {s} (long_term endsuse e) h =
      subst (Ensures P P) e ((Keeps-long_term_turn r endsuse).run s h)
  Turn-keeps {s} (long_term_waits endsuse e) h =
      subst (Ensures P P) e ((Keeps-long_term_turn r endsuse).run s h)

  pub Turns-keeps : {s t : Suse (F env)} → Turns env s t → P s → P t
  Turns-keeps here h = h
  Turns-keeps (next ts t) h = Turn-keeps t (Turns-keeps ts h)
