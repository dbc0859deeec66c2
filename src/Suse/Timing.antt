-- ===== src/Suse/Timing.antt =====
-- The timings of a thread: create_burst, get_estimate, get_estimate_with_burst,
-- set_state_start_timing, set_new_timings_for, get_last_burst_for, get_total_for,
-- get_ms_difference_between.
use locomatch.Prelude.{ℕ, suc}
use locomatch.Prelude.Int.{pos, ◌-ℤ◌}
use locomatch.Suse.Floats.{Floats}
use locomatch.Suse.State.{ThreadState, ready, exec, TimeVal, Burst}
use locomatch.Suse.Monad.{M, done, ◌>>=◌, return, crash}

-- What the scheduler runs in: the arithmetic of its floats, the clock that gettimeofday reads at
-- each call, the factor alpha_sjf of the configuration, and what a fresh t_burst holds.
pub record Env : Type 1 where
  pub floats : Floats
  pub open floats use {Float}
  pub time_at : ℕ → TimeVal
  pub alpha_sjf : Float
  pub uninitialised : Burst Float

module _ (env : Env) where
  open env use {floats, time_at, alpha_sjf}
  open env.floats use {Float, of_int, add, sub, mul, div}

  abbrev pub F : Type 0
  F = Float

  abbrev pub float_zero : F
  float_zero = of_int (pos 0)

  unfoldable pub gettimeofday : M F TimeVal
  gettimeofday s = done (time_at s.ticks) (record s { ticks = suc s.ticks })

  unfoldable pub get_ms_difference_between : TimeVal → TimeVal → F
  get_ms_difference_between start end =
      add (mul (of_int (end.tv_sec -ℤ start.tv_sec)) (of_int (pos 1000)))
        (div (of_int (end.tv_usec -ℤ start.tv_usec)) (of_int (pos 1000)))

  unfoldable pub create_burst : M F (Burst F)
  create_burst = do
    created ← gettimeofday
    return (record env.uninitialised {
      last_burst = float_zero;
      last_estimate = float_zero;
      total_exec = float_zero;
      total_ready = float_zero;
      created = created;
    })

  unfoldable pub get_estimate_with_burst : Burst F → F → F
  get_estimate_with_burst burst last_burst =
      add (mul alpha_sjf last_burst) (mul (sub (of_int (pos 1)) alpha_sjf) burst.last_estimate)

  unfoldable pub get_estimate : Burst F → F
  unfolding get_estimate_with_burst
  get_estimate burst = get_estimate_with_burst burst burst.last_burst

  unfoldable pub set_state_start_timing : ThreadState → Burst F → M F (Burst F)
  set_state_start_timing ready timings = do
    now ← gettimeofday
    return (record timings { ready_start = now })
  set_state_start_timing exec timings = do
    now ← gettimeofday
    return (record timings { exec_start = now })
  set_state_start_timing _ timings = return timings

  unfoldable pub set_new_timings_for : ThreadState → Burst F → M F (Burst F)
  set_new_timings_for ready timings = do
    now ← gettimeofday
    let difference = get_ms_difference_between timings.ready_start now
    return (record timings { ready_end = now; total_ready = add timings.total_ready difference })
  set_new_timings_for exec timings = do
    now ← gettimeofday
    let burst = get_ms_difference_between timings.exec_start now
    return (record timings {
      exec_end = now;
      last_burst = burst;
      total_exec = add timings.total_exec burst;
    })
  set_new_timings_for _ timings = return timings

  unfoldable pub get_last_burst_for : ThreadState → Burst F → M F F
  get_last_burst_for state timings = do
    now ← gettimeofday
    return (elim state [
      | ready ↦ get_ms_difference_between timings.ready_start now
      | exec ↦ get_ms_difference_between timings.exec_start now
      | _ ↦ float_zero
    ])

  -- Any other state leaves the total uninitialised, and the caller's use of it undefined.
  unfoldable pub get_total_for : ThreadState → Burst F → M F F
  unfolding get_last_burst_for
  get_total_for ready timings = do
    last ← get_last_burst_for ready timings
    return (add last timings.total_ready)
  get_total_for exec timings = do
    last ← get_last_burst_for exec timings
    return (add last timings.total_exec)
  get_total_for _ timings = crash
