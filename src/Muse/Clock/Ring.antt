-- ===== src/Muse/Clock/Ring.antt =====
-- The positions that the clock's pointer goes through.
use locomatch.Prelude.{ℕ, zero, suc, ◌+◌, ◌-◌, ◌≤◌, ◌<◌, ◌≡◌, ◌≢◌, arith, ltb, if◌then◌else◌}

-- `clockPointer < cant_frames - 1`, with the 1 on the other side.
unfoldable pub next : ℕ → ℕ → ℕ
next cant p = if ltb (p + 1) cant then p + 1 else 0

-- The pointer after some steps.
unfoldable pub steps : ℕ → ℕ → ℕ → ℕ
steps cant p zero = p
steps cant p (suc k) = steps cant (next cant p) k

pub next-lt : (cant p : ℕ) → p < cant → next cant p < cant
unfolding next
next-lt cant p h = ground arith

-- In closed form: the pointer wraps once.
pub steps_closed :
    (cant p k : ℕ)
    → p < cant
    → k ≤ cant
    → steps cant p k ≡ (if ltb (p + k) cant then p + k else p + k - cant)
unfolding steps next
steps_closed cant p zero h b = ground arith
steps_closed cant p (suc k) h b = ground (arith, steps_closed cant (p + 1) k, steps_closed cant 0 k)

-- A round never meets the position that it began at.
pub steps_ne : (cant p k : ℕ) → p < cant → k < cant → 0 < k → steps cant p k ≢ p
steps_ne cant p k h b z = ground (arith, steps_closed cant p k)

-- The number of steps to a position.
unfoldable pub distance : ℕ → ℕ → ℕ → ℕ
distance cant p j = if ltb j p then cant - p + j else j - p

-- Every position is met within a round.
pub steps-distance :
    (cant p j : ℕ)
    → p < cant
    → j < cant
    → (distance cant p j < cant) × (steps cant p (distance cant p j) ≡ j)
unfolding distance
steps-distance cant p j h b =
    ground (arith, steps_closed cant p (cant - p + j), steps_closed cant p (j - p))

pub steps-lt : (cant p k : ℕ) → p < cant → steps cant p k < cant
unfolding steps
steps-lt cant p zero h = h
steps-lt cant p (suc k) h = steps-lt cant (next cant p) k (next-lt cant p h)
