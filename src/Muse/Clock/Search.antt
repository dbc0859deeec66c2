-- ===== src/Muse/Clock/Search.antt =====
-- What the search passes of clockModif find.
use locomatch.Prelude.{
  ℕ, zero, suc, ◌<◌, ◌≡◌, refl, ◌⊎◌, inl, inr, Bool, true, false, none, some, arith, get_elem?,
  get_elem?-lt, length, Bool-cases,
}
use locomatch.Muse.Frames.{Frame, Frames}
use locomatch.Muse.Clock.Ring.{next-lt, steps}
use locomatch.Muse.Clock.Passes.{increase_clock_pointer, search_pass}

-- The table has a frame for each number, and the pointer is one of them.
pub record IsWound (m : Frames) : Type 0 where
  pub sized : length m.bitmap ≡ m.cant_frames
  pub pointed : m.clock_pointer < m.cant_frames

-- The frame at a position is there and has a property.
abbrev pub At : Frames → ℕ → (Frame → Type 0) → Type 0
At m j P = (f : Frame) × (get_elem? m.bitmap j ≡ some f) × P f

abbrev pub met : Frames → ℕ → ℕ
met m k = steps m.cant_frames m.clock_pointer k

pub increase-IsWound : (m : Frames) → IsWound m → IsWound (increase_clock_pointer m)
unfolding increase_clock_pointer
increase-IsWound m w = record {
  sized = w.sized;
  pointed = next-lt m.cant_frames m.clock_pointer w.pointed;
}

-- A search pass stops at the first frame that passes its test, or turns by all its rounds.
abbrev pub Searched : (Frame → Bool) → ℕ → Frames → Type 0
Searched test rounds m =
    ((k : ℕ) × (k < rounds)
      × At m (met m k) (λ f. test f ≡ true)
      × ((i : ℕ) → i < k → At m (met m i) (λ f. test f ≡ false))
      × (search_pass test rounds m
          ≡ some (some (met m k), record m { clock_pointer = met m (suc k) })))
    ⊎ (((i : ℕ) → i < rounds → At m (met m i) (λ f. test f ≡ false))
        × (search_pass test rounds m ≡ some (none, record m { clock_pointer = met m rounds })))

pub search_pass-Searched :
    (test : Frame → Bool) (rounds : ℕ) (m : Frames) → IsWound m → Searched test rounds m
unfolding search_pass steps increase_clock_pointer
search_pass-Searched test zero m w = inr ((λ i h. elim h [ ]), refl)
search_pass-Searched test (suc rounds) m w =
    let (f, at) = get_elem?-lt m.bitmap m.clock_pointer (omega (arith, w.sized, w.pointed)) in
    elim (Bool-cases (test f)) [
      | inl hit ↦ inl (0, omega arith, (f, at, hit), (λ i h. elim h [ ]), rw at (rw hit))
      | inr miss ↦ elim (search_pass-Searched test rounds _ (increase-IsWound m w)) [
        | inl (k, below, found, before, e) ↦
            inl (suc k, omega arith, found, prepend k f at miss before, rw at (rw miss e))
        | inr (missed, e) ↦ inr (prepend rounds f at miss missed, rw at (rw miss e))
      ]
    ]
  where
    prepend :
        (n : ℕ) (f : Frame)
        → get_elem? m.bitmap m.clock_pointer ≡ some f
        → test f ≡ false
        → ((i : ℕ) → i < n → At m (met m (suc i)) (λ f. test f ≡ false))
        → (i : ℕ) → i < suc n
        → At m (met m i) (λ f. test f ≡ false)
    prepend n f at miss missed zero h = (f, at, miss)
    prepend n f at miss missed (suc i) h = missed i (omega arith)
