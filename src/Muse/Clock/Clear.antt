-- ===== src/Muse/Clock/Clear.antt =====
-- What the second pass of clockModif finds and clears.
use locomatch.Prelude.{
  ℕ, zero, suc, ◌≤◌, ◌<◌, ◌≡◌, ◌≢◌, refl, sym, ap, ◌∙◌, ◌⊎◌, inl, inr, true, false, none, some,
  arith, get_elem?, get_elem?-lt, get_elem?-set_self, get_elem?-set_ne, length, length-set, set,
  Bool-cases,
}
use locomatch.Muse.Frames.{Frame, Frames}
use locomatch.Muse.Clock.Ring.{next, next-lt, steps, steps_ne}
use mathlib.Core.Option
use locomatch.Muse.Clock.Search.{IsWound, At, met}
use locomatch.Muse.Clock.Passes.{increase_clock_pointer, dirty, clear_used, clear_pass}

-- The second pass turned by all its rounds: it met no dirty frame, and cleared the use bit of
-- each frame that it met and of no other.
pub record Cleared (rounds : ℕ) (m m' : Frames) : Type 0 where
  pub none_dirty : (i : ℕ) → i < rounds → At m (met m i) (λ f. dirty f ≡ false)
  pub same_count : m'.cant_frames ≡ m.cant_frames
  pub turned : m'.clock_pointer ≡ met m rounds
  pub same_length : length m'.bitmap ≡ length m.bitmap
  pub untouched :
      (j : ℕ) → ((i : ℕ) → i < rounds → met m i ≢ j) → get_elem? m'.bitmap j ≡ get_elem? m.bitmap j
  pub cleared :
      (i : ℕ) (f : Frame)
      → i < rounds
      → get_elem? m.bitmap (met m i) ≡ some f
      → get_elem? m'.bitmap (met m i) ≡ some (record f { used = 0 })

-- The second pass stopped at a dirty frame.
pub record Stopped (rounds : ℕ) (m m' : Frames) (v : ℕ) : Type 0 where
  pub count : ℕ
  pub within : count < rounds
  pub position : v ≡ met m count
  pub before : (i : ℕ) → i < count → At m (met m i) (λ f. dirty f ≡ false)
  pub is_dirty : At m v (λ f. dirty f ≡ true)
  pub moved : m'.clock_pointer ≡ met m (suc count)
  pub kept_count : m'.cant_frames ≡ m.cant_frames
  pub kept_length : length m'.bitmap ≡ length m.bitmap

abbrev pub ClearOutcome : ℕ → Frames → Type 0
ClearOutcome rounds m =
    ((m' : Frames) × (v : ℕ) × Stopped rounds m m' v × (clear_pass rounds m ≡ some (some v, m')))
    ⊎ ((m' : Frames) × Cleared rounds m m' × (clear_pass rounds m ≡ some (none, m')))

-- One turn of the second pass, over a frame that is not dirty.
module _ (rounds : ℕ) (m : Frames) (w : IsWound m) (b : suc rounds ≤ m.cant_frames) (f : Frame)
    (at : get_elem? m.bitmap m.clock_pointer ≡ some f) (miss : dirty f ≡ false) where
  abbrev turn : Frames
  turn = record m {
    bitmap = set m.bitmap m.clock_pointer (record f { used = 0 });
    clock_pointer = next m.cant_frames m.clock_pointer;
  }

  -- The positions that follow are others, so they are as they were.
  elsewhere :
      (i : ℕ) → i < rounds → get_elem? turn.bitmap (met turn i) ≡ get_elem? m.bitmap (met m (suc i))
  unfolding steps
  elsewhere i h =
      get_elem?-set_ne m.bitmap m.clock_pointer (met m (suc i)) (record f { used = 0 })
        (λ e.
          steps_ne m.cant_frames m.clock_pointer (suc i) w.pointed (omega arith) (omega arith)
            (sym e))

  at_pointer : get_elem? turn.bitmap m.clock_pointer ≡ some (record f { used = 0 })
  at_pointer = get_elem?-set_self m.bitmap m.clock_pointer _ (omega (arith, w.sized, w.pointed))

  turn-IsWound : IsWound turn
  turn-IsWound = record {
    sized = length-set m.bitmap m.clock_pointer _ ∙ w.sized;
    pointed = next-lt m.cant_frames m.clock_pointer w.pointed;
  }

  missed_later :
      (n : ℕ)
      → n ≤ rounds
      → ((i : ℕ) → i < n → At turn (met turn i) (λ g. dirty g ≡ false))
      → (i : ℕ) → i < suc n
      → At m (met m i) (λ g. dirty g ≡ false)
  unfolding steps
  missed_later n k missed zero h = (f, at, miss)
  missed_later n k missed (suc i) h =
      let (g, there, d) = missed i (omega arith) in (g, sym (elsewhere i (omega arith)) ∙ there, d)

  Stopped-later : (m' : Frames) (v : ℕ) → Stopped rounds turn m' v → Stopped (suc rounds) m m' v
  unfolding steps
  Stopped-later m' v s = record {
    count = suc s.count;
    within = omega (arith, s.within);
    position = s.position;
    before = missed_later s.count (omega (arith, s.within)) s.before;
    is_dirty =
        let (g, there, d) = s.is_dirty in
        (
          g,
          ap (get_elem? m.bitmap) s.position
              ∙ sym (elsewhere s.count s.within)
              ∙ ap (get_elem? turn.bitmap) (sym s.position)
              ∙ there,
          d,
        );
    moved = s.moved;
    kept_count = s.kept_count;
    kept_length = s.kept_length ∙ length-set m.bitmap m.clock_pointer _;
  }

  Cleared-at_later :
      (m' : Frames)
      → Cleared rounds turn m'
      → (i : ℕ) (g : Frame) → i < suc rounds
      → get_elem? m.bitmap (met m i) ≡ some g
      → get_elem? m'.bitmap (met m i) ≡ some (record g { used = 0 })
  unfolding steps
  Cleared-at_later m' c zero g h e =
      c.untouched m.clock_pointer (λ i b'.
        steps_ne m.cant_frames m.clock_pointer (suc i) w.pointed (omega arith) (omega arith))
      ∙ at_pointer
      ∙ ap (Option.map (λ (x : Frame). record x { used = 0 })) (sym at ∙ e)
  Cleared-at_later m' c (suc i) g h e = c.cleared i g (omega arith) (elsewhere i (omega arith) ∙ e)

  Cleared-later : (m' : Frames) → Cleared rounds turn m' → Cleared (suc rounds) m m'
  unfolding steps
  Cleared-later m' c = record {
    none_dirty = missed_later rounds (omega arith) c.none_dirty;
    same_count = c.same_count;
    turned = c.turned;
    same_length = c.same_length ∙ length-set m.bitmap m.clock_pointer _;
    untouched = λ j h.
        c.untouched j (λ i b'. h (suc i) (omega arith))
        ∙ get_elem?-set_ne m.bitmap m.clock_pointer j (record f { used = 0 }) (h 0 (omega arith));
    cleared = Cleared-at_later m' c;
  }

pub clear_pass_outcome :
    (rounds : ℕ) (m : Frames) → IsWound m → rounds ≤ m.cant_frames → ClearOutcome rounds m
unfolding clear_pass clear_used increase_clock_pointer steps
clear_pass_outcome zero m w b = inr (m, nothing, refl)
  where
    nothing : Cleared 0 m m
    nothing = record {
      none_dirty = λ i h. elim h [ ];
      same_count = refl;
      turned = refl;
      same_length = refl;
      untouched = λ j h. refl;
      cleared = λ i f h. elim h [ ];
    }
clear_pass_outcome (suc rounds) m w b =
    let (f, at) = get_elem?-lt m.bitmap m.clock_pointer (omega (arith, w.sized, w.pointed)) in
    elim (Bool-cases (dirty f)) [
      | inl hit ↦ inl (increase_clock_pointer m, m.clock_pointer, here f at hit, rw at (rw hit))
      | inr miss ↦
          elim (clear_pass_outcome rounds (turn rounds m w b f at miss)
            (turn-IsWound rounds m w b f at miss) (omega arith)) [
              | inl (m', v, s, e) ↦
                  inl (m', v, Stopped-later rounds m w b f at miss m' v s, rw at (rw miss e))
              | inr (m', c, e) ↦
                  inr (m', Cleared-later rounds m w b f at miss m' c, rw at (rw miss e))
            ]
    ]
  where
    here :
        (f : Frame)
        → get_elem? m.bitmap m.clock_pointer ≡ some f
        → dirty f ≡ true
        → Stopped (suc rounds) m (increase_clock_pointer m) m.clock_pointer
    here f at hit = record {
      count = 0;
      within = omega arith;
      position = refl;
      before = λ i h. elim h [ ];
      is_dirty = (f, at, hit);
      moved = refl;
      kept_count = refl;
      kept_length = refl;
    }
