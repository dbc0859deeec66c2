-- ===== src/Muse/Clock/Victim.antt =====
-- The frame that clockModif chooses.
use locomatch.Prelude.{
  ℕ, zero, suc, ◌≤◌, ◌<◌, ◌≡◌, ◌≢◌, refl, sym, ap, ◌∙◌, inl, inr, true, false, none, some, arith,
  get_elem?, subst,
}
use locomatch.Prelude.Int.{pos}
use locomatch.Muse.Frames.{Frame, Frames}
use locomatch.Muse.Clock.Ring.{steps_closed, distance, steps-distance, steps-lt}
use locomatch.Muse.Clock.Passes.{clean, dirty, search_pass, clear_pass, clock_modif}
use locomatch.Muse.Clock.Search.{IsWound, At, met, Searched, search_pass-Searched}
use locomatch.Muse.Clock.Clear.{Cleared, clear_pass_outcome}

-- Every frame of the table has a property.
abbrev pub Every : Frames → (Frame → Type 0) → Type 0
Every m P = (j : ℕ) → j < m.cant_frames → At m j P

-- Why the frame `k` steps ahead of the pointer is chosen.
pub data Choice (m : Frames) (k : ℕ) : Type 0 where
  -- It is the first with U = 0 and M = 0.
  first_clean :
      At m (met m k) (λ f. clean f ≡ true)
      → ((i : ℕ) → i < k → At m (met m i) (λ f. clean f ≡ false))
      → Choice m k
  -- None is so, and it is the first with U = 0 and M = 1.
  first_dirty :
      Every m (λ f. clean f ≡ false)
      → At m (met m k) (λ f. dirty f ≡ true)
      → ((i : ℕ) → i < k → At m (met m i) (λ f. dirty f ≡ false))
      → Choice m k
  -- All are in use, and it is the first with M = 0.
  second_chance :
      Every m (λ f. 0 < f.used)
      → At m (met m k) (λ f. f.modif ≡ 0)
      → ((i : ℕ) → i < k → At m (met m i) (λ f. f.modif ≢ 0))
      → Choice m k
  -- All are in use and modified, and it is the one under the pointer.
  under_pointer : Every m (λ f. (0 < f.used) × (f.modif ≡ 1)) → k ≡ 0 → Choice m k

-- The modified bit is 0 or 1.
abbrev pub IsMarked : Frames → Type 0
IsMarked m = (j : ℕ) (f : Frame) → get_elem? m.bitmap j ≡ some f → f.modif ≤ 1

-- What clockModif returns and leaves behind.
pub record Victim (m m' : Frames) (k : ℕ) : Type 0 where
  pub within : k < m.cant_frames
  pub position : met m k < m.cant_frames
  pub why : Choice m k
  pub result : clock_modif m ≡ some (pos (met m k), m')
  pub pointer : m'.clock_pointer ≡ met m (suc k)
  pub kept : IsWound m'
  pub same_size : m'.cant_frames ≡ m.cant_frames

module _ (m : Frames) (w : IsWound m) where
  abbrev n : ℕ
  n = m.cant_frames

  full_turn : met m n ≡ m.clock_pointer
  full_turn = ground (arith, steps_closed n m.clock_pointer n, w.pointed)

  everywhere : (P : Frame → Type 0) → ((i : ℕ) → i < n → At m (met m i) P) → Every m P
  everywhere P all j h =
      let (near, there) = steps-distance n m.clock_pointer j w.pointed h in
      subst (λ (x : ℕ). At m x P) there (all (distance n m.clock_pointer j) near)

  position_lt : (k : ℕ) → met m k < n
  position_lt k = steps-lt n m.clock_pointer k w.pointed

  module _ (marked : IsMarked m) (miss : (i : ℕ) → i < n → At m (met m i) (λ f. clean f ≡ false))
      (m₂ : Frames) (c : Cleared n m m₂) where
    -- Neither clean nor dirty: in use.
    in_use : (i : ℕ) → i < n → At m (met m i) (λ f. 0 < f.used)
    in_use i h =
        let (f, there, not_clean) = miss i h in
        let (g, there', not_dirty) = c.none_dirty i h in
        (f, there, ground (arith, marked (met m i) f there))

    same_pointer : m₂.clock_pointer ≡ m.clock_pointer
    same_pointer = c.turned ∙ full_turn

    m₂-IsWound : IsWound m₂
    m₂-IsWound = record {
      sized = c.same_length ∙ w.sized ∙ sym c.same_count;
      pointed = omega (arith, same_pointer, c.same_count, w.pointed);
    }

    same_position : (i : ℕ) → met m₂ i ≡ met m i
    same_position i = rw (c.same_count, same_pointer)

    -- What the later passes see is the frame with its use bit cleared.
    seen :
        (i : ℕ) (P : Frame → Type 0)
        → i < n
        → At m₂ (met m₂ i) P
        → At m (met m i) (λ f. P (record f { used = 0 }))
    seen i P h (g, there, p) =
        let (f, was, _) = miss i h in
        let same : some g ≡ some (record f { used = 0 }) =
          sym there ∙ ap (get_elem? m₂.bitmap) (same_position i) ∙ c.cleared i f h was in
        let it : g ≡ record f { used = 0 } = cc in (f, was, subst P it p)

    modified :
        (i : ℕ)
        → i < n
        → At m₂ (met m₂ i) (λ f. clean f ≡ false)
        → At m (met m i) (λ f. f.modif ≢ 0)
    modified i h a = let (f, was, p) = seen i _ h a in (f, was, λ z. ground arith)

    -- The third pass found nothing either.
    module _ (miss₃ : (i : ℕ) → i < m₂.cant_frames → At m₂ (met m₂ i) (λ f. clean f ≡ false)) where
      spent : (i : ℕ) → i < n → At m (met m i) (λ f. (0 < f.used) × (f.modif ≡ 1))
      spent i h =
          let (f, was, p) = modified i h (miss₃ i (omega (arith, c.same_count))) in
          let (g, was', u) = in_use i h in
          (f, was, (ground (arith, marked (met m i) f was), ground (arith, marked (met m i) f was)))

      not_missed : (i : ℕ) → i < n → At m₂ (met m₂ i) (λ f. dirty f ≡ false) → ⊥
      not_missed i h a =
          let (f, was, d) = seen i _ h a in let (g, was', p) = spent i h in ground arith

  -- All four passes turned to the end but the last, which stops where it starts.
  module _ (marked : IsMarked m) (m₂ : Frames) (c : Cleared n m m₂)
      (miss : (i : ℕ) → i < n → At m (met m i) (λ f. clean f ≡ false))
      (e₁ : search_pass clean n m ≡ some (none, m)) (e₂ : clear_pass n m ≡ some (none, m₂)) where
    abbrev after : ℕ → Frames
    after k = record m₂ { clock_pointer = met m₂ (suc k) }

    after-IsWound : (k : ℕ) → IsWound (after k)
    after-IsWound k = record {
      sized = (m₂-IsWound marked miss m₂ c).sized;
      pointed =
          omega (arith, same_position marked miss m₂ c (suc k), position_lt (suc k), c.same_count);
    }

    back : met m₂ m₂.cant_frames ≡ m₂.clock_pointer
    back =
        same_position marked miss m₂ c m₂.cant_frames
        ∙ rw c.same_count (full_turn ∙ sym (same_pointer marked miss m₂ c))

    after_third :
        (k : ℕ)
        → k < m₂.cant_frames
        → At m₂ (met m₂ k) (λ f. clean f ≡ true)
        → ((i : ℕ) → i < k → At m₂ (met m₂ i) (λ f. clean f ≡ false))
        → search_pass clean m₂.cant_frames m₂ ≡ some (some (met m₂ k), after k)
        → Victim m (after k) k
    unfolding clock_modif
    after_third k below found before e = record {
      within = omega (arith, below, c.same_count);
      position = position_lt k;
      why =
          second_chance (everywhere _ (in_use marked miss m₂ c))
            (let (f, was, z) = seen marked miss m₂ c k _ (omega (arith, c.same_count)) found in
              (f, was, ground arith))
            (λ i h. modified marked miss m₂ c i (omega (arith, c.same_count)) (before i h));
      result =
          rw e₁ (
            rw e₂
              (rw e (ap (λ (x : ℕ). some (pos x, after k)) (same_position marked miss m₂ c k))));
      pointer = same_position marked miss m₂ c (suc k);
      kept = after-IsWound k;
      same_size = c.same_count;
    }

    after_fourth :
        ((i : ℕ) → i < m₂.cant_frames → At m₂ (met m₂ i) (λ f. clean f ≡ false))
        → search_pass clean m₂.cant_frames m₂ ≡ some (none, m₂)
        → Searched dirty m₂.cant_frames m₂
        → (k : ℕ) × (m' : Frames) × Victim m m' k
    unfolding clock_modif
    after_fourth miss₃ e₃ (inl (zero, below, found, before, e)) = (
      0,
      after 0,
      record {
        within = omega (arith, w.pointed);
        position = position_lt 0;
        why = under_pointer (everywhere _ (spent marked miss m₂ c miss₃)) refl;
        result = rw e₁ (
            rw e₂ (
              rw e₃
                (rw e (ap (λ (x : ℕ). some (pos x, after 0)) (same_position marked miss m₂ c 0)))));
        pointer = same_position marked miss m₂ c 1;
        kept = after-IsWound 0;
        same_size = c.same_count;
      },
    )
    after_fourth miss₃ e₃ (inl (suc k, below, found, before, e)) =
        absurd
          (not_missed marked miss m₂ c miss₃ 0 (omega (arith, w.pointed)) (before 0 (omega arith)))
    after_fourth miss₃ e₃ (inr (missed, e)) = absurd (
        not_missed marked miss m₂ c miss₃ 0 (omega (arith, w.pointed))
          (missed 0 (omega (arith, w.pointed, c.same_count))))

    after_clear : (k : ℕ) × (m' : Frames) × Victim m m' k
    after_clear =
        let w₂ = m₂-IsWound marked miss m₂ c in
        elim (search_pass-Searched clean m₂.cant_frames m₂ w₂) [
          | inl (k, below, found, before, e) ↦ (k, after k, after_third k below found before e)
          | inr (miss₃, e) ↦
              after_fourth miss₃
                (e ∙ ap (λ (p : ℕ). some (none, record m₂ { clock_pointer = p })) back)
                (search_pass-Searched dirty m₂.cant_frames m₂ w₂)
        ]

  after_first :
      IsMarked m
      → ((i : ℕ) → i < n → At m (met m i) (λ f. clean f ≡ false))
      → search_pass clean n m ≡ some (none, m)
      → (k : ℕ) × (m' : Frames) × Victim m m' k
  unfolding clock_modif
  after_first marked miss e = elim (clear_pass_outcome n m w (omega arith)) [
    | inr (m₂, c, e₂) ↦ after_clear marked m₂ c miss e e₂
    | inl (m', v, s, e₂) ↦ (
      s.count,
      m',
      record {
        within = s.within;
        position = position_lt s.count;
        why =
            first_dirty (everywhere _ miss)
              (subst (λ (x : ℕ). At m x (λ f. dirty f ≡ true)) s.position s.is_dirty) s.before;
        result = rw e (rw e₂ (ap (λ (x : ℕ). some (pos x, m')) s.position));
        pointer = s.moved;
        same_size = s.kept_count;
        kept = record {
          sized = s.kept_length ∙ w.sized ∙ sym s.kept_count;
          pointed = omega (arith, s.moved, s.kept_count, position_lt (suc s.count));
        };
      },
    )
  ]

  -- clockModif always finds a victim inside the table and never returns -1, when the table is not
  -- empty, the pointer is in it and the modified bits are 0 or 1. The victim is the first clean
  -- frame from the pointer on; failing that the first with U = 0 and M = 1; failing that, so when
  -- all frames are in use, the first unmodified one; and if all are modified too, the one under
  -- the pointer. The pointer is left behind the victim and the table keeps its size.
  pub clock_modif-Victim : IsMarked m → (k : ℕ) × (m' : Frames) × Victim m m' k
  unfolding clock_modif
  clock_modif-Victim marked = elim (search_pass-Searched clean n m w) [
    | inl (k, below, found, before, e) ↦ (
      k,
      record m { clock_pointer = met m (suc k) },
      record {
        within = below;
        position = position_lt k;
        why = first_clean found before;
        result = rw e;
        pointer = refl;
        kept = record { sized = w.sized; pointed = position_lt (suc k) };
        same_size = refl;
      },
    )
    | inr (miss, e) ↦
        after_first marked miss
          (e ∙ ap (λ (p : ℕ). some (none, record m { clock_pointer = p })) full_turn)
  ]
