-- ===== src/Sac/Format/Cleaned.antt =====
-- The loop of format_bitmap_nodetable.
use locomatch.Prelude.{
  ℕ, zero, suc, ◌+◌, ◌*◌, ◌≡◌, ◌≤◌, ◌<◌, inl, inr, refl, ◌∙◌, subst, false, List, arith, length,
  ltb, ltb→lt, ltb→le, if◌then◌else◌, Bool-cases,
}
use locomatch.Sac.Blocks.{BitArray}
use locomatch.Sac.Format.{CleanBit, clean_from}

-- The bits from `i` up to `n` are clean, the others as before.
pub record Cleaned (b : BitArray) (bits cleaned : List ℕ) (i n : ℕ) : Type 0 where
  pub same_length : length cleaned ≡ length bits
  pub clean : (j : ℕ) → i ≤ j → j < n → b.test_bit cleaned j ≡ false
  pub below : (j : ℕ) → j < i → b.test_bit cleaned j ≡ b.test_bit bits j

module _ (b : BitArray) (c : CleanBit b) where
  -- One round.
  clean_one :
      (bits : List ℕ) (i : ℕ)
      → i < 8 * length bits
      → (cleaned : List ℕ) × (cleaned ≡ (if b.test_bit bits i then c.clean_bit bits i else bits))
        × Cleaned b bits cleaned i (i + 1)
  clean_one bits i h = elim (Bool-cases (b.test_bit bits i)) [
    | inl used ↦ (
      c.clean_bit bits i,
      rw used refl,
      record {
        same_length = c.length-clean_bit bits i;
        clean = λ j low high.
            let same : i ≡ j = omega (arith, low, high) in
            subst (λ (k : ℕ). b.test_bit (c.clean_bit bits i) k ≡ false) same
              (c.test_bit-clean_bit bits i h);
        below = λ j low. c.test_bit-clean_bit_ne bits i j (λ e. absurd (omega (arith, low, e)));
      },
    )
    | inr free ↦ (
      bits,
      rw free refl,
      record {
        same_length = refl;
        clean = λ j low high.
            let same : i ≡ j = omega (arith, low, high) in
            subst (λ (k : ℕ). b.test_bit bits k ≡ false) same free;
        below = λ j low. refl;
      },
    )
  ]

  pub clean_from-Cleaned :
      (rounds i : ℕ) (bits : List ℕ)
      → i + rounds ≤ 8 * length bits
      → Cleaned b bits (clean_from b c rounds i bits) i (i + rounds)
  unfolding clean_from
  clean_from-Cleaned zero i bits h = record {
    same_length = refl;
    clean = λ j low high. absurd (omega (arith, low, high));
    below = λ j low. refl;
  }
  clean_from-Cleaned (suc rounds) i bits h =
      let (cleaned, e, one) = clean_one bits i (omega (arith, h)) in
      let later = clean_from-Cleaned rounds (i + 1) cleaned (omega (arith, h, one.same_length)) in
      subst (λ (l : List ℕ). Cleaned b bits (clean_from b c rounds (i + 1) l) i (i + suc rounds)) e
        (record {
          same_length = later.same_length ∙ one.same_length;
          clean = λ j low high. elim (Bool-cases (ltb i j)) [
            | inl above ↦ later.clean j (omega (arith, ltb→lt i j above)) (omega (arith, high))
            | inr here ↦
                later.below j (omega (arith, ltb→le i j here))
                ∙ one.clean j low (omega (arith, ltb→le i j here))
          ];
          below = λ j low. later.below j (omega (arith, low)) ∙ one.below j low;
        })
