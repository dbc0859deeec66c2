-- ===== src/Sac/Server/Loops.antt =====
-- The loops of action_read and action_write that find the block of an offset.
use locomatch.Prelude.{
  ℕ, suc, zero, ◌+◌, ◌-◌, ◌*◌, ◌/◌, ◌%◌, ◌≡◌, ◌≤◌, ◌<◌, ◌∙◌, true, false, arith, ltb, leb,
  Bool-cases, inl, inr, ltb→lt, ltb→le,
}
use locomatch.Sac.Blocks.{block_size}
use locomatch.Sac.Server.Read.{skip_blocks}
use locomatch.Sac.Server.Write.{advance}

pair_eq : (a a' b b' : ℕ) → a ≡ a' → b ≡ b' → Path (ℕ × ℕ) (a, b) (a', b')
pair_eq a a' b b' p q = λ i. (p i, q i)

-- The loop of action_write divides the offset by the size of a block, and never runs out of rounds
-- when there are as many as the offset says.
pub advance_eq :
    (rounds offset_d block_position : ℕ)
    → offset_d ≤ rounds
    → advance rounds offset_d block_position ≡ (block_position + offset_d / 4096, offset_d % 4096)
unfolding advance
advance_eq zero offset_d p h =
    pair_eq p (p + offset_d / 4096) offset_d (offset_d % 4096) (omega arith) (omega arith)
advance_eq (suc rounds) offset_d p h = elim (Bool-cases (leb block_size offset_d)) [
  | inl more ↦ rw more (
      advance_eq rounds (offset_d - block_size) (p + 1) (omega arith)
      ∙ pair_eq _ _ _ _ (position (ltb-leb more)) (remainder (ltb-leb more)))
  | inr last ↦ rw last (pair_eq _ _ _ _ (omega (arith, leb→gt last)) (omega (arith, leb→gt last)))
]
  where
    ltb-leb : leb block_size offset_d ≡ true → block_size ≤ offset_d
    ltb-leb more = ground arith

    leb→gt : leb block_size offset_d ≡ false → offset_d < block_size
    leb→gt last = ground arith

    position : block_size ≤ offset_d → p + 1 + (offset_d - block_size) / 4096 ≡ p + offset_d / 4096
    position more = omega arith

    remainder : block_size ≤ offset_d → (offset_d - block_size) % 4096 ≡ offset_d % 4096
    remainder more = omega arith

-- The loop of action_read stays in the first block for an offset of 0 and stops at the end of a
-- block for a positive multiple of its size, and never runs out of rounds when there are as many as
-- the offset says.
pub skip_blocks_eq :
    (rounds offset_d i : ℕ)
    → offset_d ≤ rounds
    → skip_blocks rounds offset_d i
      ≡ (i + (offset_d - 1) / 4096, offset_d - (offset_d - 1) / 4096 * 4096)
unfolding skip_blocks
skip_blocks_eq zero offset_d i h = pair_eq _ _ _ _ (omega arith) (omega arith)
skip_blocks_eq (suc rounds) offset_d i h = elim (Bool-cases (ltb block_size offset_d)) [
  | inl more ↦ rw more (
      skip_blocks_eq rounds (offset_d - block_size) (i + 1) (omega arith)
      ∙ pair_eq _ _ _ _ (position (ltb→lt block_size offset_d more))
          (remainder (ltb→lt block_size offset_d more)))
  | inr last ↦ rw last (
      pair_eq _ _ _ _ (omega (arith, ltb→le block_size offset_d last))
        (omega (arith, ltb→le block_size offset_d last)))
]
  where
    position :
        block_size < offset_d
        → i + 1 + (offset_d - block_size - 1) / 4096 ≡ i + (offset_d - 1) / 4096
    position more = omega arith

    remainder :
        block_size < offset_d
        → offset_d - block_size - (offset_d - block_size - 1) / 4096 * 4096
          ≡ offset_d - (offset_d - 1) / 4096 * 4096
    remainder more = omega arith
