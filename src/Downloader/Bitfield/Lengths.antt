-- ===== src/Downloader/Bitfield/Lengths.antt =====
-- The bytes of a piece that are done and those that are missing, block by block.
use afd.Prelude.{
  ℕ, zero, suc, ◌+◌, ◌-◌, ◌*◌, ◌/◌, ◌%◌, ◌≤◌, ◌<◌, ◌≡◌, refl, ◌↔◌, ap, ◌∙◌, Bool, true, arith,
  if◌then◌else◌, ◌==◌, Bool-cases, inl, inr, sum_from, pos,
}
use afd.Downloader.Bitfield.{
  BitfieldMan, is_bit_set, block_length_at, completed_length, remaining_length, is_all_bit_set,
}
use afd.Downloader.Bitfield.Invariant.{WellFormed, is_all_bit_set_iff}

-- The bitmap has the number of blocks that `NewPiece` computes for a piece that is not empty.
pub record Covers (b : BitfieldMan) : Type 0 where
  pub block_pos : 0 < b.block_length
  pub total_pos : 0 < b.total_length
  pub ceiling :
      b.num_blocks
      ≡ b.total_length / b.block_length + (if b.total_length % b.block_length == 0 then 0 else 1)

sum_from-const :
    (n i c : ℕ) (f : ℕ → ℕ) → ((j : ℕ) → i ≤ j → j < i + n → f j ≡ c) → sum_from n i f ≡ n * c
unfolding sum_from
sum_from-const zero i c f h = omega arith
sum_from-const (suc n) i c f h =
    rw (h i (omega arith) (omega arith))
      (grind (arith, sum_from-const n (i + 1) c f (λ j a b. h j (omega arith) (omega arith))))

sum_from-last :
    (n i c : ℕ) (f : ℕ → ℕ)
    → ((j : ℕ) → i ≤ j → j < i + n → f j ≡ c)
    → sum_from (suc n) i f ≡ n * c + f (i + n)
unfolding sum_from
sum_from-last zero i c f h = let e : i + 0 ≡ i = omega arith in rw e (omega arith)
sum_from-last (suc n) i c f h =
    let e : i + 1 + n ≡ i + suc n = omega arith in
    let ih = sum_from-last n (i + 1) c f (λ j a b. h j (omega arith) (omega arith)) in
    rw (h i (omega arith) (omega arith)) (grind (arith, rw e at ih))

sum_from-split :
    (n i : ℕ) (p : ℕ → Bool) (f : ℕ → ℕ)
    → sum_from n i (λ j. if p j then f j else 0) + sum_from n i (λ j. if p j then 0 else f j)
      ≡ sum_from n i f
unfolding sum_from
sum_from-split zero i p f = refl
sum_from-split (suc n) i p f = ground (arith, sum_from-split n (i + 1) p f)

pred_mul : (q l : ℕ) → 0 < q → (q - 1) * l + l ≡ q * l
pred_mul zero l h = absurd (omega arith)
pred_mul (suc q) l h = let e : suc q - 1 ≡ q = omega arith in rw e (omega arith)

cover_by_last :
    (b : BitfieldMan) (m : ℕ)
    → b.num_blocks ≡ suc m
    → m * b.block_length
        + (if b.total_length % b.block_length == 0
            then b.block_length
            else b.total_length % b.block_length)
      ≡ b.total_length
    → sum_from b.num_blocks 0 (block_length_at b) ≡ b.total_length
unfolding block_length_at
cover_by_last b m e h =
    let last = sum_from-last m 0 b.block_length (block_length_at b) (λ j _ l. ground (arith, e)) in
    let top : 0 + m ≡ m = omega arith in
    ap (λ n. sum_from n 0 (block_length_at b)) e ∙ rw top at last ∙ ground (arith, e, h)

-- The blocks add up to the piece: no byte is left out and none is in two blocks.
pub block_lengths_cover :
    (b : BitfieldMan) → Covers b → sum_from b.num_blocks 0 (block_length_at b) ≡ b.total_length
block_lengths_cover b c = elim (Bool-cases (r == 0)) [
  | inl even ↦
      cover_by_last b (q - 1) (ground (arith, c.ceiling, c.total_pos, whole))
        (ground (arith, c.total_pos, whole, pred_mul q b.block_length))
  | inr odd ↦ cover_by_last b q (ground (arith, c.ceiling)) (ground (arith, whole))
]
  where
    q : ℕ
    q = b.total_length / b.block_length

    r : ℕ
    r = b.total_length % b.block_length

    whole : q * b.block_length + r ≡ b.total_length
    whole = omega (arith, c.block_pos)

pub completed_length-le : (b : BitfieldMan) → Covers b → completed_length b ≤ b.total_length
unfolding completed_length
completed_length-le b c = omega (
  arith,
  sum_from-split b.num_blocks 0 (is_bit_set b) (block_length_at b),
  block_lengths_cover b c,
)

sum_from-ge : (n i k : ℕ) (f : ℕ → ℕ) → i ≤ k → k < i + n → f k ≤ sum_from n i f
unfolding sum_from
sum_from-ge zero i k f a b = absurd (omega arith)
sum_from-ge (suc n) i k f a b = elim (Bool-cases (i == k)) [
  | inl same ↦ let e : i ≡ k = ground arith in rw e (omega arith)
  | inr other ↦ omega (arith, sum_from-ge n (i + 1) k f (ground arith) (omega arith))
]

block_length_at_pos : (b : BitfieldMan) (i : ℕ) → Covers b → 0 < block_length_at b i
unfolding block_length_at
block_length_at_pos b i c = ground (arith, c.block_pos)

-- The bytes that `RemainingLength` reports are those of the blocks that are not done.
pub remaining_length_lem :
    (b : BitfieldMan)
    → Covers b
    → remaining_length b
      ≡ pos (sum_from b.num_blocks 0 (λ i. if is_bit_set b i then 0 else block_length_at b i))
unfolding remaining_length completed_length
remaining_length_lem b c = ground (
  arith,
  sum_from-split b.num_blocks 0 (is_bit_set b) (block_length_at b),
  block_lengths_cover b c,
)

-- For a well-formed bitfield whose blocks cover the length, `RemainingLength` is 0 exactly when `IsAllBitSet`
-- holds.
pub remaining-zero_iff :
    (b : BitfieldMan)
    → WellFormed b
    → Covers b
    → (remaining_length b ≡ pos 0) ↔ (is_all_bit_set b ≡ true)
remaining-zero_iff b wf c = (
  λ h. (is_all_bit_set_iff b wf).1 (λ i l. all_done h i l),
  λ h.
      remaining_length_lem b c
      ∙ ap pos (
          sum_from-const b.num_blocks 0 0 _
            (λ j _ l. rw ((is_all_bit_set_iff b wf).0 h j (omega arith)))
          ∙ omega arith),
)
  where
    missing : ℕ → ℕ
    missing i = if is_bit_set b i then 0 else block_length_at b i

    all_done : remaining_length b ≡ pos 0 → (i : ℕ) → i < b.num_blocks → is_bit_set b i ≡ true
    all_done h i l = ground (
      arith,
      remaining_length_lem b c,
      sum_from-ge b.num_blocks 0 i missing (omega arith) (omega arith),
      block_length_at_pos b i c,
    )

pub completed-total_iff :
    (b : BitfieldMan)
    → WellFormed b
    → Covers b
    → (completed_length b ≡ b.total_length) ↔ (is_all_bit_set b ≡ true)
completed-total_iff b wf c = (
  λ h. (remaining-zero_iff b wf c).0 (by_zero h),
  λ h. from_zero ((remaining-zero_iff b wf c).1 h),
)
  where
    by_zero : completed_length b ≡ b.total_length → remaining_length b ≡ pos 0
    by_zero h = unfold remaining_length in ground arith

    from_zero : remaining_length b ≡ pos 0 → completed_length b ≡ b.total_length
    from_zero h = unfold remaining_length in ground (arith, h, completed_length-le b c)
