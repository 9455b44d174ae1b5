-- ===== src/Downloader/Piece/Blocks.antt =====
-- Handing out the blocks of a piece, and marking them done.
use afd.Prelude.{
  ℕ, zero, suc, ◌+◌, ◌*◌, ◌/◌, ◌%◌, ◌≤◌, ◌<◌, ◌≡◌, refl, ap, ◌∙◌, ◌≢◌, ◌↔◌, ◌⊎◌, true, false, not,
  ◌&&◌, arith, if◌then◌else◌, ltb, ◌==◌, Bool-cases, inl, inr, ℤ, pos, negsuc, first_from-cases,
  subst,
}
use afd.Downloader.Bitfield.{
  BitfieldMan, new_bitfield_man, is_bit_set, is_use_bit_set, block_length_at, set_bit, set_use_bit,
  unset_use_bit, is_all_bit_set, first_missing_unused_index,
}
use afd.Downloader.Bitfield.Invariant.{
  WellFormed, new-WellFormed, set_bit-WellFormed, set_use_bit-WellFormed, unset_use_bit-WellFormed,
  is_use_bit_set-set_use_bit, is_bit_set-set_bit, is_all_bit_set_iff,
}
use afd.Downloader.Bitfield.Lengths.{Covers}
use afd.Downloader.Piece.{Piece, new_piece, next_unused_block, complete_block, complete}

-- A piece that is not empty, with a bitmap that fits it.
pub record IsSound (p : Piece) : Type 0 where
  pub formed : WellFormed p.blocks
  pub covers : Covers p.blocks
  pub fits : p.blocks.total_length ≡ p.length

factor_pos : (q b n : ℕ) → q * b ≡ n → 0 < n → 0 < q
factor_pos zero b n e h = absurd (omega arith)
factor_pos (suc q) b n e h = omega arith

mul_mono : (a b c : ℕ) → a ≤ b → a * c ≤ b * c
mul_mono a b c h = grind arith

pub new_piece-IsSound : (i start len bl : ℕ) → 0 < len → 0 < bl → IsSound (new_piece i start len bl)
unfolding new_piece new_bitfield_man
new_piece-IsSound i start len bl h k = record {
  formed = unfold new_bitfield_man in new-WellFormed _ bl len;
  covers = record { block_pos = k; total_pos = h; ceiling = ground (arith, some_block) };
  fits = refl;
}
  where
    some_block : (len % bl ≡ 0) → 0 < len / bl
    some_block e = factor_pos (len / bl) bl len (omega (arith, k)) h

module _ (b : BitfieldMan) where
  -- A call that only takes a block changes nothing else of the bitmap.
  pub set_use_bit_frame :
      (i : ℤ)
      → ((set_use_bit b i).num_blocks ≡ b.num_blocks)
        × ((set_use_bit b i).block_length ≡ b.block_length)
        × ((set_use_bit b i).total_length ≡ b.total_length)
        × ((set_use_bit b i).bitfield ≡ b.bitfield)
  unfolding set_use_bit
  set_use_bit_frame (pos i) = ground arith
  set_use_bit_frame (negsuc i) = (refl, refl, refl, refl)

  pub is_bit_set-set_use_bit : (i : ℤ) (j : ℕ) → is_bit_set (set_use_bit b i) j ≡ is_bit_set b j
  unfolding is_bit_set
  is_bit_set-set_use_bit i j = ground (arith, set_use_bit_frame i)

  -- Every block ends within the piece.
  pub block_end :
      (i : ℕ)
      → Covers b
      → i < b.num_blocks
      → i * b.block_length + block_length_at b i ≤ b.total_length
  unfolding block_length_at
  block_end i c l = ground (
    arith,
    c.ceiling,
    whole,
    mul_mono (i + 1) (b.total_length / b.block_length) b.block_length,
    mul_mono i (b.total_length / b.block_length) b.block_length,
  )
    where
      whole :
          b.total_length / b.block_length * b.block_length + b.total_length % b.block_length
          ≡ b.total_length
      whole = omega (arith, c.block_pos)

-- `NextUnusedBlock` hands out a block that is neither done nor taken, marks it as taken and leaves
-- every other mark alone; it hands out none exactly if there is no such block.
pub next_unused_block_lem :
    (p : Piece)
    → ((next_unused_block p ≡ (p, negsuc 0, 0))
        × ((j : ℕ)
            → j < p.blocks.num_blocks
            → (is_bit_set p.blocks j ≡ true) ⊎ (is_use_bit_set p.blocks j ≡ true)))
      ⊎ ((i : ℕ) × (next_unused_block p ≡ (
        record p { blocks = set_use_bit p.blocks (pos i) },
        pos (p.start + i * p.blocks.block_length),
        block_length_at p.blocks i,
      ))
          × (i < p.blocks.num_blocks)
          × (is_bit_set p.blocks i ≡ false)
          × (is_use_bit_set p.blocks i ≡ false)
          × ((j : ℕ) → j < i → (is_bit_set p.blocks j ≡ true) ⊎ (is_use_bit_set p.blocks j ≡ true)))
unfolding next_unused_block first_missing_unused_index
next_unused_block_lem p =
    elim (first_from-cases p.blocks.num_blocks 0
      (λ i. not (is_bit_set p.blocks i) && not (is_use_bit_set p.blocks i))) [
        | inl (e, all) ↦ inl (
          rw (e, next_unused_block) refl,
          λ j l. ground (arith, all j (omega arith) (omega arith)),
        )
        | inr (i, e, _, l, hit, before) ↦ inr (
          i,
          rw (e, next_unused_block) refl,
          omega arith,
          ground arith,
          ground arith,
          λ j k. ground (arith, before j (omega arith) k),
        )
      ]

block_length_at-le : (b : BitfieldMan) (i : ℕ) → Covers b → block_length_at b i ≤ b.block_length
unfolding block_length_at
block_length_at-le b i c = ground (arith, rest)
  where
    rest : b.total_length % b.block_length < b.block_length
    rest = omega (arith, c.block_pos)

-- What a call that returns an offset has done.
record Taken (p p' : Piece) (off len : ℕ) : Type 0 where
  block : ℕ
  inside : block < p.blocks.num_blocks
  after : p' ≡ record p { blocks = set_use_bit p.blocks (pos block) }
  at : off ≡ p.start + block * p.blocks.block_length
  size : len ≡ block_length_at p.blocks block
  free : is_bit_set p.blocks block ≡ false
  unused : is_use_bit_set p.blocks block ≡ false
  first : (j : ℕ) → j < block → (is_bit_set p.blocks j ≡ true) ⊎ (is_use_bit_set p.blocks j ≡ true)

taken :
    (p : Piece) {p' : Piece} {off len : ℕ}
    → next_unused_block p ≡ (p', pos off, len)
    → Taken p p' off len
taken p {p'} {off} {len} e = elim (next_unused_block_lem p) [
  | inl (none_left, _) ↦ absurd (cc (none_left, e))
  | inr (i, hit, l, a, b, before) ↦ record {
    block = i;
    inside = l;
    after = cc (hit, e);
    at = cc (hit, e);
    size = cc (hit, e);
    free = a;
    unused = b;
    first = before;
  }
]

-- A block that is handed out lies in the piece.
pub next_unused_block_within :
    (p : Piece) {p' : Piece} {off len : ℕ}
    → IsSound p
    → next_unused_block p ≡ (p', pos off, len)
    → (p.start ≤ off) × (off + len ≤ p.start + p.length)
next_unused_block_within p s e =
    let t = taken p e in
    (
      omega (arith, t.at),
      omega (arith, t.at, t.size, block_end p.blocks t.block s.covers t.inside, s.fits),
    )

-- After a block is taken, the next one is further on.
Taken-later :
    (p : Piece) {p' p'' : Piece} {off len off' len' : ℕ}
    → IsSound p
    → (t : Taken p p' off len)
    → (u : Taken (record p { blocks = set_use_bit p.blocks (pos t.block) }) p'' off' len')
    → t.block < u.block
Taken-later p s t u = ground (
  arith,
  t.inside,
  t.first u.block,
  u.free,
  u.unused,
  is_bit_set-set_use_bit p.blocks (pos t.block) u.block,
  is_use_bit_set-set_use_bit p.blocks s.formed t.block u.block,
)

-- Two calls of `NextUnusedBlock` in a row on a sound piece never hand out the same bytes: the second range
-- begins at or after the end of the first.
pub next_unused_block_disjoint :
    (p : Piece) {p' p'' : Piece} {off len off' len' : ℕ}
    → IsSound p
    → next_unused_block p ≡ (p', pos off, len)
    → next_unused_block p' ≡ (p'', pos off', len')
    → off + len ≤ off'
next_unused_block_disjoint p {p'} {p''} {off} {len} {off'} {len'} s e e' =
    let t = taken p e in
    let u : Taken (record p { blocks = set_use_bit p.blocks (pos t.block) }) p'' off' len' =
      subst (λ q. Taken q p'' off' len') t.after (taken p' e') in
    let frame = set_use_bit_frame p.blocks (pos t.block) in
    let start' : off' ≡ p.start + u.block * p.blocks.block_length =
      u.at ∙ ap (λ k. p.start + u.block * k) frame.1 in
    omega (
      arith,
      t.at,
      t.size,
      start',
      block_length_at-le p.blocks t.block s.covers,
      mul_mono (t.block + 1) u.block p.blocks.block_length
          (taken_succ t.block u.block (Taken-later p s t u)),
    )
  where
    taken_succ : (i j : ℕ) → i < j → i + 1 ≤ j
    taken_succ i j h = omega arith

set_use_bit-IsSound :
    (p : Piece) (i : ℤ) → IsSound p → IsSound (record p { blocks = set_use_bit p.blocks i })
set_use_bit-IsSound p i s = record {
  formed = set_use_bit-WellFormed p.blocks i s.formed;
  covers = ground (arith, set_use_bit_frame p.blocks i, s.covers);
  fits = ground (arith, set_use_bit_frame p.blocks i, s.fits);
}

pub next_unused_block-IsSound : (p : Piece) → IsSound p → IsSound (next_unused_block p).0
next_unused_block-IsSound p s = elim (next_unused_block_lem p) [
  | inl (e, _) ↦ rw e s
  | inr (i, e, _, _, _, _) ↦ rw e (set_use_bit-IsSound p (pos i) s)
]

module _ (b : BitfieldMan) (i : ℤ) where
  complete_frame :
      let c = unset_use_bit (set_bit b i) i in
      (c.num_blocks ≡ b.num_blocks)
      × (c.block_length ≡ b.block_length)
      × (c.total_length ≡ b.total_length)
  unfolding set_bit unset_use_bit
  complete_frame = ground arith

complete_bits-IsSound :
    (p : Piece) (i : ℤ)
    → IsSound p
    → IsSound (record p { blocks = unset_use_bit (set_bit p.blocks i) i })
complete_bits-IsSound p i s = record {
  formed = unset_use_bit-WellFormed (set_bit p.blocks i) i (set_bit-WellFormed p.blocks i s.formed);
  covers = ground (arith, complete_frame p.blocks i, s.covers);
  fits = ground (arith, complete_frame p.blocks i, s.fits);
}

pub complete_block-IsSound : (p : Piece) (i : ℤ) → IsSound p → IsSound (complete_block p i)
unfolding complete_block
complete_block-IsSound p i s =
    let t = complete_bits-IsSound p i s in
    elim (Bool-cases (is_all_bit_set (unset_use_bit (set_bit p.blocks i) i))) [
      | inl all ↦ rw all (record { formed = t.formed; covers = t.covers; fits = t.fits })
      | inr more ↦ rw more t
    ]

pub is_bit_set-unset_use_bit :
    (b : BitfieldMan) (i : ℤ) (j : ℕ) → is_bit_set (unset_use_bit b i) j ≡ is_bit_set b j
unfolding is_bit_set unset_use_bit
is_bit_set-unset_use_bit b (pos i) j = ground arith
is_bit_set-unset_use_bit b (negsuc i) j = refl

-- `CompleteBlock` marks that block as done and leaves the mark of every other block alone.
pub complete_block_marks :
    (p : Piece) (i j : ℕ)
    → IsSound p
    → is_bit_set (complete_block p (pos i)).blocks j
      ≡ (if i == j && ltb i p.blocks.num_blocks then true else is_bit_set p.blocks j)
unfolding complete_block
complete_block_marks p i j s = ground (
  arith,
  is_bit_set-unset_use_bit (set_bit p.blocks (pos i)) (pos i) j,
  is_bit_set-set_bit p.blocks s.formed i j,
)

complete_status :
    (p : Piece) (i : ℤ)
    → p.status ≢ complete
    → ((complete_block p i).status ≡ complete) ↔ (is_all_bit_set (complete_block p i).blocks ≡ true)
unfolding complete_block
complete_status p i ne = (λ h. ground (arith, ne), λ h. ground (arith, ne))

-- Where a sound piece is not complete, `CompleteBlock` makes it complete exactly when all its blocks are
-- then marked as done.
pub complete_block_status :
    (p : Piece) (i : ℕ)
    → IsSound p
    → p.status ≢ complete
    → ((complete_block p (pos i)).status ≡ complete) ↔ (
        (j : ℕ)
        → j < (complete_block p (pos i)).blocks.num_blocks
        → is_bit_set (complete_block p (pos i)).blocks j ≡ true)
complete_block_status p i s ne =
    let done = is_all_bit_set_iff _ (complete_block-IsSound p (pos i) s).formed in
    let status = complete_status p (pos i) ne in
    (λ h. done.0 (status.0 h), λ h. status.1 (done.1 h))
