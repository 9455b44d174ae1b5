-- ===== src/Downloader/Worker/Stolen.antt =====
-- Which blocks `downloadRangeOnceFromURL` marks as done, of the piece from which its range was stolen.
use afd.Prelude.{
  ℕ, zero, suc, ◌+◌, ◌-◌, ◌*◌, ◌/◌, ◌%◌, ◌≤◌, ◌<◌, ◌≡◌, ◌↔◌, refl, ◌∙◌, Bool, true, false, not,
  ◌&&◌, List, [], ◌∷◌, arith, if◌then◌else◌, ltb, leb, leb→le, ltb→lt, ◌==◌, Bool-cases, inl, inr,
  pos, ◌+ℤ◌, ◌-ℤ◌, pos_part, leb_ℤ, sub_ℕ,
}
use native.Mathlib.Nat.{le-div_iff_mul-le}
use afd.Downloader.Bitfield.{BitfieldMan, is_bit_set}
use afd.Downloader.Bitfield.Lengths.{Covers}
use afd.Downloader.Piece.{Piece, complete_block, is_complete, block_index_for_offset}
use afd.Downloader.Piece.Blocks.{IsSound, complete_block-IsSound, complete_block_marks}
use afd.Downloader.Piece.Frame.{complete_block-SameBlocks}
use afd.Downloader.Worker.{
  Read, Ending, more, end_of_file, broken, RangeState, RangeExit, range_complete, range_limited,
  range_write_failed, unexpected_eof, range_interrupted, range_read_failed, range_waiting,
  complete_from, mark_written, end_range, range_loop, store_range,
}

-- The exits at the end of the body.
unfoldable pub at_end : RangeExit → Bool
at_end range_complete = true
at_end unexpected_eof = true
at_end range_limited = false
at_end range_write_failed = false
at_end range_interrupted = false
at_end range_read_failed = false
at_end range_waiting = false

-- Does block `j` share a byte with the bytes from `a` up to, not including, `b`?
unfoldable pub overlaps : Piece → ℕ → ℕ → ℕ → Bool
overlaps p j a b =
    let begin : ℕ = p.start + j * p.blocks.block_length in
    ltb j p.blocks.num_blocks && ltb a b && ltb a (begin + p.blocks.block_length) && ltb begin b

pos-suc : (i : ℕ) → pos i +ℤ pos 1 ≡ pos (i + 1)
unfolding ◌+ℤ◌
pos-suc i = ground arith

complete_from-marks :
    (n i j : ℕ) (p : Piece)
    → IsSound p
    → is_bit_set (complete_from n (pos i) p).blocks j ≡ (
        if leb i j && ltb j (i + n) && ltb j p.blocks.num_blocks
        then true
        else is_bit_set p.blocks j)
unfolding complete_from
complete_from-marks zero i j p s = ground arith
complete_from-marks (suc n) i j p s =
    let rest =
      complete_from-marks n (i + 1) j (complete_block p (pos i))
        (complete_block-IsSound p (pos i) s) in
    rw (complete_from, pos-suc i)
      (rest
        ∙ rw ((complete_block-SameBlocks p (pos i)).number, complete_block_marks p i j s)
            (ground arith))

covered : (b : BitfieldMan) → Covers b → b.total_length ≤ b.num_blocks * b.block_length
covered b c = elim (Bool-cases (b.total_length % b.block_length == 0)) [
  | inl even ↦ rw (c.ceiling, even) (grind (arith, whole, even))
  | inr odd ↦ rw (c.ceiling, odd) (grind (arith, whole, rest))
]
  where
    whole :
        b.total_length / b.block_length * b.block_length + b.total_length % b.block_length
        ≡ b.total_length
    whole = omega (arith, c.block_pos)

    rest : b.total_length % b.block_length < b.block_length
    rest = omega (arith, c.block_pos)

rounds_of : (x y : ℕ) → pos_part (pos y +ℤ pos 1 -ℤ pos x) ≡ y + 1 - x
unfolding ◌+ℤ◌ ◌-ℤ◌
rounds_of x y = ground arith

module _ (p : Piece) (s : IsSound p) where
  index_inside :
      (d : ℕ)
      → d < p.length
      → block_index_for_offset p (p.start + d) ≡ pos (d / p.blocks.block_length)
  unfolding block_index_for_offset
  index_inside d l = elim (Bool-cases (leb p.blocks.num_blocks (d / p.blocks.block_length))) [
    | inl over ↦
        absurd (omega (arith, at_most (leb→le _ _ over), covered p.blocks s.covers, s.fits))
    | inr inside ↦ rw (past, inside) (ground arith)
  ]
    where
      at_most :
          (p.blocks.num_blocks ≤ d / p.blocks.block_length)
          → p.blocks.num_blocks * p.blocks.block_length ≤ d
      at_most h = (le-div_iff_mul-le s.covers.block_pos).0 h

      past : p.start + d - p.start ≡ d
      past = omega arith

  -- The indices of the blocks that hold the bytes from `a` up to `b`.
  between :
      (a b j : ℕ)
      → a < b
      → (leb (a / p.blocks.block_length) j
          && ltb j (
              a / p.blocks.block_length
              + ((b - 1) / p.blocks.block_length + 1 - a / p.blocks.block_length)))
        ≡ (ltb a (j * p.blocks.block_length + p.blocks.block_length)
            && ltb (j * p.blocks.block_length) b)
  between a b j l = ground (arith, low.0, low.1, high.0, high.1, ordered, next)
    where
      low : (j + 1 ≤ a / p.blocks.block_length) ↔ ((j + 1) * p.blocks.block_length ≤ a)
      low = le-div_iff_mul-le s.covers.block_pos

      high : (j ≤ (b - 1) / p.blocks.block_length) ↔ (j * p.blocks.block_length ≤ b - 1)
      high = le-div_iff_mul-le s.covers.block_pos

      next : (j + 1) * p.blocks.block_length ≡ j * p.blocks.block_length + p.blocks.block_length
      next = grind arith

      ordered : a / p.blocks.block_length ≤ (b - 1) / p.blocks.block_length
      ordered = (le-div_iff_mul-le s.covers.block_pos).1 (omega (arith, s.covers.block_pos, l))

  mark_written-marks :
      (a b j : ℕ) (ws : List (ℕ × ℕ))
      → a < b
      → b ≤ p.length
      → is_bit_set
          (mark_written
            (p.start + a)
            (record { target = p; offset = p.start + b; range_writes = ws })).blocks
          j
        ≡ (if overlaps p j (p.start + a) (p.start + b) then true else is_bit_set p.blocks j)
  unfolding mark_written overlaps
  mark_written-marks a b j ws l e =
      rw
        (
          some_written,
          last_byte,
          index_inside a (omega (arith, l, e)),
          index_inside (b - 1) (omega (arith, l, e)),
          rounds_of (a / p.blocks.block_length) ((b - 1) / p.blocks.block_length),
        )
        (complete_from-marks ((b - 1) / p.blocks.block_length + 1 - a / p.blocks.block_length)
            (a / p.blocks.block_length) j p s
          ∙ ground (arith, between a b j l))
    where
      last_byte : p.start + b - 1 ≡ p.start + (b - 1)
      last_byte = omega (arith, l)

      some_written : leb_ℤ (pos (p.start + a)) (sub_ℕ (p.start + b) 1) ≡ true
      some_written = ground (arith, l)

  -- What the loop has marked when it ends: nothing but at the end of the body.
  Marked : ℕ → RangeExit × RangeState → Type 0
  Marked a (e, s') =
      (b : ℕ)
      → s'.offset ≡ p.start + b
      → b ≤ p.length
      → (j : ℕ)
      → is_bit_set s'.target.blocks j
        ≡ (if at_end e && overlaps p j (p.start + a) s'.offset then true else is_bit_set p.blocks j)

  unmarked :
      (a : ℕ) (e : RangeExit) (s' : RangeState)
      → at_end e ≡ false
      → s'.target ≡ p
      → Marked a (e, s')
  unfolding Marked
  unmarked a e s' early same b at l j = rw (early, same) refl

  no_bytes-overlaps :
      (a b j : ℕ) → ltb a b ≡ false → overlaps p j (p.start + a) (p.start + b) ≡ false
  unfolding overlaps
  no_bytes-overlaps a b j h = ground (arith, h)

  end_range-Marked :
      (a : ℕ) (s' : RangeState) → s'.target ≡ p → Marked a (end_range (p.start + a) s')
  unfolding end_range Marked at_end
  end_range-Marked a s' same b at e j =
      rw (at_the_end (is_complete (mark_written (p.start + a) s'))) (elim (Bool-cases (ltb a b)) [
        | inl some_written ↦
            rw (same, at) (mark_written-marks a b j s'.range_writes (ltb→lt _ _ some_written) e)
        | inr empty ↦ rw (same, at, no_bytes empty, no_bytes-overlaps a b j empty) refl
      ])
    where
      at_the_end : (whole : Bool) → at_end (if whole then range_complete else unexpected_eof) ≡ true
      at_the_end true = refl
      at_the_end false = refl

      no_bytes : ltb a b ≡ false → leb_ℤ (pos (p.start + a)) (sub_ℕ (p.start + b) 1) ≡ false
      no_bytes h = ground (arith, h)

  store_range-target : (n : ℕ) (s' : RangeState) → (store_range n s').target ≡ s'.target
  unfolding store_range
  store_range-target n s' = ground arith

  range_loop-Marked :
      (a : ℕ) (rs : List Read) (s' : RangeState)
      → s'.target ≡ p
      → Marked a (range_loop (p.start + a) rs s')
  unfolding range_loop at_end
  range_loop-Marked a [] s' same = unmarked a range_waiting s' refl same
  range_loop-Marked a (r ∷ rs) s' same = elim (Bool-cases (not (r.count == 0) && not r.allowed)) [
    | inl refused ↦ rw refused (unmarked a range_limited s' refl same)
    | inr let_through ↦ elim (Bool-cases (not (r.count == 0) && not r.stored)) [
      | inl lost ↦ rw (let_through, lost) (unmarked a range_write_failed s' refl same)
      | inr kept ↦
          rw (let_through, kept)
            (by_ending r.ending (store_range r.count s') (store_range-target r.count s' ∙ same)
              (range_loop-Marked a rs _ (store_range-target r.count s' ∙ same)))
    ]
  ]
    where
      by_ending :
          (e : Ending) (n : RangeState)
          → n.target ≡ p
          → Marked a (range_loop (p.start + a) rs n)
          → Marked a (elim e [
            | more ↦ range_loop (p.start + a) rs n
            | end_of_file ↦ end_range (p.start + a) n
            | broken ↦ (if r.cancelled then range_interrupted else range_read_failed, n)
          ])
      by_ending more n t rest = rest
      by_ending end_of_file n t rest = end_range-Marked a n t
      by_ending broken n t rest = elim (Bool-cases r.cancelled) [
        | inl stopped ↦ rw stopped (unmarked a range_interrupted n refl t)
        | inr failed ↦ rw failed (unmarked a range_read_failed n refl t)
      ]

-- A stolen range that begins at byte `a` of a sound piece marks no block as done unless the body of the
-- response ends; then it marks the blocks that share a byte with what was written, whole or in part, and no
-- other, as long as nothing was written past the piece.
pub stolen_range_marks :
    (p : Piece) (rs : List Read) (a b j : ℕ)
    → IsSound p
    → (range_loop
        (p.start + a)
        rs
        (record { target = p; offset = p.start + a; range_writes = [] })).1.offset
      ≡ p.start + b
    → b ≤ p.length
    → is_bit_set
        (range_loop
          (p.start + a)
          rs
          (record { target = p; offset = p.start + a; range_writes = [] })).1.target.blocks
        j
      ≡ (if at_end
              (range_loop
                (p.start + a)
                rs
                (record { target = p; offset = p.start + a; range_writes = [] })).0
            && overlaps p j (p.start + a) (p.start + b)
          then true
          else is_bit_set p.blocks j)
unfolding Marked
stolen_range_marks p rs a b j s at l =
    range_loop-Marked p s a rs (record { target = p; offset = p.start + a; range_writes = [] }) refl
      b at l j
    ∙ rw at refl
