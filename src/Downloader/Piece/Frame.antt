-- ===== src/Downloader/Piece/Frame.antt =====
-- What the operations on the blocks of a piece leave alone.
use afd.Prelude.{ℕ, ◌+◌, ◌*◌, ◌<◌, ◌≡◌, refl, arith, inl, inr, ℤ, pos}
use native.Mathlib.Nat.{mul-div_cancel}
use afd.Downloader.Bitfield.{is_bit_set, block_length_at, set_bit, set_use_bit, unset_use_bit}
use afd.Downloader.Bitfield.Invariant.{unset_use_bit-WellFormed}
use afd.Downloader.Piece.{
  Piece, next_unused_block, complete_block, cancel_block, block_index_for_offset,
}
use afd.Downloader.Piece.Blocks.{
  IsSound, next_unused_block_lem, set_use_bit_frame, is_bit_set-set_use_bit,
  is_bit_set-unset_use_bit,
}

-- The two pieces cover the same bytes with the same blocks.
pub record SameBlocks (p q : Piece) : Type 0 where
  pub start : q.start ≡ p.start
  pub number : q.blocks.num_blocks ≡ p.blocks.num_blocks
  pub unit : q.blocks.block_length ≡ p.blocks.block_length
  pub total : q.blocks.total_length ≡ p.blocks.total_length

pub SameBlocks-refl : (p : Piece) → SameBlocks p p
SameBlocks-refl p = record { start = refl; number = refl; unit = refl; total = refl }

pub SameBlocks-trans : {p q r : Piece} → SameBlocks p q → SameBlocks q r → SameBlocks p r
SameBlocks-trans a b = record {
  start = cc (a.start, b.start);
  number = cc (a.number, b.number);
  unit = cc (a.unit, b.unit);
  total = cc (a.total, b.total);
}

pub block_length_at-same :
    {p q : Piece} (i : ℕ) → SameBlocks p q → block_length_at q.blocks i ≡ block_length_at p.blocks i
unfolding block_length_at
block_length_at-same i s = rw (s.number, s.unit, s.total) refl

pub set_use_bit-SameBlocks :
    (p : Piece) (i : ℕ) → SameBlocks p (record p { blocks = set_use_bit p.blocks (pos i) })
set_use_bit-SameBlocks p i =
    let f = set_use_bit_frame p.blocks (pos i) in
    record { start = refl; number = f.0; unit = f.1; total = f.2 }

pub next_unused_block-SameBlocks : (p : Piece) → SameBlocks p (next_unused_block p).0
next_unused_block-SameBlocks p = elim (next_unused_block_lem p) [
  | inl (e, _) ↦ rw e (SameBlocks-refl p)
  | inr (i, e, _, _, _, _) ↦ rw e (set_use_bit-SameBlocks p i)
]

pub is_bit_set-next_unused_block :
    (p : Piece) (j : ℕ) → is_bit_set (next_unused_block p).0.blocks j ≡ is_bit_set p.blocks j
is_bit_set-next_unused_block p j = elim (next_unused_block_lem p) [
  | inl (e, _) ↦ rw e refl
  | inr (i, e, _, _, _, _) ↦ rw e (is_bit_set-set_use_bit p.blocks (pos i) j)
]

pub complete_block-SameBlocks : (p : Piece) (i : ℤ) → SameBlocks p (complete_block p i)
unfolding complete_block set_bit unset_use_bit
complete_block-SameBlocks p i = record {
  start = ground arith;
  number = ground arith;
  unit = ground arith;
  total = ground arith;
}

pub cancel_block-SameBlocks : (p : Piece) (i : ℤ) → SameBlocks p (cancel_block p i)
unfolding cancel_block unset_use_bit
cancel_block-SameBlocks p i = record {
  start = ground arith;
  number = ground arith;
  unit = ground arith;
  total = ground arith;
}

pub is_bit_set-cancel_block :
    (p : Piece) (i : ℤ) (j : ℕ) → is_bit_set (cancel_block p i).blocks j ≡ is_bit_set p.blocks j
unfolding cancel_block
is_bit_set-cancel_block p i j = is_bit_set-unset_use_bit p.blocks i j

pub cancel_block-IsSound : (p : Piece) (i : ℤ) → IsSound p → IsSound (cancel_block p i)
unfolding cancel_block
cancel_block-IsSound p i s =
    let f = cancel_block-SameBlocks p i in
    record {
      formed = unset_use_bit-WellFormed p.blocks i s.formed;
      covers = record {
        block_pos = rw f.unit s.covers.block_pos;
        total_pos = rw f.total s.covers.total_pos;
        ceiling = rw (f.unit, f.total, f.number) s.covers.ceiling;
      };
      fits = rw f.total s.fits;
    }

-- The index of the offset at which a block begins.
pub block_index-begin :
    (p : Piece) (i : ℕ)
    → IsSound p
    → i < p.blocks.num_blocks
    → block_index_for_offset p (p.start + i * p.blocks.block_length) ≡ pos i
unfolding block_index_for_offset
block_index-begin p i s l = ground (arith, mul-div_cancel i s.covers.block_pos)

pub block_index-at :
    (p : Piece) (off i : ℕ)
    → IsSound p
    → i < p.blocks.num_blocks
    → off ≡ p.start + i * p.blocks.block_length
    → block_index_for_offset p off ≡ pos i
block_index-at p off i s l e = rw e (block_index-begin p i s l)
