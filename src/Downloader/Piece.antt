-- ===== src/Downloader/Piece.antt =====
-- internal/downloader/chunk.go, `Piece`: an interval of the file with a bitmap of its blocks. The
-- mutex makes each method one atomic step, so a method is a function from a piece to a piece.
pub mod Blocks
pub mod Steal
pub mod Frame
use afd.Prelude.{
  ℕ, zero, suc, ◌+◌, ◌-◌, ◌*◌, ◌/◌, ◌%◌, Bool, true, false, not, ◌&&◌, List, arith, if◌then◌else◌,
  ltb, leb, ◌==◌, ℤ, pos, negsuc, sub_ℕ, ltb_ℤ,
}
use afd.Downloader.Bitfield.{
  BitfieldMan, new_bitfield_man, block_length_at, is_bit_set, set_bit, set_use_bit, unset_use_bit,
  is_all_bit_set, first_missing_unused_index, first_missing_index, count_missing, completed_length,
  remaining_length,
}

pub data PieceStatus : Type 0 where
  idle active complete : PieceStatus

pub record Piece : Type 0 where
  pub index : ℕ
  pub start : ℕ
  pub length : ℕ
  pub status : PieceStatus
  pub blocks : BitfieldMan
  pub owner_cuid : ℕ

-- `NewPiece`, for a positive block length.
unfoldable pub new_piece : ℕ → ℕ → ℕ → ℕ → Piece
new_piece index start len block_length =
    let whole : ℕ = len / block_length in
    let rounded : ℕ = if len % block_length == 0 then whole else whole + 1 in
    let num_blocks : ℕ = if rounded == 0 then 1 else rounded in
    record {
      index = index;
      start = start;
      length = len;
      status = idle;
      blocks = new_bitfield_man num_blocks block_length len;
      owner_cuid = 0;
    }

abbrev pub with_blocks : Piece → BitfieldMan → Piece
with_blocks p b = record p { blocks = b }

-- `NextUnusedBlock` past the search: the block is marked as taken, and its offset in the file and
-- its length are returned; -1 and 0 if there is none.
unfoldable pub take_block : Piece → ℤ → Piece × ℤ × ℕ
take_block p (negsuc _) = (p, negsuc 0, 0)
take_block p (pos idx) = (
  with_blocks p (set_use_bit p.blocks (pos idx)),
  pos (p.start + idx * p.blocks.block_length),
  block_length_at p.blocks idx,
)

unfoldable pub next_unused_block : Piece → Piece × ℤ × ℕ
unfolding take_block
next_unused_block p = take_block p (first_missing_unused_index p.blocks)

unfoldable pub complete_block : Piece → ℤ → Piece
complete_block p i =
    let b = unset_use_bit (set_bit p.blocks i) i in
    if is_all_bit_set b then record p { blocks = b; status = complete } else with_blocks p b

unfoldable pub cancel_block : Piece → ℤ → Piece
cancel_block p i = with_blocks p (unset_use_bit p.blocks i)

unfoldable pub is_complete : Piece → Bool
is_complete p = is_all_bit_set p.blocks

unfoldable pub piece_completed_length : Piece → ℕ
piece_completed_length p = completed_length p.blocks

unfoldable pub piece_remaining_length : Piece → ℤ
piece_remaining_length p = sub_ℕ p.length (piece_completed_length p)

unfoldable pub set_owner : Piece → ℕ → Piece
set_owner p cuid = record p { owner_cuid = cuid }

unfoldable pub set_status : Piece → PieceStatus → Piece
set_status p s = record p { status = s }

-- The loop of `StealableRange`: the blocks from `i` on that are not done lose their use bit.
unfoldable pub release_from : ℕ → ℕ → BitfieldMan → BitfieldMan
release_from zero i b = b
release_from (suc rounds) i b =
    release_from rounds (i + 1) (if is_bit_set b i then b else unset_use_bit b (pos i))

-- `StealableRange` from the first missing block on. The use bits are released before the length of
-- the range is compared with the minimum. (`length < 0` is the case of a start past the piece.)
unfoldable pub steal_from : Piece → ℕ → ℤ → Piece × ℤ × ℤ
steal_from p min_size (negsuc _) = (p, negsuc 0, pos 0)
steal_from p min_size (pos first_missing) =
    let b = p.blocks in
    let start_block : ℕ = first_missing + count_missing b / 2 in
    let p' = with_blocks p (release_from (b.num_blocks - start_block) start_block b) in
    let len : ℤ = sub_ℕ p.length (start_block * b.block_length) in
    if ltb_ℤ len (pos 0)
    then (p', negsuc 0, pos 0)
    else if ltb_ℤ len (pos min_size)
    then (p', negsuc 0, pos 0)
    else (p', pos (p.start + start_block * b.block_length), len)

unfoldable pub stealable_range : Piece → ℕ → Piece × ℤ × ℤ
stealable_range p min_size =
    if ltb_ℤ (remaining_length p.blocks) (pos min_size)
    then (p, negsuc 0, pos 0)
    else steal_from p min_size (first_missing_index p.blocks)

-- `BlockIndexForOffset`. The division truncates towards zero, so a negative offset within one block
-- gives 0, and one further down a negative index.
unfoldable pub block_index_for_offset : Piece → ℕ → ℤ
block_index_for_offset p offset =
    let n : ℕ = p.blocks.num_blocks in
    let up : ℕ = (offset - p.start) / p.blocks.block_length in
    let down : ℕ = (p.start - offset) / p.blocks.block_length in
    if leb p.start offset then (if leb n up then sub_ℕ n 1 else pos up) else sub_ℕ 0 down
