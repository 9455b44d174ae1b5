-- ===== src/Downloader/Bitfield.antt =====
-- internal/downloader/chunk.go, `BitfieldMan`: which blocks of a piece are done and which are taken.
-- A `[]byte` is a list of numbers below 256. A Go index is an integer, since callers may pass -1.
-- Offsets and lengths are int64 in the source; they are bounded by the size of a file, and the model
-- leaves them unbounded.
pub mod Bytes
pub mod Invariant
pub mod Lengths
use afd.Prelude.{
  ℕ, zero, suc, ◌+◌, ◌-◌, ◌/◌, ◌%◌, Bool, true, false, not, ◌&&◌, List, replicate, length, arith,
  if◌then◌else◌, ltb, ◌==◌, ℤ, pos, negsuc, sub_ℕ, first_from, count_from, sum_from,
}
use Bytes.{test_bit, put_bit, clear_bit}

pub record BitfieldMan : Type 0 where
  pub num_blocks : ℕ
  pub block_length : ℕ
  pub total_length : ℕ
  pub bitfield : List ℕ
  pub use_bitfield : List ℕ
  pub completed_count : ℕ

unfoldable pub new_bitfield_man : ℕ → ℕ → ℕ → BitfieldMan
new_bitfield_man num_blocks block_length total_length =
    let bf_len : ℕ = (num_blocks + 7) / 8 in
    record {
      num_blocks = num_blocks;
      block_length = block_length;
      total_length = total_length;
      bitfield = replicate bf_len 0;
      use_bitfield = replicate bf_len 0;
      completed_count = 0;
    }

-- `BlockLength`: the last block may be shorter. (`rem` is 0 also for a total length of 0.)
unfoldable pub block_length_at : BitfieldMan → ℕ → ℕ
block_length_at b idx =
    let rem : ℕ = b.total_length % b.block_length in
    if idx + 1 == b.num_blocks then (if rem == 0 then b.block_length else rem) else b.block_length

-- `IsBitSet` and `IsUseBitSet`.
unfoldable pub is_bit_set : BitfieldMan → ℕ → Bool
is_bit_set b idx = ltb idx b.num_blocks && test_bit b.bitfield idx

unfoldable pub is_use_bit_set : BitfieldMan → ℕ → Bool
is_use_bit_set b idx = ltb idx b.num_blocks && test_bit b.use_bitfield idx

-- `SetBit`: the counter goes up only if the bit was clear.
unfoldable pub set_bit : BitfieldMan → ℤ → BitfieldMan
set_bit b (negsuc _) = b
set_bit b (pos idx) =
    if ltb idx b.num_blocks
    then record b {
      completed_count =
          if test_bit b.bitfield idx then b.completed_count else b.completed_count + 1;
      bitfield = put_bit b.bitfield idx;
    }
    else b

-- `ClearBit`. The counter falls only if the bit was set, so it is not 0 then
-- (`WellFormed` in Bitfield/Invariant).
unfoldable pub unset_bit : BitfieldMan → ℤ → BitfieldMan
unset_bit b (negsuc _) = b
unset_bit b (pos idx) =
    if ltb idx b.num_blocks
    then record b {
      completed_count =
          if test_bit b.bitfield idx then b.completed_count - 1 else b.completed_count;
      bitfield = clear_bit b.bitfield idx;
    }
    else b

unfoldable pub unset_use_bit : BitfieldMan → ℤ → BitfieldMan
unset_use_bit b (negsuc _) = b
unset_use_bit b (pos idx) =
    if ltb idx b.num_blocks then record b { use_bitfield = clear_bit b.use_bitfield idx } else b

unfoldable pub set_use_bit : BitfieldMan → ℤ → BitfieldMan
set_use_bit b (negsuc _) = b
set_use_bit b (pos idx) =
    if ltb idx b.num_blocks then record b { use_bitfield = put_bit b.use_bitfield idx } else b

unfoldable pub is_all_bit_set : BitfieldMan → Bool
is_all_bit_set b = b.completed_count == b.num_blocks

unfoldable pub first_missing_unused_index : BitfieldMan → ℤ
first_missing_unused_index b =
    first_from b.num_blocks 0 (λ i. not (is_bit_set b i) && not (is_use_bit_set b i))

unfoldable pub first_missing_index : BitfieldMan → ℤ
first_missing_index b = first_from b.num_blocks 0 (λ i. not (is_bit_set b i))

unfoldable pub count_missing : BitfieldMan → ℕ
count_missing b = count_from b.num_blocks 0 (λ i. not (is_bit_set b i))

unfoldable pub completed_length : BitfieldMan → ℕ
completed_length b =
    sum_from b.num_blocks 0 (λ i. if is_bit_set b i then block_length_at b i else 0)

unfoldable pub remaining_length : BitfieldMan → ℤ
remaining_length b = sub_ℕ b.total_length (completed_length b)

-- `SetBitfield`: a bitmap of another size is ignored, and the counter is computed afresh.
unfoldable pub set_bitfield : BitfieldMan → List ℕ → BitfieldMan
set_bitfield b bf =
    let c = record b { bitfield = bf } in
    if length bf == length b.bitfield
    then record c { completed_count = count_from b.num_blocks 0 (is_bit_set c) }
    else b
