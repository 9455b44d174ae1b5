-- ===== src/Downloader/Worker.antt =====
-- internal/downloader/downloader.go: one response to a worker's range request, read by
-- `downloadPieceOnceFromURL` into the blocks of a piece and by `downloadRangeOnceFromURL` into a stolen range.
pub mod Written
pub mod Release
pub mod Stolen
use afd.Prelude.{
  ℕ, zero, suc, ◌+◌, ◌-◌, ◌*◌, ◌/◌, ◌^◌, Bool, true, false, not, ◌&&◌, List, [], ◌∷◌, ◌++◌, arith,
  if◌then◌else◌, ltb, leb, ◌==◌, ℤ, pos, negsuc, pos_part, sub_ℕ, ltb_ℤ, leb_ℤ, ◌+ℤ◌, ◌-ℤ◌,
}
use afd.Downloader.Piece.{
  Piece, next_unused_block, complete_block, cancel_block, is_complete, block_index_for_offset,
}

-- What `Body.Read` returns beside the count.
pub data Ending : Type 0 where
  more end_of_file broken : Ending

-- One round of a read loop: the bytes read, whether the rate limiter lets them pass, whether `WriteAt` stores
-- them, the clock (in ns) afterwards, the error of the read, and whether the context is cancelled by then.
pub record Read : Type 0 where
  pub count : ℕ
  pub allowed : Bool
  pub stored : Bool
  pub now : ℕ
  pub ending : Ending
  pub cancelled : Bool

-- `cfg.MinSpeed` and the timeout in ns.
pub record SpeedLimit : Type 0 where
  pub min_speed : ℕ
  pub min_speed_timeout : ℕ

-- The variables of the read loop. `writes` are the offsets and counts of the calls of `WriteAt`, the newest first.
pub record Transfer : Type 0 where
  pub piece : Piece
  pub current_offset : ℕ
  pub current_block : ℤ
  pub remaining : ℤ
  pub low_bytes : ℕ
  pub low_start : ℕ
  pub writes : List (ℕ × ℕ)

-- Why the loop over a response ends. `finished` calls `CompletePiece` and returns nil; `no_next_block` and
-- `not_adjacent` go on with the next request; `block_done` returns nil at the end of the body; the rest are
-- the errors. `waiting` is a list of reads that ends before the loop does.
pub data Exit : Type 0 where
  finished no_next_block not_adjacent block_done : Exit
  rate_limited write_failed low_speed interrupted read_failed : Exit
  short_read : ℤ → ℤ → Exit
  waiting : Exit

pub data Step : Type 0 where
  reading : Transfer → Step
  left : Exit → Transfer → Step

abbrev second : ℕ
second = 10 ^ 9

abbrev pub with_piece : Transfer → Piece → Transfer
with_piece t p = record t { piece = p }

unfoldable pub cancel_current : Transfer → Transfer
cancel_current t = with_piece t (cancel_block t.piece t.current_block)

-- The range that a request for a block asks for: up to the end that the piece manager gave, within the file.
unfoldable pub range_end : ℤ → ℕ → ℕ → ℕ → ℤ
range_end end_offset file_size block_offset block_length =
    let last : ℤ = sub_ℕ (block_offset + block_length) 1 in
    let wide : ℤ = if ltb_ℤ last end_offset then end_offset else last in
    if ltb_ℤ (sub_ℕ file_size 1) wide then sub_ℕ file_size 1 else wide

unfoldable pub start_transfer : Piece → ℕ → ℕ → ℕ → Transfer
start_transfer p block_offset block_length now = record {
  piece = p;
  current_offset = block_offset;
  current_block = block_index_for_offset p block_offset;
  remaining = pos block_length;
  low_bytes = 0;
  low_start = now;
  writes = [];
}

-- `WriteAt` and the counters after it.
unfoldable pub store : ℕ → Transfer → Transfer
store n t = record t {
  current_offset = t.current_offset + n;
  remaining = t.remaining -ℤ pos n;
  writes = (t.current_offset, n) ∷ t.writes;
}

-- The low-speed check: whether the connection is to be closed, and its two variables.
unfoldable pub check_speed : SpeedLimit → ℕ → ℕ → Transfer → Bool × Transfer
check_speed limit now n t =
    let bytes : ℕ = t.low_bytes + n in
    let elapsed : ℕ = now - t.low_start in
    let counted = record t { low_bytes = bytes } in
    if not (ltb 0 limit.min_speed)
    then (false, t)
    else if not (leb second elapsed)
    then (false, counted)
    else if ltb (bytes / (elapsed / second)) limit.min_speed
    then (leb limit.min_speed_timeout elapsed, counted)
    else (false, record t { low_bytes = 0; low_start = now })

-- What follows a completed block in the same response.
unfoldable pub continue_with : Transfer → Piece × ℤ × ℕ → Step
continue_with t (p, negsuc k, len) = left no_next_block (with_piece t p)
continue_with t (p, pos off, len) =
    if off == t.current_offset
    then reading
        (record t { piece = p; current_block = block_index_for_offset p off; remaining = pos len })
    else left not_adjacent (with_piece t p)

unfoldable pub advance_block : Transfer → Step
unfolding continue_with
advance_block t =
    let p = complete_block t.piece t.current_block in
    if leb_ℤ t.remaining (pos 0)
    then (if is_complete p
        then left finished (with_piece t p)
        else continue_with t (next_unused_block p))
    else reading t

-- The part of a round that a positive count runs.
unfoldable pub take_data : SpeedLimit → Read → Transfer → Step
unfolding advance_block cancel_current
take_data limit r t =
    let (slow, t') = check_speed limit r.now r.count (store r.count t) in
    if r.count == 0
    then reading t
    else if not r.allowed
    then left rate_limited (cancel_current t)
    else if not r.stored
    then left write_failed (cancel_current t)
    else if slow
    then left low_speed (cancel_current t')
    else advance_block t'

-- The part of a round that the error of the read runs.
unfoldable pub end_read : Read → Transfer → Step
unfolding cancel_current
end_read r t =
    let p = complete_block t.piece t.current_block in
    elim r.ending [
      | more ↦ reading t
      | end_of_file ↦
          if ltb_ℤ (pos 0) t.remaining
          then left (short_read t.current_block t.remaining) t
          else left (if is_complete p then finished else block_done) (with_piece t p)
      | broken ↦ left (if r.cancelled then interrupted else read_failed) (cancel_current t)
    ]

unfoldable pub read_loop : SpeedLimit → List Read → Transfer → Exit × Transfer
unfolding take_data end_read
read_loop limit [] t = (waiting, t)
read_loop limit (r ∷ rs) t = elim (take_data limit r t) [
  | left e t' ↦ (e, t')
  | reading t' ↦ elim (end_read r t') [
    | left e t'' ↦ (e, t'')
    | reading t'' ↦ read_loop limit rs t''
  ]
]

-- `downloadRangeOnceFromURL` from a response with status 206 on. The variables are the offset and the writes.
pub record RangeState : Type 0 where
  pub target : Piece
  pub offset : ℕ
  pub range_writes : List (ℕ × ℕ)

pub data RangeExit : Type 0 where
  range_complete range_limited range_write_failed unexpected_eof : RangeExit
  range_interrupted range_read_failed range_waiting : RangeExit

-- `for i := first; i <= last; i++ { piece.CompleteBlock(i) }`, in so many rounds.
unfoldable pub complete_from : ℕ → ℤ → Piece → Piece
complete_from zero i p = p
complete_from (suc rounds) i p = complete_from rounds (i +ℤ pos 1) (complete_block p i)

-- The blocks that are marked at the end of the body.
unfoldable pub mark_written : ℕ → RangeState → Piece
unfolding complete_from
mark_written start s =
    let first_block : ℤ = block_index_for_offset s.target start in
    let last_block : ℤ = block_index_for_offset s.target (s.offset - 1) in
    if leb_ℤ (pos start) (sub_ℕ s.offset 1)
    then complete_from (pos_part (last_block +ℤ pos 1 -ℤ first_block)) first_block s.target
    else s.target

unfoldable pub end_range : ℕ → RangeState → RangeExit × RangeState
unfolding mark_written
end_range start s =
    let p = mark_written start s in
    (if is_complete p then range_complete else unexpected_eof, record s { target = p })

unfoldable pub store_range : ℕ → RangeState → RangeState
store_range n s =
    if n == 0
    then s
    else record s { offset = s.offset + n; range_writes = (s.offset, n) ∷ s.range_writes }

unfoldable pub range_loop : ℕ → List Read → RangeState → RangeExit × RangeState
unfolding end_range store_range
range_loop start [] s = (range_waiting, s)
range_loop start (r ∷ rs) s =
    let s' = store_range r.count s in
    let rest = range_loop start rs s' in
    if not (r.count == 0) && not r.allowed
    then (range_limited, s)
    else if not (r.count == 0) && not r.stored
    then (range_write_failed, s)
    else elim r.ending [
      | more ↦ rest
      | end_of_file ↦ end_range start s'
      | broken ↦ (if r.cancelled then range_interrupted else range_read_failed, s')
    ]
