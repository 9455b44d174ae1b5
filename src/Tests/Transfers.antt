-- ===== src/Tests/Transfers.antt =====
-- Runs of the read loops, the retries and the rate limiter of internal/downloader.
use afd.Prelude.{
  ℕ, ◌+◌, ◌*◌, ◌^◌, ◌≤◌, ◌<◌, ◌≡◌, ◌≢◌, ◌⊎◌, refl, inl, inr, Bool, true, false, ◌&&◌, List, [], ◌∷◌,
  Option, none, some, String, arith, if◌then◌else◌, ℤ, pos, negsuc,
}
use afd.Downloader.Bitfield.{is_bit_set, is_use_bit_set, block_length_at}
use afd.Downloader.Piece.{Piece, new_piece, next_unused_block}
use afd.Downloader.Piece.Blocks.{IsSound, new_piece-IsSound, next_unused_block-IsSound}
use afd.Downloader.Worker.{
  Read, more, end_of_file, broken, SpeedLimit, Transfer, Exit, finished, not_adjacent, short_read,
  interrupted, start_transfer, read_loop, RangeState, RangeExit, unexpected_eof, range_loop,
}
use afd.Downloader.Worker.Written.{BlockWritten}
use afd.Downloader.Worker.Release.{releases, read_loop-releases}
use afd.Downloader.Worker.Stolen.{at_end, overlaps, stolen_range_marks}
use afd.Downloader.Requests.{Round, answered, context_ended, fetch_piece}
use afd.Downloader.Requests.Honest.{fetch_piece-honest}
use afd.Downloader.Retry.{
  GoError, other_error, RetryConfig, Calls, is_permanent_error, World, Attempt, failed,
  do_with_retry, download_piece, all_sources_failed,
}
use afd.Downloader.Retry.Attempts.{Explains, Retried, all_at_most, do_with_retry_lem}
use afd.Downloader.Retry.Sources.{download_piece_tries_once, unmarked_error-permanent}
use afd.Downloader.Limiter.{RateLimiter, Clock, wait, context_done, still_waiting, second}
use afd.Downloader.Limiter.Bucket.{allow_all, allow_all-bound, wait_over_burst}

-- Three blocks of 4, 4 and 2 bytes at offset 100, the first of which is taken.
abbrev unstarted : Piece
unstarted = new_piece 0 100 10 4

unstarted-IsSound : IsSound unstarted
unstarted-IsSound = new_piece-IsSound 0 100 10 4 (omega arith) (omega arith)

abbrev started : Piece
started = (next_unused_block (new_piece 0 100 10 4)).0

started-IsSound : IsSound started
started-IsSound =
    next_unused_block-IsSound _ (new_piece-IsSound 0 100 10 4 (omega arith) (omega arith))

abbrev no_limit : SpeedLimit
no_limit = record { min_speed = 0; min_speed_timeout = 0 }

abbrev got : ℕ → Read
got n = record {
  count = n;
  allowed = true;
  stored = true;
  now = 1;
  ending = more;
  cancelled = false;
}

-- The context is cancelled within the first block.
abbrev broken_off : List Read
broken_off =
    record { count = 2; allowed = true; stored = true; now = 1; ending = broken; cancelled = true }
    ∷ []

abbrev run : List Read → Exit × Transfer
run rs = read_loop no_limit rs (
    start_transfer started (started.start + 0 * started.blocks.block_length)
      (block_length_at started.blocks 0) 0)

-- A request whose body breaks off in the second block.
abbrev two_rounds : List Round
two_rounds =
    record {
      done_before = false;
      done_waiting = false;
      reply = answered 206 0 (
          got 1
          ∷ got 3
          ∷ record {
            count = 2;
            allowed = true;
            stored = true;
            now = 1;
            ending = broken;
            cancelled = true;
          }
          ∷ []);
    }
    ∷ []

fetch_piece-honest_example :
    (is_bit_set unstarted.blocks 0 ≡ true)
    ⊎ BlockWritten unstarted 0 (fetch_piece no_limit two_rounds unstarted []).writes
unfolding next_unused_block afd.Downloader.Bitfield.first_missing_unused_index
    afd.Prelude.first_from new_piece afd.Downloader.Bitfield.new_bitfield_man is_bit_set
    afd.Downloader.Bitfield.Bytes.test_bit afd.Prelude.byte_test is_use_bit_set
    afd.Downloader.Bitfield.set_use_bit read_loop afd.Downloader.Worker.check_speed
    afd.Downloader.Worker.store afd.Prelude.◌-ℤ◌ start_transfer block_length_at
    afd.Downloader.Piece.is_complete afd.Downloader.Bitfield.Bytes.clear_bit
    afd.Downloader.Bitfield.Bytes.put_bit afd.Downloader.Bitfield.is_all_bit_set
    afd.Downloader.Bitfield.set_bit afd.Downloader.Bitfield.unset_use_bit
    afd.Downloader.Piece.block_index_for_offset afd.Downloader.Piece.cancel_block
    afd.Downloader.Piece.complete_block afd.Downloader.Piece.take_block
    afd.Downloader.Worker.advance_block afd.Downloader.Worker.cancel_current
    afd.Downloader.Worker.continue_with afd.Downloader.Worker.end_read
    afd.Downloader.Worker.take_data afd.Prelude.byte_clear afd.Prelude.byte_set fetch_piece
    afd.Downloader.Requests.with_block afd.Downloader.Requests.request_block
    afd.Downloader.Requests.after_body
fetch_piece-honest_example =
    fetch_piece-honest no_limit two_rounds unstarted 0 unstarted-IsSound refl

two_rounds_end : (fetch_piece no_limit two_rounds unstarted []).ended ≡ context_ended
unfolding next_unused_block afd.Downloader.Bitfield.first_missing_unused_index
    afd.Prelude.first_from new_piece afd.Downloader.Bitfield.new_bitfield_man is_bit_set
    afd.Downloader.Bitfield.Bytes.test_bit afd.Prelude.byte_test is_use_bit_set
    afd.Downloader.Bitfield.set_use_bit read_loop afd.Downloader.Worker.check_speed
    afd.Downloader.Worker.store afd.Prelude.◌-ℤ◌ start_transfer block_length_at
    afd.Downloader.Piece.is_complete afd.Downloader.Bitfield.Bytes.clear_bit
    afd.Downloader.Bitfield.Bytes.put_bit afd.Downloader.Bitfield.is_all_bit_set
    afd.Downloader.Bitfield.set_bit afd.Downloader.Bitfield.unset_use_bit
    afd.Downloader.Piece.block_index_for_offset afd.Downloader.Piece.cancel_block
    afd.Downloader.Piece.complete_block afd.Downloader.Piece.take_block
    afd.Downloader.Worker.advance_block afd.Downloader.Worker.cancel_current
    afd.Downloader.Worker.continue_with afd.Downloader.Worker.end_read
    afd.Downloader.Worker.take_data afd.Prelude.byte_clear afd.Prelude.byte_set fetch_piece
    afd.Downloader.Requests.with_block afd.Downloader.Requests.request_block
    afd.Downloader.Requests.after_body
two_rounds_end = refl

-- Another worker holds the second block.
abbrev shared : Piece
shared = (next_unused_block started).0

shared-IsSound : IsSound shared
shared-IsSound = next_unused_block-IsSound started started-IsSound

read_loop-releases_example : (is_use_bit_set shared.blocks 1 ≡ true) × (◌≢◌ {A = ℕ} 0 1)
unfolding next_unused_block afd.Downloader.Bitfield.first_missing_unused_index
    afd.Prelude.first_from new_piece afd.Downloader.Bitfield.new_bitfield_man is_bit_set
    afd.Downloader.Bitfield.Bytes.test_bit afd.Prelude.byte_test is_use_bit_set
    afd.Downloader.Bitfield.set_use_bit read_loop afd.Downloader.Worker.check_speed
    afd.Downloader.Worker.store afd.Prelude.◌-ℤ◌ start_transfer block_length_at
    afd.Downloader.Piece.is_complete afd.Downloader.Bitfield.Bytes.clear_bit
    afd.Downloader.Bitfield.Bytes.put_bit afd.Downloader.Bitfield.is_all_bit_set
    afd.Downloader.Bitfield.set_bit afd.Downloader.Bitfield.unset_use_bit
    afd.Downloader.Piece.block_index_for_offset afd.Downloader.Piece.cancel_block
    afd.Downloader.Piece.complete_block afd.Downloader.Piece.take_block
    afd.Downloader.Worker.advance_block afd.Downloader.Worker.cancel_current
    afd.Downloader.Worker.continue_with afd.Downloader.Worker.end_read
    afd.Downloader.Worker.take_data afd.Prelude.byte_clear afd.Prelude.byte_set releases
read_loop-releases_example =
    read_loop-releases no_limit broken_off shared 0 0 1 shared-IsSound (omega arith) refl refl

-- A read that crosses the end of a block makes the loop take the next block and leave it.
crossing_strands : (run (got 5 ∷ [])).0 ≡ not_adjacent
unfolding next_unused_block afd.Downloader.Bitfield.first_missing_unused_index
    afd.Prelude.first_from new_piece afd.Downloader.Bitfield.new_bitfield_man is_bit_set
    afd.Downloader.Bitfield.Bytes.test_bit afd.Prelude.byte_test is_use_bit_set
    afd.Downloader.Bitfield.set_use_bit read_loop afd.Downloader.Worker.check_speed
    afd.Downloader.Worker.store afd.Prelude.◌-ℤ◌ start_transfer block_length_at
    afd.Downloader.Piece.is_complete afd.Downloader.Bitfield.Bytes.clear_bit
    afd.Downloader.Bitfield.Bytes.put_bit afd.Downloader.Bitfield.is_all_bit_set
    afd.Downloader.Bitfield.set_bit afd.Downloader.Bitfield.unset_use_bit
    afd.Downloader.Piece.block_index_for_offset afd.Downloader.Piece.cancel_block
    afd.Downloader.Piece.complete_block afd.Downloader.Piece.take_block
    afd.Downloader.Worker.advance_block afd.Downloader.Worker.cancel_current
    afd.Downloader.Worker.continue_with afd.Downloader.Worker.end_read
    afd.Downloader.Worker.take_data afd.Prelude.byte_clear afd.Prelude.byte_set
crossing_strands = refl

crossing_takes : is_use_bit_set (run (got 5 ∷ [])).1.piece.blocks 1 ≡ true
unfolding next_unused_block afd.Downloader.Bitfield.first_missing_unused_index
    afd.Prelude.first_from new_piece afd.Downloader.Bitfield.new_bitfield_man is_bit_set
    afd.Downloader.Bitfield.Bytes.test_bit afd.Prelude.byte_test is_use_bit_set
    afd.Downloader.Bitfield.set_use_bit read_loop afd.Downloader.Worker.check_speed
    afd.Downloader.Worker.store afd.Prelude.◌-ℤ◌ start_transfer block_length_at
    afd.Downloader.Piece.is_complete afd.Downloader.Bitfield.Bytes.clear_bit
    afd.Downloader.Bitfield.Bytes.put_bit afd.Downloader.Bitfield.is_all_bit_set
    afd.Downloader.Bitfield.set_bit afd.Downloader.Bitfield.unset_use_bit
    afd.Downloader.Piece.block_index_for_offset afd.Downloader.Piece.cancel_block
    afd.Downloader.Piece.complete_block afd.Downloader.Piece.take_block
    afd.Downloader.Worker.advance_block afd.Downloader.Worker.cancel_current
    afd.Downloader.Worker.continue_with afd.Downloader.Worker.end_read
    afd.Downloader.Worker.take_data afd.Prelude.byte_clear afd.Prelude.byte_set
crossing_takes = refl

-- A body that ends within a block leaves that block taken.
abbrev short_body : List Read
short_body =
    record {
      count = 2;
      allowed = true;
      stored = true;
      now = 1;
      ending = end_of_file;
      cancelled = false;
    }
    ∷ []

short_strands : (run short_body).0 ≡ short_read (pos 0) (pos 2)
unfolding next_unused_block afd.Downloader.Bitfield.first_missing_unused_index
    afd.Prelude.first_from new_piece afd.Downloader.Bitfield.new_bitfield_man is_bit_set
    afd.Downloader.Bitfield.Bytes.test_bit afd.Prelude.byte_test is_use_bit_set
    afd.Downloader.Bitfield.set_use_bit read_loop afd.Downloader.Worker.check_speed
    afd.Downloader.Worker.store afd.Prelude.◌-ℤ◌ start_transfer block_length_at
    afd.Downloader.Piece.is_complete afd.Downloader.Bitfield.Bytes.clear_bit
    afd.Downloader.Bitfield.Bytes.put_bit afd.Downloader.Bitfield.is_all_bit_set
    afd.Downloader.Bitfield.set_bit afd.Downloader.Bitfield.unset_use_bit
    afd.Downloader.Piece.block_index_for_offset afd.Downloader.Piece.cancel_block
    afd.Downloader.Piece.complete_block afd.Downloader.Piece.take_block
    afd.Downloader.Worker.advance_block afd.Downloader.Worker.cancel_current
    afd.Downloader.Worker.continue_with afd.Downloader.Worker.end_read
    afd.Downloader.Worker.take_data afd.Prelude.byte_clear afd.Prelude.byte_set
short_strands = refl

short_takes : is_use_bit_set (run short_body).1.piece.blocks 0 ≡ true
unfolding next_unused_block afd.Downloader.Bitfield.first_missing_unused_index
    afd.Prelude.first_from new_piece afd.Downloader.Bitfield.new_bitfield_man is_bit_set
    afd.Downloader.Bitfield.Bytes.test_bit afd.Prelude.byte_test is_use_bit_set
    afd.Downloader.Bitfield.set_use_bit read_loop afd.Downloader.Worker.check_speed
    afd.Downloader.Worker.store afd.Prelude.◌-ℤ◌ start_transfer block_length_at
    afd.Downloader.Piece.is_complete afd.Downloader.Bitfield.Bytes.clear_bit
    afd.Downloader.Bitfield.Bytes.put_bit afd.Downloader.Bitfield.is_all_bit_set
    afd.Downloader.Bitfield.set_bit afd.Downloader.Bitfield.unset_use_bit
    afd.Downloader.Piece.block_index_for_offset afd.Downloader.Piece.cancel_block
    afd.Downloader.Piece.complete_block afd.Downloader.Piece.take_block
    afd.Downloader.Worker.advance_block afd.Downloader.Worker.cancel_current
    afd.Downloader.Worker.continue_with afd.Downloader.Worker.end_read
    afd.Downloader.Worker.take_data afd.Prelude.byte_clear afd.Prelude.byte_set
short_takes = refl

abbrev stolen_run : RangeExit × RangeState
stolen_run =
    range_loop (started.start + 4) short_body
      (record { target = started; offset = started.start + 4; range_writes = [] })

stolen_range_marks_example : is_bit_set stolen_run.1.target.blocks 1 ≡ (
    if at_end stolen_run.0 && overlaps started 1 (started.start + 4) (started.start + 6)
    then true
    else is_bit_set started.blocks 1)
unfolding next_unused_block afd.Downloader.Bitfield.first_missing_unused_index
    afd.Prelude.first_from new_piece afd.Downloader.Bitfield.new_bitfield_man is_bit_set
    afd.Downloader.Bitfield.Bytes.test_bit afd.Prelude.byte_test is_use_bit_set
    afd.Downloader.Bitfield.set_use_bit read_loop afd.Downloader.Worker.check_speed
    afd.Downloader.Worker.store afd.Prelude.◌-ℤ◌ start_transfer block_length_at
    afd.Downloader.Piece.is_complete afd.Downloader.Bitfield.Bytes.clear_bit
    afd.Downloader.Bitfield.Bytes.put_bit afd.Downloader.Bitfield.is_all_bit_set
    afd.Downloader.Bitfield.set_bit afd.Downloader.Bitfield.unset_use_bit
    afd.Downloader.Piece.block_index_for_offset afd.Downloader.Piece.cancel_block
    afd.Downloader.Piece.complete_block afd.Downloader.Piece.take_block
    afd.Downloader.Worker.advance_block afd.Downloader.Worker.cancel_current
    afd.Downloader.Worker.continue_with afd.Downloader.Worker.end_read
    afd.Downloader.Worker.take_data afd.Prelude.byte_clear afd.Prelude.byte_set range_loop
    afd.Downloader.Worker.end_range afd.Downloader.Worker.mark_written
    afd.Downloader.Worker.complete_from afd.Downloader.Worker.store_range afd.Prelude.◌+ℤ◌ at_end
    overlaps
stolen_range_marks_example =
    stolen_range_marks started short_body 4 6 1 started-IsSound refl (omega arith)

-- Two of the four bytes of the second block are there, and it is marked as done.
half_block_marked : is_bit_set stolen_run.1.target.blocks 1 ≡ true
unfolding next_unused_block afd.Downloader.Bitfield.first_missing_unused_index
    afd.Prelude.first_from new_piece afd.Downloader.Bitfield.new_bitfield_man is_bit_set
    afd.Downloader.Bitfield.Bytes.test_bit afd.Prelude.byte_test is_use_bit_set
    afd.Downloader.Bitfield.set_use_bit read_loop afd.Downloader.Worker.check_speed
    afd.Downloader.Worker.store afd.Prelude.◌-ℤ◌ start_transfer block_length_at
    afd.Downloader.Piece.is_complete afd.Downloader.Bitfield.Bytes.clear_bit
    afd.Downloader.Bitfield.Bytes.put_bit afd.Downloader.Bitfield.is_all_bit_set
    afd.Downloader.Bitfield.set_bit afd.Downloader.Bitfield.unset_use_bit
    afd.Downloader.Piece.block_index_for_offset afd.Downloader.Piece.cancel_block
    afd.Downloader.Piece.complete_block afd.Downloader.Piece.take_block
    afd.Downloader.Worker.advance_block afd.Downloader.Worker.cancel_current
    afd.Downloader.Worker.continue_with afd.Downloader.Worker.end_read
    afd.Downloader.Worker.take_data afd.Prelude.byte_clear afd.Prelude.byte_set range_loop
    afd.Downloader.Worker.end_range afd.Downloader.Worker.mark_written
    afd.Downloader.Worker.complete_from afd.Downloader.Worker.store_range afd.Prelude.◌+ℤ◌ at_end
    overlaps
half_block_marked = refl

abbrev plain_error : GoError
plain_error =
    other_error (record { retryable = none; mentions = λ s. false; net = none; status = none })

abbrev server_error : GoError
server_error =
    other_error (record { retryable = none; mentions = λ s. false; net = none; status = some 503 })

abbrev retries : RetryConfig
retries = record { max_retries = 2; initial_interval = 1; max_interval = 3; scale = λ n. 2 * n }

abbrev failing : Calls
failing = record {
  result = λ n. some server_error;
  done_before = λ n. false;
  done_waiting = λ n. false;
}

do_with_retry_lem_example :
    ((do_with_retry retries failing).calls ≤ 3)
    × Explains failing 2
        (do_with_retry retries failing).calls
        (do_with_retry retries failing).outcome
    × Retried failing 0 (do_with_retry retries failing).calls
    × (all_at_most 3 (do_with_retry retries failing).waits ≡ true)
do_with_retry_lem_example = do_with_retry_lem retries failing (omega arith)

three_calls : (do_with_retry retries failing).calls ≡ 3
unfolding do_with_retry afd.Downloader.Retry.fault
three_calls = refl

abbrev refusing : World ℕ
refusing = record { attempt = λ url s. (failed plain_error, s); wait = λ b s. (true, s) }

refusing-good :
    (url : String) (s s' : ℕ) (e : GoError)
    → refusing.attempt url s ≡ (failed e, s')
    → is_permanent_error e ≡ true
refusing-good url s s' e h = rw⁻¹ (same) (unmarked_error-permanent _ refl refl refl refl refl)
  where
    same : plain_error ≡ e
    same = ground (arith, h)

download_piece_tries_once_example :
    (download_piece refusing ("a" ∷ "b" ∷ []) 5 0).tried ≡ "a" ∷ "b" ∷ []
unfolding download_piece
download_piece_tries_once_example =
    download_piece_tries_once refusing ("a" ∷ "b" ∷ []) 5 0 refusing-good refl

abbrev slow_bucket : RateLimiter
slow_bucket = record { rate = 1000; burst = 1000; tokens = 1000; last_update = 0 }

abbrev clock_at : ℕ → Clock
clock_at n = record { measured = n; updated = n }

abbrev calls : List (Clock × ℕ)
calls = (clock_at (10 ^ 8), 900) ∷ (clock_at (2 * 10 ^ 8), 300) ∷ (clock_at (3 * 10 ^ 8), 300) ∷ []

allow_all-bound_example :
    ((allow_all calls slow_bucket).0 + (allow_all calls slow_bucket).1.tokens) * second + 1000 * 0
    ≤ 1000 * second + 1000 * (allow_all calls slow_bucket).1.last_update
unfolding afd.Downloader.Limiter.Bucket.read_in_order
allow_all-bound_example = allow_all-bound calls slow_bucket refl

-- A bucket for 1000 bytes per second and a buffer of 32 KB.
wait_over_burst_example :
    ((wait 32768 ((clock_at (10 ^ 11), false) ∷ []) slow_bucket).0 ≡ context_done)
    ⊎ ((wait 32768 ((clock_at (10 ^ 11), false) ∷ []) slow_bucket).0 ≡ still_waiting)
wait_over_burst_example =
    wait_over_burst 32768 ((clock_at (10 ^ 11), false) ∷ []) slow_bucket (omega arith) (omega arith)
      (omega arith)
