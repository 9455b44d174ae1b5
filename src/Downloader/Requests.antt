-- ===== src/Downloader/Requests.antt =====
-- internal/downloader/downloader.go, `downloadPieceOnceFromURL`: the requests of one attempt at a piece, one
-- block or more at a time. No other worker changes the piece meanwhile.
pub mod Honest
use afd.Prelude.{
  ℕ, zero, suc, Bool, true, false, List, [], ◌∷◌, ◌++◌, arith, if◌then◌else◌, ◌==◌, ℤ, pos, negsuc,
}
use afd.Downloader.Piece.{
  Piece, next_unused_block, cancel_block, is_complete, block_index_for_offset,
}
use afd.Downloader.Worker.{
  Read, SpeedLimit, Transfer, Exit, finished, no_next_block, not_adjacent, block_done, rate_limited,
  write_failed, low_speed, interrupted, read_failed, short_read, waiting, start_transfer, read_loop,
}

-- What comes of a request: it cannot be made, it is not answered, or it is answered with a status and a body,
-- whose reading begins at a time.
pub data Reply : Type 0 where
  not_created not_answered : Reply
  answered : ℕ → ℕ → List Read → Reply

-- One round of the loop: whether the context is done at its start or while it waits for a block, and the reply
-- to its request, if it makes one.
pub record Round : Type 0 where
  pub done_before : Bool
  pub done_waiting : Bool
  pub reply : Reply

-- How an attempt ends. `piece_finished` calls `CompletePiece` and returns nil, and so does `body_end`, as far as
-- the piece is complete; the rest are the errors. `still_fetching` is a list of rounds that ends before.
pub data Fetched : Type 0 where
  piece_finished body_end context_ended no_request no_answer : Fetched
  range_not_supported : Fetched
  unexpected_status : ℕ → Fetched
  body_failed : Exit → Fetched
  still_fetching : Fetched

-- What the loop makes of the end of a body: it returns, or goes on with the next request.
pub data AfterBody : Type 0 where
  returns : Fetched → AfterBody
  next_request : AfterBody

unfoldable pub after_body : Exit → AfterBody
after_body finished = returns piece_finished
after_body no_next_block = next_request
after_body not_adjacent = next_request
after_body block_done = returns body_end
after_body rate_limited = returns (body_failed rate_limited)
after_body write_failed = returns (body_failed write_failed)
after_body low_speed = returns (body_failed low_speed)
after_body interrupted = returns context_ended
after_body read_failed = returns (body_failed read_failed)
after_body (short_read b n) = returns (body_failed (short_read b n))
after_body waiting = returns still_fetching

-- The piece and the writes of an attempt so far.
pub record Attempted : Type 0 where
  pub ended : Fetched
  pub piece : Piece
  pub writes : List (ℕ × ℕ)

abbrev pub stop : Fetched → Piece → List (ℕ × ℕ) → Attempted
stop f p ws = record { ended = f; piece = p; writes = ws }

-- The block that was taken for the request, given back.
abbrev pub give_back : Piece → ℕ → Piece
give_back p off = cancel_block p (block_index_for_offset p off)

-- A request for the block at `off`; `go_on` is the rest of the loop.
unfoldable pub request_block :
    SpeedLimit
    → Reply
    → Piece
    → ℕ
    → ℕ
    → List (ℕ × ℕ)
    → (Piece → List (ℕ × ℕ) → Attempted)
    → Attempted
unfolding after_body
request_block limit not_created p off len ws go_on = stop no_request (give_back p off) ws
request_block limit not_answered p off len ws go_on = stop no_answer (give_back p off) ws
request_block limit (answered status now reads) p off len ws go_on =
    let out = read_loop limit reads (start_transfer p off len now) in
    if status == 416
    then stop range_not_supported (give_back p off) ws
    else if status == 200
    then stop range_not_supported (give_back p off) ws
    else if status == 206
    then elim (after_body out.0) [
      | returns f ↦ stop f out.1.piece (out.1.writes ++ ws)
      | next_request ↦ go_on out.1.piece (out.1.writes ++ ws)
    ]
    else stop (unexpected_status status) (give_back p off) ws

unfoldable pub with_block :
    SpeedLimit
    → Round
    → Piece × ℤ × ℕ
    → List (ℕ × ℕ)
    → (Piece → List (ℕ × ℕ) → Attempted)
    → Attempted
unfolding request_block
with_block limit r (p, negsuc k, len) ws go_on =
    let rest = go_on p ws in
    if is_complete p
    then stop piece_finished p ws
    else if r.done_waiting
    then stop context_ended p ws
    else rest
with_block limit r (p, pos off, len) ws go_on = request_block limit r.reply p off len ws go_on

unfoldable pub fetch_piece : SpeedLimit → List Round → Piece → List (ℕ × ℕ) → Attempted
unfolding with_block
fetch_piece limit [] p ws = stop still_fetching p ws
fetch_piece limit (r ∷ rs) p ws =
    let go_on : Piece → List (ℕ × ℕ) → Attempted = λ p' ws'. fetch_piece limit rs p' ws' in
    if r.done_before
    then stop context_ended p ws
    else if is_complete p
    then stop piece_finished p ws
    else with_block limit r (next_unused_block p) ws go_on
