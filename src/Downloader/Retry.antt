-- ===== src/Downloader/Retry.antt =====
-- internal/downloader/retry.go: which errors are worth another attempt, and the loop that makes the attempts.
-- internal/downloader/downloader.go, `downloadPiece`: the attempts at a piece, source by source.
pub mod Attempts
pub mod Sources
use afd.Prelude.{
  ℕ, zero, suc, ◌+◌, ◌*◌, ◌/◌, ◌^◌, Bool, true, false, not, ◌&&◌, ◌||◌, List, [], ◌∷◌, ◌++◌, Option,
  none, some, String, arith, if◌then◌else◌, ltb, leb, ◌==◌,
}

-- What `errors.As` finds of the interface `net.Error`, with the type switches on it.
pub record NetFault : Type 0 where
  pub timeout : Bool
  pub is_dns : Bool
  pub is_addr : Bool

-- What the code asks an error: the flag of the `RetryableError` in its chain, whether its text, in lower case,
-- contains a given text, the `net.Error` in its chain, and the status of the `HTTPError` in its chain.
pub record Fault : Type 0 where
  pub retryable : Option Bool
  pub mentions : String → Bool
  pub net : Option NetFault
  pub status : Option ℕ

-- An error, which may be a `*url.Error` around another.
pub data GoError : Type 0 where
  other_error : Fault → GoError
  url_error : Fault → GoError → GoError

unfoldable pub fault : GoError → Fault
fault (other_error f) = f
fault (url_error f e) = f

unfoldable pub net_retryable : Fault → NetFault → Bool
net_retryable f n = n.timeout || n.is_dns || (n.is_addr && f.mentions "connection refused")

-- The tests up to the one for a `*url.Error`. `none` goes on to that one.
unfoldable pub early_answer : Fault → Option Bool
unfolding net_retryable
early_answer f =
    let by_net : Option Bool = elim f.net [
      | none ↦ none
      | some n ↦ if net_retryable f n then some true else none
    ] in
    elim f.retryable [
      | some r ↦ some r
      | none ↦
          if f.mentions "timeout" || f.mentions "context deadline exceeded"
          then some true
          else by_net
    ]

unfoldable pub retryable_status : Option ℕ → Bool
retryable_status none = false
retryable_status (some code) = leb 500 code || (code == 429)

unfoldable pub is_retryable_error : GoError → Bool
unfolding early_answer retryable_status
is_retryable_error (other_error f) = elim (early_answer f) [
  | some r ↦ r
  | none ↦ retryable_status f.status
]
is_retryable_error (url_error f e) =
    let cause = is_retryable_error e in elim (early_answer f) [ some r ↦ r | none ↦ cause ]

unfoldable pub client_fault : Option ℕ → Bool
client_fault none = false
client_fault (some code) = leb 400 code && ltb code 500 && not (code == 429)

-- `IsPermanentError` of an error that is not nil.
unfoldable pub is_permanent_error : GoError → Bool
unfolding is_retryable_error client_fault
is_permanent_error e = not (is_retryable_error e) || client_fault (fault e).status

pub record RetryConfig : Type 0 where
  pub max_retries : ℕ
  pub initial_interval : ℕ
  pub max_interval : ℕ
  -- `time.Duration(float64(interval) * config.Multiplier)`
  pub scale : ℕ → ℕ

-- What the loop depends on: the result of call `n` of `fn`, where nil is `none`, whether the context is done
-- before call `n`, and whether it is done before the timer fires after call `n`.
pub record Calls : Type 0 where
  pub result : ℕ → Option GoError
  pub done_before : ℕ → Bool
  pub done_waiting : ℕ → Bool

pub data Outcome : Type 0 where
  succeeded context_done : Outcome
  permanent exceeded : GoError → Outcome

-- How the loop ends, how often `fn` was called, and the waits between the calls.
pub record Run : Type 0 where
  pub outcome : Outcome
  pub calls : ℕ
  pub waits : List ℕ

abbrev pub backoff_of : RetryConfig → ℕ → ℕ
backoff_of config interval =
    if ltb config.max_interval (config.scale interval)
    then config.max_interval
    else config.scale interval

abbrev pub add_wait : ℕ → Run → Run
add_wait w r = record r { waits = w ∷ r.waits }

-- The loop at attempt `n`, with so many retries left.
unfoldable pub retry_from : RetryConfig → Calls → ℕ → ℕ → ℕ → Run
unfolding is_permanent_error
retry_from config c zero n interval =
    if c.done_before n
    then record { outcome = context_done; calls = n; waits = [] }
    else elim (c.result n) [
      | none ↦ record { outcome = succeeded; calls = n + 1; waits = [] }
      | some e ↦ record {
        outcome = if is_permanent_error e then permanent e else exceeded e;
        calls = n + 1;
        waits = [];
      }
    ]
retry_from config c (suc retries) n interval =
    let backoff = backoff_of config interval in
    let rest = add_wait backoff (retry_from config c retries (n + 1) backoff) in
    if c.done_before n
    then record { outcome = context_done; calls = n; waits = [] }
    else elim (c.result n) [
      | none ↦ record { outcome = succeeded; calls = n + 1; waits = [] }
      | some e ↦
          if is_permanent_error e
          then record { outcome = permanent e; calls = n + 1; waits = [] }
          else if c.done_waiting n
          then record { outcome = context_done; calls = n + 1; waits = backoff ∷ [] }
          else rest
    ]

-- `DoWithRetry`. Without retries `fn` is called once and its error returned as it is.
unfoldable pub do_with_retry : RetryConfig → Calls → Run
unfolding retry_from
do_with_retry config c =
    if config.max_retries == 0
    then record {
      outcome = elim (c.result 0) [ none ↦ succeeded | some e ↦ permanent e ];
      calls = 1;
      waits = [];
    }
    else retry_from config c config.max_retries 0 config.initial_interval

-- One attempt at a piece, as `downloadPiece` sees it: nil, an error with the context done, or another error.
pub data Attempt : Type 0 where
  fetched interrupted : Attempt
  failed : GoError → Attempt

-- The world of the attempts: an attempt from a source, and a wait, which ends early (false) if the context is done.
pub record World {ℓ} (S : Type ℓ) : Type ℓ where
  pub attempt : String → S → Attempt × S
  pub wait : ℕ → S → Bool × S

pub data PieceResult : Type 0 where
  piece_done piece_cancelled next_source : PieceResult
  all_sources_failed : PieceResult

abbrev pub next_backoff : ℕ → ℕ
next_backoff b = if ltb (30 * 10 ^ 9) (b * 3 / 2) then 30 * 10 ^ 9 else b * 3 / 2

-- How the attempts ended, the state, the backoff, and the sources tried, in order.
pub record Tried {ℓ} (S : Type ℓ) : Type ℓ where
  pub ended : PieceResult
  pub state : S
  pub backoff : ℕ
  pub tried : List String

unfoldable pub is_next_source : PieceResult → Bool
is_next_source next_source = true
is_next_source piece_done = false
is_next_source piece_cancelled = false
is_next_source all_sources_failed = false

module _ {ℓ} {S : Type ℓ} (w : World S) where
  -- What follows an attempt; `again` is the next round of the loop over the retries.
  unfoldable pub after_attempt : String → ℕ → Attempt × S → (S → Tried S) → Tried S
  unfolding is_permanent_error
  after_attempt url b (fetched, s) again = record {
    ended = piece_done;
    state = s;
    backoff = b;
    tried = url ∷ [];
  }
  after_attempt url b (interrupted, s) again = record {
    ended = piece_cancelled;
    state = s;
    backoff = b;
    tried = url ∷ [];
  }
  after_attempt url b (failed e, s) again =
      let rest = again s in
      if is_permanent_error e
      then record { ended = next_source; state = s; backoff = b; tried = url ∷ [] }
      else record rest { tried = url ∷ rest.tried }

  -- The retries of one source after the first attempt. The 1.5 is exact on the values that occur.
  unfoldable pub retry_source : String → ℕ → ℕ → S → Tried S
  unfolding after_attempt
  retry_source url zero b s = record { ended = next_source; state = s; backoff = b; tried = [] }
  retry_source url (suc retries) b s =
      let again : S → Tried S = λ s'. retry_source url retries (next_backoff b) s' in
      let (fired, s') = w.wait b s in
      let tried = after_attempt url (next_backoff b) (w.attempt url s') again in
      if fired
      then tried
      else record { ended = piece_cancelled; state = s'; backoff = b; tried = [] }

  unfoldable pub try_source : String → ℕ → ℕ → S → Tried S
  unfolding retry_source after_attempt
  try_source url max_retries b s =
      after_attempt url b (w.attempt url s) (λ s'. retry_source url max_retries b s')

  unfoldable pub try_sources : List String → ℕ → ℕ → S → Tried S
  unfolding try_source is_next_source
  try_sources [] max_retries b s = record {
    ended = all_sources_failed;
    state = s;
    backoff = b;
    tried = [];
  }
  try_sources (url ∷ urls) max_retries b s =
      let this = try_source url max_retries b s in
      let rest = try_sources urls max_retries this.backoff this.state in
      if is_next_source this.ended then record rest { tried = this.tried ++ rest.tried } else this

  unfoldable pub download_piece : List String → ℕ → S → Tried S
  unfolding try_sources
  download_piece urls max_retries s = try_sources urls max_retries (10 ^ 9) s
