-- ===== src/Downloader/Retry/Sources.antt =====
-- How often `downloadPiece` tries each source.
use afd.Prelude.{
  ℕ, zero, suc, ◌+◌, ◌*◌, ◌^◌, ◌≤◌, ◌≡◌, ◌⊎◌, refl, ap, true, false, List, [], ◌∷◌, String, arith,
  length, length-append, Bool-cases, inl, inr, none,
}
use afd.Downloader.Retry.{
  Fault, GoError, other_error, is_permanent_error, is_retryable_error, early_answer,
  retryable_status, client_fault, fault, World, Attempt, fetched, interrupted, failed, Tried,
  piece_done, piece_cancelled, next_source, all_sources_failed, after_attempt, retry_source,
  try_source, is_next_source, try_sources, download_piece, next_backoff,
}

-- An error that carries none of the marks that the code looks for is permanent, whatever its text says but for
-- the two phrases.
pub unmarked_error-permanent :
    (f : Fault)
    → f.retryable ≡ none
    → f.net ≡ none
    → f.status ≡ none
    → f.mentions "timeout" ≡ false
    → f.mentions "context deadline exceeded" ≡ false
    → is_permanent_error (other_error f) ≡ true
unfolding is_permanent_error is_retryable_error early_answer retryable_status client_fault fault
unmarked_error-permanent f marks net status no_timeout no_deadline =
    ground (arith, marks, net, status, no_timeout, no_deadline)

module _ {ℓ} {S : Type ℓ} (w : World S) where
  -- Every attempt that fails does so with a permanent error.
  abbrev pub FailsForGood : Type ℓ
  FailsForGood =
      (url : String) (s s' : S) (e : GoError)
      → w.attempt url s ≡ (failed e, s')
      → is_permanent_error e ≡ true

  Attempt-cases :
      (a : Attempt × S)
      → ((s : S) × (a ≡ (fetched, s)))
        ⊎ ((s : S) × (a ≡ (interrupted, s)))
        ⊎ ((e : GoError) × (s : S) × (a ≡ (failed e, s)))
  Attempt-cases (fetched, s) = inl (s, refl)
  Attempt-cases (interrupted, s) = inr (inl (s, refl))
  Attempt-cases (failed e, s) = inr (inr (e, s, refl))

  after_attempt-length :
      (url : String) (b n : ℕ) (a : Attempt × S) (again : S → Tried S)
      → ((s : S) → length (again s).tried ≤ n)
      → length (after_attempt w url b a again).tried ≤ n + 1
  unfolding after_attempt
  after_attempt-length url b n (fetched, s) again h = omega arith
  after_attempt-length url b n (interrupted, s) again h = omega arith
  after_attempt-length url b n (failed e, s) again h = elim (Bool-cases (is_permanent_error e)) [
    | inl over ↦ rw over (omega arith)
    | inr retry ↦ rw retry (omega (arith, h s))
  ]

  retry_source-length :
      (url : String) (n b : ℕ) (s : S) → length (retry_source w url n b s).tried ≤ n
  unfolding retry_source
  retry_source-length url zero b s = omega arith
  retry_source-length url (suc n) b s = elim (Bool-cases (w.wait b s).0) [
    | inr stopped ↦ rw stopped (omega arith)
    | inl fired ↦ rw fired (
        omega (
          arith,
          after_attempt-length url (next_backoff b) n (w.attempt url (w.wait b s).1)
              (λ s'. retry_source w url n (next_backoff b) s')
              (λ s'. retry_source-length url n (next_backoff b) s'),
        ))
  ]

  try_sources-length :
      (urls : List String) (n b : ℕ) (s : S)
      → length (try_sources w urls n b s).tried ≤ length urls * (n + 1)
  unfolding try_sources try_source
  try_sources-length [] n b s = omega arith
  try_sources-length (url ∷ urls) n b s =
      let first =
        after_attempt-length url b n (w.attempt url s) (λ s'. retry_source w url n b s')
          (λ s'. retry_source-length url n b s') in
      let this = try_source w url n b s in
      elim (Bool-cases (is_next_source this.ended)) [
        | inr over ↦ rw over (grind (arith, first))
        | inl next ↦
            rw (next, length-append this.tried (try_sources w urls n this.backoff this.state).tried)
              (grind (arith, first, try_sources-length urls n this.backoff this.state))
      ]

  try_source-once :
      FailsForGood
      → (url : String) (n b : ℕ) (s : S)
      → ((try_source w url n b s).ended ≡ piece_done)
        ⊎ ((try_source w url n b s).ended ≡ piece_cancelled)
        ⊎ (((try_source w url n b s).ended ≡ next_source)
            × ((try_source w url n b s).tried ≡ url ∷ []))
  unfolding try_source after_attempt
  try_source-once good url n b s = elim (Attempt-cases (w.attempt url s)) [
    | inl (s', hit) ↦ rw hit (inl refl)
    | inr (inl (s', hit)) ↦ rw hit (inr (inl refl))
    | inr (inr (e, s', hit)) ↦ rw (hit, good url s s' e hit) (inr (inr (refl, refl)))
  ]

  try_sources-once :
      FailsForGood
      → (urls : List String) (n b : ℕ) (s : S)
      → (try_sources w urls n b s).ended ≡ all_sources_failed
      → (try_sources w urls n b s).tried ≡ urls
  unfolding try_sources is_next_source
  try_sources-once good [] n b s e = refl
  try_sources-once good (url ∷ urls) n b s e = elim (try_source-once good url n b s) [
    | inl done ↦ absurd (ground (arith, done, e))
    | inr (inl stopped) ↦ absurd (ground (arith, stopped, e))
    | inr (inr (next, one)) ↦
        let this = try_source w url n b s in
        let rest = try_sources-once good urls n this.backoff this.state in
        rw (next, one) (ap (λ us. url ∷ us) (rest (ground (arith, next, e))))
  ]

-- `downloadPiece` makes at most one attempt and `MaxRetries` more at each source.
pub download_piece-length {ℓ} :
    {S : Type ℓ} (w : World S) (urls : List String) (max_retries : ℕ) (s : S)
    → length (download_piece w urls max_retries s).tried ≤ length urls * (max_retries + 1)
unfolding download_piece
download_piece-length w urls n s = try_sources-length w urls n (10 ^ 9) s

-- Where every error of an attempt is permanent, as one without marks is, `downloadPiece` makes no retry at all:
-- if neither an attempt succeeds nor the context ends, each source has been tried once, in their order.
pub download_piece_tries_once {ℓ} :
    {S : Type ℓ} (w : World S) (urls : List String) (max_retries : ℕ) (s : S)
    → FailsForGood w
    → (download_piece w urls max_retries s).ended ≡ all_sources_failed
    → (download_piece w urls max_retries s).tried ≡ urls
unfolding download_piece
download_piece_tries_once w urls n s good e = try_sources-once w good urls n (10 ^ 9) s e
