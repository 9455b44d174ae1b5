-- ===== src/Downloader/Retry/Attempts.antt =====
-- The number of calls, the waits and the result of `DoWithRetry`.
use afd.Prelude.{
  ℕ, zero, suc, ◌+◌, ◌≤◌, ◌<◌, ◌≡◌, ◌⊎◌, refl, sym, ◌&&◌, Bool, true, false, List, [], ◌∷◌, none,
  some, arith, leb, ◌==◌, ==_iff, Bool-cases, Option-cases, inl, inr,
}
use afd.Downloader.Retry.{
  GoError, is_permanent_error, RetryConfig, Calls, Outcome, succeeded, context_done, permanent,
  exceeded, Run, backoff_of, add_wait, retry_from, do_with_retry,
}

-- What an outcome after so many calls says of the last of them, where `last` is the greatest number of a call.
unfoldable pub Explains : Calls → ℕ → ℕ → Outcome → Type 0
Explains c last calls succeeded = (n : ℕ) × (calls ≡ n + 1) × (c.result n ≡ none)
Explains c last calls context_done =
    (n : ℕ) × (((calls ≡ n) × (c.done_before n ≡ true))
      ⊎ ((calls ≡ n + 1) × (c.done_waiting n ≡ true)))
Explains c last calls (permanent e) =
    (n : ℕ) × (calls ≡ n + 1) × (c.result n ≡ some e) × (is_permanent_error e ≡ true)
Explains c last calls (exceeded e) =
    (calls ≡ last + 1) × (c.result last ≡ some e) × (is_permanent_error e ≡ false)

-- The calls from `n` on but the last have failed with an error that is worth another attempt.
abbrev pub Retried : Calls → ℕ → ℕ → Type 0
Retried c n calls =
    (k : ℕ)
    → n ≤ k
    → k + 1 < calls
    → (e : GoError) × (c.result k ≡ some e) × (is_permanent_error e ≡ false)

unfoldable pub all_at_most : ℕ → List ℕ → Bool
all_at_most m [] = true
all_at_most m (w ∷ ws) = leb w m && all_at_most m ws

record Sensible (config : RetryConfig) (c : Calls) (last n : ℕ) (r : Run) : Type 0 where
  lower : n ≤ r.calls
  upper : r.calls ≤ last + 1
  reason : Explains c last r.calls r.outcome
  earlier : Retried c n r.calls
  short : all_at_most config.max_interval r.waits ≡ true

module _ (config : RetryConfig) (c : Calls) (last : ℕ) where
  -- The loop ends with call `n`, or before it.
  ended :
      (n calls : ℕ) (o : Outcome) (ws : List ℕ)
      → n ≤ calls
      → calls ≤ n + 1
      → n ≤ last
      → Explains c last calls o
      → all_at_most config.max_interval ws ≡ true
      → Sensible config c last n (record { outcome = o; calls = calls; waits = ws })
  ended n calls o ws l u m reason short = record {
    lower = l;
    upper = omega (arith, u, m);
    reason = reason;
    earlier = λ k h v. absurd (omega (arith, h, v, u));
    short = short;
  }

  -- The loop goes on after call `n`.
  goes_on :
      (n interval : ℕ) (e : GoError) (r : Run)
      → c.result n ≡ some e
      → is_permanent_error e ≡ false
      → Sensible config c last (n + 1) r
      → Sensible config c last n (add_wait (backoff_of config interval) r)
  unfolding all_at_most
  goes_on n interval e r hit again s = record {
    lower = omega (arith, s.lower);
    upper = s.upper;
    reason = s.reason;
    earlier = λ k h v. elim (Bool-cases (k == n)) [
      | inl this ↦ (e, rw ((==_iff k n).0 this) hit, again)
      | inr later ↦ s.earlier k (ground (arith, later, h)) v
    ];
    short = ground (arith, s.short);
  }

  one_short :
      (interval : ℕ) → all_at_most config.max_interval (backoff_of config interval ∷ []) ≡ true
  unfolding all_at_most
  one_short interval = ground arith

  retry_from-Sensible :
      (retries n interval : ℕ)
      → n + retries ≡ last
      → Sensible config c last n (retry_from config c retries n interval)
  unfolding retry_from Explains all_at_most
  retry_from-Sensible zero n interval at = elim (Bool-cases (c.done_before n)) [
    | inl done ↦ rw done (
        ended n n context_done [] (omega arith) (omega arith) (omega (arith, at))
          (n, inl (refl, done)) refl)
    | inr running ↦ elim (Option-cases (c.result n)) [
      | inl ok ↦
          rw (running, ok)
            (ended n (n + 1) succeeded [] (omega arith) (omega arith) (omega (arith, at))
              (n, refl, ok) refl)
      | inr (e, hit) ↦ elim (Bool-cases (is_permanent_error e)) [
        | inl over ↦
            rw (running, hit, over)
              (ended n (n + 1) (permanent e) [] (omega arith) (omega arith) (omega (arith, at))
                (n, refl, hit, over) refl)
        | inr spent ↦
            rw (running, hit, spent)
              (ended n (n + 1) (exceeded e) [] (omega arith) (omega arith) (omega (arith, at))
                (omega (arith, at), rw (sym (n_last at)) hit, spent) refl)
      ]
    ]
  ]
    where
      n_last : n + 0 ≡ last → n ≡ last
      n_last h = omega (arith, h)
  retry_from-Sensible (suc retries) n interval at = elim (Bool-cases (c.done_before n)) [
    | inl done ↦ rw done (
        ended n n context_done [] (omega arith) (omega arith) (omega (arith, at))
          (n, inl (refl, done)) refl)
    | inr running ↦ elim (Option-cases (c.result n)) [
      | inl ok ↦
          rw (running, ok)
            (ended n (n + 1) succeeded [] (omega arith) (omega arith) (omega (arith, at))
              (n, refl, ok) refl)
      | inr (e, hit) ↦ elim (Bool-cases (is_permanent_error e)) [
        | inl over ↦
            rw (running, hit, over)
              (ended n (n + 1) (permanent e) [] (omega arith) (omega arith) (omega (arith, at))
                (n, refl, hit, over) refl)
        | inr again ↦ elim (Bool-cases (c.done_waiting n)) [
          | inl done ↦
              rw (running, hit, again, done)
                (ended n (n + 1) context_done _ (omega arith) (omega arith) (omega (arith, at))
                  (n, inr (refl, done)) (one_short interval))
          | inr fired ↦
              rw (running, hit, again, fired)
                (goes_on n interval e _ hit again (
                  retry_from-Sensible retries (n + 1) (backoff_of config interval)
                    (omega (arith, at))))
        ]
      ]
    ]
  ]

-- `DoWithRetry` calls the function at most once and `MaxRetries` times more, and waits between the calls no
-- longer than the greatest interval each; where there are retries, each call but the last has failed with an
-- error that is not permanent, and the outcome says what ended the loop: a success, the context, a permanent
-- error of the last call, or an error of the last call that is allowed.
pub do_with_retry_lem :
    (config : RetryConfig) (c : Calls)
    → 0 < config.max_retries
    → ((do_with_retry config c).calls ≤ config.max_retries + 1)
      × Explains c config.max_retries
          (do_with_retry config c).calls
          (do_with_retry config c).outcome
      × Retried c 0 (do_with_retry config c).calls
      × (all_at_most config.max_interval (do_with_retry config c).waits ≡ true)
unfolding do_with_retry
do_with_retry_lem config c some_retries =
    let s =
      retry_from-Sensible config c config.max_retries config.max_retries 0 config.initial_interval
        (omega arith) in
    rw (not_none) (s.upper, s.reason, s.earlier, s.short)
  where
    not_none : (config.max_retries == 0) ≡ false
    not_none = ground (arith, some_retries)
