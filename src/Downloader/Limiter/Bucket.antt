-- ===== src/Downloader/Limiter/Bucket.antt =====
-- What a token bucket lets pass.
use afd.Prelude.{
  ℕ, ◌+◌, ◌-◌, ◌*◌, ◌/◌, ◌≤◌, ◌<◌, ◌≡◌, ◌⊎◌, refl, ◌&&◌, leb→le, subst, Bool, true, false, List, [],
  ◌∷◌, arith, if◌then◌else◌, leb, ◌==◌, ==_iff, Bool-cases, inl, inr,
}
use native.Mathlib.Nat.{mul-le-mul_left, mul-add}
use afd.Downloader.Limiter.{
  RateLimiter, Clock, second, refill, allow, granted, context_done, still_waiting, wait_rounds,
  wait,
}

-- Calls of `Allow` in a row, and the tokens they let pass.
unfoldable pub allow_all : List (Clock × ℕ) → RateLimiter → ℕ × RateLimiter
allow_all [] r = (0, r)
allow_all ((c, n) ∷ calls) r =
    let (ok, r') = allow c n r in
    let (passed, r'') = allow_all calls r' in ((if ok then n else 0) + passed, r'')

-- Within a call, the clock is read for the update after it is read for the elapsed time.
unfoldable pub read_in_order : List (Clock × ℕ) → Bool
read_in_order [] = true
read_in_order ((c, n) ∷ calls) = leb c.measured c.updated && read_in_order calls

div_bound : (x : ℕ) → x / second * second ≤ x
div_bound x = omega arith

mul_shift : (rate last elapsed u : ℕ) → last + elapsed ≤ u → rate * last + rate * elapsed ≤ rate * u
mul_shift rate last elapsed u h = grind (arith, mul-le-mul_left rate h, mul-add rate last elapsed)

refill-bound :
    (c : Clock) (r : RateLimiter)
    → c.measured ≤ c.updated
    → (refill c r).tokens * second + r.rate * r.last_update
      ≤ r.tokens * second + r.rate * (refill c r).last_update
unfolding refill
refill-bound c r h = ground (
  arith,
  h,
  div_bound (r.rate * (c.measured - r.last_update)),
  mul_shift r.rate r.last_update (c.measured - r.last_update) c.updated,
)

refill-frame :
    (c : Clock) (r : RateLimiter)
    → ((refill c r).rate ≡ r.rate)
      × ((refill c r).burst ≡ r.burst)
      × (r.tokens ≤ r.burst → (refill c r).tokens ≤ r.burst)
unfolding refill
refill-frame c r = ground arith

allow-bound :
    (c : Clock) (n : ℕ) (r : RateLimiter)
    → c.measured ≤ c.updated
    → ((if (allow c n r).0 then n else 0) + (allow c n r).1.tokens) * second
        + r.rate * r.last_update
      ≤ r.tokens * second + r.rate * (allow c n r).1.last_update
unfolding allow
allow-bound c n r h = elim (Bool-cases (leb n (refill c r).tokens)) [
  | inl enough ↦ rw enough (omega (arith, refill-bound c r h, leb→le _ _ enough))
  | inr short ↦ rw short (omega (arith, refill-bound c r h))
]

allow-rate : (c : Clock) (n : ℕ) (r : RateLimiter) → (allow c n r).1.rate ≡ r.rate
unfolding allow
allow-rate c n r = ground (arith, refill-frame c r)

-- Whatever calls of `Allow` are made in a row, in 10^9ths of a token: what they let pass and what is left is no
-- more than what was there and what the rate brings from the last update before the calls to the last one
-- after them.
pub allow_all-bound :
    (calls : List (Clock × ℕ)) (r : RateLimiter)
    → read_in_order calls ≡ true
    → ((allow_all calls r).0 + (allow_all calls r).1.tokens) * second + r.rate * r.last_update
      ≤ r.tokens * second + r.rate * (allow_all calls r).1.last_update
unfolding allow_all read_in_order
allow_all-bound [] r h = omega arith
allow_all-bound ((c, n) ∷ calls) r h = omega (
  arith,
  allow-bound c n r (ground (arith, h)),
  subst
      (λ k.
        ((allow_all calls (allow c n r).1).0 + (allow_all calls (allow c n r).1).1.tokens) * second
          + k * (allow c n r).1.last_update
        ≤ (allow c n r).1.tokens * second + k * (allow_all calls (allow c n r).1).1.last_update)
      (allow-rate c n r) (allow_all-bound calls (allow c n r).1 (ground (arith, h))),
)

-- Rounds in which the tokens of a full bucket are too few.
wait_rounds-short :
    (n : ℕ) (rounds : List (Clock × Bool)) (r : RateLimiter)
    → r.tokens ≤ r.burst
    → r.burst < n
    → ((wait_rounds n rounds r).0 ≡ context_done) ⊎ ((wait_rounds n rounds r).0 ≡ still_waiting)
unfolding wait_rounds allow
wait_rounds-short n [] r few large = inr refl
wait_rounds-short n ((c, done) ∷ rounds) r few large =
    elim (Bool-cases (leb n (refill c r).tokens)) [
      | inl enough ↦ absurd (omega (arith, leb→le _ _ enough, (refill-frame c r).2 few, large))
      | inr short ↦ elim (Bool-cases done) [
        | inl stop ↦ rw (wait_rounds, short, stop) (inl refl)
        | inr fired ↦
            rw (wait_rounds, short, fired)
              (wait_rounds-short n rounds (refill c r) (ground (arith, refill-frame c r, few))
                (ground (arith, refill-frame c r, large)))
      ]
    ]

-- With a rate that is not 0 and no more tokens than the burst, a call of `Wait` for more than the burst never returns
-- nil, however long it waits: it ends with the error of the context or goes on waiting.
pub wait_over_burst :
    (n : ℕ) (rounds : List (Clock × Bool)) (r : RateLimiter)
    → 0 < r.rate
    → r.tokens ≤ r.burst
    → r.burst < n
    → ((wait n rounds r).0 ≡ context_done) ⊎ ((wait n rounds r).0 ≡ still_waiting)
unfolding wait
wait_over_burst n rounds r h few large = rw (rated) (wait_rounds-short n rounds r few large)
  where
    rated : (r.rate == 0) ≡ false
    rated = ground (arith, h)

enough_tokens :
    (n : ℕ) (c : Clock) (r : RateLimiter)
    → n ≤ r.burst
    → n * second ≤ r.tokens * second + r.rate * (c.measured - r.last_update)
    → n ≤ (refill c r).tokens
unfolding refill
enough_tokens n c r fits paid = elim (Bool-cases (c.measured - r.last_update == 0)) [
  | inl still ↦ rw still (
      omega (
        arith,
        subst (λ e. n * second ≤ r.tokens * second + r.rate * e) ((==_iff _ _).0 still) paid,
      ))
  | inr moved ↦ rw moved (ground (arith, fits, paid))
]

-- A call of `Wait` for no more than the burst returns nil in the first round whose clock is late enough for the
-- rate to have brought what the bucket lacks.
pub wait_grants :
    (n : ℕ) (c : Clock) (done : Bool) (rounds : List (Clock × Bool)) (r : RateLimiter)
    → 0 < r.rate
    → n ≤ r.burst
    → n * second ≤ r.tokens * second + r.rate * (c.measured - r.last_update)
    → (wait n ((c, done) ∷ rounds) r).0 ≡ granted
unfolding wait wait_rounds allow
wait_grants n c done rounds r h fits paid = ground (arith, h, enough_tokens n c r fits paid)
