-- ===== src/Downloader/Adaptive/Threads.antt =====
-- How far the number of threads moves.
use afd.Prelude.{
  ℕ, ◌+◌, ◌-◌, ◌*◌, ◌/◌, ◌≤◌, ◌<◌, ◌≡◌, ◌∙◌, ap, subst, ◌⊎◌, refl, Bool, true, false, not, ◌&&◌,
  arith, ltb, ◌==◌, Bool-cases, inl, inr, length, length-set,
}
use afd.Downloader.Adaptive.{
  AdaptiveController, add_sample, increment_threads, decrement_threads, adjust, adjust_interval,
  speed_threshold, should_adjust, interval_speed,
}

-- The threads stay within their bounds, and the head and the count within the ring.
pub record InBounds (ac : AdaptiveController) : Type 0 where
  pub least : 1 ≤ ac.min_threads
  pub most : ac.active_threads ≤ ac.max_threads
  pub ring : length ac.samples ≡ ac.window_size
  pub head_inside : ac.head < ac.window_size
  pub count_inside : ac.count ≤ ac.window_size

pub add_sample-InBounds :
    (now bytes : ℕ) (ac : AdaptiveController) → InBounds ac → InBounds (add_sample now bytes ac)
unfolding add_sample
add_sample-InBounds now bytes ac b = record {
  least = b.least;
  most = b.most;
  ring = length-set ac.samples ac.head _ ∙ b.ring;
  head_inside = omega (arith, b.head_inside);
  count_inside = ground (arith, b.count_inside);
}

-- A decision: no change, or one thread more or less.
record Moved (ac ac' : AdaptiveController) (n : ℕ) : Type 0 where
  counted : n ≡ ac'.active_threads
  by_one :
      ((n ≡ ac.active_threads + 1) × (n ≤ ac.max_threads))
      ⊎ ((n + 1 ≡ ac.active_threads) × (ac.min_threads ≤ n) × (2 ≤ n))
  stamped : ac'.last_adjust ≡ ac.last_adjust

adjust-step :
    (speed : ℕ) (ac : AdaptiveController)
    → (((adjust speed ac).1 ≡ false) × ((adjust speed ac).0 ≡ ac))
      ⊎ (((adjust speed ac).1 ≡ true) × Moved ac (adjust speed ac).0 (adjust speed ac).2)
unfolding adjust increment_threads decrement_threads
adjust-step speed ac = elim (Bool-cases up) [
  | inl more ↦ rw more (
      inr (
        refl,
        record {
          counted = ground (arith, more);
          by_one = inl (ground (arith, more));
          stamped = ground arith;
        },
      ))
  | inr not_more ↦ elim (Bool-cases down) [
    | inl fewer ↦
        rw (not_more, fewer)
          (inr (
            refl,
            record {
              counted = ground (arith, fewer);
              by_one = inr (ground (arith, fewer));
              stamped = ground arith;
            },
          ))
    | inr same ↦ rw (not_more, same) (inl (refl, refl))
  ]
]
  where
    up : Bool
    up = ltb speed speed_threshold && ltb ac.active_threads ac.max_threads

    down : Bool
    down =
        ltb ac.min_threads ac.active_threads
        && ltb speed_threshold speed
        && ltb (speed * 9 / 10) (speed / ac.active_threads * (ac.active_threads - 1))
        && ltb 2 ac.active_threads

throttled :
    (later now : ℕ) (ac : AdaptiveController)
    → ac.last_adjust ≡ now
    → 0 < now
    → later < now + adjust_interval
    → (should_adjust later ac).1 ≡ false
unfolding should_adjust
throttled later now ac e h soon =
    let early : (not (ac.last_adjust == 0) && ltb (later - ac.last_adjust) adjust_interval) ≡ true =
      ground (arith, e, h, soon) in
    rw early refl

abbrev checked : ℕ → AdaptiveController → AdaptiveController
checked now ac = record ac {
  last_check_bytes = ac.total_bytes;
  last_check_time = now;
  last_adjust = now;
}

should_adjust-early :
    (now : ℕ) (ac : AdaptiveController)
    → (not (ac.last_adjust == 0) && ltb (now - ac.last_adjust) adjust_interval) ≡ true
    → should_adjust now ac ≡ (ac, false, 0)
unfolding should_adjust
should_adjust-early now ac early = rw early refl

should_adjust-due :
    (now : ℕ) (ac : AdaptiveController)
    → (not (ac.last_adjust == 0) && ltb (now - ac.last_adjust) adjust_interval) ≡ false
    → should_adjust now ac ≡ adjust (interval_speed now ac) (checked now ac)
unfolding should_adjust
should_adjust-due now ac due = rw due refl

-- `shouldAdjust` leaves the number of threads alone, or moves it by one: up to the most at most, or down, but
-- not below the least, nor below two. Where it moves it, no call before the interval is over moves it again.
pub should_adjust-step :
    (now later : ℕ) (ac : AdaptiveController)
    → 0 < now
    → later < now + adjust_interval
    → (((should_adjust now ac).1 ≡ false)
        × ((should_adjust now ac).0.active_threads ≡ ac.active_threads))
      ⊎ (((should_adjust now ac).1 ≡ true)
          × ((((should_adjust now ac).0.active_threads ≡ ac.active_threads + 1)
                × ((should_adjust now ac).0.active_threads ≤ ac.max_threads))
              ⊎ (((should_adjust now ac).0.active_threads + 1 ≡ ac.active_threads)
                  × (ac.min_threads ≤ (should_adjust now ac).0.active_threads)
                  × (2 ≤ (should_adjust now ac).0.active_threads)))
          × ((should_adjust later (should_adjust now ac).0).1 ≡ false))
should_adjust-step now later ac h soon =
    elim (Bool-cases (not (ac.last_adjust == 0) && ltb (now - ac.last_adjust) adjust_interval)) [
      | inl early ↦ rw (should_adjust-early now ac early) (inl (refl, refl))
      | inr due ↦
          let r = adjust (interval_speed now ac) (checked now ac) in
          rw (should_adjust-due now ac due)
            (elim (adjust-step (interval_speed now ac) (checked now ac)) [
              | inl (still, same) ↦ inl (still, ap (λ c. c.active_threads) same)
              | inr (moved, m) ↦ inr (
                moved,
                subst
                    (λ n.
                      ((n ≡ ac.active_threads + 1) × (n ≤ ac.max_threads))
                      ⊎ ((n + 1 ≡ ac.active_threads) × (ac.min_threads ≤ n) × (2 ≤ n)))
                    m.counted m.by_one,
                throttled later now r.0 m.stamped h soon,
              )
            ])
    ]
