-- ===== src/Downloader/Limiter/Schedule.antt =====
-- When the limits of the schedule apply.
use afd.Prelude.{ℕ, ◌≡◌, refl, true, false, List, [], ◌∷◌, ◌++◌, arith}
use afd.Downloader.Limiter.{
  ScheduleSpeedLimit, GlobalRateLimiter, bytes_less, applies, scheduled_rate, check_schedule,
  set_rate,
}

-- Go's order on texts: what is below a text that is not above another is below that other.
bytes_less-below :
    (xs ys zs : List ℕ)
    → bytes_less xs ys ≡ true
    → bytes_less zs ys ≡ false
    → bytes_less xs zs ≡ true
unfolding bytes_less
bytes_less-below xs [] zs h k = ground (arith, h)
bytes_less-below [] (y ∷ ys) [] h k = ground (arith, k)
bytes_less-below [] (y ∷ ys) (z ∷ zs) h k = refl
bytes_less-below (x ∷ xs) (y ∷ ys) [] h k = ground (arith, k)
bytes_less-below (x ∷ xs) (y ∷ ys) (z ∷ zs) h k = ground (arith, h, k, bytes_less-below xs ys zs)

night-never :
    (s : ScheduleSpeedLimit) (today : ℕ) (clock : List ℕ)
    → bytes_less s.start_time s.end_time ≡ false
    → applies today clock s ≡ false
unfolding applies
night-never s today clock night =
    ground (arith, night, bytes_less-below clock s.end_time s.start_time)

-- A limit of the schedule whose end is not after its start, as of a night that runs past midnight, applies at
-- no time of any day, so the rate is what the other limits ask for.
pub overnight_never :
    (s : ScheduleSpeedLimit) (before after : List ScheduleSpeedLimit) (today : ℕ) (clock : List ℕ)
    (default_rate : ℕ)
    → bytes_less s.start_time s.end_time ≡ false
    → scheduled_rate today clock (before ++ s ∷ after) default_rate
      ≡ scheduled_rate today clock (before ++ after) default_rate
unfolding scheduled_rate
overnight_never s [] after today clock default_rate night =
    rw (night-never s today clock night) refl
overnight_never s (b ∷ before) after today clock default_rate night =
    rw (overnight_never s before after today clock default_rate night) refl

-- `checkSchedule` leaves the global limiter at the rate that the schedule asks for.
pub check_schedule-rate :
    (today : ℕ) (clock : List ℕ) (g : GlobalRateLimiter)
    → (check_schedule today clock g).limiter.rate
      ≡ scheduled_rate today clock g.schedule_limits g.default_rate
unfolding check_schedule set_rate
check_schedule-rate today clock g = ground arith
