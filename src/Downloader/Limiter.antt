-- ===== src/Downloader/Limiter.antt =====
-- internal/downloader/ratelimit.go: the token bucket of a transfer, the buckets of the tasks, and the schedule
-- that sets the global rate. Times are in ns; rates, bursts and counts are not negative, as their callers keep them.
pub mod Bucket
pub mod Schedule
use afd.Prelude.{
  ℕ, zero, suc, ◌+◌, ◌-◌, ◌*◌, ◌/◌, ◌^◌, Bool, true, false, not, ◌&&◌, List, [], ◌∷◌, Option, none,
  some, String, str_eq, arith, if◌then◌else◌, ltb, leb, ◌==◌, GoMap, lookup, insert, delete,
}

pub record RateLimiter : Type 0 where
  pub rate : ℕ
  pub burst : ℕ
  pub tokens : ℕ
  pub last_update : ℕ

-- The clock as one call of `refill` reads it: for the time since the last update, and for the new update.
pub record Clock : Type 0 where
  pub measured : ℕ
  pub updated : ℕ

abbrev pub second : ℕ
second = 10 ^ 9

unfoldable pub new_rate_limiter : ℕ → ℕ → ℕ → RateLimiter
new_rate_limiter rate burst now =
    let by_rate : ℕ = if burst == 0 then rate else burst in
    let size : ℕ = if by_rate == 0 then 1024 * 1024 else by_rate in
    record { rate = rate; burst = size; tokens = size; last_update = now }

-- The product of the rate and the seconds is truncated to a whole number of tokens.
unfoldable pub refill : Clock → RateLimiter → RateLimiter
refill c r =
    let elapsed : ℕ = c.measured - r.last_update in
    let filled : ℕ = r.tokens + r.rate * elapsed / second in
    if elapsed == 0 then r else record r {
      tokens = if ltb r.burst filled then r.burst else filled;
      last_update = c.updated;
    }

unfoldable pub allow : Clock → ℕ → RateLimiter → Bool × RateLimiter
unfolding refill
allow c n r =
    let r' = refill c r in
    if leb n r'.tokens then (true, record r' { tokens = r'.tokens - n }) else (false, r')

-- How a call of `Wait` ends: with nil, with the error of the context, or not within the rounds that are given.
pub data WaitEnd : Type 0 where
  granted unlimited context_done still_waiting : WaitEnd

-- The rounds of the loop of `Wait`: the clock of each, and whether the context is done before the timer fires.
unfoldable pub wait_rounds : ℕ → List (Clock × Bool) → RateLimiter → WaitEnd × RateLimiter
unfolding allow
wait_rounds n [] r = (still_waiting, r)
wait_rounds n ((c, done) ∷ rounds) r =
    let (ok, r') = allow c n r in
    let rest = wait_rounds n rounds r' in
    if ok then (granted, r') else if done then (context_done, r') else rest

unfoldable pub wait : ℕ → List (Clock × Bool) → RateLimiter → WaitEnd × RateLimiter
unfolding wait_rounds
wait n rounds r = if r.rate == 0 then (unlimited, r) else wait_rounds n rounds r

unfoldable pub set_rate : ℕ → RateLimiter → RateLimiter
set_rate rate r =
    if rate == 0 then record r { rate = rate; tokens = r.burst } else record r { rate = rate }

-- A text as its bytes, and Go's order on texts.
unfoldable pub bytes_less : List ℕ → List ℕ → Bool
bytes_less xs [] = false
bytes_less [] (y ∷ ys) = true
bytes_less (x ∷ xs) (y ∷ ys) =
    let rest = bytes_less xs ys in if ltb x y then true else if ltb y x then false else rest

-- pkg/config/config.go, `ScheduleSpeedLimit`.
pub record ScheduleSpeedLimit : Type 0 where
  pub start_time : List ℕ
  pub end_time : List ℕ
  pub limit : ℕ
  pub weekday : Option ℕ

pub record GlobalRateLimiter : Type 0 where
  pub limiter : RateLimiter
  pub task_limit : GoMap RateLimiter
  pub schedule_limits : List ScheduleSpeedLimit
  pub default_rate : ℕ

unfoldable pub on_day : Option ℕ → ℕ → Bool
on_day none today = true
on_day (some day) today = day == today

unfoldable pub applies : ℕ → List ℕ → ScheduleSpeedLimit → Bool
unfolding on_day
applies today clock s =
    on_day s.weekday today && not (bytes_less clock s.start_time) && bytes_less clock s.end_time

-- The rate that the schedule asks for: that of the first limit that applies, or the default.
unfoldable pub scheduled_rate : ℕ → List ℕ → List ScheduleSpeedLimit → ℕ → ℕ
unfolding applies
scheduled_rate today clock [] default_rate = default_rate
scheduled_rate today clock (s ∷ limits) default_rate =
    let rest : ℕ = scheduled_rate today clock limits default_rate in
    if applies today clock s then s.limit else rest

unfoldable pub check_schedule : ℕ → List ℕ → GlobalRateLimiter → GlobalRateLimiter
unfolding scheduled_rate set_rate
check_schedule today clock g =
    let rate : ℕ = scheduled_rate today clock g.schedule_limits g.default_rate in
    if g.limiter.rate == rate then g else record g { limiter = set_rate rate g.limiter }

unfoldable pub set_task_rate : String → ℕ → ℕ → GlobalRateLimiter → GlobalRateLimiter
unfolding set_rate new_rate_limiter
set_task_rate id rate now g =
    if rate == 0
    then record g { task_limit = delete id g.task_limit }
    else elim (lookup id g.task_limit) [
      | none ↦ record g { task_limit = insert id (new_rate_limiter rate rate now) g.task_limit }
      | some r ↦ record g { task_limit = insert id (set_rate rate r) g.task_limit }
    ]
