-- ===== src/Downloader/Adaptive.antt =====
-- internal/downloader/adaptive.go: the number of threads of a download and the ring of speed samples. A method
-- that retries a compare-and-swap is one step. Times are in ns; floats are taken as exact and truncated.
pub mod Threads
use afd.Prelude.{
  ℕ, zero, suc, ◌+◌, ◌-◌, ◌*◌, ◌/◌, ◌%◌, ◌^◌, Bool, true, false, not, ◌&&◌, ◌||◌, List, [], ◌∷◌,
  Option, none, some, arith, if◌then◌else◌, ltb, leb, ◌==◌, set, get_elem?, replicate,
}

pub record SpeedSample : Type 0 where
  pub timestamp : ℕ
  pub bytes : ℕ

pub record AdaptiveController : Type 0 where
  pub samples : List SpeedSample
  pub window_size : ℕ
  pub head : ℕ
  pub count : ℕ
  pub active_threads : ℕ
  pub max_threads : ℕ
  pub min_threads : ℕ
  pub total_bytes : ℕ
  pub last_check_bytes : ℕ
  pub last_check_time : ℕ
  pub last_adjust : ℕ

abbrev pub speed_threshold : ℕ
speed_threshold = 50 * 1024

abbrev pub adjust_interval : ℕ
adjust_interval = 3 * 10 ^ 9

unfoldable pub new_adaptive_controller : ℕ → ℕ → AdaptiveController
new_adaptive_controller max_threads min_threads =
    let low : ℕ = if ltb min_threads 1 then 1 else min_threads in
    let high : ℕ = if ltb max_threads low then low else max_threads in
    record {
      samples = replicate 20 (record { timestamp = 0; bytes = 0 });
      window_size = 20;
      head = 0;
      count = 0;
      active_threads = 0;
      max_threads = high;
      min_threads = low;
      total_bytes = 0;
      last_check_bytes = 0;
      last_check_time = 0;
      last_adjust = 0;
    }

unfoldable pub add_sample : ℕ → ℕ → AdaptiveController → AdaptiveController
add_sample now bytes ac = record ac {
  samples = set ac.samples ac.head (record { timestamp = now; bytes = bytes });
  head = (ac.head + 1) % ac.window_size;
  count = if ltb ac.count ac.window_size then ac.count + 1 else ac.count;
  total_bytes = ac.total_bytes + bytes;
}

unfoldable pub bytes_at : List SpeedSample → ℕ → ℕ
bytes_at samples i = elim (get_elem? samples i) [ none ↦ 0 | some s ↦ s.bytes ]

unfoldable pub time_at : List SpeedSample → ℕ → ℕ
time_at samples i = elim (get_elem? samples i) [ none ↦ 0 | some s ↦ s.timestamp ]

unfoldable pub sum_ring : ℕ → ℕ → AdaptiveController → ℕ
unfolding bytes_at
sum_ring zero i ac = 0
sum_ring (suc n) i ac = bytes_at ac.samples (i % ac.window_size) + sum_ring n (i + 1) ac

unfoldable pub current_speed : ℕ → AdaptiveController → ℕ
unfolding sum_ring time_at
current_speed now ac =
    let oldest : ℕ = (ac.head + ac.window_size - ac.count) % ac.window_size in
    let duration : ℕ = now - time_at ac.samples oldest in
    if ac.count == 0
    then 0
    else if duration == 0
    then 0
    else sum_ring ac.count oldest ac * 10 ^ 9 / duration

unfoldable pub increment_threads : AdaptiveController → AdaptiveController × ℕ
increment_threads ac =
    if leb ac.max_threads ac.active_threads
    then (ac, ac.active_threads)
    else (record ac { active_threads = ac.active_threads + 1 }, ac.active_threads + 1)

unfoldable pub decrement_threads : AdaptiveController → AdaptiveController × ℕ
decrement_threads ac =
    if leb ac.active_threads ac.min_threads
    then (ac, ac.active_threads)
    else (record ac { active_threads = ac.active_threads - 1 }, ac.active_threads - 1)

unfoldable pub set_thread_count : ℕ → AdaptiveController → AdaptiveController
set_thread_count n ac = record ac { active_threads = n }

-- The speed since the last check; no time at all counts as a millisecond. A time that was never set is 0.
unfoldable pub interval_speed : ℕ → AdaptiveController → ℕ
interval_speed now ac =
    let elapsed : ℕ = now - ac.last_check_time in
    (ac.total_bytes - ac.last_check_bytes) * 10 ^ 9 / (if elapsed == 0 then 10 ^ 6 else elapsed)

-- The decision, after the times of the check are set.
unfoldable pub adjust : ℕ → AdaptiveController → AdaptiveController × Bool × ℕ
unfolding increment_threads decrement_threads
adjust speed ac =
    let up = increment_threads ac in
    let down = decrement_threads ac in
    let predicted : ℕ = speed / ac.active_threads * (ac.active_threads - 1) in
    if ltb speed speed_threshold && ltb ac.active_threads ac.max_threads
    then (up.0, true, up.1)
    else if ltb ac.min_threads ac.active_threads
        && ltb speed_threshold speed
        && ltb (speed * 9 / 10) predicted
        && ltb 2 ac.active_threads
    then (down.0, true, down.1)
    else (ac, false, ac.active_threads)

unfoldable pub should_adjust : ℕ → AdaptiveController → AdaptiveController × Bool × ℕ
unfolding adjust interval_speed
should_adjust now ac =
    let checked = record ac {
      last_check_bytes = ac.total_bytes;
      last_check_time = now;
      last_adjust = now;
    } in
    if not (ac.last_adjust == 0) && ltb (now - ac.last_adjust) adjust_interval
    then (ac, false, 0)
    else adjust (interval_speed now ac) checked

unfoldable pub reset : ℕ → AdaptiveController → AdaptiveController
reset now ac = record ac {
  head = 0;
  count = 0;
  last_check_bytes = 0;
  last_check_time = now;
  last_adjust = 0;
}
