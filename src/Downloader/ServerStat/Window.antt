-- ===== src/Downloader/ServerStat/Window.antt =====
-- What the statistics of a server say after any successes and failures.
use afd.Prelude.{
  ℕ, ◌+◌, ◌-◌, ◌/◌, ◌≡◌, List, [], ◌∷◌, ◌++◌, String, str_eq, if◌then◌else◌, ◌==◌, length, drop,
  GoMap,
}
use afd.Downloader.ServerStat.{ServerStat, sum_of, record_speed, record_failure}

-- What is recorded: a speed at a time, or a failure, for a URL.
pub data Report : Type 0 where
  success : String → ℕ → ℕ → Report
  failure : String → Report

module _ (extract_server : String → String) where
  -- The statistics after the reports, the newest of which is first.
  unfoldable pub reported : List Report → GoMap ServerStat
  reported [] = []
  reported (success url speed now ∷ rs) = record_speed extract_server url speed now (reported rs)
  reported (failure url ∷ rs) = record_failure extract_server url (reported rs)

  -- The speeds of a server, the oldest first.
  unfoldable pub speeds_of : String → List Report → List ℕ
  speeds_of server [] = []
  speeds_of server (success url speed now ∷ rs) =
      let before = speeds_of server rs in
      if str_eq (extract_server url) server then before ++ speed ∷ [] else before
  speeds_of server (failure url ∷ rs) = speeds_of server rs

  -- The failures of a server since its last success.
  unfoldable pub failures_of : String → List Report → ℕ
  failures_of server [] = 0
  failures_of server (success url speed now ∷ rs) =
      let before : ℕ = failures_of server rs in
      if str_eq (extract_server url) server then 0 else before
  failures_of server (failure url ∷ rs) =
      let before : ℕ = failures_of server rs in
      if str_eq (extract_server url) server then before + 1 else before

-- The last ten of a list.
unfoldable pub last_ten : List ℕ → List ℕ
last_ten xs = drop (length xs - 10) xs

abbrev pub average : List ℕ → ℕ
average xs = if length xs == 0 then 0 else sum_of xs / length xs

-- The statistics of a server tell of these speeds, and of these failures since the last of them.
record Tells (stat : ServerStat) (speeds : List ℕ) (fails : ℕ) : Type 0 where
  samples : stat.speed_samples ≡ last_ten speeds
  speed : stat.speed ≡ average (last_ten speeds)
  failed : stat.fail_count ≡ fails
