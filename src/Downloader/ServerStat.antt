-- ===== src/Downloader/ServerStat.antt =====
-- internal/downloader/serverstat.go: the speeds and failures of the servers. `extract_server` is what
-- `extractServer` makes of a URL with net/url. Speeds are not negative.
pub mod Window
use afd.Prelude.{
  ℕ, zero, suc, ◌+◌, ◌/◌, Bool, true, false, not, ◌&&◌, List, [], ◌∷◌, ◌++◌, Option, none, some,
  String, str_eq, arith, if◌then◌else◌, ltb, leb, ◌==◌, length, drop, GoMap, lookup, insert,
}

pub record ServerStat : Type 0 where
  pub url : String
  pub speed : ℕ
  pub fail_count : ℕ
  pub last_update : ℕ
  pub speed_samples : List ℕ

abbrev pub new_stat : String → ServerStat
new_stat server = record {
  url = server;
  speed = 0;
  fail_count = 0;
  last_update = 0;
  speed_samples = [];
}

unfoldable pub stat_of : String → GoMap ServerStat → ServerStat
stat_of server m = elim (lookup server m) [ none ↦ new_stat server | some s ↦ s ]

unfoldable pub sum_of : List ℕ → ℕ
sum_of [] = 0
sum_of (x ∷ xs) = x + sum_of xs

-- The window of samples after one more.
unfoldable pub push_sample : ℕ → List ℕ → List ℕ
push_sample speed samples =
    let longer = samples ++ speed ∷ [] in if ltb 10 (length longer) then drop 1 longer else longer

unfoldable pub record_speed :
    (String → String) → String → ℕ → ℕ → GoMap ServerStat → GoMap ServerStat
unfolding stat_of sum_of push_sample
record_speed extract_server raw_url speed now m =
    let server = extract_server raw_url in
    let stat = stat_of server m in
    let samples = push_sample speed stat.speed_samples in
    insert server
      (record stat {
        speed_samples = samples;
        speed = sum_of samples / length samples;
        last_update = now;
        fail_count = 0;
      })
      m

unfoldable pub record_failure : (String → String) → String → GoMap ServerStat → GoMap ServerStat
unfolding stat_of
record_failure extract_server raw_url m =
    let stat = stat_of (extract_server raw_url) m in
    insert (extract_server raw_url) (record stat { fail_count = stat.fail_count + 1 }) m

unfoldable pub get_speed : (String → String) → String → GoMap ServerStat → ℕ
get_speed extract_server raw_url m = elim (lookup (extract_server raw_url) m) [
  | none ↦ 0
  | some s ↦ s.speed
]

unfoldable pub get_fail_count : (String → String) → String → GoMap ServerStat → ℕ
get_fail_count extract_server raw_url m = elim (lookup (extract_server raw_url) m) [
  | none ↦ 0
  | some s ↦ s.fail_count
]

-- The orders of the selectors `feedback` and `adaptive`: does the first URL come before the second?
unfoldable pub feedback_less : ℕ × ℕ → ℕ × ℕ → Bool
feedback_less (speed, fails) (speed', fails') =
    if speed == speed' then ltb fails fails' else ltb speed' speed

unfoldable pub adaptive_less : ℕ × ℕ → ℕ × ℕ → Bool
unfolding feedback_less
adaptive_less (speed, fails) (speed', fails') =
    if speed == 0 && ltb 0 speed'
    then true
    else if ltb 0 speed && speed' == 0
    then false
    else feedback_less (speed, fails) (speed', fails')

-- `SortURLsBySelector`, where `sort` is `sort.Slice` with the given order.
unfoldable pub sort_urls_by_selector :
    ((String → String → Bool) → List String → List String)
    → (String → String)
    → List String
    → String
    → GoMap ServerStat
    → List String
unfolding feedback_less adaptive_less get_speed get_fail_count
sort_urls_by_selector sort extract_server urls selector m =
    let key : String → ℕ × ℕ =
      λ u. (get_speed extract_server u m, get_fail_count extract_server u m) in
    if leb (length urls) 1
    then urls
    else if str_eq selector "feedback"
    then sort (λ u v. feedback_less (key u) (key v)) urls
    else if str_eq selector "adaptive"
    then sort (λ u v. adaptive_less (key u) (key v)) urls
    else urls
