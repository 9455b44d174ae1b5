-- ===== src/Tests/Servers.antt =====
-- Runs of the .netrc parser, the thread control and the server statistics of internal/downloader.
use afd.Prelude.{
  ℕ, ◌+◌, ◌*◌, ◌^◌, ◌≤◌, ◌≡◌, ◌⊎◌, refl, Bool, true, false, List, [], ◌∷◌, Option, none, some,
  String, arith,
}
use afd.Downloader.Netrc.{NetrcEntry, load_netrc, get_credentials}
use afd.Downloader.Netrc.Written.{lines_of, load_netrc-lines_of}
use afd.Downloader.Adaptive.{
  AdaptiveController, new_adaptive_controller, add_sample, set_thread_count, should_adjust,
}
use afd.Downloader.Adaptive.Threads.{should_adjust-step}
use afd.Downloader.ServerStat.{get_speed}
use afd.Downloader.ServerStat.Window.{Report, success, failure, reported}

abbrev two_machines : List NetrcEntry
two_machines =
    record { machine = "a.org"; login = "ann"; password = "login"; account = "1" }
    ∷ record { machine = "b.org"; login = "bob"; password = "x"; account = "2" }
    ∷ []

load_netrc-lines_of_example :
    ((load_netrc (lines_of two_machines)).entries ≡ two_machines)
    × ((load_netrc (lines_of two_machines)).default_entry ≡ none)
unfolding afd.Downloader.Netrc.Written.all_plain afd.Downloader.Netrc.Written.is_word
    afd.Downloader.Netrc.is_space
load_netrc-lines_of_example = load_netrc-lines_of two_machines refl

-- The entry after `default` is the default of every host, and its password arrives later.
default_credentials :
    get_credentials (load_netrc ("default  login guest" ∷ " password p" ∷ [])) "c.org"
    ≡ ("guest", "p")
unfolding get_credentials load_netrc afd.Downloader.Netrc.is_space
default_credentials = refl

-- A line with an empty login takes the next keyword for it.
empty_login_is_lost :
    get_credentials (load_netrc ("machine c.org login  password p" ∷ [])) "c.org" ≡ ("password", "")
unfolding get_credentials load_netrc afd.Downloader.Netrc.is_space afd.Downloader.Netrc.find_in
empty_login_is_lost = refl

-- Four threads of at most eight, and a slow download.
abbrev slow : AdaptiveController
slow = add_sample 5 1000 (set_thread_count 4 (new_adaptive_controller 8 1))

should_adjust-step_example :
    (((should_adjust (10 ^ 9) slow).1 ≡ false)
      × ((should_adjust (10 ^ 9) slow).0.active_threads ≡ slow.active_threads))
    ⊎ (((should_adjust (10 ^ 9) slow).1 ≡ true)
        × ((((should_adjust (10 ^ 9) slow).0.active_threads ≡ slow.active_threads + 1)
              × ((should_adjust (10 ^ 9) slow).0.active_threads ≤ slow.max_threads))
            ⊎ (((should_adjust (10 ^ 9) slow).0.active_threads + 1 ≡ slow.active_threads)
                × (slow.min_threads ≤ (should_adjust (10 ^ 9) slow).0.active_threads)
                × (2 ≤ (should_adjust (10 ^ 9) slow).0.active_threads)))
        × ((should_adjust (2 * 10 ^ 9) (should_adjust (10 ^ 9) slow).0).1 ≡ false))
should_adjust-step_example =
    should_adjust-step (10 ^ 9) (2 * 10 ^ 9) slow (omega arith) (omega arith)

five_threads : (should_adjust (10 ^ 9) slow).0.active_threads ≡ 5
unfolding should_adjust add_sample set_thread_count new_adaptive_controller
five_threads = refl

abbrev reports : List Report
reports = failure "http://a/y" ∷ success "http://a/x" 30 2 ∷ success "http://a/x" 10 1 ∷ []

abbrev server : String → String
server url = "http://a"

mean_of_two : get_speed server "http://a/z" (reported server reports) ≡ 20
unfolding get_speed afd.Prelude.lookup reported afd.Downloader.ServerStat.record_failure
    afd.Prelude.insert afd.Downloader.ServerStat.record_speed
mean_of_two = refl
