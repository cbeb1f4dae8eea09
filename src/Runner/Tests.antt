-- ===== src/Runner/Tests.antt =====
-- The theorems on runners (src/runner-unreachable.js, src/runner-schedule.js) at concrete histories.
use lane_broker.Prelude.{
  ℕ, ◌+◌, ◌*◌, ◌≤◌, ◌<◌, ◌≡◌, refl, true, false, Option, none, some, List, [], ◌∷◌, arith, ◌==◌,
  if◌then◌else◌,
}
use lane_broker.Runner.Schedule.{
  Window, closing, day_ms, instant_of, latest_closing, occurrence, occurrences, runner_availability,
  today_start, week_day,
}
use lane_broker.Runner.Readiness.{read_readiness-record_readiness}
use lane_broker.Runner.Contact.{
  ContactEvent, contact, contact_run, contact_run-first_failure, first_failure, tick,
}
use lane_broker.Runner.{
  ContactFile, Runner, apply_contact, contacts, empty_file, is_down, is_fresh, read_readiness,
  readiness_ttl_ms, record_pings, record_readiness,
}

abbrev later_events : List ContactEvent
later_events =
    contact 2 false 2000 ∷ tick ((1, false) ∷ (2, true) ∷ []) 3000 ∷ contact 1 false 9000 ∷ []

-- Runner 1 answers a tick at 1000 and fails from 3000 on.
contact_run-first_failure_example :
    (contact_run empty_file
        (contact 1 false 500 ∷ (tick ((1, true) ∷ []) 1000 ∷ later_events))).unreachable
      1
    ≡ first_failure 1 later_events
contact_run-first_failure_example =
    contact_run-first_failure 1 empty_file (contact 1 false 500 ∷ []) (tick ((1, true) ∷ []) 1000)
      later_events refl (refl, tt) (tt, ((refl, (refl, tt)), (tt, tt)))
      (λ e. ground (arith, e), (λ e. ground (arith, e), (λ e. ground (arith, e), tt)))

first_failure_here : first_failure 1 later_events ≡ some 3000
first_failure_here = refl

abbrev failing_file : ContactFile
failing_file = record_pings empty_file ((1, false) ∷ []) 1000

abbrev runner_one : Runner
runner_one = record { name = 1; offline = false }

down_here : is_down failing_file 60000 90000 runner_one ≡ true
unfolding is_down is_fresh record_pings contacts apply_contact
down_here = refl

abbrev gap_found : ℕ → Option (List ℕ)
gap_found n = if n == 1 then some (5 ∷ []) else none

read_readiness-record_readiness_example :
    let read = read_readiness (record_readiness empty_file gap_found (λ n. false) 1000) 2000 1 in
    ((missing : List ℕ)
      → gap_found 1 ≡ some missing
      → (2000 ≤ 1000 + readiness_ttl_ms → read ≡ some (record { missing = missing; at = 1000 }))
        × (1000 + readiness_ttl_ms < 2000 → read ≡ none))
    × (gap_found 1 ≡ none → false ≡ true → read ≡ none)
    × (gap_found 1 ≡ none → false ≡ false → read ≡ read_readiness empty_file 2000 1)
read_readiness-record_readiness_example =
    read_readiness-record_readiness empty_file gap_found (λ n. false) 1000 2000 1 (omega arith)

-- Two hours ahead of UTC, 22:00 to 06:00 on Thursdays: instants on the second and third day.
abbrev two_ahead : ℕ → ℕ
two_ahead t = t + 7200000

abbrev nights : List Window
nights = record { days = 4 ∷ []; from = 1320; to = 360 } ∷ []

abbrev friday_night : ℕ
friday_night = day_ms + 23 * 3600000

available_here :
    runner_availability two_ahead (some nights) friday_night
    ≡ (true, some (2 * day_ms + 4 * 3600000))
unfolding runner_availability latest_closing closing occurrences occurrence today_start week_day
    instant_of
available_here = refl
