-- ===== src/Watchdog/Tests.antt =====
-- The watchdog (src/no-progress.js) over a command that writes once and then hangs.
use lane_broker.Prelude.{ℕ, ◌+◌, ◌≤◌, ◌≡◌, refl, true, Option, some, List, [], ◌∷◌}
use lane_broker.Watchdog.Streak.{
  QuietSince, WatchEvent, look, output, should_kill-QuietSince, watch_event, watch_run,
}
use lane_broker.Watchdog.{
  Snapshot, baseline_of, cpu_before, cpu_delta, idle_between, interval_cpu, is_idle, new_watch,
  note_output, observe, should_kill,
}

abbrev tree : (cpu : ℕ) → Option Snapshot
tree cpu = some ((7, cpu) ∷ (8, 100) ∷ [])

abbrev hanging : List WatchEvent
hanging =
    look (tree 0) 1000
    ∷ output 20 2000
    ∷ look (tree 5000) 11000
    ∷ look (tree 5000) 21000
    ∷ look (tree 6000) 31000
    ∷ []

hanging_killed :
    should_kill 30000 (observe (watch_run new_watch hanging) (tree 6000) 41000).1 ≡ true
unfolding should_kill observe watch_run watch_event note_output is_idle idle_between interval_cpu
    cpu_delta cpu_before baseline_of
hanging_killed = refl

should_kill-QuietSince_example :
    (is_idle (watch_run new_watch hanging) (tree 6000) 41000 ≡ true)
    × QuietSince new_watch (watch_run new_watch hanging).idle_since hanging
    × ((watch_run new_watch hanging).idle_since + 30000 ≤ 41000)
should_kill-QuietSince_example =
    should_kill-QuietSince new_watch hanging (tree 6000) 41000 30000 refl hanging_killed
