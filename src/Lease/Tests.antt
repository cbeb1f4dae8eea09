-- ===== src/Lease/Tests.antt =====
-- Runs of the reaper on one lease, and the theorems of Lease/Reaping and Lease/Release at them.
use lane_broker.Prelude.{ℕ, ◌≡◌, ◌≢◌, ◌⊎◌, refl, true, false, none, some, List, [], ◌∷◌, arith}
use lane_broker.Records.{running, orphaned, test, Lease, OrphanReap, no_resources}
use lane_broker.Lease.{
  started_at, ProcessProbe, is_process_alive, Member, signal_live, held, step_orphan_reap,
  signal_pass, next_reap, Sight, reap_if_stale,
}
use lane_broker.Lease.Reaping.{GaveUp, reap_if_stale-file}
use lane_broker.Lease.Release.{Pass, reap_run, reap_run_ends}

abbrev pub lane_lease : Lease
lane_lease = record {
  id = 7;
  key = 3;
  boot_id = 1;
  state = running;
  supervisor_pid = 400;
  supervisor_start = some 55;
  child_pgid = 401;
  class = test;
  exclusive = false;
  weight = 2;
  resources = no_resources;
  granted_cpu_cores = none;
  cpu_scope_unit = false;
  orphan_reap = none;
}

-- The recorded pid now belongs to another process.
abbrev reused_pid : ProcessProbe
reused_pid = record { pid_alive = true; start = started_at 90; alive_again = true }

abbrev servers : List Member
servers = record { key = 12; signalable = true } ∷ record { key = 13; signalable = false } ∷ []

abbrev dead : Sight
dead = record { supervisor = reused_pid; group_alive = false; rows = some servers }

abbrev cleared : Sight
cleared = record { supervisor = reused_pid; group_alive = false; rows = some [] }

removes_cleared : (reap_if_stale 10000 1 500 lane_lease cleared).file ≡ none
unfolding reap_if_stale is_process_alive step_orphan_reap
removes_cleared = refl

reap_if_stale-file_example :
    let after = reap_if_stale 10000 1 500 lane_lease cleared in
    (after.file ≡ none
      → (lane_lease.boot_id ≢ 1)
        ⊎ ((is_process_alive cleared.supervisor lane_lease.supervisor_start ≡ false)
            × (cleared.group_alive ≡ false)
            × ((cleared.rows ≡ some []) ⊎ GaveUp lane_lease 500)))
    × ((l : Lease)
        → after.file ≡ some l
        → (lane_lease.boot_id ≡ 1)
          × (((is_process_alive cleared.supervisor lane_lease.supervisor_start ≡ true)
                × (l ≡ lane_lease))
              ⊎ ((is_process_alive cleared.supervisor lane_lease.supervisor_start ≡ false)
                  × (l.state ≡ orphaned))))
reap_if_stale-file_example = reap_if_stale-file 10000 1 500 lane_lease cleared

abbrev reaping : OrphanReap
reaping = record {
  scope_stop_attempted = false;
  term_at = 500;
  kill_at = none;
  signalled = 1;
  termed = 12 ∷ [];
  killed = [];
}

-- The lease after the first pass, at 500, and after the pass at 10500 that sends the KILL.
abbrev termed_lease : Lease
termed_lease = record lane_lease { state = orphaned; orphan_reap = some reaping }

abbrev killed_lease : Lease
killed_lease = record lane_lease {
  state = orphaned;
  orphan_reap = some (record reaping { kill_at = some 10500; signalled = 2; killed = 12 ∷ [] });
}

then_kills : step_orphan_reap 10000 termed_lease 10500 (some servers) ≡ held killed_lease
unfolding step_orphan_reap signal_pass next_reap signal_live
then_kills = refl

abbrev pass : ℕ → Pass
pass at = record { now = at; rows = some servers }

reap_run_ends_example :
    reap_run 10000 lane_lease (pass 500 ∷ pass 10500 ∷ pass 60500 ∷ pass 90500 ∷ []) ≡ none
reap_run_ends_example =
    reap_run_ends 10000 lane_lease (pass 500) (pass 10500 ∷ []) (pass 60500) [] (pass 90500) [] refl
      (omega arith) (omega arith) (omega arith)
