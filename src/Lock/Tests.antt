-- ===== src/Lock/Tests.antt =====
-- Runs of withLock (src/state.js), and the theorems of Lock's children at them.
use lane_broker.Prelude.{
  ℕ, ◌+◌, ◌*◌, ◌≤◌, ◌≡◌, ◌≢◌, ◌↔◌, refl, true, false, none, some, List, [], ◌∷◌, arith, All, sum_by,
}
use lane_broker.Lock.Waiting.{
  FailedTry, GivesUp, Policy, Timer, after_wait, after_wait-GivesUp, back_off, counted,
  late_attempts, run_waits, run_waits-ends, slept_ms,
}
use lane_broker.Lease.{ProcessProbe, is_process_alive, not_found}
use lane_broker.Lock.{
  write_draft, is_draft, is_free, is_empty, Answer, LockRoot, Owner, broken, bury, gc_tombs,
  has_token, holding, is_lock_owner_alive, is_stale, live_holder, moved, on_success, publish,
  read_owner, recovery_failed, stamp, step_call, tomb_owner, unreadable,
}
use lane_broker.Lock.System.{
  Host, Reach, System, act, after_call, after_gc, die, init, later, owner_of, start, update,
}
use lane_broker.Lock.Safety.{is_holding, mutual_exclusion, takeover_never_broken}

-- Each call is of a process of its own.
abbrev two_processes : Host
two_processes = record { process_of = λ i. i; pid_of = λ q. 400 + q; start_of = λ q. some (50 + q) }

abbrev no_such_pid : ProcessProbe
no_such_pid = record { pid_alive = false; start = not_found; alive_again = false }

abbrev going_well : Answer
going_well = record { fails = false; probe = no_such_pid; goes_on = true; unlinks = none }

-- Call 0 takes the lock and its process ends.
abbrev taken : System
taken = after_call two_processes init 0 going_well

abbrev deserted : System
deserted = record {
  now = taken.now;
  dead = update taken.dead 0 true;
  root = taken.root;
  pc = taken.pc;
}

-- Call 1, after `n` transitions from there.
abbrev next : System → System
next s = after_call two_processes s 1 going_well

abbrev found_dead : System
found_dead = next (next (next deserted))

abbrev about_to_move : System
about_to_move = next (next (next (next found_dead)))

abbrev taken_over : System
taken_over = next (next (next (next about_to_move)))

Reach-found_dead : Reach two_processes 5000 found_dead
unfolding step_call publish is_free is_empty on_success read_owner is_lock_owner_alive
    is_process_alive
Reach-found_dead =
    later
      (later
        (later (later (later start (act 0 going_well refl tt tt)) (die 0))
          (act 1 going_well refl tt tt))
        (act 1 going_well refl tt tt))
      (act 1 going_well refl tt (λ e. refl, λ s r e f n. refl, λ e. refl))

Reach-about_to_move : Reach two_processes 5000 about_to_move
unfolding step_call publish is_free is_empty on_success read_owner is_lock_owner_alive
    is_process_alive has_token write_draft is_draft stamp
Reach-about_to_move =
    later
      (later
        (later (later Reach-found_dead (act 1 going_well refl tt tt))
          (act 1 going_well refl (omega arith) tt))
        (act 1 going_well refl (omega arith) tt))
      (act 1 going_well refl (omega arith) tt)

Reach-taken_over : Reach two_processes 5000 taken_over
unfolding step_call publish is_free is_empty on_success read_owner is_lock_owner_alive
    is_process_alive has_token write_draft is_draft stamp bury tomb_owner
Reach-taken_over =
    later
      (later
        (later (later Reach-about_to_move (act 1 going_well refl (omega arith) tt))
          (act 1 going_well refl (omega arith) tt))
        (act 1 going_well refl tt tt))
      (act 1 going_well refl tt tt)

mutual_exclusion_example :
    (read_owner taken_over.root ≡ some (owner_of two_processes 1))
    × ((j : ℕ) → taken_over.dead j ≡ false → is_holding (taken_over.pc j) ≡ true → 1 ≡ j)
unfolding step_call publish is_free is_empty on_success read_owner is_lock_owner_alive
    is_process_alive has_token write_draft is_draft stamp bury tomb_owner is_holding
mutual_exclusion_example =
    mutual_exclusion two_processes 5000 taken_over 1 (omega arith) Reach-taken_over refl refl

takeover_never_broken_example :
    (about_to_move.pc 1 ≢ broken)
    × ((o : Owner) (at : ℕ)
        → about_to_move.pc 1 ≡ moved o at
        → about_to_move.now ≤ at + 5000
        → has_token (tomb_owner about_to_move.root o) o.token ≡ true)
takeover_never_broken_example =
    takeover_never_broken two_processes 5000 about_to_move 1 (omega arith) Reach-about_to_move

-- Call 1 has stamped the dead owner's lock and is suspended for four days, call 2 sees the same owner
-- dead just before call 1 moves on, and call 3 takes the lock. Three days later the tomb is old enough
-- to be collected, and call 2, suspended since, moves the lock of call 3 away.
abbrev day_ms : ℕ
day_ms = 24 * 60 * 60 * 1000

abbrev acts : ℕ → System → System
acts i s = after_call two_processes s i going_well

abbrev waits : ℕ → System → System
waits ms s = record { now = s.now + ms; dead = s.dead; root = s.root; pc = s.pc }

abbrev both_suspended : System
both_suspended =
    acts 3 (acts 1 (acts 2 (acts 2 (acts 2 (acts 2 (waits (4 * day_ms) about_to_move))))))

abbrev displaced : System
displaced =
    acts 2
      (acts 2 (acts 2 (acts 2 (after_gc (λ p t. false) (waits (3 * day_ms + 1) both_suspended)))))

displaced_lock :
    (displaced.pc 3 ≡ holding) × (displaced.dead 3 ≡ false) × (displaced.root.lock ≡ none)
unfolding step_call publish is_free is_empty on_success read_owner is_lock_owner_alive
    is_process_alive has_token write_draft is_draft stamp bury tomb_owner gc_tombs is_stale
displaced_lock = (refl, refl, refl)

-- Call 0's lock, whose process has ended.
abbrev dead_lock : LockRoot
dead_lock = record {
  lock = some (record {
    owner = some (owner_of two_processes 0);
    stolen_at = none;
    drafts = [];
    others = false;
  });
  tombs = λ p t. none;
}

abbrev plain : Policy
plain = record { timeout_ms = 15000; retry_contention = false; own_pid = 401 }

abbrev retrying : Policy
retrying = record { timeout_ms = 15000; retry_contention = true; own_pid = 401 }

abbrev fresh : Timer
fresh = record { deadline = 15000; backoff_ceiling_ms = 100; unreadable_deadlines = 0 }

abbrev two_tries : List FailedTry
two_tries =
    record { now = 0; back = 0; why = live_holder 400 }
    ∷ record { now = 14990; back = 0; why = recovery_failed }
    ∷ []

two_tries_go_on : run_waits plain fresh two_tries ≡ some fresh
unfolding run_waits after_wait counted
two_tries_go_on = refl

run_waits-ends_example :
    (0 + sum_by (λ a. slept_ms 25 a.why) two_tries ≤ 15000 + 25)
    × All (λ a. a.now ≤ 15000) two_tries
unfolding slept_ms
run_waits-ends_example =
    run_waits-ends plain fresh fresh 25 0 two_tries refl (omega arith)
      (omega arith, (omega arith, tt)) two_tries_go_on

after_wait-GivesUp_example :
    (after_wait retrying fresh 15001 0 (live_holder 401) ≡ none)
    ↔ GivesUp retrying fresh 15001 (live_holder 401)
after_wait-GivesUp_example = after_wait-GivesUp retrying fresh 15001 0 (live_holder 401)

abbrev late_tries : List FailedTry
late_tries =
    record { now = 15001; back = 15050; why = unreadable }
    ∷ record { now = 30051; back = 30200; why = unreadable }
    ∷ record { now = 45201; back = 45300; why = unreadable }
    ∷ []

late_attempts_reached : late_attempts retrying fresh late_tries ≡ 2
unfolding late_attempts after_wait back_off counted
late_attempts_reached = refl
