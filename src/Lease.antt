-- ===== src/Lease.antt =====
-- Leases (src/lease.js), the liveness test of src/process-liveness.js and the signals of
-- src/descendants.js. What a pass reads of the operating system is an argument: the results of the
-- liveness probes and the process table. A lease file is an `Option Lease`, `none` once removed.
pub mod Reaping
pub mod Order
pub mod Release
mod Tests
use lane_broker.Prelude.{
  ℕ, ◌+◌, ◌-◌, Bool, true, false, ◌&&◌, ◌||◌, not, Option, none, some, List, [], ◌∷◌, ◌++◌, ltb,
  leb, ◌==◌, if◌then◌else◌, length, any_by, is_some, or_else,
}
use lane_broker.Records.{LeaseState, running, orphaned, done, is_sim, OrphanReap, Lease}

-- What `processStartTime` answers: a start time, `null` (no such process) or `undefined` (`ps` could
-- not be run).
pub data StartProbe : Type 0 where
  started_at : ℕ → StartProbe
  not_found probe_failed : StartProbe

-- The probes of one process: `isPidAlive`, `processStartTime`, and `isPidAlive` once more.
pub record ProcessProbe : Type 0 where
  pub pid_alive : Bool
  pub start : StartProbe
  pub alive_again : Bool

-- `isProcessAlive`: an indeterminate probe counts as alive.
unfoldable pub is_process_alive : ProcessProbe → Option ℕ → Bool
is_process_alive p none = p.pid_alive
is_process_alive p (some recorded) = p.pid_alive && elim p.start [
  | started_at now ↦ now == recorded
  | not_found ↦ p.alive_again
  | probe_failed ↦ true
]

-- A live recorded member of the lease's process tree. `key` is its pid and start token;
-- `signalable` says that the pid is above 1 and that its row could be read.
pub record Member : Type 0 where
  pub key : ℕ
  pub signalable : Bool

-- `signalLive`: the members signalled now, each once, and never one that is in `sent`.
unfoldable pub signal_live : List Member → List ℕ → List ℕ
signal_live [] sent = []
signal_live (m ∷ ms) sent =
    let hit = m.signalable && not (any_by (λ k. k == m.key) sent) in
    let rest = signal_live ms (if hit then sent ++ m.key ∷ [] else sent) in
    if hit then m.key ∷ rest else rest

abbrev pub orphan_kill_give_up_ms : ℕ
orphan_kill_give_up_ms = 30000

abbrev pub orphan_unreadable_give_up_ms : ℕ
orphan_unreadable_give_up_ms = 60000

-- What one pass of the orphan reap ends with. A release says whether the reap is complete, that is,
-- whether the process table was read and no member was alive.
pub data ReapPass : Type 0 where
  released : (signalled : ℕ) (complete : Bool) → ReapPass
  held : Lease → ReapPass

abbrev pub first_pass : ℕ → OrphanReap
first_pass now = record {
  scope_stop_attempted = false;
  term_at = now;
  kill_at = none;
  signalled = 0;
  termed = [];
  killed = [];
}

-- Is it at least `wait` since the optional instant?
abbrev pub elapsed : Option ℕ → ℕ → ℕ → Bool
elapsed none now wait = false
elapsed (some at) now wait = leb wait (now - at)

abbrev is_empty_scan : Option (List Member) → Bool
is_empty_scan (some []) = true
is_empty_scan _ = false

-- The record that a pass which keeps the lease writes: TERM for the new live members, or KILL once
-- the grace period is over. `killAt` is the instant of the first pass that really sent a KILL.
unfoldable pub next_reap : ℕ → Lease → OrphanReap → ℕ → Option (List Member) → OrphanReap
next_reap grace lease state now rows =
    let past_grace =
      is_some rows && (is_some lease.orphan_reap && leb grace (now - state.term_at)) in
    let kills = is_some state.kill_at || past_grace in
    let hit = signal_live (or_else rows []) (if kills then state.killed else state.termed) in
    record {
      scope_stop_attempted = lease.cpu_scope_unit;
      term_at = state.term_at;
      kill_at =
          if is_some state.kill_at
          then state.kill_at
          else if past_grace && not (length hit == 0)
          then some now
          else none;
      signalled = state.signalled + length hit;
      termed = if kills then state.termed else state.termed ++ hit;
      killed = if kills then state.killed ++ hit else state.killed;
    }

-- The second half of `stepOrphanReap`, once the three release tests have failed.
unfoldable pub signal_pass : ℕ → Lease → OrphanReap → ℕ → Option (List Member) → ReapPass
signal_pass grace lease state now rows =
    let next = next_reap grace lease state now rows in
    if not (is_some next.kill_at) && leb orphan_unreadable_give_up_ms (now - state.term_at)
    then released next.signalled false
    else held (record lease { state = orphaned; orphan_reap = some next })

-- `stepOrphanReap`. `rows` is the scan: `none` where the process table could not be read.
unfoldable pub step_orphan_reap : ℕ → Lease → ℕ → Option (List Member) → ReapPass
step_orphan_reap grace lease now rows =
    let state = or_else lease.orphan_reap (first_pass now) in
    if is_empty_scan rows
    then released state.signalled true
    else if not (is_some rows) && leb orphan_unreadable_give_up_ms (now - state.term_at)
    then released state.signalled false
    else if elapsed state.kill_at now orphan_kill_give_up_ms
    then released state.signalled false
    else signal_pass grace lease state now rows

pub data ReapAction : Type 0 where
  kept reaped marked_orphaned : ReapAction

-- What `reapIfStale` reads of the system for one lease.
pub record Sight : Type 0 where
  pub supervisor : ProcessProbe
  pub group_alive : Bool
  pub rows : Option (List Member)

-- The action, the lease file afterwards, and whether the sim demand stamp is touched.
pub record Reaped : Type 0 where
  pub action : ReapAction
  pub file : Option Lease
  pub stamps_sim : Bool

abbrev is_orphaned : LeaseState → Bool
is_orphaned orphaned = true
is_orphaned _ = false

abbrev of_pass : Lease → ReapPass → Reaped
of_pass lease (released n complete) = record {
  action = reaped;
  file = none;
  stamps_sim = is_sim lease.class;
}
of_pass lease (held l) = record {
  action = marked_orphaned;
  file = some l;
  stamps_sim = is_sim lease.class;
}

unfoldable pub reap_if_stale : (grace current_boot now : ℕ) → Lease → Sight → Reaped
reap_if_stale grace current_boot now lease sight =
    if not (lease.boot_id == current_boot)
    then record { action = reaped; file = none; stamps_sim = is_sim lease.class }
    else if is_process_alive sight.supervisor lease.supervisor_start
    then record { action = kept; file = some lease; stamps_sim = false }
    else if not sight.group_alive
    then of_pass lease (step_orphan_reap grace lease now sight.rows)
    else record {
      action = marked_orphaned;
      file = some (if is_orphaned lease.state then lease else record lease { state = orphaned });
      stamps_sim = is_sim lease.class;
    }

-- `reapAll`: every lease file with what was seen of it, and the files that are left.
unfoldable pub reap_all : (grace current_boot now : ℕ) → List (Lease × Sight) → List Lease
reap_all grace boot now [] = []
reap_all grace boot now ((lease, sight) ∷ rest) =
    let others = reap_all grace boot now rest in
    elim ((reap_if_stale grace boot now lease sight).file) [ none ↦ others | some l ↦ l ∷ others ]

-- Why `liveLease` refuses.
pub data NotLive : Type 0 where
  not_a_ticket_id no_record other_boot not_running supervisor_exited : NotLive

abbrev is_running : LeaseState → Bool
is_running running = true
is_running _ = false

-- `liveLease`: `none` where the id names a live lease. `valid` is `isTicketId(id)`.
unfoldable pub live_lease : (valid : Bool) → Option Lease → ℕ → ProcessProbe → Option NotLive
live_lease false file boot probe = some not_a_ticket_id
live_lease true none boot probe = some no_record
live_lease true (some lease) boot probe =
    if not (lease.boot_id == boot)
    then some other_boot
    else if not (is_running lease.state)
    then some not_running
    else if not (is_process_alive probe lease.supervisor_start)
    then some supervisor_exited
    else none
