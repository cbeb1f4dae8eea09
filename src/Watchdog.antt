-- ===== src/Watchdog.antt =====
-- The watchdog over a running command (src/no-progress.js): how long it has made no progress, and when it
-- is killed. The clock is monotonic, in milliseconds, CPU time is in microseconds. What the scan of the
-- process tree and the table of CPU times give is an argument: `none` where either could not be read,
-- else the cumulative CPU time of each member of the tree under its identity, each once.
mod Streak
mod Tests
use lane_broker.Prelude.{
  ℕ, ◌+◌, ◌-◌, ◌*◌, ◌≤◌, max, Bool, true, false, not, ◌&&◌, ◌||◌, Option, none, some, List, [], ◌∷◌,
  ltb, leb, ◌==◌, if◌then◌else◌, find_by, length, or_else,
}

abbrev pub Snapshot : Type 0
Snapshot = List (ℕ × ℕ)

pub record Baseline : Type 0 where
  pub at : ℕ
  pub output_bytes : ℕ
  pub cpu : Snapshot

pub record Watch : Type 0 where
  pub output_bytes : ℕ
  pub baseline : Option Baseline
  pub idle_since : ℕ
  pub max_idle_ms : ℕ
  pub last_output : Option ℕ

-- `previous.cpu.get(key)`
unfoldable pub cpu_before : Snapshot → (identity : ℕ) → Option ℕ
cpu_before previous k = elim (find_by (λ (m : ℕ × ℕ). m.0 == k) previous) [
  | none ↦ none
  | some m ↦ some m.1
]

-- The CPU time that the tree used between two snapshots, `none` where a process joined.
unfoldable pub cpu_delta : Snapshot → Snapshot → Option ℕ
cpu_delta previous [] = some 0
cpu_delta previous ((k, cpu) ∷ rest) =
    let more = cpu_delta previous rest in
    elim (cpu_before previous k) [
      | none ↦ none
      | some before ↦ elim more [ none ↦ none | some d ↦ some (cpu - before + d) ]
    ]

-- `intervalCores` gives a number: as many processes as before, none of them new.
unfoldable pub interval_cpu : Baseline → Snapshot → Option ℕ
interval_cpu previous current =
    let delta = cpu_delta previous.cpu current in
    if length previous.cpu == length current then delta else none

-- `#idleBetween`: no output, no churn, and at most 0.05 s of CPU per minute.
unfoldable pub idle_between : Baseline → (output_bytes : ℕ) → Snapshot → (now : ℕ) → Bool
idle_between previous bytes current now =
    (previous.output_bytes == bytes) && elim (interval_cpu previous current) [
      | none ↦ false
      | some delta ↦ leb (6 * delta) (5 * (now - previous.at))
    ]

unfoldable pub baseline_of : (output_bytes now : ℕ) → Option Snapshot → Option Baseline
baseline_of bytes now none = none
baseline_of bytes now (some cpu) = some (record { at = now; output_bytes = bytes; cpu = cpu })

unfoldable pub is_idle : Watch → Option Snapshot → (now : ℕ) → Bool
is_idle w none now = false
is_idle w (some current) now = elim w.baseline [
  | none ↦ false
  | some previous ↦ idle_between previous w.output_bytes current now
]

-- One observation: the watch after it, and the idle streak.
unfoldable pub observe : Watch → Option Snapshot → (now : ℕ) → Watch × ℕ
observe w snapshot now =
    let idle = is_idle w snapshot now in
    let streak = if idle then now - w.idle_since else 0 in
    (
      record {
        output_bytes = w.output_bytes;
        baseline = baseline_of w.output_bytes now snapshot;
        idle_since = if idle then w.idle_since else now;
        max_idle_ms = max w.max_idle_ms streak;
        last_output = w.last_output;
      },
      streak,
    )

unfoldable pub note_output : Watch → (byte_count now : ℕ) → Watch
note_output w bytes now = record {
  output_bytes = w.output_bytes + bytes;
  baseline = w.baseline;
  idle_since = w.idle_since;
  max_idle_ms = w.max_idle_ms;
  last_output = some now;
}

-- `start`: a run that never writes is silent from here.
unfoldable pub start_watch : Watch → (now : ℕ) → Watch
start_watch w now = record {
  output_bytes = w.output_bytes;
  baseline = w.baseline;
  idle_since = w.idle_since;
  max_idle_ms = w.max_idle_ms;
  last_output = some (or_else w.last_output now);
}

unfoldable pub silent_ms : Watch → (now : ℕ) → ℕ
silent_ms w now = elim w.last_output [ none ↦ 0 | some at ↦ now - at ]

unfoldable pub should_kill_silent : (silence_timeout_ms : ℕ) → Watch → (now : ℕ) → Bool
should_kill_silent timeout w now = ltb 0 timeout && leb timeout (silent_ms w now)

unfoldable pub should_kill : (timeout_ms idle_ms : ℕ) → Bool
should_kill timeout idle_ms = ltb 0 timeout && leb timeout idle_ms

abbrev pub new_watch : Watch
new_watch = record {
  output_bytes = 0;
  baseline = none;
  idle_since = 0;
  max_idle_ms = 0;
  last_output = none;
}
