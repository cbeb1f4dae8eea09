-- ===== src/Runner.antt =====
-- What the broker knows of its runners (src/runner-unreachable.js): the file `runner-unreachable.json`
-- and who may be placed on. Runner names are numbers and each part of the file is a map by name, `none`
-- where it has no entry. Writes happen under the heartbeat lock, one at a time.
mod Contact
mod Readiness
mod Schedule
mod Tests
use lane_broker.Prelude.{
  ℕ, ◌+◌, ◌*◌, Bool, true, false, not, ◌&&◌, Option, none, some, List, [], ◌∷◌, ltb, leb, ◌==◌,
  if◌then◌else◌, or_else, is_some,
}

-- `__heartbeat.runners[name]`
pub record LastPing : Type 0 where
  pub last_ok_at : Option ℕ
  pub last_ping_at : ℕ

-- `missing` is the list of checks that failed.
pub record Gap : Type 0 where
  pub missing : List ℕ
  pub at : ℕ

-- `unreachable n` is the first failed contact of the current streak.
pub record ContactFile : Type 0 where
  pub unreachable : ℕ → Option ℕ
  pub heartbeat_at : Option ℕ
  pub pings : ℕ → Option LastPing
  pub readiness : ℕ → Option Gap

abbrev pub empty_file : ContactFile
empty_file = record {
  unreachable = λ n. none;
  heartbeat_at = none;
  pings = λ n. none;
  readiness = λ n. none;
}

abbrev pub heartbeat_fresh_ms : ℕ
heartbeat_fresh_ms = 5 * 60000

abbrev pub readiness_ttl_ms : ℕ
readiness_ttl_ms = 60 * 60000

-- The clock of one runner keeps its first time on a failure and is removed on an answer.
unfoldable pub apply_contact : (ℕ → Option ℕ) → (name : ℕ) (ok : Bool) (at : ℕ) → ℕ → Option ℕ
apply_contact unreachable name ok at n =
    if name == n then (if ok then none else some (or_else (unreachable n) at)) else unreachable n

-- The file after one contact, and when the runner's streak began.
unfoldable pub record_contact :
    ContactFile → (name : ℕ) (ok : Bool) (now : ℕ) → ContactFile × Option ℕ
record_contact f name ok now =
    let after = apply_contact f.unreachable name ok now in
    (
      record {
        unreachable = after;
        heartbeat_at = f.heartbeat_at;
        pings = f.pings;
        readiness = f.readiness;
      },
      if ok then none else after name,
    )

unfoldable pub last_ok : (ℕ → Option LastPing) → ℕ → Option ℕ
last_ok pings n = elim (pings n) [ none ↦ none | some p ↦ p.last_ok_at ]

-- The runners of one tick: only those pinged keep an entry.
unfoldable pub pinged :
    (before : ℕ → Option LastPing) (now : ℕ) → List (ℕ × Bool) → ℕ → Option LastPing
pinged before now [] n = none
pinged before now ((name, ok) ∷ rest) n =
    let later = pinged before now rest n in
    elim later [
      | some p ↦ some p
      | none ↦
          if name == n
          then some (record {
            last_ok_at = if ok then some now else last_ok before n;
            last_ping_at = now;
          })
          else none
    ]

unfoldable pub contacts : (ℕ → Option ℕ) → (now : ℕ) → List (ℕ × Bool) → ℕ → Option ℕ
contacts unreachable now [] = unreachable
contacts unreachable now ((name, ok) ∷ rest) =
    contacts (apply_contact unreachable name ok now) now rest

-- One tick of `lane runner watch`.
unfoldable pub record_pings : ContactFile → List (ℕ × Bool) → (now : ℕ) → ContactFile
record_pings f pings now = record {
  unreachable = contacts f.unreachable now pings;
  heartbeat_at = some now;
  pings = pinged f.pings now pings;
  readiness = f.readiness;
}

unfoldable pub unexpired : (ℕ → Option Gap) → (now : ℕ) → ℕ → Option Gap
unexpired gaps now n = elim (gaps n) [
  | none ↦ none
  | some g ↦ if leb now (g.at + readiness_ttl_ms) then some g else none
]

-- `gaps` are stored with the time, `clear` names runners that are ready.
unfoldable pub record_readiness :
    ContactFile → (gaps : ℕ → Option (List ℕ)) (clear : ℕ → Bool) (now : ℕ) → ContactFile
record_readiness f gaps clear now = record {
  unreachable = f.unreachable;
  heartbeat_at = f.heartbeat_at;
  pings = f.pings;
  readiness = λ n. elim (gaps n) [
    | some missing ↦ some (record { missing = missing; at = now })
    | none ↦ if clear n then none else unexpired f.readiness now n
  ];
}

unfoldable pub read_readiness : ContactFile → (now : ℕ) → ℕ → Option Gap
read_readiness f now = unexpired f.readiness now

unfoldable pub is_fresh : ContactFile → (now : ℕ) → Bool
is_fresh f now = elim f.heartbeat_at [ none ↦ false | some at ↦ leb now (at + heartbeat_fresh_ms) ]

pub record Runner : Type 0 where
  pub name : ℕ
  pub offline : Bool

-- `downRunnerReasons` names this runner: placement skips it without a probe.
unfoldable pub is_down : ContactFile → (runner_down_after_ms now : ℕ) → Runner → Bool
is_down f after now r =
    ltb 0 after
    && is_fresh f now
    && not r.offline
    && elim (f.unreachable r.name) [ none ↦ false | some since ↦ leb (since + after) now ]

-- `heartbeatUpRunners` names this runner: a probe of it that times out is load, not absence.
unfoldable pub is_heartbeat_up : ContactFile → (now : ℕ) → Runner → Bool
is_heartbeat_up f now r =
    is_fresh f now
    && not r.offline
    && not (is_some (f.unreachable r.name))
    && elim (last_ok f.pings r.name) [
      | none ↦ false
      | some ok_at ↦ leb now (ok_at + heartbeat_fresh_ms)
    ]

pub data RunnerState : Type 0 where
  is_offline down unreachable off_schedule up : RunnerState

-- `state` of `collectRunnerStates`, with whether the runner is in one of its windows.
unfoldable pub runner_state :
    ContactFile → (runner_down_after_ms now : ℕ) (on_schedule : Bool) → Runner → RunnerState
runner_state f after now on_schedule r =
    if r.offline
    then is_offline
    else if is_down f after now r
    then down
    else if is_some (f.unreachable r.name)
    then unreachable
    else if not on_schedule
    then off_schedule
    else up

-- `lostSettleAt`
unfoldable pub lost_settle_at : ContactFile → (runner_lost_after_ms : ℕ) → Runner → Option ℕ
lost_settle_at f lost_after r = elim (f.unreachable r.name) [
  | none ↦ none
  | some since ↦ if ltb 0 lost_after && not r.offline then some (since + lost_after) else none
]
