-- ===== src/Gate.antt =====
-- The two hysteresis gates of the broker: the load gate (src/load.js) and the CPU gate
-- (src/admission.js). A sample is a number in a fixed unit (hundredths of a load or of a percent),
-- and so are the thresholds. `lastSampleAt`, which no decision reads, is left out.
pub mod Hysteresis
mod Tests
use lane_broker.Prelude.{
  ℕ, ◌+◌, Bool, true, false, ◌&&◌, ◌||◌, not, Option, none, some, List, [], ◌∷◌, ltb, leb, ◌==◌,
  if◌then◌else◌,
}

-- `cfg.loadClose`, `cfg.loadOpen` and `cfg.loadOpenSamples`, or the three of the CPU gate.
pub record Thresholds : Type 0 where
  pub close : ℕ
  pub open_below : ℕ
  pub open_samples : ℕ

-- `fingerprintOf` joins the three numbers, so two fingerprints are equal exactly when the
-- thresholds are; a missing one equals none.
abbrev pub same_fingerprint : Option Thresholds → Thresholds → Bool
same_fingerprint none t = false
same_fingerprint (some s) t =
    s.close == t.close && (s.open_below == t.open_below && s.open_samples == t.open_samples)

pub record GateState : Type 0 where
  pub closed : Bool
  pub consecutive_under : ℕ
  pub fingerprint : Option Thresholds
  pub last : Option ℕ

abbrev pub fresh_gate : GateState
fresh_gate = record { closed = false; consecutive_under = 0; fingerprint = none; last = none }

-- `prev ? { ...prev } : { closed: false, consecutiveUnder: 0 }`
abbrev pub stored_or_fresh : Option GateState → GateState
stored_or_fresh none = fresh_gate
stored_or_fresh (some s) = s

-- A change of thresholds restarts the countdown and leaves `closed` alone.
abbrev pub restamp : Thresholds → GateState → GateState
restamp t s =
    if same_fingerprint s.fingerprint t
    then s
    else record s { consecutive_under = 0; fingerprint = some t }

-- The body that both transitions share, after the close test `over`.
abbrev pub transition : Bool → ℕ → Thresholds → GateState → GateState
transition over sample t s =
    if over
    then record s { closed = true; consecutive_under = 0 }
    else if s.closed
    then if ltb sample t.open_below
      then if leb t.open_samples (s.consecutive_under + 1)
        then record s { closed = false; consecutive_under = 0 }
        else record s { consecutive_under = s.consecutive_under + 1 }
      else record s { consecutive_under = 0 }
    else s

-- `updateGateState`: the load gate closes strictly above its threshold.
unfoldable pub update_gate_state : Option GateState → ℕ → Thresholds → GateState
update_gate_state prev load t =
    let s = transition (ltb t.close load) load t (restamp t (stored_or_fresh prev)) in
    record s { last = some load }

-- `updateCpuGateState`: the CPU gate closes at its threshold already.
unfoldable pub update_cpu_gate_state : Option GateState → ℕ → Thresholds → GateState
update_cpu_gate_state prev busy t =
    let s = transition (leb t.close busy) busy t (restamp t (stored_or_fresh prev)) in
    record s { last = some busy }

-- What `sampleAndUpdateCpuGate` reads of a CPU sample. `usable` is false for a missing sample, for
-- readings that are not finite and for `cores <= 0`; `percent` is the busy percentage that the
-- source computes from the non-preemptible busy cores.
pub record CpuReading : Type 0 where
  pub usable : Bool
  pub stale : Bool
  pub reused : Bool
  pub percent : ℕ

-- The state that `sampleAndUpdateCpuGate` returns, and the one in the file afterwards. `stored` is
-- the sanitized file, and `written` says whether the write went through.
unfoldable pub sample_and_update_cpu_gate :
    GateState → CpuReading → Thresholds → (written : Bool) → GateState × GateState
unfolding update_cpu_gate_state
sample_and_update_cpu_gate stored r t written =
    if r.reused
    then (
      if r.usable && leb t.close r.percent then record stored { closed = true } else stored,
      stored,
    )
    else if not r.usable || r.stale
    then (stored, stored)
    else let next = update_cpu_gate_state (some stored) r.percent t in
      (next, if written then next else stored)

-- `sampleAndUpdateGate`: the load gate's file after a sample, which is the state that is returned, and
-- `readGateState`.
unfoldable pub sample_and_update_gate :
    Option GateState → (load : ℕ) → Thresholds → Option GateState
sample_and_update_gate file load t = some (update_gate_state file load t)

abbrev pub read_gate_state : Option GateState → GateState
read_gate_state file = stored_or_fresh file

-- A run of either transition over successive samples under one configuration.
unfoldable pub run_gate :
    (Option GateState → ℕ → Thresholds → GateState) → Thresholds → GateState → List ℕ → GateState
run_gate update t s [] = s
run_gate update t s (x ∷ xs) = run_gate update t (update (some s) x t) xs
