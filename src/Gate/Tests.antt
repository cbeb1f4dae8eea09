-- ===== src/Gate/Tests.antt =====
-- Small runs of the two gates, and the theorems of Gate/Hysteresis at concrete inputs.
use lane_broker.Prelude.{ℕ, ◌≡◌, refl, List, [], ◌∷◌, true, false, some, arith}
use lane_broker.Gate.{
  Thresholds, GateState, CpuReading, fresh_gate, update_gate_state, update_cpu_gate_state, run_gate,
}
use lane_broker.Gate.Hysteresis.{HasQuietStretch, run_gate-HasQuietStretch, run_gate_opens}

-- The shipped thresholds of the load gate, in hundredths: 15, 11 and three samples.
abbrev shipped : Thresholds
shipped = record { close = 1500; open_below = 1100; open_samples = 3 }

abbrev shut : GateState
shut = record { closed = true; consecutive_under = 0; fingerprint = some shipped; last = some 1600 }

abbrev samples : List ℕ
samples = 900 ∷ 1200 ∷ 900 ∷ 800 ∷ 700 ∷ []

reopens : (run_gate update_gate_state shipped shut samples).closed ≡ false
unfolding run_gate update_gate_state
reopens = refl

closes_above : (update_gate_state (some fresh_gate) 1500 shipped).closed ≡ false
unfolding update_gate_state
closes_above = refl

closes_at : (update_cpu_gate_state (some fresh_gate) 1500 shipped).closed ≡ true
unfolding update_cpu_gate_state
closes_at = refl

run_gate-HasQuietStretch_example :
    ((run_gate update_gate_state shipped shut samples).closed ≡ false
      → HasQuietStretch shipped samples)
    × ((run_gate update_cpu_gate_state shipped shut samples).closed ≡ false
        → HasQuietStretch shipped samples)
run_gate-HasQuietStretch_example = run_gate-HasQuietStretch shipped shut samples refl refl refl

run_gate_opens_example :
    ((run_gate update_gate_state shipped shut (900 ∷ 800 ∷ 700 ∷ [])).closed ≡ false)
    × ((run_gate update_cpu_gate_state shipped shut (900 ∷ 800 ∷ 700 ∷ [])).closed ≡ false)
run_gate_opens_example =
    run_gate_opens shipped shut 900 (800 ∷ 700 ∷ []) (omega arith) (omega arith) (omega arith)

abbrev reread : CpuReading
reread = record { usable = true; stale = false; reused = true; percent = 9900 }

abbrev edited : Thresholds
edited = record { close = 2000; open_below = 1800; open_samples = 2 }
