-- ===== src/Admission/Tests.antt =====
-- The theorems of Admission at one load.
use lane_broker.Prelude.{◌+◌, ◌≡◌, true, false, Option, some, is_some}
use lane_broker.Admission.{memory_fits, over_budget, Load, Admission, evaluate_elastic_admission}
use lane_broker.Admission.Elastic.{IsGrant, evaluate_elastic_admission-IsGrant}

abbrev busy_host : Load
busy_host = record {
  sampled = true;
  held_count = 2;
  budget = 8;
  projected = λ claim. 5 + claim;
  gate_is_closed = false;
  cooldown_blocked = false;
}

-- The full claim of 6 cores does not fit.
abbrev denied : Admission
denied = record { cpu_reason = over_budget; memory_reason = memory_fits; admit = false; claim = 6 }

abbrev granted : Option Admission
granted = evaluate_elastic_admission busy_host memory_fits denied (some (2, 5))

evaluate_elastic_admission-IsGrant_example :
    IsGrant busy_host memory_fits 2 5 granted × (is_some granted ≡ true → true ≡ true)
evaluate_elastic_admission-IsGrant_example =
    evaluate_elastic_admission-IsGrant busy_host memory_fits denied 2 5
