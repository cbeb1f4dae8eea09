-- ===== src/Resources/Tests.antt =====
-- The theorems on claims and budgets (src/resources.js) on a host of ten cores in hundredths.
use lane_broker.Prelude.{ℕ, ◌+◌, ◌≡◌, ◌↔◌, refl, true, some, List, [], ◌∷◌}
use lane_broker.Resources.Memory.{
  AreWithin, ReserveIsLeft, grown, in_all, evaluate_memory_admission-leaves_reserve,
}
use lane_broker.Resources.{
  Config, HeldMemory, Host, ceil_cores, cpu_budget_cores, elastic_claim_range,
  evaluate_memory_admission, floor_cores, host_cores, memory_ok,
}
use lane_broker.Records.{Resources}

abbrev ten_cores : Host
ten_cores = record { unit = 100; one_percent = 10; memory_bytes = 64 }

abbrev reserve_two : Config
reserve_two = record {
  active = true;
  cpu_reserve_cores = 200;
  cpu_admission_percent = 75;
  memory_reserve_bytes = 8;
  default_memory_bytes_per_weight = 1;
}

budget_by_percent : cpu_budget_cores ten_cores reserve_two ≡ 750
unfolding cpu_budget_cores host_cores
budget_by_percent = refl

range_found_here : elastic_claim_range ten_cores (some 600) (some 150) 750 300 ≡ some (2, 4)
unfolding elastic_claim_range floor_cores ceil_cores
range_found_here = refl

abbrev nine_cores : Resources
nine_cores = record { cpu_cores = some 900; min_cpu_cores = some 150; memory_bytes = some 20 }

abbrev one_held : List HeldMemory
one_held = record { requested = 16; observed = 6 } ∷ []

evaluate_memory_admission-leaves_reserve_example :
    (evaluate_memory_admission (some 40) (some 64) one_held 20 8 ≡ memory_ok) ↔ (
      (used : List ℕ)
      → AreWithin used one_held
      → ReserveIsLeft 40 (some 64) 8 (in_all used + 20) (grown used one_held + 20))
evaluate_memory_admission-leaves_reserve_example =
    evaluate_memory_admission-leaves_reserve 40 (some 64) one_held 20 8
