-- ===== src/Classes/Tests.antt =====
-- The theorems on class caps (src/classes.js) on a small machine.
use lane_broker.Prelude.{
  ℕ, ◌≡◌, inl, refl, true, false, not, none, some, List, [], ◌∷◌, arith, any_by,
}
use lane_broker.Classes.Policy.{denies, is_eligible-denies}
use lane_broker.Classes.Caps.{
  IsWithinCaps, LeaseEvent, begin, finish, lease_event, lease_run, lease_run-IsWithinCaps,
}
use lane_broker.Classes.{
  Classes, active, booked_sims, cap_sim_claim, class_queue_policy, is_eligible, sim_cap_reason,
  sim_core_ceiling,
}
use lane_broker.Records.{Lease, running, sim}
use lane_broker.Samples.{sample_ticket}
use lane_broker.Resources.{
  Config, Host, ceil_cores, floor_cores, lease_cpu_cores, lease_resources, resolve_ticket_resources,
}

abbrev ten_cores : Host
ten_cores = record { unit = 100; one_percent = 10; memory_bytes = 64 }

abbrev no_reserve : Config
no_reserve = record {
  active = true;
  cpu_reserve_cores = 0;
  cpu_admission_percent = 100;
  memory_reserve_bytes = 0;
  default_memory_bytes_per_weight = 1;
}

-- At most two sims, together 5 cores and 20 bytes, and 4 cores for tests.
abbrev caps : Classes
caps = record {
  mode = active;
  valid = true;
  reserve_cores = 400;
  cap_cores = 500;
  max_tickets = 2;
  cap_memory_bytes = 20;
}

abbrev sim_lease : (id cores : ℕ) → Lease
sim_lease id cores = record {
  id = id;
  key = id;
  boot_id = 1;
  state = running;
  supervisor_pid = 400;
  supervisor_start = none;
  child_pgid = 401;
  class = sim;
  exclusive = false;
  weight = 1;
  resources = record { cpu_cores = some cores; min_cpu_cores = none; memory_bytes = some 8 };
  granted_cpu_cores = none;
  cpu_scope_unit = false;
  orphan_reap = none;
}

abbrev three_starts : List LeaseEvent
three_starts =
    begin (sim_lease 1 300) ∷ begin (sim_lease 2 300) ∷ begin (sim_lease 3 200) ∷ finish 0 ∷ []

-- The second sim does not fit next to the first, the third does.
three_starts_held : lease_run ten_cores no_reserve caps 1000 [] three_starts ≡ sim_lease 1 300 ∷ []
unfolding lease_run lease_event sim_cap_reason sim_core_ceiling booked_sims lease_resources
    resolve_ticket_resources lease_cpu_cores
three_starts_held = refl

lease_run-IsWithinCaps_example :
    IsWithinCaps caps 1000
      (booked_sims ten_cores no_reserve (lease_run ten_cores no_reserve caps 1000 [] three_starts))
unfolding booked_sims
lease_run-IsWithinCaps_example =
    lease_run-IsWithinCaps ten_cores no_reserve caps 1000 [] three_starts
      (omega arith, omega arith, omega arith, inl refl)

cap_sim_claim_here :
    cap_sim_claim ten_cores caps
      (record { cores = 150; memory_bytes = 8; count = 1 })
      1000
      sim
      (record { cpu_cores = some 600; min_cpu_cores = some 100; memory_bytes = none })
    ≡ record { cpu_cores = some 300; min_cpu_cores = some 100; memory_bytes = none }
unfolding cap_sim_claim sim_core_ceiling floor_cores ceil_cores
cap_sim_claim_here = refl

is_eligible-denies_example :
    is_eligible
      (class_queue_policy ten_cores no_reserve caps [] (some (sample_ticket 7 3 2) ∷ []))
      (sample_ticket 7 3 2)
    ≡ not (any_by (denies ten_cores no_reserve caps [] 7) (some (sample_ticket 7 3 2) ∷ []))
is_eligible-denies_example =
    is_eligible-denies ten_cores no_reserve caps [] (some (sample_ticket 7 3 2) ∷ [])
      (sample_ticket 7 3 2)
