-- ===== src/Allocation/Tests.antt =====
-- A queue of sims and tests over a budget of ten cores, in hundredths of a core.
use lane_broker.Prelude.{
  ℕ, ◌+◌, ◌*◌, ◌≤◌, ◌<◌, max, ◌≡◌, ◌⊎◌, refl, true, false, Option, none, some, List, [], ◌∷◌, ◌++◌,
  map, arith, if◌then◌else◌, find_by,
}
use lane_broker.Records.{Class, sim, test}
use lane_broker.Allocation.{
  Candidate, Pool, clamp_grant, evaluate_candidate, fits_now, floor_claim, is_charged, is_counted,
  is_oversized, reserved_other, sim_armed, sim_lock, sim_lock_ceiling, test_lock, used_by_class,
}
use lane_broker.Allocation.Deciding.{
  Decision, decide, decisions, evaluate_queue, head_claim, pool_of, select, select_behind, smallest,
}
use lane_broker.Allocation.Locks.{
  evaluate_candidate-no_starvation, lock_of_other, used_other, used_own,
}
use lane_broker.Allocation.Picks.{Chosen, select-Chosen}
use lane_broker.Allocation.Whole.{evaluate_queue-leaves_lock}

abbrev ten_cores : Pool
ten_cores = record {
  unit = 100;
  budget = 1000;
  used_tests = 0;
  used_sims = 0;
  external_busy = 0;
  reserved_head = 0;
  armed = false;
  sims_can_arm = true;
  idle_exempt = false;
}

abbrev asking : (id : ℕ) (class : Class) (claim : ℕ) → Candidate
asking id class claim = record {
  id = id;
  class = class;
  claim = claim;
  min_cpu_cores = none;
  conflict_blocked = false;
  safe_backfill = false;
  guards = [];
}

-- The first sim does not fit under the tests' lock; the tests behind it do, the third the smallest.
abbrev three_queued : List (Option Candidate)
three_queued =
    some (asking 1 sim 900) ∷ some (asking 2 test 400) ∷ some (asking 3 test 200) ∷ none ∷ []

abbrev third : Decision
third = record {
  id = some 3;
  index = 2;
  eligible = true;
  reason = fits_now;
  effective_claim = 200;
  safe_backfill = false;
}

third_picked : (evaluate_queue ten_cores [] three_queued 0 none 0 1 4 false).pick ≡ some third
unfolding evaluate_queue head_claim pool_of used_by_class sim_armed decisions decide
    evaluate_candidate is_oversized clamp_grant sim_lock_ceiling sim_lock test_lock reserved_other
    floor_claim select select_behind smallest is_counted is_charged
third_picked = refl

evaluate_queue-leaves_lock_example :
    (before : List Candidate) × (t : Candidate) × (after : List (Option Candidate)) × (three_queued
      ≡ map some before ++ (some t ∷ after))
    × (third.id ≡ some t.id)
    × (t.conflict_blocked ≡ false)
    × (t.guards ≡ [])
    × (100 * (third.effective_claim + used_own (pool_of ten_cores [] three_queued 0 none 0) t.class)
          + max
              (lock_of_other (pool_of ten_cores [] three_queued 0 none 0) t.class)
              (100 * used_other (pool_of ten_cores [] three_queued 0 none 0) t.class)
        ≤ 100 * (pool_of ten_cores [] three_queued 0 none 0).budget)
evaluate_queue-leaves_lock_example =
    evaluate_queue-leaves_lock ten_cores [] three_queued 0 none 0 1 4 false third third_picked

evaluate_candidate-no_starvation_example :
    ((evaluate_candidate (record ten_cores { armed = true }) (asking 4 test 5000)).eligible ≡ true)
    ⊎ ((70 * 1000 < 100 * 100) × (70 * 1000 < 100 * 5000))
evaluate_candidate-no_starvation_example =
    evaluate_candidate-no_starvation (record ten_cores { armed = true }) (asking 4 test 5000) refl
      (omega arith) refl refl

abbrev blocked_first : Decision
blocked_first = record third { id = some 1; eligible = false }

abbrev larger : Decision
larger = record third { id = some 2; effective_claim = 400 }

select-Chosen_example :
    let s = select 1 4 false (blocked_first ∷ larger ∷ third ∷ []) in
    (1 + s.consumed ≤ max 1 4)
    × (((1 < 4)
          × ((b : Decision) × (s.pick ≡ some b)
              × Chosen (larger ∷ third ∷ []) b
              × (s.consumed ≡ (if b.safe_backfill then 0 else 1))))
        ⊎ ((4 ≤ 1)
            × (s.consumed ≡ 0)
            × (s.pick ≡ find_by (λ (e : Decision). e.safe_backfill) (larger ∷ third ∷ []))))
select-Chosen_example =
    select-Chosen 1 4 blocked_first (larger ∷ third ∷ []) larger (third ∷ []) refl refl
