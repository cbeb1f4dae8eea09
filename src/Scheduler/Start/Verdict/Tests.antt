-- ===== src/Scheduler/Start/Verdict/Tests.antt =====
-- The theorems of Verdict/Safety at one start.
use lane_broker.Prelude.{◌≡◌, refl, true, false, none, some, [], ◌∷◌}
use lane_broker.Samples.{sample_lease, sample_ticket}
use lane_broker.Records.{Ticket}
use lane_broker.Scheduler.Blocking.{blocked_by, blocked_loop, select_candidate}
use lane_broker.Scheduler.Exclusive.{is_exclusive_head, without_backfill_exclusives}
use lane_broker.Scheduler.Start.{
  Context, Settings, Evidence, is_blocked, candidate, safe_backfill, head_bypass, express_admit,
  express_eligible, priority_yield_eligible, cannot_delay_head, walk_queue, conflict_pick,
}
use lane_broker.Scheduler.Start.Verdict.{
  cpu_ok, Decision, Gates, refusal, selection_refusal, gate_refusal, record_refusal, first_refusal,
  floor_trial, bypass_trial, lifted, floor_admit, bypass_admit, ordinarily_admitted, idle_exempt,
  counts_skip,
}
use lane_broker.Scheduler.Start.Early.{EarlyView}
use lane_broker.Scheduler.Start.Verdict.Safety.{start-unblocked}

-- The head waits for key 5; the ticket behind it does not.
abbrev polling : Ticket
polling = sample_ticket 12 7 1

abbrev behind_conflict : Context
behind_conflict = record {
  head = record (sample_ticket 11 9 2) { conflicts = 5 ∷ [] };
  behind = some polling ∷ [];
  ahead = some (record (sample_ticket 11 9 2) { conflicts = 5 ∷ [] }) ∷ [];
  ticket = polling;
  queued = polling;
  held = sample_lease 2 5 2 ∷ [];
  weight_capacity = 10;
}

abbrev settings : Settings
settings = record {
  active = true;
  conflict_safe_backfill = true;
  express_on = false;
  admission_load_gate = true;
  floor_on = false;
  idle_overshoot_on = true;
}

abbrev evidence : Evidence
evidence = record {
  skip_exhausted = false;
  capacity_skip_exhausted = false;
  capacity_reserved = false;
  resource_backfill = false;
  resource_reserved = false;
  behind_conflict_record = false;
  claim_of = λ t. none;
  express_head_protected = false;
  express_rate_open = true;
  express_predicted = false;
  floor_lease_held = false;
  is_floor_gate = λ t. false;
  below_floor = λ t. false;
  head_admitted = false;
  floor_barred = false;
  within_overshoot = λ t. false;
  bypass_open = false;
}

abbrev admitted : Decision
admitted = record {
  admit = true;
  cpu_reason = cpu_ok;
  memory_ok = true;
  idle_overshoot_fits = false;
}

abbrev open_gates : Gates
open_gates = record {
  paused = false;
  class_denied = false;
  load_gate_closed = false;
  memory_critical = false;
  bypass_yields = false;
  resource_futile = false;
  skip_written = true;
  cancelled = false;
  yield_written = true;
  express_written = true;
  dequeued = true;
}

starts_behind_conflict : refusal behind_conflict settings evidence admitted open_gates ≡ none
unfolding refusal selection_refusal gate_refusal record_refusal first_refusal floor_trial
    bypass_trial lifted floor_admit bypass_admit ordinarily_admitted idle_exempt counts_skip
    candidate safe_backfill head_bypass express_admit express_eligible priority_yield_eligible
    cannot_delay_head walk_queue conflict_pick select_candidate blocked_by blocked_loop
    is_exclusive_head without_backfill_exclusives
starts_behind_conflict = refl

start-unblocked_example : is_blocked behind_conflict.held polling ≡ false
start-unblocked_example =
    start-unblocked behind_conflict settings evidence admitted open_gates
      ((λ i. cc), ((λ i. (refl, refl, refl)), tt)) starts_behind_conflict

abbrev early_view : EarlyView
early_view = record {
  push_held = false;
  in_queue = true;
  withdrawn = false;
  start_deadline = some 500;
  cancelled = false;
  class_cap = false;
}
