-- ===== src/Scheduler/Start/Verdict.antt =====
-- The refusals of `tryStart` (src/scheduler.js) in their order, and the start that is left.
mod Walks
mod Candidates
pub mod Safety
mod Tests
use lane_broker.Prelude.{
  ◌+◌, Bool, true, false, not, ◌&&◌, ◌||◌, Option, none, some, List, [], ◌∷◌, ltb, leb, ◌==◌,
  if◌then◌else◌, is_some, length, every_by,
}
use lane_broker.Records.{is_sim, Ticket, Lease}
use lane_broker.Scheduler.Exclusive.{is_exclusive}
use lane_broker.Scheduler.Start.{
  Context, Settings, Evidence, is_blocked, running_weight, queue_of, head_conflicted,
  exclusive_holder, head_capacity_blocked, is_head, safe_backfill, head_bypass,
  priority_yield_eligible, express_admit, candidate,
}

pub data CpuReason : Type 0 where
  cpu_ok projected_over_budget cpu_gate_closed cooldown cpu_unavailable : CpuReason

abbrev pub is_cpu_ok : CpuReason → Bool
is_cpu_ok cpu_ok = true
is_cpu_ok r = false

abbrev pub is_projected : CpuReason → Bool
is_projected projected_over_budget = true
is_projected r = false

-- `BYPASS_LIFTED_CPU_REASONS`
abbrev pub is_lifted_reason : CpuReason → Bool
is_lifted_reason projected_over_budget = true
is_lifted_reason cpu_gate_closed = true
is_lifted_reason cooldown = true
is_lifted_reason r = false

-- `cpuDecision`, as far as the verdict reads it.
pub record Decision : Type 0 where
  pub admit : Bool
  pub cpu_reason : CpuReason
  pub memory_ok : Bool
  pub idle_overshoot_fits : Bool

-- What the evaluation reads after the selection, and whether its writes go through.
pub record Gates : Type 0 where
  pub paused : Bool
  pub class_denied : Bool
  pub load_gate_closed : Bool
  pub memory_critical : Bool
  pub bypass_yields : Bool
  pub resource_futile : Bool
  pub skip_written : Bool
  pub cancelled : Bool
  pub yield_written : Bool
  pub express_written : Bool
  pub dequeued : Bool

pub data Refusal : Type 0 where
  not_head conflict paused_broker elastic_below_floor class_cap load_gate_shut capacity : Refusal
  memory_pressure cpu_admission memory_admission cancelled_ticket : Refusal

abbrev pub is_plain : Option Ticket → Bool
is_plain none = false
is_plain (some t) = not t.exclusive

-- `isFloorTicket`
abbrev pub is_floor_ticket : Evidence → Ticket → Bool
is_floor_ticket e t = e.is_floor_gate t && not (is_sim t.class) && not t.exclusive

unfoldable pub floor_trial : Context → Settings → Evidence → Bool
floor_trial c cfg e =
    cfg.active
    && not e.floor_lease_held
    && cfg.floor_on
    && is_floor_ticket e c.queued
    && every_by is_plain c.ahead

abbrev pub runnable : Context → Evidence → Ticket → Bool
runnable c e t =
    not (is_blocked c.held t)
    && leb (running_weight c.held + t.weight) c.weight_capacity
    && not (e.below_floor t)

-- The walk of `floorWinner`.
unfoldable pub floor_walk : Context → Evidence → List (Option Ticket) → Option Ticket
floor_walk c e [] = none
floor_walk c e (none ∷ rs) = none
floor_walk c e (some t ∷ rs) =
    let rest = floor_walk c e rs in
    if t.exclusive
    then none
    else if is_floor_ticket e t && runnable c e t && e.within_overshoot t
    then some t
    else rest

unfoldable pub floor_winner : Context → Evidence → Option Ticket
floor_winner c e =
    if e.floor_barred || (runnable c e c.head && e.head_admitted)
    then none
    else floor_walk c e (queue_of c)

-- `bypassTrialVerdict`, where `bypass_open` says that the caps have room, the lane is not excluded and
-- the estimates predict a short run.
unfoldable pub bypass_trial : Context → Settings → Evidence → Bool
bypass_trial c cfg e =
    cfg.active
    && e.bypass_open
    && not c.ticket.exclusive
    && not (is_sim c.ticket.class)
    && every_by is_plain c.ahead
    && runnable c e c.ticket

abbrev pub names_ticket : Context → Option Ticket → Bool
names_ticket c none = false
names_ticket c (some t) = t.id == c.ticket.id

abbrev pub lift_trial : Context → Settings → Evidence → Bool
lift_trial c cfg e = floor_trial c cfg e || bypass_trial c cfg e

unfoldable pub ordinarily_admitted : Context → Settings → Evidence → Decision → Bool
ordinarily_admitted c cfg e d = names_ticket c (candidate c cfg e) && d.admit

unfoldable pub floor_admit : Context → Settings → Evidence → Decision → Bool
floor_admit c cfg e d =
    floor_trial c cfg e && not (ordinarily_admitted c cfg e d) && names_ticket c (floor_winner c e)

unfoldable pub bypass_admit : Context → Settings → Evidence → Decision → Gates → Bool
bypass_admit c cfg e d g =
    bypass_trial c cfg e
    && not (ordinarily_admitted c cfg e d)
    && not (floor_admit c cfg e d)
    && d.memory_ok
    && is_lifted_reason d.cpu_reason
    && not g.bypass_yields

unfoldable pub lifted : Context → Settings → Evidence → Decision → Gates → Bool
lifted c cfg e d g = floor_admit c cfg e d || bypass_admit c cfg e d g

-- The refusals that follow from the selection alone.
unfoldable pub selection_refusal : Context → Settings → Evidence → Option Refusal
selection_refusal c cfg e =
    if is_some (candidate c cfg e)
    then (if not (names_ticket c (candidate c cfg e)) && not (lift_trial c cfg e)
        then some not_head
        else none)
    else if not (is_head c) && not (lift_trial c cfg e)
    then some not_head
    else if head_conflicted c && not (lift_trial c cfg e && not (is_head c))
    then some conflict
    else none

unfoldable pub idle_exempt : Context → Settings → Decision → Bool
idle_exempt c cfg d =
    cfg.active
    && not d.admit
    && is_projected d.cpu_reason
    && d.memory_ok
    && is_head c
    && length c.held == 0
    && cfg.idle_overshoot_on
    && d.idle_overshoot_fits

-- The early returns of a stretch of the source: the first test that holds refuses.
unfoldable pub first_refusal : List (Bool × Refusal) → Option Refusal
first_refusal [] = none
first_refusal ((test, why) ∷ tests) =
    let rest = first_refusal tests in if test then some why else rest

-- The refusals of the gates, from the pause flag to CPU and memory admission.
abbrev pub gate_tests : Context → Settings → Evidence → Decision → Gates → List (Bool × Refusal)
gate_tests c cfg e d g =
    (g.paused, paused_broker)
    ∷ (
      lift_trial c cfg e && not (lifted c cfg e d g) && not (names_ticket c (candidate c cfg e)),
      not_head,
    )
    ∷ (not (exclusive_holder c) && e.below_floor c.ticket, elastic_below_floor)
    ∷ (g.class_denied, class_cap)
    ∷ (
      not (exclusive_holder c)
          && (cfg.admission_load_gate && g.load_gate_closed && not (length c.held == 0)),
      load_gate_shut,
    )
    ∷ (
      not (exclusive_holder c) && ltb c.weight_capacity (running_weight c.held + c.ticket.weight),
      capacity,
    )
    ∷ (g.memory_critical, memory_pressure)
    ∷ (
      cfg.active
          && not d.admit
          && not (idle_exempt c cfg d)
          && not (lifted c cfg e d g)
          && not (exclusive_holder c),
      if is_cpu_ok d.cpu_reason then memory_admission else cpu_admission,
    )
    ∷ []

unfoldable pub gate_refusal : Context → Settings → Evidence → Decision → Gates → Option Refusal
gate_refusal c cfg e d g = first_refusal (gate_tests c cfg e d g)

-- Does this start pass the head, so that a skip must be recorded first?
unfoldable pub counts_skip : Context → Settings → Evidence → Decision → Gates → Bool
counts_skip c cfg e d g =
    not (is_head c)
    && not (head_bypass c cfg e)
    && not (lifted c cfg e d g)
    && ((head_conflicted c && not (safe_backfill c cfg e))
        || head_capacity_blocked c
        || (not (safe_backfill c cfg e)
            && not (head_conflicted c)
            && e.resource_backfill
            && not g.resource_futile))

-- The refusals of the writes that must precede a start.
abbrev pub record_tests : Context → Settings → Evidence → Decision → Gates → List (Bool × Refusal)
record_tests c cfg e d g =
    (counts_skip c cfg e d g && not g.skip_written, not_head)
    ∷ (g.cancelled, cancelled_ticket)
    ∷ (
      priority_yield_eligible c cfg e
          && not (express_admit c cfg e)
          && not (lifted c cfg e d g)
          && not g.yield_written,
      not_head,
    )
    ∷ (head_bypass c cfg e && not (lifted c cfg e d g) && not g.express_written, not_head)
    ∷ (not g.dequeued, not_head)
    ∷ []

unfoldable pub record_refusal : Context → Settings → Evidence → Decision → Gates → Option Refusal
record_refusal c cfg e d g = first_refusal (record_tests c cfg e d g)

abbrev pub or_refusal : Option Refusal → Option Refusal → Option Refusal
or_refusal none r = r
or_refusal (some x) r = some x

-- `none` where the ticket starts.
unfoldable pub refusal : Context → Settings → Evidence → Decision → Gates → Option Refusal
refusal c cfg e d g =
    or_refusal (selection_refusal c cfg e)
      (or_refusal (gate_refusal c cfg e d g) (record_refusal c cfg e d g))
