-- ===== src/Scheduler/Start/Early.antt =====
-- The refusals of `tryStart` before the selection, and `localGates` (src/scheduler.js), which asks
-- whether a ticket that is not queued could start now.
use lane_broker.Prelude.{
  ℕ, ◌+◌, ◌≡◌, Bool, true, false, not, ◌&&◌, Option, none, some, List, map, arith, ltb, leb,
  if◌then◌else◌, Bool-cases, Option-cases, is_some, length, any_by,
}
use lane_broker.Records.{Lease, Ticket}
use lane_broker.Scheduler.Exclusive.{exclusive_deny, first}
use lane_broker.Scheduler.Start.{is_blocked, running_weight}

-- What is read before the selection. `class_cap` says that a class cap holds the ticket back.
pub record EarlyView : Type 0 where
  pub push_held : Bool
  pub in_queue : Bool
  pub withdrawn : Bool
  pub start_deadline : Option ℕ
  pub cancelled : Bool
  pub class_cap : Bool

pub data EarlyRefusal : Type 0 where
  push_hold not_in_queue is_withdrawn queue_timeout class_capped unreadable_head exclusive_gate :
      EarlyRefusal

-- `Number.isFinite(startDeadline) && now >= startDeadline && !isCancelled`
abbrev pub timed_out : EarlyView → (now : ℕ) → Bool
timed_out v now = elim v.start_deadline [ none ↦ false | some at ↦ leb at now && not v.cancelled ]

unfoldable pub early_refusal :
    EarlyView → (now : ℕ) → List (Option Ticket) → Ticket → List Lease → Option EarlyRefusal
early_refusal v now queue ticket held =
    if v.push_held
    then some push_hold
    else if not v.in_queue
    then some not_in_queue
    else if v.withdrawn
    then some is_withdrawn
    else if timed_out v now
    then some queue_timeout
    else if v.class_cap
    then some class_capped
    else if not (is_some (first queue))
    then some unreadable_head
    else if is_some (exclusive_deny queue ticket held)
    then some exclusive_gate
    else none

-- A ticket reaches the selection only if it is not withdrawn, not past its deadline uncancelled, the
-- head of the queue is readable and the exclusive gate lets it pass.
pub early_refusal-none :
    (v : EarlyView) (now : ℕ) (queue : List (Option Ticket)) (ticket : Ticket) (held : List Lease)
    → early_refusal v now queue ticket held ≡ none
    → (v.withdrawn ≡ false)
      × (timed_out v now ≡ false)
      × (is_some (first queue) ≡ true)
      × (exclusive_deny queue ticket held ≡ none)
unfolding early_refusal
early_refusal-none v now queue ticket held h = ground (
  arith,
  Bool-cases v.push_held,
  Bool-cases v.in_queue,
  Bool-cases v.withdrawn,
  Bool-cases (timed_out v now),
  Bool-cases v.class_cap,
  Option-cases (exclusive_deny queue ticket held),
)

pub data LocalGate : Type 0 where
  gate_ok gate_paused gate_exclusive gate_conflict gate_capacity gate_load : LocalGate
  gate_memory_critical gate_cooldown gate_memory : LocalGate

-- What `localGates` reads besides the leases. `memory_refuses` is the memory verdict in active mode.
pub record GateView : Type 0 where
  pub paused : Bool
  pub load_gate_on : Bool
  pub load_gate_closed : Bool
  pub memory_critical : Bool
  pub active : Bool
  pub asks_cooldown : Bool
  pub cooling_down : Bool
  pub memory_refuses : Bool

unfoldable pub local_gates : GateView → (weight_capacity : ℕ) → Ticket → List Lease → LocalGate
local_gates v weight_capacity ticket held =
    if v.paused
    then gate_paused
    else if any_by (λ (l : Lease). l.exclusive) held
    then gate_exclusive
    else if is_blocked held ticket
    then gate_conflict
    else if ltb weight_capacity (running_weight held + ticket.weight)
    then gate_capacity
    else if v.load_gate_on && ltb 0 (length held) && v.load_gate_closed
    then gate_load
    else if v.memory_critical
    then gate_memory_critical
    else if v.active && v.asks_cooldown && v.cooling_down
    then gate_cooldown
    else if v.active && v.memory_refuses
    then gate_memory
    else gate_ok

-- A record that an older version queued cannot be trusted behind the fence: it reads as unreadable.
abbrev pub fenced : Option Ticket → Option Ticket
fenced none = none
fenced (some t) = if t.sched_v2 then some t else none

-- `fenceLegacy`
unfoldable pub fence_legacy : List (Option Ticket) → List (Option Ticket)
fence_legacy queue = map fenced queue

abbrev pub is_ahead : (held_back : ℕ → Bool) → Option Ticket → Bool
is_ahead held_back none = true
is_ahead held_back (some t) = not (held_back t.id)

-- `couldAdmitLocked`: `none` where anything that is not a held-back push is queued already.
unfoldable pub could_admit :
    GateView
    → (weight_capacity : ℕ) → (held_back : ℕ → Bool) → List (Option Ticket)
    → Ticket
    → List Lease
    → Option LocalGate
could_admit v weight_capacity held_back queue ticket held =
    if any_by (is_ahead held_back) queue
    then none
    else some (local_gates v weight_capacity ticket held)
