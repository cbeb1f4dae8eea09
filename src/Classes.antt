-- ===== src/Classes.antt =====
-- The per-class caps (src/classes.js): what the sims may book of a machine, and what a lane carries of
-- its class to a runner. Cores are in the unit of Resources. Booked and granted cores may come to more
-- than a cap, so a difference that would be negative is `none`.
mod Caps
mod Policy
mod Dispatch
mod Tests
use lane_broker.Prelude.{
  ℕ, ◌+◌, ◌-◌, ◌*◌, min, Bool, true, false, not, ◌&&◌, ◌||◌, Option, none, some, List, [], ◌∷◌, ltb,
  leb, ◌==◌, if◌then◌else◌, or_else, filter_by, any_by,
}
use lane_broker.Records.{Class, test, sim, is_sim, Lease, Ticket, Resources}
use lane_broker.Resources.{
  Host, Config, Claim, floor_cores, ceil_cores, cpu_budget_cores, exclusive_budget,
  resolve_ticket_resources, lease_resources,
}

pub data Mode : Type 0 where
  off shadow active : Mode

abbrev pub is_off : Mode → Bool
is_off off = true
is_off m = false

abbrev pub is_active : Mode → Bool
is_active active = true
is_active m = false

-- The `classes` block of the configuration, its numbers optional.
pub record ClassesConfig : Type 0 where
  pub mode : Mode
  pub reserve_cores : Option ℕ
  pub cap_cores : Option ℕ
  pub max_tickets : Option ℕ
  pub cap_memory_bytes : Option ℕ

pub record Classes : Type 0 where
  pub mode : Mode
  pub valid : Bool
  pub reserve_cores : ℕ
  pub cap_cores : ℕ
  pub max_tickets : ℕ
  pub cap_memory_bytes : ℕ

abbrev pub no_caps : (valid : Bool) → Classes
no_caps valid = record {
  mode = off;
  valid = valid;
  reserve_cores = 0;
  cap_cores = 0;
  max_tickets = 0;
  cap_memory_bytes = 0;
}

-- `invalid` is a block that does not parse, or a reload that failed with one in force.
unfoldable pub resolve_classes : (invalid : Bool) → Option ClassesConfig → Classes
resolve_classes true block = no_caps false
resolve_classes false none = no_caps true
resolve_classes false (some c) = record {
  mode = c.mode;
  valid = true;
  reserve_cores = or_else c.reserve_cores 0;
  cap_cores = or_else c.cap_cores 0;
  max_tickets = or_else c.max_tickets 0;
  cap_memory_bytes = or_else c.cap_memory_bytes 0;
}

pub record Booked : Type 0 where
  pub cores : ℕ
  pub memory_bytes : ℕ
  pub count : ℕ

unfoldable pub booked_sims : Host → Config → List Lease → Booked
booked_sims h cfg [] = record { cores = 0; memory_bytes = 0; count = 0 }
booked_sims h cfg (l ∷ held) =
    let booked = booked_sims h cfg held in
    let r = lease_resources h cfg l in
    if is_sim l.class
    then record {
      cores = booked.cores + r.cpu_cores;
      memory_bytes = booked.memory_bytes + r.memory_bytes;
      count = booked.count + 1;
    }
    else booked

-- `none` is a negative number of cores.
unfoldable pub sim_core_ceiling : Classes → Booked → (budget : ℕ) → Option ℕ
sim_core_ceiling c booked budget =
    if leb c.reserve_cores budget && leb booked.cores (min c.cap_cores (budget - c.reserve_cores))
    then some (min c.cap_cores (budget - c.reserve_cores) - booked.cores)
    else none

pub data CapReason : Type 0 where
  max_tickets_reached cap_cores_reached cap_memory_reached test_reserve_reached : CapReason

unfoldable pub sim_cap_reason :
    Classes → Booked → (cores memory_bytes budget : ℕ) → Option CapReason
sim_cap_reason c booked cores memory budget =
    if leb c.max_tickets booked.count
    then some max_tickets_reached
    else if ltb c.cap_cores (booked.cores + cores)
    then some cap_cores_reached
    else if ltb c.cap_memory_bytes (booked.memory_bytes + memory)
    then some cap_memory_reached
    else elim (sim_core_ceiling c booked budget) [
      | none ↦ some test_reserve_reached
      | some ceiling ↦ if ltb ceiling cores then some test_reserve_reached else none
    ]

-- Cores and memory of the smallest grant that the ticket could ever get.
unfoldable pub smallest_sim_grant : Host → Config → Ticket → ℕ × ℕ
smallest_sim_grant h cfg t =
    let declared =
      resolve_ticket_resources h t.weight t.resources.cpu_cores none t.resources.memory_bytes
        cfg.default_memory_bytes_per_weight in
    if t.exclusive then exclusive_budget h cfg else elim t.resources.min_cpu_cores [
      | none ↦ (declared.cpu_cores, declared.memory_bytes)
      | some m ↦ (min declared.cpu_cores (ceil_cores h m * h.unit), declared.memory_bytes)
    ]

unfoldable pub enforcement_available : Classes → Bool
enforcement_available c = is_active c.mode && c.valid

pub data DenialReason : Type 0 where
  enforcement_unavailable config_invalid : DenialReason
  capped : CapReason → DenialReason

-- Why the class policy forbids one ticket to start; `booked` is only looked at under valid caps.
unfoldable pub cap_verdict : Host → Config → Classes → Booked → Ticket → Option DenialReason
cap_verdict h cfg c booked t =
    if t.enforcement_required && not (enforcement_available c)
    then some enforcement_unavailable
    else if not (is_sim t.class)
    then none
    else if not c.valid
    then some config_invalid
    else if is_off c.mode
    then none
    else let grant = smallest_sim_grant h cfg t in
      elim (sim_cap_reason c booked grant.0 grant.1 (cpu_budget_cores h cfg)) [
        | none ↦ none
        | some reason ↦ some (capped reason)
      ]

unfoldable pub cap_denied_sims :
    Host → Config → Classes → List Lease → List (Option Ticket) → List (ℕ × DenialReason)
cap_denied_sims h cfg c held [] = []
cap_denied_sims h cfg c held (none ∷ queue) = cap_denied_sims h cfg c held queue
cap_denied_sims h cfg c held (some t ∷ queue) =
    let rest = cap_denied_sims h cfg c held queue in
    elim (cap_verdict h cfg c (booked_sims h cfg held) t) [
      | none ↦ rest
      | some reason ↦ (t.id, reason) ∷ rest
    ]

-- ALWAYS_ENFORCED_REASONS
abbrev pub always_enforced : DenialReason → Bool
always_enforced enforcement_unavailable = true
always_enforced config_invalid = true
always_enforced (capped r) = false

pub record QueuePolicy : Type 0 where
  pub cap_enforced : List (ℕ × DenialReason)
  pub sims_after_tests : Bool

unfoldable pub class_queue_policy :
    Host → Config → Classes → List Lease → List (Option Ticket) → QueuePolicy
class_queue_policy h cfg c held queue = record {
  cap_enforced =
      filter_by (λ (v : ℕ × DenialReason). is_active c.mode || always_enforced v.1)
        (cap_denied_sims h cfg c held queue);
  sims_after_tests = c.valid && is_active c.mode;
}

unfoldable pub is_eligible : QueuePolicy → Ticket → Bool
is_eligible p t = not (any_by (λ (v : ℕ × DenialReason). v.0 == t.id) p.cap_enforced)

-- `capSimClaim` on the resources of the ticket, which it changes alone.
unfoldable pub cap_sim_claim :
    Host → Classes → Booked → (budget : ℕ) → Class → Resources → Resources
cap_sim_claim h c booked budget class r = elim r.min_cpu_cores [
  | none ↦ r
  | some m ↦ elim r.cpu_cores [
    | none ↦ r
    | some cpu ↦ elim (sim_core_ceiling c booked budget) [
      | none ↦ r
      | some left ↦
          let ceiling = floor_cores h left in
          if is_sim class
            && c.valid
            && is_active c.mode
            && ltb (ceiling * h.unit) cpu
            && leb (ceil_cores h m) ceiling
          then record {
            cpu_cores = some (ceiling * h.unit);
            min_cpu_cores = if ltb m (ceiling * h.unit) then some m else none;
            memory_bytes = r.memory_bytes;
          }
          else r
    ]
  ]
]

-- `laneClass` and whether `classEnforcement` is "required", as a dispatch carries them.
pub record Transport : Type 0 where
  pub lane_class : Option Class
  pub enforcement_required : Bool

unfoldable pub class_transport : Classes → Ticket → Transport
class_transport c t = record {
  lane_class =
      if enforcement_available c && is_sim t.class
      then some sim
      else if t.enforcement_required
      then some (if is_sim t.class then sim else test)
      else none;
  enforcement_required = t.enforcement_required;
}

pub data Mismatch : Type 0 where
  unenforced_lane sim_lane_elsewhere : Mismatch

abbrev pub expects_sim : Option Class → Bool
expects_sim none = false
expects_sim (some k) = is_sim k

-- The runner's own resolution of the lane is its class and whether it requires enforcement.
unfoldable pub class_transport_mismatch :
    Transport → (resolved_class : Class) (resolved_required : Bool) → Option Mismatch
class_transport_mismatch expected resolved_class resolved_required =
    if expected.enforcement_required && not resolved_required
    then some unenforced_lane
    else if expects_sim expected.lane_class && not (is_sim resolved_class)
    then some sim_lane_elsewhere
    else none
