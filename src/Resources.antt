-- ===== src/Resources.antt =====
-- Claims and budgets (src/resources.js). CPU cores are counted in a unit of which a core has `unit`,
-- fine enough that one percent of the host's cores is whole; memory is bytes. A grant is a whole
-- number of cores.
pub mod Whole
mod Elastic
mod Memory
mod Tests
use lane_broker.Prelude.{
  ℕ, ◌+◌, ◌-◌, ◌*◌, ◌/◌, min, max, Bool, true, false, not, ◌&&◌, ◌||◌, Option, none, some, List,
  ltb, leb, if◌then◌else◌, or_else, sum_by,
}
use lane_broker.Records.{Lease, Ticket, Resources}

pub record Host : Type 0 where
  pub unit : ℕ
  pub one_percent : ℕ
  pub memory_bytes : ℕ

pub record Config : Type 0 where
  pub active : Bool
  pub cpu_reserve_cores : ℕ
  pub cpu_admission_percent : ℕ
  pub memory_reserve_bytes : ℕ
  pub default_memory_bytes_per_weight : ℕ

unfoldable pub host_cores : Host → ℕ
host_cores h = h.one_percent * 100

-- `Math.floor` and `Math.ceil` of a number of cores.
unfoldable pub floor_cores : Host → ℕ → ℕ
floor_cores h x = x / h.unit

unfoldable pub ceil_cores : Host → ℕ → ℕ
ceil_cores h x = (x + (h.unit - 1)) / h.unit

unfoldable pub cpu_budget_cores : Host → Config → ℕ
cpu_budget_cores h cfg =
    min (host_cores h - cfg.cpu_reserve_cores) (cfg.cpu_admission_percent * h.one_percent)

unfoldable pub memory_budget : Host → Config → ℕ
memory_budget h cfg = h.memory_bytes - cfg.memory_reserve_bytes

-- What a ticket or lease claims once its defaults are filled in.
pub record Claim : Type 0 where
  pub cpu_cores : ℕ
  pub min_cpu_cores : Option ℕ
  pub memory_bytes : ℕ

unfoldable pub resolve_ticket_resources :
    Host
    → (weight : ℕ) (cpu_cores min_cpu_cores memory_bytes : Option ℕ)
      (default_memory_bytes_per_weight : ℕ)
    → Claim
resolve_ticket_resources h weight cpu_cores min_cpu_cores memory_bytes per_weight =
    let cpu = or_else cpu_cores (weight * h.unit) in
    record {
      cpu_cores = cpu;
      min_cpu_cores = elim min_cpu_cores [
        | none ↦ none
        | some m ↦ if ltb 0 m && ltb m cpu then some m else none
      ];
      memory_bytes = or_else memory_bytes (max 1 weight * per_weight);
    }

-- The claim, the floor, and whether the claim was lowered.
unfoldable pub cap_unapproved_cpu :
    (cpu_cores : ℕ) (min_cpu_cores approved_ceiling : Option ℕ) (max_unapproved_cpu_cores : ℕ)
    → ℕ × Option ℕ × Bool
cap_unapproved_cpu cpu floor ceiling unapproved =
    let limit = max (or_else ceiling 0) unapproved in
    if ltb limit cpu
    then (limit, elim floor [ none ↦ none | some m ↦ some (min m limit) ], true)
    else (cpu, floor, false)

unfoldable pub lease_cpu_cores : Lease → Option ℕ
lease_cpu_cores l = elim l.granted_cpu_cores [
  | some granted ↦ some granted
  | none ↦ l.resources.cpu_cores
]

unfoldable pub lease_resources : Host → Config → Lease → Claim
lease_resources h cfg l =
    resolve_ticket_resources h l.weight (lease_cpu_cores l) none l.resources.memory_bytes
      cfg.default_memory_bytes_per_weight

-- `{lo, hi}` in whole cores. The headroom is the budget less what is projected busy.
unfoldable pub elastic_claim_range :
    Host → (cpu_cores min_cpu_cores : Option ℕ) (budget busy : ℕ) → Option (ℕ × ℕ)
elastic_claim_range h none floor budget busy = none
elastic_claim_range h (some cpu) none budget busy = none
elastic_claim_range h (some cpu) (some m) budget busy =
    let hi = min (ceil_cores h cpu - 1) (floor_cores h (budget - busy)) in
    let lo = ceil_cores h m in
    if ltb m cpu && leb busy budget && leb lo hi then some (lo, hi) else none

-- `capElasticClaim` on the resources of the ticket, which it changes alone.
unfoldable pub cap_elastic_claim : Host → Config → Resources → Resources
cap_elastic_claim h cfg r =
    let cap = floor_cores h (cpu_budget_cores h cfg) in
    elim r.min_cpu_cores [
      | none ↦ r
      | some m ↦ elim r.cpu_cores [
        | none ↦ r
        | some cpu ↦
            if cfg.active && ltb (cap * h.unit) cpu && leb 1 cap && leb (ceil_cores h m) cap
            then record {
              cpu_cores = some (cap * h.unit);
              min_cpu_cores = if ltb m (cap * h.unit) then some m else none;
              memory_bytes = r.memory_bytes;
            }
            else r
      ]
    ]

unfoldable pub elastic_below_floor : Host → Config → Resources → Bool
elastic_below_floor h cfg r =
    let cap = floor_cores h (cpu_budget_cores h cfg) in
    elim r.min_cpu_cores [
      | none ↦ false
      | some m ↦ cfg.active && (ltb cap 1 || ltb cap (ceil_cores h m))
    ]

-- `checkResourceBudget`: false is the refusal with exit code 64.
unfoldable pub check_resource_budget : Host → Config → Claim → Bool
check_resource_budget h cfg c =
    let budget = cpu_budget_cores h cfg in
    let cpu_over : Bool = elim c.min_cpu_cores [
      | some m ↦ ltb (floor_cores h budget) (ceil_cores h m)
      | none ↦ ltb budget c.cpu_cores
    ] in
    not (cfg.active && (cpu_over || ltb (memory_budget h cfg) c.memory_bytes))

-- `none` is `capacity: "auto"`.
unfoldable pub effective_weight_capacity : Host → (capacity : Option ℕ) (reserve cores : ℕ) → ℕ
effective_weight_capacity h (some capacity) reserve cores = capacity
effective_weight_capacity h none reserve cores = max 1 (floor_cores h (cores - reserve))

-- `exclusiveBudget`: the whole admission budget, which an exclusive lease claims.
unfoldable pub exclusive_budget : Host → Config → ℕ × ℕ
exclusive_budget h cfg = (cpu_budget_cores h cfg, memory_budget h cfg)

pub data MemoryVerdict : Type 0 where
  memory_unavailable memory_reservations memory_headroom memory_ok : MemoryVerdict

-- What a held lease reserves, and what was observed of it (0 unless it was sampled in the last 30 s).
pub record HeldMemory : Type 0 where
  pub requested : ℕ
  pub observed : ℕ

unfoldable pub observed_memory : (observed_at observed_memory_bytes : Option ℕ) (now : ℕ) → ℕ
observed_memory (some at) (some bytes) now = if leb now (at + 30000) then bytes else 0
observed_memory _ _ now = 0

unfoldable pub growth_reserve : List HeldMemory → ℕ
growth_reserve held = sum_by (λ (m : HeldMemory). m.requested - m.observed) held

unfoldable pub reserved_bytes : List HeldMemory → ℕ
reserved_bytes held = sum_by (λ (m : HeldMemory). m.requested) held

-- `total = none` stands for a memory report without a total.
unfoldable pub evaluate_memory_admission :
    (available total : Option ℕ) → List HeldMemory → (candidate reserve : ℕ) → MemoryVerdict
evaluate_memory_admission none total held candidate reserve = memory_unavailable
evaluate_memory_admission (some available) total held candidate reserve =
    let over : Bool = elim total [
      | none ↦ false
      | some t ↦ ltb (t - reserve) (reserved_bytes held + candidate)
    ] in
    if over
    then memory_reservations
    else if ltb available (growth_reserve held + candidate + reserve)
    then memory_headroom
    else memory_ok
