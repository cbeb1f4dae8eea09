-- ===== src/Resources/Elastic.antt =====
-- Elastic claims (src/resources.js): elasticClaimRange, capElasticClaim and the budget checks agree.
use lane_broker.Prelude.{
  ℕ, ◌+◌, ◌-◌, ◌*◌, ◌≤◌, ◌<◌, min, ◌≡◌, ◌↔◌, inl, inr, true, false, Option, none, some, arith, ltb,
  Bool-cases,
}
use lane_broker.Resources.{
  cpu_budget_cores, memory_budget, Resources, Config, elastic_below_floor, cap_elastic_claim,
  check_resource_budget, Host, floor_cores, ceil_cores, elastic_claim_range,
}
use lane_broker.Resources.Whole.{le-floor_cores, ceil_cores-le}

-- `c` whole cores are at least the floor, less than the claim and within the headroom.
abbrev pub Grantable : Host → (cpu m budget busy c : ℕ) → Type 0
Grantable h cpu m budget busy c =
    (m ≤ c * h.unit) × (c * h.unit < cpu) × (busy + c * h.unit ≤ budget)

module _ (h : Host) (cpu m budget busy : ℕ) where
  range_found :
      (lo hi : ℕ)
      → elastic_claim_range h (some cpu) (some m) budget busy ≡ some (lo, hi)
      → (lo ≡ ceil_cores h m)
        × (hi ≡ min (ceil_cores h cpu - 1) (floor_cores h (budget - busy)))
        × (m < cpu)
        × (busy ≤ budget)
  unfolding elastic_claim_range
  range_found lo hi e = ground arith

  range_missing :
      elastic_claim_range h (some cpu) (some m) budget busy ≡ none
      → m < cpu
      → busy ≤ budget
      → min (ceil_cores h cpu - 1) (floor_cores h (budget - busy)) < ceil_cores h m
  unfolding elastic_claim_range
  range_missing e lt le = ground arith

-- The range that an elastic claim is tried in holds exactly the whole numbers of cores that are at
-- least its floor, less than its full claim and within the headroom, and there is no range only if
-- there is no such number, where a core has a positive number of units.
pub elastic_claim_range-Grantable :
    (h : Host) (cpu m budget busy c : ℕ)
    → 0 < h.unit
    → ((lo hi : ℕ)
        → elastic_claim_range h (some cpu) (some m) budget busy ≡ some (lo, hi)
        → ((lo ≤ c) × (c ≤ hi)) ↔ Grantable h cpu m budget busy c)
      × (elastic_claim_range h (some cpu) (some m) budget busy ≡ none
          → Grantable h cpu m budget busy c
          → ⊥)
elastic_claim_range-Grantable h cpu m budget busy c pos =
    let f = le-floor_cores h c (budget - busy) pos in
    let g = ceil_cores-le h c m pos in
    let k = ceil_cores-le h c cpu pos in
    (
      λ lo hi e.
          let r = range_found h cpu m budget busy lo hi e in
          (λ q. ground (arith, f, g, k, r, q), λ q. ground (arith, f, g, k, r, q)),
      λ e q. ground (arith, f, g, k, q, range_missing h cpu m budget busy e),
    )

-- In active mode, preflight accepts an elastic claim exactly when admission, on the same budget, does
-- not hold its ticket back as below its floor and its memory is within the memory budget, where the
-- floor is positive and a core has a positive number of units.
pub check_resource_budget-elastic_below_floor :
    (h : Host) (cfg : Config) (cpu m memory : ℕ) (declared : Option ℕ)
    → 0 < h.unit
    → 0 < m
    → cfg.active ≡ true
    → (check_resource_budget h cfg
          (record { cpu_cores = cpu; min_cpu_cores = some m; memory_bytes = memory })
        ≡ true)
      ↔ ((elastic_below_floor h cfg
              (record { cpu_cores = some cpu; min_cpu_cores = some m; memory_bytes = declared })
            ≡ false)
          × (memory ≤ memory_budget h cfg))
unfolding check_resource_budget elastic_below_floor
check_resource_budget-elastic_below_floor h cfg cpu m memory declared pos some_floor active =
    ground (arith, ceil_cores-le h 0 m pos, active)

-- In active mode, the cap leaves an elastic ticket as it is if it is below its floor. Else the ticket
-- then claims at most what it declared and at least its floor, and its claim is within the CPU budget.
pub cap_elastic_claim-fits :
    (h : Host) (cfg : Config) (cpu m : ℕ) (memory : Option ℕ)
    → 0 < h.unit
    → cfg.active ≡ true
    → m < cpu
    → let r : Resources = record {
      cpu_cores = some cpu;
      min_cpu_cores = some m;
      memory_bytes = memory;
    } in
      let after = cap_elastic_claim h cfg r in
      (elastic_below_floor h cfg r ≡ true → after ≡ r)
      × (elastic_below_floor h cfg r ≡ false
          → (x : ℕ) × (after.cpu_cores ≡ some x)
            × (m ≤ x)
            × (x ≤ cpu)
            × (x ≤ cpu_budget_cores h cfg)
            × (after.memory_bytes ≡ memory))
unfolding cap_elastic_claim elastic_below_floor
cap_elastic_claim-fits h cfg cpu m memory pos active lt =
    let cap = floor_cores h (cpu_budget_cores h cfg) in
    let f = le-floor_cores h cap (cpu_budget_cores h cfg) pos in
    let g = ceil_cores-le h cap m pos in
    (
      λ e. ground (arith, active),
      λ e. elim (Bool-cases (ltb (cap * h.unit) cpu)) [
        | inl over ↦ (
          cap * h.unit,
          ground (arith, over, active),
          ground (arith, g, active),
          ground (arith, over),
          f.0 (omega arith),
          ground (arith, active, over),
        )
        | inr under ↦ (
          cpu,
          ground (arith, under, active),
          omega (arith, lt),
          omega arith,
          ground (arith, under, f),
          ground (arith, active, under),
        )
      ],
    )
