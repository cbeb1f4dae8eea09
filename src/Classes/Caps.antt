-- ===== src/Classes/Caps.antt =====
-- The sim caps (src/classes.js) hold over any run of starts and ends of leases.
use lane_broker.Prelude.{
  ℕ, zero, suc, ◌+◌, ◌-◌, ◌*◌, ◌≤◌, ◌<◌, min, ◌≡◌, ◌⊎◌, inl, inr, ◌&&◌, Option, none, some, List,
  [], ◌∷◌, arith, ltb, leb, if◌then◌else◌, Bool-cases, Option-cases, is_some,
}
use lane_broker.Records.{Class, is_sim, Lease, Resources}
use lane_broker.Resources.{Host, Config, floor_cores, ceil_cores, lease_resources}
use lane_broker.Resources.Whole.{le-floor_cores, ceil_cores-le}
use lane_broker.Classes.{
  Classes, is_active, Booked, booked_sims, sim_core_ceiling, sim_cap_reason, cap_sim_claim,
}

-- What is booked is within the caps, and, while a sim is booked, out of the cores that are reserved for
-- tests.
abbrev pub IsWithinCaps : Classes → (budget : ℕ) → Booked → Type 0
IsWithinCaps c budget b =
    (b.count ≤ c.max_tickets)
    × (b.cores ≤ c.cap_cores)
    × (b.memory_bytes ≤ c.cap_memory_bytes)
    × ((b.count ≡ 0) ⊎ (b.cores + c.reserve_cores ≤ budget))

pub sim_cap_reason-none :
    (c : Classes) (b : Booked) (cores memory budget : ℕ)
    → sim_cap_reason c b cores memory budget ≡ none
    → (b.count < c.max_tickets)
      × (b.cores + cores ≤ c.cap_cores)
      × (b.memory_bytes + memory ≤ c.cap_memory_bytes)
      × (b.cores + cores + c.reserve_cores ≤ budget)
unfolding sim_cap_reason sim_core_ceiling
sim_cap_reason-none c b cores memory budget e = ground arith

-- A lease starts if it is no sim or if the caps leave room for what it is granted; a lease ends.
pub data LeaseEvent : Type 0 where
  begin : Lease → LeaseEvent
  finish : (index : ℕ) → LeaseEvent

abbrev pub without_nth : ℕ → List Lease → List Lease
without_nth n [] = []
without_nth zero (l ∷ held) = held
without_nth (suc n) (l ∷ held) = l ∷ without_nth n held

unfoldable pub lease_event :
    Host → Config → Classes → (budget : ℕ) → List Lease → LeaseEvent → List Lease
lease_event h cfg c budget held (begin l) =
    let r = lease_resources h cfg l in
    if is_sim l.class
      && is_some (sim_cap_reason c (booked_sims h cfg held) r.cpu_cores r.memory_bytes budget)
    then held
    else l ∷ held
lease_event h cfg c budget held (finish n) = without_nth n held

unfoldable pub lease_run :
    Host → Config → Classes → (budget : ℕ) → List Lease → List LeaseEvent → List Lease
lease_run h cfg c budget held [] = held
lease_run h cfg c budget held (e ∷ es) =
    lease_run h cfg c budget (lease_event h cfg c budget held e) es

abbrev LessBooked : Booked → Booked → Type 0
LessBooked a b = (a.count ≤ b.count) × (a.cores ≤ b.cores) × (a.memory_bytes ≤ b.memory_bytes)

booked_sims-without_nth :
    (h : Host) (cfg : Config) (n : ℕ) (held : List Lease)
    → LessBooked (booked_sims h cfg (without_nth n held)) (booked_sims h cfg held)
unfolding booked_sims
booked_sims-without_nth h cfg n [] = ground arith
booked_sims-without_nth h cfg zero (l ∷ held) = ground (arith, Bool-cases (is_sim l.class))
booked_sims-without_nth h cfg (suc n) (l ∷ held) =
    ground (arith, booked_sims-without_nth h cfg n held, Bool-cases (is_sim l.class))

lease_event-IsWithinCaps :
    (h : Host) (cfg : Config) (c : Classes) (budget : ℕ) (held : List Lease) (e : LeaseEvent)
    → IsWithinCaps c budget (booked_sims h cfg held)
    → IsWithinCaps c budget (booked_sims h cfg (lease_event h cfg c budget held e))
unfolding lease_event booked_sims
lease_event-IsWithinCaps h cfg c budget held (begin l) w =
    let r = lease_resources h cfg l in
    let q = sim_cap_reason-none c (booked_sims h cfg held) r.cpu_cores r.memory_bytes budget in
    elim (Option-cases
      (sim_cap_reason c (booked_sims h cfg held) r.cpu_cores r.memory_bytes budget)) [
        | inl room ↦ ground (arith, w, room, q room, Bool-cases (is_sim l.class))
        | inr (why, full) ↦ ground (arith, w, full, Bool-cases (is_sim l.class))
      ]
lease_event-IsWithinCaps h cfg c budget held (finish n) w =
    ground (arith, w, booked_sims-without_nth h cfg n held)

-- Over any run of starts and ends of leases, where a sim starts only if the caps leave room for what it
-- is granted, the sims that are held stay within the caps on their number, cores and memory and, while
-- there are any, out of the cores reserved for tests, from every state in which they are.
pub lease_run-IsWithinCaps :
    (h : Host) (cfg : Config) (c : Classes) (budget : ℕ) (held : List Lease) (es : List LeaseEvent)
    → IsWithinCaps c budget (booked_sims h cfg held)
    → IsWithinCaps c budget (booked_sims h cfg (lease_run h cfg c budget held es))
unfolding lease_run
lease_run-IsWithinCaps h cfg c budget held [] w = w
lease_run-IsWithinCaps h cfg c budget held (e ∷ es) w =
    lease_run-IsWithinCaps h cfg c budget (lease_event h cfg c budget held e) es
      (lease_event-IsWithinCaps h cfg c budget held e w)

-- A sim's claim that the caps lower is still at least its floor and at most what it declared, its cores
-- pass the caps, and nothing else of it changes.
pub cap_sim_claim-lowered :
    (h : Host) (c : Classes) (b : Booked) (budget : ℕ) (class : Class) (cpu m : ℕ)
    (memory : Option ℕ)
    → 0 < h.unit
    → let r : Resources = record {
      cpu_cores = some cpu;
      min_cpu_cores = some m;
      memory_bytes = memory;
    } in
      let after = cap_sim_claim h c b budget class r in
      (after ≡ r)
      ⊎ ((x : ℕ) × (after.cpu_cores ≡ some x)
          × (m ≤ x)
          × (x < cpu)
          × (b.cores + x ≤ c.cap_cores)
          × (b.cores + x + c.reserve_cores ≤ budget)
          × (after.memory_bytes ≡ memory))
unfolding cap_sim_claim sim_core_ceiling
cap_sim_claim-lowered h c b budget class cpu m memory pos =
    let left = min c.cap_cores (budget - c.reserve_cores) - b.cores in
    let ceiling = floor_cores h left in
    let f = le-floor_cores h ceiling left pos in
    let g = ceil_cores-le h ceiling m pos in
    elim (Bool-cases
      (leb c.reserve_cores budget && leb b.cores (min c.cap_cores (budget - c.reserve_cores)))) [
        | inr negative ↦ inl (ground (arith, negative))
        | inl some_left ↦
            elim (Bool-cases (
              is_sim class
              && c.valid
              && is_active c.mode
              && ltb (ceiling * h.unit) cpu
              && leb (ceil_cores h m) ceiling)) [
                | inr unchanged ↦ inl (ground (arith, some_left, unchanged))
                | inl lowered ↦ inr (
                  ceiling * h.unit,
                  ground (arith, some_left, lowered),
                  ground (arith, lowered, g),
                  ground (arith, lowered),
                  ground (arith, some_left, f.0 (omega arith)),
                  ground (arith, some_left, f.0 (omega arith)),
                  ground (arith, some_left, lowered),
                )
              ]
      ]
